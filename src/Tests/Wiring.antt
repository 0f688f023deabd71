-- ===== src/Tests/Wiring.antt =====
-- A start of the proxy, answers of the cluster, failed reads, and a record of the log.
use proxmox_user_quota_proxy.Quota.Validate.{check_user, validate, check_users}
use proxmox_user_quota_proxy.Base.{
  trim_space, ◌≡◌, refl, true, false, none, some, List, [], ◌∷◌, pos, Text, codes, eqb, Map, lookup,
}
use proxmox_user_quota_proxy.Classify
use proxmox_user_quota_proxy.Classify.{one_of, classify}
use proxmox_user_quota_proxy.Identity.{from_request}
use proxmox_user_quota_proxy.Audit.Log.{emit}
use proxmox_user_quota_proxy.Audit.Log.Filter.{logged}
use proxmox_user_quota_proxy.Audit.Log.Accounted.{named, emit_accounted}
use proxmox_user_quota_proxy.Pve.Client.{response, Library}
use proxmox_user_quota_proxy.Writers.{Call, write_header, write, answered}
use proxmox_user_quota_proxy.Writers.Recorded.{Noted, answered-Noted}
use proxmox_user_quota_proxy.Start.{Flags, Url, Host, Tls, Server, goes, main}
use proxmox_user_quota_proxy.Start.Wired.{Wired, main-Wired}
use proxmox_user_quota_proxy.Tests.Fixtures.{whole, store, yaml, first_file, create}

abbrev url : Url
url = record { scheme = codes "https"; host = codes "pve:8006"; path = [] }

abbrev machine : Host
machine = record {
  parse_url = λ s. some url;
  file = λ name. some (codes "token");
  quota_file = λ name. first_file;
  has_certificates = λ s. true;
}

abbrev flags : Flags
flags = record {
  upstream = codes "https://pve:8006";
  tls_cert = codes "cert";
  tls_key = codes "key";
  upstream_ca = codes "ca";
  upstream_insecure = false;
  quotas = codes "quotas";
  pve_token_file = codes "token";
  enforce = true;
  fail_closed = true;
  default_deny = false;
}

abbrev tls : Tls
tls = record { insecure = false; roots = some (codes "token") }

abbrev server : Server
server = record {
  enforcer = record {
    store = some store;
    has_engine = true;
    admins = [];
    enforce = true;
    fail_closed = true;
    default_deny = false;
    polls = 5;
  };
  store = some store;
  client = some (record { base = url; token = codes "token"; tls = tls });
  forwarder = record { target = url; tls = tls };
}

starts : main machine yaml 5 flags ≡ goes server
unfolding main eqb validate check_users check_user lookup trim_space
starts = refl

main-Wired_example : Wired machine yaml server
main-Wired_example = main-Wired machine yaml 5 flags server starts

-- a body without a header, and a header after it
abbrev calls : List Call
calls = write (codes "ok") (pos 2) ∷ write_header (pos 500) ∷ []

answered-Noted_example : Noted calls (answered calls)
answered-Noted_example = answered-Noted calls (tt, (refl, tt))

-- Every request is refused.
abbrev silent : Library
silent = record {
  fetch = λ g. response (pos 403) (codes "403 Forbidden") [];
  path_escape = λ s. s;
  query_escape = λ s. s;
  data_of = λ s. none;
  object = λ s. none;
  string = λ s. none;
  pool = λ s. none;
  contents = λ s. none;
}

-- the parameters of a new guest with a core
abbrev new_params : Map Text
new_params = (codes "cores", codes "1") ∷ (codes "scsi0", codes "local:10") ∷ []

abbrev created : Classify.Result
created = classify (codes "POST") (create []).path

abbrev parameters : Map Text
parameters = (codes "password", codes "secret") ∷ (codes "cores", codes "2") ∷ []

emit_accounted_example :
    let attrs =
      emit
        (from_request (create []).credentials)
        (classify (codes "POST") (create []).path)
        parameters in
    (lookup (logged attrs) (codes "cores") ≡ lookup parameters (codes "cores"))
    × (lookup (logged attrs) (codes "password") ≡ none)
unfolding one_of eqb
emit_accounted_example =
    emit_accounted (from_request (create []).credentials) (classify (codes "POST") (create []).path)
      parameters (codes "cores") (codes "password") (named refl) refl
