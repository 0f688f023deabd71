-- ===== src/Tests/Fixtures.antt =====
-- A cluster with one pool and one guest, a user with limits, and requests of that user.
use proxmox_user_quota_proxy.Base.{
  ℕ, ◌^◌, ◌*◌, true, false, Option, none, some, List, [], ◌∷◌, if◌then◌else◌, ℤ, pos, ltb_ℤ, not,
  ◌&&◌, ◌*ℤ◌, number, Text, codes, eqb, parse_int, format_int, Float64, Map,
}
use proxmox_user_quota_proxy.Usage.Guest.{Usage}
use proxmox_user_quota_proxy.Usage.Engine.{ok, err, upstream, Api}
use proxmox_user_quota_proxy.Quota.Config.{UserQuota, Config}
use proxmox_user_quota_proxy.Quota.Store.{Store, FileRead}
use proxmox_user_quota_proxy.Body.{reader}
use proxmox_user_quota_proxy.Audit.{Decoders}
use proxmox_user_quota_proxy.Admission.Delta.{Delta}
use proxmox_user_quota_proxy.Admission.Enforcer.Decide.{Metrics}
use proxmox_user_quota_proxy.Admission.Enforcer.Handle.{Request, Backend, Enforcer, System}

-- Numbers that are whole.
instance abbrev pub whole : Float64
whole = record {
  Value = ℤ;
  parse_float = λ s. elim (parse_int s) [ number n ↦ some n | _ ↦ none ];
  of_int = λ n. n;
  times = λ f g. f *ℤ g;
  to_int = λ f. f;
  equal = λ f g. not (ltb_ℤ f g) && not (ltb_ℤ g f);
  format = format_int;
}

abbrev pub ten_gib : ℤ
ten_gib = pos (10 * 2 ^ 30)

abbrev pub guest : Map Text
guest =
    (codes "cores", codes "2")
    ∷ (codes "memory", codes "2048")
    ∷ (codes "scsi0", codes "local:disk-0,size=10G")
    ∷ []

abbrev pub guest_turned : Map Text
guest_turned =
    (codes "memory", codes "2048")
    ∷ (codes "cores", codes "2")
    ∷ (codes "scsi0", codes "local:disk-0,size=10G")
    ∷ []

-- A member of the pool has one guest; the snapshot has more cores.
abbrev pub small_api : Api
small_api = record {
  pool_members =
      λ pool. ok (record { vmid = pos 100; node = codes "n1"; kind = codes "qemu" } ∷ []);
  guest_config = λ node kind vmid. ok guest;
  storage_content = λ node storage. ok [];
  snapshot_config = λ node kind vmid snapshot. ok ((codes "cores", codes "4") ∷ []);
  extract_config = λ node volume. err (upstream (codes "404"));
}

abbrev pub used : Usage
used = record {
  cores = pos 2;
  memory_mib = pos 2048;
  instances = pos 1;
  disk_bytes = (codes "local", ten_gib) ∷ [];
}

abbrev pub limits : UserQuota
limits = record {
  pool = codes "dev";
  cores = pos 4;
  memory_mib = pos 4096;
  instances = pos 2;
  disk_gib = (codes "local", pos 20) ∷ [];
  nodes = [];
}

abbrev pub one_core : Delta
one_core = record {
  cores = pos 1;
  memory_mib = pos 1024;
  instances = pos 1;
  disk_bytes = (codes "local", ten_gib) ∷ [];
}

abbrev pub three_cores : Delta
three_cores = record {
  cores = pos 3;
  memory_mib = pos 1024;
  instances = pos 1;
  disk_bytes = (codes "local", ten_gib) ∷ [];
}

abbrev pub joe : Text
joe = codes "joe@pve"

abbrev pub quotas : Config
quotas = record { version = pos 0; admins = []; users = (joe, some limits) ∷ [] }

abbrev pub empty_quotas : Config
empty_quotas = record { version = pos 0; admins = []; users = [] }

abbrev pub store : Store
store = record { cfg = quotas; mtime = 1 }

abbrev pub empty_store : Store
empty_store = record { cfg = empty_quotas; mtime = 1 }

-- The text "1" is the file of the user, and every other text is none.
abbrev pub yaml : Text → Option Config
yaml s = if eqb s (codes "1") then some quotas else none

abbrev pub first_file : FileRead
first_file = record { stat = some 1; content = some (codes "1") }

-- A query is "1" or "3", for a guest with that many cores.
abbrev pub new_guest : Text → Map (List Text)
new_guest cores =
    (codes "vmid", codes "101" ∷ [])
    ∷ (codes "cores", cores ∷ [])
    ∷ (codes "memory", codes "1024" ∷ [])
    ∷ (codes "scsi0", codes "local:10" ∷ [])
    ∷ []

abbrev pub decoders : Decoders
decoders = record { json = λ s. none; query = λ s. some (new_guest s) }

abbrev pub request : Text → Text → Text → Request
request method path body = record {
  method = method;
  path = path;
  credentials = record { authorization = []; cookie = some (codes "PVE:joe@pve:ticket") };
  payload = record {
    content_type = codes "application/x-www-form-urlencoded";
    body = some (reader body);
  };
}

abbrev pub create : Text → Request
create cores = request (codes "POST") (codes "/api2/extjs/nodes/n1/qemu") cores

-- A cluster that counts the requests that reach it.
abbrev pub counting : Backend
counting = record {
  State = ℕ;
  api = λ n. small_api;
  forward = λ r n. (ℕ.suc n, pos 200);
  sleep = λ n. n;
}

abbrev pub enforcing : Option Store → Enforcer
enforcing o = record {
  store = o;
  has_engine = true;
  admins = codes "root@pam" ∷ [];
  enforce = true;
  fail_closed = true;
  default_deny = true;
  polls = 5;
}

abbrev pub observing : Enforcer
observing = record {
  store = some store;
  has_engine = true;
  admins = [];
  enforce = false;
  fail_closed = true;
  default_deny = true;
  polls = 5;
}

-- The user is an admin.
abbrev pub trusting : Enforcer
trusting = record {
  store = some store;
  has_engine = true;
  admins = joe ∷ [];
  enforce = true;
  fail_closed = true;
  default_deny = true;
  polls = 5;
}

abbrev pub zeroes : Metrics
zeroes = record {
  audited = pos 0;
  allowed = pos 0;
  denied = pos 0;
  fail_open = pos 0;
  fail_shut = pos 0;
}

abbrev pub fresh : System counting
fresh = record { metrics = zeroes; cluster = 0 }
