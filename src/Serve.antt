-- ===== src/Serve.antt =====
-- What the proxy answers to a request, from the handlers that main puts together: WithAccessLog of
-- internal/proxy/accesslog.go around Middleware of internal/admission/admission.go around the reverse
-- proxy of internal/proxy/proxy.go.
pub mod Answers
pub mod Admin
pub mod Answered
use proxmox_user_quota_proxy.Base.{
  Bool, true, false, Option, none, some, [], ◌∷◌, ◌++◌, List, ℤ, pos, Text, codes, eqb,
  if◌then◌else◌, length, format_int, Float64, Map,
}
use proxmox_user_quota_proxy.Audit.{Decoders}
use proxmox_user_quota_proxy.Audit.Log
use proxmox_user_quota_proxy.Audit.Log.{audit_log}
use proxmox_user_quota_proxy.Classify.{classify}
use proxmox_user_quota_proxy.Usage.Engine.{Api}
use proxmox_user_quota_proxy.Admission.Check.{
  Reason, cores_over, memory_over, instances_over, storage_unlisted, disk_over,
}
use proxmox_user_quota_proxy.Admission.Enforcer.Decide.{Denial, because, no_record, over_limit}
use proxmox_user_quota_proxy.Admission.Enforcer.Handle.{
  Request, Backend, Enforcer, Answer, forwarded, refused, panicked, System, handle,
}
use proxmox_user_quota_proxy.Writers.{
  Call, write_header, write, answered, AccessEntry, access_entry,
}

-- A value that the program gives to encoding/json.
pub data Scalar : Type 0 where
  number : ℤ → Scalar
  string : Text → Scalar
  nil : Scalar

-- What the standard library prints: json.Encoder.Encode of a map, and the verb %q of fmt. The last is
-- how many bytes of a write the connection takes.
pub record Printer : Type 0 where
  pub encode : Map Scalar → Text
  pub quote : Text → Text
  pub taken : Text → ℤ

-- What comes of a round trip and of passing its answer on: the transport reports an error; the reverse
-- proxy of net/http makes these calls and returns; or it makes these calls, the answer breaks off, and
-- it panics with http.ErrAbortHandler.
pub data Reply : Type 0 where
  unreachable : Reply
  copied : List Call → Reply
  aborted : List Call → Reply

abbrev pub returns : Reply → Bool
returns (aborted cs) = false
returns _ = true

-- The cluster with the transport to it.
pub record Upstream : Type 1 where
  pub State : Type 0
  pub api : State → Api
  pub round_trip : Request → State → State × Reply
  pub sleep : State → State

module _ (p : Printer) where
  abbrev pub wrote : Text → Call
  wrote s = write s (p.taken s)

  -- http.Error
  unfoldable pub http_error : Text → ℤ → List Call
  http_error message code = write_header code ∷ wrote (message ++ codes "\n") ∷ []

  -- the reverse proxy, with its ErrorHandler
  unfoldable pub proxy_calls : Reply → List Call
  unfolding http_error
  proxy_calls unreachable = http_error (codes "uq-proxy: upstream unavailable") (pos 502)
  proxy_calls (copied cs) = cs
  proxy_calls (aborted cs) = cs

  -- What the middleware sees of a reply: the status that the statusCapture has. A panic leaves the
  -- middleware with the mutex unlocked and without a wait, just as a status of 300 or more does: 500
  -- stands for it.
  unfoldable pub seen_status : Reply → ℤ
  unfolding proxy_calls
  seen_status (aborted cs) = pos 500
  seen_status reply = (answered (proxy_calls reply)).status

  -- the reverse proxy as the next handler of the middleware
  abbrev pub backend : Upstream → Backend
  backend u = record {
    State = u.State;
    api = u.api;
    forward = λ r c. let (after, answer) = u.round_trip r c in (after, seen_status answer);
    sleep = u.sleep;
  }

  -- the texts of checkQuota
  unfoldable pub reason_text : Reason → Text
  unfolding format_int
  reason_text (cores_over used d limit) =
      codes "cores: "
      ++ format_int used
      ++ codes " in use + "
      ++ format_int d
      ++ codes " requested > "
      ++ format_int limit
      ++ codes " limit"
  reason_text (memory_over used d limit) =
      codes "memory: "
      ++ format_int used
      ++ codes " MiB in use + "
      ++ format_int d
      ++ codes " > "
      ++ format_int limit
      ++ codes " MiB limit"
  reason_text (instances_over used d limit) =
      codes "instances: "
      ++ format_int used
      ++ codes " in use + "
      ++ format_int d
      ++ codes " > "
      ++ format_int limit
      ++ codes " limit"
  reason_text (storage_unlisted st) =
      codes "storage " ++ p.quote st ++ codes " is not in your quota"
  reason_text (disk_over st combined limit) =
      codes "disk "
      ++ st
      ++ codes ": "
      ++ format_int combined
      ++ codes " GiB used+requested > "
      ++ format_int limit
      ++ codes " GiB limit"

  unfoldable pub denial_text : Denial → Text
  unfolding reason_text
  denial_text (because s) = s
  denial_text (no_record user) = codes "no quota record for " ++ user ++ codes " (default deny)"
  denial_text (over_limit reason) = reason_text reason

  -- the object that deny prints: the GUI reads `success` and `message`
  unfoldable pub denial_fields : Text → Denial → Map Scalar
  unfolding denial_text eqb
  denial_fields envelope reason =
      let message = string (codes "uq-proxy quota: " ++ denial_text reason) in
      if eqb envelope (codes "extjs")
      then (codes "success", number (pos 0)) ∷ (codes "message", message) ∷ (codes "data", nil) ∷ []
      else (codes "data", nil) ∷ (codes "message", message) ∷ []

  -- what deny writes
  unfoldable pub denial_calls : Text → ℤ → Denial → List Call
  unfolding denial_fields
  denial_calls envelope status reason =
      write_header status ∷ wrote (p.encode (denial_fields envelope reason)) ∷ []

  module _ (u : Upstream) where
    -- The calls that reach the writer of the access log; none of a nil record, at which the handler
    -- panics before it writes.
    unfoldable pub calls_of : Request → u.State → Answer → Option (List Call)
    unfolding proxy_calls denial_calls classify
    calls_of r c (forwarded status) = some (proxy_calls (u.round_trip r c).1)
    calls_of r c (refused status reason) =
        some (denial_calls (classify r.method r.path).envelope status reason)
    calls_of r c panicked = none

    -- What WithAccessLog logs when the handler returns. A panic goes through it to net/http, which
    -- recovers it, and nothing is logged.
    unfoldable pub access_of :
        (remote upgrade : Text) → Request → u.State → Answer → Option AccessEntry
    unfolding proxy_calls denial_calls classify access_entry
    access_of remote upgrade r c (forwarded status) =
        let reply = (u.round_trip r c).1 in
        if returns reply
        then some (access_entry r.method r.path remote upgrade (proxy_calls reply))
        else none
    access_of remote upgrade r c (refused status reason) = some (
        access_entry r.method r.path remote upgrade
          (denial_calls (classify r.method r.path).envelope status reason))
    access_of remote upgrade r c panicked = none

    -- What a request comes to: the state that it leaves, the calls by which the client is answered, and
    -- the two logs.
    pub record Served : Type 0 where
      pub system : System (backend u)
      pub calls : Option (List Call)
      pub audit : Option (Map Log.Value)
      pub access : Option AccessEntry

    module _ (e : Enforcer) ⦃fl : Float64⦄ (dec : Decoders) where
      -- the handler of the server
      unfoldable pub serve_http : (remote upgrade : Text) → Request → System (backend u) → Served
      unfolding handle calls_of access_of audit_log
      serve_http remote upgrade r s =
          let (after, answer) = handle (backend u) e dec r s in
          record {
            system = after;
            calls = calls_of r s.cluster answer;
            audit = audit_log dec r.method r.path r.credentials r.payload;
            access = access_of remote upgrade r s.cluster answer;
          }
