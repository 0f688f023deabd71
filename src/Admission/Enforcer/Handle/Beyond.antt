-- ===== src/Admission/Enforcer/Handle/Beyond.antt =====
-- Writes beyond the limits of their user, against the middleware.
use proxmox_user_quota_proxy.Base.{◌≡◌, inl, inr, true, false, some, Option-cases, Text, Float64}
use proxmox_user_quota_proxy.Classify.{classify}
use proxmox_user_quota_proxy.Identity.{from_request}
use proxmox_user_quota_proxy.Audit.{Decoders, params}
use proxmox_user_quota_proxy.Usage.Guest.{Usage}
use proxmox_user_quota_proxy.Usage.Engine.{ok, user_usage}
use proxmox_user_quota_proxy.Quota.Config.{UserQuota}
use proxmox_user_quota_proxy.Quota.Store.{Store, get_quota}
use proxmox_user_quota_proxy.Admission.Delta.{Delta}
use proxmox_user_quota_proxy.Admission.Check.{Reason, check_quota, effective_limits}
use proxmox_user_quota_proxy.Admission.Check.Exact.{Fits, InRange, check_quota_exact}
use proxmox_user_quota_proxy.Admission.Check.Reasons.{Exceeded, check_limits-Exceeded}
use proxmox_user_quota_proxy.Admission.Enforcer.Decide.{over_limit}
use proxmox_user_quota_proxy.Admission.Enforcer.Decide.Exact.{is_decided, requested}
use proxmox_user_quota_proxy.Admission.Enforcer.Handle.{
  Request, Backend, Enforcer, System, is_admin, enforceable, handle,
}
use proxmox_user_quota_proxy.Admission.Enforcer.Handle.Gate.{RefusedFor, over_limit_refused}

-- Where no sum of the test leaves 64 bits, the test finds a limit that is exceeded in what does not
-- fit.
unfitting_reason :
    (u : Usage) (d : Delta) (q : UserQuota) (node : Text)
    → InRange u d
    → ¬ Fits u d (effective_limits q node)
    → (reason : Reason) × (check_quota u d q node ≡ some reason)
      × Exceeded u d (effective_limits q node) reason
unfolding check_quota
unfitting_reason u d q node range beyond = elim (Option-cases (check_quota u d q node)) [
  | inl passes ↦ absurd (beyond ((check_quota_exact u d q node range).0 passes))
  | inr (reason, over) ↦
      (reason, over, check_limits-Exceeded u d (effective_limits q node) reason range over)
]

module _ (b : Backend) (e : Enforcer) ⦃fl : Float64⦄ (dec : Decoders) where
  -- With a store, an engine and enforcement on: let a write with a quota action, of a user who is no
  -- admin and has a record, ask for an increase which, added to the usage of the user, leaves the limits
  -- of the user on the node in some dimension or on some storage in which it grows. Then the write is
  -- refused for such a limit, which the refusal names, and the cluster stays as it was: where the configs
  -- that the write rests on and the usage of the user can be read, no sum of the test leaves 64 bits,
  -- and no storage is used negatively.
  pub beyond_limits_refused :
      (store : Store) (r : Request) (s : System b) (q : UserQuota) (d : Delta) (u : Usage)
      → e.enforce ≡ true
      → e.store ≡ some store
      → e.has_engine ≡ true
      → is_admin b e (from_request r.credentials).user ≡ false
      → enforceable (classify r.method r.path).action ≡ true
      → get_quota store (from_request r.credentials).user ≡ some (some q)
      → is_decided (classify r.method r.path).action ≡ true
      → requested
          (b.api s.cluster)
          (classify r.method r.path)
          q
          (params dec r.payload (classify r.method r.path).action)
          (classify r.method r.path).action
        ≡ ok d
      → user_usage (b.api s.cluster) q.pool ≡ ok u
      → InRange u d
      → ¬ Fits u d (effective_limits q (classify r.method r.path).node)
      → (reason : Reason) × Exceeded u d (effective_limits q (classify r.method r.path).node) reason
        × RefusedFor b e
            (over_limit reason)
            (classify r.method r.path).envelope
            s.cluster
            (handle b e dec r s)
  beyond_limits_refused store r s q d u on has_store engine user action entry decided asks reads
        range beyond =
      let (reason, over, exceeded) =
        unfitting_reason u d q (classify r.method r.path).node range beyond in
      (
        reason,
        exceeded,
        over_limit_refused b e dec store r s on has_store engine user action q d u reason entry
            decided asks reads over,
      )
