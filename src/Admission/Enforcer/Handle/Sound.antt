-- ===== src/Admission/Enforcer/Handle/Sound.antt =====
-- What is known of a write that reached the cluster.
use proxmox_user_quota_proxy.Base.{◌≡◌, refl, sym, ap, ◌∙◌, true, false, some, ℤ, Text, Float64}
use proxmox_user_quota_proxy.Classify
use proxmox_user_quota_proxy.Classify.{Action, classify}
use proxmox_user_quota_proxy.Identity.{from_request}
use proxmox_user_quota_proxy.Audit.{Decoders, params}
use proxmox_user_quota_proxy.Usage.Engine.{ok}
use proxmox_user_quota_proxy.Quota.Config.{UserQuota}
use proxmox_user_quota_proxy.Quota.Store.{Store, get_quota}
use proxmox_user_quota_proxy.Admission.Delta.{Delta}
use proxmox_user_quota_proxy.Admission.Enforcer.Decide.{Settle, Decision, allow, deny, decide}
use proxmox_user_quota_proxy.Admission.Enforcer.Decide.Exact.{
  is_decided, requested, Fitting, admitted_fits,
}
use proxmox_user_quota_proxy.Admission.Enforcer.Handle.{
  Request, Backend, Enforcer, Answer, forwarded, System, is_admin, count_audited, act, admit, found,
  enforced, handle, enforceable, is_pool_edit, refuse,
}
use proxmox_user_quota_proxy.Admission.Enforcer.Handle.Gate.{handled, decided_no_edit}

decided_enforceable : (a : Action) → is_decided a ≡ true → enforceable a ≡ true
unfolding enforceable
decided_enforceable Action.read h = cc
decided_enforceable Action.passthrough h = cc
decided_enforceable Action.storage_upload h = cc
decided_enforceable Action.unknown_write h = cc
decided_enforceable _ h = refl

module _ (b : Backend) (e : Enforcer) where
  forwarded_allowed :
      (x : Decision) (t : Text) (r : Request) (s : System b) (status : ℤ)
      → (act b e x t r s).1 ≡ forwarded status
      → (st : Settle) × (x ≡ allow st)
  unfolding act refuse
  forwarded_allowed (deny reason) t r s status h = cc
  forwarded_allowed (allow st) t r s status h = (st, refl)

  module _ ⦃fl : Float64⦄ (dec : Decoders) where
    admit_fits :
        (q : UserQuota) (res : Classify.Result) (r : Request) (s : System b) (status : ℤ)
        → e.fail_closed ≡ true
        → is_decided res.action ≡ true
        → (admit b e dec q res r s).1 ≡ forwarded status
        → (d : Delta) × (requested
              (b.api s.cluster)
              res
              q
              (params dec r.payload res.action)
              res.action
            ≡ ok d)
          × Fitting (b.api s.cluster) res q (params dec r.payload res.action) d
    unfolding admit
    admit_fits q res r s status closed decided h =
        let api = b.api s.cluster in
        let ps = params dec r.payload res.action in
        let x = decide api e.fail_closed res q ps res.action s.metrics in
        let allowed = forwarded_allowed x.0 res.envelope r (record s { metrics = x.1 }) status h in
        admitted_fits api res q ps res.action s.metrics x.1 allowed.0 decided (
          ap (λ c. decide api c res q ps res.action s.metrics) (sym closed)
          ∙ ap (λ a. (a, x.1)) allowed.1)

    -- With a store, an engine and enforcement on, and failures of the accounting denied: if a write with
    -- a quota action, of a user who is no admin and has a record, is answered by the cluster, then the
    -- increase that it asks for could be found out, and it adds nothing or passes the test against the
    -- usage of the user that was read before.
    pub forwarded_fits :
        (store : Store) (r : Request) (s : System b) (q : UserQuota) (status : ℤ)
        → e.enforce ≡ true
        → e.store ≡ some store
        → e.has_engine ≡ true
        → e.fail_closed ≡ true
        → is_admin b e (from_request r.credentials).user ≡ false
        → get_quota store (from_request r.credentials).user ≡ some (some q)
        → is_decided (classify r.method r.path).action ≡ true
        → (handle b e dec r s).1 ≡ forwarded status
        → (d : Delta) × (requested
              (b.api s.cluster)
              (classify r.method r.path)
              q
              (params dec r.payload (classify r.method r.path).action)
              (classify r.method r.path).action
            ≡ ok d)
          × Fitting
              (b.api s.cluster)
              (classify r.method r.path)
              q
              (params dec r.payload (classify r.method r.path).action)
              d
    unfolding enforced found
    forwarded_fits store r s q status on has_store engine closed user entry decided h =
        let res = classify r.method r.path in
        let other : is_pool_edit res.action ≡ false = decided_no_edit res.action decided in
        let admitted : handle b e dec r s ≡ admit b e dec q res r (count_audited b s) =
          handled b e dec store r s on has_store engine user
            (decided_enforceable res.action decided)
          ∙ rw (other, entry) refl in
        admit_fits q res r (count_audited b s) status closed decided
          (ap (λ (y : System b × Answer). y.1) (sym admitted) ∙ h)
