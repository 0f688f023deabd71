-- ===== src/Admission/Enforcer/Handle/Gate.antt =====
-- Which requests the middleware lets through unchecked, and which it refuses.
use proxmox_user_quota_proxy.Base.{
  ◌⊎◌, ◌≡◌, refl, ap, ◌∙◌, inl, inr, true, false, none, some, arith, Bool-cases, if◌then◌else◌, ℤ,
  pos, Text, codes, eqb, is_some, Float64,
}
use proxmox_user_quota_proxy.Classify
use proxmox_user_quota_proxy.Classify.{Action, pool_membership, unknown_write, classify}
use proxmox_user_quota_proxy.Classify.Relevant.{is_quota_action, classify-relevant}
use proxmox_user_quota_proxy.Identity.{from_request}
use proxmox_user_quota_proxy.Audit.{Decoders, params}
use proxmox_user_quota_proxy.Usage.Guest.{Usage}
use proxmox_user_quota_proxy.Usage.Engine.{ok, user_usage}
use proxmox_user_quota_proxy.Quota.Config.{UserQuota}
use proxmox_user_quota_proxy.Quota.Store.{Store, get_quota}
use proxmox_user_quota_proxy.Admission.Delta.{Delta}
use proxmox_user_quota_proxy.Admission.Check.{Reason, check_quota}
use proxmox_user_quota_proxy.Admission.Enforcer.Decide.{Denial, because, no_record, over_limit}
use proxmox_user_quota_proxy.Admission.Enforcer.Decide.Exact.{is_decided, requested}
use proxmox_user_quota_proxy.Admission.Enforcer.Decide.Verdict.{over_limit_denied, fitting_admitted}
use proxmox_user_quota_proxy.Admission.Enforcer.Handle.{
  Request, Backend, Enforcer, Answer, forwarded, refused, System, pass, refuse, is_admin, closed_to,
  exempt, count_audited, handle_unknown, act, admit, found, enforced, handle_classified, handle,
  enforceable, is_unknown, is_pool_edit,
}

-- the status of a refusal
abbrev pub status_of : Text → ℤ
status_of envelope = if eqb envelope (codes "extjs") then pos 200 else pos 403

enforceable_known : (a : Action) → enforceable a ≡ true → is_unknown a ≡ false
unfolding enforceable
enforceable_known unknown_write h = cc
enforceable_known _ h = refl

enforceable_relevant : (a : Action) → enforceable a ≡ true → is_quota_action a ≡ true
unfolding enforceable
enforceable_relevant Action.read h = cc
enforceable_relevant Action.passthrough h = cc
enforceable_relevant unknown_write h = cc
enforceable_relevant _ h = refl

pub decided_no_edit : (a : Action) → is_decided a ≡ true → is_pool_edit a ≡ false
decided_no_edit pool_membership h = cc
decided_no_edit _ h = refl

module _ (b : Backend) (e : Enforcer) where
  -- The request goes to the cluster as it is, and nothing follows.
  unfoldable pub Untouched : Request → b.State → System b × Answer → Type 0
  Untouched r c (s, answer) =
      (s.cluster ≡ (b.forward r c).0) × (answer ≡ forwarded (b.forward r c).1)

  -- The client gets this refusal, and the cluster stays.
  unfoldable pub RefusedFor : Denial → Text → b.State → System b × Answer → Type 0
  RefusedFor reason envelope c (s, answer) =
      (s.cluster ≡ c) × (answer ≡ refused (status_of envelope) reason)

  pass-Untouched : (r : Request) (s : System b) → Untouched r s.cluster (pass b r s)
  unfolding Untouched pass
  pass-Untouched r s = (refl, refl)

  refuse-RefusedFor :
      (d : Denial) (t : Text) (s : System b) → RefusedFor d t s.cluster (refuse b t d s)
  unfolding RefusedFor refuse
  refuse-RefusedFor d t s = (refl, refl)

  module _ ⦃fl : Float64⦄ (dec : Decoders) where
    exempt_passes :
        (user : Text) (res : Classify.Result) (r : Request) (s : System b)
        → closed_to b e user ≡ false
        → exempt b e user res.action ≡ true
        → Untouched r s.cluster (handle_classified b e dec user res r s)
    unfolding handle_classified handle_unknown
    exempt_passes user res r s open_door exempted = elim (Bool-cases (is_unknown res.action)) [
      | inl unknown ↦ rw (unknown, open_door) (pass-Untouched r (count_audited b s))
      | inr known ↦ rw known (elim (Bool-cases res.quota_relevant) [
        | inr irrelevant ↦ simp irrelevant (pass-Untouched r s)
        | inl relevant ↦ simp relevant (rw exempted (pass-Untouched r (count_audited b s)))
      ])
    ]

    observing_forwards :
        (r : Request) (s : System b)
        → e.enforce ≡ false
        → Untouched r s.cluster (handle b e dec r s)
    unfolding handle
    observing_forwards r s off =
        exempt_passes _ (classify r.method r.path) r s (ground arith) (ground arith)

    admin_forwards :
        (r : Request) (s : System b)
        → is_admin b e (from_request r.credentials).user ≡ true
        → Untouched r s.cluster (handle b e dec r s)
    unfolding handle
    admin_forwards r s admin =
        exempt_passes _ (classify r.method r.path) r s (ground arith) (ground arith)

    -- With enforcement switched off, or from an admin, every request goes to the cluster as it is, its
    -- answer is the cluster's, and nothing follows.
    pub exempt_forwards :
        (r : Request) (s : System b)
        → (e.enforce ≡ false) ⊎ (is_admin b e (from_request r.credentials).user ≡ true)
        → Untouched r s.cluster (handle b e dec r s)
    exempt_forwards r s (inl off) = observing_forwards r s off
    exempt_forwards r s (inr admin) = admin_forwards r s admin

    -- With enforcement and the default denial on, a write that the classification does not know, of
    -- a user who is no admin, is refused, and the cluster stays as it was.
    pub unknown_refused :
        (r : Request) (s : System b)
        → e.enforce ≡ true
        → e.default_deny ≡ true
        → is_admin b e (from_request r.credentials).user ≡ false
        → (classify r.method r.path).action ≡ unknown_write
        → RefusedFor
            (because (codes "write endpoint not in the quota allowlist (default-deny)"))
            (classify r.method r.path).envelope
            s.cluster
            (handle b e dec r s)
    unfolding handle handle_classified handle_unknown
    unknown_refused r s on strict user unknown =
        let is_it : is_unknown (classify r.method r.path).action ≡ true = rw unknown in
        let closed : closed_to b e (from_request r.credentials).user ≡ true = ground arith in
        rw (is_it, closed) (refuse-RefusedFor _ _ (count_audited b s))

    -- What an enforceable action of a user comes to: the test against the record of the user.
    subject_enforced :
        (r : Request) (s : System b)
        → e.enforce ≡ true
        → is_some e.store ≡ true
        → e.has_engine ≡ true
        → is_admin b e (from_request r.credentials).user ≡ false
        → enforceable (classify r.method r.path).action ≡ true
        → handle b e dec r s
          ≡ enforced b e dec e.store
              (from_request r.credentials).user
              (classify r.method r.path)
              r
              (count_audited b s)
    unfolding handle handle_classified
    subject_enforced r s on has_store engine user action =
        let res = classify r.method r.path in
        let known : is_unknown res.action ≡ false = enforceable_known res.action action in
        let relevant : res.quota_relevant ≡ true =
          classify-relevant r.method r.path ∙ enforceable_relevant res.action action in
        let subject : exempt b e (from_request r.credentials).user res.action ≡ false =
          ground arith in
        rw known (simp relevant (rw subject))

    module _ (store : Store) (r : Request) (s : System b) (on : e.enforce ≡ true)
        (has_store : e.store ≡ some store) (engine : e.has_engine ≡ true)
        (user : is_admin b e (from_request r.credentials).user ≡ false)
        (action : enforceable (classify r.method r.path).action ≡ true) where
      pub handled :
          handle b e dec r s
          ≡ enforced b e dec
              (some store)
              (from_request r.credentials).user
              (classify r.method r.path)
              r
              (count_audited b s)
      handled =
          let there : is_some e.store ≡ true = rw has_store in
          subject_enforced r s on there engine user action
          ∙ ap
              (λ o.
                enforced b e dec o (from_request r.credentials).user (classify r.method r.path) r
                  (count_audited b s))
              has_store

      -- With a store, an engine and enforcement on, every change of a pool by a user who is no
      -- admin is refused, whether the user has a record or not, and the cluster stays as it was.
      pub pool_edit_refused :
          (classify r.method r.path).action ≡ pool_membership
          → RefusedFor
              (because (codes "pool membership changes are not permitted for users"))
              (classify r.method r.path).envelope
              s.cluster
              (handle b e dec r s)
      unfolding enforced
      pool_edit_refused edit =
          let is_it : is_pool_edit (classify r.method r.path).action ≡ true = rw edit in
          rw (handled, is_it) (refuse-RefusedFor _ _ (count_audited b s))

      -- With a store, an engine and enforcement on, an enforceable write that edits no pool, of a
      -- user who is no admin and has no record in the store, is refused, and the cluster stays as
      -- it was.
      pub stranger_refused :
          is_pool_edit (classify r.method r.path).action ≡ false
          → get_quota store (from_request r.credentials).user ≡ none
          → RefusedFor
              (no_record (from_request r.credentials).user)
              (classify r.method r.path).envelope
              s.cluster
              (handle b e dec r s)
      unfolding enforced found
      stranger_refused other no_entry =
          rw (handled, other, no_entry) (refuse-RefusedFor _ _ (count_audited b s))

      -- With a store, an engine and enforcement on, a write with a quota action, of a user who is
      -- no admin and has a record, in which the test finds something, is refused for that, and the
      -- cluster stays as it was: where the configs that the write rests on and the usage of the user
      -- can be read.
      pub over_limit_refused :
          (q : UserQuota) (d : Delta) (u : Usage) (reason : Reason)
          → get_quota store (from_request r.credentials).user ≡ some (some q)
          → is_decided (classify r.method r.path).action ≡ true
          → requested
              (b.api s.cluster)
              (classify r.method r.path)
              q
              (params dec r.payload (classify r.method r.path).action)
              (classify r.method r.path).action
            ≡ ok d
          → user_usage (b.api s.cluster) q.pool ≡ ok u
          → check_quota u d q (classify r.method r.path).node ≡ some reason
          → RefusedFor
              (over_limit reason)
              (classify r.method r.path).envelope
              s.cluster
              (handle b e dec r s)
      unfolding enforced found admit act
      over_limit_refused q d u reason entry decided asks reads over =
          let res = classify r.method r.path in
          let other : is_pool_edit res.action ≡ false = decided_no_edit res.action decided in
          let denied =
            over_limit_denied (b.api s.cluster) e.fail_closed res q
              (params dec r.payload res.action) (count_audited b s).metrics res.action d u reason
              decided asks reads over in
          rw (handled, other, entry, denied) (refuse-RefusedFor _ _ _)

      -- With a store, an engine and enforcement on, a write with a quota action, of a user who is
      -- no admin and has a record, which asks for what the limits of the user leave, goes to the
      -- cluster, and its answer is the cluster's: where the configs that the write rests on and the
      -- usage of the user can be read.
      pub fitting_forwarded :
          (q : UserQuota) (d : Delta) (u : Usage)
          → get_quota store (from_request r.credentials).user ≡ some (some q)
          → is_decided (classify r.method r.path).action ≡ true
          → requested
              (b.api s.cluster)
              (classify r.method r.path)
              q
              (params dec r.payload (classify r.method r.path).action)
              (classify r.method r.path).action
            ≡ ok d
          → user_usage (b.api s.cluster) q.pool ≡ ok u
          → check_quota u d q (classify r.method r.path).node ≡ none
          → (handle b e dec r s).1 ≡ forwarded (b.forward r s.cluster).1
      unfolding enforced found admit act
      fitting_forwarded q d u entry decided asks reads fits =
          let res = classify r.method r.path in
          let other : is_pool_edit res.action ≡ false = decided_no_edit res.action decided in
          let allowed =
            fitting_admitted (b.api s.cluster) e.fail_closed res q (params dec r.payload res.action)
              (count_audited b s).metrics res.action d u decided asks reads fits in
          rw (handled, other, entry, allowed.1)
