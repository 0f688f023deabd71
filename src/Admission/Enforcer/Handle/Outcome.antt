-- ===== src/Admission/Enforcer/Handle/Outcome.antt =====
-- What the middleware does with any request, on every path through it.
use proxmox_user_quota_proxy.Base.{
  ◌≡◌, refl, subst, ◌⊎◌, false, inl, inr, Option, none, some, Bool-cases, ℤ, pos, add64, leb_ℤ,
  Text, Float64,
}
use proxmox_user_quota_proxy.Classify
use proxmox_user_quota_proxy.Classify.{Action, classify}
use proxmox_user_quota_proxy.Identity.{from_request}
use proxmox_user_quota_proxy.Audit.{Decoders, params}
use proxmox_user_quota_proxy.Quota.Config.{UserQuota}
use proxmox_user_quota_proxy.Quota.Store.{Store, get_quota}
use proxmox_user_quota_proxy.Admission.Enforcer.Decide.{
  Denial, Settle, settle_none, Decision, allow, deny, decide,
}
use proxmox_user_quota_proxy.Admission.Enforcer.Decide.Counters.{decide-denied}
use proxmox_user_quota_proxy.Admission.Enforcer.Handle.Gate.{status_of}
use proxmox_user_quota_proxy.Admission.Enforcer.Handle.{
  Request, Backend, Enforcer, Answer, forwarded, refused, panicked, System, settle, pass, refuse,
  closed_to, exempt, count_audited, handle_unknown, act, admit, found, enforced, handle_classified,
  handle, is_unknown, is_pool_edit, dereferences, no_quota,
}

module _ (b : Backend) (e : Enforcer) where
  -- The request reached the cluster once, what came back is its answer, and after it the proxy at most
  -- waited, and that only for a status below 300.
  abbrev pub Forwarded : Request → b.State → ℤ → System b × Answer → Type 0
  Forwarded r c n (s, answer) =
      (st : Settle) × (answer ≡ forwarded (b.forward r c).1)
      × (s.cluster ≡ settle b e.polls st (b.forward r c).0)
      × ((leb_ℤ (pos 300) (b.forward r c).1 ≡ false) ⊎ (st ≡ settle_none))
      × (s.metrics.denied ≡ n)

  -- The request did not reach the cluster, the client was refused, with the status for this form of
  -- path, and that was counted.
  abbrev pub Refused : Text → b.State → ℤ → System b × Answer → Type 0
  Refused t c n (s, answer) =
      (reason : Denial) × (answer ≡ refused (status_of t) reason)
      × (s.cluster ≡ c)
      × (s.metrics.denied ≡ add64 n (pos 1))

  abbrev pub Panicked : b.State → ℤ → System b × Answer → Type 0
  Panicked c n (s, answer) = (answer ≡ panicked) × (s.cluster ≡ c) × (s.metrics.denied ≡ n)

  unfoldable pub Outcome : Text → Request → b.State → ℤ → System b × Answer → Type 0
  Outcome t r c n x = Forwarded r c n x ⊎ Refused t c n x ⊎ Panicked c n x

  pass-Outcome :
      (t : Text) (r : Request) (s : System b) → Outcome t r s.cluster s.metrics.denied (pass b r s)
  unfolding Outcome pass settle
  pass-Outcome t r s = inl (settle_none, refl, refl, inr refl, refl)

  refuse-Outcome :
      (r : Request) (t : Text) (d : Denial) (s : System b)
      → Outcome t r s.cluster s.metrics.denied (refuse b t d s)
  unfolding Outcome refuse
  refuse-Outcome r t d s = inr (inl (d, refl, refl, refl))

  act-Outcome :
      (d : Decision) (t : Text) (r : Request) (s : System b)
      → Outcome t r s.cluster s.metrics.denied (act b e d t r s)
  unfolding act
  act-Outcome (deny reason) t r s = refuse-Outcome r t reason s
  act-Outcome (allow st) t r s =
      unfold Outcome settle in
      elim (Bool-cases (leb_ℤ (pos 300) (b.forward r s.cluster).1)) [
        | inl failed ↦ rw failed (inl (settle_none, refl, refl, inr refl, refl))
        | inr done ↦ rw done (inl (st, refl, refl, inl refl, refl))
      ]

  unknown-Outcome :
      (user : Text) (res : Classify.Result) (r : Request) (s : System b)
      → Outcome res.envelope r s.cluster s.metrics.denied (handle_unknown b e user res r s)
  unfolding handle_unknown
  unknown-Outcome user res r s = elim (Bool-cases (closed_to b e user)) [
    | inl closed ↦ rw closed (refuse-Outcome r _ _ (count_audited b s))
    | inr open_door ↦ rw open_door (pass-Outcome res.envelope r (count_audited b s))
  ]

  module _ ⦃fl : Float64⦄ (dec : Decoders) where
    admit-Outcome :
        (q : UserQuota) (res : Classify.Result) (r : Request) (s : System b)
        → Outcome res.envelope r s.cluster s.metrics.denied (admit b e dec q res r s)
    unfolding admit
    admit-Outcome q res r s =
        let ps = params dec r.payload res.action in
        let x = decide (b.api s.cluster) e.fail_closed res q ps res.action s.metrics in
        subst
          (λ n.
            Outcome res.envelope r s.cluster n
              (act b e x.0 res.envelope r (record s { metrics = x.1 })))
          (decide-denied (b.api s.cluster) e.fail_closed res q ps res.action s.metrics)
          (act-Outcome x.0 res.envelope r (record s { metrics = x.1 }))

    found-Outcome :
        (o : Option (Option UserQuota)) (user : Text) (res : Classify.Result) (r : Request)
        (s : System b)
        → Outcome res.envelope r s.cluster s.metrics.denied (found b e dec o user res r s)
    unfolding found
    found-Outcome none user res r s = refuse-Outcome r _ _ s
    found-Outcome (some none) user res r s =
        let ps = params dec r.payload res.action in
        elim (Bool-cases (dereferences (b.api s.cluster) res ps)) [
          | inl reads ↦ rw reads (unfold Outcome in inr (inr (refl, refl, refl)))
          | inr ignores ↦ rw ignores (admit-Outcome no_quota res r s)
        ]
    found-Outcome (some (some q)) user res r s = admit-Outcome q res r s

    enforced-Outcome :
        (o : Option Store) (user : Text) (res : Classify.Result) (r : Request) (s : System b)
        → Outcome res.envelope r s.cluster s.metrics.denied (enforced b e dec o user res r s)
    unfolding enforced
    enforced-Outcome none user res r s = pass-Outcome res.envelope r s
    enforced-Outcome (some store) user res r s = elim (Bool-cases (is_pool_edit res.action)) [
      | inl edit ↦ rw edit (refuse-Outcome r _ _ s)
      | inr other ↦ rw other (found-Outcome (get_quota store user) user res r s)
    ]

    classified-Outcome :
        (user : Text) (res : Classify.Result) (r : Request) (s : System b)
        → Outcome res.envelope r s.cluster s.metrics.denied (handle_classified b e dec user res r s)
    unfolding handle_classified
    classified-Outcome user res r s = elim (Bool-cases (is_unknown res.action)) [
      | inl unknown ↦ rw unknown (unknown-Outcome user res r s)
      | inr known ↦ rw known (elim (Bool-cases res.quota_relevant) [
        | inr irrelevant ↦ simp irrelevant (pass-Outcome res.envelope r s)
        | inl relevant ↦ simp relevant (elim (Bool-cases (exempt b e user res.action)) [
          | inl exempted ↦ rw exempted (pass-Outcome res.envelope r (count_audited b s))
          | inr subject ↦ rw subject (enforced-Outcome e.store user res r (count_audited b s))
        ])
      ])
    ]

    -- Whatever the request: it is forwarded once, its answer is the cluster's, the proxy at most waits
    -- after it, if the status is below 300, and the counter of denials stays; or it is refused with the
    -- status for its form of path, the cluster stays as it was, and the counter goes up by one; or the
    -- handler panics, and neither changes.
    pub handle-Outcome :
        (r : Request) (s : System b)
        → Outcome
            (classify r.method r.path).envelope
            r
            s.cluster
            s.metrics.denied
            (handle b e dec r s)
    unfolding handle
    handle-Outcome r s =
        classified-Outcome (from_request r.credentials).user (classify r.method r.path) r s
