-- ===== src/Admission/Enforcer/Decide/Verdict.antt =====
-- The decision on every enforced action where all readings succeed.
use proxmox_user_quota_proxy.Base.{
  ◌≡◌, subst, inl, inr, Bool, true, false, none, some, arith, Bool-cases, if◌then◌else◌, Text,
  codes, Float64, Map, get,
}
use proxmox_user_quota_proxy.Classify
use proxmox_user_quota_proxy.Classify.{Action}
use proxmox_user_quota_proxy.Audit.{is_restore}
use proxmox_user_quota_proxy.Usage.Guest.{Usage, config_usage}
use proxmox_user_quota_proxy.Usage.Engine.{
  Result, ok, err, ◌>>=◌, Api, snapshot_usage, restore_usage, user_usage,
}
use proxmox_user_quota_proxy.Quota.Config.{UserQuota}
use proxmox_user_quota_proxy.Admission.Delta.{
  Delta, positive, create_delta, usage_to_delta, increase_delta, storage_alloc_delta,
}
use proxmox_user_quota_proxy.Admission.Delta.Positive.{not_positive_passes}
use proxmox_user_quota_proxy.Admission.Check.{Reason, check_quota}
use proxmox_user_quota_proxy.Admission.Enforcer.Decide.{
  Metrics, over_limit, Settle, settle_none, Decision, allow, deny, atoi, finalize, check,
  with_reading, decide_create, decide_rollback, decide, archive_of, admit_new, admit_change,
}
use proxmox_user_quota_proxy.Admission.Enforcer.Decide.Exact.{requested, is_decided}

module _ ⦃fl : Float64⦄ (api : Api) (fc : Bool) (res : Classify.Result) (q : UserQuota)
    (params : Map Text) (m : Metrics) where
  -- What holds of the test of an increase, with or without a wait behind it, holds of a decision that
  -- rests on one reading.
  module _ (P : Decision × Metrics → Type 0) (d : Delta) (tested : P (check api fc q res.node d m))
      (settled : (s : Settle) → P (finalize s d (check api fc q res.node d m))) where
    read_all {ℓ} :
        {A : Type ℓ} (o : Result A) (msg : Text) (s : A → Settle) (delta : A → Delta)
        → (o >>= λ a. ok (delta a)) ≡ ok d
        → P (
            with_reading api fc o msg
              (λ a. finalize (s a) (delta a) (check api fc q res.node (delta a) m))
              m)
    read_all (err e) msg s delta h = cc
    read_all (ok a) msg s delta h =
        let same : d ≡ delta a = ground arith in
        subst (λ x. P (finalize (s a) x (check api fc q res.node x m))) same (settled (s a))

    create_all :
        (restore : Bool)
        → (if restore
            then (restore_usage api res.node (archive_of params) res.guest_kind >>= λ u.
                ok (usage_to_delta u))
            else ok (create_delta res.guest_kind params))
          ≡ ok d
        → P (
            if restore
            then with_reading api fc
                (restore_usage api res.node (archive_of params) res.guest_kind)
                (codes "restore config unreadable")
                (λ u.
                  admit_new api fc res q params
                    (atoi (get params (codes "vmid")))
                    (usage_to_delta u)
                    m)
                m
            else admit_new api fc res q params
                (atoi (get params (codes "vmid")))
                (create_delta res.guest_kind params)
                m)
    create_all true h = read_all _ _ _ _ h
    create_all false h =
        let same : d ≡ create_delta res.guest_kind params = ground arith in
        subst (λ x. P (admit_new api fc res q params (atoi (get params (codes "vmid"))) x m)) same
          (settled _)

    rollback_all :
        (o : Result (Map Text)) (msg : Text)
        → (o >>= λ cur.
            snapshot_usage api res.node res.guest_kind (atoi res.vmid) res.snapshot >>= λ target.
            ok (increase_delta target (config_usage res.guest_kind cur)))
          ≡ ok d
        → P (
            with_reading api fc o msg
              (λ cur.
                with_reading api fc
                  (snapshot_usage api res.node res.guest_kind (atoi res.vmid) res.snapshot)
                  (codes "snapshot config unreadable")
                  (λ target.
                    admit_change api fc res q params cur
                      (increase_delta target (config_usage res.guest_kind cur))
                      m)
                  m)
              m)
    rollback_all (err e) msg h = cc
    rollback_all (ok cur) msg h = read_all _ _ _ _ h

    pub decide_all :
        (a : Action)
        → is_decided a ≡ true
        → requested api res q params a ≡ ok d
        → P (decide api fc res q params a m)
    unfolding decide decide_create decide_rollback
    decide_all Action.guest_create _ h = create_all (is_restore params) h
    decide_all Action.clone _ h = read_all _ _ _ _ h
    decide_all Action.resize _ h = read_all _ _ _ _ h
    decide_all Action.move_disk _ h = read_all _ _ _ _ h
    decide_all Action.guest_config _ h = read_all _ _ _ _ h
    decide_all Action.rollback _ h = rollback_all _ _ h
    decide_all Action.storage_alloc _ h =
        let same : d ≡ storage_alloc_delta res.storage params = ground arith in
        subst (λ x. P (check api fc q res.node x m)) same tested
    decide_all _ not_decided h = cc

  check_denied :
      (d : Delta) (u : Usage) (r : Reason)
      → user_usage api q.pool ≡ ok u
      → check_quota u d q res.node ≡ some r
      → check api fc q res.node d m ≡ (deny (over_limit r), m)
  unfolding check
  check_denied d u r read over = elim (Bool-cases (positive d)) [
    | inl grows ↦ rw (grows, read, over)
    | inr nothing ↦ cc (not_positive_passes u d q res.node nothing)
  ]

  -- A write that asks for more than fits is denied for the limit that it passes, whatever its action:
  -- where the configs that it rests on and the usage of its user can be read.
  pub over_limit_denied :
      (a : Action) (d : Delta) (u : Usage) (r : Reason)
      → is_decided a ≡ true
      → requested api res q params a ≡ ok d
      → user_usage api q.pool ≡ ok u
      → check_quota u d q res.node ≡ some r
      → decide api fc res q params a m ≡ (deny (over_limit r), m)
  unfolding finalize
  over_limit_denied a d u r decided asks read over =
      let denied = check_denied d u r read over in
      decide_all (λ x. x ≡ (deny (over_limit r), m)) d denied (λ s. rw denied) a decided asks

  check_allowed :
      (d : Delta) (u : Usage)
      → user_usage api q.pool ≡ ok u
      → check_quota u d q res.node ≡ none
      → check api fc q res.node d m ≡ (allow settle_none, m)
  unfolding check
  check_allowed d u read fits = elim (Bool-cases (positive d)) [
    | inl grows ↦ rw (grows, read, fits)
    | inr nothing ↦ rw nothing
  ]

  -- A write that asks for what fits is admitted, whatever its action, where the configs that it rests
  -- on and the usage of its user can be read.
  pub fitting_admitted :
      (a : Action) (d : Delta) (u : Usage)
      → is_decided a ≡ true
      → requested api res q params a ≡ ok d
      → user_usage api q.pool ≡ ok u
      → check_quota u d q res.node ≡ none
      → (s : Settle) × (decide api fc res q params a m ≡ (allow s, m))
  unfolding finalize
  fitting_admitted a d u decided asks read fits =
      let allowed = check_allowed d u read fits in
      decide_all (λ x. (s : Settle) × (x ≡ (allow s, m))) d (settle_none, allowed)
        (λ s. (if positive d then s else settle_none, rw allowed)) a decided asks
