-- ===== src/Admission/Enforcer/Decide/Counters.antt =====
-- A decision counts its failures, and leaves the counter of denials to the middleware.
use proxmox_user_quota_proxy.Base.{
  ◌≡◌, refl, ◌∙◌, Bool, true, false, Bool-cases, inl, inr, Text, codes, Float64, Map,
}
use proxmox_user_quota_proxy.Classify
use proxmox_user_quota_proxy.Classify.{Action}
use proxmox_user_quota_proxy.Audit.{is_restore}
use proxmox_user_quota_proxy.Usage.Guest.{Usage, config_usage}
use proxmox_user_quota_proxy.Usage.Engine.{Result, ok, err, Api, user_usage, snapshot_usage}
use proxmox_user_quota_proxy.Quota.Config.{UserQuota}
use proxmox_user_quota_proxy.Admission.Delta.{Delta, positive, increase_delta}
use proxmox_user_quota_proxy.Admission.Enforcer.Decide.{
  Metrics, Settle, Decision, allow, deny, on_err, finalize, check, tested, with_reading,
  decide_create, decide_rollback, decide, atoi, admit_change,
}

finalize-denied :
    (s : Settle) (d : Delta) (x : Decision × Metrics) → (finalize s d x).1.denied ≡ x.1.denied
unfolding finalize
finalize-denied s d (allow st, m) = refl
finalize-denied s d (deny r, m) = refl

module _ ⦃fl : Float64⦄ (api : Api) (fc : Bool) where
  on_err-denied :
      (closed : Bool) (msg : Text) (m : Metrics) → (on_err closed msg m).1.denied ≡ m.denied
  unfolding on_err
  on_err-denied true msg m = refl
  on_err-denied false msg m = refl

  tested-denied :
      (o : Result Usage) (q : UserQuota) (node : Text) (d : Delta) (m : Metrics)
      → (tested api fc o q node d m).1.denied ≡ m.denied
  tested-denied (err e) q node d m = on_err-denied fc _ m
  tested-denied (ok u) q node d m = refl

  check-denied :
      (q : UserQuota) (node : Text) (d : Delta) (m : Metrics)
      → (check api fc q node d m).1.denied ≡ m.denied
  unfolding check
  check-denied q node d m = elim (Bool-cases (positive d)) [
    | inl grows ↦ rw grows (tested-denied (user_usage api q.pool) q node d m)
    | inr nothing ↦ rw nothing
  ]

  with_reading-denied {ℓ} :
      {A : Type ℓ} (o : Result A) (msg : Text) (f : A → Decision × Metrics) (m : Metrics)
      → ((a : A) → (f a).1.denied ≡ m.denied)
      → (with_reading api fc o msg f m).1.denied ≡ m.denied
  with_reading-denied (err e) msg f m h = on_err-denied fc msg m
  with_reading-denied (ok a) msg f m h = h a

  module _ (res : Classify.Result) (q : UserQuota) (params : Map Text) where
    settled-denied :
        (s : Settle) (d : Delta) (m : Metrics)
        → (finalize s d (check api fc q res.node d m)).1.denied ≡ m.denied
    settled-denied s d m = finalize-denied s d _ ∙ check-denied q res.node d m

    rollback-denied :
        (o : Result (Map Text)) (msg : Text) (m : Metrics)
        → (with_reading api fc o msg
            (λ cur.
              with_reading api fc
                (snapshot_usage api res.node res.guest_kind (atoi res.vmid) res.snapshot)
                (codes "snapshot config unreadable")
                (λ target.
                  admit_change api fc res q params cur
                    (increase_delta target (config_usage res.guest_kind cur))
                    m)
                m)
            m).1.denied
          ≡ m.denied
    rollback-denied (err e) msg m = on_err-denied fc msg m
    rollback-denied (ok cur) msg m = with_reading-denied _ _ _ m λ target. settled-denied _ _ m

    pub decide-denied :
        (a : Action) (m : Metrics) → (decide api fc res q params a m).1.denied ≡ m.denied
    unfolding decide decide_create decide_rollback
    decide-denied Action.guest_create m = elim (Bool-cases (is_restore params)) [
      | inl restore ↦ rw restore (with_reading-denied _ _ _ m λ u. settled-denied _ _ m)
      | inr fresh ↦ rw fresh (settled-denied _ _ m)
    ]
    decide-denied Action.clone m = with_reading-denied _ _ _ m λ src. settled-denied _ _ m
    decide-denied Action.resize m = with_reading-denied _ _ _ m λ cur. settled-denied _ _ m
    decide-denied Action.move_disk m = with_reading-denied _ _ _ m λ cur. settled-denied _ _ m
    decide-denied Action.guest_config m = with_reading-denied _ _ _ m λ cur. settled-denied _ _ m
    decide-denied Action.rollback m = rollback-denied _ _ m
    decide-denied Action.storage_alloc m = check-denied q res.node _ m
    decide-denied _ m = refl
