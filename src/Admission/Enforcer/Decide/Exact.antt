-- ===== src/Admission/Enforcer/Decide/Exact.antt =====
-- The decision on every enforced action, compared with the increase that the request asks for.
use proxmox_user_quota_proxy.Base.{
  ◌≡◌, refl, ◌⊎◌, inl, inr, Bool, true, false, none, arith, Bool-cases, if◌then◌else◌, Text, codes,
  Float64, Map, get,
}
use proxmox_user_quota_proxy.Classify
use proxmox_user_quota_proxy.Classify.{Action}
use proxmox_user_quota_proxy.Audit.{is_restore}
use proxmox_user_quota_proxy.Usage.Guest.{Usage, config_usage}
use proxmox_user_quota_proxy.Usage.Engine.{
  Result, ok, err, ◌>>=◌, Api, guest_usage, snapshot_usage, restore_usage, user_usage,
}
use proxmox_user_quota_proxy.Quota.Config.{UserQuota}
use proxmox_user_quota_proxy.Admission.Delta.{
  Delta, positive, new_delta, create_delta, config_delta, resize_delta, usage_to_delta, clone_delta,
  increase_delta, move_delta, storage_alloc_delta,
}
use proxmox_user_quota_proxy.Admission.Check.{check_quota}
use proxmox_user_quota_proxy.Admission.Enforcer.Decide.{
  Metrics, Settle, Decision, allow, deny, atoi, on_err, finalize, check, tested, with_reading,
  decide_create, decide_rollback, decide, archive_of, admit_new,
}

-- The actions that are decided by the usage.
abbrev pub is_decided : Action → Bool
is_decided Action.guest_create = true
is_decided Action.guest_config = true
is_decided Action.resize = true
is_decided Action.clone = true
is_decided Action.move_disk = true
is_decided Action.rollback = true
is_decided Action.storage_alloc = true
is_decided _ = false

module _ ⦃fl : Float64⦄ (api : Api) (res : Classify.Result) (q : UserQuota)
    (params : Map Text) where
  abbrev guest_config : Result (Map Text)
  guest_config = api.guest_config res.node res.guest_kind (atoi res.vmid)

  -- The increase that a request asks for, unless a config that it rests on cannot be read.
  abbrev pub requested : Action → Result Delta
  requested Action.guest_create =
      if is_restore params
      then (restore_usage api res.node (archive_of params) res.guest_kind >>= λ u.
          ok (usage_to_delta u))
      else ok (create_delta res.guest_kind params)
  requested Action.clone =
      guest_usage api res.node res.guest_kind (atoi res.vmid) >>= λ src. ok (clone_delta src params)
  requested Action.resize = guest_config >>= λ cur. ok (resize_delta params cur)
  requested Action.move_disk = guest_config >>= λ cur. ok (move_delta params cur)
  requested Action.guest_config =
      guest_config >>= λ cur. ok (config_delta res.guest_kind params cur)
  requested Action.rollback = guest_config >>= λ cur.
      snapshot_usage api res.node res.guest_kind (atoi res.vmid) res.snapshot >>= λ target.
      ok (increase_delta target (config_usage res.guest_kind cur))
  requested Action.storage_alloc = ok (storage_alloc_delta res.storage params)
  requested _ = ok new_delta

  -- An increase that adds nothing, or that fits the usage that was read.
  abbrev pub Fitting : Delta → Type 0
  Fitting d =
      (positive d ≡ false)
      ⊎ ((u : Usage) × (user_usage api q.pool ≡ ok u) × (check_quota u d q res.node ≡ none))

  tested_sound :
      (o : Result Usage) (d : Delta) (m m' : Metrics) (st : Settle)
      → tested api true o q res.node d m ≡ (allow st, m')
      → (u : Usage) × (o ≡ ok u) × (check_quota u d q res.node ≡ none)
  tested_sound (err e) d m m' st h = unfold on_err in cc
  tested_sound (ok u) d m m' st h = (u, refl, ground arith)

  check_sound :
      (d : Delta) (m m' : Metrics) (st : Settle)
      → check api true q res.node d m ≡ (allow st, m')
      → Fitting d
  unfolding check
  check_sound d m m' st h = elim (Bool-cases (positive d)) [
    | inl grows ↦ inr (tested_sound (user_usage api q.pool) d m m' st (rw grows at h))
    | inr nothing ↦ inl nothing
  ]

  finalize_sound :
      (s st : Settle) (d : Delta) (x : Decision × Metrics) (m' : Metrics)
      → finalize s d x ≡ (allow st, m')
      → (st' : Settle) × (x ≡ (allow st', m'))
  unfolding finalize
  finalize_sound s st d (deny r, m) m' h = cc
  finalize_sound s st d (allow st', m) m' h = (st', ground arith)

  with_reading_sound {ℓ} :
      {A : Type ℓ} (o : Result A) (msg : Text) (f : A → Decision × Metrics) (m m' : Metrics)
      (st : Settle)
      → with_reading api true o msg f m ≡ (allow st, m')
      → (a : A) × (o ≡ ok a) × (f a ≡ (allow st, m'))
  with_reading_sound (err e) msg f m m' st h = unfold on_err in cc
  with_reading_sound (ok a) msg f m m' st h = (a, refl, h)

  -- what a decision on an increase that was found out says
  settled_sound :
      (s st : Settle) (d : Delta) (m m' : Metrics)
      → finalize s d (check api true q res.node d m) ≡ (allow st, m')
      → Fitting d
  settled_sound s st d m m' h =
      let (st', e) = finalize_sound s st d (check api true q res.node d m) m' h in
      check_sound d m m' st' e

  -- one reading, and an increase that rests on it
  read_sound {ℓ} :
      {A : Type ℓ} (o : Result A) (msg : Text) (s : A → Settle) (delta : A → Delta) (m m' : Metrics)
      (st : Settle)
      → with_reading api true o msg
          (λ a. finalize (s a) (delta a) (check api true q res.node (delta a) m))
          m
        ≡ (allow st, m')
      → (d : Delta) × ((o >>= λ a. ok (delta a)) ≡ ok d) × Fitting d
  read_sound o msg s delta m m' st h =
      let (a, e, g) = with_reading_sound o msg _ m m' st h in
      (delta a, rw e, settled_sound (s a) st (delta a) m m' g)

  create_sound :
      (restore : Bool) (m m' : Metrics) (st : Settle)
      → (if restore
          then with_reading api true
              (restore_usage api res.node (archive_of params) res.guest_kind)
              (codes "restore config unreadable")
              (λ u.
                admit_new api true res q params
                  (atoi (get params (codes "vmid")))
                  (usage_to_delta u)
                  m)
              m
          else admit_new api true res q params
              (atoi (get params (codes "vmid")))
              (create_delta res.guest_kind params)
              m)
        ≡ (allow st, m')
      → (d : Delta) × ((if restore
            then (restore_usage api res.node (archive_of params) res.guest_kind >>= λ u.
                ok (usage_to_delta u))
            else ok (create_delta res.guest_kind params))
          ≡ ok d)
        × Fitting d
  create_sound true m m' st h = read_sound _ _ _ _ m m' st h
  create_sound false m m' st h =
      (create_delta res.guest_kind params, refl, settled_sound _ st _ m m' h)

  rollback_sound :
      (m m' : Metrics) (st : Settle)
      → decide_rollback api true res q params m ≡ (allow st, m')
      → (d : Delta) × (requested Action.rollback ≡ ok d) × Fitting d
  unfolding decide_rollback
  rollback_sound m m' st h =
      let (cur, e, g) = with_reading_sound guest_config _ _ m m' st h in
      let (d, e', fits) = read_sound _ _ _ _ m m' st g in (d, rw e e', fits)

  -- Where failures of the accounting are denied, a write with a quota action that is admitted asks
  -- for an increase that could be found out, and that adds nothing or passes the test against the
  -- usage that was read.
  pub admitted_fits :
      (a : Action) (m m' : Metrics) (st : Settle)
      → is_decided a ≡ true
      → decide api true res q params a m ≡ (allow st, m')
      → (d : Delta) × (requested a ≡ ok d) × Fitting d
  unfolding decide decide_create decide_rollback
  admitted_fits Action.guest_create m m' st _ h = create_sound (is_restore params) m m' st h
  admitted_fits Action.clone m m' st _ h = read_sound _ _ _ _ m m' st h
  admitted_fits Action.resize m m' st _ h = read_sound _ _ _ _ m m' st h
  admitted_fits Action.move_disk m m' st _ h = read_sound _ _ _ _ m m' st h
  admitted_fits Action.guest_config m m' st _ h = read_sound _ _ _ _ m m' st h
  admitted_fits Action.rollback m m' st _ h = rollback_sound m m' st h
  admitted_fits Action.storage_alloc m m' st _ h =
      (storage_alloc_delta res.storage params, refl, check_sound _ m m' st h)
  admitted_fits _ m m' st absurd_action h = cc
