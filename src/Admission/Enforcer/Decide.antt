-- ===== src/Admission/Enforcer/Decide.antt =====
-- internal/admission/admission.go: the decision on a write, and its failures.
pub mod Exact
pub mod Verdict
pub mod Counters
use proxmox_user_quota_proxy.Base.{
  ◌≡◌, refl, Bool, true, false, not, ◌&&◌, ◌||◌, Option, none, some, List, [], ◌∷◌, if◌then◌else◌,
  ℤ, pos, add64, Text, codes, is_empty, Parsed, number, syntax, range, parse_int, Float64, Map, get,
}
use proxmox_user_quota_proxy.Classify
use proxmox_user_quota_proxy.Classify.{Action}
use proxmox_user_quota_proxy.Audit.{is_restore}
use proxmox_user_quota_proxy.Usage.Guest.{Usage, config_usage}
use proxmox_user_quota_proxy.Usage.Engine.{
  Error, Result, ok, err, Api, guest_usage, snapshot_usage, restore_usage, user_usage,
}
use proxmox_user_quota_proxy.Quota.Config.{UserQuota}
use proxmox_user_quota_proxy.Admission.Delta.{
  Delta, positive, create_delta, config_delta, resize_delta, usage_to_delta, clone_delta,
  increase_delta, move_delta, storage_alloc_delta,
}
use proxmox_user_quota_proxy.Admission.Check.{Reason, check_quota}

pub record Metrics : Type 0 where
  pub audited : ℤ
  pub allowed : ℤ
  pub denied : ℤ
  pub fail_open : ℤ
  pub fail_shut : ℤ

-- The reason of a denial: a text of the program, or a limit.
pub data Denial : Type 0 where
  because : Text → Denial
  no_record : Text → Denial
  over_limit : Reason → Denial

-- What the middleware waits for after an admitted write.
pub data Settle : Type 0 where
  settle_none : Settle
  settle_create : (vmid : ℤ) (pool : Text) → Settle
  settle_guest_mod : (node kind : Text) (vmid : ℤ) (pre_cfg : Map Text) → Settle

pub data Decision : Type 0 where
  allow : Settle → Decision
  deny : Denial → Decision

-- atoi: the nearest bound on an overflow, and 0 for what is no number
unfoldable pub atoi : Text → ℤ
atoi s = elim (parse_int s) [ number n ↦ n | syntax ↦ pos 0 | range n ↦ n ]

-- onErr
unfoldable pub on_err : Bool → Text → Metrics → Decision × Metrics
on_err true msg m = (deny (because msg), record m { fail_shut = add64 m.fail_shut (pos 1) })
on_err false msg m = (allow settle_none, record m { fail_open = add64 m.fail_open (pos 1) })

abbrev pub verdict : Option Reason → Decision
verdict none = allow settle_none
verdict (some r) = deny (over_limit r)

-- finalizeCreate and finalizeGuestMod: what to settle, if the write is admitted and adds anything
unfoldable pub finalize : Settle → Delta → Decision × Metrics → Decision × Metrics
finalize settle d (deny r, m) = (deny r, m)
finalize settle d (allow s, m) = (allow (if positive d then settle else s), m)

-- The backup to restore; the restore of a container names it as its template.
abbrev pub archive_of : Map Text → Text
archive_of params =
    let a = get params (codes "archive") in
    if is_empty a then get params (codes "ostemplate") else a

module _ ⦃fl : Float64⦄ (api : Api) (fail_closed : Bool) where
  abbrev pub tested : Result Usage → UserQuota → Text → Delta → Metrics → Decision × Metrics
  tested (err e) q node d m = on_err fail_closed (codes "usage computation failed") m
  tested (ok u) q node d m = (verdict (check_quota u d q node), m)

  -- check
  unfoldable pub check : UserQuota → Text → Delta → Metrics → Decision × Metrics
  unfolding on_err
  check q node d m =
      if positive d then tested (user_usage api q.pool) q node d m else (allow settle_none, m)

  -- a delta that rests on a reading
  abbrev pub with_reading {ℓ} :
      {A : Type ℓ} → Result A → Text → (A → Decision × Metrics) → Metrics → Decision × Metrics
  with_reading (err e) msg f m = on_err fail_closed msg m
  with_reading (ok a) msg f m = f a

  module _ (res : Classify.Result) (q : UserQuota) (params : Map Text) where
    abbrev vmid : ℤ
    vmid = atoi res.vmid

    abbrev pub admit_new : ℤ → Delta → Metrics → Decision × Metrics
    admit_new id d m = finalize (settle_create id q.pool) d (check q res.node d m)

    abbrev pub admit_change : Map Text → Delta → Metrics → Decision × Metrics
    admit_change cur d m =
        finalize (settle_guest_mod res.node res.guest_kind vmid cur) d (check q res.node d m)

    abbrev current : Result (Map Text)
    current = api.guest_config res.node res.guest_kind vmid

    abbrev unreadable : Text
    unreadable = codes "current config unreadable"

    unfoldable pub decide_create : Metrics → Decision × Metrics
    unfolding is_restore atoi check finalize
    decide_create m =
        if is_restore params
        then with_reading (restore_usage api res.node (archive_of params) res.guest_kind)
            (codes "restore config unreadable")
            (λ u. admit_new (atoi (get params (codes "vmid"))) (usage_to_delta u) m) m
        else admit_new (atoi (get params (codes "vmid"))) (create_delta res.guest_kind params) m

    unfoldable pub decide_rollback : Metrics → Decision × Metrics
    unfolding atoi check finalize
    decide_rollback m =
        with_reading current unreadable
          (λ cur.
            with_reading (snapshot_usage api res.node res.guest_kind vmid res.snapshot)
              (codes "snapshot config unreadable")
              (λ target.
                admit_change cur (increase_delta target (config_usage res.guest_kind cur)) m)
              m)
          m

    -- decide, by the action of the request
    unfoldable pub decide : Action → Metrics → Decision × Metrics
    unfolding decide_create decide_rollback atoi check finalize
    decide Action.guest_create m = decide_create m
    decide Action.clone m =
        with_reading (guest_usage api res.node res.guest_kind vmid)
          (codes "clone source unreadable")
          (λ src. admit_new (atoi (get params (codes "newid"))) (clone_delta src params) m) m
    decide Action.resize m =
        with_reading current unreadable (λ cur. admit_change cur (resize_delta params cur) m) m
    decide Action.move_disk m =
        with_reading current unreadable (λ cur. admit_change cur (move_delta params cur) m) m
    decide Action.guest_config m =
        with_reading current unreadable
          (λ cur. admit_change cur (config_delta res.guest_kind params cur) m) m
    decide Action.rollback m = decide_rollback m
    decide Action.storage_alloc m = check q res.node (storage_alloc_delta res.storage params) m
    decide _ m = (allow settle_none, m)
