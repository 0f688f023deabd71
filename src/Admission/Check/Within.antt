-- ===== src/Admission/Check/Within.antt =====
-- What admission preserves: usage within the limits of a user.
use proxmox_user_quota_proxy.Base.{
  ◌≡◌, ◌⊎◌, inl, inr, none, some, Option-cases, All, ℤ, pos, ◌+ℤ◌, ◌≤ℤ◌, add64, add64_exact,
  int_laws, IsInt64, Text, Map, IsMap, lookup, count, add_all, count-add_all, All-lookup,
}
use proxmox_user_quota_proxy.Usage.Guest.{Usage}
use proxmox_user_quota_proxy.Quota.Config.{UserQuota}
use proxmox_user_quota_proxy.Admission.Delta.{Delta}
use proxmox_user_quota_proxy.Admission.Check.{Limits, check_quota, effective_limits}
use proxmox_user_quota_proxy.Admission.Check.Exact.{
  gib_bytes, FitsIn, StorageFits, StorageInRange, InRange, check_quota_exact,
}

-- Bytes on a storage that is used: it is listed, and its limit is not passed.
abbrev pub StorageWithin : Map ℤ → Text → ℤ → Type 0
StorageWithin limits st b =
    (b ≤ℤ pos 0) ⊎ ((lim : ℤ) × (lookup limits st ≡ some lim) × (b ≤ℤ gib_bytes lim))

-- Usage within limits, on every storage.
pub record Within (u : Usage) (l : Limits) : Type 0 where
  pub cores : u.cores ≤ℤ l.cores
  pub memory : u.memory_mib ≤ℤ l.memory_mib
  pub instances : u.instances ≤ℤ l.instances
  pub disks : (st : Text) → StorageWithin l.disk_gib st (count u.disk_bytes st)

-- The usage after an increase, as the accounting adds it up.
unfoldable pub apply : Usage → Delta → Usage
apply u d = record {
  cores = add64 u.cores d.cores;
  memory_mib = add64 u.memory_mib d.memory_mib;
  instances = add64 u.instances d.instances;
  disk_bytes = add_all u.disk_bytes d.disk_bytes;
}

dimension_within :
    (used d limit : ℤ)
    → IsInt64 (used +ℤ d)
    → FitsIn used d limit
    → used ≤ℤ limit
    → add64 used d ≤ℤ limit
dimension_within used d limit r fits within = rw (add64_exact used d r) (omega int_laws)

storage_within :
    (used limits : Map ℤ) (st : Text) (db : ℤ)
    → StorageInRange used (st, db)
    → StorageFits used limits (st, db)
    → StorageWithin limits st (count used st)
    → StorageWithin limits st (add64 (count used st) db)
storage_within used limits st db (h, k, r) fits within =
    rw (add64_exact (count used st) db (omega int_laws)) (elim fits [
      | inl shrinks ↦ elim within [
        | inl none_used ↦ inl (omega int_laws)
        | inr (lim, e, le) ↦ inr (lim, e, omega int_laws)
      ]
      | inr listed ↦ inr listed
    ])

disks_within :
    (used ds limits : Map ℤ) (st : Text)
    → IsMap ds
    → All (StorageInRange used) ds
    → All (StorageFits used limits) ds
    → StorageWithin limits st (count used st)
    → StorageWithin limits st (count (add_all used ds) st)
disks_within used ds limits st m rs fs within =
    rw (count-add_all used ds st m) (elim (Option-cases (lookup ds st)) [
      | inl same ↦ rw same within
      | inr (db, e) ↦ rw e (
          storage_within used limits st db (All-lookup (StorageInRange used) ds st db rs e)
            (All-lookup (StorageFits used limits) ds st db fs e) within)
    ])

-- A user within the limits is within them after every increase that is admitted, on every storage,
-- where no sum overflows and no storage stands twice in the increase.
pub admitted_stays-Within :
    (used : Usage) (d : Delta) (q : UserQuota) (node : Text)
    → InRange used d
    → IsMap d.disk_bytes
    → check_quota used d q node ≡ none
    → Within used (effective_limits q node)
    → Within (apply used d) (effective_limits q node)
unfolding apply
admitted_stays-Within used d q node r m passes w =
    let f = (check_quota_exact used d q node r).0 passes in
    record {
      cores = dimension_within used.cores d.cores _ r.cores f.cores w.cores;
      memory = dimension_within used.memory_mib d.memory_mib _ r.memory f.memory w.memory;
      instances = dimension_within used.instances d.instances _ r.instances f.instances w.instances;
      disks = λ st. disks_within used.disk_bytes d.disk_bytes _ st m r.disks f.disks (w.disks st);
    }
