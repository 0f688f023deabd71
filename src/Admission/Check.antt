-- ===== src/Admission/Check.antt =====
-- internal/admission/admission.go: the limits of a user on a node, and the test of an increase
-- against them.
pub mod Exact
pub mod Within
pub mod Wrapped
pub mod Overflow
pub mod Reasons
use proxmox_user_quota_proxy.Base.{
  first_some, ◌^◌, Bool, true, false, not, ◌&&◌, ◌||◌, Option, none, some, [], ◌∷◌, if◌then◌else◌,
  ℤ, pos, ltb_ℤ, leb_ℤ, add64, sub64, quot, Text, is_empty, or_else, Map, lookup, count,
}
use proxmox_user_quota_proxy.Usage.Guest.{Usage}
use proxmox_user_quota_proxy.Quota.Config.{NodeOverride, UserQuota}
use proxmox_user_quota_proxy.Admission.Delta.{Delta}

-- The four results of effectiveLimits.
pub record Limits : Type 0 where
  pub cores : ℤ
  pub memory_mib : ℤ
  pub instances : ℤ
  pub disk_gib : Map ℤ

-- The texts of a denial by quota, with the values that they print.
pub data Reason : Type 0 where
  cores_over : (used requested limit : ℤ) → Reason
  memory_over : (used requested limit : ℤ) → Reason
  instances_over : (used requested limit : ℤ) → Reason
  storage_unlisted : Text → Reason
  disk_over : (storage : Text) (combined limit : ℤ) → Reason

abbrev pub base_limits : UserQuota → Limits
base_limits q = record {
  cores = q.cores;
  memory_mib = q.memory_mib;
  instances = q.instances;
  disk_gib = q.disk_gib;
}

-- Every dimension that the override sets takes the place of the user's.
abbrev pub overridden : Option NodeOverride → Limits → Limits
overridden none l = l
overridden (some o) l = record {
  cores = or_else o.cores l.cores;
  memory_mib = or_else o.memory_mib l.memory_mib;
  instances = or_else o.instances l.instances;
  disk_gib = or_else o.disk_gib l.disk_gib;
}

-- effectiveLimits
unfoldable pub effective_limits : UserQuota → Text → Limits
effective_limits q node =
    if is_empty node then base_limits q else overridden (lookup q.nodes node) (base_limits q)

-- ceilGiB
unfoldable pub ceil_gib : ℤ → ℤ
ceil_gib b =
    if leb_ℤ b (pos 0) then pos 0 else quot (sub64 (add64 b (pos (2 ^ 30))) (pos 1)) (2 ^ 30)

-- The test of one storage: `none` where it passes.
unfoldable pub check_storage : Map ℤ → Map ℤ → Text → ℤ → Option Reason
unfolding ceil_gib
check_storage used limits st db = if leb_ℤ db (pos 0) then none else elim (lookup limits st) [
  | none ↦ some (storage_unlisted st)
  | some lim ↦
      let combined = ceil_gib (add64 (count used st) db) in
      if ltb_ℤ lim combined then some (disk_over st combined lim) else none
]

-- the loop over the storages
unfoldable pub check_disks : Map ℤ → Map ℤ → Map ℤ → Option Reason
check_disks used limits [] = none
check_disks used limits ((st, db) ∷ ds) =
    first_some (check_storage used limits st db) (check_disks used limits ds)

-- used + d > limit, of a dimension that grows
abbrev pub exceeds : ℤ → ℤ → ℤ → Bool
exceeds used d limit = ltb_ℤ (pos 0) d && ltb_ℤ limit (add64 used d)

unfoldable pub check_limits : Usage → Delta → Limits → Option Reason
check_limits used d l =
    if exceeds used.cores d.cores l.cores
    then some (cores_over used.cores d.cores l.cores)
    else if exceeds used.memory_mib d.memory_mib l.memory_mib
    then some (memory_over used.memory_mib d.memory_mib l.memory_mib)
    else if exceeds used.instances d.instances l.instances
    then some (instances_over used.instances d.instances l.instances)
    else check_disks used.disk_bytes l.disk_gib d.disk_bytes

-- checkQuota: the reason of a denial, or `none` where the increase fits.
unfoldable pub check_quota : Usage → Delta → UserQuota → Text → Option Reason
unfolding check_limits effective_limits
check_quota used d q node = check_limits used d (effective_limits q node)
