-- ===== src/Tests/Footprints.antt =====
-- Footprints and increases of the small cluster.
use mathlib.Core.List.{Perm}
use mathlib.Core.List.Perm
use proxmox_user_quota_proxy.Base.{
  ◌^◌, ◌*◌, ◌≡◌, refl, ◌↔◌, inl, inr, none, some, [], ◌∷◌, arith, ℤ, pos, ◌+ℤ◌, ◌*ℤ◌, IsInt64,
  add64, mul64, quot, sub64, Bool-cases, Text, codes, Map, IsMap, lookup, insert, get, count,
  add_to, add_all, sum_on, added, eqb, parse_int,
}
use proxmox_user_quota_proxy.Usage.Disk.{is_disk_key, parse_disk}
use proxmox_user_quota_proxy.Usage.Guest.{
  Usage, add_disk, atoi_default, total_cores, memory_of, config_usage,
}
use proxmox_user_quota_proxy.Usage.Guest.Totals.{sized_disks, footprint_total}
use proxmox_user_quota_proxy.Usage.Engine.{ok, user_usage}
use proxmox_user_quota_proxy.Usage.Engine.Cache.{uncached_usage, user_usage-uncached}
use proxmox_user_quota_proxy.Admission.Delta.{config_delta, create_delta, increase_delta}
use proxmox_user_quota_proxy.Admission.Delta.Merged.{override, config_delta_predicts}
use proxmox_user_quota_proxy.Admission.Delta.Disks.{new_disks, delta_disks}
use proxmox_user_quota_proxy.Admission.Delta.Increase.{max_ℤ, raised, increase_reaches_larger}
use proxmox_user_quota_proxy.Admission.Check.{
  check_quota, check_disks, check_storage, effective_limits,
}
use proxmox_user_quota_proxy.Admission.Check.Exact.{Fits, InRange, check_quota_exact}
use proxmox_user_quota_proxy.Admission.Check.Within.{
  StorageWithin, Within, apply, admitted_stays-Within,
}
use proxmox_user_quota_proxy.Tests.Fixtures.{
  whole, small_api, guest, guest_turned, used, limits, one_core,
}

one_entry : IsMap ((codes "sockets", codes "2") ∷ [])
unfolding lookup
one_entry = (refl, tt)

guest-IsMap : IsMap guest
unfolding lookup eqb
guest-IsMap = (refl, (refl, (refl, tt)))

one_storage : IsMap ((codes "local", pos (30 * 2 ^ 30)) ∷ [])
unfolding lookup
one_storage = (refl, tt)

one_core-IsMap : IsMap one_core.disk_bytes
unfolding lookup
one_core-IsMap = (refl, tt)

local_used : IsInt64 (count used.disk_bytes (codes "local"))
unfolding count lookup eqb
local_used = (omega arith, omega arith)

local-IsInt64 :
    (tb : ℤ)
    → lookup ((codes "local", pos (30 * 2 ^ 30)) ∷ []) (codes "local") ≡ some tb
    → IsInt64 tb
unfolding lookup eqb
local-IsInt64 tb h = ground arith

one_core-InRange : InRange used one_core
unfolding count lookup eqb ◌+ℤ◌
one_core-InRange = record {
  cores = (ground arith, ground arith);
  memory = (ground arith, ground arith);
  instances = (ground arith, ground arith);
  disks = ((ground arith, ground arith, ground arith), tt);
}

pub disks-Within : (st : Text) → StorageWithin limits.disk_gib st (count used.disk_bytes st)
unfolding count lookup ◌*ℤ◌
disks-Within st = elim (Bool-cases (eqb (codes "local") st)) [
  | inl same ↦ inr (pos 20, rw same refl, rw same (ground arith))
  | inr other ↦ inl (rw other (ground arith))
]

used-Within : Within used (effective_limits limits (codes "n1"))
unfolding effective_limits count lookup ◌*ℤ◌
used-Within = record {
  cores = ground arith;
  memory = ground arith;
  instances = ground arith;
  disks = disks-Within;
}

turned : Perm guest guest_turned
turned = Perm.swap _ _ _

footprint_total_example :
    count (config_usage (codes "qemu") guest_turned).disk_bytes (codes "local")
    ≡ sum_on (codes "local") (sized_disks guest)
footprint_total_example = footprint_total (codes "qemu") guest guest_turned (codes "local") turned

user_usage-uncached_example :
    user_usage small_api (codes "dev") ≡ uncached_usage small_api (codes "dev")
user_usage-uncached_example = user_usage-uncached small_api (codes "dev") _ refl (ground arith)

used_by_dev : user_usage small_api (codes "dev") ≡ ok used
unfolding user_usage eqb add64 is_disk_key add_disk parse_disk parse_int mul64 atoi_default add_all
    get lookup add_to insert
used_by_dev = refl

delta_disks_example :
    (count (config_delta (codes "qemu") guest_turned []).disk_bytes (codes "local")
      ≡ sum_on (codes "local") (new_disks [] guest))
    × (count (create_delta (codes "qemu") guest_turned).disk_bytes (codes "local")
        ≡ sum_on (codes "local") (new_disks [] guest))
delta_disks_example = delta_disks (codes "qemu") guest guest_turned [] (codes "local") turned

-- The guest with two sockets, as the cluster may list its config behind the edit.
abbrev two_sockets : Map Text
two_sockets = (codes "sockets", codes "2") ∷ []

abbrev guest_edited : Map Text
guest_edited =
    (codes "sockets", codes "2")
    ∷ (codes "cores", codes "2")
    ∷ (codes "memory", codes "2048")
    ∷ (codes "scsi0", codes "local:disk-0,size=10G")
    ∷ []

is_edited : (k : Text) → lookup guest_edited k ≡ override (lookup guest k) (lookup two_sockets k)
unfolding lookup
is_edited k = elim (Bool-cases (eqb (codes "sockets") k)) [
  | inl same ↦ rw same
  | inr other ↦ rw other
]

config_delta_predicts_example :
    (total_cores (codes "qemu") guest_edited
      ≡ add64
          (total_cores (codes "qemu") guest)
          (config_delta (codes "qemu") two_sockets guest).cores)
    × (memory_of guest_edited
        ≡ add64 (memory_of guest) (config_delta (codes "qemu") two_sockets guest).memory_mib)
config_delta_predicts_example =
    config_delta_predicts (codes "qemu") two_sockets guest guest_edited one_entry guest-IsMap
      is_edited

abbrev larger : Usage
larger = record {
  cores = pos 4;
  memory_mib = pos 1024;
  instances = pos 1;
  disk_bytes = (codes "local", pos (30 * 2 ^ 30)) ∷ [];
}

increase_reaches_larger_example :
    (add64 (pos 2) (increase_delta larger used).cores ≡ max_ℤ (pos 2) (pos 4))
    × (add64 (pos 2048) (increase_delta larger used).memory_mib ≡ max_ℤ (pos 2048) (pos 1024))
    × ((increase_delta larger used).instances ≡ pos 0)
    × (added
          (count used.disk_bytes (codes "local"))
          (lookup (increase_delta larger used).disk_bytes (codes "local"))
        ≡ raised (count used.disk_bytes (codes "local")) (lookup larger.disk_bytes (codes "local")))
increase_reaches_larger_example =
    increase_reaches_larger larger used (codes "local") (omega arith, omega arith)
      (omega arith, omega arith) (omega arith, omega arith) (omega arith, omega arith) one_storage
      local_used local-IsInt64

check_quota_exact_example :
    (check_quota used one_core limits (codes "n1") ≡ none)
    ↔ Fits used one_core (effective_limits limits (codes "n1"))
check_quota_exact_example = check_quota_exact used one_core limits (codes "n1") one_core-InRange

one_core_fits : check_quota used one_core limits (codes "n1") ≡ none
unfolding check_quota lookup add64 check_disks check_storage eqb count quot sub64
one_core_fits = refl

admitted_stays-Within_example : Within (apply used one_core) (effective_limits limits (codes "n1"))
admitted_stays-Within_example =
    admitted_stays-Within used one_core limits (codes "n1") one_core-InRange one_core-IsMap
      one_core_fits used-Within
