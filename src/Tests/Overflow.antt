-- ===== src/Tests/Overflow.antt =====
-- An increase that is so large that the test wraps around.
use proxmox_user_quota_proxy.Base.{
  trim_space, ◌^◌, ◌-◌, ◌≡◌, refl, ◌↔◌, inl, inr, none, some, [], ◌∷◌, arith, ℤ, pos, ◌≤ℤ◌,
  Bool-cases, Text, codes, lookup, eqb, get, add64, mul64, parse_int,
}
use proxmox_user_quota_proxy.Usage.Disk.{is_disk_key}
use proxmox_user_quota_proxy.Usage.Guest.{atoi_default}
use proxmox_user_quota_proxy.Admission.Delta.{Delta, create_delta}
use proxmox_user_quota_proxy.Admission.Check.{check_disks, check_quota, effective_limits}
use proxmox_user_quota_proxy.Admission.Check.Overflow.{
  Amounts, Nonneg, Passes, check_quota_overflow,
}
use proxmox_user_quota_proxy.Tests.Fixtures.{whole, used, limits}

-- A guest with as many cores as an int64 holds, and half a GiB of memory.
abbrev huge : Delta
huge = record { cores = pos (2 ^ 63 - 1); memory_mib = pos 512; instances = pos 1; disk_bytes = [] }

huge_create : create_delta (codes "qemu") ((codes "cores", codes "9223372036854775807") ∷ []) ≡ huge
unfolding create_delta eqb atoi_default is_disk_key mul64 get lookup parse_int trim_space
huge_create = refl

huge-Amounts : Amounts used huge
huge-Amounts = record {
  cores = (omega arith, (omega arith, omega arith));
  memory = (omega arith, (omega arith, omega arith));
  instances = (omega arith, (omega arith, omega arith));
  disks = tt;
}

listed_pos : (st : Text) (lim : ℤ) → lookup limits.disk_gib st ≡ some lim → pos 0 ≤ℤ lim
unfolding lookup
listed_pos st lim e = elim (Bool-cases (eqb (codes "local") st)) [
  | inl same ↦ ground arith
  | inr other ↦ ground arith
]

limits-Nonneg : Nonneg (effective_limits limits (codes "n1"))
unfolding effective_limits lookup
limits-Nonneg = record {
  cores = omega arith;
  memory = omega arith;
  instances = omega arith;
  disks = listed_pos;
}

check_quota_overflow_example :
    (check_quota used huge limits (codes "n1") ≡ none)
    ↔ Passes used huge (effective_limits limits (codes "n1"))
check_quota_overflow_example =
    check_quota_overflow used huge limits (codes "n1") huge-Amounts limits-Nonneg

-- A user with two cores in use and a limit of four creates the guest.
huge_fits : check_quota used huge limits (codes "n1") ≡ none
unfolding check_quota lookup add64 check_disks
huge_fits = refl
