-- ===== src/Admission/Check/Overflow.antt =====
-- The test against the limits where sums leave the 64 bits of Go's integers.
use proxmox_user_quota_proxy.Base.{◌≡◌, ◌↔◌, none, All, pos, ◌≤ℤ◌, IsInt64, Text}
use proxmox_user_quota_proxy.Usage.Guest.{Usage}
use proxmox_user_quota_proxy.Quota.Config.{UserQuota}
use proxmox_user_quota_proxy.Admission.Delta.{Delta}
use proxmox_user_quota_proxy.Admission.Check.{
  Limits, cores_over, memory_over, instances_over, check_limits, check_quota, effective_limits,
}
use proxmox_user_quota_proxy.Admission.Check.Exact.{ladder}
use proxmox_user_quota_proxy.Admission.Check.Wrapped.{
  IsAmount, PassesIn, StoragePasses, NonnegListed, StorageAmounts, exceeds_passes,
  check_disks_passes,
}

-- The integers of the usage and of the increase are those that Go computes, and no usage is negative.
pub record Amounts (used : Usage) (d : Delta) : Type 0 where
  pub cores : IsAmount used.cores × IsInt64 d.cores
  pub memory : IsAmount used.memory_mib × IsInt64 d.memory_mib
  pub instances : IsAmount used.instances × IsInt64 d.instances
  pub disks : All (StorageAmounts used.disk_bytes) d.disk_bytes

pub record Nonneg (l : Limits) : Type 0 where
  pub cores : pos 0 ≤ℤ l.cores
  pub memory : pos 0 ≤ℤ l.memory_mib
  pub instances : pos 0 ≤ℤ l.instances
  pub disks : NonnegListed l.disk_gib

pub record Passes (used : Usage) (d : Delta) (l : Limits) : Type 0 where
  pub cores : PassesIn used.cores d.cores l.cores
  pub memory : PassesIn used.memory_mib d.memory_mib l.memory_mib
  pub instances : PassesIn used.instances d.instances l.instances
  pub disks : All (StoragePasses used.disk_bytes l.disk_gib) d.disk_bytes

check_limits-Passes :
    (used : Usage) (d : Delta) (l : Limits)
    → Amounts used d
    → Nonneg l
    → (check_limits used d l ≡ none) ↔ Passes used d l
unfolding check_limits
check_limits-Passes used d l r h =
    let c = exceeds_passes used.cores d.cores l.cores r.cores.0 r.cores.1 h.cores in
    let m =
      exceeds_passes used.memory_mib d.memory_mib l.memory_mib r.memory.0 r.memory.1 h.memory in
    let i =
      exceeds_passes used.instances d.instances l.instances r.instances.0 r.instances.1
        h.instances in
    let b = check_disks_passes used.disk_bytes l.disk_gib d.disk_bytes h.disks r.disks in
    let steps =
      ladder _ _ _ (cores_over used.cores d.cores l.cores)
        (memory_over used.memory_mib d.memory_mib l.memory_mib)
        (instances_over used.instances d.instances l.instances) _ in
    (
      λ p.
          let (pc, pm, pi, pb) = steps.0 p in
          record { cores = c.0 pc; memory = m.0 pm; instances = i.0 pi; disks = b.0 pb },
      λ f. steps.1 (c.1 f.cores, m.1 f.memory, i.1 f.instances, b.1 f.disks),
    )

-- On 64 bits, with a usage and limits that are not negative: an increase is admitted exactly if, in
-- every dimension, it is nothing, stays within the limit, or makes a sum of 2^63 or more, and the same
-- on every storage that grows, which must be listed and whose sum counts with the 2^30 that are added to
-- round it up.
pub check_quota_overflow :
    (used : Usage) (d : Delta) (q : UserQuota) (node : Text)
    → Amounts used d
    → Nonneg (effective_limits q node)
    → (check_quota used d q node ≡ none) ↔ Passes used d (effective_limits q node)
unfolding check_quota
check_quota_overflow used d q node r h = check_limits-Passes used d (effective_limits q node) r h
