-- ===== src/Admission/Delta/Positive.antt =====
-- The shortcut for increases that add nothing, compared with the test against the limits.
use proxmox_user_quota_proxy.Base.{
  ◌≡◌, refl, ◌↔◌, false, none, [], ◌∷◌, arith, All, ℤ, pos, ◌≤ℤ◌, Text, Map,
}
use proxmox_user_quota_proxy.Usage.Guest.{Usage}
use proxmox_user_quota_proxy.Quota.Config.{UserQuota}
use proxmox_user_quota_proxy.Admission.Delta.{Delta, any_positive, positive}
use proxmox_user_quota_proxy.Admission.Check.{
  check_storage, check_disks, check_limits, check_quota, effective_limits,
}

any_positive_exact : (m : Map ℤ) → (any_positive m ≡ false) ↔ All (λ (e : Text × ℤ). e.1 ≤ℤ pos 0) m
unfolding any_positive
any_positive_exact [] = (λ _. tt, λ _. refl)
any_positive_exact ((st, b) ∷ m) = ground (arith, any_positive_exact m)

-- An increase is not positive exactly if it adds nothing in any dimension or on any storage.
pub positive_exact :
    (d : Delta)
    → (positive d ≡ false) ↔ (
        (d.cores ≤ℤ pos 0)
        × (d.memory_mib ≤ℤ pos 0)
        × (d.instances ≤ℤ pos 0)
        × All (λ (e : Text × ℤ). e.1 ≤ℤ pos 0) d.disk_bytes)
unfolding positive
positive_exact d = ground (arith, any_positive_exact d.disk_bytes)

check_disks_nothing :
    (used limits m : Map ℤ)
    → All (λ (e : Text × ℤ). e.1 ≤ℤ pos 0) m
    → check_disks used limits m ≡ none
unfolding check_disks check_storage
check_disks_nothing used limits [] h = refl
check_disks_nothing used limits ((st, b) ∷ m) h = ground (arith, check_disks_nothing used limits m)

-- The test against the limits lets every increase pass that is not positive, whatever is used and
-- whatever the limits are: to answer without reading the usage changes no answer.
pub not_positive_passes :
    (used : Usage) (d : Delta) (q : UserQuota) (node : Text)
    → positive d ≡ false
    → check_quota used d q node ≡ none
unfolding check_quota check_limits
not_positive_passes used d q node h =
    let (c, m, i, ds) = (positive_exact d).0 h in
    ground (
      arith,
      check_disks_nothing used.disk_bytes (effective_limits q node).disk_gib d.disk_bytes ds,
      c,
      m,
      i,
    )
