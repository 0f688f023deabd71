-- ===== src/Report/Exact.antt =====
-- When the alarm of the page stays off.
use proxmox_user_quota_proxy.Base.{
  ℕ, ◌+◌, ◌-◌, ◌/◌, ◌^◌, ◌<◌, ◌≡◌, refl, subst, ◌↔◌, false, Option, none, some, [], ◌∷◌, arith, All,
  ℤ, pos, negsuc, ◌+ℤ◌, ◌*ℤ◌, ◌≤ℤ◌, ◌<ℤ◌, ltb_ℤ, add64, add64_exact, add64-pos, quot, Text, Map,
  lookup,
}
use proxmox_user_quota_proxy.Usage.Guest.{Usage, disk_gib_of}
use proxmox_user_quota_proxy.Quota.Config.{UserQuota}
use proxmox_user_quota_proxy.Admission.Check.Exact.{gib_bytes}
use proxmox_user_quota_proxy.Report.{storage_over, any_storage_over, over_quota}

-- Bytes that are not negative, and that can be rounded up in 64 bits.
abbrev pub Roundable : Text × ℤ → Type 0
Roundable (st, b) = (pos 0 ≤ℤ b) × (b +ℤ pos (2 ^ 30) <ℤ pos (2 ^ 63))

-- The storage is listed, and its limit holds.
unfoldable pub ListedWithin : Map ℤ → Text × ℤ → Type 0
ListedWithin limits (st, b) = (lim : ℤ) × (lookup limits st ≡ some lim) × (b ≤ℤ gib_bytes lim)

add64-minus_one : (n : ℕ) → 0 < n → n < 2 ^ 63 → add64 (pos n) (negsuc 0) ≡ pos (n - 1)
unfolding ◌+ℤ◌
add64-minus_one ℕ.zero p h = absurd (omega arith)
add64-minus_one (ℕ.suc n) p h =
    ground (arith, add64_exact (pos (ℕ.suc n)) (negsuc 0) (ground arith, ground arith))

disk_gib_of-pos :
    (n : ℕ) → n + 2 ^ 30 < 2 ^ 63 → disk_gib_of (pos n) ≡ pos ((n + 2 ^ 30 - 1) / 2 ^ 30)
unfolding disk_gib_of quot
disk_gib_of-pos n h =
    ground (arith, add64-pos n (2 ^ 30) (omega arith), add64-minus_one (n + 2 ^ 30) (omega arith) h)

disk_gib_of-le :
    (b lim : ℤ)
    → pos 0 ≤ℤ b
    → b +ℤ pos (2 ^ 30) <ℤ pos (2 ^ 63)
    → (ltb_ℤ lim (disk_gib_of b) ≡ false) ↔ (b ≤ℤ gib_bytes lim)
unfolding ◌+ℤ◌ ◌*ℤ◌
disk_gib_of-le (pos n) (pos lim) h k = rw (disk_gib_of-pos n (ground arith)) (ground arith)
disk_gib_of-le (pos n) (negsuc lim) h k = rw (disk_gib_of-pos n (ground arith)) (ground arith)
disk_gib_of-le (negsuc n) lim h k = absurd (omega arith)

limit_exact :
    (o : Option ℤ) (b : ℤ)
    → pos 0 ≤ℤ b
    → b +ℤ pos (2 ^ 30) <ℤ pos (2 ^ 63)
    → (storage_over o b ≡ false) ↔ ((lim : ℤ) × (o ≡ some lim) × (b ≤ℤ gib_bytes lim))
unfolding storage_over
limit_exact none b p r = (λ h. cc, λ w. let (lim, e, _) = w in cc)
limit_exact (some lim) b p r = (
  λ h. (lim, refl, (disk_gib_of-le b lim p r).0 h),
  λ w.
      let (x, same, q) = w in
      let is_lim : x ≡ lim = ground arith in
      (disk_gib_of-le b lim p r).1 (subst (λ l. b ≤ℤ gib_bytes l) is_lim q),
)

storage_exact :
    (limits : Map ℤ) (st : Text) (b : ℤ)
    → Roundable (st, b)
    → (storage_over (lookup limits st) b ≡ false) ↔ ListedWithin limits (st, b)
unfolding ListedWithin
storage_exact limits st b (p, r) = limit_exact (lookup limits st) b p r

storages_exact :
    (limits m : Map ℤ)
    → All Roundable m
    → (any_storage_over limits m ≡ false) ↔ All (ListedWithin limits) m
unfolding any_storage_over
storages_exact limits [] h = ground arith
storages_exact limits ((st, b) ∷ m) ((p, r), h) =
    ground (arith, storage_exact limits st b (p, r), storages_exact limits m h)

-- Where no bytes are negative and all can be rounded up in 64 bits: the alarm of a user is off
-- exactly if cores, memory and guests are within the limits, and every storage that the user holds
-- bytes on is listed and within its limit.
pub over_quota_exact :
    (u : Usage) (q : UserQuota)
    → All Roundable u.disk_bytes
    → (over_quota u q ≡ false) ↔ (
        (u.cores ≤ℤ q.cores)
        × (u.memory_mib ≤ℤ q.memory_mib)
        × (u.instances ≤ℤ q.instances)
        × All (ListedWithin q.disk_gib) u.disk_bytes)
unfolding over_quota
over_quota_exact u q h = ground (arith, storages_exact q.disk_gib u.disk_bytes h)
