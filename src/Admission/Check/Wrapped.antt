-- ===== src/Admission/Check/Wrapped.antt =====
-- The tests of one dimension and of the storages where sums leave the 64 bits of Go's integers.
use proxmox_user_quota_proxy.Base.{
  ℕ, ◌*◌, ltb, leb, ◌-◌, ◌/◌, ◌+◌, ◌^◌, ◌<◌, ◌≤◌, ◌≡◌, refl, ◌↔◌, ◌⊎◌, inl, inr, false, none, some,
  [], ◌∷◌, arith, Bool-cases, Option-cases, All, ℤ, pos, negsuc, ◌+ℤ◌, ◌-ℤ◌, ◌*ℤ◌, ◌≤ℤ◌, ◌<ℤ◌,
  ltb_ℤ, leb_ℤ, leb_ℤ-true, leb_ℤ-false, IsInt64, add64, sub64, wrap, to_word, quot, add64-pos,
  Text, Map, lookup, count,
}
use proxmox_user_quota_proxy.Admission.Check.{ceil_gib, check_storage, check_disks, exceeds}
use proxmox_user_quota_proxy.Admission.Check.Exact.{FitsIn, StorageFits, gib_bytes}

-- An amount that an `int64` holds and that is not negative.
abbrev pub IsAmount : ℤ → Type 0
IsAmount a = (pos 0 ≤ℤ a) × IsInt64 a

-- A dimension stays within the limit, or its sum does not fit into 64 bits.
abbrev pub PassesIn : (used d limit : ℤ) → Type 0
PassesIn used d limit = FitsIn used d limit ⊎ (pos (2 ^ 63) ≤ℤ used +ℤ d)

-- A storage stays within the limit, or is listed and its sum, rounded up to GiB, does not fit into
-- 64 bits.
abbrev pub StoragePasses : Map ℤ → Map ℤ → Text × ℤ → Type 0
StoragePasses used limits (st, db) =
    StorageFits used limits (st, db)
    ⊎ ((lim : ℤ) × (lookup limits st ≡ some lim)
        × (pos (2 ^ 63) <ℤ count used st +ℤ db +ℤ pos (2 ^ 30)))

pub exceeds_passes :
    (used d limit : ℤ)
    → IsAmount used
    → IsInt64 d
    → pos 0 ≤ℤ limit
    → (exceeds used d limit ≡ false) ↔ PassesIn used d limit
unfolding add64 wrap to_word ◌+ℤ◌
exceeds_passes (pos n) (pos m) (pos l) u i h = ground arith
exceeds_passes (pos n) (negsuc m) (pos l) u i h = ground arith
exceeds_passes (negsuc n) d limit u i h = absurd (omega arith)
exceeds_passes (pos n) d (negsuc l) u i h = absurd (omega arith)

ceil_gib-near :
    (n : ℕ) → 0 < n → n + 2 ^ 30 ≤ 2 ^ 63 → ceil_gib (pos n) ≡ pos ((n + 2 ^ 30 - 1) / 2 ^ 30)
unfolding ceil_gib quot add64 sub64 wrap to_word ◌+ℤ◌ ◌-ℤ◌
ceil_gib-near n h k = ground arith

ceil_gib-over : (n : ℕ) → 2 ^ 63 < n + 2 ^ 30 → n < 2 ^ 63 → ceil_gib (pos n) ≤ℤ pos 0
unfolding ceil_gib quot add64 sub64 wrap to_word ◌+ℤ◌ ◌-ℤ◌
ceil_gib-over n h k = ground arith

-- a sum that has wrapped around is negative, and rounds up to nothing
ceil_gib-wrapped :
    (n m : ℕ) → n < 2 ^ 63 → m < 2 ^ 63 → 2 ^ 63 ≤ n + m → ceil_gib (add64 (pos n) (pos m)) ≡ pos 0
unfolding ceil_gib quot add64 wrap to_word ◌+ℤ◌
ceil_gib-wrapped n m hn hm h = ground arith

ceil_gib_passes-pos :
    (n l : ℕ)
    → 0 < n
    → n < 2 ^ 63
    → (ltb_ℤ (pos l) (ceil_gib (pos n)) ≡ false) ↔ ((n ≤ l * 2 ^ 30) ⊎ (2 ^ 63 < n + 2 ^ 30))
ceil_gib_passes-pos n l h k = elim (Bool-cases (leb (n + 2 ^ 30) (2 ^ 63))) [
  | inl near ↦ rw (ceil_gib-near n h (ground arith)) (ground arith)
  | inr far ↦
      let little = ceil_gib-over n (ground arith) k in (λ _. inr (ground arith), λ _. ground arith)
]

-- The rounded sum is within a limit exactly if the bytes are, or it does not fit.
ceil_gib_passes :
    (n m l : ℕ)
    → n < 2 ^ 63
    → m < 2 ^ 63
    → 0 < m
    → (ltb_ℤ (pos l) (ceil_gib (add64 (pos n) (pos m))) ≡ false)
      ↔ ((n + m ≤ l * 2 ^ 30) ⊎ (2 ^ 63 < n + m + 2 ^ 30))
ceil_gib_passes n m l hn hm some_bytes = elim (Bool-cases (ltb (n + m) (2 ^ 63))) [
  | inr over ↦ rw (ceil_gib-wrapped n m hn hm (ground arith)) (ground arith)
  | inl fits ↦
      rw (add64-pos n m (ground arith))
        (ceil_gib_passes-pos (n + m) l (ground arith) (ground arith))
]

sum_passes :
    (u db lim : ℤ)
    → IsAmount u
    → IsInt64 db
    → pos 0 <ℤ db
    → pos 0 ≤ℤ lim
    → (ltb_ℤ lim (ceil_gib (add64 u db)) ≡ false)
      ↔ ((u +ℤ db ≤ℤ gib_bytes lim) ⊎ (pos (2 ^ 63) <ℤ u +ℤ db +ℤ pos (2 ^ 30)))
unfolding ◌+ℤ◌ ◌*ℤ◌
sum_passes (pos n) (pos m) (pos l) u i grows h = ground (arith, ceil_gib_passes n m l)
sum_passes (negsuc n) db lim u i grows h = absurd (omega arith)
sum_passes (pos n) (negsuc m) lim u i grows h = absurd (omega arith)
sum_passes (pos n) (pos m) (negsuc l) u i grows h = absurd (omega arith)

-- A storage that grows, and is listed.
listed_passes :
    (used limits : Map ℤ) (st : Text) (db lim : ℤ)
    → IsAmount (count used st)
    → IsInt64 db
    → leb_ℤ db (pos 0) ≡ false
    → lookup limits st ≡ some lim
    → pos 0 ≤ℤ lim
    → (check_storage used limits st db ≡ none) ↔ (
        (count used st +ℤ db ≤ℤ gib_bytes lim)
        ⊎ (pos (2 ^ 63) <ℤ count used st +ℤ db +ℤ pos (2 ^ 30)))
unfolding check_storage
listed_passes used limits st db lim u i grows e h =
    let fits = sum_passes (count used st) db lim u i (leb_ℤ-false db (pos 0) grows) h in
    rw (grows, e) (ground (arith, fits))

-- The limits of a record hold no negative number.
abbrev pub NonnegListed : Map ℤ → Type 0
NonnegListed limits = (st : Text) (lim : ℤ) → lookup limits st ≡ some lim → pos 0 ≤ℤ lim

check_storage_passes :
    (used limits : Map ℤ) (st : Text) (db : ℤ)
    → IsAmount (count used st)
    → IsInt64 db
    → NonnegListed limits
    → (check_storage used limits st db ≡ none) ↔ StoragePasses used limits (st, db)
unfolding check_storage
check_storage_passes used limits st db u i h = elim (Bool-cases (leb_ℤ db (pos 0))) [
  | inl shrinks ↦ rw shrinks (λ _. inl (inl (leb_ℤ-true db (pos 0) shrinks)), λ _. refl)
  | inr grows ↦ elim (Option-cases (lookup limits st)) [
    | inl unlisted ↦ rw (grows, unlisted) (ground (arith, leb_ℤ-false db (pos 0) grows))
    | inr (lim, e) ↦
        let passes = listed_passes used limits st db lim u i grows e (h st lim e) in
        (
          λ p. elim (passes.0 p) [
            | inl within ↦ inl (inr (lim, e, within))
            | inr over ↦ inr (lim, e, over)
          ],
          λ p. elim p [
            | inl (inl d) ↦ absurd (omega (arith, leb_ℤ-false db (pos 0) grows))
            | inl (inr (lim', e', within)) ↦
                let same : lim ≡ lim' = cc in passes.1 (inl (rw same within))
            | inr (lim', e', over) ↦ passes.1 (inr over)
          ],
        )
  ]
]

-- What is used, and what is asked for, on a storage.
abbrev pub StorageAmounts : Map ℤ → Text × ℤ → Type 0
StorageAmounts used (st, db) = IsAmount (count used st) × IsInt64 db

pub check_disks_passes :
    (used limits ds : Map ℤ)
    → NonnegListed limits
    → All (StorageAmounts used) ds
    → (check_disks used limits ds ≡ none) ↔ All (StoragePasses used limits) ds
unfolding check_disks
check_disks_passes used limits [] h r = (λ _. tt, λ _. refl)
check_disks_passes used limits ((st, db) ∷ ds) h ((u, i), rs) =
    let first = check_storage_passes used limits st db u i h in
    let others = check_disks_passes used limits ds h rs in
    elim (Option-cases (check_storage used limits st db)) [
      | inl passes ↦ rw passes (λ p. (first.0 passes, others.0 p), λ p. others.1 p.1)
      | inr (reason, e) ↦ rw e (λ p. cc, λ p. cc (first.1 p.0))
    ]
