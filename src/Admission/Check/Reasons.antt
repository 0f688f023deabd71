-- ===== src/Admission/Check/Reasons.antt =====
-- The reasons of the test, compared with the limits in integers without bounds.
use proxmox_user_quota_proxy.Base.{
  ◌≡◌, refl, subst, ◌∙◌, ◌↔◌, ◌⊎◌, inl, inr, Bool, true, false, Option, none, some, [], ◌∷◌, arith,
  Bool-cases, Option-cases, All, ℤ, pos, ◌+ℤ◌, ◌≤ℤ◌, ◌<ℤ◌, ltb_ℤ, leb_ℤ, leb_ℤ-true, leb_ℤ-false,
  IsInt64, add64, add64_exact, Text, Map, lookup, count,
}
use proxmox_user_quota_proxy.Usage.Guest.{Usage}
use proxmox_user_quota_proxy.Admission.Delta.{Delta}
use proxmox_user_quota_proxy.Admission.Check.{
  Limits, Reason, cores_over, memory_over, instances_over, storage_unlisted, disk_over, ceil_gib,
  check_storage, check_disks, check_limits, exceeds,
}
use proxmox_user_quota_proxy.Admission.Check.Exact.{
  gib_bytes, InRange, StorageInRange, listed_exact,
}

-- A dimension grows, and beyond the limit.
abbrev pub Beyond : (used d limit : ℤ) → Type 0
Beyond used d limit = (pos 0 <ℤ d) × (limit <ℤ used +ℤ d)

-- A storage grows that is not listed, or by bytes that lead beyond its limit.
abbrev pub StorageBeyond : Map ℤ → Map ℤ → Text × ℤ → Reason → Type 0
StorageBeyond used limits (st, db) (storage_unlisted s) =
    (s ≡ st) × (pos 0 <ℤ db) × (lookup limits st ≡ none)
StorageBeyond used limits (st, db) (disk_over s combined lim) =
    (s ≡ st)
    × (pos 0 <ℤ db)
    × (lookup limits st ≡ some lim)
    × (gib_bytes lim <ℤ count used st +ℤ db)
StorageBeyond used limits (st, db) _ = ⊥

abbrev pub SomeBeyond : Map ℤ → Map ℤ → Map ℤ → Reason → Type 0
SomeBeyond used limits [] reason = ⊥
SomeBeyond used limits (e ∷ ds) reason =
    StorageBeyond used limits e reason ⊎ SomeBeyond used limits ds reason

-- The limit that the reason names is exceeded, by the values that the reason has.
unfoldable pub Exceeded : Usage → Delta → Limits → Reason → Type 0
Exceeded u d l (cores_over used asked limit) =
    (used ≡ u.cores) × (asked ≡ d.cores) × (limit ≡ l.cores) × Beyond u.cores d.cores l.cores
Exceeded u d l (memory_over used asked limit) =
    (used ≡ u.memory_mib)
    × (asked ≡ d.memory_mib)
    × (limit ≡ l.memory_mib)
    × Beyond u.memory_mib d.memory_mib l.memory_mib
Exceeded u d l (instances_over used asked limit) =
    (used ≡ u.instances)
    × (asked ≡ d.instances)
    × (limit ≡ l.instances)
    × Beyond u.instances d.instances l.instances
Exceeded u d l reason = SomeBeyond u.disk_bytes l.disk_gib d.disk_bytes reason

exceeds-Beyond :
    (used d limit : ℤ) → IsInt64 (used +ℤ d) → exceeds used d limit ≡ true → Beyond used d limit
exceeds-Beyond used d limit h over =
    let over' : exceeds used d limit ≡ true = over in
    let exact = add64_exact used d h in (ground arith, ground (arith, exact))

-- what does not pass leads beyond
unfit_beyond :
    (x y : ℤ) (o : Option Reason) (r : Reason) → (o ≡ none) ↔ (x ≤ℤ y) → o ≡ some r → y <ℤ x
unfit_beyond x y o r exact over = elim (Bool-cases (leb_ℤ x y)) [
  | inl within ↦ let passes : o ≡ none = exact.1 (leb_ℤ-true x y within) in absurd (cc)
  | inr beyond ↦ leb_ℤ-false x y beyond
]

listed_beyond :
    (used limits : Map ℤ) (st : Text) (db lim : ℤ) (r : Reason)
    → StorageInRange used (st, db)
    → leb_ℤ db (pos 0) ≡ false
    → lookup limits st ≡ some lim
    → check_storage used limits st db ≡ some r
    → StorageBeyond used limits (st, db) r
listed_beyond used limits st db lim r range grows e over =
    let combined = ceil_gib (add64 (count used st) db) in
    let fits = listed_exact used limits st db lim range grows e in
    let beyond =
      unfit_beyond (count used st +ℤ db) (gib_bytes lim) (check_storage used limits st db) r fits
        over in
    elim (Bool-cases (ltb_ℤ lim combined)) [
      | inl large ↦
          let found : check_storage used limits st db ≡ some (disk_over st combined lim) =
            unfold check_storage in rw (grows, e, large) refl in
          let same : disk_over st combined lim ≡ r = cc in
          subst (StorageBeyond used limits (st, db)) same
            (refl, leb_ℤ-false db (pos 0) grows, e, beyond)
      | inr small ↦
          let passes : check_storage used limits st db ≡ none =
            unfold check_storage in rw (grows, e, small) refl in
          absurd (cc)
    ]

check_storage-Beyond :
    (used limits : Map ℤ) (st : Text) (db : ℤ) (r : Reason)
    → StorageInRange used (st, db)
    → check_storage used limits st db ≡ some r
    → StorageBeyond used limits (st, db) r
check_storage-Beyond used limits st db r range over = elim (Bool-cases (leb_ℤ db (pos 0))) [
  | inl shrinks ↦
      let passes : check_storage used limits st db ≡ none =
        unfold check_storage in rw shrinks refl in
      absurd (cc)
  | inr grows ↦ elim (Option-cases (lookup limits st)) [
    | inl unlisted ↦
        let found : check_storage used limits st db ≡ some (storage_unlisted st) =
          unfold check_storage in rw (grows, unlisted) refl in
        let same : storage_unlisted st ≡ r = cc in
        subst (StorageBeyond used limits (st, db)) same
          (refl, leb_ℤ-false db (pos 0) grows, unlisted)
    | inr (lim, e) ↦ listed_beyond used limits st db lim r range grows e over
  ]
]

check_disks-Beyond :
    (used limits ds : Map ℤ) (r : Reason)
    → All (StorageInRange used) ds
    → check_disks used limits ds ≡ some r
    → SomeBeyond used limits ds r
unfolding check_disks
check_disks-Beyond used limits [] r h over = cc
check_disks-Beyond used limits ((st, db) ∷ ds) r (h, hs) over =
    elim (Option-cases (check_storage used limits st db)) [
      | inl passes ↦ inr (check_disks-Beyond used limits ds r hs (rw passes at over))
      | inr (reason, e) ↦
          let same : check_storage used limits st db ≡ some r = e ∙ (rw e at over) in
          inl (check_storage-Beyond used limits st db r h same)
    ]

abbrev about_storage : Reason → Bool
about_storage (storage_unlisted st) = true
about_storage (disk_over st combined lim) = true
about_storage _ = false

StorageBeyond-about :
    (used limits : Map ℤ) (e : Text × ℤ) (r : Reason)
    → StorageBeyond used limits e r
    → about_storage r ≡ true
StorageBeyond-about used limits e (storage_unlisted st) h = refl
StorageBeyond-about used limits e (disk_over st combined lim) h = refl
StorageBeyond-about used limits e (cores_over x y z) h = absurd h
StorageBeyond-about used limits e (memory_over x y z) h = absurd h
StorageBeyond-about used limits e (instances_over x y z) h = absurd h

SomeBeyond-about :
    (used limits ds : Map ℤ) (r : Reason) → SomeBeyond used limits ds r → about_storage r ≡ true
SomeBeyond-about used limits [] r h = absurd h
SomeBeyond-about used limits (e ∷ ds) r (inl h) = StorageBeyond-about used limits e r h
SomeBeyond-about used limits (e ∷ ds) r (inr h) = SomeBeyond-about used limits ds r h

-- a reason that the loop over the storages gives
disks-Exceeded :
    (u : Usage) (d : Delta) (l : Limits) (r : Reason)
    → about_storage r ≡ true
    → SomeBeyond u.disk_bytes l.disk_gib d.disk_bytes r
    → Exceeded u d l r
unfolding Exceeded
disks-Exceeded u d l (storage_unlisted st) about h = h
disks-Exceeded u d l (disk_over st combined lim) about h = h
disks-Exceeded u d l _ about h = cc

-- The reason of a denial names a limit that the usage and the increase, added without bounds, exceed.
pub check_limits-Exceeded :
    (u : Usage) (d : Delta) (l : Limits) (r : Reason)
    → InRange u d
    → check_limits u d l ≡ some r
    → Exceeded u d l r
unfolding check_limits
check_limits-Exceeded u d l r range over = elim (Bool-cases (exceeds u.cores d.cores l.cores)) [
  | inl c ↦
      let same : cores_over u.cores d.cores l.cores ≡ r = some_injective (rw c at over) in
      subst (Exceeded u d l) same
        (unfold Exceeded in (refl, refl, refl, exceeds-Beyond _ _ _ range.cores c))
  | inr c ↦ elim (Bool-cases (exceeds u.memory_mib d.memory_mib l.memory_mib)) [
    | inl m ↦
        let same : memory_over u.memory_mib d.memory_mib l.memory_mib ≡ r =
          some_injective (rw (c, m) at over) in
        subst (Exceeded u d l) same
          (unfold Exceeded in (refl, refl, refl, exceeds-Beyond _ _ _ range.memory m))
    | inr m ↦ elim (Bool-cases (exceeds u.instances d.instances l.instances)) [
      | inl n ↦
          let same : instances_over u.instances d.instances l.instances ≡ r =
            some_injective (rw (c, m, n) at over) in
          subst (Exceeded u d l) same
            (unfold Exceeded in (refl, refl, refl, exceeds-Beyond _ _ _ range.instances n))
      | inr n ↦
          let h =
            check_disks-Beyond u.disk_bytes l.disk_gib d.disk_bytes r range.disks
              (rw (c, m, n) at over) in
          disks-Exceeded u d l r (SomeBeyond-about u.disk_bytes l.disk_gib d.disk_bytes r h) h
    ]
  ]
]
  where
    some_injective : {x y : Reason} → some x ≡ some y → x ≡ y
    some_injective h = ground arith
