-- ===== src/Admission/Check/Exact.antt =====
-- The test against the limits, compared with what it stands for: sums of integers without bounds,
-- and limits in bytes.
use proxmox_user_quota_proxy.Base.{
  if◌then◌else◌, ℕ, ◌-◌, ◌/◌, ◌+◌, ◌^◌, ◌<◌, ◌≡◌, refl, ◌↔◌, ◌⊎◌, inl, inr, Bool, false, Option,
  none, some, [], ◌∷◌, arith, Bool-cases, Option-cases, All, ℤ, pos, negsuc, ◌+ℤ◌, ◌*ℤ◌, ◌≤ℤ◌, ◌<ℤ◌,
  ltb_ℤ, leb_ℤ, leb_ℤ-true, leb_ℤ-false, IsInt64, add64, add64_exact, add64-pos, sub64-pos, quot,
  int_laws, Text, Map, lookup, count,
}
use proxmox_user_quota_proxy.Usage.Guest.{Usage}
use proxmox_user_quota_proxy.Quota.Config.{UserQuota}
use proxmox_user_quota_proxy.Admission.Delta.{Delta}
use proxmox_user_quota_proxy.Admission.Check.{
  Limits, cores_over, memory_over, instances_over, ceil_gib, check_storage, check_disks,
  check_limits, check_quota, exceeds, effective_limits,
}

-- The number of bytes in a limit of GiB.
abbrev pub gib_bytes : ℤ → ℤ
gib_bytes lim = lim *ℤ pos (2 ^ 30)

-- A dimension grows by nothing, or stays at the limit or below.
abbrev pub FitsIn : (used d limit : ℤ) → Type 0
FitsIn used d limit = (d ≤ℤ pos 0) ⊎ (used +ℤ d ≤ℤ limit)

-- A storage grows by nothing, or is listed and stays within its limit.
abbrev pub StorageFits : Map ℤ → Map ℤ → Text × ℤ → Type 0
StorageFits used limits (st, db) =
    (db ≤ℤ pos 0)
    ⊎ ((lim : ℤ) × (lookup limits st ≡ some lim) × (count used st +ℤ db ≤ℤ gib_bytes lim))

-- No sum that the test computes leaves 64 bits, and no storage is used negatively.
abbrev pub StorageInRange : Map ℤ → Text × ℤ → Type 0
StorageInRange used (st, db) =
    (pos 0 ≤ℤ count used st) × IsInt64 db × (count used st +ℤ db +ℤ pos (2 ^ 30) <ℤ pos (2 ^ 63))

pub record Fits (used : Usage) (d : Delta) (l : Limits) : Type 0 where
  pub cores : FitsIn used.cores d.cores l.cores
  pub memory : FitsIn used.memory_mib d.memory_mib l.memory_mib
  pub instances : FitsIn used.instances d.instances l.instances
  pub disks : All (StorageFits used.disk_bytes l.disk_gib) d.disk_bytes

pub record InRange (used : Usage) (d : Delta) : Type 0 where
  pub cores : IsInt64 (used.cores +ℤ d.cores)
  pub memory : IsInt64 (used.memory_mib +ℤ d.memory_mib)
  pub instances : IsInt64 (used.instances +ℤ d.instances)
  pub disks : All (StorageInRange used.disk_bytes) d.disk_bytes

exceeds_exact :
    (used d limit : ℤ) → IsInt64 (used +ℤ d) → (exceeds used d limit ≡ false) ↔ FitsIn used d limit
exceeds_exact used d limit h = rw (add64_exact used d h) (ground arith)

ceil_gib-pos :
    (n : ℕ) → 0 < n → n + 2 ^ 30 < 2 ^ 63 → ceil_gib (pos n) ≡ pos ((n + 2 ^ 30 - 1) / 2 ^ 30)
unfolding ceil_gib quot
ceil_gib-pos n h k = ground (
  arith,
  add64-pos n (2 ^ 30) (omega arith),
  sub64-pos (n + 2 ^ 30) 1 (omega arith) (omega arith),
)

-- The rounded size is within a limit exactly if the bytes are.
ceil_gib-le :
    (b lim : ℤ)
    → pos 0 <ℤ b
    → b +ℤ pos (2 ^ 30) <ℤ pos (2 ^ 63)
    → (ltb_ℤ lim (ceil_gib b) ≡ false) ↔ (b ≤ℤ gib_bytes lim)
unfolding ◌+ℤ◌ ◌*ℤ◌
ceil_gib-le (pos n) (pos lim) h k = rw (ceil_gib-pos n (omega arith) (ground arith)) (ground arith)
ceil_gib-le (pos n) (negsuc lim) h k =
    rw (ceil_gib-pos n (omega arith) (ground arith)) (ground arith)
ceil_gib-le (negsuc n) lim h k = absurd (omega arith)

-- A storage that grows, and is listed.
pub listed_exact :
    (used limits : Map ℤ) (st : Text) (db lim : ℤ)
    → StorageInRange used (st, db)
    → leb_ℤ db (pos 0) ≡ false
    → lookup limits st ≡ some lim
    → (check_storage used limits st db ≡ none) ↔ (count used st +ℤ db ≤ℤ gib_bytes lim)
unfolding check_storage
listed_exact used limits st db lim (h, k, r) grows e =
    let x = count used st +ℤ db in
    let exact : add64 (count used st) db ≡ x = add64_exact (count used st) db (omega int_laws) in
    let fits = ceil_gib-le x lim (omega (int_laws, leb_ℤ-false db (pos 0) grows)) r in
    rw (grows, e, exact) (ground (arith, fits))

check_storage_exact :
    (used limits : Map ℤ) (st : Text) (db : ℤ)
    → StorageInRange used (st, db)
    → (check_storage used limits st db ≡ none) ↔ StorageFits used limits (st, db)
unfolding check_storage
check_storage_exact used limits st db r = elim (Bool-cases (leb_ℤ db (pos 0))) [
  | inl shrinks ↦ rw shrinks (ground (arith, leb_ℤ-true db (pos 0) shrinks))
  | inr grows ↦ elim (Option-cases (lookup limits st)) [
    | inl unlisted ↦ rw (grows, unlisted) (ground (arith, leb_ℤ-false db (pos 0) grows))
    | inr (lim, e) ↦
        let fits = listed_exact used limits st db lim r grows e in
        (
          λ p. inr (lim, e, fits.0 p),
          λ p. elim p [
            | inl d ↦ absurd (omega (arith, leb_ℤ-false db (pos 0) grows))
            | inr (lim', e', within) ↦ let same : lim ≡ lim' = cc in fits.1 (rw same within)
          ],
        )
  ]
]

check_disks_exact :
    (used limits ds : Map ℤ)
    → All (StorageInRange used) ds
    → (check_disks used limits ds ≡ none) ↔ All (StorageFits used limits) ds
unfolding check_disks
check_disks_exact used limits [] r = (λ _. tt, λ _. refl)
check_disks_exact used limits ((st, db) ∷ ds) (r, rs) =
    let first = check_storage_exact used limits st db r in
    let others = check_disks_exact used limits ds rs in
    elim (Option-cases (check_storage used limits st db)) [
      | inl passes ↦ rw passes (λ p. (first.0 passes, others.0 p), λ p. others.1 p.1)
      | inr (reason, e) ↦ rw e (λ p. cc, λ p. cc (first.1 p.0))
    ]

-- Three tests and a result: nothing is found exactly if no test finds anything.
pub ladder {ℓ} :
    {A : Type ℓ} (a b c : Bool) (x y z : A) (o : Option A)
    → ((if a then some x else if b then some y else if c then some z else o) ≡ none)
      ↔ ((a ≡ false) × (b ≡ false) × (c ≡ false) × (o ≡ none))
ladder a b c x y z o = ground arith

check_limits_exact :
    (used : Usage) (d : Delta) (l : Limits)
    → InRange used d
    → (check_limits used d l ≡ none) ↔ Fits used d l
unfolding check_limits
check_limits_exact used d l r =
    let c = exceeds_exact used.cores d.cores l.cores r.cores in
    let m = exceeds_exact used.memory_mib d.memory_mib l.memory_mib r.memory in
    let i = exceeds_exact used.instances d.instances l.instances r.instances in
    let b = check_disks_exact used.disk_bytes l.disk_gib d.disk_bytes r.disks in
    let steps =
      ladder _ _ _ (cores_over used.cores d.cores l.cores)
        (memory_over used.memory_mib d.memory_mib l.memory_mib)
        (instances_over used.instances d.instances l.instances) _ in
    (
      λ p.
          let (pc, pm, pi, pb) = steps.0 p in
          record { cores = c.0 pc; memory = m.0 pm; instances = i.0 pi; disks = b.0 pb },
      λ f. steps.1 (c.1 f.cores, m.1 f.memory, i.1 f.instances, b.1 f.disks),
    )

-- Where no sum overflows and no storage is used negatively, an increase is admitted exactly if, in
-- every dimension and on every storage, it is nothing or stays within the limits of the user on the
-- node.
pub check_quota_exact :
    (used : Usage) (d : Delta) (q : UserQuota) (node : Text)
    → InRange used d
    → (check_quota used d q node ≡ none) ↔ Fits used d (effective_limits q node)
unfolding check_quota
check_quota_exact used d q node r = check_limits_exact used d (effective_limits q node) r
