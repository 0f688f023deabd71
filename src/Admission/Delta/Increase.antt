-- ===== src/Admission/Delta/Increase.antt =====
-- The increase to a snapshot's config: with it, the usage is the larger of the two.
use proxmox_user_quota_proxy.Base.{
  ◌≡◌, refl, Option, none, some, [], ◌∷◌, arith, if◌then◌else◌, Bool-cases, Option-cases, inl, inr,
  ℤ, pos, IsInt64, add64, sub64, add64-sub64, add64_comm, add64-zero, ltb_ℤ, Text, eqb_iff, Map,
  IsMap, lookup, insert, lookup-insert, count, added,
}
use proxmox_user_quota_proxy.Usage.Guest.{Usage}
use proxmox_user_quota_proxy.Admission.Delta.{excess, disk_increase, increase_delta}

abbrev pub max_ℤ : ℤ → ℤ → ℤ
max_ℤ a b = if ltb_ℤ a b then b else a

excess_reaches :
    (target current : ℤ)
    → IsInt64 target
    → IsInt64 current
    → add64 current (excess target current) ≡ max_ℤ current target
excess_reaches target current ht hc =
    ground (arith, add64-sub64 current target ht, add64_comm current (pos 0), add64-zero current hc)

-- The difference to a target where it is larger.
abbrev gap : ℤ → Option ℤ → Option ℤ → Option ℤ
gap current none o = o
gap current (some target) o = if ltb_ℤ current target then some (sub64 target current) else o

lookup-disk_increase :
    (out target cur : Map ℤ) (st : Text)
    → IsMap target
    → lookup (disk_increase out target cur) st
      ≡ gap (count cur st) (lookup target st) (lookup out st)
unfolding disk_increase lookup
lookup-disk_increase out [] cur st h = refl
lookup-disk_increase out ((k, tb) ∷ target) cur st (fresh, h) =
    elim (Bool-cases (ltb_ℤ (count cur k) tb)) [
      | inl larger ↦ ground (
        arith,
        lookup-disk_increase (insert out k (sub64 tb (count cur k))) target cur st h,
        lookup-insert out k (sub64 tb (count cur k)) st,
        eqb_iff k st,
        larger,
      )
      | inr smaller ↦
          ground (arith, lookup-disk_increase out target cur st h, eqb_iff k st, smaller)
    ]

-- The bytes of a target, or the current ones where it has none.
abbrev pub raised : ℤ → Option ℤ → ℤ
raised current none = current
raised current (some target) = max_ℤ current target

disk_reaches :
    (target cur : Map ℤ) (st : Text)
    → IsMap target
    → IsInt64 (count cur st)
    → ((tb : ℤ) → lookup target st ≡ some tb → IsInt64 tb)
    → added (count cur st) (lookup (disk_increase [] target cur) st)
      ≡ raised (count cur st) (lookup target st)
disk_reaches target cur st m hc ht = elim (Option-cases (lookup target st)) [
  | inl missing ↦ rw (lookup-disk_increase [] target cur st m, missing) (unfold lookup in refl)
  | inr (tb, found) ↦
      rw (lookup-disk_increase [] target cur st m, found)
        (unfold lookup in ground (arith, add64-sub64 (count cur st) tb (ht tb found)))
]

-- Where the amounts are integers of 64 bits and no storage stands twice in the target: with the
-- increase, cores and memory are the larger of the current and the target's, and so are the bytes
-- of every storage that the target has; no other storage and no guest is added.
pub increase_reaches_larger :
    (target current : Usage) (st : Text)
    → IsInt64 target.cores
    → IsInt64 target.memory_mib
    → IsInt64 current.cores
    → IsInt64 current.memory_mib
    → IsMap target.disk_bytes
    → IsInt64 (count current.disk_bytes st)
    → ((tb : ℤ) → lookup target.disk_bytes st ≡ some tb → IsInt64 tb)
    → (add64 current.cores (increase_delta target current).cores ≡ max_ℤ current.cores target.cores)
      × (add64 current.memory_mib (increase_delta target current).memory_mib
          ≡ max_ℤ current.memory_mib target.memory_mib)
      × ((increase_delta target current).instances ≡ pos 0)
      × (added (count current.disk_bytes st) (lookup (increase_delta target current).disk_bytes st)
          ≡ raised (count current.disk_bytes st) (lookup target.disk_bytes st))
unfolding increase_delta
increase_reaches_larger target current st tc tm ec cm m hc ht = (
  excess_reaches target.cores current.cores tc ec,
  excess_reaches target.memory_mib current.memory_mib tm cm,
  refl,
  disk_reaches target.disk_bytes current.disk_bytes st m hc ht,
)
