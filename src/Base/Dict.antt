-- ===== src/Base/Dict.antt =====
-- Go's maps with string keys, as association lists. The order of the list is the order in which
-- `range` visits the entries, which Go leaves open.
use mathlib.Core.Path.{◌≡◌, refl, subst₂}
use mathlib.Core.Logic.{inl, inr}
use mathlib.Core.Option.{Option, none, some}
use mathlib.Core.List.{List, [], ◌∷◌}
use native.Mathlib.Omega.{arith}
use proxmox_user_quota_proxy.Base.Tests.{Bool-cases, if◌then◌else◌}
use proxmox_user_quota_proxy.Base.Lists.{All}
use proxmox_user_quota_proxy.Base.Int.{ℤ, pos, add64}
use proxmox_user_quota_proxy.Base.Bytes.{Text, eqb, eqb_iff, or_else}

abbrev pub Map {ℓ} : Type ℓ → Type ℓ
Map V = List (Text × V)

module _ {ℓ} {V : Type ℓ} where
  -- v, ok := m[k]
  unfoldable pub lookup : Map V → Text → Option V
  lookup [] k = none
  lookup ((j, v) ∷ m) k = if eqb j k then some v else lookup m k

  -- m[k] = v
  unfoldable pub insert : Map V → Text → V → Map V
  insert [] k v = (k, v) ∷ []
  insert ((j, w) ∷ m) k v = if eqb j k then (k, v) ∷ m else (j, w) ∷ insert m k v

  pub lookup-insert :
      (m : Map V) (k : Text) (v : V) (j : Text)
      → lookup (insert m k v) j ≡ (if eqb k j then some v else lookup m j)
  unfolding lookup insert
  lookup-insert [] k v j = refl
  lookup-insert ((i, w) ∷ m) k v j =
      ground (arith, eqb_iff k j, eqb_iff i k, eqb_iff i j, lookup-insert m k v j)

  -- Each key stands once.
  abbrev pub IsMap : Map V → Type ℓ
  IsMap [] = Unit
  IsMap ((k, v) ∷ m) = (lookup m k ≡ none) × IsMap m

  pub insert-IsMap : (m : Map V) (k : Text) (v : V) → IsMap m → IsMap (insert m k v)
  unfolding insert lookup
  insert-IsMap [] k v h = (refl, tt)
  insert-IsMap ((j, w) ∷ m) k v (fresh, h) =
      ground (arith, eqb_iff j k, eqb_iff k j, lookup-insert m k v j, insert-IsMap m k v h)

-- m[k], the empty string on a missing key
unfoldable pub get : Map Text → Text → Text
get m k = or_else (lookup m k) []

-- m[k], zero on a missing key
unfoldable pub count : Map ℤ → Text → ℤ
count m k = or_else (lookup m k) (pos 0)

-- m[k] += n
unfoldable pub add_to : Map ℤ → Text → ℤ → Map ℤ
unfolding count
add_to m k n = insert m k (add64 (count m k) n)

-- m[k] += n for every entry of a list
unfoldable pub add_all : Map ℤ → Map ℤ → Map ℤ
add_all m [] = m
add_all m ((k, n) ∷ ds) = add_all (add_to m k n) ds

pub count-add_to :
    (m : Map ℤ) (k : Text) (n : ℤ) (j : Text)
    → count (add_to m k n) j ≡ (if eqb k j then add64 (count m k) n else count m j)
unfolding count add_to
count-add_to m k n j = ground (arith, lookup-insert m k (add64 (or_else (lookup m k) (pos 0)) n) j)

-- A predicate on all entries holds of the entry that a lookup finds.
pub All-lookup {ℓ κ} :
    {V : Type ℓ} (P : Text × V → Type κ) (m : Map V) (k : Text) (v : V)
    → All P m
    → lookup m k ≡ some v
    → P (k, v)
unfolding lookup
All-lookup P [] k v h e = cc
All-lookup P ((j, w) ∷ m) k v (h, hs) e = elim (Bool-cases (eqb j k)) [
  | inl same ↦
      let jk : j ≡ k = (eqb_iff j k).0 same in
      let wv : w ≡ v = ground arith in subst₂ (λ x y. P (x, y)) jk wv h
  | inr other ↦ All-lookup P m k v hs (ground arith)
]
