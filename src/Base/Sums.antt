-- ===== src/Base/Sums.antt =====
-- Sums by key: what a list of amounts adds to each key, in any order.
use mathlib.Core.Path.{◌≡◌, refl, sym, ◌∙◌, subst, subst₂}
use mathlib.Core.Logic.{∥∥₁_elim}
use mathlib.Core.Option.{Option, none, some}
use mathlib.Core.List.{[], ◌∷◌, Perm, Permᴰ}
use native.Mathlib.Omega.{arith}
use native.Mathlib.Decide.{ℕ_discrete}
use mathlib.Core.HLevel.{hedberg}
use proxmox_user_quota_proxy.Base.Tests.{if◌then◌else◌}
use proxmox_user_quota_proxy.Base.Int.{
  ℤ, pos, IsInt64, add64, add64_comm, add64_assoc, add64-zero, add64-IsInt64,
}
use proxmox_user_quota_proxy.Base.Bytes.{Text, eqb, eqb_iff}
use proxmox_user_quota_proxy.Base.Dict.{
  Map, lookup, count, add_to, add_all, count-add_to, IsMap, insert-IsMap,
}

-- The sum of the amounts with a key.
unfoldable pub sum_on : Text → Map ℤ → ℤ
sum_on k [] = pos 0
sum_on k ((j, n) ∷ ds) = if eqb j k then add64 n (sum_on k ds) else sum_on k ds

pub ℤ-set : IsSet ℤ
ℤ-set = hedberg ℤ_discrete
  where
    ℤ_discrete : Discrete ℤ
    ℤ_discrete = hlevel ℕ_discrete

add_to-IsInt64 :
    (m : Map ℤ) (j : Text) (n : ℤ) (k : Text)
    → IsInt64 (count m k)
    → IsInt64 (count (add_to m j n) k)
add_to-IsInt64 m j n k h = ground (arith, count-add_to m j n k, add64-IsInt64 (count m j) n)

-- Adding a list to a map adds the sum to each key.
pub count-add_all_sum :
    (m ds : Map ℤ) (k : Text)
    → IsInt64 (count m k)
    → count (add_all m ds) k ≡ add64 (count m k) (sum_on k ds)
unfolding add_all sum_on
count-add_all_sum m [] k h = sym (add64_comm (count m k) (pos 0) ∙ add64-zero (count m k) h)
count-add_all_sum m ((j, n) ∷ ds) k h = ground (
  arith,
  count-add_all_sum (add_to m j n) ds k (add_to-IsInt64 m j n k h),
  count-add_to m j n k,
  eqb_iff j k,
  add64_assoc (count m k) n (sum_on k ds),
)

sum_on_swap :
    (k i j : Text) (m n : ℤ) (ds : Map ℤ)
    → sum_on k ((i, m) ∷ (j, n) ∷ ds) ≡ sum_on k ((j, n) ∷ (i, m) ∷ ds)
unfolding sum_on
sum_on_swap k i j m n ds =
    ground (arith, add64_assoc m n (sum_on k ds), add64_assoc n m (sum_on k ds), add64_comm m n)

cons-sum :
    (k : Text) (a : Text × ℤ) (ds es : Map ℤ)
    → sum_on k ds ≡ sum_on k es
    → sum_on k (a ∷ ds) ≡ sum_on k (a ∷ es)
unfolding sum_on
cons-sum k (j, n) ds es h = rw h

sum_on-permᴰ : (k : Text) {ds es : Map ℤ} → Permᴰ ds es → sum_on k ds ≡ sum_on k es
sum_on-permᴰ k Permᴰ.nil = refl
sum_on-permᴰ k (Permᴰ.cons {a} {b} {l₁} {l₂} e p) =
    subst (λ x. sum_on k (a ∷ l₁) ≡ sum_on k (x ∷ l₂)) e (cons-sum k a l₁ l₂ (sum_on-permᴰ k p))
sum_on-permᴰ k (Permᴰ.swap {a} {b} {l} e f) =
    subst₂ (λ x y. sum_on k (a ∷ b ∷ l) ≡ sum_on k (x ∷ y ∷ l)) f e
      (sum_on_swap k a.0 b.0 a.1 b.1 l)
sum_on-permᴰ k (Permᴰ.trans p q) = sum_on-permᴰ k p ∙ sum_on-permᴰ k q

-- The order of the amounts does not matter.
pub sum_on-perm : (k : Text) {ds es : Map ℤ} → Perm ds es → sum_on k ds ≡ sum_on k es
sum_on-perm k p = ∥∥₁_elim p (ℤ-set _ _) (sum_on-permᴰ k)

pub sum_on-IsInt64 : (k : Text) (ds : Map ℤ) → IsInt64 (sum_on k ds)
unfolding sum_on
sum_on-IsInt64 k [] = omega arith
sum_on-IsInt64 k ((j, n) ∷ ds) = ground (arith, sum_on-IsInt64 k ds, add64-IsInt64 n (sum_on k ds))

-- What a list adds to the empty map.
pub count-add_all_nil : (ds : Map ℤ) (k : Text) → count (add_all [] ds) k ≡ sum_on k ds
unfolding count lookup
count-add_all_nil ds k =
    count-add_all_sum [] ds k (unfold count lookup in omega arith)
    ∙ add64-zero (sum_on k ds) (sum_on-IsInt64 k ds)

-- What a map adds to a count.
abbrev pub added : ℤ → Option ℤ → ℤ
added n none = n
added n (some b) = add64 n b

pub count-add_all :
    (m ds : Map ℤ) (st : Text)
    → IsMap ds
    → count (add_all m ds) st ≡ added (count m st) (lookup ds st)
unfolding add_all lookup
count-add_all m [] st h = refl
count-add_all m ((k, b) ∷ ds) st (fresh, h) =
    rw (count-add_all (add_to m k b) ds st h, count-add_to m k b st) (ground (arith, eqb_iff k st))

pub add_all-IsMap : (m ds : Map ℤ) → IsMap m → IsMap (add_all m ds)
unfolding add_all add_to
add_all-IsMap m [] h = h
add_all-IsMap m ((k, n) ∷ ds) h = add_all-IsMap (add_to m k n) ds (insert-IsMap m k _ h)

-- Copying a map by adding keeps every count.
pub count-add_all_copy :
    (m : Map ℤ) (k : Text) → IsMap m → IsInt64 (count m k) → count (add_all [] m) k ≡ count m k
count-add_all_copy m k h i =
    count-add_all [] m k h ∙ (unfold count lookup in ground (arith, add64-zero (count m k) i))
