-- ===== src/Base/Int.antt =====
-- Signed integers over the native numbers, and Go's `int` and `int64` (both of 64 bits): every sum,
-- difference, product and shift is wrapped into 64 bits.
use Prim.Native.Nat.{ℕ, suc, ◌+◌, ◌-◌, ◌*◌, ◌/◌, ◌%◌, ◌^◌, ◌≤◌, ◌<◌}
use mathlib.Core.Path.{◌≡◌, ap, ◌∙◌}
use mathlib.Core.Logic.{◌↔◌, ◌⊎◌}
use mathlib.Core.Bool.{Bool, true, false}
use native.Mathlib.Omega.{arith}
use proxmox_user_quota_proxy.Base.Tests.{ltb, leb, if◌then◌else◌}

-- `negsuc n` is -(n + 1).
pub data ℤ : Type 0 where
  pos : ℕ → ℤ
  negsuc : ℕ → ℤ

abbrev pub pos_part : ℤ → ℕ
pos_part (pos n) = n
pos_part (negsuc n) = 0

abbrev pub neg_part : ℤ → ℕ
neg_part (pos n) = 0
neg_part (negsuc n) = suc n

-- a - b, as an integer.
abbrev pub sub_ℕ : ℕ → ℕ → ℤ
sub_ℕ a b = if leb b a then pos (a - b) else negsuc (b - a - 1)

infixl 65 ◌+ℤ◌ ◌-ℤ◌
infixl 70 ◌*ℤ◌
infix 50 ◌≤ℤ◌ ◌<ℤ◌
unfoldable pub ◌+ℤ◌ : ℤ → ℤ → ℤ
a +ℤ b = sub_ℕ (pos_part a + pos_part b) (neg_part a + neg_part b)

unfoldable pub ◌-ℤ◌ : ℤ → ℤ → ℤ
a -ℤ b = sub_ℕ (pos_part a + neg_part b) (neg_part a + pos_part b)

unfoldable pub ◌*ℤ◌ : ℤ → ℤ → ℤ
a *ℤ b =
    sub_ℕ (pos_part a * pos_part b + neg_part a * neg_part b)
      (pos_part a * neg_part b + neg_part a * pos_part b)

abbrev pub ◌≤ℤ◌ : ℤ → ℤ → Type 0
a ≤ℤ b = pos_part a + neg_part b ≤ pos_part b + neg_part a

abbrev pub ◌<ℤ◌ : ℤ → ℤ → Type 0
a <ℤ b = pos_part a + neg_part b < pos_part b + neg_part a

abbrev pub ltb_ℤ : ℤ → ℤ → Bool
ltb_ℤ a b = ltb (pos_part a + neg_part b) (pos_part b + neg_part a)

abbrev pub leb_ℤ : ℤ → ℤ → Bool
leb_ℤ a b = leb (pos_part a + neg_part b) (pos_part b + neg_part a)

pub ltb_ℤ-iff : (a b : ℤ) → (ltb_ℤ a b ≡ true) ↔ (a <ℤ b)
ltb_ℤ-iff a b = ground arith

-- One lemma for each operation lets `omega` work with the operations shut.
pub +ℤ_parts :
    (a b : ℤ)
    → pos_part (a +ℤ b) + neg_part a + neg_part b ≡ neg_part (a +ℤ b) + pos_part a + pos_part b
unfolding ◌+ℤ◌
+ℤ_parts a b = ground arith

pub -ℤ_parts :
    (a b : ℤ)
    → pos_part (a -ℤ b) + neg_part a + pos_part b ≡ neg_part (a -ℤ b) + pos_part a + neg_part b
unfolding ◌-ℤ◌
-ℤ_parts a b = ground arith

pub eq_of_parts : (a b : ℤ) → pos_part a + neg_part b ≡ pos_part b + neg_part a → a ≡ b
eq_of_parts a b h = ground arith

-- One of the two parts of an integer is zero.
pub pos_or_neg : (a : ℤ) → (pos_part a ≡ 0) ⊎ (neg_part a ≡ 0)
pos_or_neg a = ground arith

pub ruleset int_laws = (arith, +ℤ_parts, -ℤ_parts, eq_of_parts, pos_or_neg)

-- The integer that a pattern of 64 bits stands for.
abbrev pub of_word : ℕ → ℤ
of_word m = if ltb m (2 ^ 63) then pos m else negsuc (2 ^ 64 - 1 - m)

-- The low 64 bits of an integer, as a natural number.
unfoldable pub to_word : ℤ → ℕ
to_word (pos n) = n % 2 ^ 64
to_word (negsuc n) = 2 ^ 64 - 1 - n % 2 ^ 64

unfoldable pub wrap : ℤ → ℤ
unfolding to_word
wrap a = of_word (to_word a)

-- The integers that an `int64` holds.
abbrev pub IsInt64 : ℤ → Type 0
IsInt64 a = (pos_part a < 2 ^ 63) × (neg_part a ≤ 2 ^ 63)

pub wrap-IsInt64 : (a : ℤ) → IsInt64 (wrap a)
unfolding wrap
wrap-IsInt64 (pos n) = ground arith
wrap-IsInt64 (negsuc n) = ground arith

pub wrap_id : (a : ℤ) → IsInt64 a → wrap a ≡ a
unfolding wrap
wrap_id (pos n) h = ground arith
wrap_id (negsuc n) h = ground arith

unfoldable pub add64 : ℤ → ℤ → ℤ
unfolding wrap ◌+ℤ◌
add64 a b = wrap (a +ℤ b)

unfoldable pub sub64 : ℤ → ℤ → ℤ
unfolding wrap ◌-ℤ◌
sub64 a b = wrap (a -ℤ b)

unfoldable pub mul64 : ℤ → ℤ → ℤ
unfolding wrap ◌*ℤ◌
mul64 a b = wrap (a *ℤ b)

-- Go's `/` by a positive constant: it truncates towards zero.
unfoldable pub quot : ℤ → ℕ → ℤ
quot (pos n) d = pos (n / d)
quot (negsuc n) d = sub_ℕ 0 (suc n / d)

pub add64_exact : (a b : ℤ) → IsInt64 (a +ℤ b) → add64 a b ≡ a +ℤ b
unfolding add64
add64_exact a b h = unfold add64 in wrap_id (a +ℤ b) h

pub sub64_exact : (a b : ℤ) → IsInt64 (a -ℤ b) → sub64 a b ≡ a -ℤ b
unfolding sub64
sub64_exact a b h = wrap_id (a -ℤ b) h

pub mul64_exact : (a b : ℤ) → IsInt64 (a *ℤ b) → mul64 a b ≡ a *ℤ b
unfolding mul64
mul64_exact a b h = wrap_id (a *ℤ b) h

pub to_word-lt : (a : ℤ) → to_word a < 2 ^ 64
unfolding to_word
to_word-lt (pos n) = omega arith
to_word-lt (negsuc n) = omega arith

pub to_word-of_word : (m : ℕ) → m < 2 ^ 64 → to_word (of_word m) ≡ m
unfolding to_word
to_word-of_word m h = ground arith

to_word-+ℤ : (a b : ℤ) → to_word (a +ℤ b) ≡ (to_word a + to_word b) % 2 ^ 64
unfolding to_word ◌+ℤ◌
to_word-+ℤ (pos a) (pos b) = ground arith
to_word-+ℤ (pos a) (negsuc b) = ground arith
to_word-+ℤ (negsuc a) (pos b) = ground arith
to_word-+ℤ (negsuc a) (negsuc b) = ground arith

to_word--ℤ : (a b : ℤ) → to_word (a -ℤ b) ≡ (to_word a + 2 ^ 64 - to_word b) % 2 ^ 64
unfolding to_word ◌-ℤ◌
to_word--ℤ (pos a) (pos b) = ground arith
to_word--ℤ (pos a) (negsuc b) = ground arith
to_word--ℤ (negsuc a) (pos b) = ground arith
to_word--ℤ (negsuc a) (negsuc b) = ground arith

add64-word : (a b : ℤ) → add64 a b ≡ of_word ((to_word a + to_word b) % 2 ^ 64)
add64-word a b = unfold add64 in rw (to_word-+ℤ a b)

pub add64-IsInt64 : (a b : ℤ) → IsInt64 (add64 a b)
unfolding add64
add64-IsInt64 a b = wrap-IsInt64 (a +ℤ b)

to_word-add64 : (a b : ℤ) → to_word (add64 a b) ≡ (to_word a + to_word b) % 2 ^ 64
to_word-add64 a b = rw (add64-word a b) (to_word-of_word _ (omega arith))

-- Two numbers of 64 bits are equal if their words are.
pub of_word-to_word : (a : ℤ) → IsInt64 a → of_word (to_word a) ≡ a
unfolding to_word
of_word-to_word (pos n) h = ground arith
of_word-to_word (negsuc n) h = ground arith

pub add64_comm : (a b : ℤ) → add64 a b ≡ add64 b a
add64_comm a b = rw (add64-word a b, add64-word b a) (ap (λ m. of_word (m % 2 ^ 64)) (omega arith))

-- Sums of 64 bits may be regrouped, whether or not they wrap around.
pub add64_assoc : (a b c : ℤ) → add64 (add64 a b) c ≡ add64 a (add64 b c)
add64_assoc a b c =
    rw (add64-word (add64 a b) c, add64-word a (add64 b c), to_word-add64 a b, to_word-add64 b c)
      (ap of_word (omega arith))

pub add64-zero : (a : ℤ) → IsInt64 a → add64 (pos 0) a ≡ a
add64-zero a h =
    add64_exact (pos 0) a (unfold ◌+ℤ◌ in ground arith) ∙ eq_of_parts _ _ (omega int_laws)

pub mul_parts :
    (a : ℤ) (n : ℕ)
    → pos_part (a *ℤ pos n) + neg_part a * n ≡ neg_part (a *ℤ pos n) + pos_part a * n
unfolding ◌*ℤ◌
mul_parts (pos a) n = ground arith
mul_parts (negsuc a) n = ground arith

pub add64-pos : (a b : ℕ) → a + b < 2 ^ 63 → add64 (pos a) (pos b) ≡ pos (a + b)
add64-pos a b h = add64_exact (pos a) (pos b) (omega int_laws) ∙ eq_of_parts _ _ (omega int_laws)

pub sub64-pos : (a b : ℕ) → b ≤ a → a < 2 ^ 63 → sub64 (pos a) (pos b) ≡ pos (a - b)
sub64-pos a b h k = sub64_exact (pos a) (pos b) (omega int_laws) ∙ eq_of_parts _ _ (omega int_laws)

pub leb_ℤ-true : (a b : ℤ) → leb_ℤ a b ≡ true → a ≤ℤ b
leb_ℤ-true a b h = ground arith

pub leb_ℤ-false : (a b : ℤ) → leb_ℤ a b ≡ false → b <ℤ a
leb_ℤ-false a b h = ground arith

pub ltb_ℤ-true : (a b : ℤ) → ltb_ℤ a b ≡ true → a <ℤ b
ltb_ℤ-true a b h = ground arith

pub ltb_ℤ-false : (a b : ℤ) → ltb_ℤ a b ≡ false → b ≤ℤ a
ltb_ℤ-false a b h = ground arith

to_word-sub64 : (a b : ℤ) → to_word (sub64 a b) ≡ (to_word a + 2 ^ 64 - to_word b) % 2 ^ 64
to_word-sub64 a b = unfold sub64 in rw (to_word-of_word _ (to_word-lt (a -ℤ b))) (to_word--ℤ a b)

-- A difference added back, wrapped around or not.
pub add64-sub64 : (a b : ℤ) → IsInt64 b → add64 a (sub64 b a) ≡ b
add64-sub64 a b h =
    rw (add64-word a (sub64 b a), to_word-sub64 b a)
      (ap of_word (omega (arith, to_word-lt a, to_word-lt b)) ∙ of_word-to_word b h)

pub mul64-IsInt64 : (a b : ℤ) → IsInt64 (mul64 a b)
unfolding mul64
mul64-IsInt64 a b = wrap-IsInt64 (a *ℤ b)

pub sub64-IsInt64 : (a b : ℤ) → IsInt64 (sub64 a b)
unfolding sub64
sub64-IsInt64 a b = wrap-IsInt64 (a -ℤ b)
