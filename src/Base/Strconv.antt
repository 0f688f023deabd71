-- ===== src/Base/Strconv.antt =====
-- The package strconv, as the program uses it: `ParseInt` in base 10 (and `Atoi`) and `FormatInt`.
use Prim.Native.Nat.{ℕ, zero, suc, ◌+◌, ◌-◌, ◌*◌, ◌/◌, ◌%◌, ◌^◌}
use mathlib.Core.Path.{◌≡◌, refl}
use mathlib.Core.Bool.{Bool, true, false, ◌||◌, not}
use mathlib.Core.List.{[], ◌∷◌}
use native.Mathlib.Omega.{arith}
use proxmox_user_quota_proxy.Base.Tests.{◌==◌, ltb, leb, if◌then◌else◌}
use proxmox_user_quota_proxy.Base.Int.{ℤ, pos, negsuc, sub_ℕ, IsInt64}
use proxmox_user_quota_proxy.Base.Bytes.{Text, codes, is_digit}

-- A result and the error that comes with it: a text that spells no number, or one out of range, for
-- which `ParseInt` returns the nearest bound.
pub data Parsed {ℓ} (A : Type ℓ) : Type ℓ where
  number : A → Parsed A
  syntax : Parsed A
  range : A → Parsed A

abbrev max_u64 : ℕ
max_u64 = 2 ^ 64 - 1

-- the loop of `ParseUint`
unfoldable pub scan : Text → ℕ → Parsed ℕ
unfolding is_digit
scan [] n = number n
scan (c ∷ s) n =
    let next = n * 10 + (c - b'0') in
    let rest = scan s next in
    if not (is_digit c)
    then syntax
    else if leb (max_u64 / 10 + 1) n || ltb max_u64 next
    then range max_u64
    else rest

unfoldable pub parse_uint : Text → Parsed ℕ
unfolding scan
parse_uint [] = syntax
parse_uint (c ∷ s) = scan (c ∷ s) 0

-- The signed result from the magnitude.
abbrev signed : Bool → Parsed ℕ → Parsed ℤ
signed neg syntax = syntax
signed true (number n) = if ltb (2 ^ 63) n then range (sub_ℕ 0 (2 ^ 63)) else number (sub_ℕ 0 n)
signed true (range n) = range (sub_ℕ 0 (2 ^ 63))
signed false (number n) = if leb (2 ^ 63) n then range (pos (2 ^ 63 - 1)) else number (pos n)
signed false (range n) = range (pos (2 ^ 63 - 1))

-- strconv.ParseInt(s, 10, 64), and strconv.Atoi(s)
unfoldable pub parse_int : Text → Parsed ℤ
unfolding parse_uint
parse_int [] = syntax
parse_int (c ∷ s) =
    if c == b'-'
    then signed true (parse_uint s)
    else if c == b'+'
    then signed false (parse_uint s)
    else signed false (parse_uint (c ∷ s))

-- An accepted number fits an `int64`.
pub parse_int-IsInt64 : (s : Text) (n : ℤ) → parse_int s ≡ number n → IsInt64 n
unfolding parse_int
parse_int-IsInt64 [] n h = cc
parse_int-IsInt64 (c ∷ s) n h = ground arith

-- The decimal digits of a number before a text; twenty digits hold every number of 64 bits.
unfoldable pub emit : ℕ → ℕ → Text → Text
emit zero n out = out
emit (suc fuel) n out =
    let rest = emit fuel (n / 10) ((b'0' + n % 10) ∷ out) in if n == 0 then out else rest

unfoldable pub format_uint : ℕ → Text
unfolding emit
format_uint n = if n == 0 then b'0' ∷ [] else emit 20 n []

-- strconv.FormatInt(n, 10)
unfoldable pub format_int : ℤ → Text
unfolding format_uint
format_int (pos n) = format_uint n
format_int (negsuc n) = b'-' ∷ format_uint (suc n)

parse_int_tests :
    (parse_int (codes "-12") ≡ number (negsuc 11))
    × (parse_int (codes "+7") ≡ number (pos 7))
    × (parse_int (codes "9223372036854775808") ≡ range (pos 9223372036854775807))
    × (parse_int (codes "-") ≡ syntax)
    × (parse_int (codes "1x") ≡ syntax)
unfolding parse_int
parse_int_tests = (refl, refl, refl, refl, refl)
