-- ===== src/Base/Float.antt =====
-- `float64` of the Go language, as the program uses it: reading a decimal text, and converting to
-- and from integers, comparing, and printing. Nothing is assumed of rounding.
use mathlib.Core.Bool.{Bool}
use mathlib.Core.Option.{Option}
use proxmox_user_quota_proxy.Base.Int.{ℤ}
use proxmox_user_quota_proxy.Base.Bytes.{Text}

pub record Float64 : Type 1 where
  pub Value : Type 0
  pub parse_float : Text → Option Value  -- strconv.ParseFloat(s, 64), without a range error
  pub of_int : ℤ → Value  -- float64(n)
  pub times : Value → Value → Value  -- f * g
  pub to_int : Value → ℤ  -- int64(f)
  pub equal : Value → Value → Bool  -- f == g
  pub format : Value → Text  -- strconv.FormatFloat(f, 'f', -1, 64)
