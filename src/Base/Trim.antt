-- ===== src/Base/Trim.antt =====
-- Texts that trimming and splitting leave as they are.
use Prim.Native.Nat.{ℕ}
use mathlib.Core.Path.{◌≡◌, refl}
use mathlib.Core.Bool.{Bool, false}
use mathlib.Core.List.{[], ◌∷◌, ◌++◌}
use native.Mathlib.Omega.{arith}
use proxmox_user_quota_proxy.Base.Lists.{All}
use proxmox_user_quota_proxy.Base.Bytes.{Text, Lacks, is_empty, split, trim_right}

pub is_empty-append : (s t : Text) → is_empty t ≡ false → is_empty (s ++ t) ≡ false
is_empty-append [] t h = h
is_empty-append (c ∷ s) t h = refl

-- A text that keeps its end keeps it behind any other.
pub trim_right-append :
    (f : ℕ → Bool) (s t : Text)
    → is_empty t ≡ false
    → trim_right f t ≡ t
    → trim_right f (s ++ t) ≡ s ++ t
unfolding trim_right
trim_right-append f [] t full whole = whole
trim_right-append f (c ∷ s) t full whole =
    rw (trim_right-append f s t full whole, is_empty-append s t full) (ground arith)

-- A text without a byte to trim stays.
pub trim_right-kept : (f : ℕ → Bool) (s : Text) → All (λ c. f c ≡ false) s → trim_right f s ≡ s
unfolding trim_right
trim_right-kept f [] h = refl
trim_right-kept f (c ∷ s) (hc, hs) = rw (trim_right-kept f s hs, hc)

-- A text without the separator is one part.
pub split-last : (s : Text) (sep : ℕ) → Lacks sep s → split s sep ≡ (s, [])
unfolding split
split-last [] sep h = refl
split-last (c ∷ s) sep (hc, hs) = rw (split-last s sep hs) (ground arith)
