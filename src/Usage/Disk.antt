-- ===== src/Usage/Disk.antt =====
-- internal/usage/usage.go: sizes, disk keys and disk values of a guest config.
use proxmox_user_quota_proxy.Base.{
  ℕ, ◌^◌, Bool, true, false, not, ◌&&◌, ◌||◌, Option, none, some, List, [], ◌∷◌, ◌==◌,
  if◌then◌else◌, ℤ, pos, mul64, Text, codes, eqb, is_empty, cut_prefix, cut, split, trim_space,
  is_digit, number, parse_int, Float64,
}

-- s[len(s)-1] and s[:len(s)-1]
unfoldable pub last_byte : Text → Option (ℕ × Text)
last_byte [] = none
last_byte (c ∷ []) = some (c, [])
last_byte (c ∷ d ∷ s) = elim (last_byte (d ∷ s)) [ none ↦ none | some p ↦ some (p.0, c ∷ p.1) ]

-- The multiplier of a suffix, as a power of two.
unfoldable pub suffix : ℕ → Option ℕ
suffix c =
    if c == b'k' || c == b'K'
    then some (2 ^ 10)
    else if c == b'm' || c == b'M'
    then some (2 ^ 20)
    else if c == b'g' || c == b'G'
    then some (2 ^ 30)
    else if c == b't' || c == b'T'
    then some (2 ^ 40)
    else if c == b'p' || c == b'P'
    then some (2 ^ 50)
    else none

module _ ⦃fl : Float64⦄ where
  -- the two attempts at the number, `ParseInt` and `ParseFloat`
  unfoldable pub parse_amount : Text → ℕ → Option ℤ
  parse_amount s mult = elim (parse_int s) [
    | number n ↦ some (mul64 n (pos mult))
    | _ ↦ elim (fl.parse_float s) [
      | none ↦ none
      | some f ↦ some (fl.to_int (fl.times f (fl.of_int (pos mult))))
    ]
  ]

  abbrev size_of : Text → Option (ℕ × Text) → Option ℤ
  size_of s none = none
  size_of s (some (c, t)) = elim (suffix c) [
    | some mult ↦ parse_amount t mult
    | none ↦ parse_amount s 1
  ]

  -- ParseSize
  unfoldable pub parse_size : Text → Option ℤ
  unfolding last_byte suffix parse_amount
  parse_size s = size_of (trim_space s) (last_byte (trim_space s))

abbrev pub disk_prefixes : List Text
disk_prefixes =
    codes "scsi" ∷ codes "virtio" ∷ codes "sata" ∷ codes "ide" ∷ codes "mp" ∷ codes "unused" ∷ []

abbrev pub all_digits_of : Text → Bool
all_digits_of [] = true
all_digits_of (c ∷ s) = is_digit c && all_digits_of s

-- allDigits
unfoldable pub all_digits : Text → Bool
unfolding is_digit
all_digits s = not (is_empty s) && all_digits_of s

abbrev pub prefixed : Text → Text → Bool
prefixed k p = elim (cut_prefix k p) [ none ↦ false | some rest ↦ all_digits rest ]

abbrev pub any_prefixed : Text → List Text → Bool
any_prefixed k [] = false
any_prefixed k (p ∷ ps) = prefixed k p || any_prefixed k ps

-- IsDiskKey
unfoldable pub is_disk_key : Text → Bool
unfolding eqb cut_prefix all_digits
is_disk_key k =
    eqb k (codes "rootfs")
    || eqb k (codes "efidisk0")
    || eqb k (codes "tpmstate0")
    || any_prefixed k disk_prefixes

-- The named results of ParseDisk.
pub record DiskSpec : Type 0 where
  pub storage : Text
  pub size : ℤ
  pub has_size : Bool
  pub cdrom : Bool
  pub volid : Text

abbrev pub no_disk : DiskSpec
no_disk = record { storage = []; size = pos 0; has_size = false; cdrom = false; volid = [] }

module _ ⦃fl : Float64⦄ where
  abbrev sized : DiskSpec → Option Text → DiskSpec
  sized d none = d
  sized d (some s) = elim (parse_size s) [
    | none ↦ d
    | some n ↦ record d { size = n; has_size = true }
  ]

  -- one option of the list
  abbrev disk_option : DiskSpec → Text → DiskSpec
  disk_option d f =
      let d' = (if eqb f (codes "media=cdrom") then record d { cdrom = true } else d) in
      sized d' (cut_prefix f (codes "size="))

  unfoldable pub disk_options : DiskSpec → List Text → DiskSpec
  disk_options d [] = d
  disk_options d (f ∷ fs) = disk_options (disk_option d (trim_space f)) fs

  abbrev named : Text → Option (Text × Text) → List Text → DiskSpec
  named first none fs = no_disk
  named first (some (st, _)) fs =
      if is_empty st
      then no_disk
      else disk_options (record no_disk { storage = st; volid = first }) fs

  -- ParseDisk
  unfoldable pub parse_disk : Text → DiskSpec
  unfolding split trim_space eqb cut disk_options parse_size cut_prefix
  parse_disk v =
      let first = trim_space (split v b',').0 in
      if is_empty first || eqb first (codes "none")
      then no_disk
      else named first (cut first b':') (split v b',').1
