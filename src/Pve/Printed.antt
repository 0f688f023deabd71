-- ===== src/Pve/Printed.antt =====
-- The text form of a config, as it stands in a backup, and how it is read back.
use proxmox_user_quota_proxy.Base.{
  ℕ, ◌≡◌, ◌≢◌, refl, ap, ◌∙◌, false, Option, none, some, List, [], ◌∷◌, ◌++◌, arith, Text, All,
  All-append, Lacks, is_empty, has_prefix, cut_prefix, cut-append, split, trim, trim_space,
  trim_left, trim_right, split-last, trim_right-kept, trim_right-append, is_space, eqb_iff, Map,
  IsMap, lookup, insert, lookup-insert,
}
use proxmox_user_quota_proxy.Pve.{conf_line, conf_lines, parts, parse_conf_text}
use proxmox_user_quota_proxy.Pve.Sections.{split-append, section_ignored}

-- A key has no white space and no colon, and starts neither a comment nor a section.
abbrev pub IsKey : Text → Type 0
IsKey [] = ⊥
IsKey (c ∷ k) =
    (c ≢ b'#')
    × (c ≢ b'[')
    × All (λ a. is_space a ≡ false) (c ∷ k)
    × Lacks b':' (c ∷ k)
    × Lacks b'\n' (c ∷ k)

-- A value is one line, not empty, with no white space at its ends.
pub record IsValue (v : Text) : Type 0 where
  pub one_line : Lacks b'\n' v
  pub given : is_empty v ≡ false
  pub left : trim_left is_space v ≡ v
  pub right : trim_right is_space v ≡ v

abbrev pub IsEntry : Text × Text → Type 0
IsEntry (k, v) = IsKey k × IsValue v

abbrev pub line_of : Text → Text → Text
line_of k v = k ++ b':' ∷ b' ' ∷ v

unfoldable pub print_conf : Map Text → Text
print_conf [] = []
print_conf ((k, v) ∷ m) = line_of k v ++ b'\n' ∷ print_conf m

trim-key : (c : ℕ) (k : Text) → All (λ a. is_space a ≡ false) (c ∷ k) → trim_space (c ∷ k) ≡ c ∷ k
unfolding trim_space trim trim_left
trim-key c k (hc, hk) = rw hc (trim_right-kept is_space (c ∷ k) (hc, hk))

trim-value : (v : Text) → IsValue v → trim_space (b' ' ∷ v) ≡ v
unfolding trim_space trim trim_left is_space
trim-value v h = rw h.left h.right

trim-line :
    (c : ℕ) (k v : Text)
    → is_space c ≡ false
    → IsValue v
    → trim_space (line_of (c ∷ k) v) ≡ line_of (c ∷ k) v
unfolding trim_space trim trim_left
trim-line c k v hc h = rw hc (
    trim_right-append is_space (c ∷ k) (b':' ∷ b' ' ∷ v) refl
      (trim_right-append is_space (b':' ∷ b' ' ∷ []) v h.given h.right))

other_start : (c b : ℕ) (s : Text) → c ≢ b → has_prefix (c ∷ s) (b ∷ []) ≡ false
unfolding has_prefix cut_prefix
other_start c b s h = ground arith

conf_line-line :
    (out : Map Text) (c : ℕ) (k v : Text)
    → IsEntry (c ∷ k, v)
    → conf_line out (line_of (c ∷ k) v) ≡ some (insert out (c ∷ k) v)
unfolding conf_line
conf_line-line out c k v ((no_comment, no_section, solid, no_colon, _), value) =
    let rest = k ++ b':' ∷ b' ' ∷ v in
    rw (
      other_start c b'#' rest no_comment,
      other_start c b'[' rest no_section,
      cut-append (c ∷ k) (b' ' ∷ v) b':' no_colon,
      trim-key c k solid,
      trim-value v value,
    )

split-line : (s : Text) → Lacks b'\n' s → parts (split s b'\n') ≡ s ∷ []
split-line s h = ap parts (split-last s b'\n' h)

line-Lacks : (k v : Text) → Lacks b'\n' k → Lacks b'\n' v → Lacks b'\n' (line_of k v)
line-Lacks k v hk hv = All-append _ k (b':' ∷ b' ' ∷ v) hk (ground arith, (ground arith, hv))

unfoldable insert_all : Map Text → Map Text → Map Text
insert_all out [] = out
insert_all out ((k, v) ∷ m) = insert_all (insert out k v) m

after_line :
    (out o : Map Text) (l : Text) (ls : List Text)
    → conf_line out (trim_space l) ≡ some o
    → conf_lines out (l ∷ ls) ≡ conf_lines o ls
unfolding conf_lines
after_line out o l ls h = rw (h, conf_lines)

no_line : (out : Map Text) → conf_lines out (parts (split [] b'\n')) ≡ out
unfolding conf_lines conf_line split trim_space trim trim_left trim_right
no_line out = refl

after_entry :
    (c : ℕ) (k v : Text) (text : Text) (out : Map Text)
    → IsEntry (c ∷ k, v)
    → conf_lines out (parts (split (line_of (c ∷ k) v ++ b'\n' ∷ text) b'\n'))
      ≡ conf_lines (insert out (c ∷ k) v) (parts (split text b'\n'))
after_entry c k v text out (key, value) =
    let l = line_of (c ∷ k) v in
    let one = split-line l (line-Lacks (c ∷ k) v key.4 value.one_line) in
    let trimmed = trim-line c k v key.2.0 value in
    ap (conf_lines out) (split-append l text b'\n' ∙ ap (λ ls. ls ++ parts (split text b'\n')) one)
    ∙ after_line out (insert out (c ∷ k) v) l (parts (split text b'\n'))
        (ap (conf_line out) trimmed ∙ conf_line-line out c k v (key, value))

-- the lines of a printed config, one after the other
read_lines :
    (m : Map Text) (out : Map Text)
    → All IsEntry m
    → conf_lines out (parts (split (print_conf m) b'\n')) ≡ insert_all out m
unfolding print_conf insert_all
read_lines [] out h = no_line out
read_lines (([], v) ∷ m) out (h, hs) = absurd (h.0)
read_lines ((c ∷ k, v) ∷ m) out (h, hs) =
    after_entry c k v (print_conf m) out h ∙ read_lines m (insert out (c ∷ k) v) hs

-- the first entry of a key, or the value of before
abbrev first_of : Option Text → Option Text → Option Text
first_of none o = o
first_of (some v) o = some v

lookup-insert_all :
    (out m : Map Text) (j : Text)
    → IsMap m
    → lookup (insert_all out m) j ≡ first_of (lookup m j) (lookup out j)
unfolding insert_all lookup
lookup-insert_all out [] j h = refl
lookup-insert_all out ((k, v) ∷ m) j (fresh, h) =
    ground (arith, lookup-insert_all (insert out k v) m j h, lookup-insert out k v j, eqb_iff k j)

first_of-none : (o : Option Text) → first_of o none ≡ o
first_of-none none = refl
first_of-none (some v) = refl

parsed : (m : Map Text) → All IsEntry m → parse_conf_text (print_conf m) ≡ insert_all [] m
unfolding parse_conf_text
parsed m entries = read_lines m [] entries

-- Of a config that is printed as in a backup, one line for each entry, with sections of snapshots behind
-- it: every key is read back with its value, and no other key. The keys have no white space and no colon
-- and are all different, none starts with `#` or `[`, and the values are single lines, not empty, with no
-- white space at their ends.
pub print_conf-read_back :
    (m : Map Text) (sections j : Text)
    → IsMap m
    → All IsEntry m
    → lookup (parse_conf_text (print_conf m ++ b'\n' ∷ b'[' ∷ sections)) j ≡ lookup m j
unfolding lookup
print_conf-read_back m sections j distinct entries =
    ap (λ (o : Map Text). lookup o j) (section_ignored (print_conf m) sections ∙ parsed m entries)
    ∙ lookup-insert_all [] m j distinct
    ∙ first_of-none (lookup m j)
