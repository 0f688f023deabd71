-- ===== src/Pve.antt =====
-- internal/pve/client.go: the text of a config in a backup, parseConfText.
pub mod Sections
pub mod Printed
pub mod Client
use proxmox_user_quota_proxy.Base.{
  ◌≡◌, Bool, true, false, ◌||◌, Option, none, some, List, [], ◌∷◌, if◌then◌else◌, Text, codes,
  is_empty, has_prefix, cut, split, trim_space, Map, insert,
}

-- the map after a trimmed line, or nothing where the loop breaks
unfoldable pub conf_line : Map Text → Text → Option (Map Text)
conf_line out line =
    if is_empty line || has_prefix line (codes "#")
    then some out
    else if has_prefix line (codes "[")
    then none
    else elim (cut line b':') [
      | none ↦ some out
      | some p ↦ some (insert out (trim_space p.0) (trim_space p.1))
    ]

-- the loop over the lines
unfoldable pub conf_lines : Map Text → List Text → Map Text
conf_lines out [] = out
conf_lines out (l ∷ ls) = elim (conf_line out (trim_space l)) [
  | none ↦ out
  | some o ↦ conf_lines o ls
]

abbrev pub parts : Text × List Text → List Text
parts p = p.0 ∷ p.1

-- parseConfText
unfoldable pub parse_conf_text : Text → Map Text
parse_conf_text text = conf_lines [] (parts (split text b'\n'))
