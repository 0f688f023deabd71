-- ===== src/Pve/Sections.antt =====
-- The sections behind a config are not read.
use proxmox_user_quota_proxy.Base.{
  ℕ, ◌≡◌, refl, ap, ◌∙◌, none, List, [], ◌∷◌, ◌++◌, ◌==◌, Bool-cases, Option-cases, inl, inr, Text,
  has_prefix, cut_prefix, split, trim, trim_space, trim_left, trim_right, is_space, ==_refl, Map,
}
use proxmox_user_quota_proxy.Pve.{conf_line, conf_lines, parts, parse_conf_text}

abbrev onto_first : ℕ → List Text → List Text
onto_first c [] = []
onto_first c (l ∷ ls) = (c ∷ l) ∷ ls

pub split-append :
    (a b : Text) (sep : ℕ)
    → parts (split (a ++ sep ∷ b) sep) ≡ parts (split a sep) ++ parts (split b sep)
unfolding split
split-append [] b sep = rw (==_refl sep)
split-append (c ∷ a) b sep = elim (Bool-cases (c == sep)) [
  | inl at_sep ↦ rw at_sep (ap (λ ls. [] ∷ ls) (split-append a b sep))
  | inr inside ↦ rw inside (ap (onto_first c) (split-append a b sep))
]

-- A line that starts a section ends the loop.
section_breaks : (out : Map Text) (line : Text) → conf_line out (trim_space (b'[' ∷ line)) ≡ none
unfolding conf_line trim_space trim trim_left trim_right is_space has_prefix cut_prefix
section_breaks out line = refl

lines_before :
    (out : Map Text) (ls : List Text) (line : Text) (after : List Text)
    → conf_lines out (ls ++ (b'[' ∷ line) ∷ after) ≡ conf_lines out ls
unfolding conf_lines
lines_before out [] line after = rw (section_breaks out line, conf_lines)
lines_before out (l ∷ ls) line after = elim (Option-cases (conf_line out (trim_space l))) [
  | inl stops ↦ rw (stops, conf_lines)
  | inr (o, e) ↦ rw (e, conf_lines) (lines_before o ls line after)
]

starts_section :
    (text rest : Text)
    → conf_lines [] (parts (split text b'\n') ++ parts (split (b'[' ∷ rest) b'\n'))
      ≡ conf_lines [] (parts (split text b'\n'))
unfolding split
starts_section text rest =
    lines_before [] (parts (split text b'\n')) (split rest b'\n').0 (split rest b'\n').1

-- Whatever a text is, and whatever stands behind a line that starts with `[`: the config is read from
-- what stands before that line.
pub section_ignored :
    (text rest : Text) → parse_conf_text (text ++ b'\n' ∷ b'[' ∷ rest) ≡ parse_conf_text text
unfolding parse_conf_text
section_ignored text rest =
    ap (conf_lines []) (split-append text (b'[' ∷ rest) b'\n') ∙ starts_section text rest
