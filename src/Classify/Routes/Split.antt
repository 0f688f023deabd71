-- ===== src/Classify/Routes/Split.antt =====
-- The segments of a path that is joined from segments.
use proxmox_user_quota_proxy.Base.{
  ◌≡◌, refl, ◌∙◌, ap, arith, false, List, [], ◌∷◌, ◌++◌, Text, All, Lacks, is_empty, split, trim,
  trim_left, trim_right, split-last, is_empty-append, trim_right-append,
}
use proxmox_user_quota_proxy.Classify.{is_slash, all_parts, split_segs}
use proxmox_user_quota_proxy.Classify.Routes.{join}

split-append :
    (s t : Text) → Lacks b'/' s → split (s ++ b'/' ∷ t) b'/' ≡ (s, all_parts (split t b'/'))
unfolding split
split-append [] t h = refl
split-append (c ∷ s) t (hc, hs) = rw (split-append s t hs) (ground arith)

split-join :
    (x : Text) (ys : List Text)
    → Lacks b'/' x
    → All (Lacks b'/') ys
    → split (join x ys) b'/' ≡ (x, ys)
unfolding join
split-join x [] hx _ = split-last x b'/' hx
split-join x (y ∷ ys) hx (hy, hys) =
    split-append x (join y ys) hx ∙ ap (λ p. (x, all_parts p)) (split-join y ys hy hys)

trim_right-last : (s : Text) → Lacks b'/' s → trim_right is_slash s ≡ s
unfolding trim_right
trim_right-last [] h = refl
trim_right-last (c ∷ s) (hc, hs) = rw (trim_right-last s hs) (ground arith)

trim_right-slash :
    (t : Text)
    → trim_right is_slash t ≡ t
    → is_empty t ≡ false
    → trim_right is_slash (b'/' ∷ t) ≡ b'/' ∷ t
unfolding trim_right
trim_right-slash t whole full = rw (whole, full)

abbrev pub last_part : Text → List Text → Text
last_part x [] = x
last_part x (y ∷ ys) = last_part y ys

trim_right-join :
    (x : Text) (ys : List Text)
    → Lacks b'/' x
    → All (Lacks b'/') ys
    → is_empty (last_part x ys) ≡ false
    → (trim_right is_slash (join x ys) ≡ join x ys) × (is_empty (join x ys) ≡ false)
unfolding join
trim_right-join x [] hx _ full = (trim_right-last x hx, full)
trim_right-join x (y ∷ ys) hx (hy, hys) full =
    let (whole, some_text) = trim_right-join y ys hy hys full in
    (
      trim_right-append is_slash x (b'/' ∷ join y ys) refl
          (trim_right-slash (join y ys) whole some_text),
      is_empty-append x (b'/' ∷ join y ys) refl,
    )

trim_left-join :
    (x : Text) (ys : List Text)
    → Lacks b'/' x
    → is_empty x ≡ false
    → trim_left is_slash (join x ys) ≡ join x ys
unfolding trim_left join
trim_left-join [] ys hx full = absurd (cc)
trim_left-join (c ∷ x) [] (hc, hx) full = ground arith
trim_left-join (c ∷ x) (y ∷ ys) (hc, hx) full = ground arith

-- the segments of a path with no slash but those between them
pub split_segs-join :
    (x : Text) (ys : List Text)
    → Lacks b'/' x
    → All (Lacks b'/') ys
    → is_empty x ≡ false
    → is_empty (last_part x ys) ≡ false
    → split_segs (join x ys) ≡ x ∷ ys
unfolding split_segs trim
split_segs-join x ys hx hys first last =
    let (whole, some_text) = trim_right-join x ys hx hys last in
    rw (trim_left-join x ys hx first, whole, some_text, split-join x ys hx hys)
