-- ===== src/Audit/Restore.antt =====
-- What readAndRestore leaves in the request.
use proxmox_user_quota_proxy.Base.{
  ℕ, zero, suc, ◌≡◌, refl, ap, sym, ◌∙◌, arith, true, false, Bool-cases, inl, inr, Option, none,
  some, [], ◌∷◌, ◌++◌, length, ltb, pos, if◌then◌else◌, Text,
}
use proxmox_user_quota_proxy.Body.{Body, ended, failing, split_at, read_limited, chain}
use proxmox_user_quota_proxy.Audit.{Restored, max_body, read_and_restore, restore_reading}

-- The bytes of a body that is read whole: no error ends it, and it is within the limit.
unfoldable pub readable : Body → Option Text
readable (ended s) = if ltb max_body (length s) then none else some s
readable (failing s error after) = none

-- What the next handler reads: the same body, where the limit stops the reading or the body ends; and
-- behind an error that was met, what was read, followed by what the body gives from then on.
unfoldable pub passed_on : Body → Body
passed_on (ended s) = ended s
passed_on (failing s error after) =
    if ltb max_body (length s) then failing s error after else chain s after

abbrev pub left_with : Body → Option Text → Restored
left_with b none = record { buffered = none; body = b; content_length = none; get_body = none }
left_with b (some s) = record {
  buffered = some s;
  body = b;
  content_length = some (pos (length s));
  get_body = some b;
}

split-whole : (n : ℕ) (s : Text) → (split_at n s).0 ++ (split_at n s).1 ≡ s
unfolding split_at
split-whole zero s = refl
split-whole (suc n) [] = refl
split-whole (suc n) (c ∷ s) = ap (◌∷◌ c) (split-whole n s)

-- a text shorter than `n` has nothing behind its first `n` bytes
split-short : (n : ℕ) (s : Text) → ltb (length s) n ≡ true → split_at n s ≡ (s, [])
unfolding split_at
split-short zero s h = ground arith
split-short (suc n) [] h = refl
split-short (suc n) (c ∷ s) h = rw (split-short n s (ground arith))

length-split : (n : ℕ) (s : Text) → ltb (length s) n ≡ false → length (split_at n s).0 ≡ n
unfolding split_at
length-split zero s h = refl
length-split (suc n) [] h = ground arith
length-split (suc n) (c ∷ s) h = ap suc (length-split n s (ground arith))

restore-ended :
    (s : Text)
    → restore_reading (read_limited (suc max_body) (ended s))
      ≡ left_with (ended s) (readable (ended s))
unfolding read_limited readable
restore-ended s = elim (Bool-cases (ltb max_body (length s))) [
  | inl over ↦
      let long : ltb (length s) (suc max_body) ≡ false = ground arith in
      rw (length-split (suc max_body) s long, over, split-whole (suc max_body) s)
  | inr within ↦
      let short : ltb (length s) (suc max_body) ≡ true = ground arith in
      rw (split-short (suc max_body) s short, within)
]

read_limited-short :
    (n : ℕ) (s error : Text) (after : Body)
    → ltb (length s) n ≡ true
    → read_limited n (failing s error after)
      ≡ record { buf = s; failure = some error; left = after }
unfolding read_limited
read_limited-short n s error after short = rw (short, split-short n s short)

read_limited-long :
    (n : ℕ) (s error : Text) (after : Body)
    → ltb (length s) n ≡ false
    → read_limited n (failing s error after) ≡ record {
      buf = (split_at n s).0;
      failure = none;
      left = failing (split_at n s).1 error after;
    }
unfolding read_limited
read_limited-long n s error after long = rw long

-- a reading that the limit stopped before the error
stopped-put_back :
    (front back s error : Text) (after : Body)
    → front ++ back ≡ s
    → ltb max_body (length front) ≡ true
    → restore_reading (record { buf = front; failure = none; left = failing back error after })
      ≡ left_with (failing s error after) none
stopped-put_back front back s error after whole over =
    rw over (ap (λ t. left_with (failing t error after) none) whole)

restore-failing :
    (s error : Text) (after : Body)
    → restore_reading (read_limited (suc max_body) (failing s error after))
      ≡ left_with (passed_on (failing s error after)) none
unfolding passed_on
restore-failing s error after = elim (Bool-cases (ltb max_body (length s))) [
  | inl over ↦
      let long : ltb (length s) (suc max_body) ≡ false = ground arith in
      let there = length-split (suc max_body) s long in
      ap restore_reading (read_limited-long (suc max_body) s error after long)
      ∙ stopped-put_back (split_at (suc max_body) s).0 (split_at (suc max_body) s).1 s error after
          (split-whole (suc max_body) s) (ap (ltb max_body) there)
      ∙ ap (λ b. left_with b none) (sym (stays over))
  | inr within ↦
      let short : ltb (length s) (suc max_body) ≡ true = ground arith in
      ap restore_reading (read_limited-short (suc max_body) s error after short)
      ∙ ap (λ b. left_with b none) (sym (follows within))
]
  where
    stays :
        ltb max_body (length s) ≡ true → passed_on (failing s error after) ≡ failing s error after
    stays over = rw over

    follows : ltb max_body (length s) ≡ false → passed_on (failing s error after) ≡ chain s after
    follows within = rw within

-- readAndRestore leaves the body as it came where the body ends without an error or has more than
-- 256 KiB before its error; where it meets an error, it leaves the bytes that were read, followed by
-- whatever the body gives when it is read again. Exactly of a body that ends without an error within
-- 256 KiB it returns the bytes, and sets ContentLength to their number and GetBody to a reader of them.
pub read_and_restore_lem : (b : Body) → read_and_restore b ≡ left_with (passed_on b) (readable b)
unfolding read_and_restore readable passed_on
read_and_restore_lem (ended s) = restore-ended s
read_and_restore_lem (failing s error after) = restore-failing s error after
