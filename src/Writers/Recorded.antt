-- ===== src/Writers/Recorded.antt =====
-- What the writers note of an answer.
use proxmox_user_quota_proxy.Base.{
  Text, ◌≡◌, refl, sym, ap, ◌∙◌, false, List, [], ◌∷◌, ◌++◌, All, arith, ℤ, pos, negsuc, add64, inl,
  inr, Bool-cases,
}
use mathlib.Core.List.{append_assoc, append-nil}
use proxmox_user_quota_proxy.Writers.{
  StatusWriter, fresh_writer, Call, write_header, write, flush, hijack, StatusCapture, unset,
  if_unset, capture_calls, answered, logged_status, log_calls, access_entry,
}

-- the status of the first call, where a body without a header has 200
unfoldable pub first_status : List Call → ℤ
first_status [] = pos 0
first_status (write_header code ∷ cs) = code
first_status (write b taken ∷ cs) = pos 200
first_status (flush ∷ cs) = first_status cs
first_status (hijack ∷ cs) = first_status cs

-- the first header, whatever stands before it
unfoldable pub first_header : List Call → ℤ
first_header [] = pos 0
first_header (write_header code ∷ cs) = code
first_header (write b taken ∷ cs) = first_header cs
first_header (flush ∷ cs) = first_header cs
first_header (hijack ∷ cs) = first_header cs

-- the sum of 64 bits of the bytes taken
unfoldable pub taken_after : ℤ → List Call → ℤ
taken_after n [] = n
taken_after n (write_header code ∷ cs) = taken_after n cs
taken_after n (write b taken ∷ cs) = taken_after (add64 n taken) cs
taken_after n (flush ∷ cs) = taken_after n cs
taken_after n (hijack ∷ cs) = taken_after n cs

abbrev pub HasCode : Call → Type 0
HasCode (write_header code) = unset code ≡ false
HasCode _ = Unit

if_unset-zero : (n : ℤ) → if_unset n (pos 0) ≡ n
if_unset-zero (pos n) = ground arith
if_unset-zero (negsuc n) = refl

if_unset_twice :
    (n code m : ℤ) → unset code ≡ false → if_unset (if_unset n code) m ≡ if_unset n code
if_unset_twice n code m h = elim (Bool-cases (unset n)) [
  | inl fresh ↦ rw (fresh, h) refl
  | inr taken ↦ rw (taken, taken) refl
]

append-snoc : (xs ys : List Call) (c : Call) → (xs ++ (c ∷ [])) ++ ys ≡ xs ++ (c ∷ ys)
append-snoc xs ys c = append_assoc xs (c ∷ []) ys

capture_calls-passed_on :
    (cs : List Call) (s : StatusCapture)
    → (capture_calls s cs).inner.passed_on ≡ s.inner.passed_on ++ cs
unfolding capture_calls
capture_calls-passed_on [] s = sym (append-nil s.inner.passed_on)
capture_calls-passed_on (write_header code ∷ cs) s =
    capture_calls-passed_on cs _ ∙ append-snoc s.inner.passed_on cs (write_header code)
capture_calls-passed_on (write b taken ∷ cs) s =
    capture_calls-passed_on cs _ ∙ append-snoc s.inner.passed_on cs (write b taken)
capture_calls-passed_on (flush ∷ cs) s =
    capture_calls-passed_on cs _ ∙ append-snoc s.inner.passed_on cs flush
capture_calls-passed_on (hijack ∷ cs) s =
    capture_calls-passed_on cs _ ∙ append-snoc s.inner.passed_on cs hijack

capture_calls-bytes :
    (cs : List Call) (s : StatusCapture)
    → (capture_calls s cs).inner.bytes ≡ taken_after s.inner.bytes cs
unfolding capture_calls taken_after
capture_calls-bytes [] s = refl
capture_calls-bytes (write_header code ∷ cs) s = capture_calls-bytes cs _
capture_calls-bytes (write b taken ∷ cs) s = capture_calls-bytes cs _
capture_calls-bytes (flush ∷ cs) s = capture_calls-bytes cs _
capture_calls-bytes (hijack ∷ cs) s = capture_calls-bytes cs _

capture_calls-status :
    (cs : List Call) (s : StatusCapture)
    → All HasCode cs
    → (capture_calls s cs).status ≡ if_unset s.status (first_status cs)
unfolding capture_calls first_status
capture_calls-status [] s h = sym (if_unset-zero s.status)
capture_calls-status (write_header code ∷ cs) s (h, hs) =
    capture_calls-status cs _ hs ∙ if_unset_twice s.status code (first_status cs) h
capture_calls-status (write b taken ∷ cs) s (h, hs) =
    capture_calls-status cs _ hs ∙ if_unset_twice s.status (pos 200) (first_status cs) refl
capture_calls-status (flush ∷ cs) s (h, hs) = capture_calls-status cs _ hs
capture_calls-status (hijack ∷ cs) s (h, hs) = capture_calls-status cs _ hs

capture_calls-logged :
    (cs : List Call) (s : StatusCapture)
    → All HasCode cs
    → (capture_calls s cs).inner.status ≡ if_unset s.inner.status (first_header cs)
unfolding capture_calls first_header
capture_calls-logged [] s h = sym (if_unset-zero s.inner.status)
capture_calls-logged (write_header code ∷ cs) s (h, hs) =
    capture_calls-logged cs _ hs ∙ if_unset_twice s.inner.status code (first_header cs) h
capture_calls-logged (write b taken ∷ cs) s (h, hs) = capture_calls-logged cs _ hs
capture_calls-logged (flush ∷ cs) s (h, hs) = capture_calls-logged cs _ hs
capture_calls-logged (hijack ∷ cs) s (h, hs) = capture_calls-logged cs _ hs

-- statusCapture passes each call on to statusWriter.
capture_calls-inner :
    (cs : List Call) (s : StatusCapture) → (capture_calls s cs).inner ≡ log_calls s.inner cs
unfolding capture_calls log_calls
capture_calls-inner [] s = refl
capture_calls-inner (write_header code ∷ cs) s = capture_calls-inner cs _
capture_calls-inner (write b taken ∷ cs) s = capture_calls-inner cs _
capture_calls-inner (flush ∷ cs) s = capture_calls-inner cs _
capture_calls-inner (hijack ∷ cs) s = capture_calls-inner cs _

-- What the writers note of an answer, where no call has the code 0.
pub record Noted (cs : List Call) (s : StatusCapture) : Type 0 where
  pub entry :
      (method path remote upgrade : Text)
      → access_entry method path remote upgrade cs ≡ record {
        method = method;
        path = path;
        status = if_unset (first_header cs) (pos 200);
        bytes_out = taken_after (pos 0) cs;
        remote = remote;
        upgrade = upgrade;
      }
  pub all : s.inner.passed_on ≡ cs
  pub captured : s.status ≡ first_status cs

-- Of every answer to an admitted write without a code 0: the client gets all calls of the handler in
-- order, the log counts the bytes that were taken, the wait goes by the code of the first call, which
-- is 200 for a body, and the log has the first code of a header, or 200 if there is none.
pub answered-Noted : (cs : List Call) → All HasCode cs → Noted cs (answered cs)
unfolding logged_status access_entry
answered-Noted cs h =
    let inner = capture_calls-inner cs (record { status = pos 0; inner = fresh_writer }) in
    let status : (log_calls fresh_writer cs).status ≡ first_header cs =
      ap (λ (w : StatusWriter). w.status) (sym inner) ∙ capture_calls-logged cs _ h in
    let bytes : (log_calls fresh_writer cs).bytes ≡ taken_after (pos 0) cs =
      ap (λ (w : StatusWriter). w.bytes) (sym inner) ∙ capture_calls-bytes cs _ in
    record {
      entry = λ method path remote upgrade. rw (status, bytes) refl;
      all = capture_calls-passed_on cs _;
      captured = capture_calls-status cs _ h;
    }
