-- ===== src/Writers.antt =====
-- internal/proxy/accesslog.go and internal/admission/admission.go: the two writers that stand between
-- the reverse proxy and the client and note the status, statusWriter and statusCapture.
pub mod Recorded
use proxmox_user_quota_proxy.Base.{
  ℕ, ◌≡◌, Bool, true, false, ◌==◌, List, [], ◌∷◌, ◌++◌, if◌then◌else◌, ℤ, pos, negsuc, add64, Text,
}

-- A call of the handler, with the number of bytes that the writer of net/http says it took. The last two
-- go through http.ResponseController, which finds the writer behind a statusCapture by Unwrap.
pub data Call : Type 0 where
  write_header : (code : ℤ) → Call
  write : Text → (taken : ℤ) → Call
  flush : Call
  hijack : Call

-- statusWriter, with the calls that it has passed on
pub record StatusWriter : Type 0 where
  pub status : ℤ
  pub bytes : ℤ
  pub passed_on : List Call

-- statusCapture, around a statusWriter
pub record StatusCapture : Type 0 where
  pub status : ℤ
  pub inner : StatusWriter

abbrev pub unset : ℤ → Bool
unset (pos n) = n == 0
unset (negsuc n) = false

abbrev pub if_unset : ℤ → ℤ → ℤ
if_unset n code = if unset n then code else n

-- WriteHeader, Write, Flush and Hijack of statusWriter
unfoldable pub log_call : StatusWriter → Call → StatusWriter
unfolding add64
log_call w (write_header code) = record w {
  status = if_unset w.status code;
  passed_on = w.passed_on ++ (write_header code ∷ []);
}
log_call w (write b taken) = record w {
  bytes = add64 w.bytes taken;
  passed_on = w.passed_on ++ (write b taken ∷ []);
}
log_call w flush = record w { passed_on = w.passed_on ++ (flush ∷ []) }
log_call w hijack = record w { passed_on = w.passed_on ++ (hijack ∷ []) }

-- WriteHeader, Write and Unwrap of statusCapture
unfoldable pub capture_call : StatusCapture → Call → StatusCapture
unfolding log_call
capture_call s (write_header code) = record {
  status = if_unset s.status code;
  inner = log_call s.inner (write_header code);
}
capture_call s (write b taken) = record {
  status = if_unset s.status (pos 200);
  inner = log_call s.inner (write b taken);
}
capture_call s flush = record s { inner = log_call s.inner flush }
capture_call s hijack = record s { inner = log_call s.inner hijack }

unfoldable pub capture_calls : StatusCapture → List Call → StatusCapture
unfolding capture_call
capture_calls s [] = s
capture_calls s (c ∷ cs) = capture_calls (capture_call s c) cs

abbrev pub fresh_writer : StatusWriter
fresh_writer = record { status = pos 0; bytes = pos 0; passed_on = [] }

-- an admitted write that the handler answers with these calls
abbrev pub answered : List Call → StatusCapture
answered cs = capture_calls (record { status = pos 0; inner = fresh_writer }) cs

-- the status that WithAccessLog logs
unfoldable pub logged_status : StatusWriter → ℤ
logged_status w = if_unset w.status (pos 200)

-- What WithAccessLog logs of a request but for its duration: the header Upgrade and the address of the
-- client come from the request.
pub record AccessEntry : Type 0 where
  pub method : Text
  pub path : Text
  pub status : ℤ
  pub bytes_out : ℤ
  pub remote : Text
  pub upgrade : Text

unfoldable pub log_calls : StatusWriter → List Call → StatusWriter
unfolding log_call
log_calls w [] = w
log_calls w (c ∷ cs) = log_calls (log_call w c) cs

-- WithAccessLog, of a request that the handler answers with these calls
unfoldable pub access_entry : Text → Text → Text → Text → List Call → AccessEntry
unfolding logged_status log_calls
access_entry method path remote upgrade cs =
    let w = log_calls fresh_writer cs in
    record {
      method = method;
      path = path;
      status = logged_status w;
      bytes_out = w.bytes;
      remote = remote;
      upgrade = upgrade;
    }
