-- ===== src/Body.antt =====
-- The body of a request as the packages net/http and io present it to internal/audit/audit.go: the
-- readers that readAndRestore puts together, io.LimitReader, io.ReadAll and io.MultiReader.
use proxmox_user_quota_proxy.Base.{
  ℕ, zero, suc, Option, none, some, [], ◌∷◌, ◌++◌, ltb, length, if◌then◌else◌, Text,
}

-- What a body gives when it is read to its end: bytes up to io.EOF, which comes again, or bytes up
-- to an error, behind which the body is any body at all when it is read again.
pub data Body : Type 0 where
  ended : (bytes : Text) → Body
  failing : (bytes error : Text) (after : Body) → Body

abbrev pub bytes_of : Body → Text
bytes_of (ended s) = s
bytes_of (failing s error after) = s

-- the first `n` bytes, and the others
unfoldable pub split_at : ℕ → Text → Text × Text
split_at zero s = ([], s)
split_at (suc n) [] = ([], [])
split_at (suc n) (c ∷ s) = let (front, back) = split_at n s in (c ∷ front, back)

-- What io.ReadAll returns, and what the reader still holds.
pub record Reading : Type 0 where
  pub buf : Text
  pub failure : Option Text
  pub left : Body

-- io.ReadAll(io.LimitReader(b, n)): behind `n` bytes the limited reader reports io.EOF and does not
-- ask the body, which may hold more bytes or an error.
unfoldable pub read_limited : ℕ → Body → Reading
unfolding split_at
read_limited n (ended s) =
    let (front, back) = split_at n s in record { buf = front; failure = none; left = ended back }
read_limited n (failing s error after) =
    let (front, back) = split_at n s in
    if ltb (length s) n
    then record { buf = front; failure = some error; left = after }
    else record { buf = front; failure = none; left = failing back error after }

-- io.MultiReader(bytes.NewReader(buf), b)
abbrev pub chain : Text → Body → Body
chain buf (ended s) = ended (buf ++ s)
chain buf (failing s error after) = failing (buf ++ s) error after

-- bytes.NewReader(buf)
abbrev pub reader : Text → Body
reader buf = ended buf
