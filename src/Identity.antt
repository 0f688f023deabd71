-- ===== src/Identity.antt =====
-- internal/identity/identity.go: the user that a request acts for.
pub mod Cookie
pub mod Login
use proxmox_user_quota_proxy.Base.{
  ℕ, ◌≡◌, refl, ◌≢◌, ◌⊎◌, inl, inr, Bool, true, false, ◌&&◌, ◌||◌, Option, none, some, List, [],
  ◌∷◌, ◌++◌, arith, if◌then◌else◌, Text, codes, or_else, is_empty, cut_prefix, has_prefix,
  trim_prefix, trim_space, cut, cut_last, query_unescape,
}

pub data Kind : Type 0 where
  no_identity cookie token : Kind

pub record Identity : Type 0 where
  pub kind : Kind
  pub user : Text
  pub realm : Text
  pub token : Text

-- What FromRequest reads of a request: the header, empty where it is missing, and the value of the
-- cookie PVEAuthCookie.
pub record Credentials : Type 0 where
  pub authorization : Text
  pub cookie : Option Text

-- realmOf
unfoldable pub realm_of : Text → Option Text
unfolding cut_last
realm_of user = elim (cut_last user b'@') [
  | none ↦ none
  | some p ↦ if is_empty p.0 || is_empty p.1 then none else some p.1
]

-- the text before the first separator, or all of it
abbrev pub before : Text → Option (Text × Text) → Text
before s none = s
before s (some p) = p.0

abbrev identified : Kind → Text → Text → Option Text → Option Identity
identified kind user name none = none
identified kind user name (some realm) =
    some (record { kind = kind; user = user; realm = realm; token = name })

abbrev pub token_parts : Option (Text × Text) → Option Identity
token_parts none = none
token_parts (some p) =
    if is_empty (trim_space p.1)
    then none
    else identified token (trim_space p.0) (trim_space p.1) (realm_of (trim_space p.0))

-- the token in the text behind the prefix and the `=`, without the secret
unfoldable pub token_of : Text → Option Identity
token_of rest = token_parts (cut (before rest (cut rest b'=')) b'!')

-- what parseToken makes of the text behind the prefix
unfoldable pub after_prefix : Option Text → Option Identity
after_prefix none = none
after_prefix (some r) = token_of (trim_space (trim_prefix (trim_space r) (codes "=")))

-- parseToken
unfoldable pub parse_token : Text → Option Identity
parse_token h = after_prefix (cut_prefix h (codes "PVEAPIToken"))

abbrev cookie_parts : Option (Text × Text) → Option Identity
cookie_parts none = none
cookie_parts (some p) = identified cookie p.0 [] (realm_of p.0)

-- what parseCookie makes of the text behind the prefix
unfoldable pub prefixed : Option Text → Option Identity
prefixed none = none
prefixed (some rest) = if has_prefix rest (codes "!") then none else cookie_parts (cut rest b':')

-- parseCookie
unfoldable pub parse_cookie : Text → Option Identity
parse_cookie v = prefixed (cut_prefix (or_else (query_unescape v) v) (codes "PVE:"))

abbrev pub anonymous : Identity
anonymous = record { kind = no_identity; user = []; realm = []; token = [] }

abbrev from_cookie : Option Text → Identity
from_cookie none = anonymous
from_cookie (some v) = or_else (parse_cookie v) anonymous

-- FromRequest
unfoldable pub from_request : Credentials → Identity
unfolding parse_token parse_cookie
from_request c =
    if is_empty c.authorization
    then from_cookie c.cookie
    else or_else (parse_token c.authorization) (from_cookie c.cookie)
