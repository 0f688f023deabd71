-- ===== src/Identity/Login.antt =====
-- The two ways in which a client of Proxmox VE says who it is: the cookie of a session, and the header of
-- an API token.
use proxmox_user_quota_proxy.Base.{
  ℕ, ◌≡◌, refl, ◌≢◌, ap, ◌∙◌, false, Option, some, [], ◌∷◌, ◌++◌, Text, codes, Lacks, All,
  All-append, is_space, trim_space, trim, trim_left, trim_right-kept, trim_prefix, cut_prefix, cut,
  cut_prefix-append, cut-append,
}
use proxmox_user_quota_proxy.Identity.{
  Credentials, Identity, token, cookie, token_of, token_parts, before, after_prefix, parse_token,
  from_request,
}
use proxmox_user_quota_proxy.Identity.Cookie.{
  in_realm, cookie_of, realm_of-in_realm, cookie_identity,
}

-- No byte is white space.
abbrev pub Solid : Text → Type 0
Solid = All (λ c. is_space c ≡ false)

trim_left-Solid : (s : Text) → Solid s → trim_left is_space s ≡ s
unfolding trim_left
trim_left-Solid [] h = refl
trim_left-Solid (c ∷ s) (hc, hs) = rw hc

trim_space-Solid : (s : Text) → Solid s → trim_space s ≡ s
unfolding trim_space trim
trim_space-Solid s h = rw (trim_left-Solid s h, trim_right-kept is_space s h)

-- what stands behind the `=` of the header
abbrev pub token_value : Text → Text → Text → Text
token_value user name secret = (user ++ b'!' ∷ name) ++ b'=' ∷ secret

abbrev pub token_header : Text → Text → Text → Text
token_header user name secret = codes "PVEAPIToken" ++ b'=' ∷ token_value user name secret

before-append : (s t : Text) → Lacks b'=' s → before (s ++ b'=' ∷ t) (cut (s ++ b'=' ∷ t) b'=') ≡ s
before-append s t h = rw (cut-append s t b'=' h)

equals_solid : is_space b'=' ≡ false
unfolding is_space
equals_solid = refl

mark_solid : is_space b'!' ≡ false
unfolding is_space
mark_solid = refl

behind_equals : (s : Text) → trim_prefix (b'=' ∷ s) (codes "=") ≡ s
unfolding trim_prefix cut_prefix
behind_equals s = refl

module _ (c : ℕ) (n : Text) (d : ℕ) (realm : Text) (a : ℕ) (name secret : Text) where
  abbrev user : Text
  user = in_realm (c ∷ n) (d ∷ realm)

  abbrev given : Text
  given = token_value user (a ∷ name) secret

  given-Solid : Solid user → Solid (a ∷ name) → Solid secret → Solid given
  given-Solid hu hn hs =
      let named = All-append _ user (b'!' ∷ a ∷ name) hu (mark_solid, hn) in
      All-append _ (user ++ b'!' ∷ a ∷ name) (b'=' ∷ secret) named (equals_solid, hs)

  token_parts-plain :
      Lacks b'@' (d ∷ realm)
      → Solid user
      → Solid (a ∷ name)
      → token_parts (some (user, a ∷ name))
        ≡ some (record { kind = token; user = user; realm = d ∷ realm; token = a ∷ name })
  token_parts-plain one_at hu hn = rw (
    trim_space-Solid user hu,
    trim_space-Solid (a ∷ name) hn,
    realm_of-in_realm c n d realm one_at,
  )

  token_of-plain :
      Lacks b'@' (d ∷ realm)
      → Lacks b'!' user
      → Lacks b'=' (user ++ b'!' ∷ a ∷ name)
      → Solid user
      → Solid (a ∷ name)
      → token_of given
        ≡ some (record { kind = token; user = user; realm = d ∷ realm; token = a ∷ name })
  unfolding token_of
  token_of-plain one_at no_mark no_equals hu hn =
      ap (λ s. token_parts (cut s b'!')) (before-append (user ++ b'!' ∷ a ∷ name) secret no_equals)
      ∙ ap token_parts (cut-append user (a ∷ name) b'!' no_mark)
      ∙ token_parts-plain one_at hu hn

  parse_token-plain :
      Lacks b'@' (d ∷ realm)
      → Lacks b'!' user
      → Lacks b'=' (user ++ b'!' ∷ a ∷ name)
      → Solid user
      → Solid (a ∷ name)
      → Solid secret
      → parse_token (token_header user (a ∷ name) secret)
        ≡ some (record { kind = token; user = user; realm = d ∷ realm; token = a ∷ name })
  unfolding parse_token after_prefix
  parse_token-plain one_at no_mark no_equals hu hn hs =
      let hg = given-Solid hu hn hs in
      let behind : trim_space (trim_prefix (trim_space (b'=' ∷ given)) (codes "=")) ≡ given =
        ap (λ s. trim_space (trim_prefix s (codes "=")))
          (trim_space-Solid (b'=' ∷ given) (equals_solid, hg))
        ∙ ap trim_space (behind_equals given)
        ∙ trim_space-Solid given hg in
      ap after_prefix (cut_prefix-append (codes "PVEAPIToken") (b'=' ∷ given))
      ∙ ap token_of behind
      ∙ token_of-plain one_at no_mark no_equals hu hn

-- A user with a realm, each with its first byte.
pub record User : Type 0 where
  pub first : ℕ
  pub name : Text
  pub realm_first : ℕ
  pub realm : Text

abbrev pub realm_text : User → Text
realm_text u = u.realm_first ∷ u.realm

abbrev pub user_text : User → Text
user_text u = in_realm (u.first ∷ u.name) (realm_text u)

-- The cookie of a session, or the header of an API token, beside which there may be any cookie.
pub data Login : Type 0 where
  session : User → (ticket : Text) → Login
  api_token : User → (first : ℕ) → (name secret : Text) → (cookie : Option Text) → Login

abbrev pub credentials_of : Login → Credentials
credentials_of (session u ticket) = record {
  authorization = [];
  cookie = some (cookie_of (user_text u) ticket);
}
credentials_of (api_token u a name secret c) = record {
  authorization = token_header (user_text u) (a ∷ name) secret;
  cookie = c;
}

abbrev pub identity_of : Login → Identity
identity_of (session u ticket) = record {
  kind = cookie;
  user = user_text u;
  realm = realm_text u;
  token = [];
}
identity_of (api_token u a name secret c) = record {
  kind = token;
  user = user_text u;
  realm = realm_text u;
  token = a ∷ name;
}

-- The separators of a login stand nowhere else in it, and nothing in it is escaped or white space.
abbrev pub IsPlain : Login → Type 0
IsPlain (session u ticket) =
    (u.first ≢ b'!')
    × Lacks b'@' (realm_text u)
    × Lacks b':' (user_text u)
    × Lacks b'%' (cookie_of (user_text u) ticket)
    × Lacks b'+' (cookie_of (user_text u) ticket)
IsPlain (api_token u a name secret c) =
    Lacks b'@' (realm_text u)
    × Lacks b'!' (user_text u)
    × Lacks b'=' (user_text u ++ b'!' ∷ a ∷ name)
    × Solid (user_text u)
    × Solid (a ∷ name)
    × Solid secret

-- A request acts for the user that its login was made for: by the cookie of a session where there is no
-- authorization header, and by an API token whatever the cookie beside it says; where the separators of
-- the login stand nowhere else in it and nothing in it is escaped or white space.
pub login_identity : (l : Login) → IsPlain l → from_request (credentials_of l) ≡ identity_of l
unfolding from_request
login_identity (session u ticket) (user_first, one_at, no_colon, no_percent, no_plus) =
    cookie_identity u.first u.name u.realm_first u.realm ticket user_first one_at no_colon
      no_percent no_plus
login_identity (api_token u a name secret c) (one_at, no_mark, no_equals, hu, hn, hs) =
    let parsed =
      parse_token-plain u.first u.name u.realm_first u.realm a name secret one_at no_mark no_equals
        hu hn hs in
    rw parsed
