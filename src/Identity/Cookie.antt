-- ===== src/Identity/Cookie.antt =====
-- The user of a login cookie.
use proxmox_user_quota_proxy.Base.{
  ℕ, ◌≡◌, refl, ◌≢◌, false, none, some, [], ◌∷◌, ◌++◌, arith, Text, codes, Lacks, cut_last,
  cut_prefix-append, cut-append, has_prefix, cut_prefix, query_unescape,
}
use proxmox_user_quota_proxy.Identity.{cookie, realm_of, parse_cookie, prefixed, from_request}

unescape-plain : (s : Text) → Lacks b'%' s → Lacks b'+' s → query_unescape s ≡ some s
unfolding query_unescape
unescape-plain [] p q = refl
unescape-plain (c ∷ []) (pc, p) (qc, q) = ground arith
unescape-plain (c ∷ d ∷ []) (pc, p) (qc, q) = rw (unescape-plain (d ∷ []) p q) (ground arith)
unescape-plain (c ∷ d ∷ e ∷ s) (pc, p) (qc, q) = rw (unescape-plain (d ∷ e ∷ s) p q) (ground arith)

cut_last-Lacks : (s : Text) (sep : ℕ) → Lacks sep s → cut_last s sep ≡ none
unfolding cut_last
cut_last-Lacks [] sep h = refl
cut_last-Lacks (c ∷ s) sep (hc, h) = rw (cut_last-Lacks s sep h) (ground arith)

cut_last-append : (a b : Text) (sep : ℕ) → Lacks sep b → cut_last (a ++ sep ∷ b) sep ≡ some (a, b)
unfolding cut_last
cut_last-append [] b sep h = rw (cut_last-Lacks b sep h) (ground arith)
cut_last-append (c ∷ a) b sep h = rw (cut_last-append a b sep h)

-- the user with this name in this realm
abbrev pub in_realm : Text → Text → Text
in_realm name realm = name ++ b'@' ∷ realm

-- A cookie of Proxmox VE: the user, and behind a colon the ticket.
abbrev pub cookie_of : Text → Text → Text
cookie_of user ticket = codes "PVE:" ++ user ++ b':' ∷ ticket

pub realm_of-in_realm :
    (c : ℕ) (name : Text) (d : ℕ) (realm : Text)
    → Lacks b'@' (d ∷ realm)
    → realm_of (in_realm (c ∷ name) (d ∷ realm)) ≡ some (d ∷ realm)
unfolding realm_of
realm_of-in_realm c name d realm h = rw (cut_last-append (c ∷ name) (d ∷ realm) b'@' h)

not_token : (c : ℕ) (s : Text) → c ≢ b'!' → has_prefix (c ∷ s) (codes "!") ≡ false
unfolding has_prefix cut_prefix
not_token c s h = ground arith

module _ (c : ℕ) (name : Text) (d : ℕ) (realm ticket : Text) where
  abbrev user : Text
  user = in_realm (c ∷ name) (d ∷ realm)

  prefixed-user :
      c ≢ b'!'
      → Lacks b'@' (d ∷ realm)
      → Lacks b':' user
      → prefixed (some (user ++ b':' ∷ ticket))
        ≡ some (record { kind = cookie; user = user; realm = d ∷ realm; token = [] })
  unfolding prefixed
  prefixed-user user_first one_at no_colon =
      rw (not_token c (name ++ b'@' ∷ (d ∷ realm) ++ b':' ∷ ticket) user_first)
        (rw (cut-append user ticket b':' no_colon) (rw (realm_of-in_realm c name d realm one_at)))

  parse_cookie-plain :
      c ≢ b'!'
      → Lacks b'@' (d ∷ realm)
      → Lacks b':' user
      → Lacks b'%' (cookie_of user ticket)
      → Lacks b'+' (cookie_of user ticket)
      → parse_cookie (cookie_of user ticket)
        ≡ some (record { kind = cookie; user = user; realm = d ∷ realm; token = [] })
  unfolding parse_cookie
  parse_cookie-plain user_first one_at no_colon no_percent no_plus =
      rw (unescape-plain (cookie_of user ticket) no_percent no_plus) (
        rw (cut_prefix-append (codes "PVE:") (user ++ b':' ∷ ticket))
          (prefixed-user user_first one_at no_colon))

-- A request without an authorization header acts for the user that its cookie names: where the name
-- and the realm are not empty, the realm has no `@`, neither has a colon, the name does not start
-- with `!`, and the cookie needs no unescaping.
pub cookie_identity :
    (c : ℕ) (name : Text) (d : ℕ) (realm ticket : Text)
    → c ≢ b'!'
    → Lacks b'@' (d ∷ realm)
    → Lacks b':' (in_realm (c ∷ name) (d ∷ realm))
    → Lacks b'%' (cookie_of (in_realm (c ∷ name) (d ∷ realm)) ticket)
    → Lacks b'+' (cookie_of (in_realm (c ∷ name) (d ∷ realm)) ticket)
    → from_request (record {
      authorization = [];
      cookie = some (cookie_of (in_realm (c ∷ name) (d ∷ realm)) ticket);
    })
      ≡ record {
        kind = cookie;
        user = in_realm (c ∷ name) (d ∷ realm);
        realm = d ∷ realm;
        token = [];
      }
unfolding from_request
cookie_identity c name d realm ticket user_first one_at no_colon no_percent no_plus =
    rw (parse_cookie-plain c name d realm ticket user_first one_at no_colon no_percent no_plus)
