-- ===== src/Quota/Validate.antt =====
-- internal/quota/quota.go, Validate: what a quota file must satisfy to be used.
pub mod Exact
use proxmox_user_quota_proxy.Base.{
  first_some, ℕ, Bool, true, false, not, ◌&&◌, ◌||◌, Option, none, some, List, [], ◌∷◌, leb, ◌==◌,
  if◌then◌else◌, ℤ, pos, ltb_ℤ, Text, is_empty, is_digit, Map, lookup, insert,
}
use proxmox_user_quota_proxy.Quota.Config.{UserQuota, Config}

pub data Error : Type 0 where
  bad_version : ℤ → Error
  empty_record : Text → Error
  missing_pool : Text → Error
  invalid_pool : Text → Text → Error
  claimed_by_both : Text → Text → Text → Error
  negative_limit : Text → Error
  negative_disk : Text → Text → Error

-- The characters of the pattern [A-Za-z0-9._-].
abbrev pub is_pool_char : ℕ → Bool
is_pool_char c =
    (leb b'A' c && leb c b'Z')
    || (leb b'a' c && leb c b'z')
    || (leb b'0' c && leb c b'9')
    || c == b'.'
    || c == b'_'
    || c == b'-'

abbrev pub all_pool_chars : Text → Bool
all_pool_chars [] = true
all_pool_chars (c ∷ s) = is_pool_char c && all_pool_chars s

-- poolIDRe.MatchString
unfoldable pub is_pool_id : Text → Bool
is_pool_id s = not (is_empty s) && all_pool_chars s

-- the loop over the disk limits: the first negative one
unfoldable pub negative_storage : Map ℤ → Option Text
negative_storage [] = none
negative_storage ((st, g) ∷ m) = if ltb_ℤ g (pos 0) then some st else negative_storage m

-- The checks on one user. `pools` maps the pools claimed so far to their users.
unfoldable pub check_user : Text → Option UserQuota → Map Text → Option Error
unfolding is_pool_id negative_storage
check_user user none pools = some (empty_record user)
check_user user (some q) pools =
    if is_empty q.pool
    then some (missing_pool user)
    else if not (is_pool_id q.pool)
    then some (invalid_pool user q.pool)
    else elim (lookup pools q.pool) [
      | some other ↦ some (claimed_by_both q.pool other user)
      | none ↦
          if ltb_ℤ q.cores (pos 0) || ltb_ℤ q.memory_mib (pos 0) || ltb_ℤ q.instances (pos 0)
          then some (negative_limit user)
          else elim (negative_storage q.disk_gib) [
            | some st ↦ some (negative_disk user st)
            | none ↦ none
          ]
    ]

-- The pool that a record claims.
abbrev claim : Text → Option UserQuota → Map Text → Map Text
claim user none pools = pools
claim user (some q) pools = insert pools q.pool user

-- the loop over the users
unfoldable pub check_users : Map (Option UserQuota) → Map Text → Option Error
check_users [] pools = none
check_users ((user, q) ∷ users) pools =
    first_some (check_user user q pools) (check_users users (claim user q pools))

-- Validate: `none` where the file is accepted.
unfoldable pub validate : Config → Option Error
validate c =
    if not (ltb_ℤ c.version (pos 0)) && not (ltb_ℤ (pos 0) c.version)
    then check_users c.users []
    else some (bad_version c.version)
