-- ===== src/Quota/Store.antt =====
-- internal/quota/quota.go, Store: the configuration in use, and the poll that reloads it. The locks
-- of the store only make each read and write of its two fields atomic.
pub mod Reload
use proxmox_user_quota_proxy.Base.{
  ℕ, ◌≡◌, Option, none, some, List, [], ◌∷◌, map, ◌==◌, if◌then◌else◌, Text, Map, lookup,
}
use proxmox_user_quota_proxy.Quota.Config.{UserQuota, Config}
use proxmox_user_quota_proxy.Quota.Validate.{validate}

-- A time is a number; Go's zero time is 0.
pub record Store : Type 0 where
  pub cfg : Config
  pub mtime : ℕ

-- What the file system answers to a call of `read`: os.Stat, and then os.ReadFile.
pub record FileRead : Type 0 where
  pub stat : Option ℕ
  pub content : Option Text

-- What it answers during one tick of the poll.
pub record Tick : Type 0 where
  pub stat : Option ℕ
  pub reread : FileRead

-- The decoder of gopkg.in/yaml.v3 is a parameter: `none` where it fails.
module _ (yaml : Text → Option Config) where
  -- Parse
  unfoldable pub parse : Text → Option Config
  parse text = elim (yaml text) [
    | none ↦ none
    | some c ↦ elim (validate c) [ none ↦ some c | some e ↦ none ]
  ]

  abbrev pub loaded : Option ℕ → Option Text → Option Config × ℕ
  loaded none content = (none, 0)
  loaded (some mt) none = (none, 0)
  loaded (some mt) (some text) = (parse text, mt)

  -- read: the configuration unless there is an error, and the time that comes with it
  unfoldable pub read : FileRead → Option Config × ℕ
  unfolding parse
  read f = loaded f.stat f.content

  abbrev pub opened : Option Config × ℕ → Option Store
  opened (none, mt) = none
  opened (some cfg, mt) = some (record { cfg = cfg; mtime = mt })

  -- Open
  unfoldable pub open_store : FileRead → Option Store
  unfolding read
  open_store f = opened (read f)

  -- what Watch stores after a read
  abbrev pub reload : Store → Option Config × ℕ → Store
  reload s (none, mt) = record s { mtime = mt }
  reload s (some cfg, mt) = record { cfg = cfg; mtime = mt }

  -- one tick of Watch
  unfoldable pub poll : Store → Tick → Store
  unfolding read
  poll s t = elim t.stat [
    | none ↦ s
    | some mt ↦ if mt == s.mtime then s else reload s (read t.reread)
  ]

  -- Watch, over the ticks until it is cancelled
  unfoldable pub watch : Store → List Tick → Store
  unfolding poll
  watch s [] = s
  watch s (t ∷ ts) = watch (poll s t) ts

-- Get
unfoldable pub get_quota : Store → Text → Option (Option UserQuota)
get_quota s user = lookup s.cfg.users user

-- Users
unfoldable pub user_ids : Store → List Text
user_ids s = map (λ (e : Text × Option UserQuota). e.0) s.cfg.users

-- Admins
unfoldable pub admin_ids : Store → List Text
admin_ids s = s.cfg.admins
