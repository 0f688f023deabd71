-- ===== src/Tests/Files.antt =====
-- The quota file of the small cluster, and its reloads.
use proxmox_user_quota_proxy.Base.{
  ◌≡◌, refl, ◌↔◌, ◌⊎◌, ◌≢◌, Option, none, some, List, [], ◌∷◌, pos, All, Text, codes, lookup, eqb,
}
use proxmox_user_quota_proxy.Quota.Config.{UserQuota}
use proxmox_user_quota_proxy.Quota.Validate.{check_users, check_user, validate}
use proxmox_user_quota_proxy.Quota.Validate.Exact.{Proper, PoolsDistinct, validate_exact}
use proxmox_user_quota_proxy.Quota.Store.{Tick, open_store, poll, watch, get_quota, parse}
use proxmox_user_quota_proxy.Quota.Store.Reload.{found_sound, rejected_once, tick_of}
use proxmox_user_quota_proxy.Tests.Fixtures.{limits, quotas, joe, store, yaml, first_file}

validate_exact_example : (validate quotas ≡ none) ↔ (
    (quotas.version ≡ pos 0)
    × All (λ (e : Text × Option UserQuota). Proper e.1) quotas.users
    × PoolsDistinct quotas.users)
validate_exact_example = validate_exact quotas

-- A tick at which the file is broken, and one at which it is mended.
abbrev ticks : List Tick
ticks = tick_of 2 (codes "?") ∷ tick_of 3 (codes "1") ∷ []

opens : open_store yaml first_file ≡ some store
unfolding open_store eqb validate check_users check_user lookup
opens = refl

finds_joe : get_quota (watch yaml store ticks) joe ≡ some (some limits)
unfolding watch get_quota lookup eqb validate check_users check_user
finds_joe = refl

found_sound_example :
    Proper (some limits) × Proper (some limits) × ((joe ≡ joe) ⊎ (limits.pool ≢ limits.pool))
found_sound_example =
    found_sound yaml first_file store ticks joe joe limits limits opens finds_joe finds_joe

is_rejected : parse yaml (codes "?") ≡ none
unfolding parse eqb
is_rejected = refl

rejected_once_example :
    ((poll yaml store (tick_of 2 (codes "?"))).cfg ≡ quotas)
    × (poll yaml
          (poll yaml store (tick_of 2 (codes "?")))
          (record { stat = some 2; reread = first_file })
        ≡ poll yaml store (tick_of 2 (codes "?")))
rejected_once_example = rejected_once yaml store 2 (codes "?") first_file refl is_rejected
