-- ===== src/Report.antt =====
-- cmd/uq-proxy/main.go: the page that compares what each user holds with the quota, overQuota and
-- usageHandler.
pub mod Exact
use proxmox_user_quota_proxy.Base.{
  ◌≡◌, Bool, true, false, not, ◌&&◌, ◌||◌, Option, none, some, List, [], ◌∷◌, map, if◌then◌else◌, ℤ,
  ltb_ℤ, Text, is_empty, Float64, Map, lookup,
}
use proxmox_user_quota_proxy.Usage.Guest.{Usage, disk_gib_of, disk_gib}
use proxmox_user_quota_proxy.Usage.Engine.{Error, Result, ok, err, Api, user_usage}
use proxmox_user_quota_proxy.Quota.Config.{UserQuota}
use proxmox_user_quota_proxy.Quota.Store.{Store, get_quota, user_ids}

-- the test of one storage, with its limit
unfoldable pub storage_over : Option ℤ → ℤ → Bool
storage_over none b = true
storage_over (some lim) b = ltb_ℤ lim (disk_gib_of b)

-- the loop of overQuota
unfoldable pub any_storage_over : Map ℤ → Map ℤ → Bool
any_storage_over limits [] = false
any_storage_over limits ((st, b) ∷ m) =
    storage_over (lookup limits st) b || any_storage_over limits m

-- overQuota
unfoldable pub over_quota : Usage → UserQuota → Bool
over_quota u q =
    (ltb_ℤ q.cores u.cores || ltb_ℤ q.memory_mib u.memory_mib || ltb_ℤ q.instances u.instances)
    || any_storage_over q.disk_gib u.disk_bytes

-- An entry of the page: of a user without a record, of one whose usage cannot be read, or with the
-- usage, the disks in GiB, and the alarm. The last stands for a nil dereference.
pub data Entry : Type 0 where
  stranger : (user : Text) → Entry
  unreadable : (user : Text) → UserQuota → Error → Entry
  reported : (user : Text) → UserQuota → Usage → (disk : Map ℤ) → (over : Bool) → Entry
  broken : Entry

module _ ⦃fl : Float64⦄ (api : Api) (store : Store) where
  abbrev pub of_usage : Text → UserQuota → Result Usage → Entry
  of_usage user q (err e) = unreadable user q e
  of_usage user q (ok u) = reported user q u (disk_gib u) (over_quota u q)

  abbrev pub of_record : Text → Option (Option UserQuota) → Entry
  of_record user none = stranger user
  of_record user (some none) = broken
  of_record user (some (some q)) = of_usage user q (user_usage api q.pool)

  unfoldable pub entry_of : Text → Entry
  entry_of user = of_record user (get_quota store user)

  -- usageHandler, for the user that the query names, if any
  unfoldable pub report : Text → List Entry
  report user = map entry_of (if is_empty user then user_ids store else user ∷ [])
