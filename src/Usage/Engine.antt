-- ===== src/Usage/Engine.antt =====
-- internal/usage/engine.go: live usage, read through the PVE API.
pub mod Cache
use proxmox_user_quota_proxy.Base.{
  ◌^◌, ◌≡◌, refl, Bool, true, false, not, ◌&&◌, ◌||◌, Option, none, some, List, [], ◌∷◌, ◌++◌,
  if◌then◌else◌, ℤ, pos, add64, leb_ℤ, Text, codes, eqb, Float64, Map, lookup, insert, count,
  add_to, add_all, or_else,
}
use proxmox_user_quota_proxy.Usage.Guest.{
  Usage, UnusedRef, Resources, guest_resources, config_usage,
}

-- An error of the API, with the texts that the engine puts before it.
pub data Error : Type 0 where
  upstream : Text → Error
  in_pool : Text → Error → Error
  in_config : Text → ℤ → Error → Error

pub data Result {ℓ} (A : Type ℓ) : Type ℓ where
  ok : A → Result A
  err : Error → Result A

infixl 5 ◌>>=◌
abbrev pub ◌>>=◌ {ℓ κ} : {A : Type ℓ} {B : Type κ} → Result A → (A → Result B) → Result B
ok a >>= f = f a
err e >>= f = err e

-- the call with its error wrapped
abbrev pub wrap_error {ℓ} : {A : Type ℓ} → (Error → Error) → Result A → Result A
wrap_error f (ok a) = ok a
wrap_error f (err e) = err (f e)

-- pve.Member
pub record Member : Type 0 where
  pub vmid : ℤ
  pub node : Text
  pub kind : Text

-- APIClient: what the PVE API answers while one call of the engine reads it.
pub record Api : Type 0 where
  pub pool_members : Text → Result (List Member)
  pub guest_config : Text → Text → ℤ → Result (Map Text)
  pub storage_content : Text → Text → Result (Map ℤ)
  pub snapshot_config : Text → Text → ℤ → Text → Result (Map Text)
  pub extract_config : Text → Text → Result (Map Text)

-- The listings that were read in one call, by node and storage.
abbrev pub Cache : Type 0
Cache = Map (Map ℤ)

-- node + "/" + storage
abbrev pub cache_key : Text → Text → Text
cache_key node storage = node ++ b'/' ∷ storage

abbrev pub content_or_empty : Result (Map ℤ) → Map ℤ
content_or_empty (ok cont) = cont
content_or_empty (err e) = []

abbrev pub is_guest : Text → Bool
is_guest kind = eqb kind (codes "qemu") || eqb kind (codes "lxc")

abbrev pub no_usage : Usage
no_usage = record { cores = pos 0; memory_mib = pos 0; instances = pos 0; disk_bytes = [] }

pub bind_ext {ℓ κ} :
    {A : Type ℓ} {B : Type κ} (m : Result A) (f g : A → Result B)
    → ((a : A) → f a ≡ g a)
    → (m >>= f) ≡ (m >>= g)
bind_ext (ok a) f g h = h a
bind_ext (err e) f g h = refl

module _ (api : Api) where
  -- volumeSize, with the cache after it
  unfoldable pub volume_size : Cache → Text → UnusedRef → Cache × ℤ
  volume_size cache node ref =
      let key = cache_key node ref.storage in
      let fetched = content_or_empty (api.storage_content node ref.storage) in
      elim (lookup cache key) [
        | some cont ↦ (cache, count cont ref.volid)
        | none ↦ (insert cache key fetched, count fetched ref.volid)
      ]

  -- the loop over the unused volumes of a guest
  unfoldable pub add_unused : Text → List UnusedRef → Cache → Map ℤ → Cache × Map ℤ
  unfolding volume_size
  add_unused node [] cache disks = (cache, disks)
  add_unused node (ref ∷ refs) cache disks =
      let (cache', n) = volume_size cache node ref in
      add_unused node refs cache' (add_to disks ref.storage n)

  module _ ⦃fl : Float64⦄ where
    -- resourcesUsage
    unfoldable pub resources_usage : Text → Text → Map Text → Usage
    unfolding guest_resources add_unused
    resources_usage node kind cfg =
        let r = guest_resources kind cfg in
        record {
          cores = r.cores;
          memory_mib = r.memory_mib;
          instances = pos 1;
          disk_bytes = (add_unused node r.unused [] (add_all [] r.disks)).1;
        }

    -- GuestUsage
    unfoldable pub guest_usage : Text → Text → ℤ → Result Usage
    unfolding resources_usage
    guest_usage node kind vmid = do
      cfg ← api.guest_config node kind vmid
      ok (resources_usage node kind cfg)

    -- SnapshotUsage
    unfoldable pub snapshot_usage : Text → Text → ℤ → Text → Result Usage
    unfolding config_usage
    snapshot_usage node kind vmid snap = do
      cfg ← api.snapshot_config node kind vmid snap
      ok (config_usage kind cfg)

    -- RestoreUsage
    unfoldable pub restore_usage : Text → Text → Text → Result Usage
    unfolding config_usage
    restore_usage node volume kind = do
      cfg ← api.extract_config node volume
      ok (config_usage kind cfg)

    -- the totals with a guest's resources added, and the cache
    unfoldable pub add_guest : Text → Resources → Usage → Cache → Usage × Cache
    unfolding add_unused
    add_guest node r u cache =
        let (cache', disks) = add_unused node r.unused cache (add_all u.disk_bytes r.disks) in
        (
          record {
            cores = add64 u.cores r.cores;
            memory_mib = add64 u.memory_mib r.memory_mib;
            instances = add64 u.instances (pos 1);
            disk_bytes = disks;
          },
          cache',
        )

    -- the loop over the members of a pool
    unfoldable pub add_members : List Member → Usage → Cache → Result Usage
    unfolding add_guest guest_resources
    add_members [] u cache = ok u
    add_members (m ∷ ms) u cache =
        let others = add_members ms u cache in
        if not (is_guest m.kind) then others else do
          cfg ← wrap_error (in_config m.kind m.vmid) (api.guest_config m.node m.kind m.vmid)
          let (u', cache') = add_guest m.node (guest_resources m.kind cfg) u cache
          add_members ms u' cache'

    -- UserUsage; the partial total that comes with an error is never used.
    unfoldable pub user_usage : Text → Result Usage
    unfolding add_members
    user_usage pool = do
      members ← wrap_error (in_pool pool) (api.pool_members pool)
      add_members members no_usage []

  -- the keys of the set that PoolMemberSet builds
  unfoldable pub guest_ids : List Member → List ℤ
  guest_ids [] = []
  guest_ids (m ∷ ms) = if is_guest m.kind then m.vmid ∷ guest_ids ms else guest_ids ms

  -- PoolMemberSet
  unfoldable pub pool_member_set : Text → Result (List ℤ)
  unfolding guest_ids
  pool_member_set pool = do members ← api.pool_members pool; ok (guest_ids members)
