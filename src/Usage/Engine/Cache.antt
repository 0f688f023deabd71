-- ===== src/Usage/Engine/Cache.antt =====
-- The cache of storage listings, compared with reading the listing of every volume anew.
use proxmox_user_quota_proxy.Base.{
  ◌≡◌, refl, sym, ap, ◌∙◌, not, Option, some, List, [], ◌∷◌, arith, if◌then◌else◌, Bool-cases,
  Option-cases, inl, inr, All, ℤ, pos, add64, Text, eqb_iff, Lacks, cut, cut-append, Float64, Map,
  lookup, insert, lookup-insert, count, add_to, add_all,
}
use proxmox_user_quota_proxy.Usage.Guest.{Usage, UnusedRef, Resources, guest_resources}
use proxmox_user_quota_proxy.Usage.Engine.{
  in_pool, in_config, Result, ok, ◌>>=◌, bind_ext, wrap_error, Member, Api, Cache, cache_key,
  content_or_empty, is_guest, volume_size, add_unused, add_guest, add_members, no_usage, user_usage,
}

module _ (api : Api) where
  abbrev listing : Text → Text → Map ℤ
  listing node storage = content_or_empty (api.storage_content node storage)

  -- The sizes of unused volumes, each looked up in a listing of its own.
  abbrev pub unused_sizes : Text → List UnusedRef → Map ℤ
  unused_sizes node [] = []
  unused_sizes node (ref ∷ refs) =
      (ref.storage, count (listing node ref.storage) ref.volid) ∷ unused_sizes node refs

  module _ ⦃fl : Float64⦄ where
    -- The totals with a guest's disks added, without a cache.
    abbrev pub plus_guest : Text → Resources → Usage → Usage
    plus_guest node r u = record {
      cores = add64 u.cores r.cores;
      memory_mib = add64 u.memory_mib r.memory_mib;
      instances = add64 u.instances (pos 1);
      disk_bytes = add_all (add_all u.disk_bytes r.disks) (unused_sizes node r.unused);
    }

    unfoldable pub plus_members : List Member → Usage → Result Usage
    plus_members [] u = ok u
    plus_members (m ∷ ms) u =
        let others = plus_members ms u in
        if not (is_guest m.kind) then others else do
          cfg ← wrap_error (in_config m.kind m.vmid) (api.guest_config m.node m.kind m.vmid)
          plus_members ms (plus_guest m.node (guest_resources m.kind cfg) u)

    -- UserUsage, without a cache
    unfoldable pub uncached_usage : Text → Result Usage
    unfolding plus_members
    uncached_usage pool = do
      members ← wrap_error (in_pool pool) (api.pool_members pool)
      plus_members members no_usage

  -- What the cache holds for a node whose name has no slash is that node's listing.
  abbrev IsTrue : Cache → Type 0
  IsTrue cache =
      (node storage : Text) (cont : Map ℤ)
      → Lacks b'/' node
      → lookup cache (cache_key node storage) ≡ some cont
      → cont ≡ listing node storage

  -- Without slashes in the names of nodes, a key tells the node and the storage.
  cache_key_injective :
      (n n' s s' : Text)
      → Lacks b'/' n
      → Lacks b'/' n'
      → cache_key n s ≡ cache_key n' s'
      → (n ≡ n') × (s ≡ s')
  cache_key_injective n n' s s' h h' e =
      let same : ◌≡◌ {A = Option (Text × Text)} (some (n, s)) (some (n', s')) =
        sym (cut-append n s b'/' h) ∙ ap (λ k. cut k b'/') e ∙ cut-append n' s' b'/' h' in
      ground (arith, same)

  insert-IsTrue :
      (cache : Cache) (node storage : Text)
      → Lacks b'/' node
      → IsTrue cache
      → IsTrue (insert cache (cache_key node storage) (listing node storage))
  insert-IsTrue cache node storage h true_so_far n s cont hn e = ground (
    arith,
    lookup-insert cache (cache_key node storage) (listing node storage) (cache_key n s),
    eqb_iff (cache_key node storage) (cache_key n s),
    cache_key_injective node n storage s h hn,
    true_so_far n s cont hn,
  )

  volume_size-listing :
      (cache : Cache) (node : Text) (ref : UnusedRef)
      → Lacks b'/' node
      → IsTrue cache
      → ((volume_size api cache node ref).1 ≡ count (listing node ref.storage) ref.volid)
        × IsTrue (volume_size api cache node ref).0
  unfolding volume_size
  volume_size-listing cache node ref h t =
      elim (Option-cases (lookup cache (cache_key node ref.storage))) [
        | inl missing ↦ rw (missing, volume_size) (refl, insert-IsTrue cache node ref.storage h t)
        | inr (cont, found) ↦
            rw (found, volume_size)
              (ap (λ m. count m ref.volid) (t node ref.storage cont h found), t)
      ]

  add_unused-sizes :
      (node : Text) (refs : List UnusedRef) (cache : Cache) (disks : Map ℤ)
      → Lacks b'/' node
      → IsTrue cache
      → ((add_unused api node refs cache disks).1 ≡ add_all disks (unused_sizes node refs))
        × IsTrue (add_unused api node refs cache disks).0
  unfolding add_unused add_all
  add_unused-sizes node [] cache disks h t = (refl, t)
  add_unused-sizes node (ref ∷ refs) cache disks h t =
      let (size, t') = volume_size-listing cache node ref h t in
      let (rest, t'') =
        add_unused-sizes node refs (volume_size api cache node ref).0
          (add_to disks ref.storage (volume_size api cache node ref).1) h t' in
      (rw rest (rw size), t'')

  module _ ⦃fl : Float64⦄ where
    add_guest-plus :
        (node : Text) (r : Resources) (u : Usage) (cache : Cache)
        → Lacks b'/' node
        → IsTrue cache
        → ((add_guest api node r u cache).0 ≡ plus_guest node r u)
          × IsTrue (add_guest api node r u cache).1
    unfolding add_guest
    add_guest-plus node r u cache h t =
        let (disks, t') = add_unused-sizes node r.unused cache (add_all u.disk_bytes r.disks) h t in
        (rw disks, t')

    add_members-plus :
        (ms : List Member) (u : Usage) (cache : Cache)
        → All (λ (m : Member). Lacks b'/' m.node) ms
        → IsTrue cache
        → add_members api ms u cache ≡ plus_members ms u
    unfolding add_members plus_members
    add_members-plus [] u cache h t = refl
    add_members-plus (m ∷ ms) u cache (hm, h) t = elim (Bool-cases (is_guest m.kind)) [
      | inl guest ↦ rw guest (
          bind_ext _ _ _ λ cfg.
            let r = guest_resources m.kind cfg in
            let (same, t') = add_guest-plus m.node r u cache hm t in
            add_members-plus ms (add_guest api m.node r u cache).0
              (add_guest api m.node r u cache).1 h t'
            ∙ ap (plus_members ms) same)
      | inr other ↦ rw other (add_members-plus ms u cache h t)
    ]

    -- Where the pool can be read, whatever it holds and whatever else fails, the usage that is
    -- computed with the cache is the usage without it, where no name of a node in the pool has a
    -- slash.
    pub user_usage-uncached :
        (pool : Text) (ms : List Member)
        → api.pool_members pool ≡ ok ms
        → All (λ (m : Member). Lacks b'/' m.node) ms
        → user_usage api pool ≡ uncached_usage pool
    unfolding user_usage uncached_usage
    user_usage-uncached pool ms found h =
        rw found
          (add_members-plus ms no_usage [] h (λ node storage cont _. unfold lookup in λ e. cc))
