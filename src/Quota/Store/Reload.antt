-- ===== src/Quota/Store/Reload.antt =====
-- What the store holds, whatever the file becomes while it is polled.
use proxmox_user_quota_proxy.Base.{
  ℕ, ◌≡◌, ◌≢◌, ◌⊎◌, inl, inr, Bool-cases, eqb, eqb→eq, eqb_iff, refl, false, Option, none, some,
  List, [], ◌∷◌, arith, ◌==◌, ==_refl, Text, All-lookup,
}
use proxmox_user_quota_proxy.Quota.Config.{UserQuota, Config}
use proxmox_user_quota_proxy.Quota.Validate.{validate}
use proxmox_user_quota_proxy.Quota.Validate.Exact.{Proper, validate_exact, pool_injective}
use proxmox_user_quota_proxy.Quota.Store.{
  Store, FileRead, Tick, parse, read, loaded, open_store, opened, reload, poll, watch, get_quota,
}

-- A store whose configuration is accepted by the validation.
abbrev pub IsLoaded : Store → Type 0
IsLoaded s = validate s.cfg ≡ none

-- A tick at which the file has one time throughout, and can be read.
abbrev pub tick_of : ℕ → Text → Tick
tick_of mt text = record { stat = some mt; reread = record { stat = some mt; content = some text } }

module _ (yaml : Text → Option Config) where
  parse-valid : (text : Text) (c : Config) → parse yaml text ≡ some c → validate c ≡ none
  unfolding parse
  parse-valid text c h = ground arith

  loaded-valid :
      (stat : Option ℕ) (content : Option Text) (c : Config)
      → (loaded yaml stat content).0 ≡ some c
      → validate c ≡ none
  loaded-valid none content c h = cc
  loaded-valid (some mt) none c h = cc
  loaded-valid (some mt) (some text) c h = parse-valid text c h

  read-valid : (f : FileRead) (c : Config) → (read yaml f).0 ≡ some c → validate c ≡ none
  unfolding read
  read-valid f = loaded-valid f.stat f.content

  opened-IsLoaded :
      (o : Option Config) (mt : ℕ) (s : Store)
      → ((c : Config) → o ≡ some c → validate c ≡ none)
      → opened yaml (o, mt) ≡ some s
      → IsLoaded s
  opened-IsLoaded none mt s valid h = cc
  opened-IsLoaded (some c) mt s valid h = ground (arith, valid c refl)

  open_store-IsLoaded : (f : FileRead) (s : Store) → open_store yaml f ≡ some s → IsLoaded s
  unfolding open_store
  open_store-IsLoaded f s h = opened-IsLoaded (read yaml f).0 (read yaml f).1 s (read-valid f) h

  reload-IsLoaded :
      (s : Store) (o : Option Config) (mt : ℕ)
      → ((c : Config) → o ≡ some c → validate c ≡ none)
      → IsLoaded s
      → IsLoaded (reload yaml s (o, mt))
  reload-IsLoaded s none mt valid h = h
  reload-IsLoaded s (some c) mt valid h = valid c refl

  pub poll-IsLoaded : (s : Store) (t : Tick) → IsLoaded s → IsLoaded (poll yaml s t)
  unfolding poll
  poll-IsLoaded s t h = ground (
    arith,
    reload-IsLoaded s (read yaml t.reread).0 (read yaml t.reread).1 (read-valid t.reread) h,
  )

  pub watch-IsLoaded : (s : Store) (ts : List Tick) → IsLoaded s → IsLoaded (watch yaml s ts)
  unfolding watch
  watch-IsLoaded s [] h = h
  watch-IsLoaded s (t ∷ ts) h = watch-IsLoaded (poll yaml s t) ts (poll-IsLoaded s t h)

  -- what the store has on a user who is found
  pub found-Proper :
      (f : FileRead) (s : Store) (ts : List Tick) (user : Text) (o : Option UserQuota)
      → open_store yaml f ≡ some s
      → get_quota (watch yaml s ts) user ≡ some o
      → Proper o
  unfolding get_quota
  found-Proper f s ts user o opens found =
      let valid = watch-IsLoaded s ts (open_store-IsLoaded f s opens) in
      All-lookup (λ (e : Text × Option UserQuota). Proper e.1) (watch yaml s ts).cfg.users user o
        ((validate_exact (watch yaml s ts).cfg).0 valid).1 found

  -- two users who are found with one pool
  pub found_pool_injective :
      (f : FileRead) (s : Store) (ts : List Tick) (u u' : Text) (q q' : UserQuota)
      → open_store yaml f ≡ some s
      → get_quota (watch yaml s ts) u ≡ some (some q)
      → get_quota (watch yaml s ts) u' ≡ some (some q')
      → q.pool ≡ q'.pool
      → u ≡ u'
  unfolding get_quota
  found_pool_injective f s ts u u' q q' opens =
      pool_injective (watch yaml s ts).cfg u u' q q'
        (watch-IsLoaded s ts (open_store-IsLoaded f s opens))

  -- From the configuration that opened the store, and whatever the file is at each tick, users that
  -- are found have records that are there and proper, and two of them have different pools unless
  -- they are one user.
  pub found_sound :
      (f : FileRead) (s : Store) (ts : List Tick) (u u' : Text) (q q' : UserQuota)
      → open_store yaml f ≡ some s
      → get_quota (watch yaml s ts) u ≡ some (some q)
      → get_quota (watch yaml s ts) u' ≡ some (some q')
      → Proper (some q) × Proper (some q') × ((u ≡ u') ⊎ (q.pool ≢ q'.pool))
  found_sound f s ts u u' q q' opens found found' = (
    found-Proper f s ts u (some q) opens found,
    found-Proper f s ts u' (some q') opens found',
    elim (Bool-cases (eqb u u')) [
      | inl same ↦ inl (eqb→eq u u' same)
      | inr other ↦ inr (λ pools.
          let one = found_pool_injective f s ts u u' q q' opens found found' pools in
          let equal = (eqb_iff u u').1 one in cc)
    ],
  )

  -- A file that changed and is not accepted leaves the configuration as it is, and is not read again
  -- while its time stays the same.
  pub rejected_once :
      (s : Store) (mt : ℕ) (text : Text) (r : FileRead)
      → (mt == s.mtime) ≡ false
      → parse yaml text ≡ none
      → ((poll yaml s (tick_of mt text)).cfg ≡ s.cfg)
        × (poll yaml (poll yaml s (tick_of mt text)) (record { stat = some mt; reread = r })
            ≡ poll yaml s (tick_of mt text))
  unfolding poll read
  rejected_once s mt text r changed rejected = rw (changed, rejected) (refl, rw (==_refl mt))

  -- A file that changed and is accepted takes effect at the next tick, with its time.
  pub accepted_takes_effect :
      (s : Store) (mt : ℕ) (text : Text) (c : Config)
      → (mt == s.mtime) ≡ false
      → parse yaml text ≡ some c
      → poll yaml s (tick_of mt text) ≡ record { cfg = c; mtime = mt }
  unfolding poll read
  accepted_takes_effect s mt text c changed accepted = rw (changed, accepted)
