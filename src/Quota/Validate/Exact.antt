-- ===== src/Quota/Validate/Exact.antt =====
-- What an accepted quota file satisfies, and that nothing else is asked.
use proxmox_user_quota_proxy.Base.{
  ◌≡◌, refl, ◌≢◌, ◌↔◌, inl, inr, true, false, Option, none, some, [], ◌∷◌, arith, Option-cases, All,
  ℤ, pos, ◌≤ℤ◌, Text, is_empty, eqb_iff, Map, lookup, insert, lookup-insert,
}
use proxmox_user_quota_proxy.Quota.Config.{UserQuota, Config}
use proxmox_user_quota_proxy.Quota.Validate.{
  is_pool_id, negative_storage, check_user, check_users, validate,
}

-- A record with a proper pool and no negative limit. Limits of a node are not looked at.
pub record IsProper (q : UserQuota) : Type 0 where
  pub pool : is_pool_id q.pool ≡ true
  pub cores : pos 0 ≤ℤ q.cores
  pub memory : pos 0 ≤ℤ q.memory_mib
  pub instances : pos 0 ≤ℤ q.instances
  pub disks : All (λ (e : Text × ℤ). pos 0 ≤ℤ e.1) q.disk_gib

-- A user's record is there, and is proper.
abbrev pub Proper : Option UserQuota → Type 0
Proper none = ⊥
Proper (some q) = IsProper q

-- A pool that no user of a list has.
abbrev pub Unclaimed : Text → Map (Option UserQuota) → Type 0
Unclaimed pool [] = Unit
Unclaimed pool ((user, none) ∷ users) = Unclaimed pool users
Unclaimed pool ((user, some q) ∷ users) = (q.pool ≢ pool) × Unclaimed pool users

-- No two users have one pool.
abbrev pub PoolsDistinct : Map (Option UserQuota) → Type 0
PoolsDistinct [] = Unit
PoolsDistinct ((user, none) ∷ users) = PoolsDistinct users
PoolsDistinct ((user, some q) ∷ users) = Unclaimed q.pool users × PoolsDistinct users

-- No user of a list has a pool of the map.
abbrev AllUnclaimed : Map Text → Map (Option UserQuota) → Type 0
AllUnclaimed pools [] = Unit
AllUnclaimed pools ((user, none) ∷ users) = AllUnclaimed pools users
AllUnclaimed pools ((user, some q) ∷ users) =
    (lookup pools q.pool ≡ none) × AllUnclaimed pools users

negative_storage_exact :
    (m : Map ℤ) → (negative_storage m ≡ none) ↔ All (λ (e : Text × ℤ). pos 0 ≤ℤ e.1) m
unfolding negative_storage
negative_storage_exact [] = (λ _. tt, λ _. refl)
negative_storage_exact ((st, g) ∷ m) = ground (arith, negative_storage_exact m)

empty-not-pool : (s : Text) → is_pool_id s ≡ true → is_empty s ≡ false
unfolding is_pool_id
empty-not-pool s h = ground arith

check_user_exact :
    (user : Text) (q : UserQuota) (pools : Map Text)
    → (check_user user (some q) pools ≡ none) ↔ (IsProper q × (lookup pools q.pool ≡ none))
check_user_exact user q pools = (
  λ p.
      unfold check_user in
      (
        record {
          pool = ground (arith, p);
          cores = ground (arith, p);
          memory = ground (arith, p);
          instances = ground (arith, p);
          disks = (negative_storage_exact q.disk_gib).0 (ground (arith, p));
        },
        ground (arith, p),
      ),
  λ p.
      unfold check_user in
      ground (
        arith,
        p.0.pool,
        empty-not-pool q.pool p.0.pool,
        (negative_storage_exact q.disk_gib).1 p.0.disks,
      ),
)

insert-Unclaimed :
    (pools : Map Text) (pool user : Text) (users : Map (Option UserQuota))
    → AllUnclaimed (insert pools pool user) users
      ↔ (AllUnclaimed pools users × Unclaimed pool users)
insert-Unclaimed pools pool user [] = (λ _. (tt, tt), λ _. tt)
insert-Unclaimed pools pool user ((u, none) ∷ users) = insert-Unclaimed pools pool user users
insert-Unclaimed pools pool user ((u, some q) ∷ users) = ground (
  arith,
  insert-Unclaimed pools pool user users,
  lookup-insert pools pool user q.pool,
  eqb_iff pool q.pool,
)

check_users_exact :
    (users : Map (Option UserQuota)) (pools : Map Text)
    → (check_users users pools ≡ none) ↔ (
        All (λ (e : Text × Option UserQuota). Proper e.1) users
        × PoolsDistinct users
        × AllUnclaimed pools users)
unfolding check_users
check_users_exact [] pools = (λ _. (tt, tt, tt), λ _. refl)
check_users_exact ((user, none) ∷ users) pools = unfold check_user in (λ p. cc, λ p. absurd p.0.0)
check_users_exact ((user, some q) ∷ users) pools =
    let first = check_user_exact user q pools in
    let others = check_users_exact users (insert pools q.pool user) in
    let split = insert-Unclaimed pools q.pool user users in
    elim (Option-cases (check_user user (some q) pools)) [
      | inl fine ↦ rw fine (
        λ p.
            let (proper, distinct, free) = others.0 p in
            (
              ((first.0 fine).0, proper),
              ((split.0 free).1, distinct),
              ((first.0 fine).1, (split.0 free).0),
            ),
        λ p. others.1 (p.0.1, p.1.1, split.1 (p.2.1, p.1.0)),
      )
      | inr (e, bad) ↦ rw bad (λ p. cc, λ p. cc (first.1 (p.0.0, p.2.0)))
    ]

no_claims : (users : Map (Option UserQuota)) → AllUnclaimed [] users
no_claims [] = tt
no_claims ((u, none) ∷ users) = no_claims users
no_claims ((u, some q) ∷ users) = (unfold lookup in refl, no_claims users)

-- A quota file is accepted exactly if its version is 0, every user has a record with a proper pool
-- and without negative limits, and no two users have the same pool.
pub validate_exact :
    (c : Config)
    → (validate c ≡ none) ↔ (
        (c.version ≡ pos 0)
        × All (λ (e : Text × Option UserQuota). Proper e.1) c.users
        × PoolsDistinct c.users)
unfolding validate
validate_exact c = ground (arith, check_users_exact c.users [], no_claims c.users)

other_pool :
    (pool user : Text) (q : UserQuota) (users : Map (Option UserQuota))
    → Unclaimed pool users
    → lookup users user ≡ some (some q)
    → q.pool ≢ pool
unfolding lookup
other_pool pool user q [] h e = cc
other_pool pool user q ((u, none) ∷ users) h e = ground (arith, other_pool pool user q users)
other_pool pool user q ((u, some r) ∷ users) h e = ground (arith, other_pool pool user q users)

distinct_injective :
    (users : Map (Option UserQuota)) (u u' : Text) (q q' : UserQuota)
    → PoolsDistinct users
    → lookup users u ≡ some (some q)
    → lookup users u' ≡ some (some q')
    → q.pool ≡ q'.pool
    → u ≡ u'
unfolding lookup
distinct_injective [] u u' q q' h e e' p = cc
distinct_injective ((w, none) ∷ users) u u' q q' h e e' p =
    ground (arith, distinct_injective users u u' q q')
distinct_injective ((w, some r) ∷ users) u u' q q' h e e' p = ground (
  arith,
  eqb_iff w u,
  eqb_iff w u',
  distinct_injective users u u' q q',
  other_pool r.pool u q users,
  other_pool r.pool u' q' users,
)

-- In an accepted quota file, two users with the same pool are one user.
pub pool_injective :
    (c : Config) (u u' : Text) (q q' : UserQuota)
    → validate c ≡ none
    → lookup c.users u ≡ some (some q)
    → lookup c.users u' ≡ some (some q')
    → q.pool ≡ q'.pool
    → u ≡ u'
pool_injective c u u' q q' h = distinct_injective c.users u u' q q' ((validate_exact c).0 h).2
