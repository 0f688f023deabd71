-- ===== src/Admission/Threads/Exclusion.antt =====
-- Which goroutine holds which mutex, in terms of users.
use proxmox_user_quota_proxy.Base.{
  ℕ, ◌≡◌, refl, ◌⊎◌, inl, inr, false, Option, none, some, arith, Bool-cases, Text, Float64,
}
use proxmox_user_quota_proxy.Audit.{Decoders}
use proxmox_user_quota_proxy.Quota.Store.{Store}
use proxmox_user_quota_proxy.Admission.Enforcer.Handle.{Backend, Enforcer, System}
use proxmox_user_quota_proxy.Admission.Threads.{
  Job, user_of, Pc, idle, queued, locked, sending, settling, World, Step, arrive, lock, denied,
  admitted, failed, sent, settled, polled, timed_out, passing, Reach, here, next,
}
use proxmox_user_quota_proxy.Admission.Threads.Mutexes.{
  holds, asks, Inv, moved-Inv, lock-Inv, leave-Inv, arrive-Inv, start-Inv,
}

-- The user whose mutex a goroutine holds.
abbrev pub inside : {store : Store} → Pc store → Option Text
inside idle = none
inside (queued j m) = none
inside (locked j m) = some (user_of j)
inside (sending j m st) = some (user_of j)
inside (settling j m st n) = some (user_of j)

inside-holds :
    {store : Store} (p : Pc store) (u : Text)
    → inside p ≡ some u
    → (m : ℕ) × (holds p ≡ some m) × (asks p ≡ some (u, m))
inside-holds idle u e = cc
inside-holds (queued j m) u e = cc
inside-holds (locked j m) u e = (m, refl, ground arith)
inside-holds (sending j m st) u e = (m, refl, ground arith)
inside-holds (settling j m st n) u e = (m, refl, ground arith)

holds-inside :
    {store : Store} (p : Pc store) (m : ℕ)
    → holds p ≡ some m
    → (u : Text) × (inside p ≡ some u) × (asks p ≡ some (u, m))
holds-inside idle m e = cc
holds-inside (queued j n) m e = cc
holds-inside (locked j n) m e = (user_of j, refl, ground arith)
holds-inside (sending j n st) m e = (user_of j, refl, ground arith)
holds-inside (settling j n st k) m e = (user_of j, refl, ground arith)

module _ (b : Backend) (store : Store) (e : Enforcer) ⦃fl : Float64⦄ (dec : Decoders) where
  abbrev pub WorldInv : World b store → Type 0
  WorldInv w = Inv w.locks w.held w.pc

  Step-Inv : {v w : World b store} → Step b store e dec v w → WorldInv v → WorldInv w
  Step-Inv {v} (arrive i j at) inv = arrive-Inv v.locks v.held v.pc i j at inv
  Step-Inv {v} (lock i j m at free) inv = lock-Inv v.locks v.held v.pc i j m at free inv
  Step-Inv {v} (denied i j m reason mt at d) inv = leave-Inv v.locks v.held v.pc i m (rw at) inv
  Step-Inv {v} (admitted i j m st mt at d) inv =
      moved-Inv v.locks v.held v.pc i (sending j m st) (rw at) (rw at) inv
  Step-Inv {v} (failed i j m st at bad) inv = leave-Inv v.locks v.held v.pc i m (rw at) inv
  Step-Inv {v} (sent i j m st at good) inv =
      moved-Inv v.locks v.held v.pc i (settling j m st e.polls) (rw at) (rw at) inv
  Step-Inv {v} (settled i j m st n at s) inv = leave-Inv v.locks v.held v.pc i m (rw at) inv
  Step-Inv {v} (polled i j m st n at s) inv =
      moved-Inv v.locks v.held v.pc i (settling j m st n) (rw at) (rw at) inv
  Step-Inv {v} (timed_out i j m st at) inv = leave-Inv v.locks v.held v.pc i m (rw at) inv
  Step-Inv passing inv = inv

  pub Reach-Inv : {s : System b} {w : World b store} → Reach b store e dec s w → WorldInv w
  Reach-Inv here = start-Inv
  Reach-Inv (next r st) = Step-Inv st (Reach-Inv r)

  -- Two goroutines that hold the mutex of one user are one.
  pub alone :
      (w : World b store) (i k : ℕ) (u : Text)
      → WorldInv w
      → inside (w.pc i) ≡ some u
      → inside (w.pc k) ≡ some u
      → i ≡ k
  alone w i k u inv in_i in_k =
      let (m, h, a) = inside-holds (w.pc i) u in_i in
      let (m', h', a') = inside-holds (w.pc k) u in_k in
      inv.unique i k m h (ground (arith, inv.knows i u m a, inv.knows k u m' a'))

  -- In every interleaving of the writes of users: of two goroutines that stand between the lock and
  -- the unlock for one user, from the decision to the end of the wait, both are one.
  pub mutual_exclusion :
      (s : System b) (w : World b store)
      → Reach b store e dec s w
      → (i k : ℕ) (u : Text) → inside (w.pc i) ≡ some u
      → inside (w.pc k) ≡ some u
      → i ≡ k
  mutual_exclusion s w r i k u in_i in_k = alone w i k u (Reach-Inv r) in_i in_k

  -- In every interleaving of the writes of users: the mutex that a goroutine waits for is free, or a
  -- goroutine for a write of the same user holds it.
  pub waits_for_own :
      (s : System b) (w : World b store)
      → Reach b store e dec s w
      → (i m : ℕ) (j : Job store) → w.pc i ≡ queued j m
      → (w.held m ≡ false) ⊎ ((k : ℕ) × (inside (w.pc k) ≡ some (user_of j)))
  waits_for_own s w r i m j at = elim (Bool-cases (w.held m)) [
    | inr free ↦ inl free
    | inl busy ↦
        let inv = Reach-Inv r in
        let (k, h) = inv.covered m busy in
        let (u, inn, a) = holds-inside (w.pc k) m h in
        let waits : asks (w.pc i) ≡ some (user_of j, m) = rw at in
        let same : u ≡ user_of j =
          inv.table.distinct u (user_of j) m (inv.knows k u m a)
            (inv.knows i (user_of j) m waits) in
        inr (k, rw (← same) inn)
  ]
