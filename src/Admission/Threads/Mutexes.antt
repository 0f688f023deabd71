-- ===== src/Admission/Threads/Mutexes.antt =====
-- Which goroutine holds which mutex, and what a step of one goroutine does to that.
use proxmox_user_quota_proxy.Base.{
  ℕ, ◌≡◌, sym, ap, ◌∙◌, inl, inr, Bool, true, false, Option, none, some, arith, Bool-cases, ◌==◌,
  ==_iff, Text, lookup,
}
use proxmox_user_quota_proxy.Quota.Store.{Store}
use proxmox_user_quota_proxy.Admission.Locks.{Locks, no_locks, get_lock}
use proxmox_user_quota_proxy.Admission.Locks.Table.{
  IsTable, no_locks-IsTable, get_lock-IsTable, lookup-get_lock, get_lock_keeps,
}
use proxmox_user_quota_proxy.Admission.Threads.{
  update, Job, user_of, Pc, idle, queued, locked, sending, settling,
}

-- The mutex that a goroutine holds.
abbrev pub holds : {store : Store} → Pc store → Option ℕ
holds idle = none
holds (queued j m) = none
holds (locked j m) = some m
holds (sending j m st) = some m
holds (settling j m st n) = some m

-- The user and the mutex of a goroutine that has started.
abbrev pub asks : {store : Store} → Pc store → Option (Text × ℕ)
asks idle = none
asks (queued j m) = some (user_of j, m)
asks (locked j m) = some (user_of j, m)
asks (sending j m st) = some (user_of j, m)
asks (settling j m st n) = some (user_of j, m)

-- What the new value agrees on with the old one, the families agree on.
pub update_same {ℓ κ} :
    {A : Type ℓ} {B : Type κ} (g : A → B) (f : ℕ → A) (i : ℕ) (a : A) (k : ℕ)
    → g a ≡ g (f i)
    → g (update f i a k) ≡ g (f k)
update_same g f i a k h = elim (Bool-cases (i == k)) [
  | inl same ↦ rw same (h ∙ ap (λ n. g (f n)) ((==_iff i k).0 same))
  | inr other ↦ rw other
]

module _ {store : Store} where
  pub record Inv (l : Locks) (held : ℕ → Bool) (pc : ℕ → Pc store) : Type 0 where
    pub table : IsTable l
    pub knows : (i : ℕ) (u : Text) (m : ℕ) → asks (pc i) ≡ some (u, m) → lookup l.table u ≡ some m
    pub taken : (i m : ℕ) → holds (pc i) ≡ some m → held m ≡ true
    pub unique : (i k m : ℕ) → holds (pc i) ≡ some m → holds (pc k) ≡ some m → i ≡ k
    pub covered : (m : ℕ) → held m ≡ true → (i : ℕ) × (holds (pc i) ≡ some m)

  -- A step of one goroutine that neither takes nor leaves a mutex.
  pub moved-Inv :
      (l : Locks) (held : ℕ → Bool) (pc : ℕ → Pc store) (i : ℕ) (p : Pc store)
      → holds p ≡ holds (pc i)
      → asks p ≡ asks (pc i)
      → Inv l held pc
      → Inv l held (update pc i p)
  moved-Inv l held pc i p same_holds same_asks inv =
      let h : (k : ℕ) → holds (update pc i p k) ≡ holds (pc k) =
        λ k. update_same holds pc i p k same_holds in
      let a : (k : ℕ) → asks (update pc i p k) ≡ asks (pc k) =
        λ k. update_same asks pc i p k same_asks in
      record {
        table = inv.table;
        knows = λ k u m e. inv.knows k u m (sym (a k) ∙ e);
        taken = λ k m e. inv.taken k m (sym (h k) ∙ e);
        unique = λ k k' m e e'. inv.unique k k' m (sym (h k) ∙ e) (sym (h k') ∙ e');
        covered = λ m e. let (k, g) = inv.covered m e in (k, h k ∙ g);
      }

  -- A goroutine takes a mutex that nobody holds.
  pub lock-Inv :
      (l : Locks) (held : ℕ → Bool) (pc : ℕ → Pc store) (i : ℕ) (j : Job store) (m : ℕ)
      → pc i ≡ queued j m
      → held m ≡ false
      → Inv l held pc
      → Inv l (update held m true) (update pc i (locked j m))
  lock-Inv l held pc i j m at free inv =
      let a : (k : ℕ) → asks (update pc i (locked j m) k) ≡ asks (pc k) =
        λ k. update_same asks pc i (locked j m) k (rw at) in
      record {
        table = inv.table;
        knows = λ k u m' e. inv.knows k u m' (sym (a k) ∙ e);
        taken = λ k m' e. ground (arith, inv.taken k m');
        unique =
            λ k k' m' e e'. ground (arith, inv.taken k m', inv.taken k' m', inv.unique k k' m');
        covered = λ m' e. elim (Bool-cases (m == m')) [
          | inl same ↦ (i, ground arith)
          | inr other ↦ let (k, g) = inv.covered m' (ground arith) in (k, ground arith)
        ];
      }

  -- A goroutine unlocks the mutex that it holds.
  pub leave-Inv :
      (l : Locks) (held : ℕ → Bool) (pc : ℕ → Pc store) (i m : ℕ)
      → holds (pc i) ≡ some m
      → Inv l held pc
      → Inv l (update held m false) (update pc i idle)
  leave-Inv l held pc i m at inv = record {
    table = inv.table;
    knows = λ k u m' e. ground (arith, inv.knows k u m');
    taken = λ k m' e. ground (arith, inv.taken k m', inv.unique i k m');
    unique = λ k k' m' e e'. ground (arith, inv.unique k k' m');
    covered = λ m' e. let (k, g) = inv.covered m' (ground arith) in (k, ground arith);
  }

  -- A goroutine asks for the mutex of its user.
  pub arrive-Inv :
      (l : Locks) (held : ℕ → Bool) (pc : ℕ → Pc store) (i : ℕ) (j : Job store)
      → pc i ≡ idle
      → Inv l held pc
      → Inv (get_lock l (user_of j)).0 held (update pc i (queued j (get_lock l (user_of j)).1))
  arrive-Inv l held pc i j at inv =
      let q = queued j (get_lock l (user_of j)).1 in
      let h : (k : ℕ) → holds (update pc i q k) ≡ holds (pc k) =
        λ k. update_same holds pc i q k (rw at) in
      record {
        table = get_lock-IsTable l (user_of j) inv.table;
        knows = λ k u m e. ground (
          arith,
          inv.knows k u m,
          get_lock_keeps l (user_of j) u m,
          lookup-get_lock l (user_of j),
        );
        taken = λ k m e. inv.taken k m (sym (h k) ∙ e);
        unique = λ k k' m e e'. inv.unique k k' m (sym (h k) ∙ e) (sym (h k') ∙ e');
        covered = λ m e. let (k, g) = inv.covered m e in (k, h k ∙ g);
      }

  pub start-Inv : Inv no_locks (λ m. false) (λ i. idle)
  start-Inv = record {
    table = no_locks-IsTable;
    knows = λ i u m e. cc;
    taken = λ i m e. cc;
    unique = λ i k m e e'. cc;
    covered = λ m e. cc;
  }
