-- ===== src/Admission/Threads.antt =====
-- internal/admission/admission.go, Middleware, for the writes of users with a record: one goroutine
-- for each request, interleaved in any order. A step is what happens between two points at which
-- another goroutine may come between: taking a mutex, the decision, the forwarding, and each poll of
-- the waits. The rest of the cluster goes on by itself, as in `sleep`. Writes of admins, and writes
-- that are not decided, are not among the threads.
pub mod Mutexes
pub mod Exclusion
pub mod Progress
use proxmox_user_quota_proxy.Base.{
  ℕ, suc, zero, ◌≡◌, refl, Bool, true, false, ◌||◌, ◌==◌, some, List, [], ◌∷◌, if◌then◌else◌, ℤ,
  pos, leb_ℤ, Text, Float64, Map,
}
use proxmox_user_quota_proxy.Classify
use proxmox_user_quota_proxy.Classify.{Action, classify}
use proxmox_user_quota_proxy.Identity.{from_request}
use proxmox_user_quota_proxy.Audit.{Decoders, params}
use proxmox_user_quota_proxy.Quota.Config.{UserQuota}
use proxmox_user_quota_proxy.Quota.Store.{Store, get_quota}
use proxmox_user_quota_proxy.Admission.Locks.{Locks, no_locks, get_lock}
use proxmox_user_quota_proxy.Admission.Enforcer.Decide.{
  Metrics, Denial, Settle, settle_none, settle_create, settle_guest_mod, Decision, allow, deny,
  decide,
}
use proxmox_user_quota_proxy.Admission.Enforcer.Decide.Exact.{is_decided}
use proxmox_user_quota_proxy.Admission.Enforcer.Handle.{
  Request, Backend, Enforcer, System, refuse, count_allowed, count_audited, seen,
}

-- The value of a family at one index.
abbrev pub update {ℓ} : {A : Type ℓ} → (ℕ → A) → ℕ → A → ℕ → A
update f i a k = if i == k then a else f k

-- A request of a user with a record, and with an action that is decided.
pub record Job (store : Store) : Type 0 where
  pub request : Request
  pub quota : UserQuota
  pub entry : get_quota store (from_request request.credentials).user ≡ some (some quota)
  pub decided : is_decided (classify request.method request.path).action ≡ true

module _ {store : Store} where
  abbrev pub user_of : Job store → Text
  user_of j = (from_request j.request.credentials).user

  abbrev pub result_of : Job store → Classify.Result
  result_of j = classify j.request.method j.request.path

module _ (store : Store) where
  -- Where a goroutine stands: not started or finished; before Lock of a mutex; behind it; with an
  -- admitted write; in a wait, with the polls that are left.
  pub data Pc : Type 0 where
    idle : Pc
    queued : Job store → (mutex : ℕ) → Pc
    locked : Job store → (mutex : ℕ) → Pc
    sending : Job store → (mutex : ℕ) → Settle → Pc
    settling : Job store → (mutex : ℕ) → Settle → (left : ℕ) → Pc

module _ (b : Backend) (store : Store) where
  -- `held` tells which mutexes are locked.
  pub record World : Type 0 where
    pub sys : System b
    pub locks : Locks
    pub held : ℕ → Bool
    pub pc : ℕ → Pc store

  -- No goroutine has started.
  abbrev pub start : System b → World
  start s = record { sys = s; locks = no_locks; held = λ m. false; pc = λ i. idle }

  abbrev pub at_pc : World → ℕ → Pc store → World
  at_pc w i p = record w { pc = update w.pc i p }

  -- Unlock, which the deferred call does at every return
  abbrev pub leave : World → ℕ → ℕ → World
  leave w i m = record w { held = update w.held m false; pc = update w.pc i idle }

  module _ (e : Enforcer) ⦃fl : Float64⦄ (dec : Decoders) where
    abbrev pub decision : System b → Job store → Decision × Metrics
    decision s j =
        decide (b.api s.cluster) e.fail_closed (result_of j) j.quota
          (params dec j.request.payload (result_of j).action) (result_of j).action s.metrics

    abbrev pub after : System b → Job store → System b
    after s j = record {
      metrics = count_allowed b s.metrics;
      cluster = (b.forward j.request s.cluster).0;
    }

    abbrev pub status : System b → Job store → ℤ
    status s j = (b.forward j.request s.cluster).1

    pub data Step (w : World) : World → Type 0 where
      arrive :
          (i : ℕ) (j : Job store)
          → w.pc i ≡ idle
          → Step w (record w {
            sys = count_audited b w.sys;
            locks = (get_lock w.locks (user_of j)).0;
            pc = update w.pc i (queued j (get_lock w.locks (user_of j)).1);
          })
      lock :
          (i : ℕ) (j : Job store) (m : ℕ)
          → w.pc i ≡ queued j m
          → w.held m ≡ false
          → Step w (record w { held = update w.held m true; pc = update w.pc i (locked j m) })
      denied :
          (i : ℕ) (j : Job store) (m : ℕ) (reason : Denial) (mt : Metrics)
          → w.pc i ≡ locked j m
          → decision w.sys j ≡ (deny reason, mt)
          → Step w (record (leave w i m) {
            sys = (refuse b (result_of j).envelope reason (record w.sys { metrics = mt })).0;
          })
      admitted :
          (i : ℕ) (j : Job store) (m : ℕ) (st : Settle) (mt : Metrics)
          → w.pc i ≡ locked j m
          → decision w.sys j ≡ (allow st, mt)
          → Step w (record (at_pc w i (sending j m st)) { sys = record w.sys { metrics = mt } })
      failed :
          (i : ℕ) (j : Job store) (m : ℕ) (st : Settle)
          → w.pc i ≡ sending j m st
          → leb_ℤ (pos 300) (status w.sys j) ≡ true
          → Step w (record (leave w i m) { sys = after w.sys j })
      sent :
          (i : ℕ) (j : Job store) (m : ℕ) (st : Settle)
          → w.pc i ≡ sending j m st
          → leb_ℤ (pos 300) (status w.sys j) ≡ false
          → Step w (record (at_pc w i (settling j m st e.polls)) { sys = after w.sys j })
      settled :
          (i : ℕ) (j : Job store) (m : ℕ) (st : Settle) (n : ℕ)
          → w.pc i ≡ settling j m st (suc n)
          → seen b st w.sys.cluster ≡ true
          → Step w (leave w i m)
      polled :
          (i : ℕ) (j : Job store) (m : ℕ) (st : Settle) (n : ℕ)
          → w.pc i ≡ settling j m st (suc n)
          → seen b st w.sys.cluster ≡ false
          → Step w (record (at_pc w i (settling j m st n)) {
            sys = record w.sys { cluster = b.sleep w.sys.cluster };
          })
      timed_out :
          (i : ℕ) (j : Job store) (m : ℕ) (st : Settle)
          → w.pc i ≡ settling j m st 0
          → Step w (leave w i m)
      passing : Step w (record w { sys = record w.sys { cluster = b.sleep w.sys.cluster } })

    pub data Reach (s : System b) : World → Type 0 where
      here : Reach s (start s)
      next : {v w : World} → Reach s v → Step v w → Reach s w
