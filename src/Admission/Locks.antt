-- ===== src/Admission/Locks.antt =====
-- internal/admission/admission.go: the type locks. A mutex is the number under which it was made, so
-- two mutexes are one exactly if their numbers are. `get` runs under the mutex of the table itself.
pub mod Table
use proxmox_user_quota_proxy.Base.{ℕ, suc, Option, none, some, [], Text, Map, lookup, insert}

pub record Locks : Type 0 where
  pub next : ℕ
  pub table : Map ℕ

abbrev pub no_locks : Locks
no_locks = record { next = 0; table = [] }

-- what is handed out, where the table has a mutex for the user, and where it has none
abbrev pub handed : Locks → Text → Option ℕ → Locks × ℕ
handed l user (some m) = (l, m)
handed l user none = (record { next = suc l.next; table = insert l.table user l.next }, l.next)

-- locks.get
unfoldable pub get_lock : Locks → Text → Locks × ℕ
get_lock l user = handed l user (lookup l.table user)
