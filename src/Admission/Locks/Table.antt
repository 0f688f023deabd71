-- ===== src/Admission/Locks/Table.antt =====
-- One mutex for each user, for good.
use proxmox_user_quota_proxy.Base.{
  ℕ, suc, ◌<◌, ◌≡◌, refl, Option, none, some, arith, Text, eqb_iff, lookup, insert, lookup-insert,
}
use proxmox_user_quota_proxy.Admission.Locks.{Locks, no_locks, handed, get_lock}

-- Every mutex in the table has been made, and no two users have the same.
pub record IsTable (l : Locks) : Type 0 where
  pub made : (u : Text) (m : ℕ) → lookup l.table u ≡ some m → m < l.next
  pub distinct :
      (u v : Text) (m : ℕ) → lookup l.table u ≡ some m → lookup l.table v ≡ some m → u ≡ v

pub no_locks-IsTable : IsTable no_locks
unfolding lookup
no_locks-IsTable = record { made = λ u m h. cc; distinct = λ u v m h. cc }

fresh-IsTable :
    (l : Locks) (user : Text)
    → IsTable l
    → IsTable (record { next = suc l.next; table = insert l.table user l.next })
fresh-IsTable l user t = record {
  made = λ u m h. ground (arith, t.made u m, lookup-insert l.table user l.next u);
  distinct = λ u v m h k. ground (
    arith,
    t.made u m,
    t.made v m,
    t.distinct u v m,
    eqb_iff user u,
    eqb_iff user v,
    lookup-insert l.table user l.next u,
    lookup-insert l.table user l.next v,
  );
}

handed-IsTable : (l : Locks) (user : Text) (o : Option ℕ) → IsTable l → IsTable (handed l user o).0
handed-IsTable l user none t = fresh-IsTable l user t
handed-IsTable l user (some m) t = t

pub get_lock-IsTable : (l : Locks) (user : Text) → IsTable l → IsTable (get_lock l user).0
unfolding get_lock
get_lock-IsTable l user t = handed-IsTable l user (lookup l.table user) t

handed-lookup :
    (l : Locks) (user : Text) (o : Option ℕ)
    → lookup l.table user ≡ o
    → lookup (handed l user o).0.table user ≡ some (handed l user o).1
handed-lookup l user none e =
    ground (arith, eqb_iff user user, lookup-insert l.table user l.next user)
handed-lookup l user (some m) e = e

-- The user has the mutex that is handed out.
pub lookup-get_lock :
    (l : Locks) (user : Text) → lookup (get_lock l user).0.table user ≡ some (get_lock l user).1
unfolding get_lock
lookup-get_lock l user = handed-lookup l user (lookup l.table user) refl

handed_keeps :
    (l : Locks) (user : Text) (o : Option ℕ) (u : Text) (m : ℕ)
    → lookup l.table user ≡ o
    → lookup l.table u ≡ some m
    → lookup (handed l user o).0.table u ≡ some m
handed_keeps l user none u m e h =
    ground (arith, eqb_iff user u, lookup-insert l.table user l.next u)
handed_keeps l user (some m') u m e h = h

-- Every user keeps the mutex of before.
pub get_lock_keeps :
    (l : Locks) (user u : Text) (m : ℕ)
    → lookup l.table u ≡ some m
    → lookup (get_lock l user).0.table u ≡ some m
unfolding get_lock
get_lock_keeps l user u m h = handed_keeps l user (lookup l.table user) u m refl h
