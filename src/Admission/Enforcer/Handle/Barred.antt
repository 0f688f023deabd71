-- ===== src/Admission/Enforcer/Handle/Barred.antt =====
-- The writes that the middleware refuses before any limit is looked at.
use proxmox_user_quota_proxy.Base.{◌≡◌, true, false, none, some, codes, Float64}
use proxmox_user_quota_proxy.Classify
use proxmox_user_quota_proxy.Classify.{pool_membership, unknown_write, classify}
use proxmox_user_quota_proxy.Identity.{from_request}
use proxmox_user_quota_proxy.Audit.{Decoders}
use proxmox_user_quota_proxy.Quota.Store.{Store, get_quota}
use proxmox_user_quota_proxy.Admission.Enforcer.Decide.{Denial, because, no_record}
use proxmox_user_quota_proxy.Admission.Enforcer.Handle.{
  Request, Backend, Enforcer, System, is_admin, handle, enforceable, is_pool_edit,
}
use proxmox_user_quota_proxy.Admission.Enforcer.Handle.Gate.{
  RefusedFor, unknown_refused, pool_edit_refused, stranger_refused,
}

abbrev result_of : Request → Classify.Result
result_of r = classify r.method r.path

-- Why a write of a user is refused without a test of limits: with the default denial, the
-- classification does not know it; or, with a store and an engine, it edits a pool, or it is another
-- enforceable write and the user has no record.
pub data Barred (e : Enforcer) (r : Request) : Denial → Type 0 where
  unknown :
      e.default_deny ≡ true
      → (result_of r).action ≡ unknown_write
      → Barred e r (because (codes "write endpoint not in the quota allowlist (default-deny)"))
  edits_pool :
      (store : Store)
      → e.store ≡ some store
      → e.has_engine ≡ true
      → (result_of r).action ≡ pool_membership
      → Barred e r (because (codes "pool membership changes are not permitted for users"))
  stranger :
      (store : Store)
      → e.store ≡ some store
      → e.has_engine ≡ true
      → enforceable (result_of r).action ≡ true
      → is_pool_edit (result_of r).action ≡ false
      → get_quota store (from_request r.credentials).user ≡ none
      → Barred e r (no_record (from_request r.credentials).user)

pool_edit-enforceable :
    (r : Request) → (result_of r).action ≡ pool_membership → enforceable (result_of r).action ≡ true
unfolding enforceable
pool_edit-enforceable r edit = rw edit

module _ (b : Backend) (e : Enforcer) ⦃fl : Float64⦄ (dec : Decoders) where
  -- With enforcement on, a write of a user who is no admin is refused, for the reason given, and the
  -- cluster stays as it was, where it is not known and the default denial is on, and, with a store
  -- and an engine, where it edits a pool, whether the user has a record or not, or is enforceable
  -- and the user has no record.
  pub barred_refused :
      (r : Request) (s : System b) {why : Denial}
      → e.enforce ≡ true
      → is_admin b e (from_request r.credentials).user ≡ false
      → Barred e r why
      → RefusedFor b e why (result_of r).envelope s.cluster (handle b e dec r s)
  barred_refused r s on user (unknown strict action) =
      unknown_refused b e dec r s on strict user action
  barred_refused r s on user (edits_pool store has_store engine edit) =
      pool_edit_refused b e dec store r s on has_store engine user (pool_edit-enforceable r edit)
        edit
  barred_refused r s on user (stranger store has_store engine action other no_entry) =
      stranger_refused b e dec store r s on has_store engine user action other no_entry
