-- ===== src/Tests/Refusals.antt =====
-- Writes of the user under enforcement: refused ones, and one that is admitted.
use proxmox_user_quota_proxy.Base.{
  cut, query_unescape, has_prefix, ◌≡◌, ◌+ℤ◌, arith, refl, true, false, Option, none, some, [], ap,
  ◌∙◌, pos, add64, Text, codes, eqb, parse_int, lookup, get, insert, count, add_to, add_all, mul64,
  quot, sub64,
}
use proxmox_user_quota_proxy.Classify
use proxmox_user_quota_proxy.Classify.{
  Action, guest_create, unknown_write, pool_membership, one_of, classify, classify_guest,
  split_segs, split_envelope, seg, seg_is,
}
use proxmox_user_quota_proxy.Identity
use proxmox_user_quota_proxy.Identity.{Identity, Credentials, from_request}
use proxmox_user_quota_proxy.Audit.{is_restore, params}
use proxmox_user_quota_proxy.Usage.Disk.{is_disk_key, parse_disk}
use proxmox_user_quota_proxy.Usage.Guest.{atoi_default, add_disk}
use proxmox_user_quota_proxy.Usage.Engine.{ok, user_usage}
use proxmox_user_quota_proxy.Quota.Store.{Store, get_quota}
use proxmox_user_quota_proxy.Admission.Delta.{
  Delta, create_delta, add_disk_params, parse_create_disk,
}
use proxmox_user_quota_proxy.Admission.Check.{
  Reason, cores_over, effective_limits, check_quota, check_limits, check_disks, check_storage,
}
use proxmox_user_quota_proxy.Admission.Enforcer.Decide.{because, no_record, over_limit}
use proxmox_user_quota_proxy.Admission.Enforcer.Decide.Exact.{is_decided, requested, Fitting}
use proxmox_user_quota_proxy.Admission.Enforcer.Handle.{
  Request, forwarded, is_admin, enforceable, is_pool_edit, handle,
}
use proxmox_user_quota_proxy.Admission.Enforcer.Handle.Gate.{RefusedFor, fitting_forwarded}
use proxmox_user_quota_proxy.Admission.Enforcer.Handle.Beyond.{beyond_limits_refused}
use proxmox_user_quota_proxy.Admission.Check.Reasons.{Exceeded}
use proxmox_user_quota_proxy.Admission.Check.Exact.{Fits, InRange, check_quota_exact}
use proxmox_user_quota_proxy.Admission.Enforcer.Handle.Barred.{
  Barred, edits_pool, stranger, barred_refused,
}
use proxmox_user_quota_proxy.Admission.Enforcer.Handle.Sound.{forwarded_fits}
use proxmox_user_quota_proxy.Tests.Fixtures.{
  whole, small_api, used, limits, one_core, three_cores, joe, store, empty_store, decoders, request,
  create, counting, enforcing, fresh,
}

-- Three requests: one for a guest with 3 cores, one that edits the pool, and one of no known kind.
abbrev edit_pool : Request
edit_pool = request (codes "PUT") (codes "/api2/json/pools/dev") []

abbrev unknown : Request
unknown = request (codes "POST") (codes "/api2/json/cluster/backup") []

no_admin : (o : Option Store) → is_admin counting (enforcing o) joe ≡ false
unfolding one_of eqb
no_admin o = refl

from_joe :
    (method path body : Text) → (from_request (request method path body).credentials).user ≡ joe
unfolding from_request Identity.prefixed query_unescape has_prefix cut Identity.realm_of
from_joe method path body = refl

joe_no_admin :
    (o : Option Store) (method path body : Text)
    → is_admin counting (enforcing o) (from_request (request method path body).credentials).user
      ≡ false
joe_no_admin o method path body =
    ap (is_admin counting (enforcing o)) (from_joe method path body) ∙ no_admin o

unknown_action : (classify unknown.method unknown.path).action ≡ unknown_write
unfolding classify seg_is Classify.pass_or_unknown Classify.known_passthrough
unknown_action = refl

edit_action : (classify edit_pool.method edit_pool.path).action ≡ pool_membership
unfolding classify seg_is
edit_action = refl

create_action :
    (cores : Text) → (classify (create cores).method (create cores).path).action ≡ guest_create
unfolding classify seg_is classify_guest
create_action cores = refl

create-enforceable :
    (cores : Text) → enforceable (classify (create cores).method (create cores).path).action ≡ true
unfolding enforceable
create-enforceable cores = rw (create_action cores)

create_other :
    (cores : Text)
    → is_pool_edit (classify (create cores).method (create cores).path).action ≡ false
create_other cores = rw (create_action cores)

create_decided :
    (cores : Text) → is_decided (classify (create cores).method (create cores).path).action ≡ true
create_decided cores = rw (create_action cores)

no_entry : get_quota empty_store (from_request (create (codes "1")).credentials).user ≡ none
unfolding get_quota lookup
no_entry = refl

barred_refused_example :
    RefusedFor counting
      (enforcing (some empty_store))
      (no_record (from_request (create (codes "1")).credentials).user)
      (classify (create (codes "1")).method (create (codes "1")).path).envelope
      0
      (handle counting (enforcing (some empty_store)) decoders (create (codes "1")) fresh)
barred_refused_example =
    barred_refused counting (enforcing (some empty_store)) decoders (create (codes "1")) fresh refl
      (joe_no_admin (some empty_store) (codes "POST") (codes "/api2/extjs/nodes/n1/qemu")
        (codes "1"))
      (stranger empty_store refl refl (create-enforceable (codes "1")) (create_other (codes "1"))
        no_entry)

-- the other two reasons
pool_edit_barred :
    Barred
      (enforcing (some store))
      edit_pool
      (because (codes "pool membership changes are not permitted for users"))
pool_edit_barred = edits_pool store refl refl edit_action

unknown_barred :
    Barred
      (enforcing (some store))
      unknown
      (because (codes "write endpoint not in the quota allowlist (default-deny)"))
unknown_barred = Barred.unknown refl unknown_action

has_entry :
    (cores : Text)
    → get_quota store (from_request (create cores).credentials).user ≡ some (some limits)
unfolding get_quota lookup eqb from_request Identity.prefixed query_unescape has_prefix cut
    Identity.realm_of
has_entry cores = refl

used_by_dev : user_usage small_api (codes "dev") ≡ ok used
unfolding user_usage eqb add64 is_disk_key add_disk parse_disk parse_int mul64 atoi_default add_all
    get lookup add_to insert
used_by_dev = refl

asks_one :
    requested small_api
      (classify (create (codes "1")).method (create (codes "1")).path)
      limits
      (params decoders
        (create (codes "1")).payload
        (classify (create (codes "1")).method (create (codes "1")).path).action)
      (classify (create (codes "1")).method (create (codes "1")).path).action
    ≡ ok one_core
unfolding classify params create_delta classify_guest split_segs split_envelope seg seg_is
    parse_create_disk add_disk_params atoi_default parse_int is_disk_key parse_disk eqb lookup get
    insert count add_to add64 mul64 is_restore
asks_one = refl

asks_three :
    requested small_api
      (classify (create (codes "3")).method (create (codes "3")).path)
      limits
      (params decoders
        (create (codes "3")).payload
        (classify (create (codes "3")).method (create (codes "3")).path).action)
      (classify (create (codes "3")).method (create (codes "3")).path).action
    ≡ ok three_cores
unfolding classify params create_delta classify_guest split_segs split_envelope seg seg_is
    parse_create_disk add_disk_params atoi_default parse_int is_disk_key parse_disk eqb lookup get
    insert count add_to add64 mul64 is_restore
asks_three = refl

one_core_fits :
    check_quota used one_core limits
      (classify (create (codes "1")).method (create (codes "1")).path).node
    ≡ none
unfolding check_quota check_limits check_disks check_storage classify classify_guest split_segs
    split_envelope seg seg_is eqb lookup count add64 quot sub64
one_core_fits = refl

three_cores_over :
    check_quota used three_cores limits
      (classify (create (codes "3")).method (create (codes "3")).path).node
    ≡ some (cores_over (pos 2) (pos 3) (pos 4))
unfolding check_quota check_limits check_disks check_storage classify classify_guest split_segs
    split_envelope seg seg_is eqb lookup count add64 quot sub64
three_cores_over = refl

three_cores-InRange : InRange used three_cores
unfolding count lookup eqb ◌+ℤ◌
three_cores-InRange = record {
  cores = (ground arith, ground arith);
  memory = (ground arith, ground arith);
  instances = (ground arith, ground arith);
  disks = ((ground arith, ground arith, ground arith), tt);
}

three_cores_beyond :
    ¬ Fits used three_cores (
      effective_limits limits (classify (create (codes "3")).method (create (codes "3")).path).node)
three_cores_beyond fits =
    let node = (classify (create (codes "3")).method (create (codes "3")).path).node in
    let passes = (check_quota_exact used three_cores limits node three_cores-InRange).1 fits in
    cc (three_cores_over)

beyond_limits_refused_example :
    (reason : Reason) × Exceeded used three_cores
      (effective_limits limits
        (classify (create (codes "3")).method (create (codes "3")).path).node)
      reason
    × RefusedFor counting
        (enforcing (some store))
        (over_limit reason)
        (classify (create (codes "3")).method (create (codes "3")).path).envelope
        0
        (handle counting (enforcing (some store)) decoders (create (codes "3")) fresh)
beyond_limits_refused_example =
    beyond_limits_refused counting (enforcing (some store)) decoders store (create (codes "3"))
      fresh limits three_cores used refl refl refl
      (joe_no_admin (some store) (codes "POST") (codes "/api2/extjs/nodes/n1/qemu") (codes "3"))
      (create-enforceable (codes "3")) (has_entry (codes "3")) (create_decided (codes "3"))
      asks_three used_by_dev three_cores-InRange three_cores_beyond

fitting_forwarded_example :
    (handle counting (enforcing (some store)) decoders (create (codes "1")) fresh).1
    ≡ forwarded (pos 200)
fitting_forwarded_example =
    fitting_forwarded counting (enforcing (some store)) decoders store (create (codes "1")) fresh
      refl refl refl
      (joe_no_admin (some store) (codes "POST") (codes "/api2/extjs/nodes/n1/qemu") (codes "1"))
      (create-enforceable (codes "1")) limits one_core used (has_entry (codes "1"))
      (create_decided (codes "1")) asks_one used_by_dev one_core_fits

one_core_forwarded :
    (handle counting (enforcing (some store)) decoders (create (codes "1")) fresh).1
    ≡ forwarded (pos 200)
one_core_forwarded =
    fitting_forwarded counting (enforcing (some store)) decoders store (create (codes "1")) fresh
      refl refl refl
      (joe_no_admin (some store) (codes "POST") (codes "/api2/extjs/nodes/n1/qemu") (codes "1"))
      (create-enforceable (codes "1")) limits one_core used (has_entry (codes "1"))
      (create_decided (codes "1")) asks_one used_by_dev one_core_fits

forwarded_fits_example :
    (d : Delta) × (requested small_api
        (classify (create (codes "1")).method (create (codes "1")).path)
        limits
        (params decoders
          (create (codes "1")).payload
          (classify (create (codes "1")).method (create (codes "1")).path).action)
        (classify (create (codes "1")).method (create (codes "1")).path).action
      ≡ ok d)
    × Fitting small_api
        (classify (create (codes "1")).method (create (codes "1")).path)
        limits
        (params decoders
          (create (codes "1")).payload
          (classify (create (codes "1")).method (create (codes "1")).path).action)
        d
forwarded_fits_example =
    forwarded_fits counting (enforcing (some store)) decoders store (create (codes "1")) fresh
      limits (pos 200) refl refl refl refl
      (joe_no_admin (some store) (codes "POST") (codes "/api2/extjs/nodes/n1/qemu") (codes "1"))
      (has_entry (codes "1")) (create_decided (codes "1")) one_core_forwarded
