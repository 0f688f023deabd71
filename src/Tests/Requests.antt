-- ===== src/Tests/Requests.antt =====
-- Requests to the small cluster.
use proxmox_user_quota_proxy.Base.{
  is_space, cut, inr, query_unescape, has_prefix, ◌≡◌, refl, true, some, arith, pos, add64, codes,
  eqb, parse_int, lookup, get, insert, count, add_to, add_all, mul64, quot, sub64,
}
use proxmox_user_quota_proxy.Classify
use proxmox_user_quota_proxy.Classify.{
  Action, guest_create, unknown_write, pool_membership, one_of, classify, classify_guest,
  split_segs, split_envelope, seg, seg_is,
}
use proxmox_user_quota_proxy.Classify.Relevant.{is_quota_action, classify-relevant}
use proxmox_user_quota_proxy.Classify.Paths.{relabel, json_path, extjs_path, envelope_agnostic}
use proxmox_user_quota_proxy.Identity
use proxmox_user_quota_proxy.Identity.{Identity, Credentials, from_request}
use proxmox_user_quota_proxy.Identity.Login.{
  Login, api_token, credentials_of, IsPlain, login_identity,
}
use proxmox_user_quota_proxy.Audit.{params}
use proxmox_user_quota_proxy.Usage.Disk.{is_disk_key, parse_disk}
use proxmox_user_quota_proxy.Usage.Guest.{atoi_default, add_disk}
use proxmox_user_quota_proxy.Usage.Engine.{user_usage}
use proxmox_user_quota_proxy.Admission.Delta.{
  positive, create_delta, add_disk_params, parse_create_disk,
}
use proxmox_user_quota_proxy.Admission.Check.{check_quota, check_limits, check_disks, check_storage}
use proxmox_user_quota_proxy.Admission.Enforcer.Decide.{settle_create, allow, decide}
use proxmox_user_quota_proxy.Admission.Enforcer.Handle.{is_admin, handle}
use proxmox_user_quota_proxy.Admission.Enforcer.Handle.Outcome.{Outcome, handle-Outcome}
use proxmox_user_quota_proxy.Admission.Enforcer.Handle.Gate.{Untouched, exempt_forwards}
use proxmox_user_quota_proxy.Tests.Fixtures.{
  whole, small_api, limits, joe, store, decoders, create, counting, enforcing, trusting, zeroes,
  fresh,
}

classify-relevant_example :
    (classify (codes "post") (codes "/api2/json/nodes/n1/qemu")).quota_relevant
    ≡ is_quota_action (classify (codes "post") (codes "/api2/json/nodes/n1/qemu")).action
classify-relevant_example = classify-relevant (codes "post") (codes "/api2/json/nodes/n1/qemu")

envelope_agnostic_example :
    classify (codes "PUT") (extjs_path (codes "nodes/n1/qemu/100/resize"))
    ≡ relabel
        (extjs_path (codes "nodes/n1/qemu/100/resize"))
        (codes "extjs")
        (classify (codes "PUT") (json_path (codes "nodes/n1/qemu/100/resize")))
envelope_agnostic_example = envelope_agnostic (codes "PUT") (codes "nodes/n1/qemu/100/resize")

-- a token of the user, beside a cookie that names another
abbrev joe_token : Login
joe_token =
    api_token (record { first = b'j'; name = codes "oe"; realm_first = b'p'; realm = codes "ve" })
      b'c' (codes "i") (codes "secret") (some (codes "PVE:root@pam:ticket"))

joe_token-IsPlain : IsPlain joe_token
unfolding is_space
joe_token-IsPlain = ground arith

login_identity_example :
    from_request (credentials_of joe_token)
    ≡ record { kind = Identity.Kind.token; user = joe; realm = codes "pve"; token = codes "ci" }
login_identity_example = login_identity joe_token joe_token-IsPlain

admits :
    decide small_api true
      (classify (codes "POST") (create (codes "1")).path)
      limits
      (params decoders (create (codes "1")).payload guest_create)
      guest_create
      zeroes
    ≡ (allow (settle_create (pos 101) (codes "dev")), zeroes)
unfolding decide params classify classify_guest split_segs split_envelope seg seg_is positive
    create_delta parse_create_disk add_disk_params atoi_default parse_int user_usage add_disk
    is_disk_key parse_disk check_quota check_limits check_disks check_storage eqb lookup get insert
    count add_to add_all add64 mul64 quot sub64
admits = refl

handle-Outcome_example :
    Outcome counting
      (enforcing (some store))
      (classify (create (codes "1")).method (create (codes "1")).path).envelope
      (create (codes "1"))
      0
      (pos 0)
      (handle counting (enforcing (some store)) decoders (create (codes "1")) fresh)
handle-Outcome_example =
    handle-Outcome counting (enforcing (some store)) decoders (create (codes "1")) fresh

admits_all : is_admin counting trusting (from_request (create (codes "3")).credentials).user ≡ true
unfolding from_request Classify.one_of eqb Identity.prefixed query_unescape has_prefix cut
    Identity.realm_of
admits_all = refl

exempt_forwards_example :
    Untouched counting trusting
      (create (codes "3"))
      0
      (handle counting trusting decoders (create (codes "3")) fresh)
exempt_forwards_example =
    exempt_forwards counting trusting decoders (create (codes "3")) fresh (inr admits_all)
