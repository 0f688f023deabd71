-- ===== src/Tests/Threads.antt =====
-- Interleavings of writes on the growing cluster: one goroutine has its write done, another one waits
-- behind it.
use proxmox_user_quota_proxy.Admission.Locks.{get_lock}
use proxmox_user_quota_proxy.Base.{
  cut, has_prefix, query_unescape, ℕ, ◌≡◌, refl, true, false, some, pos, codes, eqb, lookup,
  parse_int, get, insert, count, add_to, add_all, mul64, quot, sub64, add64,
}
use proxmox_user_quota_proxy.Classify.{
  seg_is, classify_guest, classify, split_segs, split_envelope, seg,
}
use proxmox_user_quota_proxy.Audit.{params}
use proxmox_user_quota_proxy.Usage.Disk.{is_disk_key, parse_disk}
use proxmox_user_quota_proxy.Usage.Guest.{atoi_default, add_disk}
use proxmox_user_quota_proxy.Usage.Engine.{pool_member_set, user_usage}
use proxmox_user_quota_proxy.Admission.Delta.{
  positive, create_delta, add_disk_params, parse_create_disk,
}
use proxmox_user_quota_proxy.Identity.{realm_of, prefixed, from_request}
use proxmox_user_quota_proxy.Quota.Store.{get_quota}
use proxmox_user_quota_proxy.Admission.Check.{check_quota, check_limits, check_disks, check_storage}
use proxmox_user_quota_proxy.Admission.Enforcer.Decide.{Metrics, settle_create, allow, decide}
use proxmox_user_quota_proxy.Admission.Enforcer.Decide.Exact.{is_decided}
use proxmox_user_quota_proxy.Admission.Enforcer.Handle.{has_id, System, seen, settle}
use proxmox_user_quota_proxy.Admission.Enforcer.Handle.Waits.{Waited, wait_ends}
use proxmox_user_quota_proxy.Admission.Threads.{
  Job, user_of, World, decision, Step, arrive, lock, admitted, sent, settled, Reach, here, next,
}
use proxmox_user_quota_proxy.Admission.Threads.Exclusion.{mutual_exclusion}
use proxmox_user_quota_proxy.Tests.Fixtures.{
  whole, limits, store, decoders, create, enforcing, zeroes,
}
use proxmox_user_quota_proxy.Tests.Growth.{dev, growing, is_create}

is_user : get_quota store (from_request (create (codes "1")).credentials).user ≡ some (some limits)
unfolding get_quota lookup eqb from_request prefixed query_unescape has_prefix cut realm_of
is_user = refl

is_write : is_decided (classify (create (codes "1")).method (create (codes "1")).path).action ≡ true
unfolding classify seg_is classify_guest
is_write = refl

abbrev job : Job store
job = record { request = create (codes "1"); quota = limits; entry = is_user; decided = is_write }

abbrev calm : System growing
calm = record { metrics = zeroes; cluster = false }

abbrev Moves : World growing store → World growing store → Type 0
Moves = Step growing store (enforcing (some store)) decoders

abbrev Reached : World growing store → Type 0
Reached = Reach growing store (enforcing (some store)) decoders calm

admits :
    (m : Metrics)
    → decision growing store
        (enforcing (some store))
        decoders
        (record { metrics = m; cluster = false })
        job
      ≡ (allow (settle_create (pos 101) dev), m)
unfolding decide params classify classify_guest split_segs split_envelope seg seg_is positive
    create_delta parse_create_disk add_disk_params atoi_default parse_int user_usage add_disk
    is_disk_key parse_disk check_quota check_limits check_disks check_storage eqb lookup get insert
    count add_to add_all add64 mul64 quot sub64
admits m = refl

-- Two goroutines have arrived, and the first one is behind the lock.
unfoldable two : (w : World growing store) × Reached w
unfolding get_lock lookup
two = (_, next (next (next here (arrive 0 job refl)) (arrive 1 job refl)) (lock 0 job 0 refl refl))

mutual_exclusion_example : ◌≡◌ {A = ℕ} 0 0
unfolding two
mutual_exclusion_example =
    mutual_exclusion growing store (enforcing (some store)) decoders calm two.0 two.1 0 0
      (user_of job) refl refl

-- The write of the first one is done.
unfoldable done : (w : World growing store) × Reached w
unfolding two is_create eqb pool_member_set has_id
done = (
  _,
  next (next (next two.1 (admitted 0 job 0 _ _ refl (admits _))) (sent 0 job 0 _ refl refl))
      (settled 0 job 0 _ 4 refl refl),
)

wait_ends_example :
    Waited growing
      (seen growing (settle_create (pos 101) dev))
      5
      true
      (settle growing 5 (settle_create (pos 101) dev) true)
wait_ends_example = wait_ends growing 5 (settle_create (pos 101) dev) true
