-- ===== src/Admission/Enforcer/Handle.antt =====
-- internal/admission/admission.go: Middleware and handleUnknown. One request is one step, from its
-- classification to the end of the wait behind it; of the writes of one user that are decided, the
-- code runs one at a time, under the user's lock.
pub mod Gate
pub mod Beyond
pub mod Barred
pub mod Outcome
pub mod Sound
pub mod Waits
use proxmox_user_quota_proxy.Base.{
  ℕ, zero, suc, ◌≡◌, refl, Bool, true, false, not, ◌&&◌, ◌||◌, Option, none, some, List, [], ◌∷◌,
  length, ◌==◌, if◌then◌else◌, ℤ, pos, add64, leb_ℤ, ltb_ℤ, Text, codes, eqb, is_some, Float64, Map,
  get,
}
use proxmox_user_quota_proxy.Classify
use proxmox_user_quota_proxy.Classify.{
  Action, guest_create, guest_config, resize, clone, move_disk, rollback, storage_alloc,
  pool_membership, unknown_write, classify, one_of,
}
use proxmox_user_quota_proxy.Identity.{Credentials, Identity, from_request}
use proxmox_user_quota_proxy.Audit.{Payload, Decoders, params}
use proxmox_user_quota_proxy.Usage.Engine.{Result, ok, err, Api, pool_member_set}
use proxmox_user_quota_proxy.Quota.Config.{UserQuota}
use proxmox_user_quota_proxy.Quota.Store.{Store, get_quota}
use proxmox_user_quota_proxy.Admission.Delta.{Delta, positive}
use proxmox_user_quota_proxy.Admission.Enforcer.Decide.Exact.{requested}
use proxmox_user_quota_proxy.Admission.Enforcer.Decide.{
  Metrics, Denial, because, no_record, over_limit, Settle, settle_none, settle_create,
  settle_guest_mod, Decision, allow, deny, decide,
}

pub record Request : Type 0 where
  pub method : Text
  pub path : Text
  pub credentials : Credentials
  pub payload : Payload

-- The cluster behind the proxy, which the repository does not hold: what its API answers to reads,
-- what a forwarded request does and the status that comes back (0 if none is written), and what
-- happens while the proxy sleeps between two polls.
pub record Backend : Type 1 where
  pub State : Type 0
  pub api : State → Api
  pub forward : Request → State → State × ℤ
  pub sleep : State → State

-- Enforcer, without its locks and counters. `polls` is how many polls fit into `settleTimeout`.
pub record Enforcer : Type 0 where
  pub store : Option Store
  pub has_engine : Bool
  pub admins : List Text
  pub enforce : Bool
  pub fail_closed : Bool
  pub default_deny : Bool
  pub polls : ℕ

-- What the client gets: the answer of the cluster, or a refusal with its status. A panic comes of a
-- nil record in the quota store, where the decision dereferences it.
pub data Answer : Type 0 where
  forwarded : ℤ → Answer
  refused : (status : ℤ) → Denial → Answer
  panicked : Answer

-- enforceable
unfoldable pub enforceable : Action → Bool
enforceable guest_create = true
enforceable guest_config = true
enforceable resize = true
enforceable clone = true
enforceable move_disk = true
enforceable rollback = true
enforceable storage_alloc = true
enforceable pool_membership = true
enforceable _ = false

abbrev pub is_unknown : Action → Bool
is_unknown unknown_write = true
is_unknown _ = false

abbrev pub is_pool_edit : Action → Bool
is_pool_edit pool_membership = true
is_pool_edit _ = false

-- every entry of the first map is an entry of the second
unfoldable pub all_same : Map Text → Map Text → Bool
all_same [] b = true
all_same ((k, v) ∷ a) b = eqb (get b k) v && all_same a b

-- sameConfig
unfoldable pub same_config : Map Text → Map Text → Bool
unfolding all_same get eqb
same_config a b = length a == length b && all_same a b

unfoldable pub has_id : List ℤ → ℤ → Bool
has_id [] n = false
has_id (m ∷ ms) n = (not (ltb_ℤ m n) && not (ltb_ℤ n m)) || has_id ms n

-- What stands for a nil record where no field of it is read.
abbrev pub no_quota : UserQuota
no_quota = record {
  pool = [];
  cores = pos 0;
  memory_mib = pos 0;
  instances = pos 0;
  disk_gib = [];
  nodes = [];
}

-- The wait for a new guest takes the pool from the record.
abbrev pub needs_pool : Action → Bool
needs_pool guest_create = true
needs_pool clone = true
needs_pool _ = false

abbrev pub reads_record : Action → Result Delta → Bool
reads_record a (err e) = false
reads_record a (ok d) = needs_pool a || positive d

-- The decision on a write reads a field of the record: it does so for an increase that it tests, and
-- for a new guest, unless a config that it rests on cannot be read.
unfoldable pub dereferences : ⦃fl : Float64⦄ → Api → Classify.Result → Map Text → Bool
unfolding positive
dereferences api res ps = reads_record res.action (requested api res no_quota ps res.action)

module _ (b : Backend) where
  -- The proxy and the cluster.
  pub record System : Type 0 where
    pub metrics : Metrics
    pub cluster : b.State

  abbrev pub joined : Api → Text → ℤ → Bool
  joined api pool vmid = elim (pool_member_set api pool) [
    | err e ↦ false
    | ok ids ↦ has_id ids vmid
  ]

  -- the loop of waitMember
  unfoldable pub poll_member : ℕ → Text → ℤ → b.State → b.State
  poll_member zero pool vmid s = s
  poll_member (suc n) pool vmid s =
      let later = poll_member n pool vmid (b.sleep s) in
      if joined (b.api s) pool vmid then s else later

  abbrev pub changed : Api → Text → Text → ℤ → Map Text → Bool
  changed api node kind vmid pre = elim (api.guest_config node kind vmid) [
    | err e ↦ false
    | ok cur ↦ not (same_config pre cur)
  ]

  -- the loop of waitConfigChanged
  unfoldable pub poll_config : ℕ → Text → Text → ℤ → Map Text → b.State → b.State
  poll_config zero node kind vmid pre s = s
  poll_config (suc n) node kind vmid pre s =
      let later = poll_config n node kind vmid pre (b.sleep s) in
      if changed (b.api s) node kind vmid pre then s else later

  abbrev pub is_zero : ℤ → Bool
  is_zero n = not (ltb_ℤ n (pos 0)) && not (ltb_ℤ (pos 0) n)

  -- the condition that ends a wait
  abbrev pub seen : Settle → b.State → Bool
  seen settle_none c = true
  seen (settle_create vmid pool) c = is_zero vmid || joined (b.api c) pool vmid
  seen (settle_guest_mod node kind vmid pre) c =
      is_zero vmid || changed (b.api c) node kind vmid pre

  -- waitMember and waitConfigChanged
  unfoldable pub settle : ℕ → Settle → b.State → b.State
  unfolding poll_member poll_config
  settle polls settle_none s = s
  settle polls (settle_create vmid pool) s =
      if is_zero vmid then s else poll_member polls pool vmid s
  settle polls (settle_guest_mod node kind vmid pre) s =
      if is_zero vmid then s else poll_config polls node kind vmid pre s

  -- next.ServeHTTP
  unfoldable pub pass : Request → System → System × Answer
  pass r s =
      let (after, status) = b.forward r s.cluster in
      (record s { cluster = after }, forwarded status)

  -- Enforcer.deny: a dialog of the GUI shows the message of an answer with status 200.
  unfoldable pub refuse : Text → Denial → System → System × Answer
  unfolding eqb
  refuse envelope reason s = (
    record s { metrics = record s.metrics { denied = add64 s.metrics.denied (pos 1) } },
    refused (if eqb envelope (codes "extjs") then pos 200 else pos 403) reason,
  )

  abbrev pub count_audited : System → System
  count_audited s = record s {
    metrics = record s.metrics { audited = add64 s.metrics.audited (pos 1) };
  }

  abbrev pub count_allowed : Metrics → Metrics
  count_allowed m = record m { allowed = add64 m.allowed (pos 1) }

  module _ (e : Enforcer) where
    abbrev pub is_admin : Text → Bool
    is_admin user = one_of user e.admins

    -- Nothing is enforced for a write of a user.
    abbrev pub exempt : Text → Action → Bool
    exempt user a =
        not e.enforce
        || not (is_some e.store)
        || not e.has_engine
        || is_admin user
        || not (enforceable a)

    -- An unknown write of a user is refused.
    abbrev pub closed_to : Text → Bool
    closed_to user = e.enforce && e.default_deny && not (is_admin user)

    -- handleUnknown
    unfoldable pub handle_unknown : Text → Classify.Result → Request → System → System × Answer
    handle_unknown user res r s =
        if closed_to user
        then refuse res.envelope
            (because (codes "write endpoint not in the quota allowlist (default-deny)"))
            (count_audited s)
        else pass r (count_audited s)

    -- what follows the decision
    unfoldable pub act : Decision → Text → Request → System → System × Answer
    act (deny reason) envelope r s = refuse envelope reason s
    act (allow st) envelope r s =
        let (after, status) = b.forward r s.cluster in
        (
          record {
            metrics = count_allowed s.metrics;
            cluster = if leb_ℤ (pos 300) status then after else settle e.polls st after;
          },
          forwarded status,
        )

    module _ ⦃fl : Float64⦄ (dec : Decoders) where
      -- decide and act, under the lock of the user
      unfoldable pub admit : UserQuota → Classify.Result → Request → System → System × Answer
      admit q res r s =
          let ps = params dec r.payload res.action in
          let (d, m) = decide (b.api s.cluster) e.fail_closed res q ps res.action s.metrics in
          act d res.envelope r (record s { metrics = m })

      -- the record of the user, where the store is there
      unfoldable pub found :
          Option (Option UserQuota) → Text → Classify.Result → Request → System → System × Answer
      found none user res r s = refuse res.envelope (no_record user) s
      found (some none) user res r s =
          if dereferences (b.api s.cluster) res (params dec r.payload res.action)
          then (s, panicked)
          else admit no_quota res r s
      found (some (some q)) user res r s = admit q res r s

      unfoldable pub enforced :
          Option Store → Text → Classify.Result → Request → System → System × Answer
      enforced none user res r s = pass r s
      enforced (some store) user res r s =
          if is_pool_edit res.action
          then refuse res.envelope
              (because (codes "pool membership changes are not permitted for users")) s
          else found (get_quota store user) user res r s

      -- the middleware, for a classified request of a user
      unfoldable pub handle_classified : Text → Classify.Result → Request → System → System × Answer
      handle_classified user res r s =
          if is_unknown res.action
          then handle_unknown user res r s
          else if not res.quota_relevant
          then pass r s
          else if exempt user res.action
          then pass r (count_audited s)
          else enforced e.store user res r (count_audited s)

      -- Middleware
      unfoldable pub handle : Request → System → System × Answer
      handle r s =
          let id = from_request r.credentials in
          handle_classified id.user (classify r.method r.path) r s
