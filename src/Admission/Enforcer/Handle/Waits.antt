-- ===== src/Admission/Enforcer/Handle/Waits.antt =====
-- internal/admission/admission.go, waitMember and waitConfigChanged: how long a wait takes.
use proxmox_user_quota_proxy.Base.{
  ℕ, suc, zero, ◌≡◌, refl, ◌∙◌, ◌<◌, ◌≤◌, Bool, true, false, arith, inl, inr, Bool-cases, ℤ, Text,
  Map,
}
use proxmox_user_quota_proxy.Admission.Enforcer.Decide.{
  Settle, settle_none, settle_create, settle_guest_mod,
}
use proxmox_user_quota_proxy.Admission.Enforcer.Handle.{
  Backend, joined, changed, is_zero, seen, poll_member, poll_config, settle,
}

module _ (b : Backend) where
  -- the cluster after the proxy has slept this often
  unfoldable pub slept : ℕ → b.State → b.State
  slept zero s = s
  slept (suc n) s = slept n (b.sleep s)

  -- A wait that starts in one state and stops in another: after at most this many sleeps, as soon as the
  -- condition holds, and not sooner than the time is up if it does not.
  pub record Waited (ends : b.State → Bool) (polls : ℕ) (s s' : b.State) : Type 0 where
    pub sleeps : ℕ
    pub bounded : sleeps ≤ polls
    pub stops : s' ≡ slept sleeps s
    pub before : (n : ℕ) → n < sleeps → ends (slept n s) ≡ false
    pub early : sleeps < polls → ends (slept sleeps s) ≡ true

  at_once :
      (ends : b.State → Bool) (polls : ℕ) (s : b.State) → ends s ≡ true → Waited ends polls s s
  unfolding slept
  at_once ends polls s shows = record {
    sleeps = 0;
    bounded = omega arith;
    stops = refl;
    before = λ n less. absurd (omega arith);
    early = λ less. shows;
  }

  out_of_time : (ends : b.State → Bool) (s : b.State) → Waited ends 0 s s
  unfolding slept
  out_of_time ends s = record {
    sleeps = 0;
    bounded = omega arith;
    stops = refl;
    before = λ n less. absurd (omega arith);
    early = λ less. absurd (omega arith);
  }

  one_sleep :
      (ends : b.State → Bool) (polls : ℕ) (s s' : b.State)
      → ends s ≡ false
      → Waited ends polls (b.sleep s) s'
      → Waited ends (suc polls) s s'
  unfolding slept
  one_sleep ends polls s s' hidden w = record {
    sleeps = suc w.sleeps;
    bounded = ground (arith, w.bounded);
    stops = w.stops;
    before = λ n less. sooner n less;
    early = λ less. w.early (omega arith);
  }
    where
      sooner : (n : ℕ) → n < suc w.sleeps → ends (slept n s) ≡ false
      sooner zero less = hidden
      sooner (suc n) less = w.before n (omega arith)

  other_test :
      (ends test : b.State → Bool) (polls : ℕ) (s s' : b.State)
      → ((c : b.State) → test c ≡ ends c)
      → Waited ends polls s s'
      → Waited test polls s s'
  other_test ends test polls s s' same w = record {
    sleeps = w.sleeps;
    bounded = w.bounded;
    stops = w.stops;
    before = λ n less. same (slept n s) ∙ w.before n less;
    early = λ less. same (slept w.sleeps s) ∙ w.early less;
  }

  poll_member-Waited :
      (polls : ℕ) (pool : Text) (vmid : ℤ) (s : b.State)
      → Waited (λ c. joined b (b.api c) pool vmid) polls s (poll_member b polls pool vmid s)
  unfolding poll_member
  poll_member-Waited zero pool vmid s = out_of_time _ s
  poll_member-Waited (suc n) pool vmid s = elim (Bool-cases (joined b (b.api s) pool vmid)) [
    | inl shows ↦ rw shows (at_once _ (suc n) s shows)
    | inr hidden ↦ rw hidden (one_sleep _ n s _ hidden (poll_member-Waited n pool vmid (b.sleep s)))
  ]

  poll_config-Waited :
      (polls : ℕ) (node kind : Text) (vmid : ℤ) (pre : Map Text) (s : b.State)
      → Waited
          (λ c. changed b (b.api c) node kind vmid pre)
          polls
          s
          (poll_config b polls node kind vmid pre s)
  unfolding poll_config
  poll_config-Waited zero node kind vmid pre s = out_of_time _ s
  poll_config-Waited (suc n) node kind vmid pre s =
      elim (Bool-cases (changed b (b.api s) node kind vmid pre)) [
        | inl shows ↦ rw shows (at_once _ (suc n) s shows)
        | inr hidden ↦
            rw hidden
              (one_sleep _ n s _ hidden (poll_config-Waited n node kind vmid pre (b.sleep s)))
      ]

  -- The wait behind an admitted write, in every case, stops after at most as many sleeps as it has
  -- polls, the first time that the condition holds. If it stops sooner than that, the condition holds.
  pub wait_ends :
      (polls : ℕ) (w : Settle) (s : b.State) → Waited (seen b w) polls s (settle b polls w s)
  unfolding settle
  wait_ends polls settle_none s = at_once _ polls s refl
  wait_ends polls (settle_create vmid pool) s = elim (Bool-cases (is_zero b vmid)) [
    | inl nowhere ↦
        rw nowhere (at_once (seen b (settle_create vmid pool)) polls s (rw nowhere refl))
    | inr there ↦ rw there (
        other_test (λ c. joined b (b.api c) pool vmid) (seen b (settle_create vmid pool)) polls s _
          (λ c. rw there refl) (poll_member-Waited polls pool vmid s))
  ]
  wait_ends polls (settle_guest_mod node kind vmid pre) s = elim (Bool-cases (is_zero b vmid)) [
    | inl nowhere ↦
        rw nowhere
          (at_once (seen b (settle_guest_mod node kind vmid pre)) polls s (rw nowhere refl))
    | inr there ↦ rw there (
        other_test (λ c. changed b (b.api c) node kind vmid pre)
          (seen b (settle_guest_mod node kind vmid pre)) polls s _ (λ c. rw there refl)
          (poll_config-Waited polls node kind vmid pre s))
  ]
