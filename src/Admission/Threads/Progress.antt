-- ===== src/Admission/Threads/Progress.antt =====
-- How far a goroutine is from its end, and the steps that bring it closer.
pub mod Finish
use proxmox_user_quota_proxy.Base.{
  ℕ, suc, zero, ◌≡◌, refl, ◌<◌, ◌+◌, ◌≢◌, Text, ◌⊎◌, inl, inr, Bool, true, false, some, arith,
  Bool-cases, ◌==◌, ==_refl, pos, leb_ℤ, Float64,
}
use proxmox_user_quota_proxy.Audit.{Decoders}
use proxmox_user_quota_proxy.Quota.Store.{Store}
use proxmox_user_quota_proxy.Admission.Enforcer.Decide.{Metrics, Decision, allow, deny}
use proxmox_user_quota_proxy.Admission.Enforcer.Handle.{seen, Backend, Enforcer, System}
use proxmox_user_quota_proxy.Admission.Threads.{
  update, Job, user_of, Pc, idle, queued, locked, sending, settling, World, decision, status, Step,
  lock, denied, admitted, failed, sent, settled, polled, timed_out, Reach,
}
use proxmox_user_quota_proxy.Admission.Threads.Exclusion.{inside, waits_for_own}

-- How many steps a goroutine has left at most, with this many polls for each wait.
unfoldable pub left : {store : Store} → ℕ → Pc store → ℕ
left polls idle = 0
left polls (queued j m) = polls + 4
left polls (locked j m) = polls + 3
left polls (sending j m st) = polls + 2
left polls (settling j m st n) = n + 1

-- no more before the lock
abbrev pub past : {store : Store} → Pc store → Bool
past (queued j m) = false
past _ = true

module _ (b : Backend) (store : Store) (e : Enforcer) ⦃fl : Float64⦄ (dec : Decoders) where
  -- This goroutine can take a step, which brings it closer to its end and leaves the others where
  -- they are.
  abbrev pub Goes : World b store → ℕ → Type 0
  Goes v k =
      (w : World b store) × Step b store e dec v w
      × (left e.polls (w.pc k) < left e.polls (v.pc k))
      × (past (w.pc k) ≡ true)
      × ((i : ℕ) → (k == i) ≡ false → w.pc i ≡ v.pc i)

  -- a step that puts the goroutine at another place
  goes :
      (v w : World b store) (k : ℕ) (p : Pc store)
      → Step b store e dec v w
      → w.pc ≡ update v.pc k p
      → left e.polls p < left e.polls (v.pc k)
      → past p ≡ true
      → Goes v k
  goes v w k p step moves less on_way = (
    w,
    step,
    rw (moves, ==_refl k) less,
    rw (moves, ==_refl k) on_way,
    λ i other. rw (moves, other) refl,
  )

  decided_goes :
      (v : World b store) (k m : ℕ) (j : Job store) (d : Decision) (mt : Metrics)
      → v.pc k ≡ locked j m
      → decision b store e dec v.sys j ≡ (d, mt)
      → Goes v k
  unfolding left
  decided_goes v k m j (allow st) mt at d =
      goes v _ k (sending j m st) (admitted k j m st mt at d) refl (rw at (ground arith)) refl
  decided_goes v k m j (deny reason) mt at d =
      goes v _ k idle (denied k j m reason mt at d) refl (rw at (ground arith)) refl

  -- A goroutine behind the lock can go on.
  pub inside_goes :
      (v : World b store) (k : ℕ) (p : Pc store)
      → v.pc k ≡ p
      → (u : Text) × (inside p ≡ some u)
      → Goes v k
  unfolding left
  inside_goes v k idle at (u, h) = cc
  inside_goes v k (queued j m) at (u, h) = cc
  inside_goes v k (locked j m) at h = decided_goes v k m j _ _ at refl
  inside_goes v k (sending j m st) at h =
      elim (Bool-cases (leb_ℤ (pos 300) (status b store e dec v.sys j))) [
        | inl bad ↦ goes v _ k idle (failed k j m st at bad) refl (rw at (ground arith)) refl
        | inr good ↦
            goes v _ k (settling j m st e.polls) (sent k j m st at good) refl (rw at (ground arith))
              refl
      ]
  inside_goes v k (settling j m st zero) at h =
      goes v _ k idle (timed_out k j m st at) refl (rw at (ground arith)) refl
  inside_goes v k (settling j m st (suc n)) at h = elim (Bool-cases (seen b st v.sys.cluster)) [
    | inl shows ↦ goes v _ k idle (settled k j m st n at shows) refl (rw at (ground arith)) refl
    | inr hidden ↦
        goes v _ k (settling j m st n) (polled k j m st n at hidden) refl (rw at (ground arith))
          refl
  ]
