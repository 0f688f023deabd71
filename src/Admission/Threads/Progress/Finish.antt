-- ===== src/Admission/Threads/Progress/Finish.antt =====
-- How a write under way is brought to its end.
use proxmox_user_quota_proxy.Base.{ℕ, ◌≡◌, false, ◌==◌, Float64}
use proxmox_user_quota_proxy.Audit.{Decoders}
use proxmox_user_quota_proxy.Quota.Store.{Store}
use proxmox_user_quota_proxy.Admission.Enforcer.Handle.{Backend, Enforcer}
use proxmox_user_quota_proxy.Admission.Threads.{idle, World, Step}

module _ (b : Backend) (store : Store) (e : Enforcer) ⦃fl : Float64⦄ (dec : Decoders) where
  -- steps that follow a world
  pub data Run (v : World b store) : World b store → Type 0 where
    at_rest : Run v v
    on : {w x : World b store} → Run v w → Step b store e dec w x → Run v x

  -- Steps after which the goroutine is done, and the others stand where they stood.
  abbrev Ends : World b store → ℕ → Type 0
  Ends v k =
      (w : World b store) × Run v w
      × (w.pc k ≡ idle)
      × ((i : ℕ) → (k == i) ≡ false → w.pc i ≡ v.pc i)

  -- What comes of the others when a goroutine ends: one that is done stays so.
  abbrev pub Finished : World b store → ℕ → Type 0
  Finished v i =
      (w : World b store) × Run v w × (w.pc i ≡ idle) × ((k : ℕ) → v.pc k ≡ idle → w.pc k ≡ idle)
