-- ===== src/Pve/Client/Failures.antt =====
-- What a failed read of the client means for a write.
use proxmox_user_quota_proxy.Base.{
  ◌≡◌, Bool, true, false, ◌||◌, none, some, ℤ, pos, add64, Text, codes, eqb, is_empty, Float64,
}
use proxmox_user_quota_proxy.Classify
use proxmox_user_quota_proxy.Admission.Delta.{Delta}
use proxmox_user_quota_proxy.Admission.Enforcer.Decide.{
  Metrics, because, Settle, Decision, allow, deny,
}
use proxmox_user_quota_proxy.Pve.Client.{Fetched, failed, response, Library, is_ok}

module _ ⦃fl : Float64⦄ (lib : Library) (base token : Text) where
  -- What a request for the members of a pool may come to other than a listing: no response, a status
  -- other than 200, a body without an envelope, or data that are no listing.
  pub data Unusable : Fetched → Type 0 where
    lost : (why : Text) → Unusable (failed why)
    refused :
        (status : ℤ) (line body : Text)
        → is_ok status ≡ false
        → Unusable (response status line body)
    garbled :
        (status : ℤ) (line body : Text)
        → lib.data_of body ≡ none
        → Unusable (response status line body)
    mistyped :
        (status : ℤ) (line body raw : Text)
        → lib.data_of body ≡ some (some raw)
        → (is_empty raw || eqb raw (codes "null")) ≡ false
        → lib.pool raw ≡ none
        → Unusable (response status line body)

  -- The policy for a failure: refused and counted as shut with the strict mode, admitted and counted as
  -- open without it.
  abbrev pub FailedAs : (closed : Bool) → Metrics → Decision × Metrics → Type 0
  FailedAs true m x = x ≡ (
    deny (because (codes "usage computation failed")),
    record m { fail_shut = add64 m.fail_shut (pos 1) },
  )
  FailedAs false m x =
      (st : Settle) × (x ≡ (allow st, record m { fail_open = add64 m.fail_open (pos 1) }))
