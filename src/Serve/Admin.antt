-- ===== src/Serve/Admin.antt =====
-- cmd/uq-proxy/main.go: the pages of the admin listener, and how the program ends.
use proxmox_user_quota_proxy.Base.{
  Bool, true, false, ◌||◌, Option, none, some, List, [], ◌∷◌, ◌++◌, ℤ, pos, Text, codes, eqb,
  if◌then◌else◌, Float64,
}
use proxmox_user_quota_proxy.Usage.Engine.{Api}
use proxmox_user_quota_proxy.Quota.Store.{Store}
use proxmox_user_quota_proxy.Report.{Entry, broken, report}
use proxmox_user_quota_proxy.Admission.Enforcer.Decide.{Metrics}
use proxmox_user_quota_proxy.Admission.Enforcer.Exposed.{write_metrics}
use proxmox_user_quota_proxy.Writers.{Call}
use proxmox_user_quota_proxy.Serve.{Printer, wrote, http_error}

abbrev pub version : Text
version = codes "0.6.0-p6"

abbrev pub is_broken : Entry → Bool
is_broken broken = true
is_broken _ = false

unfoldable pub any_broken : List Entry → Bool
any_broken [] = false
any_broken (e ∷ es) = is_broken e || any_broken es

module _ (p : Printer) (encode : List Entry → Text) where
  -- The array of the entries; none where a record that is nil stops the handler before it writes.
  abbrev pub entries_page : List Entry → Option (List Call)
  entries_page es = if any_broken es then none else some (wrote p (encode es) ∷ [])

  module _ ⦃fl : Float64⦄ where
    -- usageHandler: the user is that of the query, if any
    unfoldable pub usage_page : Option Store → Option Api → Text → Option (List Call)
    unfolding any_broken report http_error
    usage_page (some store) (some api) user = entries_page (report api store user)
    usage_page _ _ user = some (
        http_error p (codes "accounting not configured (need -quotas and -pve-token-file)")
          (pos 503))

    -- the mux of the admin listener; the last page is that of http.NotFound
    unfoldable pub admin_page :
        Option Store → Option Api → Metrics → (path user : Text) → Option (List Call)
    unfolding usage_page write_metrics http_error eqb
    admin_page store api m path user =
        if eqb path (codes "/healthz")
        then some (wrote p (codes "ok uq-proxy " ++ version ++ codes "\n") ∷ [])
        else if eqb path (codes "/usage")
        then usage_page store api user
        else if eqb path (codes "/metrics")
        then some (wrote p (write_metrics m) ∷ [])
        else some (http_error p (codes "404 page not found") (pos 404))

-- What ListenAndServeTLS reports: http.ErrServerClosed, after a signal, or another error.
pub data Ended : Type 0 where
  server_closed failure : Ended

-- the end of main, as the status of the process
unfoldable pub exit_status : Ended → ℤ
exit_status server_closed = pos 0
exit_status failure = pos 1
