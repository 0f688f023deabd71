-- ===== src/Admission/Enforcer/Exposed.antt =====
-- internal/admission/admission.go, WriteMetrics: the text of the counters.
use proxmox_user_quota_proxy.Base.{[], ◌∷◌, ◌++◌, ℤ, Text, codes, format_int}
use proxmox_user_quota_proxy.Admission.Enforcer.Decide.{Metrics}

abbrev line : Text → Text
line s = s ++ (b'\n' ∷ [])

abbrev counter : Text → ℤ → Text
counter name n = line (name ++ (b' ' ∷ format_int n))

-- WriteMetrics
unfoldable pub write_metrics : Metrics → Text
unfolding format_int
write_metrics m =
    line (codes "# HELP uq_quota_writes_total Quota-relevant writes observed.")
    ++ line (codes "# TYPE uq_quota_writes_total counter")
    ++ counter (codes "uq_quota_writes_total") m.audited
    ++ line (codes "# HELP uq_admission_total Admission decisions for enforced writes.")
    ++ line (codes "# TYPE uq_admission_total counter")
    ++ counter (codes "uq_admission_total{decision=\"allow\"}") m.allowed
    ++ counter (codes "uq_admission_total{decision=\"deny\"}") m.denied
    ++ line (codes "# HELP uq_accounting_errors_total Accounting failures by mode.")
    ++ line (codes "# TYPE uq_accounting_errors_total counter")
    ++ counter (codes "uq_accounting_errors_total{mode=\"fail_open\"}") m.fail_open
    ++ counter (codes "uq_accounting_errors_total{mode=\"fail_closed\"}") m.fail_shut
