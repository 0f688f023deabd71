-- ===== src/Tests/Pages.antt =====
-- The page of the small cluster, and a config with a snapshot.
use proxmox_user_quota_proxy.Usage.Guest.{atoi_default, disk_gib, add_disk}
use proxmox_user_quota_proxy.Usage.Disk.{is_disk_key, parse_disk}
use proxmox_user_quota_proxy.Usage.Engine.{user_usage}
use proxmox_user_quota_proxy.Quota.Store.{get_quota, user_ids}
use proxmox_user_quota_proxy.Base.{
  IsMap, Map, Text, is_space, trim_left, trim_right, eqb, lookup, All, parse_int, add64, quot,
  add_to, get, add_all, mul64, split, cut, trim_space, insert, has_prefix, ◌≡◌, refl, ◌↔◌, false,
  [], ◌∷◌, ◌++◌, arith, pos, ◌≤ℤ◌, ◌+ℤ◌, codes,
}
use proxmox_user_quota_proxy.Pve.{conf_line, conf_lines, parse_conf_text}
use proxmox_user_quota_proxy.Pve.Printed.{IsEntry, print_conf, print_conf-read_back}
use proxmox_user_quota_proxy.Report.{
  storage_over, entry_of, any_storage_over, reported, over_quota, report,
}
use proxmox_user_quota_proxy.Report.Exact.{Roundable, ListedWithin, over_quota_exact}
use proxmox_user_quota_proxy.Tests.Fixtures.{whole, small_api, used, limits, store, joe}

used-Roundable : All Roundable used.disk_bytes
unfolding ◌+ℤ◌
used-Roundable = ((ground arith, ground arith), tt)

over_quota_exact_example : (over_quota used limits ≡ false) ↔ (
    (pos 2 ≤ℤ pos 4)
    × (pos 2048 ≤ℤ pos 4096)
    × (pos 1 ≤ℤ pos 2)
    × All (ListedWithin limits.disk_gib) used.disk_bytes)
over_quota_exact_example = over_quota_exact used limits used-Roundable

-- a config of two lines
abbrev backup : Map Text
backup = (codes "cores", codes "2") ∷ (codes "name", codes "my vm") ∷ []

backup-IsMap : IsMap backup
unfolding lookup eqb
backup-IsMap = (refl, (refl, tt))

entries : All IsEntry backup
unfolding is_space trim_left trim_right
entries = (
  (ground arith, record { one_line = ground arith; given = refl; left = refl; right = refl }),
  ((ground arith, record { one_line = ground arith; given = refl; left = refl; right = refl }), tt),
)

print_conf-read_back_example :
    lookup (parse_conf_text (print_conf backup ++ b'\n' ∷ b'[' ∷ codes "snap]")) (codes "name")
    ≡ lookup backup (codes "name")
print_conf-read_back_example =
    print_conf-read_back backup (codes "snap]") (codes "name") backup-IsMap entries

cores_read : parse_conf_text (codes "cores: 2") ≡ (codes "cores", codes "2") ∷ []
unfolding parse_conf_text conf_lines conf_line trim_space split has_prefix cut insert
cores_read = refl

reports_joe :
    report small_api store [] ≡ reported joe limits used ((codes "local", pos 10) ∷ []) false ∷ []
unfolding report user_ids entry_of get_quota lookup eqb user_usage add64 is_disk_key disk_gib
    over_quota add_disk parse_disk parse_int mul64 atoi_default add_all get add_to any_storage_over
    insert quot storage_over
reports_joe = refl
