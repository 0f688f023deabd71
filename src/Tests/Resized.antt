-- ===== src/Tests/Resized.antt =====
-- A disk that grows by 5 GiB.
use proxmox_user_quota_proxy.Base.{
  trim_space, ◌^◌, ◌*◌, ◌≡◌, refl, some, [], ◌∷◌, arith, pos, Text, codes, Map, lookup, get, count,
  add64, cut_prefix, parse_int, mul64,
}
use proxmox_user_quota_proxy.Usage.Disk.{parse_disk, parse_size}
use proxmox_user_quota_proxy.Admission.Delta.{resize_delta}
use proxmox_user_quota_proxy.Admission.Delta.Resized.{named_disk, size_after, resize_reaches}
use proxmox_user_quota_proxy.Tests.Fixtures.{whole, guest}

abbrev five_more : Map Text
five_more = (codes "disk", codes "scsi0") ∷ (codes "size", codes "+5G") ∷ []

five_more_asked : size_after (named_disk five_more guest) (codes "+5G") ≡ some (pos (15 * 2 ^ 30))
unfolding cut_prefix parse_size trim_space parse_int add64 parse_disk get lookup mul64
five_more_asked = refl

resize_reaches_example :
    (add64 (pos (10 * 2 ^ 30)) (count (resize_delta five_more guest).disk_bytes (codes "local"))
      ≡ pos (15 * 2 ^ 30))
    × (count (resize_delta five_more guest).disk_bytes (codes "fast") ≡ pos 0)
unfolding parse_disk get lookup parse_int mul64
resize_reaches_example =
    resize_reaches five_more guest (pos (15 * 2 ^ 30)) (codes "fast") refl refl refl refl
      (omega arith, omega arith) (omega arith, omega arith) five_more_asked refl
