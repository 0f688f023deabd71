-- ===== src/Usage/Guest.antt =====
-- internal/usage/usage.go: the resources that a guest's config allocates.
pub mod Totals
use proxmox_user_quota_proxy.Base.{
  ◌/◌, ◌^◌, ◌+◌, Bool, not, ◌||◌, Option, none, some, List, [], ◌∷◌, ◌++◌, map, if◌then◌else◌, ℤ,
  pos, add64, mul64, quot, Text, codes, eqb, is_empty, trim_space, number, parse_int, Float64, Map,
  get, count, add_to, add_all,
}
use proxmox_user_quota_proxy.Usage.Disk.{DiskSpec, is_disk_key, parse_disk}

-- Usage: a total of cores, memory, guests, and bytes on each storage.
pub record Usage : Type 0 where
  pub cores : ℤ
  pub memory_mib : ℤ
  pub instances : ℤ
  pub disk_bytes : Map ℤ

-- A disk whose size the config does not tell.
pub record UnusedRef : Type 0 where
  pub storage : Text
  pub volid : Text

pub record Resources : Type 0 where
  pub cores : ℤ
  pub memory_mib : ℤ
  pub disks : Map ℤ
  pub unused : List UnusedRef

-- b bytes in whole GiB, rounded up, as Usage.DiskGiB computes it
unfoldable pub disk_gib_of : ℤ → ℤ
disk_gib_of b = quot (add64 (add64 b (pos (2 ^ 30))) (ℤ.negsuc 0)) (2 ^ 30)

-- Usage.DiskGiB
unfoldable pub disk_gib : Usage → Map ℤ
unfolding disk_gib_of
disk_gib u = map (λ (e : Text × ℤ). (e.0, disk_gib_of e.1)) u.disk_bytes

-- atoiDefault, and atoiDef of the package admission
unfoldable pub atoi_default : Text → ℤ → ℤ
atoi_default s def =
    if is_empty s then def else elim (parse_int (trim_space s)) [ number n ↦ n | _ ↦ def ]

-- The cores that a config asks for; of a container with no entry, none are counted.
unfoldable pub total_cores : Text → Map Text → ℤ
total_cores kind cfg =
    if eqb kind (codes "qemu")
    then mul64 (atoi_default (get cfg (codes "sockets")) (pos 1))
        (atoi_default (get cfg (codes "cores")) (pos 1))
    else atoi_default (get cfg (codes "cores")) (pos 0)

unfoldable pub memory_of : Map Text → ℤ
memory_of cfg = atoi_default (get cfg (codes "memory")) (pos 512)

unfoldable pub add_disk : DiskSpec → Resources → Resources
add_disk d r =
    if d.cdrom || is_empty d.storage
    then r
    else if d.has_size
    then record r { disks = add_to r.disks d.storage d.size }
    else if not (is_empty d.volid)
    then record r { unused = r.unused ++ record { storage = d.storage; volid = d.volid } ∷ [] }
    else r

module _ ⦃fl : Float64⦄ where
  -- the loop over the config
  unfoldable pub add_disks : Map Text → Resources → Resources
  add_disks [] r = r
  add_disks ((k, v) ∷ cfg) r =
      add_disks cfg (if is_disk_key k then add_disk (parse_disk v) r else r)

  -- GuestResources
  unfoldable pub guest_resources : Text → Map Text → Resources
  unfolding total_cores memory_of add_disks
  guest_resources kind cfg =
      add_disks cfg (record {
        cores = total_cores kind cfg;
        memory_mib = memory_of cfg;
        disks = [];
        unused = [];
      })

module _ ⦃fl : Float64⦄ where
  -- ConfigUsage
  unfoldable pub config_usage : Text → Map Text → Usage
  unfolding guest_resources add_all
  config_usage kind cfg =
      let r = guest_resources kind cfg in
      record {
        cores = r.cores;
        memory_mib = r.memory_mib;
        instances = pos 1;
        disk_bytes = add_all [] r.disks;
      }
