-- ===== src/Usage/Guest/Totals.antt =====
-- The bytes that a guest's config allocates, as sums over its disks, whatever order Go visits the
-- config in.
use mathlib.Core.List.{Perm, filter_map}
use mathlib.Core.List.Perm
use proxmox_user_quota_proxy.Base.{
  ◌≡◌, refl, sym, ap, ◌∙◌, Bool, not, ◌&&◌, ◌||◌, Option, none, some, [], ◌∷◌, arith, if◌then◌else◌,
  ℤ, IsInt64, Text, is_empty, Float64, Map, count, add_to, add_all, sum_on, count-add_all_nil,
  sum_on-perm, subst, sum_on-IsInt64, add_all-IsMap, count-add_all_copy, IsMap,
}
use proxmox_user_quota_proxy.Usage.Disk.{DiskSpec, is_disk_key, parse_disk}
use proxmox_user_quota_proxy.Usage.Guest.{
  Resources, add_disk, add_disks, guest_resources, config_usage,
}

module _ ⦃fl : Float64⦄ where
  -- A disk that is counted: no CD-ROM, with a storage and a size.
  abbrev pub is_sized : DiskSpec → Bool
  is_sized d = not (d.cdrom || is_empty d.storage) && d.has_size

  -- The storage and the size that an entry of a config adds.
  unfoldable pub sized_disk : Text × Text → Option (Text × ℤ)
  sized_disk (k, v) =
      let d = parse_disk v in if is_disk_key k && is_sized d then some (d.storage, d.size) else none

  -- The storages and sizes of a config's disks, in order.
  unfoldable pub sized_disks : Map Text → Map ℤ
  unfolding filter_map sized_disk
  sized_disks = filter_map sized_disk

  disks-add_disk :
      (d : DiskSpec) (r : Resources)
      → (add_disk d r).disks ≡ (if is_sized d then add_to r.disks d.storage d.size else r.disks)
  unfolding add_disk
  disks-add_disk d r = ground arith

  disks-add_disks :
      (cfg : Map Text) (r : Resources) → (add_disks cfg r).disks ≡ add_all r.disks (sized_disks cfg)
  unfolding add_disks sized_disks add_all
  disks-add_disks [] r = refl
  disks-add_disks ((k, v) ∷ cfg) r = ground (
    arith,
    disks-add_disk (parse_disk v) r,
    disks-add_disks cfg (if is_disk_key k then add_disk (parse_disk v) r else r),
  )

  -- The bytes on a storage that a guest's resources hold are the sum of its sized disks there.
  pub guest_disks_total :
      (kind : Text) (cfg : Map Text) (st : Text)
      → count (guest_resources kind cfg).disks st ≡ sum_on st (sized_disks cfg)
  unfolding guest_resources
  guest_disks_total kind cfg st =
      ap (λ m. count m st) (disks-add_disks cfg _) ∙ count-add_all_nil (sized_disks cfg) st

  sized_disks-perm :
      (cfg cfg' : Map Text) → Perm cfg cfg' → Perm (sized_disks cfg) (sized_disks cfg')
  unfolding sized_disks
  sized_disks-perm cfg cfg' p = Perm.filter_map sized_disk p

  guest_disks-IsMap : (kind : Text) (cfg : Map Text) → IsMap (guest_resources kind cfg).disks
  unfolding guest_resources
  guest_disks-IsMap kind cfg =
      subst IsMap (sym (disks-add_disks cfg _)) (add_all-IsMap [] (sized_disks cfg) tt)

  pub config_usage_total :
      (kind : Text) (cfg : Map Text) (st : Text)
      → count (config_usage kind cfg).disk_bytes st ≡ sum_on st (sized_disks cfg)
  unfolding config_usage
  config_usage_total kind cfg st =
      count-add_all_copy (guest_resources kind cfg).disks st (guest_disks-IsMap kind cfg)
        (subst IsInt64 (sym (guest_disks_total kind cfg st)) (sum_on-IsInt64 st (sized_disks cfg)))
      ∙ guest_disks_total kind cfg st

  -- The footprint of a config holds, on every storage, the sum of the config's sized disks there,
  -- whatever order Go visits the config in.
  pub footprint_total :
      (kind : Text) (cfg cfg' : Map Text) (st : Text)
      → Perm cfg cfg'
      → count (config_usage kind cfg').disk_bytes st ≡ sum_on st (sized_disks cfg)
  footprint_total kind cfg cfg' st p =
      config_usage_total kind cfg' st ∙ sym (sum_on-perm st (sized_disks-perm cfg cfg' p))
