-- ===== src/Admission/Delta/Disks.antt =====
-- The disks that a creation or a config edit adds, as sums over the parameters, whatever order Go
-- visits them in.
use mathlib.Core.List.{Perm, filter_map}
use mathlib.Core.List.Perm
use proxmox_user_quota_proxy.Base.{
  ◌≡◌, refl, sym, ap, ◌∙◌, not, ◌&&◌, ◌||◌, Option, none, some, [], ◌∷◌, arith, if◌then◌else◌, ℤ,
  Text, is_some, is_empty, Float64, Map, lookup, count, add_to, add_all, sum_on, sum_on-perm,
  count-add_all_nil,
}
use proxmox_user_quota_proxy.Usage.Disk.{is_disk_key}
use proxmox_user_quota_proxy.Admission.Delta.{
  parse_create_disk, add_disk_params, create_delta, config_delta,
}

module _ ⦃fl : Float64⦄ where
  -- The storage and the size that a parameter adds: it names a disk that the guest does not have yet,
  -- and no CD-ROM.
  unfoldable pub new_disk : Map Text → Text × Text → Option (Text × ℤ)
  new_disk cur (k, v) =
      let d = parse_create_disk v in
      if is_disk_key k && not (is_some (lookup cur k)) && not (d.cdrom || is_empty d.storage)
      then some (d.storage, d.bytes)
      else none

  unfoldable pub new_disks : Map Text → Map Text → Map ℤ
  unfolding filter_map new_disk
  new_disks cur = filter_map (new_disk cur)

  add_disk_params-all :
      (dst : Map ℤ) (p cur : Map Text) → add_disk_params dst p cur ≡ add_all dst (new_disks cur p)
  unfolding add_disk_params new_disks add_all
  add_disk_params-all dst [] cur = refl
  add_disk_params-all dst ((k, v) ∷ p) cur = ground (
    arith,
    add_disk_params-all dst p cur,
    add_disk_params-all (add_to dst (parse_create_disk v).storage (parse_create_disk v).bytes) p
        cur,
  )

  params_total :
      (p cur : Map Text) (st : Text)
      → count (add_disk_params [] p cur) st ≡ sum_on st (new_disks cur p)
  params_total p cur st =
      ap (λ m. count m st) (add_disk_params-all [] p cur) ∙ count-add_all_nil (new_disks cur p) st

  new_disks-perm : (cur p p' : Map Text) → Perm p p' → Perm (new_disks cur p) (new_disks cur p')
  unfolding new_disks
  new_disks-perm cur p p' h = Perm.filter_map (new_disk cur) h

  pub config_delta_disks :
      (kind : Text) (p p' cur : Map Text) (st : Text)
      → Perm p p'
      → (count (config_delta kind p cur).disk_bytes st ≡ sum_on st (new_disks cur p))
        × (count (config_delta kind p' cur).disk_bytes st ≡ sum_on st (new_disks cur p))
  unfolding config_delta
  config_delta_disks kind p p' cur st h = (
    params_total p cur st,
    params_total p' cur st ∙ sym (sum_on-perm st (new_disks-perm cur p p' h)),
  )

  pub create_delta_disks :
      (kind : Text) (p p' : Map Text) (st : Text)
      → Perm p p'
      → (count (create_delta kind p).disk_bytes st ≡ sum_on st (new_disks [] p))
        × (count (create_delta kind p').disk_bytes st ≡ sum_on st (new_disks [] p))
  unfolding create_delta
  create_delta_disks kind p p' st h = (
    params_total p [] st,
    params_total p' [] st ∙ sym (sum_on-perm st (new_disks-perm [] p p' h)),
  )

  -- The bytes that a config edit, or a creation, adds to a storage are the sum of its new disks there,
  -- whatever order Go visits the parameters in.
  pub delta_disks :
      (kind : Text) (p p' cur : Map Text) (st : Text)
      → Perm p p'
      → (count (config_delta kind p' cur).disk_bytes st ≡ sum_on st (new_disks cur p))
        × (count (create_delta kind p').disk_bytes st ≡ sum_on st (new_disks [] p))
  delta_disks kind p p' cur st h =
      ((config_delta_disks kind p p' cur st h).1, (create_delta_disks kind p p' st h).1)
