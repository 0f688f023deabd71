-- ===== src/Admission/Delta.antt =====
-- internal/admission/delta.go: the increase that a request would cause.
pub mod Merged
pub mod Disks
pub mod Increase
pub mod Positive
pub mod Resized
use proxmox_user_quota_proxy.Base.{
  ◌^◌, Bool, true, false, not, ◌&&◌, ◌||◌, Option, none, some, List, [], ◌∷◌, if◌then◌else◌, ℤ, pos,
  ltb_ℤ, add64, sub64, mul64, Text, codes, eqb, is_empty, is_some, cut_prefix, cut, split,
  trim_space, number, parse_int, Float64, Map, lookup, insert, get, count, add_to,
}
use proxmox_user_quota_proxy.Usage.Disk.{DiskSpec, no_disk, is_disk_key, parse_size, parse_disk}
use proxmox_user_quota_proxy.Usage.Guest.{Usage, atoi_default, total_cores, memory_of}

pub record Delta : Type 0 where
  pub cores : ℤ
  pub memory_mib : ℤ
  pub instances : ℤ
  pub disk_bytes : Map ℤ

-- newDelta
abbrev pub new_delta : Delta
new_delta = record { cores = pos 0; memory_mib = pos 0; instances = pos 0; disk_bytes = [] }

unfoldable pub any_positive : Map ℤ → Bool
any_positive [] = false
any_positive ((st, b) ∷ m) = ltb_ℤ (pos 0) b || any_positive m

-- Delta.positive
unfoldable pub positive : Delta → Bool
unfolding any_positive
positive d =
    (ltb_ℤ (pos 0) d.cores || ltb_ℤ (pos 0) d.memory_mib || ltb_ℤ (pos 0) d.instances)
    || any_positive d.disk_bytes

-- The results of parseCreateDisk.
pub record NewDisk : Type 0 where
  pub storage : Text
  pub bytes : ℤ
  pub cdrom : Bool

abbrev pub no_new_disk : NewDisk
no_new_disk = record { storage = []; bytes = pos 0; cdrom = false }

-- "storage:NN" is NN GiB, where no size is given.
unfoldable pub default_size : Text → NewDisk → NewDisk
default_size rest d =
    if not (ltb_ℤ d.bytes (pos 0)) && not (ltb_ℤ (pos 0) d.bytes) && not d.cdrom
    then elim (parse_int (trim_space rest)) [
      | number n ↦ if ltb_ℤ (pos 0) n then record d { bytes = mul64 n (pos (2 ^ 30)) } else d
      | _ ↦ d
    ]
    else d

module _ ⦃fl : Float64⦄ where
  abbrev sized : NewDisk → Option Text → NewDisk
  sized d none = d
  sized d (some s) = elim (parse_size s) [ none ↦ d | some n ↦ record d { bytes = n } ]

  abbrev disk_option : NewDisk → Text → NewDisk
  disk_option d f =
      let d' = (if eqb f (codes "media=cdrom") then record d { cdrom = true } else d) in
      sized d' (cut_prefix f (codes "size="))

  unfoldable pub new_disk_options : NewDisk → List Text → NewDisk
  new_disk_options d [] = d
  new_disk_options d (f ∷ fs) = new_disk_options (disk_option d (trim_space f)) fs

  abbrev named : Option (Text × Text) → List Text → NewDisk
  named none fs = no_new_disk
  named (some (st, rest)) fs =
      if is_empty st
      then no_new_disk
      else default_size rest (new_disk_options (record no_new_disk { storage = st }) fs)

  -- parseCreateDisk
  unfoldable pub parse_create_disk : Text → NewDisk
  unfolding split trim_space eqb cut new_disk_options parse_size cut_prefix default_size
  parse_create_disk v =
      let first = trim_space (split v b',').0 in
      if is_empty first || eqb first (codes "none")
      then no_new_disk
      else named (cut first b':') (split v b',').1

  unfoldable pub add_new_disk : NewDisk → Map ℤ → Map ℤ
  add_new_disk d dst = if d.cdrom || is_empty d.storage then dst else add_to dst d.storage d.bytes

  -- addDiskParams; the nil map `cur` of a creation holds no key.
  unfoldable pub add_disk_params : Map ℤ → Map Text → Map Text → Map ℤ
  unfolding add_new_disk
  add_disk_params dst [] cur = dst
  add_disk_params dst ((k, v) ∷ p) cur =
      add_disk_params
        (if is_disk_key k && not (is_some (lookup cur k))
          then add_new_disk (parse_create_disk v) dst
          else dst)
        p cur

  -- CreateDelta
  unfoldable pub create_delta : Text → Map Text → Delta
  unfolding total_cores memory_of add_disk_params
  create_delta kind p = record {
    cores = total_cores kind p;
    memory_mib = memory_of p;
    instances = pos 1;
    disk_bytes = add_disk_params [] p [];
  }

-- merge(base, over): `merge_into base over` writes every entry of `over`.
unfoldable pub merge_into : Map Text → Map Text → Map Text
merge_into out [] = out
merge_into out ((k, v) ∷ over) = merge_into (insert out k v) over

unfoldable pub merge : Map Text → Map Text → Map Text
unfolding merge_into
merge base over = merge_into (merge_into [] base) over

-- hasAny
abbrev pub has_any : Map Text → List Text → Bool
has_any m [] = false
has_any m (k ∷ ks) = is_some (lookup m k) || has_any m ks

module _ ⦃fl : Float64⦄ where
  -- ConfigDelta
  unfoldable pub config_delta : Text → Map Text → Map Text → Delta
  unfolding total_cores atoi_default merge add_disk_params
  config_delta kind p cur = record {
    cores =
        if has_any p (codes "sockets" ∷ codes "cores" ∷ [])
        then sub64 (total_cores kind (merge cur p)) (total_cores kind cur)
        else pos 0;
    memory_mib =
        if is_some (lookup p (codes "memory")) then sub64 (memory_of p) (memory_of cur) else pos 0;
    instances = pos 0;
    disk_bytes = add_disk_params [] p cur;
  }

  -- a delta that is one entry of the disk map
  abbrev pub on_storage : Text → ℤ → Delta
  on_storage st n = record new_delta { disk_bytes = (st, n) ∷ [] }

  -- the growth behind a "+", by a size
  abbrev pub grown_by : Text → Option ℤ → Delta
  grown_by st none = new_delta
  grown_by st (some n) = on_storage st n

  -- the growth of the disk `d` to a size
  abbrev pub grown_to : DiskSpec → Option ℤ → Delta
  grown_to d none = new_delta
  grown_to d (some n) =
      if d.has_size && ltb_ℤ d.size n then on_storage d.storage (sub64 n d.size) else new_delta

  -- the growth of the disk `d` to the size `sz`, or by it behind a "+"
  unfoldable pub growth : DiskSpec → Text → Delta
  growth d sz = elim (cut_prefix sz (codes "+")) [
    | some rest ↦ grown_by d.storage (parse_size rest)
    | none ↦ grown_to d (parse_size sz)
  ]

  -- ResizeDelta
  unfoldable pub resize_delta : Map Text → Map Text → Delta
  unfolding get growth parse_disk
  resize_delta p cur =
      let disk = get p (codes "disk") in
      let sz = get p (codes "size") in
      let d = parse_disk (get cur disk) in
      if is_empty disk || is_empty sz || is_empty d.storage then new_delta else growth d sz

-- d.DiskBytes[st] = b for every entry of a map
unfoldable pub copy_all : Map ℤ → Map ℤ → Map ℤ
copy_all m [] = m
copy_all m ((st, b) ∷ ds) = copy_all (insert m st b) ds

-- usageToDelta
unfoldable pub usage_to_delta : Usage → Delta
unfolding copy_all
usage_to_delta u = record {
  cores = u.cores;
  memory_mib = u.memory_mib;
  instances = u.instances;
  disk_bytes = copy_all [] u.disk_bytes;
}

unfoldable pub total_from : ℤ → Map ℤ → ℤ
total_from acc [] = acc
total_from acc ((st, b) ∷ m) = total_from (add64 acc b) m

-- CloneDelta
unfoldable pub clone_delta : Usage → Map Text → Delta
unfolding usage_to_delta total_from get
clone_delta src params =
    let d = record (usage_to_delta src) { instances = pos 1 } in
    let st = get params (codes "storage") in
    if is_empty st then d else record d { disk_bytes = (st, total_from (pos 0) d.disk_bytes) ∷ [] }

-- target - current where that is positive, and no increase otherwise
abbrev pub excess : ℤ → ℤ → ℤ
excess target current = if ltb_ℤ current target then sub64 target current else pos 0

unfoldable pub disk_increase : Map ℤ → Map ℤ → Map ℤ → Map ℤ
disk_increase out [] cur = out
disk_increase out ((st, tb) ∷ target) cur =
    disk_increase (if ltb_ℤ (count cur st) tb then insert out st (sub64 tb (count cur st)) else out)
      target cur

-- IncreaseDelta
unfoldable pub increase_delta : Usage → Usage → Delta
unfolding disk_increase
increase_delta target current = record {
  cores = excess target.cores current.cores;
  memory_mib = excess target.memory_mib current.memory_mib;
  instances = pos 0;
  disk_bytes = disk_increase [] target.disk_bytes current.disk_bytes;
}

-- the volume to move: a container names it otherwise
abbrev pub moved_key : Map Text → Text
moved_key params =
    let disk = get params (codes "disk") in
    if is_empty disk then get params (codes "volume") else disk

module _ ⦃fl : Float64⦄ where
  -- MoveDelta; the guest's kind is not used.
  unfoldable pub move_delta : Map Text → Map Text → Delta
  unfolding get parse_disk eqb
  move_delta params cur =
      let key = moved_key params in
      let target = get params (codes "storage") in
      let d = parse_disk (get cur key) in
      if is_empty key || is_empty target || eqb d.storage target
      then new_delta
      else if d.has_size
      then on_storage target d.size
      else new_delta

  -- StorageAllocDelta
  unfoldable pub storage_alloc_delta : Text → Map Text → Delta
  unfolding get parse_size
  storage_alloc_delta storage params =
      if is_empty storage then new_delta else elim (parse_size (get params (codes "size"))) [
        | none ↦ new_delta
        | some n ↦ if ltb_ℤ (pos 0) n then on_storage storage n else new_delta
      ]
