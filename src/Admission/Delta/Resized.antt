-- ===== src/Admission/Delta/Resized.antt =====
-- The increase of a resize and the disks whose config has no size.
use mathlib.Core.Option
use proxmox_user_quota_proxy.Base.{
  ◌≡◌, ◌∙◌, true, false, Option, none, some, [], ◌∷◌, arith, Bool-cases, Option-cases, inl, inr, ℤ,
  pos, IsInt64, add64, add64-sub64, add64_comm, add64-zero, ltb_ℤ, Text, codes, eqb, eqb_refl,
  is_empty, cut_prefix, Float64, Map, lookup, count, get,
}
use proxmox_user_quota_proxy.Usage.Disk.{DiskSpec, parse_size, parse_disk}
use proxmox_user_quota_proxy.Admission.Delta.{grown_by, grown_to, growth, resize_delta}
use proxmox_user_quota_proxy.Admission.Delta.Increase.{max_ℤ}

module _ ⦃fl : Float64⦄ where
  -- The size that a disk has after a resize: behind a `+`, a size to add, and otherwise the size to
  -- reach, where that is larger. `none` is a text that is no size.
  abbrev pub size_after : DiskSpec → Text → Option ℤ
  size_after d sz = elim (cut_prefix sz (codes "+")) [
    | some rest ↦ Option.map (λ n. add64 d.size n) (parse_size rest)
    | none ↦ Option.map (λ n. max_ℤ d.size n) (parse_size sz)
  ]

  stays : (a : ℤ) → IsInt64 a → add64 a (pos 0) ≡ a
  stays a h = add64_comm a (pos 0) ∙ add64-zero a h

  counted : (st : Text) (n : ℤ) → count ((st, n) ∷ []) st ≡ n
  unfolding count lookup
  counted st n = rw (eqb_refl st)

  added_by :
      (o : Option ℤ) (st : Text) (size m : ℤ)
      → Option.map (λ n. add64 size n) o ≡ some m
      → add64 size (count (grown_by st o).disk_bytes st) ≡ m
  added_by none st size m h = absurd (cc)
  added_by (some n) st size m h = rw (counted st n) (ground arith)

  raised_to :
      (o : Option ℤ) (d : DiskSpec) (m : ℤ)
      → d.has_size ≡ true
      → IsInt64 d.size
      → IsInt64 m
      → Option.map (λ n. max_ℤ d.size n) o ≡ some m
      → add64 d.size (count (grown_to d o).disk_bytes d.storage) ≡ m
  unfolding count lookup
  raised_to none d m sized hd hm h = absurd (cc)
  raised_to (some n) d m sized hd hm h = elim (Bool-cases (ltb_ℤ d.size n)) [
    | inl larger ↦
        let same : n ≡ m = ground arith in
        rw (sized, larger, eqb_refl d.storage) (rw same (add64-sub64 d.size m hm))
    | inr smaller ↦
        let same : d.size ≡ m = ground arith in rw (sized, smaller) (stays d.size hd ∙ same)
  ]

  growth_reaches :
      (d : DiskSpec) (sz : Text) (m : ℤ)
      → d.has_size ≡ true
      → IsInt64 d.size
      → IsInt64 m
      → size_after d sz ≡ some m
      → add64 d.size (count (growth d sz).disk_bytes d.storage) ≡ m
  unfolding growth
  growth_reaches d sz m sized hd hm asks = elim (Option-cases (cut_prefix sz (codes "+"))) [
    | inr (rest, plus) ↦
        rw (growth, plus)
          (added_by (parse_size rest) d.storage d.size m (rw (size_after, plus) at asks))
    | inl absolute ↦
        rw (growth, absolute)
          (raised_to (parse_size sz) d m sized hd hm (rw (size_after, absolute) at asks))
  ]

  growth_elsewhere :
      (d : DiskSpec) (sz st : Text)
      → eqb d.storage st ≡ false
      → count (growth d sz).disk_bytes st ≡ pos 0
  unfolding growth count lookup
  growth_elsewhere d sz st other = ground arith

  -- the disk that a resize names
  abbrev pub named_disk : Map Text → Map Text → DiskSpec
  named_disk p cur = parse_disk (get cur (get p (codes "disk")))

  -- With the increase of a resize, of a disk whose config names a storage and a size, the disk has the
  -- size that the request asks for, or its own where that is larger, and no other storage grows: where
  -- that size and the current one are integers of 64 bits.
  pub resize_reaches :
      (p cur : Map Text) (m : ℤ) (st : Text)
      → is_empty (get p (codes "disk")) ≡ false
      → is_empty (get p (codes "size")) ≡ false
      → is_empty (named_disk p cur).storage ≡ false
      → (named_disk p cur).has_size ≡ true
      → IsInt64 (named_disk p cur).size
      → IsInt64 m
      → size_after (named_disk p cur) (get p (codes "size")) ≡ some m
      → eqb (named_disk p cur).storage st ≡ false
      → (add64
            (named_disk p cur).size
            (count (resize_delta p cur).disk_bytes (named_disk p cur).storage)
          ≡ m)
        × (count (resize_delta p cur).disk_bytes st ≡ pos 0)
  unfolding resize_delta
  resize_reaches p cur m st disk size storage sized hd hm asks other =
      rw (disk, size, storage)
        (
          growth_reaches (named_disk p cur) (get p (codes "size")) m sized hd hm asks,
          growth_elsewhere (named_disk p cur) (get p (codes "size")) st other,
        )
