-- ===== src/Audit/Log/Accounted.antt =====
-- What the log keeps of the parameters that the accounting reads.
use proxmox_user_quota_proxy.Base.{
  ℕ, ◌≡◌, refl, sym, ap, ◌∙◌, subst, inl, inr, Bool, true, false, ◌||◌, none, List, [], ◌∷◌, ◌++◌,
  arith, Bool-cases, Option-cases, All, Text, codes, eqb, eqb_iff, is_digit, cut_prefix,
  cut_prefix-append, cut_prefix_sound, lower, to_lower, Map, lookup,
}
use proxmox_user_quota_proxy.Classify
use proxmox_user_quota_proxy.Classify.{one_of}
use proxmox_user_quota_proxy.Identity.{Identity}
use proxmox_user_quota_proxy.Usage.Disk
use proxmox_user_quota_proxy.Usage.Disk.{
  all_digits_of, prefixed, any_prefixed, disk_prefixes, is_disk_key,
}
use proxmox_user_quota_proxy.Audit.{
  digits_only, all_digits, is_indexed, indexed_prefixes, is_resource_key,
}
use proxmox_user_quota_proxy.Audit.Log.{emit}
use proxmox_user_quota_proxy.Audit.Log.Filter.{logged, emit_resources}

-- The parameters that internal/admission and IsRestore read by their name, but for `volume`.
abbrev pub accounted_keys : List Text
accounted_keys =
    codes "cores"
    ∷ codes "sockets"
    ∷ codes "memory"
    ∷ codes "disk"
    ∷ codes "size"
    ∷ codes "storage"
    ∷ codes "vmid"
    ∷ codes "newid"
    ∷ codes "archive"
    ∷ codes "restore"
    ∷ codes "ostemplate"
    ∷ []

-- What the comment of resourceParams and its test want left out.
abbrev pub private_keys : List Text
private_keys =
    codes "password"
    ∷ codes "cipassword"
    ∷ codes "sshkeys"
    ∷ codes "ssh-public-keys"
    ∷ codes "description"
    ∷ codes "name"
    ∷ codes "tags"
    ∷ []

-- A parameter that the accounting reads: by its name, or as a disk.
pub data IsAccounted (k : Text) : Type 0 where
  named : one_of k accounted_keys ≡ true → IsAccounted k
  disk : is_disk_key k ≡ true → IsAccounted k

-- What holds of the members of a list holds of a key that is one of them.
member_has {ℓ} :
    (P : Text → Type ℓ) (ks : List Text) (k : Text) → All P ks → one_of k ks ≡ true → P k
unfolding one_of
member_has P [] k h there = cc
member_has P (j ∷ ks) k (h, hs) there = elim (Bool-cases (eqb k j)) [
  | inl same ↦ subst P (sym ((eqb_iff k j).0 same)) h
  | inr other ↦ member_has P ks k hs (rw other at there)
]

accounted_keys-listed : All (λ k. is_resource_key k ≡ true) accounted_keys
unfolding is_resource_key
accounted_keys-listed =
    (refl, (refl, (refl, (refl, (refl, (refl, (refl, (refl, (refl, (refl, (refl, tt)))))))))))

private_keys-unlisted : All (λ k. is_resource_key k ≡ false) private_keys
unfolding is_resource_key
private_keys-unlisted = (refl, (refl, (refl, (refl, (refl, (refl, (refl, tt)))))))

lower-digit : (c : ℕ) → is_digit c ≡ true → lower c ≡ c
unfolding is_digit lower
lower-digit c h = ground arith

to_lower-digits : (s : Text) → all_digits_of s ≡ true → to_lower s ≡ s
unfolding to_lower
to_lower-digits [] h = refl
to_lower-digits (c ∷ s) h = elim (Bool-cases (is_digit c)) [
  | inl digit ↦
      let others : all_digits_of s ≡ true = rw digit at h in
      rw (lower-digit c digit, to_lower-digits s others) refl
  | inr other ↦ cc (rw other at h)
]

to_lower-append : (s t : Text) → to_lower (s ++ t) ≡ to_lower s ++ to_lower t
unfolding to_lower
to_lower-append [] t = refl
to_lower-append (c ∷ s) t = ap (◌∷◌ (lower c)) (to_lower-append s t)

-- the two packages test digits alike
digits_agree : (s : Text) → digits_only s ≡ all_digits_of s
digits_agree [] = refl
digits_agree (c ∷ s) = rw (digits_agree s) refl

all_digits-agree : (s : Text) → all_digits s ≡ Disk.all_digits s
unfolding all_digits Disk.all_digits
all_digits-agree s = rw (digits_agree s) refl

all_digits-digits : (s : Text) → Disk.all_digits s ≡ true → all_digits_of s ≡ true
unfolding Disk.all_digits
all_digits-digits [] h = cc
all_digits-digits (c ∷ s) h = h

or_right : (a b : Bool) → b ≡ true → (a || b) ≡ true
or_right a b h = ground arith

member_indexed :
    (ps : List Text) (p rest : Text)
    → one_of p ps ≡ true
    → all_digits rest ≡ true
    → is_indexed (p ++ rest) ps ≡ true
unfolding one_of
member_indexed [] p rest there digits = cc
member_indexed (j ∷ ps) p rest there digits = elim (Bool-cases (eqb p j)) [
  | inl same ↦
      let pj : p ≡ j = (eqb_iff p j).0 same in rw (pj, cut_prefix-append j rest, digits) refl
  | inr other ↦ or_right _ _ (member_indexed ps p rest (rw other at there) digits)
]

-- A prefix in lower case that the log lists.
abbrev Listed : Text → Type 0
Listed p = (to_lower p ≡ p) × (one_of p indexed_prefixes ≡ true)

disk_prefixes-Listed : All Listed disk_prefixes
unfolding to_lower lower one_of eqb
disk_prefixes-Listed = (
  (refl, refl),
  ((refl, refl), ((refl, refl), ((refl, refl), ((refl, refl), ((refl, refl), tt))))),
)

Listed-indexed :
    (p rest : Text)
    → Listed p
    → Disk.all_digits rest ≡ true
    → is_indexed (to_lower (p ++ rest)) indexed_prefixes ≡ true
Listed-indexed p rest (small, listed) digits =
    let lowered : to_lower (p ++ rest) ≡ p ++ rest =
      to_lower-append p rest
      ∙ ap (λ s. s ++ to_lower rest) small
      ∙ ap (λ s. p ++ s) (to_lower-digits rest (all_digits-digits rest digits)) in
    ap (λ s. is_indexed s indexed_prefixes) lowered
    ∙ member_indexed indexed_prefixes p rest listed (all_digits-agree rest ∙ digits)

prefixed-indexed :
    (k p : Text) → Listed p → prefixed k p ≡ true → is_indexed (to_lower k) indexed_prefixes ≡ true
prefixed-indexed k p listed has = elim (Option-cases (cut_prefix k p)) [
  | inl none_it ↦ cc (rw (prefixed, none_it) at has)
  | inr (rest, cuts) ↦
      let digits : Disk.all_digits rest ≡ true = rw (prefixed, cuts) at has in
      subst (λ s. is_indexed (to_lower s) indexed_prefixes ≡ true)
        (sym (cut_prefix_sound k p rest cuts)) (Listed-indexed p rest listed digits)
]

any_prefixed-indexed :
    (k : Text) (ps : List Text)
    → All Listed ps
    → any_prefixed k ps ≡ true
    → is_indexed (to_lower k) indexed_prefixes ≡ true
any_prefixed-indexed k [] hs has = cc
any_prefixed-indexed k (p ∷ ps) (h, hs) has = elim (Bool-cases (prefixed k p)) [
  | inl this ↦ prefixed-indexed k p h this
  | inr later ↦ any_prefixed-indexed k ps hs (rw later at has)
]

abbrev named_disks : List Text
named_disks = codes "rootfs" ∷ codes "efidisk0" ∷ codes "tpmstate0" ∷ []

named_disks-listed : All (λ k. is_resource_key k ≡ true) named_disks
unfolding is_resource_key
named_disks-listed = (refl, (refl, (refl, tt)))

indexed-listed :
    (k : Text) → is_indexed (to_lower k) indexed_prefixes ≡ true → is_resource_key k ≡ true
unfolding is_resource_key
indexed-listed k h = or_right _ _ h

disk-listed : (k : Text) → is_disk_key k ≡ true → is_resource_key k ≡ true
unfolding is_disk_key one_of
disk-listed k h = elim (Bool-cases (any_prefixed k disk_prefixes)) [
  | inl indexed ↦
      indexed-listed k (any_prefixed-indexed k disk_prefixes disk_prefixes-Listed indexed)
  | inr other ↦
      let there : one_of k named_disks ≡ true = ground arith in
      member_has (λ j. is_resource_key j ≡ true) named_disks k named_disks-listed there
]

accounted-listed : (k : Text) → IsAccounted k → is_resource_key k ≡ true
accounted-listed k (named h) =
    member_has (λ j. is_resource_key j ≡ true) accounted_keys k accounted_keys-listed h
accounted-listed k (disk h) = disk-listed k h

-- Of the parameters of a write, the log has every one that the accounting reads, by its name or as a
-- disk, with its value, but for `volume`, which names the volume of a container that is moved. And the
-- log has nothing under the keys of passwords and of SSH keys, `description`, `name` and `tags`.
pub emit_accounted :
    (id : Identity) (res : Classify.Result) (ps : Map Text) (k hidden : Text)
    → IsAccounted k
    → one_of hidden private_keys ≡ true
    → (lookup (logged (emit id res ps)) k ≡ lookup ps k)
      × (lookup (logged (emit id res ps)) hidden ≡ none)
emit_accounted id res ps k hidden accounted private_key =
    let kept = accounted-listed k accounted in
    let dropped =
      member_has (λ j. is_resource_key j ≡ false) private_keys hidden private_keys-unlisted
        private_key in
    (emit_resources id res ps k ∙ rw kept refl, emit_resources id res ps hidden ∙ rw dropped refl)
