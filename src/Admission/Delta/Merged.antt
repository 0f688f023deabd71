-- ===== src/Admission/Delta/Merged.antt =====
-- The increase of a config edit, compared with what the accounting computes of the edited config.
use proxmox_user_quota_proxy.Base.{
  ◌≡◌, refl, sym, ap, ◌∙◌, false, Option, none, some, [], ◌∷◌, arith, if◌then◌else◌, Bool-cases,
  inl, inr, ℤ, pos, IsInt64, add64, add64_comm, add64-zero, add64-sub64, mul64-IsInt64, Text, codes,
  eqb, eqb_iff, or_else, is_some, is_empty, trim_space, Parsed, number, parse_int,
  parse_int-IsInt64, Float64, Map, IsMap, lookup, insert, lookup-insert, get,
}
use proxmox_user_quota_proxy.Usage.Guest.{atoi_default, total_cores, memory_of}
use proxmox_user_quota_proxy.Admission.Delta.{has_any, merge_into, merge, config_delta}

-- The value of a key where the second map has it, and else that of the first.
abbrev pub override : Option Text → Option Text → Option Text
override base none = base
override base (some v) = some v

lookup-merge_into :
    (out over : Map Text) (k : Text)
    → IsMap over
    → lookup (merge_into out over) k ≡ override (lookup out k) (lookup over k)
unfolding merge_into lookup
lookup-merge_into out [] k h = refl
lookup-merge_into out ((j, v) ∷ over) k (fresh, h) =
    ground
      (arith, lookup-merge_into (insert out j v) over k h, lookup-insert out j v k, eqb_iff j k)

-- A merged map has the values of the second, and else those of the first.
pub lookup-merge :
    (base over : Map Text) (k : Text)
    → IsMap base
    → IsMap over
    → lookup (merge base over) k ≡ override (lookup base k) (lookup over k)
unfolding merge
lookup-merge base over k hb ho =
    rw (lookup-merge_into (merge_into [] base) over k ho, lookup-merge_into [] base k hb)
      (unfold lookup in ground arith)

get-merge :
    (base over : Map Text) (k : Text)
    → IsMap base
    → IsMap over
    → get (merge base over) k ≡ (if is_some (lookup over k) then get over k else get base k)
unfolding get
get-merge base over k hb ho = ground (arith, lookup-merge base over k hb ho)

number_or-IsInt64 :
    (o : Parsed ℤ) (def : ℤ)
    → ((n : ℤ) → o ≡ number n → IsInt64 n)
    → IsInt64 def
    → IsInt64 (elim o [ number n ↦ n | _ ↦ def ])
number_or-IsInt64 (number n) def h d = h n refl
number_or-IsInt64 _ def h d = d

atoi_default-IsInt64 : (s : Text) (def : ℤ) → IsInt64 def → IsInt64 (atoi_default s def)
unfolding atoi_default
atoi_default-IsInt64 s def h = elim (Bool-cases (is_empty s)) [
  | inl empty ↦ rw empty h
  | inr some_text ↦
      rw some_text
        (number_or-IsInt64 (parse_int (trim_space s)) def (parse_int-IsInt64 (trim_space s)) h)
]

total_cores-IsInt64 : (kind : Text) (cfg : Map Text) → IsInt64 (total_cores kind cfg)
unfolding total_cores
total_cores-IsInt64 kind cfg = elim (Bool-cases (eqb kind (codes "qemu"))) [
  | inl qemu ↦ rw qemu (mul64-IsInt64 _ _)
  | inr lxc ↦ rw lxc (atoi_default-IsInt64 _ (pos 0) (omega arith))
]

memory_of-IsInt64 : (cfg : Map Text) → IsInt64 (memory_of cfg)
unfolding memory_of
memory_of-IsInt64 cfg = atoi_default-IsInt64 _ (pos 512) (omega arith)

add64_right_zero : (a : ℤ) → IsInt64 a → add64 a (pos 0) ≡ a
add64_right_zero a h = add64_comm a (pos 0) ∙ add64-zero a h

total_cores-merge :
    (kind : Text) (p cur : Map Text)
    → IsMap p
    → IsMap cur
    → has_any p (codes "sockets" ∷ codes "cores" ∷ []) ≡ false
    → total_cores kind (merge cur p) ≡ total_cores kind cur
unfolding total_cores
total_cores-merge kind p cur hp hc untouched =
    ground (arith, get-merge cur p (codes "sockets") hc hp, get-merge cur p (codes "cores") hc hp)

memory_of-merge :
    (p cur : Map Text)
    → IsMap p
    → IsMap cur
    → memory_of (merge cur p)
      ≡ (if is_some (lookup p (codes "memory")) then memory_of p else memory_of cur)
unfolding memory_of
memory_of-merge p cur hp hc = ground (arith, get-merge cur p (codes "memory") hc hp)

module _ ⦃fl : Float64⦄ (kind : Text) (p cur : Map Text) (hp : IsMap p) (hc : IsMap cur) where
  cores_predicted :
      total_cores kind (merge cur p) ≡ add64 (total_cores kind cur) (config_delta kind p cur).cores
  unfolding config_delta
  cores_predicted = elim (Bool-cases (has_any p (codes "sockets" ∷ codes "cores" ∷ []))) [
    | inl edited ↦ rw edited (
        sym (
          add64-sub64 (total_cores kind cur) (total_cores kind (merge cur p))
            (total_cores-IsInt64 kind (merge cur p))))
    | inr untouched ↦ rw untouched (
        total_cores-merge kind p cur hp hc untouched
        ∙ sym (add64_right_zero (total_cores kind cur) (total_cores-IsInt64 kind cur)))
  ]

  memory_predicted :
      memory_of (merge cur p) ≡ add64 (memory_of cur) (config_delta kind p cur).memory_mib
  unfolding config_delta
  memory_predicted = elim (Bool-cases (is_some (lookup p (codes "memory")))) [
    | inl edited ↦
        rw (memory_of-merge p cur hp hc, edited)
          (sym (add64-sub64 (memory_of cur) (memory_of p) (memory_of-IsInt64 p)))
    | inr untouched ↦
        rw (memory_of-merge p cur hp hc, untouched)
          (sym (add64_right_zero (memory_of cur) (memory_of-IsInt64 cur)))
  ]

-- What cores and memory of a config are depends on its values alone.
total_cores-agree :
    (kind : Text) (a b : Map Text)
    → ((k : Text) → get a k ≡ get b k)
    → total_cores kind a ≡ total_cores kind b
unfolding total_cores
total_cores-agree kind a b same = ground (arith, same (codes "sockets"), same (codes "cores"))

memory_of-agree : (a b : Map Text) → ((k : Text) → get a k ≡ get b k) → memory_of a ≡ memory_of b
unfolding memory_of
memory_of-agree a b same = rw (same (codes "memory"))

-- A config with the values of an edit, and elsewhere those of the current config, is the merged one.
edited-get :
    (p cur edited : Map Text)
    → IsMap p
    → IsMap cur
    → ((k : Text) → lookup edited k ≡ override (lookup cur k) (lookup p k))
    → (k : Text) → get edited k ≡ get (merge cur p) k
unfolding get
edited-get p cur edited hp hc edits k =
    ap (λ o. or_else o []) (edits k ∙ sym (lookup-merge cur p k hc hp))

-- Let a config edit delete no key: the edited config has, at every key, the value of the edit where the
-- edit has one, and else that of the current config. Then the cores and the memory that the accounting
-- computes of the edited config are those of the current one and the increase, added as the accounting
-- adds them, wrapped around or not: where no key stands twice in the edit or in the current config.
pub config_delta_predicts :
    ⦃fl : Float64⦄ (kind : Text) (p cur edited : Map Text)
    → IsMap p
    → IsMap cur
    → ((k : Text) → lookup edited k ≡ override (lookup cur k) (lookup p k))
    → (total_cores kind edited ≡ add64 (total_cores kind cur) (config_delta kind p cur).cores)
      × (memory_of edited ≡ add64 (memory_of cur) (config_delta kind p cur).memory_mib)
config_delta_predicts kind p cur edited hp hc edits =
    let same = edited-get p cur edited hp hc edits in
    (
      total_cores-agree kind edited (merge cur p) same ∙ cores_predicted kind p cur hp hc,
      memory_of-agree edited (merge cur p) same ∙ memory_predicted kind p cur hp hc,
    )
