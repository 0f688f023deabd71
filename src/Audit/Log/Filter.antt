-- ===== src/Audit/Log/Filter.antt =====
-- Which parameters of a write are logged.
use proxmox_user_quota_proxy.Base.{
  ◌≡◌, refl, sym, ap, ◌∙◌, Bool, true, false, ◌&&◌, Option, none, some, [], ◌∷◌, ◌++◌,
  if◌then◌else◌, Text, codes, eqb, eqb_iff, is_empty, Map, lookup, Bool-cases, inl, inr,
}
use proxmox_user_quota_proxy.Classify
use proxmox_user_quota_proxy.Identity.{Identity}
use proxmox_user_quota_proxy.Audit.{is_restore, is_resource_key, resource_params}
use proxmox_user_quota_proxy.Audit.Log.{
  Value, text, flag, group, unless_empty, restore_flag, resource_group, is_create, phase_text,
  details, emit,
}

abbrev pub grouped : Option Value → Map Text
grouped none = []
grouped (some (text t)) = []
grouped (some (flag b)) = []
grouped (some (group m)) = m

-- the resources in a log record
unfoldable pub logged : Map Value → Map Text
unfolding lookup
logged attrs = grouped (lookup attrs (codes "resources"))

unlisted :
    (k : Text) (x y : Option Text)
    → is_resource_key k ≡ false
    → (if is_resource_key k then x else none) ≡ (if is_resource_key k then y else none)
unlisted k x y h = rw h refl

lookup-resource_params :
    (m : Map Text) (k : Text)
    → lookup (resource_params m) k ≡ (if is_resource_key k then lookup m k else none)
unfolding resource_params lookup
lookup-resource_params [] k = elim (Bool-cases (is_resource_key k)) [
  | inl kept ↦ rw kept refl
  | inr dropped ↦ rw dropped refl
]
lookup-resource_params ((j, v) ∷ m) k = elim (Bool-cases (is_resource_key j)) [
  | inl kept ↦ rw kept (elim (Bool-cases (eqb j k)) [
    | inl same ↦
        let jk : j ≡ k = (eqb_iff j k).0 same in
        let kept_k : is_resource_key k ≡ true = rw jk at kept in rw (same, kept_k) refl
    | inr other ↦ rw other (lookup-resource_params m k)
  ])
  | inr dropped ↦ rw dropped (elim (Bool-cases (eqb j k)) [
    | inl same ↦ rw same (
        let jk : j ≡ k = (eqb_iff j k).0 same in
        let dropped_k : is_resource_key k ≡ false = rw jk at dropped in
        lookup-resource_params m k ∙ unlisted k (lookup m k) (some v) dropped_k)
    | inr other ↦
        let skip : lookup ((j, v) ∷ m) k ≡ lookup m k = rw other refl in
        lookup-resource_params m k ∙ ap (λ x. if is_resource_key k then x else none) (sym skip)
  ])
]

lookup-unless_empty :
    (key value : Text) (m : Map Value)
    → eqb key (codes "resources") ≡ false
    → lookup (unless_empty key value ++ m) (codes "resources") ≡ lookup m (codes "resources")
unfolding lookup
lookup-unless_empty key value m other = elim (Bool-cases (is_empty value)) [
  | inl empty ↦ rw empty refl
  | inr full ↦ rw (full, other) refl
]

lookup-restore_flag :
    (b : Bool) (m : Map Value)
    → lookup (restore_flag b ++ m) (codes "resources") ≡ lookup m (codes "resources")
unfolding lookup eqb
lookup-restore_flag true m = refl
lookup-restore_flag false m = refl

grouped-resource_group :
    (m : Map Text) → grouped (lookup (resource_group m) (codes "resources")) ≡ m
unfolding lookup eqb
grouped-resource_group [] = refl
grouped-resource_group (e ∷ m) = refl

lookup-details :
    (id : Identity) (res : Classify.Result) (ps : Map Text)
    → lookup (details id res ps) (codes "resources")
      ≡ lookup (resource_group (resource_params ps)) (codes "resources")
unfolding details eqb
lookup-details id res ps =
    let group_part : Map Value = resource_group (resource_params ps) in
    let restored = is_create res.action && is_restore ps in
    let after_storage : Map Value = restore_flag restored ++ group_part in
    let after_vmid : Map Value = unless_empty (codes "storage") res.storage ++ after_storage in
    let after_node : Map Value = unless_empty (codes "vmid") res.vmid ++ after_vmid in
    let after_guest : Map Value = unless_empty (codes "node") res.node ++ after_node in
    let after_token : Map Value = unless_empty (codes "guest") res.guest_kind ++ after_guest in
    let after_phase : Map Value = unless_empty (codes "token") id.token ++ after_token in
    lookup-unless_empty (codes "phase") (phase_text res.phase) after_phase refl
    ∙ lookup-unless_empty (codes "token") id.token after_token refl
    ∙ lookup-unless_empty (codes "guest") res.guest_kind after_guest refl
    ∙ lookup-unless_empty (codes "node") res.node after_node refl
    ∙ lookup-unless_empty (codes "vmid") res.vmid after_vmid refl
    ∙ lookup-unless_empty (codes "storage") res.storage after_storage refl
    ∙ lookup-restore_flag restored group_part

logged-emit :
    (id : Identity) (res : Classify.Result) (ps : Map Text)
    → logged (emit id res ps) ≡ grouped (lookup (details id res ps) (codes "resources"))
unfolding logged emit lookup eqb
logged-emit id res ps = refl

pub emit_resources :
    (id : Identity) (res : Classify.Result) (ps : Map Text) (k : Text)
    → lookup (logged (emit id res ps)) k ≡ (if is_resource_key k then lookup ps k else none)
emit_resources id res ps k =
    rw
      (logged-emit id res ps, lookup-details id res ps, grouped-resource_group (resource_params ps))
      (lookup-resource_params ps k)
