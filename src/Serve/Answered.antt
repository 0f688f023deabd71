-- ===== src/Serve/Answered.antt =====
-- No record that is nil stops a handler: what the validation of the quota file keeps from the admission
-- and from the page of usage.
use proxmox_user_quota_proxy.Base.{
  ◌≡◌, ◌≢◌, refl, inl, inr, Bool, true, false, Bool-cases, subst, Option, none, some, [], ◌∷◌, List,
  map, Text, Float64, is_empty, is_some, if◌then◌else◌,
}
use proxmox_user_quota_proxy.Classify
use proxmox_user_quota_proxy.Classify.{classify}
use proxmox_user_quota_proxy.Identity.{from_request}
use proxmox_user_quota_proxy.Audit.{Decoders}
use proxmox_user_quota_proxy.Usage.Engine.{Api, user_usage, Result, ok, err}
use proxmox_user_quota_proxy.Usage.Guest.{Usage}
use proxmox_user_quota_proxy.Quota.Config.{UserQuota, Config}
use proxmox_user_quota_proxy.Quota.Store.{
  Store, FileRead, Tick, open_store, watch, get_quota, user_ids,
}
use proxmox_user_quota_proxy.Quota.Store.Reload.{found-Proper}
use proxmox_user_quota_proxy.Report.{Entry, of_usage, of_record, entry_of, report}
use proxmox_user_quota_proxy.Admission.Enforcer.Decide.{Decision, allow, deny}
use proxmox_user_quota_proxy.Admission.Enforcer.Handle.{
  Request, Backend, Enforcer, Answer, forwarded, refused, panicked, System, pass, refuse, act,
  admit, found, enforced, handle_unknown, handle_classified, handle, is_unknown, is_pool_edit,
  exempt, closed_to, count_audited,
}
use proxmox_user_quota_proxy.Serve.{Printer, Upstream, backend, calls_of, serve_http}
use proxmox_user_quota_proxy.Serve.Admin.{is_broken, any_broken, usage_page}

-- Every user that is found has a record.
abbrev pub NoNil : Store → Type 0
NoNil store = (user : Text) → get_quota store user ≢ some none

abbrev is_panicked : Answer → Bool
is_panicked panicked = true
is_panicked _ = false

module _ (b : Backend) (e : Enforcer) ⦃fl : Float64⦄ (dec : Decoders) where
  act-answers :
      (d : Decision) (t : Text) (r : Request) (s : System b)
      → is_panicked (act b e d t r s).1 ≡ false
  unfolding act refuse
  act-answers (deny reason) t r s = refl
  act-answers (allow st) t r s = refl

  found-answers :
      (o : Option (Option UserQuota)) (user : Text) (res : Classify.Result) (r : Request)
      (s : System b)
      → o ≢ some none
      → is_panicked (found b e dec o user res r s).1 ≡ false
  unfolding found refuse admit
  found-answers none user res r s h = refl
  found-answers (some none) user res r s h = absurd (h refl)
  found-answers (some (some q)) user res r s h = act-answers _ res.envelope r _

  enforced-answers :
      (o : Option Store) (user : Text) (res : Classify.Result) (r : Request) (s : System b)
      → ((store : Store) → o ≡ some store → NoNil store)
      → is_panicked (enforced b e dec o user res r s).1 ≡ false
  unfolding enforced refuse pass
  enforced-answers none user res r s h = refl
  enforced-answers (some store) user res r s h = elim (Bool-cases (is_pool_edit res.action)) [
    | inl edit ↦ rw edit
    | inr other ↦ rw other (found-answers (get_quota store user) user res r s (h store refl user))
  ]

  unknown-answers :
      (user : Text) (res : Classify.Result) (r : Request) (s : System b)
      → is_panicked (handle_unknown b e user res r s).1 ≡ false
  unfolding handle_unknown pass refuse
  unknown-answers user res r s = elim (Bool-cases (closed_to b e user)) [
    | inl closed ↦ rw closed
    | inr open_door ↦ rw open_door
  ]

  handle-answers :
      (r : Request) (s : System b)
      → ((store : Store) → e.store ≡ some store → NoNil store)
      → is_panicked (handle b e dec r s).1 ≡ false
  unfolding handle handle_classified pass
  handle-answers r s h =
      let user = (from_request r.credentials).user in
      let res = classify r.method r.path in
      elim (Bool-cases (is_unknown res.action)) [
        | inl unknown ↦ rw unknown (unknown-answers user res r s)
        | inr known ↦ rw known (elim (Bool-cases res.quota_relevant) [
          | inr irrelevant ↦ simp irrelevant
          | inl relevant ↦ simp relevant (elim (Bool-cases (exempt b e user res.action)) [
            | inl exempted ↦ rw exempted
            | inr subject ↦ rw subject (enforced-answers e.store user res r (count_audited b s) h)
          ])
        ])
      ]

-- An opened store, whatever the file becomes, finds no nil record.
watch-NoNil :
    (yaml : Text → Option Config) (f : FileRead) (s : Store) (ts : List Tick)
    → open_store yaml f ≡ some s
    → NoNil (watch yaml s ts)
watch-NoNil yaml f s ts opens user is_nil = found-Proper yaml f s ts user none opens is_nil

module _ ⦃fl : Float64⦄ (api : Api) (store : Store) (h : NoNil store) where
  usage-unbroken :
      (user : Text) (q : UserQuota) (x : Result Usage)
      → is_broken (of_usage api store user q x) ≡ false
  usage-unbroken user q (ok u) = refl
  usage-unbroken user q (err e) = refl

  record-unbroken :
      (user : Text) (o : Option (Option UserQuota))
      → o ≢ some none
      → is_broken (of_record api store user o) ≡ false
  record-unbroken user none found = refl
  record-unbroken user (some none) found = absurd (found refl)
  record-unbroken user (some (some q)) found = usage-unbroken user q (user_usage api q.pool)

  entry_of-unbroken : (user : Text) → is_broken (entry_of api store user) ≡ false
  unfolding entry_of
  entry_of-unbroken user = record-unbroken user (get_quota store user) (h user)

  entries-unbroken : (users : List Text) → any_broken (map (entry_of api store) users) ≡ false
  unfolding any_broken
  entries-unbroken [] = refl
  entries-unbroken (user ∷ users) = rw (entry_of-unbroken user, entries-unbroken users)

module _ (p : Printer) (encode : List Entry → Text) ⦃fl : Float64⦄ where
  usage_page-answers :
      (store : Store) (api : Api) (user : Text)
      → NoNil store
      → is_some (usage_page p encode (some store) (some api) user) ≡ true
  unfolding usage_page report
  usage_page-answers store api user h =
      let whole =
        entries-unbroken api store h (if is_empty user then user_ids store else user ∷ []) in
      rw whole

  calls_of-answers :
      (u : Upstream) (r : Request) (c : u.State) (a : Answer)
      → is_panicked a ≡ false
      → is_some (calls_of p u r c a) ≡ true
  unfolding calls_of
  calls_of-answers u r c (forwarded status) h = refl
  calls_of-answers u r c (refused status reason) h = refl
  calls_of-answers u r c panicked h = absurd (cc)

  module _ (u : Upstream) (e : Enforcer) (dec : Decoders) (yaml : Text → Option Config) where
    -- With the store that opened the quota file, after any sequence of reloads and whatever the file was
    -- at each of them: the handler of every request makes the calls of an answer, or of the part before the
    -- break where the answer of the cluster breaks off, and the page of usage answers every query, in a
    -- proxy with an engine. No record that is missing from the file stops a handler.
    pub always_answered :
        (f : FileRead) (opened : Store) (ts : List Tick)
        → open_store yaml f ≡ some opened
        → e.store ≡ some (watch yaml opened ts)
        → (remote upgrade : Text) (r : Request) (s : System (backend p u)) (api : Api) (user : Text)
        → (is_some (serve_http p u e dec remote upgrade r s).calls ≡ true)
          × (is_some (usage_page p encode (some (watch yaml opened ts)) (some api) user) ≡ true)
    unfolding serve_http
    always_answered f opened ts opens held remote upgrade r s api user =
        let sound = watch-NoNil yaml f opened ts opens in
        let kept : (store : Store) → e.store ≡ some store → NoNil store =
          (λ store is. let same : watch yaml opened ts ≡ store = cc in subst NoNil same sound) in
        (
          calls_of-answers u r s.cluster _ (handle-answers (backend p u) e dec r s kept),
          usage_page-answers (watch yaml opened ts) api user sound,
        )
