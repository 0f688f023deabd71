-- ===== src/Start/Wired.antt =====
-- What a proxy that has started can rely on.
use proxmox_user_quota_proxy.Base.{
  ℕ, ◌≡◌, refl, sym, ap, subst, ◌∙◌, ◌&&◌, ◌||◌, not, Bool, true, false, Option, none, some, arith,
  inl, inr, Bool-cases, Text, is_some, is_empty,
}
use proxmox_user_quota_proxy.Quota.Config.{Config}
use proxmox_user_quota_proxy.Quota.Store.{Store}
use proxmox_user_quota_proxy.Start.{
  with_tls, unbacked, unenforced, Stage, exits, goes, ◌>>◌, ◌>>=◌, Flags, Host, Server, Tls, Client,
  Url, tls_config, connect, Forwarder, serve, stop_if, built, expected, main, admins_of,
  new_enforcer, target_url, read_ca, load_quotas, new_client, new_forwarder,
}

-- Of a server that main has set up: the enforcer enforces only with a quota store and an engine, the
-- strict modes only run with enforcement, the admins are those of the file, and the accounting reads
-- from the cluster that requests go to, with the same trust in its certificate.
pub record Wired (h : Host) (yaml : Text → Option Config) (s : Server) : Type 0 where
  pub engine : s.enforcer.has_engine ≡ is_some s.client
  pub store : s.enforcer.store ≡ s.store
  pub admins : s.enforcer.admins ≡ admins_of h yaml s.store
  pub enforcing : s.enforcer.enforce ≡ true → (is_some s.store ≡ true) × (is_some s.client ≡ true)
  pub closed : s.enforcer.fail_closed ≡ true → s.enforcer.enforce ≡ true
  pub denying : s.enforcer.default_deny ≡ true → s.enforcer.enforce ≡ true
  pub same_cluster :
      (c : Client) → s.client ≡ some c → (c.base ≡ s.forwarder.target) × (c.tls ≡ s.forwarder.tls)

bind-goes {ℓ κ ι} :
    {A : Type ℓ} {B : Type κ} (P : Type ι) (m : Stage A) (f : A → Stage B) (b : B)
    → (m >>= f) ≡ goes b
    → ((a : A) → m ≡ goes a → f a ≡ goes b → P)
    → P
bind-goes P (exits n) f b h next = absurd (cc)
bind-goes P (goes a) f b h next = next a refl h

after-goes {ℓ κ ι} :
    {A : Type ℓ} {B : Type κ} (P : Type ι) (m : Stage A) (n : Stage B) (b : B)
    → (m >> n) ≡ goes b
    → ((a : A) → m ≡ goes a → n ≡ goes b → P)
    → P
after-goes P (exits k) n b h next = absurd (cc)
after-goes P (goes a) n b h next = next a refl h

passed : (b c : Bool) → stop_if b ≡ goes c → b ≡ false
passed true c h = absurd (cc)
passed false c h = refl

goes_injective {ℓ} : {A : Type ℓ} (a b : A) → ◌≡◌ {A = Stage A} (goes a) (goes b) → a ≡ b
goes_injective a b h = cc

some_injective {ℓ} : {A : Type ℓ} (a b : A) → some a ≡ some b → a ≡ b
some_injective a b h = cc

built-goes {ℓ} : {A : Type ℓ} (o : Option A) (a : A) → built o ≡ goes a → o ≡ some a
built-goes none a h = absurd (cc)
built-goes (some x) a h = cc

expected-goes {ℓ} : {A : Type ℓ} (o : Option A) (a : A) → expected o ≡ goes a → o ≡ some a
expected-goes none a h = absurd (cc)
expected-goes (some x) a h = cc

backing : (e s c : Bool) → (e && (not s || not c)) ≡ false → e ≡ true → (s ≡ true) × (c ≡ true)
backing e s c h on = ground arith

first : (c d e : Bool) → ((c || d) && not e) ≡ false → c ≡ true → e ≡ true
first c d e h on = ground arith

second : (c d e : Bool) → ((c || d) && not e) ≡ false → d ≡ true → e ≡ true
second c d e h on = ground arith

module _ (h : Host) (yaml : Text → Option Config) (polls : ℕ) (f : Flags) where
  -- at this cluster, with the trust that these flags and certificates mean
  abbrev At : Url → Text → Url → Tls → Type 0
  At target ca url tls = (url ≡ target) × (some tls ≡ tls_config h f.upstream_insecure ca)

  connect-At :
      (target : Url) (ca : Text) (c : Client)
      → connect h f target ca ≡ goes c
      → At target ca c.base c.tls
  unfolding connect
  connect-At target ca c e = bind-goes _ (expected (h.file f.pve_token_file)) _ c e (λ token _ e'.
      bind-goes _ (expected (tls_config h f.upstream_insecure ca)) _ c e' (λ tls t ends.
        let trust = expected-goes (tls_config h f.upstream_insecure ca) tls t in
        let one = goes_injective _ c ends in
        (
          sym (ap (λ (x : Client). x.base) one),
          ap some (sym (ap (λ (x : Client). x.tls) one)) ∙ sym trust,
        )))

  new_client-At :
      (target : Url) (ca : Text) (c : Client)
      → new_client h f target ca ≡ goes (some c)
      → At target ca c.base c.tls
  unfolding new_client
  new_client-At target ca c e = elim (Bool-cases (is_empty f.pve_token_file)) [
    | inl unused ↦ let bad : goes none ≡ goes (some c) = rw unused at e in absurd (cc)
    | inr used ↦
        bind-goes _ (connect h f target ca) (λ a. goes (some a)) (some c) (rw used at e)
          (λ a made ends.
            let one = some_injective a c (goes_injective _ _ ends) in
            connect-At target ca c (made ∙ ap goes one))
  ]

  with_tls_lem :
      (target : Url) (o : Option Tls) (w : Forwarder)
      → with_tls h target o ≡ some w
      → (w.target ≡ target) × (some w.tls ≡ o)
  with_tls_lem target none w e = absurd (cc)
  with_tls_lem target (some tls) w e =
      let one = some_injective _ w e in
      (
        sym (ap (λ (x : Forwarder). x.target) one),
        ap some (sym (ap (λ (x : Forwarder). x.tls) one)),
      )

  serve-Wired :
      (target : Url) (ca : Text) (store : Option Store) (client : Option Client) (s : Server)
      → new_client h f target ca ≡ goes client
      → serve h yaml polls f target ca store client ≡ goes s
      → Wired h yaml s
  unfolding serve new_enforcer new_forwarder
  serve-Wired target ca store client s made e =
      after-goes _ (stop_if (unbacked h yaml f store client)) _ s e (λ b p e1.
        after-goes _ (stop_if (unenforced h yaml f)) _ s e1 (λ b' p' e2.
          bind-goes _ (built (new_forwarder h target ca f.upstream_insecure)) _ s e2
            (λ w built_it ends.
              let there = with_tls_lem target _ w (built-goes _ w built_it) in
              let backed = passed (unbacked h yaml f store client) b p in
              let strict = passed (unenforced h yaml f) b' p' in
              subst (Wired h yaml) (goes_injective _ s ends) (record {
                engine = refl;
                store = refl;
                admins = refl;
                enforcing = λ on. backing f.enforce (is_some store) (is_some client) backed on;
                closed = λ on. first f.fail_closed f.default_deny f.enforce strict on;
                denying = λ on. second f.fail_closed f.default_deny f.enforce strict on;
                same_cluster = λ c is.
                    let reads = new_client-At target ca c (made ∙ ap goes is) in
                    (reads.0 ∙ sym there.0, some_injective c.tls w.tls (reads.1 ∙ sym there.1));
              }))))

  -- Every server that main sets up is wired: the enforcer enforces only with a quota store and an
  -- engine, the strict modes only run with enforcement, the admins are those of the quota file, and
  -- the accounting reads from the cluster that requests go to, with the same trust in certificates.
  pub main-Wired : (s : Server) → main h yaml polls f ≡ goes s → Wired h yaml s
  unfolding main
  main-Wired s e = after-goes _ _ _ s e (λ b p e1.
      bind-goes _ (target_url h f) _ s e1 (λ target _ e2.
        bind-goes _ (read_ca h f) _ s e2 (λ ca _ e3.
          bind-goes _ (load_quotas h yaml f) _ s e3 (λ store _ e4.
            bind-goes _ (new_client h f target ca) _ s e4
              (λ client made e5. serve-Wired target ca store client s made e5)))))
