-- ===== src/Start.antt =====
-- cmd/uq-proxy/main.go: main, from the flags to the handler that it serves. The constructors that it
-- calls are those of internal/admission, internal/proxy and internal/pve.
pub mod Wired
use proxmox_user_quota_proxy.Base.{
  ℕ, ◌≡◌, Bool, true, false, not, ◌&&◌, ◌||◌, Option, none, some, List, [], ◌∷◌, if◌then◌else◌, ℤ,
  pos, Text, is_empty, is_some, trim_space,
}
use proxmox_user_quota_proxy.Quota.Config.{Config}
use proxmox_user_quota_proxy.Quota.Store.{Store, FileRead, open_store, admin_ids}
use proxmox_user_quota_proxy.Admission.Enforcer.Handle.{Enforcer}

-- os.Exit with a status, or the next value.
pub data Stage {ℓ} (A : Type ℓ) : Type ℓ where
  exits : (status : ℤ) → Stage A
  goes : A → Stage A

infixl 5 ◌>>=◌
abbrev pub ◌>>=◌ {ℓ κ} : {A : Type ℓ} {B : Type κ} → Stage A → (A → Stage B) → Stage B
exits n >>= f = exits n
goes a >>= f = f a

infixl 5 ◌>>◌
abbrev pub ◌>>◌ {ℓ κ} : {A : Type ℓ} {B : Type κ} → Stage A → Stage B → Stage B
exits n >> m = exits n
goes a >> m = m

-- the flags, after flag.Parse
pub record Flags : Type 0 where
  pub upstream : Text
  pub tls_cert : Text
  pub tls_key : Text
  pub upstream_ca : Text
  pub upstream_insecure : Bool
  pub quotas : Text
  pub pve_token_file : Text
  pub enforce : Bool
  pub fail_closed : Bool
  pub default_deny : Bool

pub record Url : Type 0 where
  pub scheme : Text
  pub host : Text
  pub path : Text

-- What the standard library answers: url.Parse, os.ReadFile, the reading of the quota file, and
-- whether AppendCertsFromPEM finds a certificate.
pub record Host : Type 0 where
  pub parse_url : Text → Option Url
  pub file : Text → Option Text
  pub quota_file : Text → FileRead
  pub has_certificates : Text → Bool

-- tls.Config; without roots, those of the system are used
pub record Tls : Type 0 where
  pub insecure : Bool
  pub roots : Option Text

-- pve.Client
pub record Client : Type 0 where
  pub base : Url
  pub token : Text
  pub tls : Tls

-- httputil.ReverseProxy, as proxy.New sets it up
pub record Forwarder : Type 0 where
  pub target : Url
  pub tls : Tls

-- What main builds before it listens.
pub record Server : Type 0 where
  pub enforcer : Enforcer
  pub store : Option Store
  pub client : Option Client
  pub forwarder : Forwarder

-- an exit with status 2
abbrev pub stop_if : Bool → Stage Bool
stop_if b = if b then exits (pos 2) else goes b

abbrev pub expected {ℓ} : {A : Type ℓ} → Option A → Stage A
expected none = exits (pos 2)
expected (some a) = goes a

-- an exit with status 1
abbrev pub built {ℓ} : {A : Type ℓ} → Option A → Stage A
built none = exits (pos 1)
built (some a) = goes a

abbrev in_use {ℓ} : {A : Type ℓ} → Stage A → Stage (Option A)
in_use s = s >>= λ a. goes (some a)

module _ (h : Host) where
  -- the certificates of the upstream, in proxy.New and for the client; `none` is the failure
  unfoldable pub tls_config : Bool → Text → Option Tls
  tls_config insecure ca =
      if is_empty ca
      then some (record { insecure = insecure; roots = none })
      else if h.has_certificates ca
      then some (record { insecure = insecure; roots = some ca })
      else none

  abbrev pub with_tls : Url → Option Tls → Option Forwarder
  with_tls target none = none
  with_tls target (some tls) = some (record { target = target; tls = tls })

  -- New of internal/proxy
  unfoldable pub new_forwarder : Url → Text → Bool → Option Forwarder
  unfolding tls_config
  new_forwarder target ca insecure = with_tls target (tls_config insecure ca)

  unfoldable pub target_url : Flags → Stage Url
  target_url f = do
    u ← expected (h.parse_url f.upstream)
    stop_if (is_empty u.scheme || is_empty u.host)
    goes u

  unfoldable pub read_ca : Flags → Stage Text
  read_ca f = if is_empty f.upstream_ca then goes [] else expected (h.file f.upstream_ca)

  -- New of internal/pve
  abbrev pub new_pve : Url → Text → Tls → Client
  new_pve base token tls = record { base = base; token = token; tls = tls }

  unfoldable pub connect : Flags → Url → Text → Stage Client
  unfolding tls_config
  connect f target ca = do
    token ← expected (h.file f.pve_token_file)
    tls ← expected (tls_config f.upstream_insecure ca)
    goes (new_pve target (trim_space token) tls)

  unfoldable pub new_client : Flags → Url → Text → Stage (Option Client)
  unfolding connect
  new_client f target ca =
      if is_empty f.pve_token_file then goes none else in_use (connect f target ca)

  module _ (yaml : Text → Option Config) where
    unfoldable pub load_quotas : Flags → Stage (Option Store)
    unfolding open_store
    load_quotas f =
        if is_empty f.quotas
        then goes none
        else in_use (expected (open_store yaml (h.quota_file f.quotas)))

    abbrev pub admins_of : Option Store → List Text
    admins_of none = []
    admins_of (some s) = admin_ids s

    -- New of internal/admission, with the number of polls in settleTimeout
    unfoldable pub new_enforcer : ℕ → Flags → Option Store → Option Client → Enforcer
    unfolding admin_ids
    new_enforcer polls f store client = record {
      store = store;
      has_engine = is_some client;
      admins = admins_of store;
      enforce = f.enforce;
      fail_closed = f.fail_closed;
      default_deny = f.default_deny;
      polls = polls;
    }

    -- -enforce without its store or its client
    abbrev pub unbacked : Flags → Option Store → Option Client → Bool
    unbacked f store client = f.enforce && (not (is_some store) || not (is_some client))

    -- a strict mode without -enforce
    abbrev pub unenforced : Flags → Bool
    unenforced f = (f.fail_closed || f.default_deny) && not f.enforce

    -- main, once the files are read
    unfoldable pub serve : ℕ → Flags → Url → Text → Option Store → Option Client → Stage Server
    unfolding new_enforcer new_forwarder
    serve polls f target ca store client = do
      stop_if (unbacked f store client)
      stop_if (unenforced f)
      forwarder ← built (new_forwarder target ca f.upstream_insecure)
      goes (record {
        enforcer = new_enforcer polls f store client;
        store = store;
        client = client;
        forwarder = forwarder;
      })

    -- main, up to the listener
    unfoldable pub main : ℕ → Flags → Stage Server
    unfolding target_url read_ca load_quotas new_client serve
    main polls f = do
      stop_if (is_empty f.upstream || is_empty f.tls_cert || is_empty f.tls_key)
      target ← target_url f
      ca ← read_ca f
      store ← load_quotas f
      client ← new_client f target ca
      serve polls f target ca store client
