-- ===== src/Pve/Client.antt =====
-- internal/pve/client.go: the reads of the API of Proxmox VE over HTTP, get and its callers.
pub mod Failures
use proxmox_user_quota_proxy.Base.{
  ℕ, ◌==◌, Bool, true, false, not, ◌&&◌, ◌||◌, Option, none, some, List, [], ◌∷◌, ◌++◌, map,
  if◌then◌else◌, ℤ, pos, leb_ℤ, ltb_ℤ, Text, codes, eqb, is_empty, cut, trim_right, format_int,
  Float64, Map, insert,
}
use proxmox_user_quota_proxy.Audit.{Json, text, number, bool, null, composite}
use proxmox_user_quota_proxy.Usage.Engine.{Error, upstream, Result, ok, err, ◌>>=◌, Member, Api}
use proxmox_user_quota_proxy.Pve.{parse_conf_text}

-- What comes of a request: an error, with its text, or a response with its status, the status line and
-- the body.
pub data Fetched : Type 0 where
  failed : Text → Fetched
  response : (status : ℤ) → (line body : Text) → Fetched

-- A GET request: the path and the query of its URL, and the header Authorization.
pub record Get : Type 0 where
  pub path : Text
  pub query : Option Text
  pub authorization : Text

-- What the standard library does: the round trip of a request, the escapes of net/url, and the
-- decoders of encoding/json, `none` where they fail. The first one gives the raw value of the field
-- data, which is none where there is no such field.
pub record Library ⦃fl : Float64⦄ : Type 0 where
  pub fetch : Get → Fetched
  pub path_escape : Text → Text
  pub query_escape : Text → Text
  pub data_of : Text → Option (Option Text)
  pub object : Text → Option (Map Json)
  pub string : Text → Option Text
  pub pool : Text → Option (List Member)
  pub contents : Text → Option (List (Text × ℤ))

abbrev pub is_ok : ℤ → Bool
is_ok n = not (ltb_ℤ n (pos 200)) && not (ltb_ℤ (pos 200) n)

abbrev is_slash : ℕ → Bool
is_slash c = c == b'/'

module _ ⦃fl : Float64⦄ where
  -- stringify
  unfoldable pub stringify : Json → Text
  unfolding format_int
  stringify (text t) = t
  stringify (number f) =
      if fl.equal f (fl.of_int (fl.to_int f)) then format_int (fl.to_int f) else fl.format f
  stringify (bool b) = if b then codes "1" else codes "0"
  stringify null = []
  stringify (composite t) = t

  unfoldable pub stringify_all : Map Json → Map Text
  unfolding stringify
  stringify_all m = map (λ (e : Text × Json). (e.0, stringify e.1)) m

  -- the map that StorageContent builds
  unfoldable pub sizes_of : Map ℤ → List (Text × ℤ) → Map ℤ
  sizes_of out [] = out
  sizes_of out ((volid, size) ∷ ds) = sizes_of (insert out volid size) ds

  module _ (lib : Library) (base token : Text) where
    -- the request of get: the path of the upstream without slashes at its end, and the given one
    unfoldable pub request_of : Text → Get
    unfolding cut trim_right
    request_of path =
        let root = trim_right is_slash base in
        let auth = codes "PVEAPIToken=" ++ token in
        elim (cut path b'?') [
          | none ↦ record { path = root ++ path; query = none; authorization = auth }
          | some p ↦ record { path = root ++ p.0; query = some p.1; authorization = auth }
        ]

    module _ {ℓ} {A : Type ℓ} (decode : Text → Option A) (zero : A) where
      abbrev pub of_data : Option (Option Text) → Text → Result A
      of_data none path = err (upstream (codes "pve GET " ++ path ++ codes ": decode"))
      of_data (some none) path = ok zero
      of_data (some (some raw)) path =
          if is_empty raw || eqb raw (codes "null")
          then ok zero
          else elim (decode raw) [ none ↦ err (upstream (codes "json")) | some a ↦ ok a ]

      abbrev pub of_response : Fetched → Text → Result A
      of_response (failed why) path = err (upstream why)
      of_response (response status line body) path =
          if is_ok status
          then of_data (lib.data_of body) path
          else err (upstream (codes "pve GET " ++ path ++ codes ": " ++ line))

      -- get, with the value that stays where there are no data
      unfoldable pub get : Text → Result A
      unfolding request_of
      get path = of_response (lib.fetch (request_of path)) path

    abbrev pub pool_path : Text → Text
    pool_path pool = codes "/api2/json/pools/" ++ lib.path_escape pool

    abbrev pub guest_path : Text → Text → ℤ → Text
    guest_path node kind vmid =
        codes "/api2/json/nodes/"
        ++ lib.path_escape node
        ++ codes "/"
        ++ kind
        ++ codes "/"
        ++ format_int vmid

    -- PoolMembers
    unfoldable pub pool_members : Text → Result (List Member)
    unfolding get
    pool_members pool = get lib.pool [] (pool_path pool)

    -- GuestConfig
    unfoldable pub guest_config : Text → Text → ℤ → Result (Map Text)
    unfolding get stringify_all format_int
    guest_config node kind vmid = do
      raw ← get lib.object [] (guest_path node kind vmid ++ codes "/config")
      ok (stringify_all raw)

    -- SnapshotConfig
    unfoldable pub snapshot_config : Text → Text → ℤ → Text → Result (Map Text)
    unfolding get stringify_all format_int
    snapshot_config node kind vmid snap = do
      raw ← get lib.object [] (
          guest_path node kind vmid
          ++ codes "/snapshot/"
          ++ lib.path_escape snap
          ++ codes "/config")
      ok (stringify_all raw)

    -- ExtractConfig
    unfoldable pub extract_config : Text → Text → Result (Map Text)
    unfolding get parse_conf_text
    extract_config node volume = do
      conf ← get lib.string [] (
          codes "/api2/json/nodes/"
          ++ lib.path_escape node
          ++ codes "/vzdump/extractconfig?volume="
          ++ lib.query_escape volume)
      ok (parse_conf_text conf)

    -- StorageContent
    unfoldable pub storage_content : Text → Text → Result (Map ℤ)
    unfolding get sizes_of
    storage_content node storage = do
      listing ← get lib.contents [] (
          codes "/api2/json/nodes/"
          ++ lib.path_escape node
          ++ codes "/storage/"
          ++ lib.path_escape storage
          ++ codes "/content")
      ok (sizes_of [] listing)

    -- the client as the API of the engine
    abbrev pub client_api : Api
    client_api = record {
      pool_members = pool_members;
      guest_config = guest_config;
      storage_content = storage_content;
      snapshot_config = snapshot_config;
      extract_config = extract_config;
    }
