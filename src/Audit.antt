-- ===== src/Audit.antt =====
-- internal/audit/audit.go: the parameters of a write, and the resources among them.
pub mod Limit
pub mod Restore
pub mod Log
use proxmox_user_quota_proxy.Base.{
  ℕ, ◌^◌, ◌*◌, Bool, true, false, not, ◌&&◌, ◌||◌, Option, none, some, List, [], ◌∷◌, map, ltb,
  length, suc, ℤ, pos, if◌then◌else◌, Text, codes, eqb, is_some, cut, cut_prefix, has_prefix,
  has_suffix, to_lower, trim_space, is_empty, is_digit, format_int, Float64, Map, lookup, get,
}
use proxmox_user_quota_proxy.Body.{Body, Reading, read_limited, chain, reader}
use proxmox_user_quota_proxy.Classify.{Action, storage_upload}

-- A value that encoding/json has decoded; of an array or object, the text that it is printed as.
pub data Json ⦃fl : Float64⦄ : Type 0 where
  text : Text → Json
  number : fl.Value → Json
  bool : Bool → Json
  null : Json
  composite : Text → Json

-- The decoders of the standard library that the audit calls; `none` is an error.
pub record Decoders ⦃fl : Float64⦄ : Type 0 where
  pub json : Text → Option (Map Json)  -- json.Unmarshal into a map
  pub query : Text → Option (Map (List Text))  -- url.ParseQuery

-- What Params reads of a request: the header Content-Type, and the body, `none` where Body is nil or
-- http.NoBody.
pub record Payload : Type 0 where
  pub content_type : Text
  pub body : Option Body

abbrev pub max_body : ℕ
max_body = 256 * 2 ^ 10

-- shouldParseBody
unfoldable pub should_parse_body : Payload → Action → Bool
unfolding has_prefix
should_parse_body p storage_upload = false
should_parse_body p a = is_some p.body && not (has_prefix p.content_type (codes "multipart/"))

-- What readAndRestore returns, and what it leaves in the request; `none` for ContentLength and
-- GetBody is that they are not set.
pub record Restored : Type 0 where
  pub buffered : Option Text
  pub body : Body
  pub content_length : Option ℤ
  pub get_body : Option Body

-- the two exits that put back what was read in front of the remainder
abbrev pub put_back : Reading → Restored
put_back r = record {
  buffered = none;
  body = chain r.buf r.left;
  content_length = none;
  get_body = none;
}

abbrev pub restore_reading : Reading → Restored
restore_reading r = elim r.failure [
  | some e ↦ put_back r
  | none ↦ if ltb max_body (length r.buf) then put_back r else record {
    buffered = some r.buf;
    body = reader r.buf;
    content_length = some (pos (length r.buf));
    get_body = some (reader r.buf);
  }
]

-- readAndRestore
unfoldable pub read_and_restore : Body → Restored
unfolding read_limited
read_and_restore b = restore_reading (read_limited (suc max_body) b)

-- what Params takes from a body that it reads
abbrev pub buffered_of : Option Body → Option Text
buffered_of none = none
buffered_of (some b) = (read_and_restore b).buffered

module _ ⦃fl : Float64⦄ where
  -- scalar
  unfoldable pub scalar : Json → Text
  unfolding format_int
  scalar (text t) = t
  scalar (number f) =
      if fl.equal f (fl.of_int (fl.to_int f)) then format_int (fl.to_int f) else fl.format f
  scalar (bool b) = if b then codes "1" else codes "0"
  scalar null = []
  scalar (composite t) = t

  abbrev first_value : List Text → Text
  first_value [] = []
  first_value (v ∷ vs) = v

  -- the type before the first semicolon, in lower case
  unfoldable pub media_type : Text → Text
  unfolding cut to_lower trim_space
  media_type ct = trim_space (to_lower (elim (cut ct b';') [ none ↦ ct | some p ↦ p.0 ]))

  -- parseParams
  unfoldable pub parse_params : Decoders → Text → Text → Map Text
  unfolding media_type eqb has_suffix scalar
  parse_params dec content_type body =
      let ct = media_type content_type in
      if eqb ct (codes "application/json") || has_suffix ct (codes "+json")
      then elim (dec.json body) [
        | none ↦ []
        | some m ↦ map (λ (e : Text × Json). (e.0, scalar e.1)) m
      ]
      else elim (dec.query body) [
        | none ↦ []
        | some m ↦ map (λ (e : Text × List Text). (e.0, first_value e.1)) m
      ]

  abbrev pub parse_buffered : Decoders → Text → Option Text → Map Text
  parse_buffered dec content_type none = []
  parse_buffered dec content_type (some b) = parse_params dec content_type b

  -- Params
  unfoldable pub params : Decoders → Payload → Action → Map Text
  unfolding should_parse_body read_and_restore parse_params
  params dec p a =
      if should_parse_body p a then parse_buffered dec p.content_type (buffered_of p.body) else []

-- IsRestore
unfoldable pub is_restore : Map Text → Bool
unfolding lookup get to_lower eqb
is_restore params =
    is_some (lookup params (codes "archive"))
    || (let r = to_lower (get params (codes "restore")) in
        eqb r (codes "1") || eqb r (codes "true"))

abbrev pub resource_keys : List Text
resource_keys =
    codes "cores"
    ∷ codes "sockets"
    ∷ codes "vcpus"
    ∷ codes "cpulimit"
    ∷ codes "cpuunits"
    ∷ codes "memory"
    ∷ codes "balloon"
    ∷ codes "shares"
    ∷ codes "swap"
    ∷ codes "rootfs"
    ∷ codes "size"
    ∷ codes "disk"
    ∷ codes "newid"
    ∷ codes "vmid"
    ∷ codes "full"
    ∷ codes "storage"
    ∷ codes "target"
    ∷ codes "target-vmid"
    ∷ codes "targetstorage"
    ∷ codes "ostemplate"
    ∷ codes "archive"
    ∷ codes "restore"
    ∷ codes "content"
    ∷ codes "filename"
    ∷ codes "pool"
    ∷ codes "poolid"
    ∷ codes "vms"
    ∷ codes "delete"
    ∷ codes "efidisk0"
    ∷ codes "tpmstate0"
    ∷ []

abbrev pub indexed_prefixes : List Text
indexed_prefixes =
    codes "scsi"
    ∷ codes "virtio"
    ∷ codes "sata"
    ∷ codes "ide"
    ∷ codes "mp"
    ∷ codes "net"
    ∷ codes "unused"
    ∷ []

abbrev pub digits_only : Text → Bool
digits_only [] = true
digits_only (c ∷ s) = is_digit c && digits_only s

-- allDigits
unfoldable pub all_digits : Text → Bool
unfolding is_digit
all_digits s = not (is_empty s) && digits_only s

abbrev pub is_member : Text → List Text → Bool
is_member k [] = false
is_member k (x ∷ xs) = eqb k x || is_member k xs

abbrev pub is_indexed : Text → List Text → Bool
is_indexed k [] = false
is_indexed k (p ∷ ps) =
    elim (cut_prefix k p) [ none ↦ false | some rest ↦ all_digits rest ] || is_indexed k ps

-- isResourceKey
unfoldable pub is_resource_key : Text → Bool
unfolding eqb cut_prefix all_digits to_lower
is_resource_key k =
    let lk = to_lower k in is_member lk resource_keys || is_indexed lk indexed_prefixes

-- resourceParams
unfoldable pub resource_params : Map Text → Map Text
unfolding is_resource_key
resource_params [] = []
resource_params ((k, v) ∷ m) =
    if is_resource_key k then (k, v) ∷ resource_params m else resource_params m
