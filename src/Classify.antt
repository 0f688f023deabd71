-- ===== src/Classify.antt =====
-- internal/classify/classify.go: the action that a method and a path stand for.
pub mod Relevant
pub mod Paths
pub mod Routes
use proxmox_user_quota_proxy.Base.{
  ℕ, ◌+◌, ◌≡◌, refl, Bool, true, false, not, ◌&&◌, ◌||◌, Option, none, some, List, [], ◌∷◌, ◌==◌,
  leb, length, if◌then◌else◌, Text, codes, eqb, is_empty, has_prefix, trim_prefix, trim, to_upper,
  split,
}

pub data Action : Type 0 where
  read passthrough guest_create guest_config resize clone move_disk : Action
  rollback storage_alloc storage_upload pool_membership unknown_write : Action

pub data Phase : Type 0 where
  no_phase p4 p5 : Phase

pub record Result : Type 0 where
  pub method : Text
  pub path : Text
  pub envelope : Text
  pub action : Action
  pub guest_kind : Text
  pub node : Text
  pub vmid : Text
  pub storage : Text
  pub snapshot : Text
  pub quota_relevant : Bool
  pub phase : Phase

-- segs[i] == s, false where there is no such segment
unfoldable pub seg_is : List Text → ℕ → Text → Bool
seg_is [] i s = false
seg_is (x ∷ xs) ℕ.zero s = eqb x s
seg_is (x ∷ xs) (ℕ.suc i) s = seg_is xs i s

-- segs[i], for an index that a test on the length has allowed
unfoldable pub seg : List Text → ℕ → Text
seg [] i = []
seg (x ∷ xs) ℕ.zero = x
seg (x ∷ xs) (ℕ.suc i) = seg xs i

unfoldable pub one_of : Text → List Text → Bool
one_of s [] = false
one_of s (x ∷ xs) = eqb s x || one_of s xs

abbrev pub is_slash : ℕ → Bool
is_slash c = c == b'/'

-- splitEnvelope
unfoldable pub split_envelope : Text → Text × Text
unfolding eqb has_prefix trim_prefix
split_envelope path =
    let p = trim_prefix path (codes "/") in
    if eqb p (codes "api2/json") || has_prefix p (codes "api2/json/")
    then (codes "json", trim_prefix (trim_prefix p (codes "api2/json")) (codes "/"))
    else if eqb p (codes "api2/extjs") || has_prefix p (codes "api2/extjs/")
    then (codes "extjs", trim_prefix (trim_prefix p (codes "api2/extjs")) (codes "/"))
    else (codes "other", p)

abbrev pub all_parts : Text × List Text → List Text
all_parts (s, ss) = s ∷ ss

-- splitSegs
unfoldable pub split_segs : Text → List Text
unfolding trim split
split_segs p = let t = trim is_slash p in if is_empty t then [] else all_parts (split t b'/')

abbrev pub guest_passthrough_ops : List Text
guest_passthrough_ops =
    codes "status"
    ∷ codes "vncproxy"
    ∷ codes "termproxy"
    ∷ codes "spiceproxy"
    ∷ codes "vncwebsocket"
    ∷ codes "agent"
    ∷ codes "firewall"
    ∷ codes "sendkey"
    ∷ codes "cloudinit"
    ∷ codes "unlink"
    ∷ codes "snapshot"
    ∷ codes "rrd"
    ∷ codes "rrddata"
    ∷ codes "feature"
    ∷ codes "spiceshell"
    ∷ []

-- guestPassthrough
unfoldable pub guest_passthrough : Text → List Text → Bool
unfolding eqb one_of seg
guest_passthrough method segs =
    if length segs == 4
    then eqb method (codes "DELETE")
    else leb 5 (length segs) && one_of (seg segs 4) guest_passthrough_ops

-- nodePassthrough
unfoldable pub node_passthrough : Text → List Text → Bool
unfolding seg_is guest_passthrough
node_passthrough method segs =
    if not (leb 3 (length segs))
    then false
    else if seg_is segs 2 (codes "vzdump")
    then true
    else if seg_is segs 2 (codes "qemu") || seg_is segs 2 (codes "lxc")
    then guest_passthrough method segs
    else if seg_is segs 2 (codes "storage")
    then eqb method (codes "DELETE") && leb 5 (length segs) && seg_is segs 4 (codes "content")
    else false

-- knownPassthrough
unfoldable pub known_passthrough : Text → List Text → Bool
unfolding seg_is node_passthrough one_of
known_passthrough method segs =
    if seg_is segs 0 (codes "access")
    then leb 2 (length segs)
      && one_of (seg segs 1) (codes "ticket" ∷ codes "password" ∷ codes "tfa" ∷ codes "openid" ∷ [])
    else if seg_is segs 0 (codes "nodes")
    then node_passthrough method segs
    else false

-- passOrUnknown
unfoldable pub pass_or_unknown : Text → List Text → Result → Result
pass_or_unknown method segs res = record res {
  action = if known_passthrough method segs then passthrough else unknown_write;
}

-- quota
abbrev pub relevant : Result → Action → Phase → Result
relevant res a phase = record res { action = a; quota_relevant = true; phase = phase }

-- classifyGuest
unfoldable pub classify_guest : Text → List Text → Result → Result
classify_guest method segs res =
    let res' : Result = record res { vmid = seg segs 3 } in
    let op = λ (s : Text). seg_is segs 4 s in
    let post = eqb method (codes "POST") in
    let put = eqb method (codes "PUT") in
    if length segs == 3
    then (if post then relevant res guest_create p4 else pass_or_unknown method segs res)
    else if op (codes "config") && (put || post)
    then relevant res' guest_config p4
    else if op (codes "resize") && put
    then relevant res' resize p4
    else if op (codes "clone") && post
    then relevant res' clone p5
    else if (op (codes "move_disk") || op (codes "move_volume")) && post
    then relevant res' move_disk p5
    else if op (codes "snapshot") && post && leb 7 (length segs) && seg_is segs 6 (codes "rollback")
    then relevant (record res' { snapshot = seg segs 5 }) rollback p5
    else pass_or_unknown method segs res'

-- classifyStorage
unfoldable pub classify_storage : Text → List Text → Result → Result
classify_storage method segs res =
    let res' : Result =
      (if leb 4 (length segs) then record res { storage = seg segs 3 } else res) in
    let post = eqb method (codes "POST") in
    if post && seg_is segs 4 (codes "content")
    then relevant res' storage_alloc p5
    else if post && (seg_is segs 4 (codes "upload") || seg_is segs 4 (codes "download-url"))
    then relevant res' storage_upload p5
    else pass_or_unknown method segs res'

abbrev pub is_read_method : Text → Bool
is_read_method method =
    eqb method (codes "GET") || eqb method (codes "HEAD") || eqb method (codes "OPTIONS")

-- the part of Classify behind the split of the path, for a method in upper case
unfoldable pub classify_write : Text → List Text → Result → Result
classify_write method segs res =
    let in_node : Result = record res { node = seg segs 1 } in
    let of_guest : Result = record in_node { guest_kind = seg segs 2 } in
    if seg_is segs 0 (codes "pools")
    then (if eqb method (codes "PUT") || eqb method (codes "POST")
        then relevant res pool_membership p4
        else pass_or_unknown method segs res)
    else if leb 3 (length segs) && seg_is segs 0 (codes "nodes")
    then (if seg_is segs 2 (codes "qemu") || seg_is segs 2 (codes "lxc")
        then classify_guest method segs of_guest
        else if seg_is segs 2 (codes "storage")
        then classify_storage method segs in_node
        else pass_or_unknown method segs in_node)
    else pass_or_unknown method segs res

abbrev pub start : Text → Text → Text → Result
start method path envelope = record {
  method = method;
  path = path;
  envelope = envelope;
  action = read;
  guest_kind = [];
  node = [];
  vmid = [];
  storage = [];
  snapshot = [];
  quota_relevant = false;
  phase = no_phase;
}

-- Classify
unfoldable pub classify : Text → Text → Result
unfolding eqb to_upper split_envelope split_segs classify_write
classify method path =
    let (envelope, rest) = split_envelope path in
    if is_read_method (to_upper method)
    then start method path envelope
    else classify_write (to_upper method) (split_segs rest) (start method path envelope)
