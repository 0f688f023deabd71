-- ===== src/Classify/Routes/Classified.antt =====
-- The classification of the endpoints that use resources.
use proxmox_user_quota_proxy.Base.{
  ◌≡◌, refl, not, ◌&&◌, Bool, true, false, List, [], ◌∷◌, Text, codes, All, Lacks, is_empty,
  to_upper, eqb, arith, ℕ, suc, leb, length,
}
use proxmox_user_quota_proxy.Classify.{
  classify, classify_write, start, is_read_method, split_envelope, Result, is_slash, classify_guest,
  classify_storage, seg, seg_is,
}
use proxmox_user_quota_proxy.Classify.Routes.{
  Kind, qemu, lxc, Guest, Form, json, extjs, Endpoint, create, edit, grow, copy, move, roll_back,
  allocate, upload, change_pool, form_text, kind_text, method_of, first_segment, segments, path_of,
  IsNamed, Named, of_guest, fill, described, join,
}
use proxmox_user_quota_proxy.Classify.Routes.Split.{split_segs-join, last_part}

-- the segments have no slash, and the last is not empty
abbrev Parts : Endpoint → Type 0
Parts e =
    All (Lacks b'/') (segments e) × (is_empty (last_part (first_segment e) (segments e)) ≡ false)

abbrev pub no_slash : Text → Bool
no_slash [] = true
no_slash (c ∷ s) = not (is_slash c) && no_slash s

pub no_slash_sound : (s : Text) → no_slash s ≡ true → Lacks b'/' s
no_slash_sound [] h = tt
no_slash_sound (c ∷ s) h = (ground arith, no_slash_sound s (ground arith))

kind_word : (k : Kind) → Lacks b'/' (kind_text k)
kind_word qemu = no_slash_sound (codes "qemu") refl
kind_word lxc = no_slash_sound (codes "lxc") refl

kind_given : (k : Kind) → is_empty (kind_text k) ≡ false
kind_given qemu = refl
kind_given lxc = refl

first-Lacks : (e : Endpoint) → Lacks b'/' (first_segment e) × (is_empty (first_segment e) ≡ false)
first-Lacks (change_pool pool) = (no_slash_sound (codes "pools") refl, refl)
first-Lacks (create kind node) = (no_slash_sound (codes "nodes") refl, refl)
first-Lacks (edit background g) = (no_slash_sound (codes "nodes") refl, refl)
first-Lacks (grow g) = (no_slash_sound (codes "nodes") refl, refl)
first-Lacks (copy g) = (no_slash_sound (codes "nodes") refl, refl)
first-Lacks (move volume g) = (no_slash_sound (codes "nodes") refl, refl)
first-Lacks (roll_back g snapshot) = (no_slash_sound (codes "nodes") refl, refl)
first-Lacks (allocate node storage) = (no_slash_sound (codes "nodes") refl, refl)
first-Lacks (upload from_url node storage) = (no_slash_sound (codes "nodes") refl, refl)

guest_parts :
    (g : Guest) (rest : List Text)
    → Named g
    → All (Lacks b'/') rest
    → All (Lacks b'/') (of_guest g rest)
guest_parts g rest (node, vmid) hr = (node, (kind_word g.kind, (vmid, hr)))

-- a word of the API as the last segment
last_word : (s : Text) → no_slash s ≡ true → All (Lacks b'/') (s ∷ [])
last_word s h = (no_slash_sound s h, tt)

-- an operation on a guest
guest_op :
    (g : Guest) (op : Text) → Named g → no_slash op ≡ true → All (Lacks b'/') (of_guest g (op ∷ []))
guest_op g op h word = guest_parts g (op ∷ []) h (last_word op word)

named-Parts : (e : Endpoint) → IsNamed e → Parts e
named-Parts (create kind node) h = ((h, (kind_word kind, tt)), kind_given kind)
named-Parts (edit background g) h = (guest_op g (codes "config") h refl, refl)
named-Parts (grow g) h = (guest_op g (codes "resize") h refl, refl)
named-Parts (copy g) h = (guest_op g (codes "clone") h refl, refl)
named-Parts (move true g) h = (guest_op g (codes "move_volume") h refl, refl)
named-Parts (move false g) h = (guest_op g (codes "move_disk") h refl, refl)
named-Parts (roll_back g snapshot) (h, hs) = (
  guest_parts g (codes "snapshot" ∷ snapshot ∷ codes "rollback" ∷ []) h
      (no_slash_sound (codes "snapshot") refl, (hs, last_word (codes "rollback") refl)),
  refl,
)
named-Parts (allocate node storage) (hn, hs) =
    ((hn, (no_slash_sound (codes "storage") refl, (hs, last_word (codes "content") refl))), refl)
named-Parts (upload true node storage) (hn, hs) = (
  (hn, (no_slash_sound (codes "storage") refl, (hs, last_word (codes "download-url") refl))),
  refl,
)
named-Parts (upload false node storage) (hn, hs) =
    ((hn, (no_slash_sound (codes "storage") refl, (hs, last_word (codes "upload") refl))), refl)
named-Parts (change_pool pool) (h, given) = ((h, tt), given)

split-path :
    (f : Form) (e : Endpoint)
    → split_envelope (path_of f e) ≡ (form_text f, join (first_segment e) (segments e))
unfolding split_envelope
split-path json e = refl
split-path extjs e = refl

is_write : (e : Endpoint) → is_read_method (to_upper (method_of e)) ≡ false
unfolding to_upper eqb
is_write (create kind node) = refl
is_write (edit true g) = refl
is_write (edit false g) = refl
is_write (grow g) = refl
is_write (copy g) = refl
is_write (move volume g) = refl
is_write (roll_back g snapshot) = refl
is_write (allocate node storage) = refl
is_write (upload from_url node storage) = refl
is_write (change_pool pool) = refl

at_least_3 : (n : ℕ) → leb 3 (suc (suc (suc (suc n)))) ≡ true
at_least_3 n = ground arith

-- an endpoint by the segments of its path
module _ (r : Result) where
  -- the segments of a guest, whose kind leads to classifyGuest
  guest_write :
      (m : Text) (k : Kind) (node vmid : Text) (rest : List Text)
      → let segs = codes "nodes" ∷ node ∷ kind_text k ∷ vmid ∷ rest in
        classify_write m segs r
        ≡ classify_guest m segs (record r { node = node; guest_kind = kind_text k })
  unfolding classify_write seg seg_is eqb
  guest_write m qemu node vmid rest = rw (at_least_3 (length rest))
  guest_write m lxc node vmid rest = rw (at_least_3 (length rest))

  classify-write :
      (e : Endpoint)
      → classify_write (to_upper (method_of e)) (first_segment e ∷ segments e) r ≡ fill e r
  unfolding classify_write to_upper classify_guest classify_storage seg seg_is eqb
  classify-write (create qemu node) = refl
  classify-write (create lxc node) = refl
  classify-write (edit true g) =
      guest_write (codes "POST") g.kind g.node g.vmid (codes "config" ∷ [])
  classify-write (edit false g) =
      guest_write (codes "PUT") g.kind g.node g.vmid (codes "config" ∷ [])
  classify-write (grow g) = guest_write (codes "PUT") g.kind g.node g.vmid (codes "resize" ∷ [])
  classify-write (copy g) = guest_write (codes "POST") g.kind g.node g.vmid (codes "clone" ∷ [])
  classify-write (move true g) =
      guest_write (codes "POST") g.kind g.node g.vmid (codes "move_volume" ∷ [])
  classify-write (move false g) =
      guest_write (codes "POST") g.kind g.node g.vmid (codes "move_disk" ∷ [])
  classify-write (roll_back g snapshot) =
      guest_write (codes "POST") g.kind g.node g.vmid
        (codes "snapshot" ∷ snapshot ∷ codes "rollback" ∷ [])
  classify-write (allocate node storage) = refl
  classify-write (upload true node storage) = refl
  classify-write (upload false node storage) = refl
  classify-write (change_pool pool) = refl

-- Whatever the form of the path: of the request for an endpoint whose names have no slash, and whose
-- pool has a name, the classification has the action, the kind, node and ID of the guest, the storage
-- and the snapshot, and holds it to be relevant.
pub classify_endpoint :
    (f : Form) (e : Endpoint) → IsNamed e → classify (method_of e) (path_of f e) ≡ described f e
unfolding classify
classify_endpoint f e named =
    let p = first-Lacks e in
    let q = named-Parts e named in
    let parts = split_segs-join (first_segment e) (segments e) p.0 q.0 p.1 q.1 in
    rw (split-path f e, is_write e, parts)
      (classify-write (start (method_of e) (path_of f e) (form_text f)) e)
