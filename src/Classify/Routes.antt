-- ===== src/Classify/Routes.antt =====
-- The endpoints of the Proxmox VE API that use resources, and the actions that the classification
-- makes of their paths.
pub mod Split
pub mod Classified
use proxmox_user_quota_proxy.Base.{
  ◌≡◌, refl, ◌∙◌, ap, Bool, true, false, List, [], ◌∷◌, ◌++◌, if◌then◌else◌, Text, codes, Lacks,
  is_empty,
}
use proxmox_user_quota_proxy.Classify.{
  Action, guest_create, guest_config, resize, clone, move_disk, rollback, storage_alloc,
  storage_upload, pool_membership, Phase, p4, p5, Result, start, classify, classify_write,
}

pub data Kind : Type 0 where
  qemu lxc : Kind

pub record Guest : Type 0 where
  pub kind : Kind
  pub node : Text
  pub vmid : Text

-- The form of a path: that of the JSON clients, or that of the GUI.
pub data Form : Type 0 where
  json extjs : Form

pub data Endpoint : Type 0 where
  create : (kind : Kind) (node : Text) → Endpoint
  edit : (background : Bool) → Guest → Endpoint
  grow : Guest → Endpoint
  copy : Guest → Endpoint
  move : (volume : Bool) → Guest → Endpoint
  roll_back : Guest → (snapshot : Text) → Endpoint
  allocate : (node storage : Text) → Endpoint
  upload : (from_url : Bool) (node storage : Text) → Endpoint
  change_pool : (pool : Text) → Endpoint

abbrev pub kind_text : Kind → Text
kind_text qemu = codes "qemu"
kind_text lxc = codes "lxc"

abbrev pub form_text : Form → Text
form_text json = codes "json"
form_text extjs = codes "extjs"

abbrev pub of_guest : Guest → List Text → List Text
of_guest g rest = g.node ∷ kind_text g.kind ∷ g.vmid ∷ rest

abbrev pub method_of : Endpoint → Text
method_of (edit false g) = codes "PUT"
method_of (grow g) = codes "PUT"
method_of (change_pool pool) = codes "PUT"
method_of _ = codes "POST"

abbrev pub first_segment : Endpoint → Text
first_segment (change_pool pool) = codes "pools"
first_segment _ = codes "nodes"

abbrev pub segments : Endpoint → List Text
segments (create kind node) = node ∷ kind_text kind ∷ []
segments (edit background g) = of_guest g (codes "config" ∷ [])
segments (grow g) = of_guest g (codes "resize" ∷ [])
segments (copy g) = of_guest g (codes "clone" ∷ [])
segments (move true g) = of_guest g (codes "move_volume" ∷ [])
segments (move false g) = of_guest g (codes "move_disk" ∷ [])
segments (roll_back g snapshot) = of_guest g (codes "snapshot" ∷ snapshot ∷ codes "rollback" ∷ [])
segments (allocate node storage) = node ∷ codes "storage" ∷ storage ∷ codes "content" ∷ []
segments (upload true node storage) = node ∷ codes "storage" ∷ storage ∷ codes "download-url" ∷ []
segments (upload false node storage) = node ∷ codes "storage" ∷ storage ∷ codes "upload" ∷ []
segments (change_pool pool) = pool ∷ []

unfoldable pub join : Text → List Text → Text
join x [] = x
join x (y ∷ ys) = x ++ b'/' ∷ join y ys

abbrev pub path_of : Form → Endpoint → Text
path_of f e = (codes "/api2/" ++ form_text f ++ codes "/") ++ join (first_segment e) (segments e)

-- No name has a slash, and the pool has a name.
abbrev pub Named : Guest → Type 0
Named g = Lacks b'/' g.node × Lacks b'/' g.vmid

abbrev pub IsNamed : Endpoint → Type 0
IsNamed (create kind node) = Lacks b'/' node
IsNamed (edit background g) = Named g
IsNamed (grow g) = Named g
IsNamed (copy g) = Named g
IsNamed (move volume g) = Named g
IsNamed (roll_back g snapshot) = Named g × Lacks b'/' snapshot
IsNamed (allocate node storage) = Lacks b'/' node × Lacks b'/' storage
IsNamed (upload from_url node storage) = Lacks b'/' node × Lacks b'/' storage
IsNamed (change_pool pool) = Lacks b'/' pool × (is_empty pool ≡ false)

abbrev guest_result : Guest → Action → Phase → Result → Result
guest_result g a p r = record r {
  action = a;
  guest_kind = kind_text g.kind;
  node = g.node;
  vmid = g.vmid;
  quota_relevant = true;
  phase = p;
}

abbrev storage_result : Text → Text → Action → Result → Result
storage_result node storage a r = record r {
  action = a;
  node = node;
  storage = storage;
  quota_relevant = true;
  phase = p5;
}

abbrev pub fill : Endpoint → Result → Result
fill (create kind node) r = record r {
  action = guest_create;
  guest_kind = kind_text kind;
  node = node;
  quota_relevant = true;
  phase = p4;
}
fill (edit background g) r = guest_result g guest_config p4 r
fill (grow g) r = guest_result g resize p4 r
fill (copy g) r = guest_result g clone p5 r
fill (move volume g) r = guest_result g move_disk p5 r
fill (roll_back g snapshot) r = record (guest_result g rollback p5 r) { snapshot = snapshot }
fill (allocate node storage) r = storage_result node storage storage_alloc r
fill (upload from_url node storage) r = storage_result node storage storage_upload r
fill (change_pool pool) r = record r { action = pool_membership; quota_relevant = true; phase = p4 }

-- The endpoint, as a result of the classification has it.
abbrev pub described : Form → Endpoint → Result
described f e = fill e (start (method_of e) (path_of f e) (form_text f))
