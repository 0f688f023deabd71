-- ===== src/Tests/Growth.antt =====
-- A cluster that accepts one write, which adds a guest to the pool.
use proxmox_user_quota_proxy.Base.{
  ℕ, Bool, true, not, ◌&&◌, [], ◌∷◌, if◌then◌else◌, pos, leb_ℤ, Text, codes, eqb, Map,
}
use proxmox_user_quota_proxy.Usage.Engine.{Member, ok, err, upstream, Api}
use proxmox_user_quota_proxy.Admission.Enforcer.Handle.{Request, Backend}
use proxmox_user_quota_proxy.Tests.Fixtures.{whole, guest}

abbrev pub dev : Text
dev = codes "dev"

abbrev new_config : Map Text
new_config =
    (codes "cores", codes "1")
    ∷ (codes "memory", codes "1024")
    ∷ (codes "scsi0", codes "local:disk-0,size=10G")
    ∷ []

abbrev member : ℕ → Member
member id = record { vmid = pos id; node = codes "n1"; kind = codes "qemu" }

-- The pool has one guest, and a second one once the write is done.
abbrev pub growing_api : Bool → Api
growing_api grown = record {
  pool_members = λ pool. ok (
      if eqb pool dev
      then (if grown then member 100 ∷ member 101 ∷ [] else member 100 ∷ [])
      else []);
  guest_config = λ node kind vmid. ok (if leb_ℤ vmid (pos 100) then guest else new_config);
  storage_content = λ node storage. ok [];
  snapshot_config = λ node kind vmid snapshot. err (upstream (codes "404"));
  extract_config = λ node volume. err (upstream (codes "404"));
}

-- the request for the guest
unfoldable pub is_create : Request → Bool
unfolding eqb
is_create r = eqb r.method (codes "POST") && eqb r.path (codes "/api2/extjs/nodes/n1/qemu")

abbrev pub growing : Backend
growing = record {
  State = Bool;
  api = growing_api;
  forward = λ r grown. if not grown && is_create r then (true, pos 200) else (grown, pos 500);
  sleep = λ grown. grown;
}
