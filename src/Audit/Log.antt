-- ===== src/Audit/Log.antt =====
-- internal/audit/audit.go: the log of quota-relevant writes, Emit, record and Middleware.
pub mod Filter
pub mod Accounted
use proxmox_user_quota_proxy.Base.{
  Bool, true, false, ◌&&◌, Option, none, some, List, [], ◌∷◌, ◌++◌, if◌then◌else◌, Text, codes,
  is_empty, Float64, Map, lookup,
}
use proxmox_user_quota_proxy.Classify
use proxmox_user_quota_proxy.Classify.{
  Action, read, passthrough, guest_create, guest_config, resize, clone, move_disk, rollback,
  storage_alloc, storage_upload, pool_membership, unknown_write, Phase, no_phase, p4, p5, classify,
}
use proxmox_user_quota_proxy.Identity.{
  Credentials, Identity, Kind, no_identity, cookie, token, from_request,
}
use proxmox_user_quota_proxy.Audit.{Payload, Decoders, params, is_restore, resource_params}

-- The value of an attribute: a text, the flag of a restore, or the resources.
pub data Value : Type 0 where
  text : Text → Value
  flag : Bool → Value
  group : Map Text → Value

unfoldable pub action_text : Action → Text
action_text read = codes "read"
action_text passthrough = codes "passthrough"
action_text guest_create = codes "guest.create"
action_text guest_config = codes "guest.config"
action_text resize = codes "disk.resize"
action_text clone = codes "guest.clone"
action_text move_disk = codes "disk.move"
action_text rollback = codes "snapshot.rollback"
action_text storage_alloc = codes "storage.alloc"
action_text storage_upload = codes "storage.upload"
action_text pool_membership = codes "pool.membership"
action_text unknown_write = codes "unknown.write"

unfoldable pub kind_text : Kind → Text
kind_text no_identity = codes "none"
kind_text cookie = codes "cookie"
kind_text token = codes "token"

unfoldable pub phase_text : Phase → Text
phase_text no_phase = []
phase_text p4 = codes "P4"
phase_text p5 = codes "P5"

abbrev pub is_create : Action → Bool
is_create guest_create = true
is_create _ = false

-- an attribute that is left out where its text is empty
abbrev pub unless_empty : Text → Text → Map Value
unless_empty key value = if is_empty value then [] else (key, text value) ∷ []

abbrev pub restore_flag : Bool → Map Value
restore_flag b = if b then (codes "restore", flag true) ∷ [] else []

abbrev pub resource_group : Map Text → Map Value
resource_group [] = []
resource_group (e ∷ m) = (codes "resources", group (e ∷ m)) ∷ []

-- the attributes that Emit adds where there is something to say
unfoldable pub details : Identity → Classify.Result → Map Text → Map Value
unfolding is_restore resource_params phase_text
details id res ps =
    unless_empty (codes "phase") (phase_text res.phase)
    ++ (unless_empty (codes "token") id.token
        ++ (unless_empty (codes "guest") res.guest_kind
            ++ (unless_empty (codes "node") res.node
                ++ (unless_empty (codes "vmid") res.vmid
                    ++ (unless_empty (codes "storage") res.storage
                        ++ (restore_flag (is_create res.action && is_restore ps)
                            ++ resource_group (resource_params ps)))))))

-- Emit: the attributes of the log record
unfoldable pub emit : Identity → Classify.Result → Map Text → Map Value
unfolding action_text kind_text details
emit id res ps =
    (codes "event", text (codes "quota-write"))
    ∷ (codes "user", text id.user)
    ∷ (codes "auth", text (kind_text id.kind))
    ∷ (codes "action", text (action_text res.action))
    ∷ (codes "method", text res.method)
    ∷ (codes "path", text res.path)
    ∷ (codes "envelope", text res.envelope)
    ∷ details id res ps

module _ ⦃fl : Float64⦄ (dec : Decoders) where
  -- record
  unfoldable pub log_write : Credentials → Payload → Classify.Result → Map Value
  unfolding emit from_request params
  log_write cred payload res = emit (from_request cred) res (params dec payload res.action)

  -- Middleware: what it logs of a request, which goes on to the next handler in any case
  unfoldable pub audit_log : Text → Text → Credentials → Payload → Option (Map Value)
  unfolding classify log_write
  audit_log method path cred payload =
      let res = classify method path in
      if res.quota_relevant then some (log_write cred payload res) else none
