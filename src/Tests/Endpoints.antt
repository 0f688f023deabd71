-- ===== src/Tests/Endpoints.antt =====
-- A request to roll a guest back, as an endpoint of the API.
use proxmox_user_quota_proxy.Base.{◌≡◌, refl, codes}
use proxmox_user_quota_proxy.Classify.{classify}
use proxmox_user_quota_proxy.Classify.Routes.{
  qemu, extjs, Endpoint, roll_back, join, method_of, path_of, IsNamed, described,
}
use proxmox_user_quota_proxy.Classify.Routes.Classified.{no_slash_sound, classify_endpoint}

abbrev rolled_back : Endpoint
rolled_back =
    roll_back (record { kind = qemu; node = codes "n1"; vmid = codes "100" }) (codes "before")

rolled_back-IsNamed : IsNamed rolled_back
rolled_back-IsNamed = (
  (no_slash_sound (codes "n1") refl, no_slash_sound (codes "100") refl),
  no_slash_sound (codes "before") refl,
)

rolled_back_path :
    path_of extjs rolled_back ≡ codes "/api2/extjs/nodes/n1/qemu/100/snapshot/before/rollback"
unfolding join
rolled_back_path = refl

classify_endpoint_example :
    classify (method_of rolled_back) (path_of extjs rolled_back) ≡ described extjs rolled_back
classify_endpoint_example = classify_endpoint extjs rolled_back rolled_back-IsNamed
