-- ===== src/Gc/References.antt =====
-- The four sets of resources in use, of pkg/gc/orphan_collector.go. A list call that fails
-- contributes nothing.
pub mod Membership
pub mod InUse
use roks_vpc_cni.Base.{Option, none, some, List, [], ◌∷◌, ◌++◌, if◌then◌else◌}
use roks_vpc_cni.Text.{Str, codes, str_eq}
use roks_vpc_cni.Dict.{Dict, lookup, get}
use roks_vpc_cni.Gc.World.{Json, text, items, other, Status, Env}

-- `if id != "" { result[id] = true }`
abbrev pub add_id : Str → List Str → List Str
add_id id result = if str_eq id [] then result else id ∷ result

abbrev pub add_ids : List Str → List Str → List Str
add_ids [] result = result
add_ids (id ∷ ids) result = add_ids ids (add_id id result)

-- a value that is a string
abbrev pub add_text : Option Json → List Str → List Str
add_text (some (text id)) result = add_id id result
add_text (some (items ids)) result = result
add_text (some other) result = result
add_text none result = result

-- the strings of a value that is a list
abbrev pub add_members : List (Option Str) → List Str → List Str
add_members [] result = result
add_members (some id ∷ ids) result = add_members ids (add_id id result)
add_members (none ∷ ids) result = add_members ids result

abbrev pub add_items : Option Json → List Str → List Str
add_items (some (text id)) result = result
add_items (some (items ids)) result = add_members ids result
add_items (some other) result = result
add_items none result = result

-- One status: `if id, ok := status[key].(string); ok && id != ""`.
unfoldable pub add_status : Str → Status → List Str → List Str
add_status key none result = result
add_status key (some status) result = add_text (lookup key status) result

unfoldable pub add_statuses : Str → List Status → List Str → List Str
add_statuses key [] result = result
add_statuses key (s ∷ ss) result = add_statuses key ss (add_status key s result)

-- `if err := K8sClient.List(…); err == nil { for … }`
unfoldable pub add_listed : Str → Option (List Status) → List Str → List Str
add_listed key none result = result
add_listed key (some ss) result = add_statuses key ss result

-- The VNI ids of a network-interfaces annotation: `raw` is its text, `ids` what it is read as.
unfoldable pub add_interfaces : Str → Option (List Str) → List Str → List Str
add_interfaces raw none result = result
add_interfaces raw (some ids) result = if str_eq raw [] then result else add_ids ids result

-- The ids that one machine's annotations refer to.
unfoldable pub add_vm : Env → Dict Str → List Str → List Str
add_vm env annots result =
    let raw = get (codes "vpc.roks.ibm.com/network-interfaces") annots in
    add_id (get (codes "vpc.roks.ibm.com/vni-id") annots)
      (add_interfaces raw (env.unmarshal_vni_ids raw) result)

unfoldable pub add_vms : Env → List (Dict Str) → List Str → List Str
add_vms env [] result = result
add_vms env (vm ∷ vms) result = add_vms env vms (add_vm env vm result)

unfoldable pub add_listed_vms : Env → Option (List (Dict Str)) → List Str → List Str
add_listed_vms env none result = result
add_listed_vms env (some vms) result = add_vms env vms result

unfoldable pub build_referenced_vni_set : Env → List Str
build_referenced_vni_set env =
    add_listed (codes "vniID") env.list_gateways (add_listed_vms env env.list_vms [])

unfoldable pub build_referenced_fip_set : Env → List Str
build_referenced_fip_set env =
    add_listed (codes "floatingIPID") env.list_floating_ip_crs
      (add_listed (codes "floatingIPID") env.list_gateways [])

unfoldable pub build_referenced_par_set : Env → List Str
build_referenced_par_set env = add_listed (codes "publicAddressRangeID") env.list_gateways []

-- One gateway's two lists of routes.
unfoldable pub add_routes : Status → List Str → List Str
add_routes none result = result
add_routes (some status) result =
    add_items (lookup (codes "ingressRouteIDs") status)
      (add_items (lookup (codes "vpcRouteIDs") status) result)

unfoldable pub add_all_routes : List Status → List Str → List Str
add_all_routes [] result = result
add_all_routes (s ∷ ss) result = add_all_routes ss (add_routes s result)

unfoldable pub add_listed_routes : Option (List Status) → List Str → List Str
add_listed_routes none result = result
add_listed_routes (some ss) result = add_all_routes ss result

unfoldable pub build_referenced_route_set : Env → List Str
build_referenced_route_set env = add_listed_routes env.list_gateways []
