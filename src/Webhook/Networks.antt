-- ===== src/Webhook/Networks.antt =====
-- pkg/webhook/vm_mutating.go: the networks that a machine asks for, and what is known of each.
use roks_vpc_cni.Base.{
  ℕ, suc, Bool, Option, none, some, List, [], ◌∷◌, ◌++◌, if◌then◌else◌, leb, take,
}
use roks_vpc_cni.Text.{Str, codes, str_eq, split, split2, trim_space, to_lower, decimal, index_byte}
use roks_vpc_cni.Dict.{Dict, get}
use roks_vpc_cni.Webhook.Json.{
  Json, Fields, get_key, as_object, as_text, or_empty, bind, nested, get_nested_slice,
}

-- multusNetEntry, with the path of its interface in the machine.
pub record MultusNet : Type 0 where
  pub network_ref : Str
  pub iface_name : Str
  pub path : List Str

-- network.NetworkInfo
pub record NetworkInfo : Type 0 where
  pub name : Str
  pub namespace : Str
  pub topology : Str
  pub role : Str
  pub kind : Str

abbrev pub is_local_net : NetworkInfo → Bool
is_local_net n = str_eq n.topology (codes "LocalNet")

abbrev pub is_layer2 : NetworkInfo → Bool
is_layer2 n = str_eq n.topology (codes "Layer2")

abbrev pub interfaces_path : List Str
interfaces_path =
    codes "spec" ∷ codes "template" ∷ codes "spec" ∷ codes "domain" ∷ codes "devices" ∷ []

-- The index of the first interface with a name, from `i` on; an element that is no object has no
-- name to compare.
unfoldable pub find_interface : Str → ℕ → List Json → Option ℕ
find_interface name i [] = none
find_interface name i (v ∷ vs) = elim (as_object (some v)) [
  | none ↦ find_interface name (suc i) vs
  | some fs ↦
      if str_eq (or_empty (as_text (get_key (codes "name") fs))) name
      then some i
      else find_interface name (suc i) vs
]

-- networks[i]["multus"]["networkName"], where that is a string
unfoldable pub multus_name : Fields → Option Str
multus_name net =
    bind (as_object (get_key (codes "multus") net)) (λ m. as_text (get_key (codes "networkName") m))

unfoldable pub entry_at : Str → Str → Option ℕ → List MultusNet
entry_at ref name none = []
entry_at ref name (some i) =
    record {
      network_ref = ref;
      iface_name = name;
      path = interfaces_path ++ codes "interfaces" ∷ decimal i ∷ [];
    }
    ∷ []

-- What one network contributes, by its reference.
unfoldable pub named_entries : List Json → Fields → Option Str → List MultusNet
named_entries ifaces net none = []
named_entries ifaces net (some ref) =
    let name = or_empty (as_text (get_key (codes "name") net)) in
    entry_at ref name (find_interface name 0 ifaces)

unfoldable pub entries_of : List Json → Option Fields → List MultusNet
entries_of ifaces none = []
entries_of ifaces (some net) = named_entries ifaces net (multus_name net)

unfoldable pub collect_entries : List Json → List Json → List MultusNet
collect_entries ifaces [] = []
collect_entries ifaces (v ∷ vs) =
    entries_of ifaces (as_object (some v)) ++ collect_entries ifaces vs

unfoldable pub find_all_multus_networks : Fields → List MultusNet
find_all_multus_networks vm =
    collect_entries (get_nested_slice interfaces_path (codes "interfaces") vm)
      (get_nested_slice (codes "spec" ∷ codes "template" ∷ codes "spec" ∷ []) (codes "networks") vm)

unfoldable pub extract_network_name : Str → Str
extract_network_name ref = elim (split2 b'/' ref) [ none ↦ ref | some (ns, name) ↦ name ]

-- The parts of a list, trimmed, less the empty ones.
unfoldable pub trimmed : List Str → List Str
trimmed [] = []
trimmed (p ∷ ps) =
    let rest = trimmed ps in if str_eq (trim_space p) [] then rest else trim_space p ∷ rest

-- splitTrimmed at a comma
unfoldable pub split_trimmed : Str → List Str
split_trimmed s = if str_eq s [] then [] else trimmed (split b',' s)

-- parseFIPNetworks, its set as a list.
unfoldable pub parse_fip_networks : Dict Str → List Str
parse_fip_networks annots =
    let raw = get (codes "vpc.roks.ibm.com/fip-networks") annots in
    if str_eq raw [] then [] else trimmed (split b',' raw)

unfoldable pub normalize_topology : Str → Str
normalize_topology topology =
    if str_eq (to_lower topology) (codes "localnet")
    then codes "LocalNet"
    else if str_eq (to_lower topology) (codes "layer2")
    then codes "Layer2"
    else if str_eq (to_lower topology) (codes "layer3")
    then codes "Layer3"
    else topology

-- The role below a path, by the topology; "Secondary" where there is none.
unfoldable pub role_below : List Str → Str → Fields → Str
role_below path topology content =
    let role =
      if str_eq (to_lower topology) (codes "localnet")
      then or_empty (as_text (nested (path ++ codes "localnet" ∷ []) (codes "role") content))
      else if str_eq (to_lower topology) (codes "layer2")
      then or_empty (as_text (nested (path ++ codes "layer2" ∷ []) (codes "role") content))
      else [] in
    if str_eq role [] then codes "Secondary" else role

-- Topology and role of an object whose network is specified below a path.
unfoldable pub topology_and_role : List Str → Fields → Str × Str
topology_and_role path content =
    let topology =
      normalize_topology (or_empty (as_text (nested path (codes "topology") content))) in
    (topology, role_below path topology content)

unfoldable pub extract_cudn_topology_and_role : Fields → Str × Str
extract_cudn_topology_and_role content =
    topology_and_role (codes "spec" ∷ codes "network" ∷ []) content

unfoldable pub extract_udn_topology_and_role : Fields → Str × Str
extract_udn_topology_and_role content = topology_and_role (codes "spec" ∷ []) content

-- A CUDN or UDN, with its annotations.
pub record Found : Type 0 where
  pub content : Fields
  pub annotations : Dict Str

-- Of a reference and the machine's namespace, by what the two Gets find.
unfoldable pub resolve_network_info :
    Str → Str → Option Found → Option Found → Option (NetworkInfo × Dict Str)
resolve_network_info name vm_namespace (some c) udn =
    let (topology, role) = extract_cudn_topology_and_role c.content in
    some (
      record {
        name = name;
        namespace = [];
        topology = topology;
        role = role;
        kind = codes "ClusterUserDefinedNetwork";
      },
      c.annotations,
    )
resolve_network_info name vm_namespace none (some u) =
    let (topology, role) = extract_udn_topology_and_role u.content in
    some (
      record {
        name = name;
        namespace = vm_namespace;
        topology = topology;
        role = role;
        kind = codes "UserDefinedNetwork";
      },
      u.annotations,
    )
resolve_network_info name vm_namespace none none = none

-- A VPCRouter, as far as it is read: its phase, and names and addresses of its networks.
pub record Router : Type 0 where
  pub phase : Str
  pub networks : List (Str × Str)

-- The address without the length of the prefix.
unfoldable pub strip_prefix_length : Str → Str
strip_prefix_length ip = elim (index_byte b'/' ip) [
  | none ↦ ip
  | some i ↦ if leb i 0 then ip else take i ip
]

unfoldable pub address_in : Str → List (Str × Str) → Option Str
address_in name [] = none
address_in name ((n, address) ∷ ns) =
    if str_eq n name then some (strip_prefix_length address) else address_in name ns

unfoldable pub gateway_in : Str → List Router → Str
gateway_in name [] = []
gateway_in name (r ∷ rs) =
    let rest = gateway_in name rs in
    if str_eq r.phase (codes "Ready")
    then elim (address_in name r.networks) [ none ↦ rest | some ip ↦ ip ]
    else rest

-- By the routers of the namespace; nothing where they cannot be listed.
unfoldable pub find_router_gateway : Str → Option (List Router) → Str
find_router_gateway name none = []
find_router_gateway name (some rs) = gateway_in name rs
