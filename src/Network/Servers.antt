-- ===== src/Network/Servers.antt =====
-- The bare metal server behind a Kubernetes node: ExtractBMServerID, buildBMServerMap,
-- resolveBMServerIDByHostname, resolveNodeBMServerID, resolveNodeProviderID and PickBMServer of
-- pkg/controller/network/helpers.go.
pub mod Picking
mod Tests
use roks_vpc_cni.Base.{
  zero, suc, Bool, Option, none, some, List, [], ◌∷◌, ◌++◌, length, take, drop, leb, if◌then◌else◌,
}
use roks_vpc_cni.Text.{Str, codes, str_eq, has_prefix, split, contains, index_byte}
use roks_vpc_cni.Dict.{Dict, lookup, insert}
use roks_vpc_cni.Controllers.Effects.{Result, ok, err}

-- corev1.Node, as far as it is read.
pub record Node : Type 0 where
  pub name : Str
  pub provider_id : Str
  pub instance_type : Str

-- vpc.BareMetalServer
pub record BareMetalServer : Type 0 where
  pub id : Str
  pub name : Str

-- strings.TrimPrefix(s, prefix), arguments swapped
abbrev pub trim_prefix : Str → Str → Str
trim_prefix prefix s = if has_prefix prefix s then drop (length prefix) s else s

-- parts[3], or "" where there are fewer than four
unfoldable pub fourth : List Str → Str
fourth (a ∷ b ∷ c ∷ d ∷ rest) = d
fourth _ = []

unfoldable pub extract_bm_server_id : Str → Str
extract_bm_server_id provider_id =
    if str_eq provider_id []
    then []
    else fourth (split b'/' (trim_prefix (codes "ibm://") provider_id))

unfoldable pub is_bare_metal_node : Node → Bool
is_bare_metal_node node = contains (codes "metal") node.instance_type

-- the map of server names to ids; `none` is the nil map
unfoldable pub server_map : List BareMetalServer → Dict Str → Dict Str
server_map [] m = m
server_map (s ∷ servers) m = server_map servers (insert s.name s.id m)

-- `listed` is the answer of ListBareMetalServers.
unfoldable pub build_bm_server_map : Str → Option (List BareMetalServer) → Option (Dict Str)
build_bm_server_map vpc_id listed =
    if str_eq vpc_id []
    then none
    else elim listed [ none ↦ none | some servers ↦ some (server_map servers []) ]

-- The part of a node name before the first dot, if that is not the first byte.
unfoldable pub hostname_of : Str → Str
hostname_of node_name = elim (index_byte b'.' node_name) [
  | none ↦ node_name
  | some i ↦ if leb i 0 then node_name else take i node_name
]

unfoldable pub lookup_or_empty : Option Str → Str
lookup_or_empty none = []
lookup_or_empty (some id) = id

unfoldable pub resolve_by_hostname : Str → Option (Dict Str) → Str
resolve_by_hostname node_name none = []
resolve_by_hostname node_name (some m) = elim (lookup node_name m) [
  | some id ↦ id
  | none ↦ lookup_or_empty (lookup (hostname_of node_name) m)
]

-- The answer of the Kubernetes interface for one node; `none` is an error.
unfoldable pub resolve_node_provider_id : Option Node → Str
resolve_node_provider_id none = []
resolve_node_provider_id (some node) = node.provider_id

unfoldable pub resolve_node_bm_server_id : Option Node → Str
resolve_node_bm_server_id none = []
resolve_node_bm_server_id (some node) = extract_bm_server_id node.provider_id

-- Both loops of PickBMServer: the first id that is not empty.
unfoldable pub first_found : (Node → Str) → List Node → Str
first_found f [] = []
first_found f (n ∷ nodes) =
    let rest = first_found f nodes in let id = f n in if str_eq id [] then rest else id

abbrev pub by_provider : Node → Str
by_provider n = extract_bm_server_id n.provider_id

abbrev pub by_hostname : Option (Dict Str) → Node → Str
by_hostname m n = resolve_by_hostname n.name m

-- The nodes, or the error of listing them; the answer of ListBareMetalServers.
unfoldable pub pick_bm_server :
    Result (List Node) → Str → Option (List BareMetalServer) → Result Str
pick_bm_server (err e) vpc_id listed = err (codes "failed to list nodes: " ++ e)
pick_bm_server (ok nodes) vpc_id listed =
    let provided = first_found by_provider nodes in
    let resolved = first_found (by_hostname (build_bm_server_map vpc_id listed)) nodes in
    if str_eq provided []
    then if str_eq resolved []
      then err (codes "no bare metal server found in cluster")
      else ok resolved
    else ok provided
