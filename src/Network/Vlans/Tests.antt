-- ===== src/Network/Vlans/Tests.antt =====
-- The loop over the nodes, and the annotation that it leaves, at a concrete network.
use roks_vpc_cni.Base.{◌+◌, ◌≡◌, refl, none, some, List, [], ◌∷◌, arith, length, All}
use roks_vpc_cni.Text.{contains, Str, codes, str_eq, has_prefix, split, split2, trim_space}
use roks_vpc_cni.Text.Integers.{pos}
use roks_vpc_cni.Dict.{lookup, insert}
use roks_vpc_cni.Controllers.Effects.{ok}
use roks_vpc_cni.Network.Samples.{env_with, net}
use roks_vpc_cni.Network.Objects.{NetworkObject, NetworkEnv, stored, attachments_created}
use roks_vpc_cni.Network.Attachments.{parse_entry, parse_entries, parse_attachments}
use roks_vpc_cni.Network.Attachments.RoundTrip.{IsPlain}
use roks_vpc_cni.Network.Servers.{
  Node, resolve_node_bm_server_id, extract_bm_server_id, fourth, resolve_by_hostname,
}
use roks_vpc_cni.Network.Vlans.{
  delete_vlan_attachments, detach_nodes, Scope, after_attach, after_allow, attach, attach_node,
  attach_nodes, attach_all, after_nodes, ensure_vlan_attachments,
}
use roks_vpc_cni.Network.Vlans.Deleted.{IsClean, delete_vlan_attachments-IsClean}
use roks_vpc_cni.Network.Subnets.{is_not_found}
use roks_vpc_cni.Network.Vlans.Kept.{attach_nodes_grow}
use roks_vpc_cni.Network.Vlans.Stored.{PlainFor, ensure_vlan_attachments-Keeps}

abbrev scope : Scope
scope = record { network = codes "net"; subnet_id = codes "s-1"; vlan_id = pos 100; servers = none }

abbrev node_1 : Node
node_1 = record {
  name = codes "n1";
  provider_id = codes "ibm://a/r/z/bm-1";
  instance_type = codes "bx2.metal";
}

abbrev node_2 : Node
node_2 = record { name = codes "n2"; provider_id = []; instance_type = codes "bx2.metal" }

one_attached :
    (attach_nodes (env_with []) scope (node_1 ∷ node_2 ∷ []) [] []).0
    ≡ (codes "n1", codes "a-1") ∷ []
unfolding attach_nodes attach_node attach after_allow after_attach lookup insert str_eq
    extract_bm_server_id fourth split has_prefix resolve_by_hostname
one_attached = refl

attach_nodes_grow_example :
    let (m', t') = attach_nodes (env_with []) scope (node_1 ∷ node_2 ∷ []) [] [] in
    (attachments_created t' + length {0} {A = Str × Str} [] ≡ attachments_created [] + length m')
    × ((j v : Str) → lookup j [] ≡ some v → lookup j m' ≡ some v)
attach_nodes_grow_example = attach_nodes_grow (env_with []) scope (node_1 ∷ node_2 ∷ []) [] []

-- The network with a subnet and an attachment, in a cluster of one more node.
abbrev net_1 : NetworkObject
net_1 = record net {
  annotations = record net.annotations {
    subnet_id = codes "s-1";
    vlan_attachments = codes "n3:a3";
  };
}

abbrev env_1 : NetworkEnv
env_1 = record (env_with []) { list_nodes = λ t. ok (node_1 ∷ []) }

n3-IsPlain : IsPlain (codes "n3", codes "a3")
unfolding trim_space
n3-IsPlain = record {
  node_comma = omega arith;
  node_colon = omega arith;
  node_trim = refl;
  id_comma = omega arith;
  id_trim = refl;
}

n1-IsPlain : IsPlain (codes "n1", codes "a-1")
unfolding trim_space
n1-IsPlain = record {
  node_comma = omega arith;
  node_colon = omega arith;
  node_trim = refl;
  id_comma = omega arith;
  id_trim = refl;
}

ids_plain : PlainFor env_1 (codes "n1")
ids_plain q t id e = rw⁻¹ (ok-injective e) n1-IsPlain
  where
    ok-injective : {a b : Str} → ok a ≡ ok b → a ≡ b
    ok-injective p = cc

nodes_plain :
    (nodes : List Node) → env_1.list_nodes [] ≡ ok nodes → All (λ n. PlainFor env_1 n.name) nodes
nodes_plain nodes e = rw⁻¹ (ok-injective e) (ids_plain, tt)
  where
    ok-injective : {a b : List Node} → ok a ≡ ok b → a ≡ b
    ok-injective p = cc

ensure_vlan_attachments-Keeps_example :
    lookup (codes "n3") (
      parse_attachments
        (stored net_1 (ensure_vlan_attachments env_1 net_1 []).1).annotations.vlan_attachments)
    ≡ some (codes "a3")
unfolding parse_attachments parse_entries parse_entry split split2 trim_space insert lookup str_eq
    ensure_vlan_attachments after_nodes attach_all
ensure_vlan_attachments-Keeps_example =
    ensure_vlan_attachments-Keeps env_1 net_1 nodes_plain (n3-IsPlain, refl, tt) refl (codes "n3")
      (codes "a3") refl

-- The servers of the nodes are found, and the deletion finds nothing.
abbrev env_gone : NetworkEnv
env_gone = record (env_with []) {
  get_node = λ n t. some node_1;
  on_delete_attachment = λ s a t. some (codes "not found");
}

delete_vlan_attachments-IsClean_example : IsClean (delete_vlan_attachments env_gone net_1 []).1
unfolding delete_vlan_attachments detach_nodes parse_attachments parse_entries parse_entry split
    split2 trim_space insert str_eq extract_bm_server_id fourth has_prefix resolve_node_bm_server_id
    is_not_found contains
delete_vlan_attachments-IsClean_example = delete_vlan_attachments-IsClean env_gone net_1 refl
