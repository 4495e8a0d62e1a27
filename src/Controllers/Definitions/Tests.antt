-- ===== src/Controllers/Definitions/Tests.antt =====
-- A network with a subnet and an attachment that is deleted.
use roks_vpc_cni.Network.Subnets.{
  delete_vpc_subnet, count_active, subnet_has_active_vnis, is_not_found,
}
use roks_vpc_cni.Network.Servers.{fourth, extract_bm_server_id, resolve_node_bm_server_id}
use roks_vpc_cni.Dict.{insert}
use roks_vpc_cni.Network.Attachments.{parse_entry, parse_entries, parse_attachments}
use roks_vpc_cni.Base.{◌≡◌, refl, true, none, some, [], ◌∷◌}
use roks_vpc_cni.Text.{member, contains, to_lower, has_prefix, split2, split, str_eq, codes}
use roks_vpc_cni.Controllers.Effects.{err, requeue}
use roks_vpc_cni.Network.Samples.{env_with, net}
use roks_vpc_cni.Network.Objects.{NetworkObject, NetworkEnv}
use roks_vpc_cni.Network.Vlans.{detach_nodes, delete_vlan_attachments}
use roks_vpc_cni.Network.Vlans.Deleted.{IsClean}
use roks_vpc_cni.Controllers.Definitions.{
  unprotect, let_go, after_active, remove_subnet, by_topology, reconcile_found, Setting,
  cudn_cleanup, reconcile_delete_local_net, reconcile, object,
}
use roks_vpc_cni.Controllers.Definitions.Released.{written, SubnetSettled, written-SubnetSettled}

abbrev leaving : NetworkObject
leaving = record net {
  finalizers = cudn_cleanup ∷ [];
  annotations = record net.annotations {
    subnet_id = codes "s-1";
    vlan_attachments = codes "n1:a1";
  };
}

abbrev cudn_setting : Setting
cudn_setting = record {
  cluster_id = codes "c";
  sha256 = λ s. [];
  parse_cidr = λ s. none;
  nncp = record { enabled = true; bridge_name = []; secondary_nic = []; node_selector = none };
  cleanup = cudn_cleanup;
}

-- The node is known with its server, and the attachment is gone already.
abbrev env : NetworkEnv
env = record (env_with []) {
  get_node =
      λ n t. some (record { name = n; provider_id = codes "ibm://a/b/c/d"; instance_type = [] });
  on_delete_attachment = λ s id t. some (codes "attachment not found");
}

written-SubnetSettled_example :
    ((delete_vlan_attachments env leaving []).0 ≡ none)
    × (IsClean (delete_vlan_attachments env leaving []).1)
    × (SubnetSettled env leaving (delete_vlan_attachments env leaving []).1)
unfolding written reconcile_delete_local_net delete_vlan_attachments str_eq detach_nodes
    parse_attachments parse_entries split parse_entry split2 insert resolve_node_bm_server_id
    extract_bm_server_id fourth has_prefix is_not_found contains remove_subnet after_active
    subnet_has_active_vnis count_active delete_vpc_subnet let_go unprotect member
written-SubnetSettled_example = written-SubnetSettled cudn_setting env leaving refl

-- Where the subnet's addresses cannot be listed, the run is repeated.
unknown_use_requeues :
    (reconcile cudn_setting
      (record env { list_reserved_ips = λ s t. err (codes "down") })
      (object (record {
        object = leaving;
        present = [];
        deleting = true;
        topology = codes "Localnet";
        cudn_physical_name = [];
        udn_physical_name = [];
      }))
      []).0
    ≡ requeue 30
unfolding reconcile reconcile_found by_topology str_eq to_lower reconcile_delete_local_net
    delete_vlan_attachments detach_nodes parse_attachments parse_entries split parse_entry split2
    insert resolve_node_bm_server_id extract_bm_server_id fourth has_prefix is_not_found contains
    remove_subnet after_active subnet_has_active_vnis
unknown_use_requeues = refl
