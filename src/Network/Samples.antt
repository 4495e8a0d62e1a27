-- ===== src/Network/Samples.antt =====
-- A network and interfaces for the tests.
use roks_vpc_cni.Base.{true, false, none, List, []}
use roks_vpc_cni.Text.{codes}
use roks_vpc_cni.Controllers.Effects.{ok, err}
use roks_vpc_cni.Network.Objects.{NetworkObject, made, Subnet, NetworkEnv}

abbrev pub subnet_a : Subnet
subnet_a = record {
  id = codes "s-1";
  name = codes "roks-c-net";
  cidr = codes "10.0.0.0/24";
  status = codes "available";
}

-- Interfaces on which every call succeeds; the VPC has these subnets.
abbrev pub env_with : List Subnet → NetworkEnv
env_with ss = record {
  on_update = λ o t. none;
  on_create_subnet = λ q t. ok subnet_a;
  on_delete_subnet = λ s t. none;
  on_allow_vlan = λ s v t. none;
  on_create_attachment = λ q t. ok (codes "a-1");
  on_delete_attachment = λ s a t. none;
  on_create_resource = λ r t. none;
  on_update_resource_status = λ r t. none;
  list_prefixes = λ v t. err (codes "down");
  list_subnets = λ v t. ok ss;
  list_reserved_ips = λ s t. ok [];
  list_servers = λ v t. none;
  list_nodes = λ t. ok [];
  get_node = λ n t. none;
  get_resource = λ n t. none;
  on_create_nncp = λ q t. made;
  has_nncp = λ n t. false;
  has_recorder = true;
}

abbrev pub net : NetworkObject
net = record {
  name = codes "net";
  namespace = [];
  finalizers = [];
  annotations = record {
    zone = codes "z";
    cidr = codes " 10.0.0.0/24";
    vpc_id = [];
    vlan_id = codes "100";
    acl_id = [];
    public_gateway_id = [];
    subnet_id = [];
    subnet_name = [];
    subnet_status = [];
    subnet_error = codes "old";
    vlan_attachments = [];
    nncp_name = [];
  };
}
