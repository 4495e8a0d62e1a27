-- ===== src/Network/Objects.antt =====
-- The network objects (CUDN and UDN) that pkg/controller/network/helpers.go works on, and the calls
-- that it makes. Every answer of the Kubernetes and VPC interfaces is a parameter, and may depend on
-- all that was called before.
use roks_vpc_cni.Base.{◌+◌, ℕ, Bool, Option, none, List, [], ◌∷◌}
use roks_vpc_cni.Text.{Str}
use roks_vpc_cni.Text.Integers.{ℤ}
use roks_vpc_cni.Controllers.Effects.{Result, ok, Logged}
use roks_vpc_cni.Network.Cidr.{AddressPrefix}
use roks_vpc_cni.Network.Servers.{Node, BareMetalServer}

-- The annotations that the operator reads or writes. One that is absent is the empty string, which
-- is what reading a Go map gives.
pub record Annotations : Type 0 where
  pub zone : Str
  pub cidr : Str
  pub vpc_id : Str
  pub vlan_id : Str
  pub acl_id : Str
  pub public_gateway_id : Str
  pub subnet_id : Str
  pub subnet_name : Str
  pub subnet_status : Str
  pub subnet_error : Str
  pub vlan_attachments : Str
  pub nncp_name : Str

pub record NetworkObject : Type 0 where
  pub name : Str
  pub namespace : Str
  pub finalizers : List Str
  pub annotations : Annotations

pub record CreateSubnetOptions : Type 0 where
  pub name : Str
  pub vpc_id : Str
  pub zone : Str
  pub cidr : Str
  pub acl_id : Str
  pub public_gateway_id : Str
  pub cluster_id : Str
  pub cudn_name : Str

-- vpc.Subnet
pub record Subnet : Type 0 where
  pub id : Str
  pub name : Str
  pub cidr : Str
  pub status : Str

-- vpc.ReservedIP, as far as it is read here.
pub record ReservedIp : Type 0 where
  pub id : Str
  pub owner : Str

pub record CreateAttachmentOptions : Type 0 where
  pub bm_server_id : Str
  pub name : Str
  pub vlan_id : ℤ
  pub subnet_id : Str

-- The VLANAttachment custom resource, its labels and constant fields left out.
pub record VlanAttachment : Type 0 where
  pub name : Str
  pub bm_server_id : Str
  pub vlan_id : ℤ
  pub subnet_ref : Str
  pub subnet_id : Str
  pub node_name : Str

-- What the NodeNetworkConfigurationPolicy of a network is made of.
pub record NncpOptions : Type 0 where
  pub name : Str
  pub network : Str
  pub physical_network : Str
  pub bridge : Str
  pub secondary_nic : Str
  pub node_selector : List (Str × Str)

-- The answer of its creation.
pub data Creation : Type 0 where
  made already_exists : Creation
  failed : Str → Creation

pub data NetworkCall : Type 0 where
  update : NetworkObject → Option Str → NetworkCall
  create_subnet : CreateSubnetOptions → Result Subnet → NetworkCall
  delete_subnet : Str → Option Str → NetworkCall
  allow_vlan : Str → ℤ → Option Str → NetworkCall
  create_attachment : CreateAttachmentOptions → Result Str → NetworkCall
  delete_attachment : Str → Str → Option Str → NetworkCall
  create_resource : VlanAttachment → Option Str → NetworkCall
  update_resource_status : VlanAttachment → Str → Option Str → NetworkCall
  metric : Str → Bool → NetworkCall
  create_nncp : NncpOptions → Creation → NetworkCall
  delete_nncp : Str → NetworkCall
  event : Str → NetworkCall

abbrev pub Calls : Type 0
Calls = List NetworkCall

abbrev pub Action : Type 0 → Type 0
Action = Logged NetworkCall

pub record NetworkEnv : Type 0 where
  pub on_update : NetworkObject → Calls → Option Str
  pub on_create_subnet : CreateSubnetOptions → Calls → Result Subnet
  pub on_delete_subnet : Str → Calls → Option Str
  pub on_allow_vlan : Str → ℤ → Calls → Option Str
  pub on_create_attachment : CreateAttachmentOptions → Calls → Result Str
  pub on_delete_attachment : Str → Str → Calls → Option Str
  pub on_create_resource : VlanAttachment → Calls → Option Str
  pub on_update_resource_status : VlanAttachment → Calls → Option Str
  pub list_prefixes : Str → Calls → Result (List AddressPrefix)
  pub list_subnets : Str → Calls → Result (List Subnet)
  pub list_reserved_ips : Str → Calls → Result (List ReservedIp)
  pub list_servers : Str → Calls → Option (List BareMetalServer)
  pub list_nodes : Calls → Result (List Node)
  pub get_node : Str → Calls → Option Node
  pub get_resource : Str → Calls → Option VlanAttachment
  pub on_create_nncp : NncpOptions → Calls → Creation
  pub has_nncp : Str → Calls → Bool
  pub has_recorder : Bool

-- The object that the API server holds after the updates that succeeded.
unfoldable pub stored : NetworkObject → Calls → NetworkObject
stored o [] = o
stored o (update o' none ∷ t) = o'
stored o (_ ∷ t) = stored o t

-- The subnets and the attachments that were created.
unfoldable pub subnets_created : Calls → ℕ
subnets_created [] = 0
subnets_created (create_subnet q (ok s) ∷ t) = 1 + subnets_created t
subnets_created (_ ∷ t) = subnets_created t

unfoldable pub attachments_created : Calls → ℕ
attachments_created [] = 0
attachments_created (create_attachment q (ok s) ∷ t) = 1 + attachments_created t
attachments_created (_ ∷ t) = attachments_created t

-- The attachments whose deletion was asked for.
unfoldable pub attachment_deletions : Calls → ℕ
attachment_deletions [] = 0
attachment_deletions (delete_attachment bm id e ∷ t) = 1 + attachment_deletions t
attachment_deletions (_ ∷ t) = attachment_deletions t
