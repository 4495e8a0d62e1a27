-- ===== src/Network/Vlans.antt =====
-- EnsureVLANAttachments and DeleteVLANAttachments of pkg/controller/network/helpers.go: the VLAN
-- attachment of a network on each bare metal node. A Go map is visited in the order of its list.
pub mod Kept
pub mod Stored
pub mod Deleted
mod Tests
use roks_vpc_cni.Base.{true, false, Option, none, some, List, [], ◌∷◌, ◌++◌, if◌then◌else◌}
use roks_vpc_cni.Text.{Str, codes, str_eq}
use roks_vpc_cni.Text.Integers.{ℤ, parse_int, decimal_int}
use roks_vpc_cni.Dict.{Dict, insert, has_key}
use roks_vpc_cni.Controllers.Effects.{Result, ok, err, pure, ◌>>=◌, ◌>>◌, branch, on_error}
use roks_vpc_cni.Controllers.Logged.{read, call, record_call}
use roks_vpc_cni.Network.Objects.{
  NetworkObject, CreateAttachmentOptions, VlanAttachment, update, allow_vlan, create_attachment,
  delete_attachment, create_resource, update_resource_status, metric, Action, NetworkEnv,
}
use roks_vpc_cni.Network.Attachments.{parse_attachments, serialize_attachments}
use roks_vpc_cni.Network.Names.{sanitize_name}
use roks_vpc_cni.Network.Servers.{
  Node, extract_bm_server_id, resolve_by_hostname, resolve_node_provider_id,
  resolve_node_bm_server_id, build_bm_server_map,
}
use roks_vpc_cni.Network.Subnets.{is_not_found, call_update}

-- The variables that the loops read.
pub record Scope : Type 0 where
  pub network : Str
  pub subnet_id : Str
  pub vlan_id : ℤ
  pub servers : Option (Dict Str)

-- The id of the server by the provider's id, or else by the name of the node.
abbrev pub or_by_hostname : Option (Dict Str) → Str → Str → Str
or_by_hostname servers node_name id =
    if str_eq id [] then resolve_by_hostname node_name servers else id

unfoldable pub attachment_name : Scope → Str
attachment_name x = codes "roks-" ++ (x.network ++ (codes "-vlan" ++ decimal_int x.vlan_id))

unfoldable pub resource_name : Scope → Str → Str
resource_name x node_name =
    x.network ++ (b'-' ∷ sanitize_name node_name ++ (codes "-vlan" ++ decimal_int x.vlan_id))

unfoldable pub resource_of : Scope → Str → Str → VlanAttachment
resource_of x bm_server_id node_name = record {
  name = resource_name x node_name;
  bm_server_id = bm_server_id;
  vlan_id = x.vlan_id;
  subnet_ref = x.network;
  subnet_id = x.subnet_id;
  node_name = node_name;
}

-- The custom resource of an attachment, and its status; errors are only logged.
unfoldable pub publish : NetworkEnv → VlanAttachment → Str → Action (Unit {0})
publish env r attachment_id = do
  e ← call (env.on_create_resource r) (create_resource r)
  on_error e (λ m. pure tt)
      (do
        _ ← call (env.on_update_resource_status r) (update_resource_status r attachment_id)
        pure tt)

unfoldable pub attachment_options : Scope → Str → CreateAttachmentOptions
attachment_options x bm_server_id = record {
  bm_server_id = bm_server_id;
  name = attachment_name x;
  vlan_id = x.vlan_id;
  subnet_id = x.subnet_id;
}

unfoldable pub after_attach :
    NetworkEnv → Scope → Str → Str → Dict Str → Result Str → Action (Dict Str)
after_attach env x node_name bm_server_id existing (err e) = do
  record_call (metric (codes "create_vlan_attachment") false)
  pure existing
after_attach env x node_name bm_server_id existing (ok id) = do
  record_call (metric (codes "create_vlan_attachment") true)
  publish env (resource_of x bm_server_id node_name) id
  pure (insert node_name id existing)

-- By the answer of EnsurePCIAllowedVLAN.
unfoldable pub after_allow :
    NetworkEnv → Scope → Str → Str → Dict Str → Option Str → Action (Dict Str)
after_allow env x node_name bm_server_id existing (some e) = do
  record_call (metric (codes "ensure_pci_vlan") false)
  pure existing
after_allow env x node_name bm_server_id existing none = do
  let q = attachment_options x bm_server_id
  r ← call (env.on_create_attachment q) (create_attachment q)
  after_attach env x node_name bm_server_id existing r

unfoldable pub attach : NetworkEnv → Scope → Str → Str → Dict Str → Action (Dict Str)
attach env x node_name bm_server_id existing = do
  e ← call (env.on_allow_vlan bm_server_id x.vlan_id) (allow_vlan bm_server_id x.vlan_id)
  after_allow env x node_name bm_server_id existing e

unfoldable pub attach_node : NetworkEnv → Scope → Node → Dict Str → Action (Dict Str)
attach_node env x node existing =
    let id = or_by_hostname x.servers node.name (extract_bm_server_id node.provider_id) in
    branch (has_key node.name existing) (pure existing)
      (branch (str_eq id []) (pure existing) (attach env x node.name id existing))

unfoldable pub attach_nodes : NetworkEnv → Scope → List Node → Dict Str → Action (Dict Str)
attach_nodes env x [] existing = pure existing
attach_nodes env x (node ∷ nodes) existing = do
  existing' ← attach_node env x node existing
  attach_nodes env x nodes existing'

-- The custom resource of a tracked attachment, where reading it fails.
unfoldable pub backfill_missing :
    NetworkEnv → Scope → Str → Str → Option VlanAttachment → Action (Unit {0})
backfill_missing env x node_name id (some r) = pure tt
backfill_missing env x node_name id none = do
  node ← read (env.get_node node_name)
  let bm = or_by_hostname x.servers node_name (extract_bm_server_id (resolve_node_provider_id node))
  publish env (resource_of x bm node_name) id

unfoldable pub backfill : NetworkEnv → Scope → Dict Str → Action (Unit {0})
backfill env x [] = pure tt
backfill env x ((node_name, id) ∷ m) = do
  r ← read (env.get_resource (resource_name x node_name))
  backfill_missing env x node_name id r
  backfill env x m

abbrev pub with_attachments : NetworkObject → Dict Str → NetworkObject
with_attachments o m = record o {
  annotations = record o.annotations { vlan_attachments = serialize_attachments m };
}

unfoldable pub scope_of : NetworkObject → Option (Dict Str) → Scope
scope_of o servers = record {
  network = o.name;
  subnet_id = o.annotations.subnet_id;
  vlan_id = parse_int o.annotations.vlan_id;
  servers = servers;
}

-- The error, and the object as it is left in memory.
unfoldable pub attach_all :
    NetworkEnv → NetworkObject → Scope → List Node → Action (Option Str × NetworkObject)
attach_all env o x nodes = do
  m ← attach_nodes env x nodes (parse_attachments o.annotations.vlan_attachments)
  let o' = with_attachments o m
  e ← call_update env o'
  on_error e (λ s. pure (some s, o')) (do backfill env x m; pure (none, o'))

unfoldable pub after_nodes :
    NetworkEnv → NetworkObject → Result (List Node) → Action (Option Str × NetworkObject)
after_nodes env o (err e) = pure (some (codes "failed to list nodes: " ++ e), o)
after_nodes env o (ok nodes) = do
  listed ← read (env.list_servers o.annotations.vpc_id)
  attach_all env o (scope_of o (build_bm_server_map o.annotations.vpc_id listed)) nodes

unfoldable pub ensure_vlan_attachments :
    NetworkEnv → NetworkObject → Action (Option Str × NetworkObject)
ensure_vlan_attachments env o =
    branch (str_eq o.annotations.subnet_id []) (pure (none, o))
      (do nodes ← read env.list_nodes; after_nodes env o nodes)

-- The loop of DeleteVLANAttachments.
unfoldable pub detach_nodes : NetworkEnv → Option (Dict Str) → Dict Str → Action (Option Str)
detach_nodes env servers [] = pure none
detach_nodes env servers ((node_name, id) ∷ m) = do
  node ← read (env.get_node node_name)
  let bm = or_by_hostname servers node_name (resolve_node_bm_server_id node)
  branch (str_eq bm []) (detach_nodes env servers m) (do
    e ← call (env.on_delete_attachment bm id) (delete_attachment bm id)
    on_error e (λ s. branch (is_not_found s) (detach_nodes env servers m) (pure (some s)))
        (detach_nodes env servers m))

unfoldable pub delete_vlan_attachments : NetworkEnv → NetworkObject → Action (Option Str)
delete_vlan_attachments env o = branch (str_eq o.annotations.vlan_attachments []) (pure none) (do
  listed ← read (env.list_servers o.annotations.vpc_id)
  detach_nodes env (build_bm_server_map o.annotations.vpc_id listed)
      (parse_attachments o.annotations.vlan_attachments))
