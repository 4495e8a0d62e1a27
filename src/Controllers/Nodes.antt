-- ===== src/Controllers/Nodes.antt =====
-- pkg/controller/node/reconciler.go: the VLAN attachments of a node that joins or leaves. Annotations
-- that are nil read as empty, and both loops skip an object whose annotations are empty.
pub mod Detached
mod Tests
use roks_vpc_cni.Base.{
  ◌&&◌, ◌||◌, Bool, true, false, not, Option, none, some, List, [], ◌∷◌, ◌++◌, map, if◌then◌else◌,
}
use roks_vpc_cni.Text.{Str, codes, str_eq}
use roks_vpc_cni.Text.Integers.{parse_int}
use roks_vpc_cni.Dict.{Dict, lookup, insert, erase, has_key}
use roks_vpc_cni.Controllers.Effects.{
  Result, ok, err, Outcome, finished, failing, requeue, pure, ◌>>=◌, ◌>>◌, branch,
}
use roks_vpc_cni.Controllers.Logged.{read, call, record_call}
use roks_vpc_cni.Network.Objects.{
  NetworkObject, CreateAttachmentOptions, create_attachment, metric, Calls, Action, NetworkEnv,
}
use roks_vpc_cni.Network.Attachments.{parse_attachments}
use roks_vpc_cni.Network.Servers.{Node, extract_bm_server_id, is_bare_metal_node}
use roks_vpc_cni.Network.Subnets.{call_update}
use roks_vpc_cni.Network.Vlans.{
  Scope, scope_of, attachment_name, attachment_options, with_attachments,
}

-- corev1.NodeCondition
pub record NodeCondition : Type 0 where
  pub kind : Str
  pub status : Str

-- A CUDN or UDN with its `spec.topology`, empty where there is none.
pub record Definition : Type 0 where
  pub object : NetworkObject
  pub topology : Str

pub record NodeEnv : Type 0 where
  pub network : NetworkEnv
  pub list_cudns : Calls → Result (List Definition)
  pub list_udns : Calls → Result (List Definition)

-- isNodeReady
unfoldable pub is_node_ready : List NodeCondition → Bool
is_node_ready [] = false
is_node_ready (c ∷ cs) =
    (str_eq c.kind (codes "Ready") && str_eq c.status (codes "True")) || is_node_ready cs

-- The objects of topology LocalNet.
unfoldable pub local_nets : List Definition → List NetworkObject
local_nets [] = []
local_nets (d ∷ ds) =
    let rest = local_nets ds in
    if str_eq d.topology (codes "LocalNet") then d.object ∷ rest else rest

abbrev pub objects : List Definition → List NetworkObject
objects [] = []
objects (d ∷ ds) = d.object ∷ objects ds

-- Both listings, by what is kept of each: an error of the second one is only logged.
abbrev pub join_lists :
    (List Definition → List NetworkObject)
    → Result (List Definition)
    → Result (List Definition)
    → Result (List NetworkObject)
join_lists keep (err e) udns = err e
join_lists keep (ok cudns) (err e) = ok (keep cudns)
join_lists keep (ok cudns) (ok udns) = ok (keep cudns ++ keep udns)

unfoldable pub list_local_net_networks : NodeEnv → Action (Result (List NetworkObject))
list_local_net_networks env = do
  cudns ← read env.list_cudns
  udns ← read env.list_udns
  pure (join_lists local_nets cudns udns)

unfoldable pub list_all_networks : NodeEnv → Action (Result (List NetworkObject))
list_all_networks env = do
  cudns ← read env.list_cudns
  udns ← read env.list_udns
  pure (join_lists objects cudns udns)

-- By the answer of CreateVLANAttachment.
unfoldable pub after_attach : NodeEnv → Str → NetworkObject → Result Str → Action (Unit {0})
after_attach env node_name o (err e) = record_call (metric (codes "create_vlan_attachment") false)
after_attach env node_name o (ok id) = do
  record_call (metric (codes "create_vlan_attachment") true)
  _ ←
      call_update env.network (
        with_attachments o (insert node_name id (parse_attachments o.annotations.vlan_attachments)))
  pure tt

-- The body of the loop of reconcileNormal.
unfoldable pub attach_network : NodeEnv → Str → Str → NetworkObject → Action (Unit {0})
attach_network env node_name bm_server_id o =
    let q = attachment_options (scope_of o none) bm_server_id in
    branch (str_eq o.annotations.subnet_id []) (pure tt) (
      branch (has_key node_name (parse_attachments o.annotations.vlan_attachments)) (pure tt) (do
        r ← call (env.network.on_create_attachment q) (create_attachment q)
        after_attach env node_name o r))

unfoldable pub attach_networks : NodeEnv → Str → Str → List NetworkObject → Action Outcome
attach_networks env node_name bm_server_id [] = pure finished
attach_networks env node_name bm_server_id (o ∷ os) = do
  attach_network env node_name bm_server_id o
  attach_networks env node_name bm_server_id os

unfoldable pub attach_listed : NodeEnv → Str → Str → Result (List NetworkObject) → Action Outcome
attach_listed env node_name bm_server_id (err e) = pure (failing e)
attach_listed env node_name bm_server_id (ok os) = attach_networks env node_name bm_server_id os

unfoldable pub reconcile_normal : NodeEnv → Node → Action Outcome
reconcile_normal env node =
    let id = extract_bm_server_id node.provider_id in
    branch (str_eq id []) (pure finished)
      (do listed ← list_local_net_networks env; attach_listed env node.name id listed)

-- The body of the loop of reconcileDelete, by what the map has for the node.
unfoldable pub forget_attachment : NodeEnv → Str → NetworkObject → Option Str → Action (Unit {0})
forget_attachment env node_name o none = pure tt
forget_attachment env node_name o (some id) = do
  _ ←
      call_update env.network
        (with_attachments o (erase node_name (parse_attachments o.annotations.vlan_attachments)))
  pure tt

unfoldable pub detach_network : NodeEnv → Str → NetworkObject → Action (Unit {0})
detach_network env node_name o =
    forget_attachment env node_name o
      (lookup node_name (parse_attachments o.annotations.vlan_attachments))

unfoldable pub detach_networks : NodeEnv → Str → List NetworkObject → Action Outcome
detach_networks env node_name [] = pure finished
detach_networks env node_name (o ∷ os) = do
  detach_network env node_name o
  detach_networks env node_name os

unfoldable pub detach_listed : NodeEnv → Str → Result (List NetworkObject) → Action Outcome
detach_listed env node_name (err e) = pure (failing e)
detach_listed env node_name (ok os) = detach_networks env node_name os

unfoldable pub reconcile_delete : NodeEnv → Str → Action Outcome
reconcile_delete env node_name = do
  listed ← list_all_networks env
  detach_listed env node_name listed

-- The answer of r.Get for the request's name.
pub data Fetched : Type 0 where
  found : Node → List NodeCondition → Fetched
  missing : Fetched
  broken : Str → Fetched

unfoldable pub reconcile : NodeEnv → Str → Fetched → Action Outcome
reconcile env name missing = reconcile_delete env name
reconcile env name (broken e) = pure (failing e)
reconcile env name (found node conditions) =
    branch (not (is_bare_metal_node node)) (pure finished)
      (branch (not (is_node_ready conditions)) (pure (requeue 30)) (reconcile_normal env node))
