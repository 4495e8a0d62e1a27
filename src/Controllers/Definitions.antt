-- ===== src/Controllers/Definitions.antt =====
-- pkg/controller/cudn/reconciler.go and pkg/controller/udn/reconciler.go, which differ in where the
-- topology stands and in the finalizer, with pkg/controller/network/nncp.go.
pub mod Released
mod Tests
use roks_vpc_cni.Base.{
  ℕ, ◌&&◌, not, Bool, true, false, Option, none, some, List, [], ◌∷◌, ◌++◌, if◌then◌else◌,
}
use roks_vpc_cni.Text.{Str, codes, str_eq, member, to_lower}
use roks_vpc_cni.Controllers.Effects.{
  Result, ok, err, Outcome, finished, failing, requeue, remove_finalizer, pure, ◌>>=◌, ◌>>◌, branch,
  on_error,
}
use roks_vpc_cni.Controllers.Logged.{read, call, record_call}
use roks_vpc_cni.Network.Objects.{
  Annotations, NetworkObject, NncpOptions, Creation, made, already_exists, failed, create_nncp,
  delete_nncp, event, Calls, Action, NetworkEnv,
}
use roks_vpc_cni.Network.Cidr.{IpNet}
use roks_vpc_cni.Network.Subnets.{
  Ensured, call_update, ensure_vpc_subnet, subnet_has_active_vnis, delete_vpc_subnet,
}
use roks_vpc_cni.Network.Vlans.{ensure_vlan_attachments, delete_vlan_attachments}

-- A CUDN or UDN: `present` are the keys of its annotations; a text of the specification that is
-- missing is empty.
pub record UserNetwork : Type 0 where
  pub object : NetworkObject
  pub present : List Str
  pub deleting : Bool
  pub topology : Str
  pub cudn_physical_name : Str
  pub udn_physical_name : Str

pub record NncpConfig : Type 0 where
  pub enabled : Bool
  pub bridge_name : Str
  pub secondary_nic : Str
  pub node_selector : Option (List (Str × Str))

-- What the two reconcilers share: the parameters of the helpers, and the finalizer.
pub record Setting : Type 0 where
  pub cluster_id : Str
  pub sha256 : Str → List ℕ
  pub parse_cidr : Str → Option IpNet
  pub nncp : NncpConfig
  pub cleanup : Str

-- finalizers.CUDNCleanup and finalizers.UDNCleanup
abbrev pub cudn_cleanup : Str
cudn_cleanup = codes "vpc.roks.ibm.com/cudn-cleanup"

abbrev pub udn_cleanup : Str
udn_cleanup = codes "vpc.roks.ibm.com/udn-cleanup"

unfoldable pub extract_physical_network_name : UserNetwork → Str
extract_physical_network_name u =
    if not (str_eq u.cudn_physical_name [])
    then u.cudn_physical_name
    else if not (str_eq u.udn_physical_name [])
    then u.udn_physical_name
    else u.object.name

-- A text, or another one for the empty text.
abbrev pub or_default : Str → Str → Str
or_default s other = if str_eq s [] then other else s

unfoldable pub nncp_options : NncpConfig → NetworkObject → Str → NncpOptions
nncp_options cfg o physical = record {
  name = codes "localnet-" ++ physical;
  network = o.name;
  physical_network = physical;
  bridge = or_default cfg.bridge_name (codes "br-localnet");
  secondary_nic = or_default cfg.secondary_nic (codes "bond1");
  node_selector = elim cfg.node_selector [
    | none ↦ (codes "node-role.kubernetes.io/worker", []) ∷ []
    | some m ↦ m
  ];
}

abbrev pub with_nncp : NetworkObject → Str → NetworkObject
with_nncp o name = record o { annotations = record o.annotations { nncp_name = name } }

-- The error of EnsureNNCP.
unfoldable pub store_nncp : NetworkEnv → NetworkObject → Str → Action (Option Str)
store_nncp env o name = do
  e ← call_update env (with_nncp o name)
  on_error e (λ m. pure (some (codes "failed to update NNCP annotation: " ++ m))) (pure none)

-- By the answer of the creation.
unfoldable pub after_create_nncp : NetworkEnv → NetworkObject → Str → Creation → Action (Option Str)
after_create_nncp env o name made = store_nncp env o name
after_create_nncp env o name already_exists = store_nncp env o name
after_create_nncp env o name (failed m) =
    pure (some (codes "failed to create NNCP " ++ (name ++ (codes ": " ++ m))))

unfoldable pub make_nncp : NncpConfig → NetworkEnv → NetworkObject → Str → Action (Option Str)
make_nncp cfg env o physical = do
  let q = nncp_options cfg o physical
  r ← call (env.on_create_nncp q) (create_nncp q)
  after_create_nncp env o q.name r

unfoldable pub ensure_nncp : NncpConfig → NetworkEnv → NetworkObject → Str → Action (Option Str)
ensure_nncp cfg env o physical_name =
    let physical = or_default physical_name o.name in
    branch (not cfg.enabled) (pure none) (
      branch (str_eq o.annotations.nncp_name []) (make_nncp cfg env o physical) (do
        there ← read (env.has_nncp o.annotations.nncp_name)
        branch there (pure none) (make_nncp cfg env o physical)))

-- DeleteNNCP, whose answer is only logged.
unfoldable pub remove_nncp : NetworkObject → Action (Unit {0})
remove_nncp o =
    branch (str_eq o.annotations.nncp_name []) (pure tt)
      (record_call (delete_nncp o.annotations.nncp_name))

module _ (x : Setting) (env : NetworkEnv) where
  -- finalizers.EnsureAdded: the object with the finalizer, and the error.
  unfoldable pub protect : NetworkObject → Action (NetworkObject × Option Str)
  protect o =
      let o' = record o { finalizers = o.finalizers ++ x.cleanup ∷ [] } in
      branch (member x.cleanup o.finalizers) (pure (o, none))
        (do e ← call_update env o'; pure (o', e))

  -- finalizers.EnsureRemoved, and the end of the run.
  unfoldable pub unprotect : NetworkObject → Action Outcome
  unprotect o =
      let o' = record o { finalizers = remove_finalizer x.cleanup o.finalizers } in
      branch (member x.cleanup o.finalizers)
        (do e ← call_update env o'; on_error e (λ m. pure (failing m)) (pure finished))
        (pure finished)

  unfoldable pub attach_and_map : Str → NetworkObject → Action Outcome
  attach_and_map physical o = do
    r ← ensure_vlan_attachments env o
    on_error r.0 (λ m. pure (failing m))
        (do
          e ← ensure_nncp x.nncp env r.1 physical
          on_error e (λ _. pure (requeue 30)) (pure finished))

  unfoldable pub provision : Str → NetworkObject → Action Outcome
  provision physical o = do
    r ← ensure_vpc_subnet x.sha256 x.parse_cidr env x.cluster_id o
    on_error r.error (λ _. pure (requeue 30)) (attach_and_map physical r.object)

  abbrev pub required : List Str
  required =
      codes "vpc.roks.ibm.com/zone"
      ∷ codes "vpc.roks.ibm.com/cidr"
      ∷ codes "vpc.roks.ibm.com/vpc-id"
      ∷ codes "vpc.roks.ibm.com/vlan-id"
      ∷ codes "vpc.roks.ibm.com/security-group-ids"
      ∷ codes "vpc.roks.ibm.com/acl-id"
      ∷ []

  -- The first key that is not present.
  unfoldable pub missing_key : List Str → List Str → Option Str
  missing_key present [] = none
  missing_key present (k ∷ ks) = if member k present then missing_key present ks else some k

  unfoldable pub reconcile_local_net : UserNetwork → Action Outcome
  reconcile_local_net u =
      on_error (missing_key u.present required)
        (λ k. pure (record {
          requeue_after = 30;
          error = some (codes "missing required annotation: " ++ k);
        }))
        (do
          r ← protect u.object
          on_error r.1 (λ m. pure (failing m)) (provision (extract_physical_network_name u) r.0))

  unfoldable pub reconcile_layer2 : UserNetwork → Action Outcome
  reconcile_layer2 u = do r ← protect u.object; on_error r.1 (λ m. pure (failing m)) (pure finished)

  -- The end of a deletion.
  unfoldable pub let_go : NetworkObject → Action Outcome
  let_go o = do remove_nncp o; unprotect o

  -- By whether the subnet has addresses of others in use.
  unfoldable pub after_active : NetworkObject → Result (Bool × ℕ) → Action Outcome
  after_active o (err e) = pure (requeue 30)
  after_active o (ok (true, n)) = do
    branch env.has_recorder (record_call (event (codes "SubnetInUse"))) (pure tt)
    let_go o
  after_active o (ok (false, n)) = do
    e ← delete_vpc_subnet env o
    on_error e (λ _. pure (requeue 30)) (let_go o)

  unfoldable pub remove_subnet : NetworkObject → Action Outcome
  remove_subnet o =
      branch (str_eq o.annotations.subnet_id []) (let_go o)
        (do r ← subnet_has_active_vnis env o.annotations.subnet_id; after_active o r)

  unfoldable pub reconcile_delete_local_net : NetworkObject → Action Outcome
  reconcile_delete_local_net o = do
    e ← delete_vlan_attachments env o
    on_error e (λ _. pure (requeue 30)) (remove_subnet o)

  unfoldable pub reconcile_delete_layer2 : NetworkObject → Action Outcome
  reconcile_delete_layer2 o = unprotect o

  -- Two handlers by the topology; another one is left alone.
  unfoldable pub by_topology : Str → Action Outcome → Action Outcome → Action Outcome
  by_topology topology local layer2 =
      branch (str_eq (to_lower topology) (codes "localnet")) local
        (branch (str_eq (to_lower topology) (codes "layer2")) layer2 (pure finished))

  unfoldable pub reconcile_found : UserNetwork → Action Outcome
  reconcile_found u =
      branch u.deleting
        (by_topology u.topology (reconcile_delete_local_net u.object)
          (reconcile_delete_layer2 u.object))
        (by_topology u.topology (reconcile_local_net u) (reconcile_layer2 u))

-- The answer of r.Get.
pub data Fetched : Type 0 where
  object : UserNetwork → Fetched
  missing : Fetched
  broken : Str → Fetched

unfoldable pub reconcile : Setting → NetworkEnv → Fetched → Action Outcome
reconcile x env missing = pure finished
reconcile x env (broken e) = pure (failing e)
reconcile x env (object u) = reconcile_found x env u
