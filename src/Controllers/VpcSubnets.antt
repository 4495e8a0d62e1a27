-- ===== src/Controllers/VpcSubnets.antt =====
-- pkg/controller/vpcsubnet/reconciler.go: the reconciler of VPCSubnet objects, which asks for the
-- subnet that the status names before it creates one.
pub mod Kept
mod Tests
use roks_vpc_cni.Base.{ℕ, ◌≡◌, refl, Bool, true, false, Option, none, some, List, [], ◌∷◌, ◌++◌}
use roks_vpc_cni.Text.{Str, codes, str_eq}
use roks_vpc_cni.Controllers.Effects.{
  Result, ok, err, SyncStatus, synced, failed, Condition, Outcome, finished, failing, Env, M, Trace,
  pure, ◌>>=◌, branch, on_error, call_create,
}
use roks_vpc_cni.Controllers.Logged.{read}
use roks_vpc_cni.Controllers.Lifecycle
use roks_vpc_cni.Controllers.Lifecycle.{Fetched, object, missing, broken}

-- The fields of VPCSubnetSpec that the reconciler reads.
pub record SubnetSpec : Type 0 where
  pub vpc_id : Str
  pub zone : Str
  pub ipv4_cidr_block : Str
  pub acl_id : Str
  pub resource_group_id : Str
  pub cluster_id : Str
  pub cudn_name : Str

pub record SubnetStatus : Type 0 where
  pub sync_status : SyncStatus
  pub subnet_id : Str
  pub vpc_subnet_status : Str
  pub last_sync_time : Option ℕ
  pub message : Str
  pub ready : Option Condition

pub record SubnetObject : Type 0 where
  pub name : Str
  pub finalizers : List Str
  pub deleting : Bool
  pub spec : SubnetSpec
  pub status : SubnetStatus

pub record SubnetOptions : Type 0 where
  pub name : Str
  pub vpc_id : Str
  pub zone : Str
  pub cidr : Str
  pub acl_id : Str
  pub resource_group_id : Str
  pub cluster_id : Str
  pub cudn_name : Str

-- vpc.Subnet, as far as it is read here.
pub record VpcSubnet : Type 0 where
  pub id : Str
  pub status : Str

abbrev pub SubnetTrace : Type 0
SubnetTrace = Trace SubnetObject SubnetOptions VpcSubnet Str

-- The calls, with the answer of GetSubnet.
pub record SubnetEnv : Type 0 where
  pub calls : Env SubnetObject SubnetOptions VpcSubnet Str
  pub get_subnet : Str → SubnetTrace → Result VpcSubnet

abbrev pub Action : Type 0 → Type 0
Action = M SubnetObject SubnetOptions VpcSubnet Str

unfoldable pub create_options : Str → SubnetObject → SubnetOptions
create_options cluster_id o = record {
  name = codes "roks-" ++ (cluster_id ++ b'-' ∷ o.name);
  vpc_id = o.spec.vpc_id;
  zone = o.spec.zone;
  cidr = o.spec.ipv4_cidr_block;
  acl_id = o.spec.acl_id;
  resource_group_id = o.spec.resource_group_id;
  cluster_id = o.spec.cluster_id;
  cudn_name = o.spec.cudn_name;
}

unfoldable pub create_failed : SubnetObject → Str → SubnetObject
create_failed o e = record o {
  status = record o.status {
    sync_status = failed;
    message = codes "Failed to create subnet: " ++ e;
    ready = some (record {
      status = false;
      reason = codes "CreateFailed";
      message = codes "VPC API error: " ++ e;
    });
  };
}

unfoldable pub with_subnet : SubnetObject → VpcSubnet → SubnetObject
with_subnet o v = record o {
  status = record o.status { subnet_id = v.id; vpc_subnet_status = v.status };
}

unfoldable pub synced_at : ℕ → SubnetObject → SubnetObject
synced_at time o = record o {
  status = record o.status {
    sync_status = synced;
    last_sync_time = some time;
    message = codes "Synced with VPC subnet " ++ o.status.subnet_id;
    ready = some (record {
      status = true;
      reason = codes "Synced";
      message = codes "VPC subnet " ++ (o.status.subnet_id ++ codes " is ready");
    });
  };
}

unfoldable pub delete_failed : SubnetObject → Str → SubnetObject
delete_failed o e = record o {
  status = record o.status {
    sync_status = failed;
    message = codes "Failed to delete subnet: " ++ e;
  };
}

-- The parts of the common life cycle; `pending_at` is of no use here.
abbrev pub subnet_kind : Str → Lifecycle.Kind SubnetObject SubnetOptions VpcSubnet Str
subnet_kind cluster_id = record {
  protection = codes "vpc.roks.ibm.com/subnet-protection";
  finalizers = λ o. o.finalizers;
  with_finalizers = λ o fs. record o { finalizers = fs };
  deleting = λ o. o.deleting;
  id = λ o. o.status.subnet_id;
  sync_status = λ o. o.status.sync_status;
  options = create_options cluster_id;
  deletion = λ o. o.status.subnet_id;
  resource_id = λ v. v.id;
  with_resource = with_subnet;
  create_failed = create_failed;
  synced_at = synced_at;
  delete_failed = delete_failed;
  pending_at = λ time o. o;
}

module _ (cluster_id : Str) (env : SubnetEnv) where
  unfoldable pub create_new : SubnetObject → Action Outcome
  create_new o = do
    r ← call_create env.calls (create_options cluster_id o)
    Lifecycle.after_create (subnet_kind cluster_id) env.calls o r

  -- By the answer of GetSubnet.
  unfoldable pub after_get : SubnetObject → Result VpcSubnet → Action Outcome
  after_get o (err e) = create_new o
  after_get o (ok v) = Lifecycle.finish_normal (subnet_kind cluster_id) env.calls (with_subnet o v)

  unfoldable pub get_or_create : SubnetObject → Action Outcome
  get_or_create o =
      branch (str_eq o.status.subnet_id []) (create_new o)
        (do r ← read (env.get_subnet o.status.subnet_id); after_get o r)

  unfoldable pub reconcile_normal : SubnetObject → Action Outcome
  reconcile_normal o = Lifecycle.ensure_then (subnet_kind cluster_id) env.calls get_or_create o

  unfoldable pub reconcile_delete : SubnetObject → Action Outcome
  reconcile_delete o = Lifecycle.reconcile_delete (subnet_kind cluster_id) env.calls o

  unfoldable pub reconcile : Fetched SubnetObject → Action Outcome
  reconcile missing = pure finished
  reconcile (broken e) = pure (failing e)
  reconcile (object o) = branch o.deleting (reconcile_delete o) (reconcile_normal o)

pub subnet_kind-IsLawful : (cluster_id : Str) → Lifecycle.IsLawful (subnet_kind cluster_id)
unfolding with_subnet create_failed synced_at delete_failed
subnet_kind-IsLawful cluster_id = record {
  set_finalizers = λ o fs. refl;
  id-with_finalizers = λ o fs. refl;
  id-with_resource = λ o v. refl;
  finalizers-with_resource = λ o v. refl;
  create_failed-Preserves = λ e. record { same_finalizers = λ o. refl; same_id = λ o. refl };
  synced_at-Preserves = λ time. record { same_finalizers = λ o. refl; same_id = λ o. refl };
  delete_failed-Preserves = λ e. record { same_finalizers = λ o. refl; same_id = λ o. refl };
  pending_at-Preserves = λ time. record { same_finalizers = λ o. refl; same_id = λ o. refl };
  sync_status-synced_at = λ time o. refl;
}
