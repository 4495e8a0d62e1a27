-- ===== src/Controllers/Vni.antt =====
-- pkg/controller/vni/reconciler.go: the reconciler of VirtualNetworkInterface objects.
pub mod Conservation
pub mod Leaks
pub mod Outcomes
mod Tests
use roks_vpc_cni.Base.{
  ℕ, ◌≡◌, refl, ◌&&◌, not, Bool, true, false, Option, none, some, List, [], ◌∷◌, ◌++◌,
  if◌then◌else◌,
}
use roks_vpc_cni.Text.{Str, codes, str_eq, member}
use roks_vpc_cni.Controllers.Effects.{
  SyncStatus, synced, pending, failed, Condition, Outcome, Env, M,
}
use roks_vpc_cni.Controllers.Lifecycle
use roks_vpc_cni.Controllers.Lifecycle.{Mode, Fetched}

-- The fields of VNISpec that the reconciler reads; `vm_ref` is the name in `VMRef`.
pub record VniSpec : Type 0 where
  pub subnet_ref : Str
  pub subnet_id : Str
  pub security_group_ids : List Str
  pub vm_ref : Option Str
  pub cluster_id : Str

pub record VniStatus : Type 0 where
  pub sync_status : SyncStatus
  pub vni_id : Str
  pub mac_address : Str
  pub primary_ipv4 : Str
  pub reserved_ip_id : Str
  pub last_sync_time : Option ℕ
  pub message : Str
  pub ready : Option Condition

pub record VirtualNetworkInterface : Type 0 where
  pub name : Str
  pub namespace : Str
  pub finalizers : List Str
  pub deleting : Bool
  pub spec : VniSpec
  pub status : VniStatus

pub record CreateVniOptions : Type 0 where
  pub name : Str
  pub subnet_id : Str
  pub security_group_ids : List Str
  pub cluster_id : Str
  pub namespace : Str
  pub vm_name : Str

-- vpc.VNI
pub record VpcVni : Type 0 where
  pub id : Str
  pub mac_address : Str
  pub primary_ip_address : Str
  pub primary_ip_id : Str

abbrev pub VniEnv : Type 0
VniEnv = Env VirtualNetworkInterface CreateVniOptions VpcVni Str

abbrev pub Action : Type 0 → Type 0
Action = M VirtualNetworkInterface CreateVniOptions VpcVni Str

-- "vpc.roks.ibm.com/vni-protection"
abbrev pub protection : Str
protection = codes "vpc.roks.ibm.com/vni-protection"

-- The options of the creation: the subnet by its id, or else by its reference.
unfoldable pub create_options : VirtualNetworkInterface → CreateVniOptions
create_options o = record {
  name = o.name;
  subnet_id =
      if str_eq o.spec.subnet_id [] && not (str_eq o.spec.subnet_ref [])
      then o.spec.subnet_ref
      else o.spec.subnet_id;
  security_group_ids = o.spec.security_group_ids;
  cluster_id = o.spec.cluster_id;
  namespace = o.namespace;
  vm_name = elim o.spec.vm_ref [ none ↦ [] | some name ↦ name ];
}

-- The status behind a creation that failed.
unfoldable pub create_failed : VirtualNetworkInterface → Str → VirtualNetworkInterface
create_failed o e = record o {
  status = record o.status {
    sync_status = failed;
    message = codes "Failed to create VNI: " ++ e;
    ready = some (record {
      status = false;
      reason = codes "CreateFailed";
      message = codes "VPC API error: " ++ e;
    });
  };
}

-- The status with the identity of a new VNI.
unfoldable pub with_vni : VirtualNetworkInterface → VpcVni → VirtualNetworkInterface
with_vni o v = record o {
  status = record o.status {
    vni_id = v.id;
    mac_address = v.mac_address;
    primary_ipv4 = v.primary_ip_address;
    reserved_ip_id = v.primary_ip_id;
  };
}

-- The common status fields.
unfoldable pub synced_at : ℕ → VirtualNetworkInterface → VirtualNetworkInterface
synced_at time o = record o {
  status = record o.status {
    sync_status = synced;
    last_sync_time = some time;
    message = codes "Synced with VPC VNI " ++ o.status.vni_id;
    ready = some (record {
      status = true;
      reason = codes "Synced";
      message = codes "VPC VNI " ++ (o.status.vni_id ++ codes " is ready");
    });
  };
}

unfoldable pub delete_failed : VirtualNetworkInterface → Str → VirtualNetworkInterface
delete_failed o e = record o {
  status = record o.status { sync_status = failed; message = codes "Failed to delete VNI: " ++ e };
}

unfoldable pub pending_at : ℕ → VirtualNetworkInterface → VirtualNetworkInterface
pending_at time o = record o {
  status = record o.status {
    sync_status = pending;
    message = codes "VNI is managed by ROKS platform. ROKS API integration pending.";
    last_sync_time = some time;
  };
}

-- What this reconciler does in the common life cycle.
abbrev pub vni_kind : Lifecycle.Kind VirtualNetworkInterface CreateVniOptions VpcVni Str
vni_kind = record {
  protection = protection;
  finalizers = λ o. o.finalizers;
  with_finalizers = λ o fs. record o { finalizers = fs };
  deleting = λ o. o.deleting;
  id = λ o. o.status.vni_id;
  sync_status = λ o. o.status.sync_status;
  options = create_options;
  deletion = λ o. o.status.vni_id;
  resource_id = λ v. v.id;
  with_resource = with_vni;
  create_failed = create_failed;
  synced_at = synced_at;
  delete_failed = delete_failed;
  pending_at = pending_at;
}

unfoldable pub reconcile_normal : VniEnv → VirtualNetworkInterface → Action Outcome
reconcile_normal env o = Lifecycle.reconcile_normal vni_kind env o

unfoldable pub reconcile_delete : VniEnv → VirtualNetworkInterface → Action Outcome
reconcile_delete env o = Lifecycle.reconcile_delete vni_kind env o

-- `roks_available`: the cluster has a ROKS client, and it is available.
unfoldable pub reconcile_roks : Bool → VniEnv → VirtualNetworkInterface → Action Outcome
reconcile_roks roks_available env o = Lifecycle.reconcile_roks vni_kind env roks_available o

unfoldable pub reconcile : Mode → VniEnv → Fetched VirtualNetworkInterface → Action Outcome
reconcile mode env fetched = Lifecycle.reconcile vni_kind env mode fetched

pub vni_kind-IsLawful : Lifecycle.IsLawful vni_kind
unfolding with_vni create_failed synced_at delete_failed pending_at
vni_kind-IsLawful = record {
  set_finalizers = λ o fs. refl;
  id-with_finalizers = λ o fs. refl;
  id-with_resource = λ o v. refl;
  finalizers-with_resource = λ o v. refl;
  create_failed-Preserves = λ e. record { same_finalizers = λ o. refl; same_id = λ o. refl };
  synced_at-Preserves = λ time. record { same_finalizers = λ o. refl; same_id = λ o. refl };
  delete_failed-Preserves = λ e. record { same_finalizers = λ o. refl; same_id = λ o. refl };
  pending_at-Preserves = λ time. record { same_finalizers = λ o. refl; same_id = λ o. refl };
  sync_status-synced_at = λ time o. refl;
}
