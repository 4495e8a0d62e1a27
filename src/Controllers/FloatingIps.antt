-- ===== src/Controllers/FloatingIps.antt =====
-- pkg/controller/floatingip/reconciler.go: the reconciler of FloatingIP objects, which runs in the
-- same way on every cluster.
pub mod Progress
mod Tests
use roks_vpc_cni.Base.{
  ℕ, ◌≡◌, refl, ◌&&◌, not, Bool, true, false, Option, none, some, List, [], ◌∷◌, ◌++◌,
  if◌then◌else◌,
}
use roks_vpc_cni.Text.{Str, codes, str_eq}
use roks_vpc_cni.Controllers.Effects.{SyncStatus, synced, failed, Condition, Outcome, Env, M}
use roks_vpc_cni.Controllers.Lifecycle
use roks_vpc_cni.Controllers.Lifecycle.{Fetched, unmanaged}

pub record FloatingIpSpec : Type 0 where
  pub zone : Str
  pub vni_ref : Str
  pub vni_id : Str
  pub name : Str

pub record FipStatus : Type 0 where
  pub sync_status : SyncStatus
  pub fip_id : Str
  pub address : Str
  pub target_vni_id : Str
  pub last_sync_time : Option ℕ
  pub message : Str
  pub ready : Option Condition

pub record FloatingIpObject : Type 0 where
  pub name : Str
  pub finalizers : List Str
  pub deleting : Bool
  pub spec : FloatingIpSpec
  pub status : FipStatus

pub record CreateFloatingIpOptions : Type 0 where
  pub name : Str
  pub zone : Str
  pub vni_id : Str

-- vpc.FloatingIP, as far as it is read.
pub record VpcFloatingIp : Type 0 where
  pub id : Str
  pub address : Str
  pub target : Str

abbrev pub FipEnv : Type 0
FipEnv = Env FloatingIpObject CreateFloatingIpOptions VpcFloatingIp Str

abbrev pub Action : Type 0 → Type 0
Action = M FloatingIpObject CreateFloatingIpOptions VpcFloatingIp Str

-- The VNI by its id, or else by its reference; the name given, or a generated one.
unfoldable pub create_options : Str → FloatingIpObject → CreateFloatingIpOptions
create_options cluster_id o = record {
  name =
      if str_eq o.spec.name [] then codes "roks-" ++ (cluster_id ++ b'-' ∷ o.name) else o.spec.name;
  zone = o.spec.zone;
  vni_id =
      if str_eq o.spec.vni_id [] && not (str_eq o.spec.vni_ref [])
      then o.spec.vni_ref
      else o.spec.vni_id;
}

unfoldable pub create_failed : FloatingIpObject → Str → FloatingIpObject
create_failed o e = record o {
  status = record o.status {
    sync_status = failed;
    message = codes "Failed to create floating IP: " ++ e;
    ready = some (record {
      status = false;
      reason = codes "CreateFailed";
      message = codes "VPC API error: " ++ e;
    });
  };
}

unfoldable pub with_floating_ip : FloatingIpObject → VpcFloatingIp → FloatingIpObject
with_floating_ip o v = record o {
  status = record o.status { fip_id = v.id; address = v.address; target_vni_id = v.target };
}

-- "<id> (<address>)"
abbrev fip_text : FipStatus → Str
fip_text s = s.fip_id ++ (codes " (" ++ (s.address ++ codes ")"))

unfoldable pub synced_at : ℕ → FloatingIpObject → FloatingIpObject
synced_at time o = record o {
  status = record o.status {
    sync_status = synced;
    last_sync_time = some time;
    message = codes "Synced with floating IP " ++ fip_text o.status;
    ready = some (record {
      status = true;
      reason = codes "Synced";
      message = codes "Floating IP " ++ (fip_text o.status ++ codes " is ready");
    });
  };
}

unfoldable pub delete_failed : FloatingIpObject → Str → FloatingIpObject
delete_failed o e = record o {
  status = record o.status {
    sync_status = failed;
    message = codes "Failed to delete floating IP: " ++ e;
  };
}

-- What this reconciler does in the common life cycle; `pending_at` is of no use here.
abbrev pub fip_kind :
    Str → Lifecycle.Kind FloatingIpObject CreateFloatingIpOptions VpcFloatingIp Str
fip_kind cluster_id = record {
  protection = codes "vpc.roks.ibm.com/fip-protection";
  finalizers = λ o. o.finalizers;
  with_finalizers = λ o fs. record o { finalizers = fs };
  deleting = λ o. o.deleting;
  id = λ o. o.status.fip_id;
  sync_status = λ o. o.status.sync_status;
  options = create_options cluster_id;
  deletion = λ o. o.status.fip_id;
  resource_id = λ v. v.id;
  with_resource = with_floating_ip;
  create_failed = create_failed;
  synced_at = synced_at;
  delete_failed = delete_failed;
  pending_at = λ time o. o;
}

module _ (cluster_id : Str) (env : FipEnv) where
  unfoldable pub reconcile_normal : FloatingIpObject → Action Outcome
  reconcile_normal o = Lifecycle.reconcile_normal (fip_kind cluster_id) env o

  unfoldable pub reconcile_delete : FloatingIpObject → Action Outcome
  reconcile_delete o = Lifecycle.reconcile_delete (fip_kind cluster_id) env o

  unfoldable pub reconcile : Fetched FloatingIpObject → Action Outcome
  reconcile fetched = Lifecycle.reconcile (fip_kind cluster_id) env unmanaged fetched

pub fip_kind-IsLawful : (cluster_id : Str) → Lifecycle.IsLawful (fip_kind cluster_id)
unfolding with_floating_ip create_failed synced_at delete_failed
fip_kind-IsLawful cluster_id = record {
  set_finalizers = λ o fs. refl;
  id-with_finalizers = λ o fs. refl;
  id-with_resource = λ o v. refl;
  finalizers-with_resource = λ o v. refl;
  create_failed-Preserves = λ e. record { same_finalizers = λ o. refl; same_id = λ o. refl };
  synced_at-Preserves = λ time. record { same_finalizers = λ o. refl; same_id = λ o. refl };
  delete_failed-Preserves = λ e. record { same_finalizers = λ o. refl; same_id = λ o. refl };
  pending_at-Preserves = λ time. record { same_finalizers = λ o. refl; same_id = λ o. refl };
  sync_status-synced_at = λ time o. refl;
}
