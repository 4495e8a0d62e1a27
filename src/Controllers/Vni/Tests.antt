-- ===== src/Controllers/Vni/Tests.antt =====
-- Runs of the reconciler of VirtualNetworkInterface objects: tests, and the theorems at concrete
-- inputs.
use roks_vpc_cni.Base.{◌+◌, ◌≤◌, ◌≡◌, refl, true, false, none, some, [], ◌∷◌, arith}
use roks_vpc_cni.Text.{codes, str_eq, member}
use roks_vpc_cni.Controllers.Effects.{ok, unset, synced, finished, remove_finalizer}
use roks_vpc_cni.Controllers.Trace.{stored, creations, deletions, Deleted}
use roks_vpc_cni.Controllers.History
use roks_vpc_cni.Controllers.Lifecycle
use roks_vpc_cni.Controllers.Lifecycle.{unmanaged, object}
use roks_vpc_cni.Controllers.Vni
use roks_vpc_cni.Controllers.Vni.{
  VirtualNetworkInterface, VpcVni, VniEnv, protection, reconcile, reconcile_normal,
  reconcile_delete,
}
use roks_vpc_cni.Controllers.Vni.Conservation.{recorded, GivesIds}
use roks_vpc_cni.Controllers.Lifecycle.Leaks.{run}
use roks_vpc_cni.Controllers.Vni.Leaks.{VniHistory, Tally, no_vni_lost}
use roks_vpc_cni.Controllers.Vni.Outcomes.{normal_settles, delete_before_release}

abbrev fresh : VirtualNetworkInterface
fresh = record {
  name = codes "web";
  namespace = codes "ns";
  finalizers = [];
  deleting = false;
  spec = record {
    subnet_ref = codes "net";
    subnet_id = [];
    security_group_ids = codes "sg" ∷ [];
    vm_ref = some (codes "vm");
    cluster_id = codes "c";
  };
  status = record {
    sync_status = unset;
    vni_id = [];
    mac_address = [];
    primary_ipv4 = [];
    reserved_ip_id = [];
    last_sync_time = none;
    message = [];
    ready = none;
  };
}

abbrev made : VpcVni
made = record {
  id = codes "v1";
  mac_address = codes "02:00";
  primary_ip_address = codes "10.0.0.4";
  primary_ip_id = codes "ip";
}

-- Every call succeeds.
abbrev healthy : VniEnv
healthy = record {
  on_update = λ o t. none;
  on_status_update = λ o t. none;
  on_create = λ q t. ok made;
  on_delete = λ d t. none;
  now = λ t. 7;
  has_recorder = true;
}

-- The status cannot be written.
abbrev stuck : VniEnv
stuck = record healthy { on_status_update = λ o t. some (codes "conflict") }

healthy-GivesIds : GivesIds healthy
healthy-GivesIds q t v e = ground (arith, e)

stuck-GivesIds : GivesIds stuck
stuck-GivesIds q t v e = ground (arith, e)

abbrev bound : VirtualNetworkInterface
bound = record fresh {
  finalizers = protection ∷ [];
  deleting = true;
  status = record fresh.status { vni_id = codes "v1" };
}

created_once :
    let (outcome, t) = reconcile unmanaged healthy (object fresh) [] in
    (outcome ≡ finished) × ((stored fresh t).status.vni_id ≡ codes "v1") × (creations t ≡ 1)
unfolding reconcile Lifecycle.reconcile Lifecycle.dispatch Lifecycle.reconcile_normal
    Lifecycle.ensure_added Lifecycle.create_or_sync Lifecycle.after_create Lifecycle.finish_normal
    Vni.create_options Vni.with_vni Vni.synced_at stored creations member str_eq
created_once = (refl, refl, refl)

-- A run whose status update fails, and one that succeeds.
abbrev two_runs : (s : Tally) × VniHistory fresh s
two_runs = (
  _,
  History.ran _ (run unmanaged healthy healthy-GivesIds)
      (History.ran _ (run unmanaged stuck stuck-GivesIds) History.start),
)

no_vni_lost_example :
    two_runs.0.created + recorded fresh
    ≤ two_runs.0.deleted + recorded two_runs.0.object + two_runs.0.lost
no_vni_lost_example = no_vni_lost {first = fresh} two_runs.1

normal_settles_example :
    let s = stored fresh (reconcile_normal healthy fresh []).1 in
    (s.status.sync_status ≡ synced) × (recorded s ≡ 1)
normal_settles_example = normal_settles healthy fresh healthy-GivesIds finishes
  where
    finishes : (reconcile_normal healthy fresh []).0 ≡ finished
    finishes =
        unfold reconcile_normal Lifecycle.reconcile_normal Lifecycle.ensure_added
          Lifecycle.create_or_sync Lifecycle.after_create Lifecycle.finish_normal Vni.create_options
          Vni.with_vni Vni.synced_at member str_eq in
        refl

delete_before_release_example :
    let t = (reconcile_delete healthy bound []).1 in Deleted (codes "v1") t × (deletions t ≡ 1)
unfolding reconcile_delete Lifecycle.reconcile_delete Lifecycle.release Lifecycle.ensure_removed
    Lifecycle.after_delete remove_finalizer stored member str_eq
delete_before_release_example = delete_before_release healthy bound (cc) refl refl
