-- ===== src/Controllers/Vni/Outcomes.antt =====
-- What a run's outcome says about the object that it leaves behind.
use roks_vpc_cni.Base.{◌≡◌, ◌≢◌, true, false, []}
use roks_vpc_cni.Text.{member}
use roks_vpc_cni.Controllers.Effects.{synced, finished}
use roks_vpc_cni.Controllers.Trace.{stored, deletions, Deleted}
use roks_vpc_cni.Controllers.Lifecycle.Outcomes
use roks_vpc_cni.Controllers.Vni.{
  VirtualNetworkInterface, VniEnv, protection, vni_kind, vni_kind-IsLawful, reconcile_normal,
  reconcile_delete,
}
use roks_vpc_cni.Controllers.Vni.Conservation.{recorded, GivesIds}

-- A run of the unmanaged reconciler on an object that is not being deleted which ends without an
-- error and asks for no further run has stored the object as synced, with an id and the finalizer.
-- The VPC interface gives every VNI an id.
pub normal_settles :
    (env : VniEnv) (o : VirtualNetworkInterface)
    → GivesIds env
    → (reconcile_normal env o []).0 ≡ finished
    → let s = stored o (reconcile_normal env o []).1 in
      (s.status.sync_status ≡ synced) × (recorded s ≡ 1)
unfolding reconcile_normal recorded
normal_settles env o ids done = Outcomes.normal_settles vni_kind vni_kind-IsLawful env o ids done

-- If a run of the unmanaged deletion on an object with an id and the finalizer leaves the object
-- stored without the finalizer, then in that run the VPC interface has deleted the VNI with the id of
-- the status, and nothing else.
pub delete_before_release :
    (env : VniEnv) (o : VirtualNetworkInterface)
    → o.status.vni_id ≢ []
    → member protection o.finalizers ≡ true
    → member protection (stored o (reconcile_delete env o []).1).finalizers ≡ false
    → let t = (reconcile_delete env o []).1 in Deleted o.status.vni_id t × (deletions t ≡ 1)
unfolding reconcile_delete
delete_before_release env o id kept freed =
    Outcomes.delete_before_release vni_kind vni_kind-IsLawful env o id kept freed
