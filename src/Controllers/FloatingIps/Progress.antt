-- ===== src/Controllers/FloatingIps/Progress.antt =====
-- The floating IP's reconciler over any history, and once no call fails any more.
use roks_vpc_cni.Base.{ℕ, ◌+◌, ◌≤◌, ◌≡◌, Bool, true, false, []}
use roks_vpc_cni.Text.{Str, codes, member}
use roks_vpc_cni.Controllers.Effects.{synced}
use roks_vpc_cni.Controllers.Trace.{stored}
use roks_vpc_cni.Controllers.Lifecycle.{object}
use roks_vpc_cni.Controllers.Lifecycle.Conservation
use roks_vpc_cni.Controllers.Lifecycle.Conservation.{GivesIds}
use roks_vpc_cni.Controllers.Lifecycle.Leaks
use roks_vpc_cni.Controllers.Lifecycle.Progress
use roks_vpc_cni.Controllers.Lifecycle.Progress.{Faultless}
use roks_vpc_cni.Controllers.FloatingIps.{
  FloatingIpObject, FipEnv, fip_kind, fip_kind-IsLawful, reconcile,
}

-- 1 where the object holds the id of a floating IP, and the finalizer.
unfoldable pub recorded : Str → FloatingIpObject → ℕ
recorded cluster_id o = Conservation.recorded (fip_kind cluster_id) o

abbrev pub FipHistory :
    (cluster_id : Str) → FloatingIpObject → Leaks.Tally (fip_kind cluster_id) → Type 0
FipHistory cluster_id = Leaks.RunHistory (fip_kind cluster_id)

-- Over any number of runs of the FloatingIP reconciler on one object, with any answers and with
-- edits by others that leave the recorded id and the finalizer alone: the floating IPs created are
-- at most those deleted, the status updates that failed, and the one that the object records, less
-- the one that it recorded at first. The VPC interface gives every floating IP an id.
pub no_floating_ip_lost :
    (cluster_id : Str) {first : FloatingIpObject} {s : Leaks.Tally (fip_kind cluster_id)}
    → FipHistory cluster_id first s
    → s.created + recorded cluster_id first ≤ s.deleted + recorded cluster_id s.object + s.lost
unfolding recorded
no_floating_ip_lost cluster_id h =
    Leaks.none_lost (fip_kind cluster_id) (fip_kind-IsLawful cluster_id) h

-- What is to be done with an object, by whether it is being deleted.
abbrev pub IsDone : Str → Bool → FloatingIpObject → Type 0
IsDone cluster_id false s = (s.status.sync_status ≡ synced) × (recorded cluster_id s ≡ 1)
IsDone cluster_id true s = member (codes "vpc.roks.ibm.com/fip-protection") s.finalizers ≡ false

Done-IsDone :
    (cluster_id : Str) (env : FipEnv) (good : Faultless env) (deleting : Bool)
    (s : FloatingIpObject)
    → Progress.Done (fip_kind cluster_id) (fip_kind-IsLawful cluster_id) env good deleting s
    → IsDone cluster_id deleting s
unfolding recorded
Done-IsDone cluster_id env good true s h = h
Done-IsDone cluster_id env good false s h = h

-- A run of the FloatingIP reconciler in which no call fails leaves an object that is not being
-- deleted stored as synced, with an id and the finalizer, and an object that is being deleted
-- stored without the finalizer. The VPC interface gives every floating IP an id.
pub run-IsDone :
    (cluster_id : Str) (env : FipEnv) (o : FloatingIpObject)
    → Faultless env
    → GivesIds (fip_kind cluster_id) env
    → IsDone cluster_id o.deleting (stored o (reconcile cluster_id env (object o) []).1)
unfolding reconcile
run-IsDone cluster_id env o good ids =
    Done-IsDone cluster_id env good o.deleting (stored o (reconcile cluster_id env (object o) []).1)
      (Progress.faultless_run (fip_kind cluster_id) (fip_kind-IsLawful cluster_id) env good o ids)
