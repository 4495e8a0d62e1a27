-- ===== src/Controllers/VlanAttachments/Tests.antt =====
-- Runs of the VLANAttachment reconciler at concrete inputs.
use roks_vpc_cni.Base.{◌+◌, ◌≤◌, ◌≡◌, refl, true, false, none, [], ◌∷◌, arith}
use roks_vpc_cni.Text.{codes, str_eq, member}
use roks_vpc_cni.Text.Integers.{pos}
use roks_vpc_cni.Controllers.Effects.{ok, unset, finished, remove_finalizer}
use roks_vpc_cni.Controllers.Trace.{stored, deletions, Deleted}
use roks_vpc_cni.Controllers.History
use roks_vpc_cni.Controllers.Lifecycle
use roks_vpc_cni.Controllers.Lifecycle.{unmanaged, object}
use roks_vpc_cni.Controllers.Lifecycle.Conservation.{GivesIds}
use roks_vpc_cni.Controllers.Lifecycle.Leaks
use roks_vpc_cni.Controllers.Lifecycle.Leaks.{run}
use roks_vpc_cni.Controllers.VlanAttachments
use roks_vpc_cni.Controllers.VlanAttachments.{
  AttachmentObject, AttachmentEnv, attachment_kind, reconcile, reconcile_delete,
}
use roks_vpc_cni.Controllers.VlanAttachments.Released.{release-Deleted}
use roks_vpc_cni.Controllers.VlanAttachments.Leaks.{recorded, AttachmentHistory, no_attachment_lost}

abbrev fresh : AttachmentObject
fresh = record {
  name = codes "net-n1";
  finalizers = [];
  deleting = false;
  spec = record {
    bm_server_id = codes "bm";
    vlan_id = pos 100;
    subnet_ref = codes "net";
    subnet_id = [];
  };
  status = record {
    sync_status = unset;
    attachment_id = [];
    attachment_status = [];
    last_sync_time = none;
    message = [];
    ready = none;
  };
}

abbrev healthy : AttachmentEnv
healthy = record {
  on_update = λ o t. none;
  on_status_update = λ o t. none;
  on_create = λ q t. ok (codes "a1");
  on_delete = λ d t. none;
  now = λ t. 7;
  has_recorder = false;
}

healthy-GivesIds : GivesIds (attachment_kind (codes "c")) healthy
healthy-GivesIds q t v e = ground (arith, e)

attached :
    let (outcome, t) = reconcile (codes "c") healthy unmanaged (object fresh) [] in
    (outcome ≡ finished) × ((stored fresh t).status.attachment_id ≡ codes "a1")
unfolding reconcile Lifecycle.reconcile Lifecycle.dispatch Lifecycle.reconcile_normal
    Lifecycle.ensure_added Lifecycle.create_or_sync Lifecycle.after_create Lifecycle.finish_normal
    VlanAttachments.create_options VlanAttachments.with_attachment VlanAttachments.synced_at stored
    member str_eq
attached = (refl, refl)

abbrev two_runs :
    (s : Leaks.Tally (attachment_kind (codes "c"))) × AttachmentHistory (codes "c") fresh s
two_runs = (
  _,
  History.ran _ (run unmanaged healthy healthy-GivesIds)
      (History.ran _ (run (Lifecycle.roks false) healthy healthy-GivesIds) History.start),
)

no_attachment_lost_example :
    two_runs.0.created + recorded (codes "c") fresh
    ≤ two_runs.0.deleted + recorded (codes "c") two_runs.0.object + two_runs.0.lost
no_attachment_lost_example = no_attachment_lost (codes "c") {first = fresh} two_runs.1

-- An object with an attachment, which is being deleted.
abbrev bound : AttachmentObject
bound = record fresh {
  finalizers = codes "vpc.roks.ibm.com/vlan-protection" ∷ [];
  deleting = true;
  status = record fresh.status { attachment_id = codes "a1" };
}

release-Deleted_example :
    let t = (reconcile_delete (codes "c") healthy bound []).1 in
    Deleted (codes "bm", codes "a1") t × (deletions t ≡ 1)
unfolding reconcile_delete Lifecycle.reconcile_delete Lifecycle.release Lifecycle.ensure_removed
    Lifecycle.after_delete remove_finalizer stored member str_eq
release-Deleted_example = release-Deleted (codes "c") healthy bound (cc) refl refl
