-- ===== src/Controllers/VlanAttachments/Released.antt =====
-- What is deleted before the finalizer of a VLANAttachment object goes.
use roks_vpc_cni.Base.{◌≡◌, ◌≢◌, true, false, []}
use roks_vpc_cni.Text.{Str, codes, member}
use roks_vpc_cni.Controllers.Trace.{stored, deletions, Deleted}
use roks_vpc_cni.Controllers.Lifecycle.Outcomes
use roks_vpc_cni.Controllers.VlanAttachments.{
  AttachmentObject, AttachmentEnv, attachment_kind, attachment_kind-IsLawful, reconcile_delete,
}

-- If a run of the unmanaged deletion on an object with an attachment's id and the finalizer leaves
-- the object stored without the finalizer, then in that run the VPC interface has deleted the
-- attachment with the id of the status on the server of the specification, and nothing else.
pub release-Deleted :
    (cluster_id : Str) (env : AttachmentEnv) (o : AttachmentObject)
    → o.status.attachment_id ≢ []
    → member (codes "vpc.roks.ibm.com/vlan-protection") o.finalizers ≡ true
    → let t = (reconcile_delete cluster_id env o []).1 in
      member (codes "vpc.roks.ibm.com/vlan-protection") (stored o t).finalizers ≡ false
      → Deleted (o.spec.bm_server_id, o.status.attachment_id) t × (deletions t ≡ 1)
unfolding reconcile_delete
release-Deleted cluster_id env o id kept freed =
    Outcomes.delete_before_release (attachment_kind cluster_id)
      (attachment_kind-IsLawful cluster_id) env o id kept freed
