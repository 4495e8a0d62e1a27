-- ===== src/Controllers/VlanAttachments/Leaks.antt =====
-- No run of the reconciler loses a VLAN attachment.
use roks_vpc_cni.Base.{ℕ, ◌+◌, ◌≤◌}
use roks_vpc_cni.Text.{Str}
use roks_vpc_cni.Controllers.Lifecycle.Conservation
use roks_vpc_cni.Controllers.Lifecycle.Leaks
use roks_vpc_cni.Controllers.VlanAttachments.{
  AttachmentObject, attachment_kind, attachment_kind-IsLawful,
}

-- 1 where the object holds the id of an attachment, and the finalizer.
unfoldable pub recorded : Str → AttachmentObject → ℕ
recorded cluster_id o = Conservation.recorded (attachment_kind cluster_id) o

-- Any number of runs on one object, with edits by others between them.
abbrev pub AttachmentHistory :
    (cluster_id : Str) → AttachmentObject → Leaks.Tally (attachment_kind cluster_id) → Type 0
AttachmentHistory cluster_id = Leaks.RunHistory (attachment_kind cluster_id)

-- Over any number of runs of the VLANAttachment reconciler on one object, with any answers and with
-- edits by others that leave the recorded id and the finalizer alone: the attachments created are
-- at most those deleted, the status updates that failed, and the one that the object records, less
-- the one that it recorded at first. The VPC interface gives every attachment an id.
pub no_attachment_lost :
    (cluster_id : Str) {first : AttachmentObject} {s : Leaks.Tally (attachment_kind cluster_id)}
    → AttachmentHistory cluster_id first s
    → s.created + recorded cluster_id first ≤ s.deleted + recorded cluster_id s.object + s.lost
unfolding recorded
no_attachment_lost cluster_id h =
    Leaks.none_lost (attachment_kind cluster_id) (attachment_kind-IsLawful cluster_id) h
