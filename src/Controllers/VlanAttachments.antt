-- ===== src/Controllers/VlanAttachments.antt =====
-- pkg/controller/vlanattachment/reconciler.go: the reconciler of VLANAttachment objects.
pub mod Leaks
pub mod Released
mod Tests
use roks_vpc_cni.Base.{
  ℕ, ◌≡◌, refl, ◌&&◌, not, Bool, true, false, Option, none, some, List, [], ◌∷◌, ◌++◌,
  if◌then◌else◌,
}
use roks_vpc_cni.Text.{Str, codes, str_eq}
use roks_vpc_cni.Text.Integers.{ℤ}
use roks_vpc_cni.Controllers.Effects.{
  SyncStatus, synced, pending, failed, Condition, Outcome, Env, M,
}
use roks_vpc_cni.Controllers.Lifecycle
use roks_vpc_cni.Controllers.Lifecycle.{Mode, Fetched}
use roks_vpc_cni.Network.Objects.{CreateAttachmentOptions}

-- The fields of VLANAttachmentSpec that the reconciler reads.
pub record AttachmentSpec : Type 0 where
  pub bm_server_id : Str
  pub vlan_id : ℤ
  pub subnet_ref : Str
  pub subnet_id : Str

pub record AttachmentStatus : Type 0 where
  pub sync_status : SyncStatus
  pub attachment_id : Str
  pub attachment_status : Str
  pub last_sync_time : Option ℕ
  pub message : Str
  pub ready : Option Condition

pub record AttachmentObject : Type 0 where
  pub name : Str
  pub finalizers : List Str
  pub deleting : Bool
  pub spec : AttachmentSpec
  pub status : AttachmentStatus

-- A deletion names the server and the attachment; a creation answers with the attachment's id.
abbrev pub AttachmentEnv : Type 0
AttachmentEnv = Env AttachmentObject CreateAttachmentOptions Str (Str × Str)

abbrev pub Action : Type 0 → Type 0
Action = M AttachmentObject CreateAttachmentOptions Str (Str × Str)

unfoldable pub create_options : Str → AttachmentObject → CreateAttachmentOptions
create_options cluster_id o = record {
  bm_server_id = o.spec.bm_server_id;
  name = codes "roks-" ++ (cluster_id ++ b'-' ∷ o.name);
  vlan_id = o.spec.vlan_id;
  subnet_id =
      if str_eq o.spec.subnet_id [] && not (str_eq o.spec.subnet_ref [])
      then o.spec.subnet_ref
      else o.spec.subnet_id;
}

unfoldable pub create_failed : AttachmentObject → Str → AttachmentObject
create_failed o e = record o {
  status = record o.status {
    sync_status = failed;
    message = codes "Failed to create VLAN attachment: " ++ e;
    ready = some (record {
      status = false;
      reason = codes "CreateFailed";
      message = codes "VPC API error: " ++ e;
    });
  };
}

unfoldable pub with_attachment : AttachmentObject → Str → AttachmentObject
with_attachment o id = record o {
  status = record o.status { attachment_id = id; attachment_status = codes "attached" };
}

unfoldable pub synced_at : ℕ → AttachmentObject → AttachmentObject
synced_at time o = record o {
  status = record o.status {
    sync_status = synced;
    last_sync_time = some time;
    message = codes "Synced with VLAN attachment " ++ o.status.attachment_id;
    ready = some (record {
      status = true;
      reason = codes "Synced";
      message = codes "VLAN attachment " ++ (o.status.attachment_id ++ codes " is ready");
    });
  };
}

unfoldable pub delete_failed : AttachmentObject → Str → AttachmentObject
delete_failed o e = record o {
  status = record o.status {
    sync_status = failed;
    message = codes "Failed to delete VLAN attachment: " ++ e;
  };
}

unfoldable pub pending_at : ℕ → AttachmentObject → AttachmentObject
pending_at time o = record o {
  status = record o.status {
    sync_status = pending;
    message = codes "VLAN attachment is managed by ROKS platform. ROKS API integration pending.";
    last_sync_time = some time;
  };
}

-- What this reconciler does in the common life cycle.
abbrev pub attachment_kind :
    Str → Lifecycle.Kind AttachmentObject CreateAttachmentOptions Str (Str × Str)
attachment_kind cluster_id = record {
  protection = codes "vpc.roks.ibm.com/vlan-protection";
  finalizers = λ o. o.finalizers;
  with_finalizers = λ o fs. record o { finalizers = fs };
  deleting = λ o. o.deleting;
  id = λ o. o.status.attachment_id;
  sync_status = λ o. o.status.sync_status;
  options = create_options cluster_id;
  deletion = λ o. (o.spec.bm_server_id, o.status.attachment_id);
  resource_id = λ id. id;
  with_resource = with_attachment;
  create_failed = create_failed;
  synced_at = synced_at;
  delete_failed = delete_failed;
  pending_at = pending_at;
}

module _ (cluster_id : Str) (env : AttachmentEnv) where
  unfoldable pub reconcile_normal : AttachmentObject → Action Outcome
  reconcile_normal o = Lifecycle.reconcile_normal (attachment_kind cluster_id) env o

  unfoldable pub reconcile_delete : AttachmentObject → Action Outcome
  reconcile_delete o = Lifecycle.reconcile_delete (attachment_kind cluster_id) env o

  unfoldable pub reconcile_roks : Bool → AttachmentObject → Action Outcome
  reconcile_roks roks_available o =
      Lifecycle.reconcile_roks (attachment_kind cluster_id) env roks_available o

  unfoldable pub reconcile : Mode → Fetched AttachmentObject → Action Outcome
  reconcile mode fetched = Lifecycle.reconcile (attachment_kind cluster_id) env mode fetched

pub attachment_kind-IsLawful : (cluster_id : Str) → Lifecycle.IsLawful (attachment_kind cluster_id)
unfolding with_attachment create_failed synced_at delete_failed pending_at
attachment_kind-IsLawful cluster_id = record {
  set_finalizers = λ o fs. refl;
  id-with_finalizers = λ o fs. refl;
  id-with_resource = λ o v. refl;
  finalizers-with_resource = λ o v. refl;
  create_failed-Preserves = λ e. record { same_finalizers = λ o. refl; same_id = λ o. refl };
  synced_at-Preserves = λ time. record { same_finalizers = λ o. refl; same_id = λ o. refl };
  delete_failed-Preserves = λ e. record { same_finalizers = λ o. refl; same_id = λ o. refl };
  pending_at-Preserves = λ time. record { same_finalizers = λ o. refl; same_id = λ o. refl };
  sync_status-synced_at = λ time o. refl;
}
