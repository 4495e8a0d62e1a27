-- ===== src/Controllers/Machines.antt =====
-- pkg/controller/vm/reconciler.go: the reconciler of VirtualMachine objects, which deletes the VPC
-- resources of a machine before its finalizer goes, and renames VNIs of a machine that is kept.
pub mod Released
pub mod Renames
mod Tests
use roks_vpc_cni.Base.{
  if◌then◌else◌, ◌&&◌, ◌||◌, not, Bool, true, false, ℕ, Option, none, some, List, [], ◌∷◌, ◌++◌,
}
use roks_vpc_cni.Text.{Str, codes, str_eq, contains, member}
use roks_vpc_cni.Controllers.Effects.{
  Result, ok, err, Outcome, finished, failing, requeue, remove_finalizer, pure, ◌>>=◌, ◌>>◌, branch,
  on_error,
}
use roks_vpc_cni.Controllers.Logged.{Logged, read, call, record_call}
use roks_vpc_cni.Network.Names.{truncate_vpc_name}

-- network.VMNetworkInterface
pub record VmInterface : Type 0 where
  pub network_name : Str
  pub network_kind : Str
  pub topology : Str
  pub role : Str
  pub interface_name : Str
  pub vni_id : Str
  pub mac_address : Str
  pub reserved_ip : Str
  pub reserved_ip_id : Str
  pub fip_id : Str
  pub fip_address : Str
  pub attachment_id : Str
  pub bm_server_id : Str
  pub gateway : Str

-- The annotations that are read; one that is missing is empty.
pub record VmAnnotations : Type 0 where
  pub network_interfaces : Str
  pub vni_id : Str
  pub fip_id : Str
  pub attachment_id : Str
  pub bm_server_id : Str

pub record Machine : Type 0 where
  pub name : Str
  pub namespace : Str
  pub finalizers : List Str
  pub deleting : Bool
  pub annotations : VmAnnotations

-- vpc.VNI, as far as it is read here.
pub record NamedVni : Type 0 where
  pub id : Str
  pub name : Str

pub data MachineCall : Type 0 where
  update : Machine → Option Str → MachineCall
  delete_fip : Str → Option Str → MachineCall
  delete_attachment : Str → Str → Option Str → MachineCall
  delete_vni : Str → Option Str → MachineCall
  rename_vni : Str → Str → Option Str → MachineCall
  metric : Str → Str → MachineCall

abbrev pub Calls : Type 0
Calls = List MachineCall

abbrev pub Action : Type 0 → Type 0
Action = Logged MachineCall

-- The answers; `parse_interfaces` is json.Unmarshal at the annotation's type.
pub record MachineEnv : Type 0 where
  pub cluster_id : Str
  pub sha256 : Str → List ℕ
  pub parse_interfaces : Str → Option (List VmInterface)
  pub on_update : Machine → Calls → Option Str
  pub on_delete_fip : Str → Calls → Option Str
  pub on_delete_attachment : Str → Str → Calls → Option Str
  pub on_delete_vni : Str → Calls → Option Str
  pub on_rename_vni : Str → Str → Calls → Option Str
  pub get_vni : Str → Calls → Result NamedVni

unfoldable pub is_not_found_error : Str → Bool
is_not_found_error e = contains (codes "not found") e

-- err == nil || isNotFoundError(err)
unfoldable pub tolerated : Option Str → Bool
tolerated none = true
tolerated (some e) = is_not_found_error e

-- An interface that the loops do not pass over.
unfoldable pub owned : VmInterface → Bool
owned i = str_eq i.topology (codes "LocalNet") && not (str_eq i.vni_id [])

-- Two ids that are both given.
abbrev pub both : Str → Str → Bool
both a b = not (str_eq a []) && not (str_eq b [])

-- The annotation's interfaces, where there are any and they parse.
unfoldable pub interfaces_of : MachineEnv → Machine → Option (List VmInterface)
interfaces_of env o =
    if str_eq o.annotations.network_interfaces []
    then none
    else env.parse_interfaces o.annotations.network_interfaces

abbrev pub vm_cleanup : Str
vm_cleanup = codes "vpc.roks.ibm.com/vm-cleanup"

-- The machine without the finalizer.
unfoldable pub released : Machine → Machine
released o = record o { finalizers = remove_finalizer vm_cleanup o.finalizers }

module _ (env : MachineEnv) where
  unfoldable pub remove_fip : (Option Str → Bool) → Str → Action (Unit {0})
  remove_fip accepted id = branch (str_eq id []) (pure tt) (do
    e ← call (env.on_delete_fip id) (delete_fip id)
    branch (accepted e) (record_call (metric (codes "delete_fip") (codes "success")))
        (record_call (metric (codes "delete_fip") (codes "error"))))

  -- Whether the attachment is gone.
  unfoldable pub remove_attachment : Str → Str → Action Bool
  remove_attachment server id = do
    e ← call (env.on_delete_attachment server id) (delete_attachment server id)
    branch (tolerated e)
        (do record_call (metric (codes "delete_vlan_attachment") (codes "success")); pure true)
        (do record_call (metric (codes "delete_vlan_attachment") (codes "error")); pure false)

  -- What follows the deletion of a VNI, by its answer: whether the VNI is gone.
  unfoldable pub after_remove_vni : Option Str → Action Bool
  after_remove_vni none = do record_call (metric (codes "delete_vni") (codes "success")); pure true
  after_remove_vni (some e) =
      branch (is_not_found_error e) (pure true)
        (do record_call (metric (codes "delete_vni") (codes "error")); pure false)

  unfoldable pub remove_vni : Str → Action Bool
  remove_vni id = do e ← call (env.on_delete_vni id) (delete_vni id); after_remove_vni e

  -- finalizers.EnsureRemoved, and the end of the run.
  unfoldable pub release : Machine → Action Outcome
  release o =
      branch (member vm_cleanup o.finalizers)
        (do
          e ← call (env.on_update (released o)) (update (released o))
          on_error e (λ m. pure (failing m)) (pure finished))
        (pure finished)

  -- The body of the loop of reconcileDelete: whether the loop goes on.
  unfoldable pub remove_interface : VmInterface → Action Bool
  remove_interface i =
      branch (owned i)
        (do
          remove_fip tolerated i.fip_id
          branch (both i.attachment_id i.bm_server_id)
              (remove_attachment i.bm_server_id i.attachment_id) (remove_vni i.vni_id))
        (pure true)

  unfoldable pub remove_interfaces : Machine → List VmInterface → Action Outcome
  remove_interfaces o [] = release o
  remove_interfaces o (i ∷ is) = do
    gone ← remove_interface i
    branch gone (remove_interfaces o is) (pure (requeue 30))

  -- No error at all.
  abbrev pub is_nil : Option Str → Bool
  is_nil none = true
  is_nil (some e) = false

  -- The resources that the flat annotations name.
  unfoldable pub remove_flat : VmAnnotations → Action Bool
  remove_flat a = do
    remove_fip is_nil a.fip_id
    branch (both a.attachment_id a.bm_server_id) (remove_attachment a.bm_server_id a.attachment_id)
        (branch (str_eq a.vni_id []) (pure true) (remove_vni a.vni_id))

  -- By the interfaces of the annotation.
  unfoldable pub delete_by : Machine → Option (List VmInterface) → Action Outcome
  delete_by o (some is) = remove_interfaces o is
  delete_by o none = do
    gone ← remove_flat o.annotations
    branch gone (release o) (pure (requeue 30))

  unfoldable pub reconcile_delete : Machine → Action Outcome
  reconcile_delete o = delete_by o (interfaces_of env o)

  unfoldable pub rename_vni_if_needed : NamedVni → Str → Action (Unit {0})
  rename_vni_if_needed v name = branch (str_eq v.name name) (pure tt) (do
    e ← call (env.on_rename_vni v.id name) (rename_vni v.id name)
    on_error e (λ _. record_call (metric (codes "rename_vni") (codes "error")))
        (record_call (metric (codes "rename_vni") (codes "success"))))

  -- What follows GetVNI, by its answer.
  unfoldable pub after_get_vni : Str → Result NamedVni → Action (Unit {0})
  after_get_vni name (err e) = record_call (metric (codes "drift_check") (codes "drift_detected"))
  after_get_vni name (ok v) = rename_vni_if_needed v name

  -- "roks-<cluster>-<namespace>-<machine>"
  abbrev pub machine_name : Machine → Str
  machine_name o = codes "roks-" ++ (env.cluster_id ++ (b'-' ∷ o.namespace ++ (b'-' ∷ o.name)))

  -- The name expected of the VNI of an interface.
  unfoldable pub expected_name : Machine → VmInterface → Str
  expected_name o i = truncate_vpc_name env.sha256 (machine_name o ++ (b'-' ∷ i.network_name))

  unfoldable pub check_vni : Str → Str → Action (Unit {0})
  check_vni id name = do r ← read (env.get_vni id); after_get_vni name r

  unfoldable pub check_interfaces : Machine → List VmInterface → Action (Unit {0})
  check_interfaces o [] = pure tt
  check_interfaces o (i ∷ is) = do
    branch (owned i) (check_vni i.vni_id (expected_name o i)) (pure tt)
    check_interfaces o is

  unfoldable pub check_by : Machine → Option (List VmInterface) → Action (Unit {0})
  check_by o (some is) = check_interfaces o is
  check_by o none =
      branch (str_eq o.annotations.vni_id []) (pure tt)
        (check_vni o.annotations.vni_id (truncate_vpc_name env.sha256 (machine_name o)))

  unfoldable pub reconcile_drift_check : Machine → Action Outcome
  reconcile_drift_check o = do check_by o (interfaces_of env o); pure (requeue 300)

-- The answer of r.Get.
pub data Fetched : Type 0 where
  object : Machine → Fetched
  missing : Fetched
  broken : Str → Fetched

-- A machine without the operator's annotations is left alone.
unfoldable pub reconcile : MachineEnv → Fetched → Action Outcome
reconcile env missing = pure finished
reconcile env (broken e) = pure (failing e)
reconcile env (object o) =
    branch (str_eq o.annotations.network_interfaces [] && str_eq o.annotations.vni_id [])
      (pure finished) (branch o.deleting (reconcile_delete env o) (reconcile_drift_check env o))
