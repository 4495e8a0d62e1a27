-- ===== src/Controllers/Machines/Tests.antt =====
-- Examples of runs on machines.
use roks_vpc_cni.Network.Names.{truncate_vpc_name}
use roks_vpc_cni.Base.{◌≡◌, refl, true, none, some, [], ◌∷◌, All}
use roks_vpc_cni.Text.{member, contains, str_eq, codes}
use roks_vpc_cni.Controllers.Effects.{ok, requeue, finished}
use roks_vpc_cni.Controllers.Machines.{
  expected_name, rename_vni_if_needed, after_get_vni, check_vni, check_interfaces, check_by,
  release, after_remove_vni, remove_vni, is_not_found_error, tolerated, remove_attachment, owned,
  remove_interface, remove_interfaces, delete_by, VmInterface, Machine, update, Calls, MachineEnv,
  interfaces_of, released, reconcile_delete, reconcile_drift_check,
}
use roks_vpc_cni.Controllers.Machines.Released.{
  settled, asked, written, duties_by, written-settled, Tolerates, reconcile_delete-release,
}
use roks_vpc_cni.Controllers.Machines.Renames.{renames}

-- An interface of a network, with a VNI, an attachment and a floating IP.
abbrev web : VmInterface
web = record {
  network_name = codes "web";
  network_kind = codes "UserDefinedNetwork";
  topology = codes "LocalNet";
  role = codes "Secondary";
  interface_name = codes "net1";
  vni_id = codes "v1";
  mac_address = [];
  reserved_ip = [];
  reserved_ip_id = [];
  fip_id = codes "f1";
  fip_address = [];
  attachment_id = codes "a1";
  bm_server_id = codes "s1";
  gateway = [];
}

-- One with a VNI only.
abbrev old : VmInterface
old = record web { vni_id = codes "v2"; attachment_id = []; fip_id = [] }

abbrev machine : Machine
machine = record {
  name = codes "vm";
  namespace = codes "ns";
  finalizers = codes "vpc.roks.ibm.com/vm-cleanup" ∷ [];
  deleting = true;
  annotations = record {
    network_interfaces = codes "[...]";
    vni_id = [];
    fip_id = [];
    attachment_id = [];
    bm_server_id = [];
  };
}

-- VNIs are not found when they are deleted, and floating IPs cannot be deleted.
abbrev env : MachineEnv
env = record {
  cluster_id = codes "c";
  sha256 = λ s. [];
  parse_interfaces = λ s. some (web ∷ old ∷ []);
  on_update = λ o t. none;
  on_delete_fip = λ id t. some (codes "forbidden");
  on_delete_attachment = λ s id t. none;
  on_delete_vni = λ id t. some (codes "vni not found");
  on_rename_vni = λ id name t. none;
  get_vni = λ id t. ok (record { id = id; name = codes "brave-otter" });
}

-- A server that does not answer.
abbrev failing_env : MachineEnv
failing_env = record env { on_delete_attachment = λ s id t. some (codes "timeout") }

failing_requeues : (reconcile_delete failing_env machine []).0 ≡ requeue 30
unfolding reconcile_delete delete_by interfaces_of str_eq remove_interfaces remove_interface owned
    remove_attachment tolerated is_not_found_error contains
failing_requeues = refl

written-settled_example :
    let t = (reconcile_delete env machine []).1 in
    let ds = duties_by machine (interfaces_of env machine) in
    (asked t ≡ ds) × All (λ d. settled d t ≡ true) ds
unfolding written reconcile_delete delete_by interfaces_of str_eq remove_interfaces remove_interface
    owned remove_attachment tolerated remove_vni after_remove_vni is_not_found_error contains
    release member
written-settled_example = written-settled env machine refl

env-Tolerates : Tolerates env
unfolding tolerated is_not_found_error contains
env-Tolerates = record { attachments = λ s id t. refl; vnis = λ id t. refl }

reconcile_delete-release_example :
    (t : Calls) × (reconcile_delete env machine [] ≡ (finished, update (released machine) none ∷ t))
unfolding member str_eq
reconcile_delete-release_example =
    reconcile_delete-release env machine env-Tolerates refl (λ t. refl)

two_renames :
    renames (reconcile_drift_check env machine []).1
    ≡ (codes "v1", codes "roks-c-ns-vm-web") ∷ (codes "v2", codes "roks-c-ns-vm-web") ∷ []
unfolding reconcile_drift_check renames check_by interfaces_of str_eq check_interfaces owned
    check_vni after_get_vni rename_vni_if_needed expected_name truncate_vpc_name
two_renames = refl
