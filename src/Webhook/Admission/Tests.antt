-- ===== src/Webhook/Admission/Tests.antt =====
-- Admissions of concrete machines, with one network and with two.
use roks_vpc_cni.Webhook.CloudInit.{
  change_volume, with_volumes, inject_volumes, three_parts, gateway_of, ethernet, ethernets,
  inject_cloud_init_network_config,
}
use roks_vpc_cni.Network.Servers.{fourth, extract_bm_server_id, first_found}
use roks_vpc_cni.Base.{
  ◌≡◌, ◌≢◌, refl, ◌&&◌, Bool, Bool-cases, inl, inr, ap, sym, if◌then◌else◌, ◌∷◌, [], List, Option,
  none, some, map, true, false, arith, All,
}
use roks_vpc_cni.Text.{
  has_prefix, split, to_lower, split2, Str, codes, str_eq, str_eq_sound, member,
}
use roks_vpc_cni.Dict.{insert, lookup, get}
use roks_vpc_cni.Controllers.Effects.{ok, err}
use roks_vpc_cni.Controllers.Machines.{VmInterface, Machine, MachineEnv, interfaces_of, vm_cleanup}
use roks_vpc_cni.Controllers.Machines.Released.{duties_by}
use roks_vpc_cni.Webhook.Json.{
  strings_of, set_nested_string_slice, change_key, set_nested_field, put_key, put_nested,
  set_nested_string_map, get_nested_string_map, elements, get_key, nested, get_nested_slice, Json,
  text, array, object, Fields, empty, field, last, element, get_nested_string_slice,
}
use roks_vpc_cni.Webhook.Networks.{
  role_below, parse_fip_networks, normalize_topology, topology_and_role,
  extract_cudn_topology_and_role, extract_network_name, resolve_network_info, find_interface,
  entry_at, multus_name, named_entries, entries_of, collect_entries, find_all_multus_networks,
  Found,
}
use roks_vpc_cni.Webhook.Admission.{
  flat_fip, flat_annotations, legacy_annotations, add_finalizer, patch_machine, bare_entry,
  with_attachment, with_address, push_entry, respond, wants_fip, pick_bm_server, after_pick,
  ensure_vni_attachment, after_ensure, attach_local_net, after_resolve, process_network,
  process_networks, finish, handle_networks, handle_decoded, Request, VmAttachment, WebhookEnv,
  Response, patched, allowed, errored, metadata, handle,
}
use roks_vpc_cni.Webhook.Admission.Recorded.{created}
use roks_vpc_cni.Webhook.Admission.Cleanup.{duty_for, duties-handle}

abbrev one : Str → Json → Fields
one k v = field k v empty

-- A network entry of a machine, and the interface with its name.
abbrev multus : Str → Str → Json
multus name ref = object (
    field (codes "name") (text name)
      (one (codes "multus") (object (one (codes "networkName") (text ref)))))

abbrev iface : Str → Json
iface name = object (one (codes "name") (text name))

abbrev machine_with : Json → Json → Fields
machine_with networks interfaces = field (codes "metadata") (object empty) (
    one (codes "spec") (
      object (
        one (codes "template") (
          object (
            one (codes "spec") (
              object (
                field (codes "networks") networks (
                  one (codes "domain") (
                    object (
                      one (codes "devices") (object (one (codes "interfaces") interfaces))))))))))))

abbrev single : Fields
single =
    machine_with (array (element (multus (codes "n1") (codes "ns/web")) last))
      (array (element (iface (codes "n1")) last))

abbrev double : Fields
double =
    machine_with
      (array (
        element (multus (codes "n1") (codes "ns/web"))
          (element (multus (codes "n2") (codes "gone")) last)))
      (array (element (iface (codes "n1")) (element (iface (codes "n2")) last)))

abbrev request : Fields → Request
request vm = record {
  operation = codes "CREATE";
  namespace = codes "ns";
  name = codes "vm";
  object = some vm;
}

-- The network "web", with a subnet; no other network is known.
abbrev web : Found
web = record {
  content =
      one (codes "spec") (
        object (one (codes "network") (object (one (codes "topology") (text (codes "Localnet"))))));
  annotations = (codes "vpc.roks.ibm.com/subnet-id", codes "s1") ∷ [];
}

abbrev attachment_made : VmAttachment
attachment_made = record {
  attachment_id = codes "a1";
  bm_server_id = codes "b1";
  vni_id = codes "v1";
  mac_address = codes "02:00";
  primary_ip_address = codes "10.0.0.5";
  primary_ip_id = codes "r1";
}

abbrev env : WebhookEnv
env = record {
  cluster_id = codes "c";
  sha256 = λ s. [];
  has_client = true;
  get_cudn = λ name t. elim (str_eq name (codes "web")) [ true ↦ some web | false ↦ none ];
  get_udn = λ ns name t. none;
  list_routers = λ ns t. none;
  list_nodes = λ t.
      some
        (record { name = codes "n"; provider_id = codes "ibm://a/b/c/d"; instance_type = [] } ∷ []);
  list_servers = λ vpc t. none;
  on_create_attachment = λ q t. ok attachment_made;
  on_create_fip = λ q t. err [];
  marshal_interfaces = λ is. none;
  marshals = λ vm. true;
}

-- The second network is not known: the handler returns an error, and the attachment that it has
-- created for the first one stays behind.
stranded_attachment :
    ((handle env (request double) []).0 ≡ errored 500)
    × (created (handle env (request double) []).1 ≡ (codes "b1", (codes "a1", codes "v1")) ∷ [])
unfolding handle str_eq handle_decoded handle_networks find_all_multus_networks collect_entries
    get_nested_slice nested get_key elements entries_of named_entries multus_name entry_at
    find_interface finish process_networks process_network after_resolve resolve_network_info
    extract_network_name split2 extract_cudn_topology_and_role topology_and_role normalize_topology
    to_lower attach_local_net get lookup after_ensure ensure_vni_attachment after_pick
    pick_bm_server first_found extract_bm_server_id fourth split has_prefix wants_fip member
    parse_fip_networks get_nested_string_map created
stranded_attachment = (refl, refl)

-- The interface that the single machine is to have, and a codec that knows it alone.
abbrev entry : VmInterface
entry = record {
  network_name = codes "web";
  network_kind = codes "ClusterUserDefinedNetwork";
  topology = codes "LocalNet";
  role = codes "Secondary";
  interface_name = codes "n1";
  vni_id = codes "v1";
  mac_address = codes "02:00";
  reserved_ip = codes "10.0.0.5";
  reserved_ip_id = codes "r1";
  fip_id = [];
  fip_address = [];
  attachment_id = codes "a1";
  bm_server_id = codes "b1";
  gateway = [];
}

abbrev all_eq : List (Str × Str) → Bool
all_eq [] = true
all_eq ((a, b) ∷ ps) = str_eq a b && all_eq ps

all_eq_sound : (ps : List (Str × Str)) → all_eq ps ≡ true → All (λ p. p.0 ≡ p.1) ps
all_eq_sound [] e = tt
all_eq_sound ((a, b) ∷ ps) e =
    (str_eq_sound a b (ground (arith, e)), all_eq_sound ps (ground (arith, e)))

abbrev pairs : VmInterface → List (Str × Str)
pairs i =
    (i.network_name, entry.network_name)
    ∷ (i.network_kind, entry.network_kind)
    ∷ (i.topology, entry.topology)
    ∷ (i.role, entry.role)
    ∷ (i.interface_name, entry.interface_name)
    ∷ (i.vni_id, entry.vni_id)
    ∷ (i.mac_address, entry.mac_address)
    ∷ (i.reserved_ip, entry.reserved_ip)
    ∷ (i.reserved_ip_id, entry.reserved_ip_id)
    ∷ (i.fip_id, entry.fip_id)
    ∷ (i.fip_address, entry.fip_address)
    ∷ (i.attachment_id, entry.attachment_id)
    ∷ (i.bm_server_id, entry.bm_server_id)
    ∷ (i.gateway, entry.gateway)
    ∷ []

is_entry : (i : VmInterface) → all_eq (pairs i) ≡ true → i ≡ entry
is_entry i e =
    let (h1, (h2, (h3, (h4, (h5, (h6, (h7, (h8, (h9, (h10, (h11, (h12, (h13, (h14, _)))))))))))))) =
      all_eq_sound (pairs i) e in
    λ j. record {
      network_name = h1 j;
      network_kind = h2 j;
      topology = h3 j;
      role = h4 j;
      interface_name = h5 j;
      vni_id = h6 j;
      mac_address = h7 j;
      reserved_ip = h8 j;
      reserved_ip_id = h9 j;
      fip_id = h10 j;
      fip_address = h11 j;
      attachment_id = h12 j;
      bm_server_id = h13 j;
      gateway = h14 j;
    }

abbrev marshal : List VmInterface → Option Str
marshal [] = none
marshal (i ∷ []) = if all_eq (pairs i) then some (codes "[{}]") else none
marshal (i ∷ j ∷ is) = none

abbrev codec_env : WebhookEnv
codec_env = record env { marshal_interfaces = marshal }

abbrev machine_env : MachineEnv
machine_env = record {
  cluster_id = codes "c";
  sha256 = λ s. [];
  parse_interfaces = λ s. some (entry ∷ []);
  on_update = λ o t. none;
  on_delete_fip = λ id t. none;
  on_delete_attachment = λ s id t. none;
  on_delete_vni = λ id t. none;
  on_rename_vni = λ id name t. none;
  get_vni = λ id t. err [];
}

reads :
    (is : List VmInterface) (s : Str)
    → marshal is ≡ some s
    → (s ≢ []) × (machine_env.parse_interfaces s ≡ some is)
reads [] s e = absurd (ground (arith, e))
reads (i ∷ []) s e = elim (Bool-cases (all_eq (pairs i))) [
  | inl f ↦ (ground (arith, rw f at e), ap (λ k. some (k ∷ [])) (sym (is_entry i f)))
  | inr f ↦ absurd (ground (arith, rw f at e))
]
reads (i ∷ j ∷ is) s e = absurd (ground (arith, e))

-- The machine as it is stored with the patch.
abbrev patch_of : Response → Fields
patch_of (patched vm) = vm
patch_of allowed = empty
patch_of (errored code) = empty

abbrev patch : Fields
patch = patch_of (handle codec_env (request single) []).0

abbrev stored_machine : Machine
stored_machine = record {
  name = codes "vm";
  namespace = codes "ns";
  finalizers = vm_cleanup ∷ [];
  deleting = true;
  annotations = record {
    network_interfaces = codes "[{}]";
    vni_id = [];
    fip_id = [];
    attachment_id = [];
    bm_server_id = [];
  };
}

duties-handle_example :
    (duties_by stored_machine (interfaces_of machine_env stored_machine)
      ≡ map duty_for (created (handle codec_env (request single) []).1))
    × (member vm_cleanup (get_nested_string_slice metadata (codes "finalizers") patch) ≡ true)
unfolding get_key str_eq handle handle_decoded handle_networks find_all_multus_networks
    collect_entries get_nested_slice nested elements entries_of named_entries multus_name entry_at
    find_interface finish process_networks process_network after_resolve resolve_network_info
    extract_network_name split2 extract_cudn_topology_and_role topology_and_role normalize_topology
    to_lower attach_local_net get lookup after_ensure ensure_vni_attachment after_pick
    pick_bm_server first_found extract_bm_server_id fourth split has_prefix wants_fip
    get_nested_string_map member parse_fip_networks respond push_entry with_address with_attachment
    bare_entry role_below created patch_machine add_finalizer get_nested_string_slice
    inject_cloud_init_network_config ethernets ethernet gateway_of three_parts inject_volumes
    with_volumes change_volume set_nested_string_map put_nested put_key set_nested_field change_key
    set_nested_string_slice strings_of legacy_annotations flat_annotations flat_fip insert
duties-handle_example =
    duties-handle codec_env (request single) single patch empty
      (handle codec_env (request single) []).1 machine_env stored_machine refl refl refl
      (
        (
          λ e. absurd (ground (arith, e)),
          (λ e. absurd (ground (arith, e)), λ e. absurd (ground (arith, e))),
        ),
        tt,
      )
      reads refl
