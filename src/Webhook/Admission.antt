-- ===== src/Webhook/Admission.antt =====
-- pkg/webhook/vm_mutating.go, Handle: the resources of each network of a new machine, and the patch.
-- The messages of the responses are left out.
pub mod Recorded
pub mod Patched
pub mod Cleanup
mod Tests
use roks_vpc_cni.Base.{
  ◌&&◌, ◌||◌, not, ltb, length, ℕ, Bool, true, false, Option, none, some, List, [], ◌∷◌, ◌++◌,
  if◌then◌else◌,
}
use roks_vpc_cni.Text.{Str, codes, str_eq, member}
use roks_vpc_cni.Text.Integers.{ℤ, parse_int, decimal_int}
use roks_vpc_cni.Dict.{Dict, lookup, insert, get}
use roks_vpc_cni.Network.Names.{truncate_vpc_name}
use roks_vpc_cni.Network.Servers.{
  Node, BareMetalServer, server_map, hostname_of, first_found, by_provider,
}
use roks_vpc_cni.Controllers.Effects.{Result, ok, err}
use roks_vpc_cni.Controllers.Logged.{Logged, pure, ◌>>=◌, branch, read, call}
use roks_vpc_cni.Controllers.Machines.{VmInterface, vm_cleanup}
use roks_vpc_cni.Controllers.FloatingIps.{CreateFloatingIpOptions}
use roks_vpc_cni.Webhook.Json.{
  Json, object, Fields, or_nil, get_nested_string_map, get_nested_string_slice,
  set_nested_string_map, set_nested_string_slice, set_nested_field,
}
use roks_vpc_cni.Webhook.Networks.{
  MultusNet, NetworkInfo, is_local_net, is_layer2, find_all_multus_networks, extract_network_name,
  split_trimmed, parse_fip_networks, Found, resolve_network_info, Router, find_router_gateway,
}
use roks_vpc_cni.Webhook.CloudInit.{LocalNetIp, inject_cloud_init_network_config}

-- The request, its object decoded: nothing where that fails.
pub record Request : Type 0 where
  pub operation : Str
  pub namespace : Str
  pub name : Str
  pub object : Option Fields

-- vpc.CreateVMAttachmentOptions
pub record VmAttachmentOptions : Type 0 where
  pub bm_server_id : Str
  pub name : Str
  pub vlan_id : ℤ
  pub subnet_id : Str
  pub vni_name : Str
  pub security_group_ids : List Str

-- vpc.VMAttachmentResult, with its VNI.
pub record VmAttachment : Type 0 where
  pub attachment_id : Str
  pub bm_server_id : Str
  pub vni_id : Str
  pub mac_address : Str
  pub primary_ip_address : Str
  pub primary_ip_id : Str

-- vpc.FloatingIP, as far as it is read here.
pub record NewFip : Type 0 where
  pub id : Str
  pub address : Str

pub data WebhookCall : Type 0 where
  create_attachment : VmAttachmentOptions → Result VmAttachment → WebhookCall
  create_fip : CreateFloatingIpOptions → Result NewFip → WebhookCall

abbrev pub Calls : Type 0
Calls = List WebhookCall

abbrev pub Action : Type 0 → Type 0
Action = Logged WebhookCall

-- The answers. `none` is an error, or for an object that it is not found; json.Marshal of the
-- interfaces and of the object are functions, where the latter only says whether it fails.
pub record WebhookEnv : Type 0 where
  pub cluster_id : Str
  pub sha256 : Str → List ℕ
  pub has_client : Bool
  pub get_cudn : Str → Calls → Option Found
  pub get_udn : Str → Str → Calls → Option Found
  pub list_routers : Str → Calls → Option (List Router)
  pub list_nodes : Calls → Option (List Node)
  pub list_servers : Str → Calls → Option (List BareMetalServer)
  pub on_create_attachment : VmAttachmentOptions → Calls → Result VmAttachment
  pub on_create_fip : CreateFloatingIpOptions → Calls → Result NewFip
  pub marshal_interfaces : List VmInterface → Option Str
  pub marshals : Fields → Bool

-- admission.Response: a code with an error, or a patch that leads to an object.
pub data Response : Type 0 where
  allowed : Response
  errored : ℕ → Response
  patched : Fields → Response

-- What the loop over the networks has made so far.
pub record Progress : Type 0 where
  pub vm : Fields
  pub interfaces : List VmInterface
  pub local_net_ips : List LocalNetIp

-- The loop goes on, or the handler returns with a code.
pub data Step : Type 0 where
  go : Progress → Step
  stop : ℕ → Step

abbrev pub on_step : Step → (Progress → Action Step) → Action Step
on_step (stop code) k = pure (stop code)
on_step (go p) k = k p

-- The entry of a network without resources.
unfoldable pub bare_entry : MultusNet → NetworkInfo → VmInterface
bare_entry mn info = record {
  network_name = info.name;
  network_kind = info.kind;
  topology = info.topology;
  role = info.role;
  interface_name = mn.iface_name;
  vni_id = [];
  mac_address = [];
  reserved_ip = [];
  reserved_ip_id = [];
  fip_id = [];
  fip_address = [];
  attachment_id = [];
  bm_server_id = [];
  gateway = [];
}

unfoldable pub with_attachment : VmAttachment → VmInterface → VmInterface
with_attachment a i = record i {
  vni_id = a.vni_id;
  mac_address = a.mac_address;
  reserved_ip = a.primary_ip_address;
  reserved_ip_id = a.primary_ip_id;
  attachment_id = a.attachment_id;
  bm_server_id = a.bm_server_id;
}

-- A floating IP that cannot be made is only logged.
unfoldable pub with_fip : Result NewFip → VmInterface → VmInterface
with_fip (err e) i = i
with_fip (ok f) i = record i { fip_id = f.id; fip_address = f.address }

unfoldable pub push_entry : Progress → VmInterface → Progress
push_entry p i = record p { interfaces = p.interfaces ++ i ∷ [] }

abbrev pub json_fields : Json → Fields → Fields
json_fields (object fs) otherwise = fs
json_fields Json.null otherwise = otherwise
json_fields (Json.boolean b) otherwise = otherwise
json_fields (Json.number n) otherwise = otherwise
json_fields (Json.text s) otherwise = otherwise
json_fields (Json.array es) otherwise = otherwise

-- The MAC address in the machine's interface, and the address for cloud-init.
unfoldable pub with_address : MultusNet → VmAttachment → Progress → Progress
with_address mn a p = record p {
  vm = json_fields (set_nested_field a.mac_address mn.path (codes "macAddress") (object p.vm)) p.vm;
  local_net_ips =
      p.local_net_ips
      ++ record { ip = a.primary_ip_address; mac = a.mac_address; name = mn.iface_name } ∷ [];
}

-- By the exact name of a node, or by its hostname.
unfoldable pub by_either_name : Dict Str → List Node → Option Str
by_either_name m [] = none
by_either_name m (n ∷ ns) = elim (lookup n.name m) [
  | some id ↦ some id
  | none ↦ elim (lookup (hostname_of n.name) m) [ some id ↦ some id | none ↦ by_either_name m ns ]
]

unfoldable pub by_servers : Str → List Node → Option (List BareMetalServer) → Option Str
by_servers vpc_id ns none = none
by_servers vpc_id ns (some servers) =
    if str_eq vpc_id [] then none else by_either_name (server_map servers []) ns

unfoldable pub pick_bm_server :
    Option (List Node) → Str → Option (List BareMetalServer) → Option Str
pick_bm_server none vpc_id servers = none
pick_bm_server (some ns) vpc_id servers =
    let provided = first_found by_provider ns in
    if str_eq provided [] then by_servers vpc_id ns servers else some provided

module _ (env : WebhookEnv) (req : Request) (multi : Bool) where
  -- "roks-<cluster>-<namespace>-<machine>", with the network behind it for a machine with several.
  abbrev pub base_name : Str → Str
  base_name network =
      let name = codes "roks-" ++ (env.cluster_id ++ (b'-' ∷ req.namespace ++ (b'-' ∷ req.name))) in
      if multi then name ++ (b'-' ∷ network) else name

  unfoldable pub attachment_options : Str → Str → Dict Str → VmAttachmentOptions
  attachment_options server network annots =
      let vlan_id = parse_int (get (codes "vpc.roks.ibm.com/vlan-id") annots) in
      record {
        bm_server_id = server;
        name =
            truncate_vpc_name env.sha256
              (base_name network ++ (codes "-vlan" ++ decimal_int vlan_id));
        vlan_id = vlan_id;
        subnet_id = get (codes "vpc.roks.ibm.com/subnet-id") annots;
        vni_name = truncate_vpc_name env.sha256 (base_name network);
        security_group_ids =
            split_trimmed (get (codes "vpc.roks.ibm.com/security-group-ids") annots);
      }

  -- By the server that was picked; the error of the picking stands for any.
  unfoldable pub after_pick : Str → Dict Str → Option Str → Action (Result VmAttachment)
  after_pick network annots none = pure (err (codes "failed to find bare metal server"))
  after_pick network annots (some server) =
      let q = attachment_options server network annots in
      call (env.on_create_attachment q) (create_attachment q)

  unfoldable pub ensure_vni_attachment : Str → Dict Str → Action (Result VmAttachment)
  ensure_vni_attachment network annots = do
    let vpc_id = get (codes "vpc.roks.ibm.com/vpc-id") annots
    nodes ← read env.list_nodes
    servers ← read (env.list_servers vpc_id)
    after_pick network annots (pick_bm_server nodes vpc_id servers)

  unfoldable pub fip_options : Dict Str → VmAttachment → CreateFloatingIpOptions
  fip_options annots a = record {
    name = truncate_vpc_name env.sha256 (
        codes "roks-"
        ++ (env.cluster_id ++ (b'-' ∷ req.namespace ++ (b'-' ∷ req.name ++ codes "-fip"))));
    zone = get (codes "vpc.roks.ibm.com/zone") annots;
    vni_id = a.vni_id;
  }

  module _ (vm_annots : Dict Str) where
    unfoldable pub wants_fip : MultusNet → NetworkInfo → Bool
    wants_fip mn info =
        let asked = parse_fip_networks vm_annots in
        (not multi && str_eq (get (codes "vpc.roks.ibm.com/fip") vm_annots) (codes "true"))
        || (member info.name asked || member mn.iface_name asked)

    -- What follows the creation of the attachment, by its answer.
    unfoldable pub after_ensure :
        MultusNet → Progress → NetworkInfo → Dict Str → Result VmAttachment → Action Step
    after_ensure mn p info annots (err e) = pure (stop 500)
    after_ensure mn p info annots (ok a) =
        let entry = with_attachment a (bare_entry mn info) in
        let q = fip_options annots a in
        branch (wants_fip mn info)
          (do
            f ← call (env.on_create_fip q) (create_fip q)
            pure (go (push_entry (with_address mn a p) (with_fip f entry))))
          (pure (go (push_entry (with_address mn a p) entry)))

    unfoldable pub attach_local_net : MultusNet → Progress → NetworkInfo → Dict Str → Action Step
    attach_local_net mn p info annots =
        branch (str_eq (get (codes "vpc.roks.ibm.com/subnet-id") annots) []) (pure (stop 503))
          (do r ← ensure_vni_attachment info.name annots; after_ensure mn p info annots r)

    -- A network that is no LocalNet: the router's gateway on Layer2.
    unfoldable pub add_overlay : MultusNet → Progress → NetworkInfo → Action Step
    add_overlay mn p info =
        branch (is_layer2 info)
          (do
            routers ← read (env.list_routers req.namespace)
            pure (
                go (
                  push_entry p (record (bare_entry mn info) {
                    gateway = if env.has_client then find_router_gateway info.name routers else [];
                  }))))
          (pure (go (push_entry p (bare_entry mn info))))

    unfoldable pub after_resolve :
        MultusNet → Progress → Option (NetworkInfo × Dict Str) → Action Step
    after_resolve mn p none = pure (stop 500)
    after_resolve mn p (some (info, annots)) =
        branch (is_local_net info) (attach_local_net mn p info annots) (add_overlay mn p info)

    -- The body of the loop.
    unfoldable pub process_network : MultusNet → Progress → Action Step
    process_network mn p = do
      let name = extract_network_name mn.network_ref
      cudn ← read (env.get_cudn name)
      udn ← read (env.get_udn req.namespace name)
      after_resolve mn p
          (if env.has_client then resolve_network_info name req.namespace cudn udn else none)

    unfoldable pub process_networks : List MultusNet → Progress → Action Step
    process_networks [] p = pure (go p)
    process_networks (mn ∷ mns) p = do s ← process_network mn p; on_step s (process_networks mns)

-- m[k] = v where v is not empty.
abbrev pub insert_given : Str → Str → Dict Str → Dict Str
insert_given k v m = if str_eq v [] then m else insert k v m

unfoldable pub flat_fip : VmInterface → Dict Str → Dict Str
flat_fip i m =
    if str_eq i.fip_id []
    then m
    else insert (codes "vpc.roks.ibm.com/fip-address") i.fip_address
        (insert (codes "vpc.roks.ibm.com/fip-id") i.fip_id m)

-- The flat annotations of one interface.
unfoldable pub flat_annotations : VmInterface → Dict Str → Dict Str
flat_annotations i m = flat_fip i (
    insert_given (codes "vpc.roks.ibm.com/bm-server-id") i.bm_server_id (
      insert_given (codes "vpc.roks.ibm.com/attachment-id") i.attachment_id (
        insert (codes "vpc.roks.ibm.com/reserved-ip-id") i.reserved_ip_id (
          insert (codes "vpc.roks.ibm.com/reserved-ip") i.reserved_ip (
            insert (codes "vpc.roks.ibm.com/mac-address") i.mac_address
              (insert (codes "vpc.roks.ibm.com/vni-id") i.vni_id m))))))

-- Those of the first LocalNet interface with a VNI.
unfoldable pub legacy_annotations : List VmInterface → Dict Str → Dict Str
legacy_annotations [] m = m
legacy_annotations (i ∷ is) m =
    if str_eq i.topology (codes "LocalNet") && not (str_eq i.vni_id [])
    then flat_annotations i m
    else legacy_annotations is m

abbrev pub metadata : List Str
metadata = codes "metadata" ∷ []

unfoldable pub add_finalizer : Fields → Fields
add_finalizer vm =
    let existing = get_nested_string_slice metadata (codes "finalizers") vm in
    if member vm_cleanup existing
    then vm
    else set_nested_string_slice (existing ++ vm_cleanup ∷ []) metadata (codes "finalizers") vm

-- The machine with its annotations, the configuration of cloud-init and the finalizer.
unfoldable pub patch_machine : Dict Str → Str → Progress → Fields
patch_machine vm_annots text p =
    let annots =
      legacy_annotations p.interfaces
        (insert (codes "vpc.roks.ibm.com/network-interfaces") text vm_annots) in
    add_finalizer (
      inject_cloud_init_network_config p.local_net_ips
        (set_nested_string_map annots metadata (codes "annotations") p.vm))

-- By the JSON text of the interfaces.
unfoldable pub respond : WebhookEnv → Dict Str → Progress → Option Str → Response
respond env vm_annots p none = errored 500
respond env vm_annots p (some text) =
    let vm = patch_machine vm_annots text p in if env.marshals vm then patched vm else errored 500

-- What follows the loop.
unfoldable pub finish : WebhookEnv → Dict Str → Step → Response
finish env vm_annots (stop code) = errored code
finish env vm_annots (go p) = respond env vm_annots p (env.marshal_interfaces p.interfaces)

abbrev pub annotations_of : Fields → Dict Str
annotations_of vm = or_nil (get_nested_string_map metadata (codes "annotations") vm)

abbrev pub start : Fields → Progress
start vm = record { vm = vm; interfaces = []; local_net_ips = [] }

unfoldable pub handle_networks : WebhookEnv → Request → Fields → List MultusNet → Action Response
handle_networks env req vm [] = pure allowed
handle_networks env req vm (mn ∷ mns) = do
  let annots = annotations_of vm
  s ← process_networks env req (ltb 1 (length (mn ∷ mns))) annots (mn ∷ mns) (start vm)
  pure (finish env annots s)

unfoldable pub handle_decoded : WebhookEnv → Request → Option Fields → Action Response
handle_decoded env req none = pure (errored 400)
handle_decoded env req (some vm) = handle_networks env req vm (find_all_multus_networks vm)

unfoldable pub handle : WebhookEnv → Request → Action Response
handle env req =
    branch (str_eq req.operation (codes "CREATE")) (handle_decoded env req req.object)
      (pure allowed)
