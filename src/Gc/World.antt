-- ===== src/Gc/World.antt =====
-- What a run of the collector sees (the lists of the Kubernetes and VPC interfaces) and what it
-- does (the deletions). The interfaces themselves are parameters.
use roks_vpc_cni.Base.{Bool, true, false, ◌||◌, ◌&&◌, Option, List, [], ◌∷◌}
use roks_vpc_cni.Text.{Str, str_eq}
use roks_vpc_cni.Dict.{Dict}

pub data Kind : Type 0 where
  vni fip par route : Kind

abbrev pub same_kind : Kind → Kind → Bool
same_kind vni vni = true
same_kind fip fip = true
same_kind par par = true
same_kind route route = true
same_kind _ _ = false

-- A VPC resource: its other fields are only logged.
pub record Resource : Type 0 where
  pub id : Str
  pub name : Str

pub record RoutingTable : Type 0 where
  pub id : Str
  pub is_default : Bool

-- A value in the status of an unstructured object: a string, a list whose members are strings or
-- not, or anything else.
pub data Json : Type 0 where
  text : Str → Json
  items : List (Option Str) → Json
  other : Json

-- `gw.Object["status"]`, where it is an object.
abbrev pub Status : Type 0
Status = Option (Dict Json)

-- `K8sClient.Get` of a virtual machine.
pub data GetResult : Type 0 where
  found not_found failed : GetResult

-- One call of a VPC deletion, and whether it succeeded.
pub record Deletion : Type 0 where
  pub kind : Kind
  pub id : Str
  pub deleted : Bool

-- The deletions of a run, the latest first.
abbrev pub Log : Type 0
Log = List Deletion

-- `none` is a list call that failed.
pub record Env : Type 0 where
  pub cluster_id : Str
  pub vpc_id : Str
  pub list_vnis_by_tag : Option (List Resource)
  pub list_floating_ips : Option (List Resource)
  pub list_public_address_ranges : Option (List Resource)
  pub list_routing_tables : Option (List RoutingTable)
  pub list_routes : Str → Option (List Resource)
  -- the annotations of the virtual machines
  pub list_vms : Option (List (Dict Str))
  pub list_gateways : Option (List Status)
  pub list_floating_ip_crs : Option (List Status)
  pub get_vm : Str → Str → GetResult
  -- json.Unmarshal of the network-interfaces annotation, as the VNI ids that it holds
  pub unmarshal_vni_ids : Str → Option (List Str)
  -- whether a deletion succeeds, which may depend on those before it
  pub delete_succeeds : Kind → Str → Log → Bool

-- Whether the run called the deletion of this resource.
unfoldable pub attempted : Kind → Str → Log → Bool
attempted k id [] = false
attempted k id (d ∷ log) = (same_kind d.kind k && str_eq d.id id) || attempted k id log
