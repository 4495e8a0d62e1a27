-- ===== src/Gateway/Deletion.antt =====
-- pkg/controller/gateway/reconciler.go: reconcileDelete and deletePAR, which delete the resources that
-- the status of a gateway names, and then remove the finalizer.
pub mod Clears
pub mod Settled
mod Tests
use roks_vpc_cni.Base.{
  ◌&&◌, ◌||◌, not, Bool, true, false, Option, none, some, List, [], ◌∷◌, if◌then◌else◌,
}
use roks_vpc_cni.Text.{Str, codes, str_eq, contains, member, to_lower}
use roks_vpc_cni.Controllers.Effects.{
  Result, ok, err, Outcome, finished, failing, requeue, remove_finalizer, pure, ◌>>=◌, ◌>>◌, branch,
  on_error,
}
use roks_vpc_cni.Controllers.Logged.{Logged, read, call, record_call}
use roks_vpc_cni.Gc.World.{RoutingTable}

-- The fields of VPCGateway that the deletion reads; the ids of the specification are those of
-- resources that the gateway does not own, empty where there are none.
pub record GatewayObject : Type 0 where
  pub finalizers : List Str
  pub spec_fip_id : Str
  pub spec_par_id : Str
  pub vni_id : Str
  pub attachment_id : Str
  pub bm_server_id : Str
  pub floating_ip_id : Str
  pub par_id : Str
  pub ingress_table_id : Str
  pub ingress_route_ids : List Str
  pub vpc_route_ids : List Str

-- What a deletion names: a route with its table, an attachment with its server.
pub data Resource : Type 0 where
  fip par table vni : Str → Resource
  table_route attachment : Str → Str → Resource

pub data GatewayCall : Type 0 where
  update : GatewayObject → Option Str → GatewayCall
  delete : Resource → Option Str → GatewayCall
  unbind_fip : Str → Option Str → GatewayCall
  metric : Str → Bool → GatewayCall
  event : Str → GatewayCall

abbrev pub Calls : Type 0
Calls = List GatewayCall

abbrev pub Action : Type 0 → Type 0
Action = Logged GatewayCall

pub record GatewayEnv : Type 0 where
  pub on_update : GatewayObject → Calls → Option Str
  pub on_delete : Resource → Calls → Option Str
  pub on_unbind : Str → Calls → Option Str
  pub list_routing_tables : Calls → Option (List RoutingTable)
  pub has_recorder : Bool

unfoldable pub is_vpc_not_found : Str → Bool
is_vpc_not_found e =
    let m = to_lower e in
    contains (codes "not found") m || (contains (codes "not_found") m || contains (codes "404") m)

abbrev pub gateway_cleanup : Str
gateway_cleanup = codes "vpc.roks.ibm.com/gateway-cleanup"

-- err == nil || isVPCNotFound(err)
unfoldable pub is_gone : Option Str → Bool
is_gone none = true
is_gone (some e) = is_vpc_not_found e

-- The one part, and the other one if it says so.
abbrev pub and_then : Action Bool → Action Bool → Action Bool
and_then m k = do gone ← m; branch gone k (pure false)

-- A part that only counts and tells.
abbrev pub tell : List GatewayCall → Action Bool
tell [] = pure true
tell (c ∷ cs) = do record_call c; tell cs

-- The first default table.
unfoldable pub default_table : List RoutingTable → Option Str
default_table [] = none
default_table (t ∷ ts) = if t.is_default then some t.id else default_table ts

-- getDefaultRoutingTableID, nothing for either error
unfoldable pub get_default_routing_table_id : Option (List RoutingTable) → Option Str
get_default_routing_table_id none = none
get_default_routing_table_id (some ts) = default_table ts

module _ (env : GatewayEnv) where
  -- emitEvent
  abbrev pub events : Str → List GatewayCall
  events reason = if env.has_recorder then event reason ∷ [] else []

  abbrev pub counted : Str → Bool → Str → List GatewayCall
  counted op success reason = metric op success ∷ events reason

  -- Whether the resource is gone.
  unfoldable pub remove : Resource → Action Bool
  remove r = do e ← call (env.on_delete r) (delete r); pure (is_gone e)

  -- A part, with what is counted and told where it fails.
  abbrev pub or_tell : List GatewayCall → Action Bool → Action Bool
  or_tell notes m = do gone ← m; branch gone (pure true) (do tell notes; pure false)

  -- The routes of a table.
  unfoldable pub remove_routes : Str → List Str → Action Bool
  remove_routes table_id [] = pure true
  remove_routes table_id (id ∷ ids) =
      and_then (remove (table_route table_id id)) (remove_routes table_id ids)

  abbrev pub told_of : List Str → List GatewayCall
  told_of [] = []
  told_of (id ∷ ids) = events (codes "IngressRoutesDeleted")

  unfoldable pub remove_ingress_routes : GatewayObject → Action Bool
  remove_ingress_routes gw = branch (str_eq gw.ingress_table_id []) (pure true) (
      and_then (remove_routes gw.ingress_table_id gw.ingress_route_ids)
        (tell (told_of gw.ingress_route_ids)))

  unfoldable pub remove_ingress_table : GatewayObject → Action Bool
  remove_ingress_table gw =
      branch (str_eq gw.ingress_table_id []) (pure true)
        (and_then (remove (table gw.ingress_table_id)) (tell (events (codes "IngressRTDeleted"))))

  -- A range of the specification stays.
  unfoldable pub remove_range : GatewayObject → Action Bool
  remove_range gw =
      branch (not (str_eq gw.par_id []) && str_eq gw.spec_par_id [])
        (and_then (remove (par gw.par_id))
          (tell (counted (codes "delete_par") true (codes "PARDeleted"))))
        (pure true)

  unfoldable pub delete_par : GatewayObject → Action Bool
  delete_par gw =
      or_tell (counted (codes "delete_par") false (codes "DeletePARFailed"))
        (and_then (remove_ingress_routes gw) (and_then (remove_ingress_table gw) (remove_range gw)))

  -- A floating IP of the specification is unbound, and stays.
  unfoldable pub delete_fip : GatewayObject → Action Bool
  delete_fip gw = branch (str_eq gw.floating_ip_id []) (pure true) (
      branch (str_eq gw.spec_fip_id [])
        (and_then
          (or_tell (counted (codes "delete_fip") false (codes "DeleteFIPFailed"))
            (remove (fip gw.floating_ip_id)))
          (tell (counted (codes "delete_fip") true (codes "FIPDeleted"))))
        (do
          _ ← call (env.on_unbind gw.floating_ip_id) (unbind_fip gw.floating_ip_id)
          tell (events (codes "FIPUnbound"))))

  -- By the default table.
  unfoldable pub delete_routes_in : List Str → Option Str → Action Bool
  delete_routes_in ids none = do
    tell (counted (codes "delete_routes") false (codes "DeleteRoutesFailed"))
    pure false
  delete_routes_in ids (some table_id) =
      and_then
        (or_tell (counted (codes "delete_routes") false (codes "DeleteRouteFailed"))
          (remove_routes table_id ids))
        (tell (counted (codes "delete_routes") true (codes "RoutesDeleted")))

  unfoldable pub delete_routes : List Str → Action Bool
  delete_routes [] = pure true
  delete_routes (id ∷ ids) = do
    tables ← read env.list_routing_tables
    delete_routes_in (id ∷ ids) (get_default_routing_table_id tables)

  unfoldable pub delete_uplink : GatewayObject → Action Bool
  delete_uplink gw =
      branch (not (str_eq gw.attachment_id []) && not (str_eq gw.bm_server_id []))
        (and_then
          (or_tell (counted (codes "delete_vni") false (codes "DeleteAttachmentFailed"))
            (remove (attachment gw.bm_server_id gw.attachment_id)))
          (tell (counted (codes "delete_vni") true (codes "AttachmentDeleted"))))
        (branch (str_eq gw.vni_id []) (pure true) (remove (vni gw.vni_id)))

  abbrev pub unprotected : GatewayObject → GatewayObject
  unprotected gw = record gw { finalizers = remove_finalizer gateway_cleanup gw.finalizers }

  -- finalizers.EnsureRemoved, and the end of the run.
  unfoldable pub let_go : GatewayObject → Action Outcome
  let_go gw =
      branch (member gateway_cleanup gw.finalizers)
        (do
          e ← call (env.on_update (unprotected gw)) (update (unprotected gw))
          on_error e (λ m. pure (failing m)) (pure finished))
        (pure finished)

  unfoldable pub delete_resources : GatewayObject → Action Bool
  delete_resources gw =
      and_then (delete_par gw)
        (and_then (delete_fip gw) (and_then (delete_routes gw.vpc_route_ids) (delete_uplink gw)))

  unfoldable pub reconcile_delete : GatewayObject → Action Outcome
  reconcile_delete gw = do gone ← delete_resources gw; branch gone (let_go gw) (pure (requeue 30))
