-- ===== src/Gateway/Deletion/Settled.antt =====
-- What is gone before the finalizer of a gateway is removed.
use roks_vpc_cni.Base.{
  ◌≡◌, refl, ◌∙◌, ◌⊎◌, sym, inl, inr, Bool-cases, Option-cases, ◌&&◌, not, Bool, true, false,
  Option, none, some, List, [], ◌∷◌, ◌++◌, if◌then◌else◌, All, All-map,
}
use mathlib.Core.Path.{subst}
use roks_vpc_cni.Text.{Str, codes, str_eq, member}
use roks_vpc_cni.Controllers.Effects.{pure, branch}
use roks_vpc_cni.Gc.World.{RoutingTable}
use roks_vpc_cni.Gateway.Deletion.{
  GatewayObject, Resource, fip, par, table, vni, attachment, GatewayCall, unbind_fip, Calls,
  GatewayEnv, and_then, tell, events, counted, told_of, remove, or_tell, remove_routes,
  remove_ingress_routes, remove_ingress_table, remove_range, delete_par, delete_fip,
  delete_routes_in, delete_routes, delete_uplink, delete_resources, gateway_cleanup, unprotected,
  let_go, reconcile_delete, get_default_routing_table_id,
}
use roks_vpc_cni.Gateway.Deletion.Clears.{
  Settled, written, Clears, pure-Clears, and_then-true, and_then-Clears, branch-Clears, IsNote,
  tell-Quiet, due_routes, events-notes, or_tell-Clears, remove-Clears, remove_routes-Clears,
  told-Clears, told_of-notes,
}

-- What has to be gone: the ingress routes with their table, the range, the floating IP, the routes in
-- the default table, and the attachment or the VNI; no range or floating IP where the specification
-- names one.
unfoldable pub due_ingress : GatewayObject → List Resource
due_ingress gw =
    if str_eq gw.ingress_table_id []
    then []
    else due_routes gw.ingress_table_id gw.ingress_route_ids

unfoldable pub due_table : GatewayObject → List Resource
due_table gw = if str_eq gw.ingress_table_id [] then [] else table gw.ingress_table_id ∷ []

unfoldable pub due_range : GatewayObject → List Resource
due_range gw =
    if not (str_eq gw.par_id []) && str_eq gw.spec_par_id [] then par gw.par_id ∷ [] else []

unfoldable pub due_fip : GatewayObject → List Resource
due_fip gw =
    if str_eq gw.floating_ip_id []
    then []
    else if str_eq gw.spec_fip_id []
    then fip gw.floating_ip_id ∷ []
    else []

unfoldable pub due_in_default : List Str → Option Str → List Resource
due_in_default ids none = []
due_in_default ids (some id) = due_routes id ids

unfoldable pub due_uplink : GatewayObject → List Resource
due_uplink gw =
    if not (str_eq gw.attachment_id []) && not (str_eq gw.bm_server_id [])
    then attachment gw.bm_server_id gw.attachment_id ∷ []
    else if str_eq gw.vni_id []
    then []
    else vni gw.vni_id ∷ []

unfoldable pub due : GatewayObject → Option Str → List Resource
due gw default_id =
    (due_ingress gw ++ (due_table gw ++ due_range gw))
    ++ (due_fip gw ++ (due_in_default gw.vpc_route_ids default_id ++ due_uplink gw))

-- A default table is found, where there are routes to be deleted from it.
abbrev pub IsFound : List Str → Option Str → Type 0
IsFound ids found = (ids ≡ []) ⊎ ((id : Str) × (found ≡ some id))

no_routes : (found : Option Str) → due_in_default [] found ≡ []
unfolding due_in_default due_routes
no_routes none = refl
no_routes (some id) = refl

module _ (env : GatewayEnv) (gw : GatewayObject) where
  ingress-Clears : Clears (due_ingress gw) (remove_ingress_routes env gw)
  unfolding remove_ingress_routes due_ingress
  ingress-Clears =
      let id = gw.ingress_table_id in
      let ids = gw.ingress_route_ids in
      let m = remove_routes env id ids in
      let cs = told_of env ids in
      branch-Clears [] (due_routes id ids) (str_eq id []) (pure true) (and_then m (tell cs))
        pure-Clears
        (told-Clears env (due_routes id ids) m cs (remove_routes-Clears env id ids)
          (told_of-notes env ids))

  -- One resource, with what is told behind it.
  told_one-Clears :
      (r : Resource) (cs : List GatewayCall)
      → All IsNote cs
      → Clears (r ∷ []) (and_then (remove env r) (tell cs))
  told_one-Clears r cs notes =
      told-Clears env (r ∷ []) (remove env r) cs (remove-Clears env r) notes

  -- One resource, with what is told either way.
  both_told-Clears :
      (r : Resource) (cs ds : List GatewayCall)
      → All IsNote cs
      → All IsNote ds
      → Clears (r ∷ []) (and_then (or_tell env cs (remove env r)) (tell ds))
  both_told-Clears r cs ds notes notes' =
      told-Clears env (r ∷ []) (or_tell env cs (remove env r)) ds
        (or_tell-Clears env (r ∷ []) cs (remove env r) notes (remove-Clears env r)) notes'

  counted-notes :
      (op : Str) (success : Bool) (reason : Str) → All IsNote (counted env op success reason)
  counted-notes op success reason = (tt, events-notes env reason)

  table-Clears : Clears (due_table gw) (remove_ingress_table env gw)
  unfolding remove_ingress_table due_table
  table-Clears =
      let r = table gw.ingress_table_id in
      let cs = events env (codes "IngressRTDeleted") in
      branch-Clears [] (r ∷ []) (str_eq gw.ingress_table_id []) (pure true)
        (and_then (remove env r) (tell cs)) pure-Clears
        (told_one-Clears r cs (events-notes env (codes "IngressRTDeleted")))

  range-Clears : Clears (due_range gw) (remove_range env gw)
  unfolding remove_range due_range
  range-Clears =
      let r = par gw.par_id in
      let cs = counted env (codes "delete_par") true (codes "PARDeleted") in
      branch-Clears (r ∷ []) [] (not (str_eq gw.par_id []) && str_eq gw.spec_par_id [])
        (and_then (remove env r) (tell cs)) (pure true)
        (told_one-Clears r cs (counted-notes (codes "delete_par") true (codes "PARDeleted")))
        pure-Clears

  delete_par-Clears : Clears (due_ingress gw ++ (due_table gw ++ due_range gw)) (delete_par env gw)
  unfolding delete_par
  delete_par-Clears =
      let rest = and_then (remove_ingress_table env gw) (remove_range env gw) in
      let ds = due_table gw ++ due_range gw in
      or_tell-Clears env (due_ingress gw ++ ds)
        (counted env (codes "delete_par") false (codes "DeletePARFailed"))
        (and_then (remove_ingress_routes env gw) rest)
        (counted-notes (codes "delete_par") false (codes "DeletePARFailed"))
        (and_then-Clears (due_ingress gw) ds (remove_ingress_routes env gw) rest ingress-Clears (
          and_then-Clears (due_table gw) (due_range gw) (remove_ingress_table env gw)
            (remove_range env gw) table-Clears range-Clears))

  -- Unbinding settles nothing.
  unbind : Calls → Bool × Calls
  unbind t =
      tell (events env (codes "FIPUnbound"))
        (unbind_fip gw.floating_ip_id (env.on_unbind gw.floating_ip_id t) ∷ t)

  unbind-Clears : Clears [] unbind
  unfolding unbind
  unbind-Clears t =
      let (keep, same) =
        tell-Quiet (events env (codes "FIPUnbound")) (events-notes env (codes "FIPUnbound"))
          (unbind_fip gw.floating_ip_id (env.on_unbind gw.floating_ip_id t) ∷ t) in
      ((keep, same ∙ unfold written in refl), λ _. tt)

  fip-Clears : Clears (due_fip gw) (delete_fip env gw)
  unfolding delete_fip due_fip unbind
  fip-Clears =
      let r = fip gw.floating_ip_id in
      let cs = counted env (codes "delete_fip") false (codes "DeleteFIPFailed") in
      let ds = counted env (codes "delete_fip") true (codes "FIPDeleted") in
      let m = and_then (or_tell env cs (remove env r)) (tell ds) in
      branch-Clears [] (if str_eq gw.spec_fip_id [] then r ∷ [] else [])
        (str_eq gw.floating_ip_id []) (pure true) (branch (str_eq gw.spec_fip_id []) m unbind)
        pure-Clears
        (branch-Clears (r ∷ []) [] (str_eq gw.spec_fip_id []) m unbind
          (both_told-Clears r cs ds
            (counted-notes (codes "delete_fip") false (codes "DeleteFIPFailed"))
            (counted-notes (codes "delete_fip") true (codes "FIPDeleted")))
          unbind-Clears)

  uplink-Clears : Clears (due_uplink gw) (delete_uplink env gw)
  unfolding delete_uplink due_uplink
  uplink-Clears =
      let r = attachment gw.bm_server_id gw.attachment_id in
      let cs = counted env (codes "delete_vni") false (codes "DeleteAttachmentFailed") in
      let ds = counted env (codes "delete_vni") true (codes "AttachmentDeleted") in
      branch-Clears (r ∷ []) (if str_eq gw.vni_id [] then [] else vni gw.vni_id ∷ [])
        (not (str_eq gw.attachment_id []) && not (str_eq gw.bm_server_id []))
        (and_then (or_tell env cs (remove env r)) (tell ds))
        (branch (str_eq gw.vni_id []) (pure true) (remove env (vni gw.vni_id)))
        (both_told-Clears r cs ds
          (counted-notes (codes "delete_vni") false (codes "DeleteAttachmentFailed"))
          (counted-notes (codes "delete_vni") true (codes "AttachmentDeleted")))
        (branch-Clears [] (vni gw.vni_id ∷ []) (str_eq gw.vni_id []) (pure true)
          (remove env (vni gw.vni_id)) pure-Clears (remove-Clears env (vni gw.vni_id)))

  routes_in-Clears :
      (ids : List Str) (found : Option Str)
      → Clears (due_in_default ids found) (delete_routes_in env ids found)
  unfolding delete_routes_in due_in_default
  routes_in-Clears ids none = λ t. (
    tell-Quiet (counted env (codes "delete_routes") false (codes "DeleteRoutesFailed"))
        (counted-notes (codes "delete_routes") false (codes "DeleteRoutesFailed")) t,
    λ _. tt,
  )
  routes_in-Clears ids (some id) =
      let rs = due_routes id ids in
      let m = remove_routes env id ids in
      let cs = counted env (codes "delete_routes") false (codes "DeleteRouteFailed") in
      told-Clears env rs (or_tell env cs m)
        (counted env (codes "delete_routes") true (codes "RoutesDeleted"))
        (or_tell-Clears env rs cs m
          (counted-notes (codes "delete_routes") false (codes "DeleteRouteFailed"))
          (remove_routes-Clears env id ids))
        (counted-notes (codes "delete_routes") true (codes "RoutesDeleted"))

  routes-Clears :
      (tables : Option (List RoutingTable))
      → ((t : Calls) → env.list_routing_tables t ≡ tables)
      → (ids : List Str)
      → Clears (due_in_default ids (get_default_routing_table_id tables)) (delete_routes env ids)
  unfolding delete_routes
  routes-Clears tables steady [] =
      subst (λ rs. Clears rs (pure true)) (sym (no_routes (get_default_routing_table_id tables)))
        pure-Clears
  routes-Clears tables steady (id ∷ ids) =
      λ t. rw (steady t) (routes_in-Clears (id ∷ ids) (get_default_routing_table_id tables) t)

  routes_in-IsFound :
      (ids : List Str) (found : Option Str) (t : Calls)
      → (delete_routes_in env ids found t).0 ≡ true
      → IsFound ids found
  unfolding delete_routes_in
  routes_in-IsFound ids none t e = absurd (cc (e))
  routes_in-IsFound ids (some id) t e = inr (id, refl)

  routes-IsFound :
      (tables : Option (List RoutingTable))
      → ((t : Calls) → env.list_routing_tables t ≡ tables)
      → (ids : List Str) (t : Calls) → (delete_routes env ids t).0 ≡ true
      → IsFound ids (get_default_routing_table_id tables)
  unfolding delete_routes
  routes-IsFound tables steady [] t e = inl refl
  routes-IsFound tables steady (id ∷ ids) t e =
      routes_in-IsFound (id ∷ ids) (get_default_routing_table_id tables) t (rw (steady t) at e)

  -- The part of the routes in a run of which every part succeeds.
  resources-IsFound :
      (tables : Option (List RoutingTable))
      → ((t : Calls) → env.list_routing_tables t ≡ tables)
      → (delete_resources env gw []).0 ≡ true
      → IsFound gw.vpc_route_ids (get_default_routing_table_id tables)
  unfolding delete_resources
  resources-IsFound tables steady e =
      let uplink = delete_uplink env gw in
      let k1 = and_then (delete_routes env gw.vpc_route_ids) uplink in
      let t1 = (delete_par env gw []).1 in
      let t2 = (delete_fip env gw t1).1 in
      let e1 = (and_then-true (delete_par env gw) (and_then (delete_fip env gw) k1) [] e).1 in
      let e2 = (and_then-true (delete_fip env gw) k1 t1 e1).1 in
      let e3 = (and_then-true (delete_routes env gw.vpc_route_ids) uplink t2 e2).0 in
      routes-IsFound tables steady gw.vpc_route_ids t2 e3

  let_go-keeps : (t : Calls) (r : Resource) → Settled r t → Settled r (let_go env gw t).1
  unfolding let_go
  let_go-keeps t r h = elim (Bool-cases (member gateway_cleanup gw.finalizers)) [
    | inl e ↦ rw e (elim (Option-cases (env.on_update (unprotected env gw) t)) [
      | inl f ↦ rw f h
      | inr (m, f) ↦ rw f h
    ])
    | inr e ↦ rw e h
  ]

-- A deletion run on a gateway asks the API server to write the object only if the routing tables
-- can be listed and one of them is the default one, where its status names routes of it, and only
-- once these are settled in that run: where its status names an ingress table, the ingress routes
-- and the table; the address range and the floating IP, each where its status names one and its
-- specification none; the routes that its status names in the default table; and the attachment
-- where its status names it and its server, or else the VNI if its status names one. Settled is a
-- deletion that succeeds or finds nothing. The routing tables are listed alike throughout the run.
pub due-Settled :
    (env : GatewayEnv) (gw : GatewayObject) (tables : Option (List RoutingTable))
    → ((t : Calls) → env.list_routing_tables t ≡ tables)
    → let t = (reconcile_delete env gw []).1 in
      let found = get_default_routing_table_id tables in
      written t ≡ true → IsFound gw.vpc_route_ids found × All (λ r. Settled r t) (due gw found)
unfolding reconcile_delete delete_resources due written
due-Settled env gw tables steady w =
    let routes = due_in_default gw.vpc_route_ids (get_default_routing_table_id tables) in
    let k1 = and_then (delete_routes env gw.vpc_route_ids) (delete_uplink env gw) in
    let k2 = and_then (delete_fip env gw) k1 in
    let cleared =
      and_then-Clears (due_ingress gw ++ (due_table gw ++ due_range gw))
        (due_fip gw ++ (routes ++ due_uplink gw)) (delete_par env gw) k2 (delete_par-Clears env gw)
        (and_then-Clears (due_fip gw) (routes ++ due_uplink gw) (delete_fip env gw) k1
          (fip-Clears env gw)
          (and_then-Clears routes (due_uplink gw) (delete_routes env gw.vpc_route_ids)
            (delete_uplink env gw) (routes-Clears env gw tables steady gw.vpc_route_ids)
            (uplink-Clears env gw)))
        [] in
    let r = delete_resources env gw [] in
    elim (Bool-cases r.0) [
      | inl e ↦ rw e (
        resources-IsFound env gw tables steady e,
        All-map _ _ (let_go-keeps env gw r.1) (due gw (get_default_routing_table_id tables))
            (cleared.1 e),
      )
      | inr e ↦ absurd (cc (rw e at w, cleared.0.1))
    ]
