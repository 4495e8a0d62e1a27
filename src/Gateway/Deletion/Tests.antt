-- ===== src/Gateway/Deletion/Tests.antt =====
-- The deletion of a gateway with a range, a floating IP, routes and an attachment.
use roks_vpc_cni.Base.{◌≡◌, refl, true, none, some, [], ◌∷◌, All}
use roks_vpc_cni.Text.{member, to_lower, contains, str_eq, codes}
use roks_vpc_cni.Controllers.Effects.{requeue}
use roks_vpc_cni.Gateway.Deletion.{
  let_go, delete_uplink, default_table, delete_routes_in, delete_routes, delete_fip, remove_range,
  remove_ingress_table, is_vpc_not_found, is_gone, remove, remove_routes, remove_ingress_routes,
  delete_par, delete_resources, GatewayObject, GatewayEnv, gateway_cleanup, reconcile_delete,
  get_default_routing_table_id,
}
use roks_vpc_cni.Gateway.Deletion.Clears.{written, Settled}
use roks_vpc_cni.Gateway.Deletion.Settled.{IsFound, due, due-Settled}

abbrev gateway : GatewayObject
gateway = record {
  finalizers = gateway_cleanup ∷ [];
  spec_fip_id = [];
  spec_par_id = [];
  vni_id = codes "v";
  attachment_id = codes "a";
  bm_server_id = codes "s";
  floating_ip_id = codes "f";
  par_id = codes "p";
  ingress_table_id = codes "t";
  ingress_route_ids = codes "i" ∷ [];
  vpc_route_ids = codes "r" ∷ [];
}

-- Every resource is gone already.
abbrev env : GatewayEnv
env = record {
  on_update = λ o t. none;
  on_delete = λ r t. some (codes "Error 404");
  on_unbind = λ id t. none;
  list_routing_tables = λ t. some (record { id = codes "d"; is_default = true } ∷ []);
  has_recorder = true;
}

due-Settled_example :
    let found =
      get_default_routing_table_id (some (record { id = codes "d"; is_default = true } ∷ [])) in
    IsFound gateway.vpc_route_ids found
    × All (λ r. Settled r (reconcile_delete env gateway []).1) (due gateway found)
unfolding written reconcile_delete delete_resources delete_par remove_ingress_routes str_eq
    remove_routes remove is_gone is_vpc_not_found contains to_lower remove_ingress_table
    remove_range delete_fip delete_routes delete_routes_in get_default_routing_table_id
    default_table delete_uplink let_go member
due-Settled_example =
    due-Settled env gateway (some (record { id = codes "d"; is_default = true } ∷ [])) (λ t. refl)
      refl

-- Without a default table the routes stay, and so does the finalizer.
no_default_table :
    (reconcile_delete (record env { list_routing_tables = λ t. some [] }) gateway []).0 ≡ requeue 30
unfolding reconcile_delete delete_resources delete_par remove_ingress_routes str_eq remove_routes
    remove is_gone is_vpc_not_found contains to_lower remove_ingress_table remove_range delete_fip
    delete_routes delete_routes_in get_default_routing_table_id default_table
no_default_table = refl
