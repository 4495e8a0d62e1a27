-- ===== src/Gc/Collector/Tests.antt =====
-- Runs of the collector on a small cluster: tests, and the theorems at concrete inputs.
use roks_vpc_cni.Base.{String, ◌≡◌, refl, ◌↔◌, inl, inr, true, false, none, some, [], ◌∷◌, arith}
use roks_vpc_cni.Text.{codes, str_eq, has_prefix, index_byte}
use roks_vpc_cni.Dict.{lookup}
use roks_vpc_cni.Gc.World.{
  Kind, vni, fip, par, route, Resource, not_found, found, text, items, Env, Deletion, attempted,
}
use roks_vpc_cni.Text.{member}
use roks_vpc_cni.Gc.Names.{name_prefix, split_remainder, parse_vni_name}
use roks_vpc_cni.Gc.Names.Parsing.{vni_name, parse-name}
use roks_vpc_cni.Gc.References
use roks_vpc_cni.Gc.References.InUse.{FipInUse, ParInUse, RouteInUse}
use roks_vpc_cni.Gc.Collector.{
  sweep, vni_is_orphan, named_is_orphan, collect, collect_orphaned_vnis,
  collect_orphaned_floating_ips, collect_orphaned_pars, collect_orphaned_vpc_routes,
  default_table_id, collect_routes_of,
}
use roks_vpc_cni.Gc.Collector.Sweep.{succeeded}
use roks_vpc_cni.Gc.Collector.Phases.{seen_pars, seen_routes, collect_counts}
use roks_vpc_cni.Gc.Collector.Safety.{
  Listed, IsOurs, IsOrphanVni, collect_vnis_exactly, collect_fips_exactly, collect_pars_exactly,
  collect_routes_exactly,
}
use roks_vpc_cni.Gc.Collector.FloatingIpObjects.{
  FloatingIpStatus, status_object, statuses_of, collect_deletes_fip_of_object,
}

abbrev resource : String → String → Resource
resource id name = record { id = codes id; name = codes name }

abbrev fip_status : FloatingIpStatus
fip_status = record {
  sync_status = codes "Synced";
  fip_id = codes "f2";
  address = codes "150.0.0.1";
  target_vni_id = [];
  last_sync_time = [];
  message = [];
  has_conditions = true;
}

-- Three VNIs: one of a live machine, one that a gateway uses, one of a machine that is gone. Two
-- floating IPs: one of a gateway, one of a FloatingIP object.
abbrev cluster : Env
cluster = record {
  cluster_id = codes "c";
  vpc_id = codes "vpc";
  list_vnis_by_tag = some (
      resource "v1" "roks-c-ns-live"
      ∷ resource "v2" "roks-c-gw-up"
      ∷ resource "v3" "roks-c-ns-gone"
      ∷ []);
  list_floating_ips = some (resource "f1" "roks-c-gw" ∷ resource "f2" "roks-c-web" ∷ []);
  list_public_address_ranges = some (resource "p1" "roks-c-par" ∷ resource "p2" "other" ∷ []);
  list_routing_tables = some (record { id = codes "t"; is_default = true } ∷ []);
  list_routes = λ _. some (resource "r1" "roks-c-gw-0" ∷ resource "r2" "roks-c-old" ∷ []);
  list_vms = some [];
  list_gateways = some (
      some (
        (codes "vniID", text (codes "v2"))
        ∷ (codes "floatingIPID", text (codes "f1"))
        ∷ (codes "vpcRouteIDs", items (some (codes "r1") ∷ none ∷ []))
        ∷ [])
      ∷ none
      ∷ []);
  list_floating_ip_crs = some (statuses_of (fip_status ∷ []));
  get_vm = λ ns vm. elim (str_eq vm (codes "live")) [ true ↦ found | false ↦ not_found ];
  unmarshal_vni_ids = λ _. none;
  delete_succeeds = λ k id log. true;
}

abbrev deletion : Kind → String → Deletion
deletion kind id = record { kind = kind; id = codes id; deleted = true }

run_of_cluster :
    collect cluster
    ≡ (4, deletion route "r2" ∷ deletion par "p1" ∷ deletion fip "f2" ∷ deletion vni "v3" ∷ [])
unfolding collect collect_orphaned_vnis collect_orphaned_floating_ips collect_orphaned_pars
    collect_orphaned_vpc_routes collect_routes_of default_table_id sweep vni_is_orphan
    named_is_orphan References.build_referenced_vni_set References.build_referenced_fip_set
    References.build_referenced_par_set References.build_referenced_route_set
    References.add_listed_routes References.add_all_routes References.add_routes
    References.add_listed_vms References.add_vms References.add_listed References.add_statuses
    References.add_status status_object name_prefix parse_vni_name split_remainder member str_eq
    has_prefix index_byte lookup
run_of_cluster = refl

parse-name_example :
    parse_vni_name (vni_name (codes "c") (codes "ns") (codes "web-1")) (codes "c")
    ≡ (codes "ns", codes "web-1")
parse-name_example = parse-name (codes "c") (codes "ns") (codes "web-1") (cc) (cc) (omega arith)

collect_vnis_exactly_example :
    (attempted vni (codes "v3") (collect cluster).1 ≡ true)
    ↔ Listed (IsOrphanVni cluster) (codes "v3") cluster.list_vnis_by_tag
collect_vnis_exactly_example = collect_vnis_exactly cluster (codes "v3")

collect_fips_exactly_example :
    (attempted fip (codes "f1") (collect cluster).1 ≡ true)
    ↔ Listed
        (λ r. IsOurs cluster r.name × ¬ FipInUse cluster r.id)
        (codes "f1")
        cluster.list_floating_ips
collect_fips_exactly_example = collect_fips_exactly cluster (codes "f1")

collect_pars_exactly_example :
    (attempted par (codes "p1") (collect cluster).1 ≡ true)
    ↔ Listed (λ r. IsOurs cluster r.name × ¬ ParInUse cluster r.id) (codes "p1") (seen_pars cluster)
collect_pars_exactly_example = collect_pars_exactly cluster (codes "p1")

collect_routes_exactly_example :
    (attempted route (codes "r2") (collect cluster).1 ≡ true)
    ↔ Listed
        (λ r. IsOurs cluster r.name × ¬ RouteInUse cluster r.id)
        (codes "r2")
        (seen_routes cluster)
collect_routes_exactly_example = collect_routes_exactly cluster (codes "r2")

collect_counts_example : (collect cluster).0 ≡ succeeded (collect cluster).1
collect_counts_example = collect_counts cluster

collect_deletes_fip_of_object_example : attempted fip (codes "f2") (collect cluster).1 ≡ true
unfolding lookup str_eq name_prefix
collect_deletes_fip_of_object_example =
    collect_deletes_fip_of_object cluster (codes "f2") (fip_status ∷ []) refl (ground arith)
      (inr (inl ((codes "web", refl), refl)))
