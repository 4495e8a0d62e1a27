-- ===== src/Gc/Collector.antt =====
-- The run of the collector: `collect` and the four functions that it calls.
pub mod Sweep
pub mod Phases
pub mod Safety
pub mod FloatingIpObjects
mod Tests
use roks_vpc_cni.Base.{
  ℕ, ◌+◌, Bool, true, false, not, ◌&&◌, ◌||◌, Option, none, some, List, [], ◌∷◌, if◌then◌else◌,
}
use roks_vpc_cni.Text.{Str, codes, str_eq, has_prefix}
use roks_vpc_cni.Gc.World.{
  Kind, vni, fip, par, route, Resource, RoutingTable, GetResult, found, not_found, failed, Deletion,
  Log, Env,
}
use roks_vpc_cni.Text.{member}
use roks_vpc_cni.Gc.Names.{name_prefix, parse_vni_name}
use roks_vpc_cni.Gc.References.{
  build_referenced_vni_set, build_referenced_fip_set, build_referenced_par_set,
  build_referenced_route_set,
}

-- The loop that the four functions share: what is not an orphan is skipped; a deletion that fails
-- is logged and not counted.
unfoldable pub sweep : Env → Kind → (Resource → Bool) → List Resource → Log → ℕ × Log
sweep env kind is_orphan [] log = (0, log)
sweep env kind is_orphan (r ∷ rs) log =
    let deleted = env.delete_succeeds kind r.id log in
    let (count, log') =
      sweep env kind is_orphan rs
        (if is_orphan r then record { kind = kind; id = r.id; deleted = deleted } ∷ log else log) in
    (if is_orphan r && deleted then count + 1 else count, log')

-- The conditions of the loop over the VNIs: neither in use nor named unlike the operator's names,
-- and the machine is known to be gone.
unfoldable pub vni_is_orphan : Env → List Str → Resource → Bool
vni_is_orphan env referenced r =
    let (ns, vm_name) = parse_vni_name r.name env.cluster_id in
    if member r.id referenced
    then false
    else if str_eq ns [] || str_eq vm_name []
    then false
    else elim (env.get_vm ns vm_name) [ found ↦ false | not_found ↦ true | failed ↦ false ]

-- The conditions of the other three loops.
unfoldable pub named_is_orphan : Env → List Str → Resource → Bool
named_is_orphan env referenced r =
    if not (has_prefix (name_prefix env.cluster_id) r.name)
    then false
    else if member r.id referenced
    then false
    else true

unfoldable pub collect_orphaned_vnis : Env → Log → ℕ × Log
collect_orphaned_vnis env log = elim env.list_vnis_by_tag [
  | none ↦ (0, log)
  | some vnis ↦ sweep env vni (vni_is_orphan env (build_referenced_vni_set env)) vnis log
]

unfoldable pub collect_orphaned_floating_ips : Env → Log → ℕ × Log
collect_orphaned_floating_ips env log = elim env.list_floating_ips [
  | none ↦ (0, log)
  | some fips ↦ sweep env fip (named_is_orphan env (build_referenced_fip_set env)) fips log
]

unfoldable pub collect_orphaned_pars : Env → Log → ℕ × Log
collect_orphaned_pars env log =
    if str_eq env.vpc_id [] then (0, log) else elim env.list_public_address_ranges [
      | none ↦ (0, log)
      | some pars ↦ sweep env par (named_is_orphan env (build_referenced_par_set env)) pars log
    ]

-- The id of the first default table, empty if there is none.
unfoldable pub default_table_id : List RoutingTable → Str
default_table_id [] = []
default_table_id (t ∷ ts) = if t.is_default then t.id else default_table_id ts

unfoldable pub collect_routes_of : Env → Str → Log → ℕ × Log
collect_routes_of env table_id log =
    if str_eq table_id [] then (0, log) else elim (env.list_routes table_id) [
      | none ↦ (0, log)
      | some routes ↦
          sweep env route (named_is_orphan env (build_referenced_route_set env)) routes log
    ]

unfoldable pub collect_orphaned_vpc_routes : Env → Log → ℕ × Log
collect_orphaned_vpc_routes env log =
    if str_eq env.vpc_id [] then (0, log) else elim env.list_routing_tables [
      | none ↦ (0, log)
      | some tables ↦ collect_routes_of env (default_table_id tables) log
    ]

-- `collect`: the number of deletions that it reports, and the deletions.
unfoldable pub collect : Env → ℕ × Log
collect env =
    let (vnis, log1) = collect_orphaned_vnis env [] in
    let (fips, log2) = collect_orphaned_floating_ips env log1 in
    let (pars, log3) = collect_orphaned_pars env log2 in
    let (routes, log4) = collect_orphaned_vpc_routes env log3 in (vnis + fips + pars + routes, log4)
