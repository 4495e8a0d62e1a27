-- ===== src/Gc/Collector/Phases.antt =====
-- Each of the four functions of a run, seen through the deletions that it calls.
use roks_vpc_cni.Base.{
  ℕ, ◌+◌, ◌≡◌, Bool, false, ◌&&◌, ◌||◌, Option, none, some, List, [], arith, if◌then◌else◌,
}
use roks_vpc_cni.Text.{Str, str_eq}
use roks_vpc_cni.Gc.World.{
  Kind, vni, fip, par, route, same_kind, Resource, RoutingTable, Log, Env, attempted,
}
use roks_vpc_cni.Gc.References.{
  build_referenced_vni_set, build_referenced_fip_set, build_referenced_par_set,
  build_referenced_route_set,
}
use roks_vpc_cni.Gc.Collector.{
  sweep, vni_is_orphan, named_is_orphan, collect_orphaned_vnis, collect_orphaned_floating_ips,
  collect_orphaned_pars, default_table_id, collect_routes_of, collect_orphaned_vpc_routes, collect,
}
use roks_vpc_cni.Gc.Collector.Sweep.{lists_orphan, attempted-sweep, succeeded, succeeded-sweep}

-- The resources that a run looks at; `none` where it does not get as far as a list.
abbrev pub seen_pars : Env → Option (List Resource)
seen_pars env = if str_eq env.vpc_id [] then none else env.list_public_address_ranges

abbrev pub table_routes : Env → Str → Option (List Resource)
table_routes env table_id = if str_eq table_id [] then none else env.list_routes table_id

abbrev pub tables_routes : Env → Option (List RoutingTable) → Option (List Resource)
tables_routes env none = none
tables_routes env (some tables) = table_routes env (default_table_id tables)

abbrev pub seen_routes : Env → Option (List Resource)
seen_routes env = if str_eq env.vpc_id [] then none else tables_routes env env.list_routing_tables

abbrev pub orphan_seen : (Resource → Bool) → Str → Option (List Resource) → Bool
orphan_seen p id none = false
orphan_seen p id (some rs) = lists_orphan p id rs

-- A sweep of what was seen.
abbrev sweep_seen : Env → Kind → (Resource → Bool) → Option (List Resource) → Log → ℕ × Log
sweep_seen env kind p none log = (0, log)
sweep_seen env kind p (some rs) log = sweep env kind p rs log

module _ (env : Env) where
  abbrev pub vni_test : Resource → Bool
  vni_test = vni_is_orphan env (build_referenced_vni_set env)

  abbrev pub fip_test : Resource → Bool
  fip_test = named_is_orphan env (build_referenced_fip_set env)

  abbrev pub par_test : Resource → Bool
  par_test = named_is_orphan env (build_referenced_par_set env)

  abbrev pub route_test : Resource → Bool
  route_test = named_is_orphan env (build_referenced_route_set env)

  module _ (log : Log) where
    vnis-sweep :
        collect_orphaned_vnis env log ≡ sweep_seen env vni vni_test env.list_vnis_by_tag log
    unfolding collect_orphaned_vnis
    vnis-sweep = ground arith

    fips-sweep :
        collect_orphaned_floating_ips env log
        ≡ sweep_seen env fip fip_test env.list_floating_ips log
    unfolding collect_orphaned_floating_ips
    fips-sweep = ground arith

    pars-sweep : collect_orphaned_pars env log ≡ sweep_seen env par par_test (seen_pars env) log
    unfolding collect_orphaned_pars
    pars-sweep = ground arith

    routes-sweep :
        collect_orphaned_vpc_routes env log ≡ sweep_seen env route route_test (seen_routes env) log
    unfolding collect_orphaned_vpc_routes collect_routes_of
    routes-sweep = ground arith

  attempted-sweep_seen :
      (kind : Kind) (p : Resource → Bool) (k : Kind) (id : Str) (o : Option (List Resource))
      (log : Log)
      → attempted k id (sweep_seen env kind p o log).1
        ≡ ((same_kind kind k && orphan_seen p id o) || attempted k id log)
  attempted-sweep_seen kind p k id none log = ground arith
  attempted-sweep_seen kind p k id (some rs) log = attempted-sweep env kind p k id rs log

  succeeded-sweep_seen :
      (kind : Kind) (p : Resource → Bool) (o : Option (List Resource)) (log : Log)
      → succeeded (sweep_seen env kind p o log).1 ≡ (sweep_seen env kind p o log).0 + succeeded log
  succeeded-sweep_seen kind p none log = omega arith
  succeeded-sweep_seen kind p (some rs) log = succeeded-sweep env kind p rs log

  -- What a run deletes, kind by kind.
  abbrev pub run_attempts : Kind → Str → Bool
  run_attempts vni id = orphan_seen vni_test id env.list_vnis_by_tag
  run_attempts fip id = orphan_seen fip_test id env.list_floating_ips
  run_attempts par id = orphan_seen par_test id (seen_pars env)
  run_attempts route id = orphan_seen route_test id (seen_routes env)

  attempted-vnis :
      (k : Kind) (id : Str) (log : Log)
      → attempted k id (collect_orphaned_vnis env log).1
        ≡ ((same_kind vni k && orphan_seen vni_test id env.list_vnis_by_tag) || attempted k id log)
  attempted-vnis k id log =
      rw (vnis-sweep log) (attempted-sweep_seen vni vni_test k id env.list_vnis_by_tag log)

  succeeded-vnis :
      (log : Log)
      → succeeded (collect_orphaned_vnis env log).1
        ≡ (collect_orphaned_vnis env log).0 + succeeded log
  succeeded-vnis log =
      rw (vnis-sweep log) (succeeded-sweep_seen vni vni_test env.list_vnis_by_tag log)

  attempted-fips :
      (k : Kind) (id : Str) (log : Log)
      → attempted k id (collect_orphaned_floating_ips env log).1
        ≡ ((same_kind fip k && orphan_seen fip_test id env.list_floating_ips) || attempted k id log)
  attempted-fips k id log =
      rw (fips-sweep log) (attempted-sweep_seen fip fip_test k id env.list_floating_ips log)

  succeeded-fips :
      (log : Log)
      → succeeded (collect_orphaned_floating_ips env log).1
        ≡ (collect_orphaned_floating_ips env log).0 + succeeded log
  succeeded-fips log =
      rw (fips-sweep log) (succeeded-sweep_seen fip fip_test env.list_floating_ips log)

  attempted-pars :
      (k : Kind) (id : Str) (log : Log)
      → attempted k id (collect_orphaned_pars env log).1
        ≡ ((same_kind par k && orphan_seen par_test id (seen_pars env)) || attempted k id log)
  attempted-pars k id log =
      rw (pars-sweep log) (attempted-sweep_seen par par_test k id (seen_pars env) log)

  succeeded-pars :
      (log : Log)
      → succeeded (collect_orphaned_pars env log).1
        ≡ (collect_orphaned_pars env log).0 + succeeded log
  succeeded-pars log = rw (pars-sweep log) (succeeded-sweep_seen par par_test (seen_pars env) log)

  attempted-routes :
      (k : Kind) (id : Str) (log : Log)
      → attempted k id (collect_orphaned_vpc_routes env log).1
        ≡ ((same_kind route k && orphan_seen route_test id (seen_routes env)) || attempted k id log)
  attempted-routes k id log =
      rw (routes-sweep log) (attempted-sweep_seen route route_test k id (seen_routes env) log)

  succeeded-routes :
      (log : Log)
      → succeeded (collect_orphaned_vpc_routes env log).1
        ≡ (collect_orphaned_vpc_routes env log).0 + succeeded log
  succeeded-routes log =
      rw (routes-sweep log) (succeeded-sweep_seen route route_test (seen_routes env) log)

  -- The four phases together, from an empty log.
  chain_phases :
      (k : Kind) (id : Str) {a b c d : Bool}
      → a ≡ ((same_kind vni k && run_attempts vni id) || attempted k id [])
      → b ≡ ((same_kind fip k && run_attempts fip id) || a)
      → c ≡ ((same_kind par k && run_attempts par id) || b)
      → d ≡ ((same_kind route k && run_attempts route id) || c)
      → d ≡ run_attempts k id
  unfolding attempted
  chain_phases vni id va vb vc vd = ground arith
  chain_phases fip id va vb vc vd = ground arith
  chain_phases par id va vb vc vd = ground arith
  chain_phases route id va vb vc vd = ground arith

  -- A run calls exactly the deletions of the orphans that it sees, of each kind.
  pub attempted-collect : (k : Kind) (id : Str) → attempted k id (collect env).1 ≡ run_attempts k id
  unfolding collect
  attempted-collect k id =
      let log1 = (collect_orphaned_vnis env []).1 in
      let log2 = (collect_orphaned_floating_ips env log1).1 in
      let log3 = (collect_orphaned_pars env log2).1 in
      chain_phases k id (attempted-vnis k id []) (attempted-fips k id log1)
        (attempted-pars k id log2) (attempted-routes k id log3)

  -- The number that a run reports is the number of its deletions that succeeded.
  pub collect_counts : (collect env).0 ≡ succeeded (collect env).1
  unfolding collect
  collect_counts =
      let log1 = (collect_orphaned_vnis env []).1 in
      let log2 = (collect_orphaned_floating_ips env log1).1 in
      let log3 = (collect_orphaned_pars env log2).1 in
      unfold succeeded in
      omega
        (arith, succeeded-vnis [], succeeded-fips log1, succeeded-pars log2, succeeded-routes log3)
