-- ===== src/Gc/Collector/Safety.antt =====
-- Which resources a run deletes, said without its loops.
use roks_vpc_cni.Base.{
  ◌≡◌, ◌≢◌, refl, ◌↔◌, Bool, true, Option, none, some, List, [], ◌∷◌, ◌++◌, arith, Any,
}
use roks_vpc_cni.Text.{Str, str_eq_iff, has_prefix}
use roks_vpc_cni.Gc.World.{vni, fip, par, route, Resource, not_found, Env, attempted}
use roks_vpc_cni.Text.{member}
use roks_vpc_cni.Gc.Names.{name_prefix, parse_vni_name}
use roks_vpc_cni.Gc.Names.Parsing.{has_prefix-append}
use roks_vpc_cni.Gc.References.InUse.{
  VniInUse, FipInUse, ParInUse, RouteInUse, member-vnis, member-fips, member-pars, member-routes,
}
use roks_vpc_cni.Gc.Collector.{vni_is_orphan, named_is_orphan, collect}
use roks_vpc_cni.Gc.Collector.Sweep.{lists_orphan}
use roks_vpc_cni.Gc.Collector.Phases.{
  vni_test, fip_test, par_test, route_test, seen_pars, seen_routes, orphan_seen, attempted-collect,
}

-- A resource with this id is listed, and has the property.
abbrev pub Listed : (Resource → Type 0) → Str → Option (List Resource) → Type 0
Listed P id none = ⊥
Listed P id (some rs) = Any (λ r. P r × (r.id ≡ id)) rs

-- The name begins with "roks-<cluster id>-".
abbrev pub IsOurs : Env → Str → Type 0
IsOurs env name = (rest : Str) × (name ≡ name_prefix env.cluster_id ++ rest)

-- The name is one of a machine's VNI, the machine is gone, and nothing uses the VNI.
abbrev pub IsOrphanVni : Env → Resource → Type 0
IsOrphanVni env r =
    let (ns, vm) = parse_vni_name r.name env.cluster_id in
    (ns ≢ []) × (vm ≢ []) × (env.get_vm ns vm ≡ not_found) × ¬ VniInUse env r.id

has_prefix_sound : (p s : Str) → has_prefix p s ≡ true → (rest : Str) × (s ≡ p ++ rest)
unfolding has_prefix
has_prefix_sound [] s h = (s, refl)
has_prefix_sound (c ∷ p) [] h = cc
has_prefix_sound (c ∷ p) (d ∷ s) h =
    let (rest, e) = has_prefix_sound p s (ground arith) in (rest, ground arith)

has_prefix_iff : (p s : Str) → (has_prefix p s ≡ true) ↔ ((rest : Str) × (s ≡ p ++ rest))
has_prefix_iff p s = (has_prefix_sound p s, λ h. rw (h.1) (has_prefix-append p h.0))

module _ {P : Resource → Type 0} (p : Resource → Bool)
    (iff : (r : Resource) → (p r ≡ true) ↔ P r) where
  lists_orphan_iff :
      (id : Str) (rs : List Resource)
      → (lists_orphan p id rs ≡ true) ↔ Any (λ r. P r × (r.id ≡ id)) rs
  lists_orphan_iff id [] = ground arith
  lists_orphan_iff id (r ∷ rs) = ground (arith, lists_orphan_iff id rs, iff r, str_eq_iff r.id id)

  orphan_seen_iff :
      (id : Str) (o : Option (List Resource)) → (orphan_seen p id o ≡ true) ↔ Listed P id o
  orphan_seen_iff id none = ground arith
  orphan_seen_iff id (some rs) = lists_orphan_iff id rs

module _ (env : Env) where
  vni_test_iff : (r : Resource) → (vni_test env r ≡ true) ↔ IsOrphanVni env r
  unfolding vni_is_orphan
  vni_test_iff r =
      let (ns, vm) = parse_vni_name r.name env.cluster_id in
      ground (arith, member-vnis env r.id, str_eq_iff ns [], str_eq_iff vm [])

  module _ {InUse : Str → Type 0} (referenced : List Str)
      (iff : (id : Str) → (member id referenced ≡ true) ↔ InUse id) where
    named_test_iff :
        (r : Resource)
        → (named_is_orphan env referenced r ≡ true) ↔ (IsOurs env r.name × ¬ InUse r.id)
    unfolding named_is_orphan
    named_test_iff r = ground (arith, iff r.id, has_prefix_iff (name_prefix env.cluster_id) r.name)

  -- A run calls the deletion of a VNI exactly if a VNI with that id is listed, its name has a
  -- namespace and a machine behind the operator's prefix, the machine is not found, and neither
  -- the annotations of a listed machine nor the status of a listed gateway name the VNI.
  pub collect_vnis_exactly :
      (id : Str)
      → (attempted vni id (collect env).1 ≡ true) ↔ Listed (IsOrphanVni env) id env.list_vnis_by_tag
  collect_vnis_exactly id =
      rw attempted-collect (orphan_seen_iff (vni_test env) vni_test_iff id env.list_vnis_by_tag)

  -- A run calls the deletion of a floating IP exactly if one with that id is listed whose name
  -- begins with the cluster's prefix, and no listed gateway or FloatingIP object has the id in its
  -- status under `floatingIPID`.
  pub collect_fips_exactly :
      (id : Str)
      → (attempted fip id (collect env).1 ≡ true)
        ↔ Listed (λ r. IsOurs env r.name × ¬ FipInUse env r.id) id env.list_floating_ips
  collect_fips_exactly id =
      rw attempted-collect (
        orphan_seen_iff (fip_test env) (named_test_iff _ (member-fips env)) id
          env.list_floating_ips)

  -- A run calls the deletion of a public address range exactly if the collector has a VPC, a range
  -- with that id is listed whose name begins with the cluster's prefix, and no listed gateway has
  -- the id in its status.
  pub collect_pars_exactly :
      (id : Str)
      → (attempted par id (collect env).1 ≡ true)
        ↔ Listed (λ r. IsOurs env r.name × ¬ ParInUse env r.id) id (seen_pars env)
  collect_pars_exactly id =
      rw attempted-collect
        (orphan_seen_iff (par_test env) (named_test_iff _ (member-pars env)) id (seen_pars env))

  -- A run calls the deletion of a route exactly if the collector has a VPC with a default routing
  -- table, a route of that table with that id is listed whose name begins with the cluster's
  -- prefix, and no listed gateway has the id among the VPC or ingress routes of its status.
  pub collect_routes_exactly :
      (id : Str)
      → (attempted route id (collect env).1 ≡ true)
        ↔ Listed (λ r. IsOurs env r.name × ¬ RouteInUse env r.id) id (seen_routes env)
  collect_routes_exactly id =
      rw attempted-collect (
        orphan_seen_iff (route_test env) (named_test_iff _ (member-routes env)) id
          (seen_routes env))
