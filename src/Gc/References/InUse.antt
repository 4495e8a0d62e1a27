-- ===== src/Gc/References/InUse.antt =====
-- When a VPC resource is in use, and that the four sets hold exactly the ids in use.
use roks_vpc_cni.Base.{
  ◌≡◌, ◌≢◌, refl, ◌↔◌, ◌⊎◌, true, false, Option, none, some, List, [], ◌∷◌, arith, Any,
}
use roks_vpc_cni.Text.{Str, codes}
use roks_vpc_cni.Dict.{lookup}
use roks_vpc_cni.Gc.World.{Json, text, items, other, Status, Env}
use roks_vpc_cni.Text.{member}
use roks_vpc_cni.Gc.References.{
  add_id, add_members, add_items, add_listed, add_listed_vms, add_routes, add_all_routes,
  add_listed_routes, build_referenced_vni_set, build_referenced_fip_set, build_referenced_par_set,
  build_referenced_route_set,
}
use roks_vpc_cni.Gc.References.Membership.{
  ListNames, ListedVmNames, member-add_id, member-add_listed, member-add_listed_vms,
}

-- The annotations of a machine or the status of a gateway name the VNI.
abbrev pub VniInUse : Env → Str → Type 0
VniInUse env id =
    (id ≢ []) × (ListedVmNames env id env.list_vms ⊎ ListNames (codes "vniID") id env.list_gateways)

-- The status of a gateway, or of a FloatingIP object, has the id under `floatingIPID`.
abbrev pub FipInUse : Env → Str → Type 0
FipInUse env id =
    (id ≢ [])
    × (ListNames (codes "floatingIPID") id env.list_gateways
        ⊎ ListNames (codes "floatingIPID") id env.list_floating_ip_crs)

abbrev pub ParInUse : Env → Str → Type 0
ParInUse env id = (id ≢ []) × ListNames (codes "publicAddressRangeID") id env.list_gateways

-- A value is a list that holds the id.
abbrev pub Holds : Str → Option Json → Type 0
Holds id none = ⊥
Holds id (some (text j)) = ⊥
Holds id (some (items ids)) = Any (λ j. j ≡ some id) ids
Holds id (some other) = ⊥

abbrev pub StatusRoutes : Str → Status → Type 0
StatusRoutes id none = ⊥
StatusRoutes id (some status) =
    Holds id (lookup (codes "vpcRouteIDs") status)
    ⊎ Holds id (lookup (codes "ingressRouteIDs") status)

abbrev pub ListRoutes : Str → Option (List Status) → Type 0
ListRoutes id none = ⊥
ListRoutes id (some ss) = Any (StatusRoutes id) ss

abbrev pub RouteInUse : Env → Str → Type 0
RouteInUse env id = (id ≢ []) × ListRoutes id env.list_gateways

member-nil : (id : Str) → member id [] ≡ false
unfolding member
member-nil id = refl

module _ (env : Env) (id : Str) where
  pub member-vnis : (member id (build_referenced_vni_set env) ≡ true) ↔ VniInUse env id
  unfolding build_referenced_vni_set
  member-vnis =
      let vms = add_listed_vms env env.list_vms [] in
      ground (
        arith,
        member-nil id,
        member-add_listed id (codes "vniID") env.list_gateways vms,
        member-add_listed_vms env id env.list_vms [],
      )

  pub member-fips : (member id (build_referenced_fip_set env) ≡ true) ↔ FipInUse env id
  unfolding build_referenced_fip_set
  member-fips =
      let key = codes "floatingIPID" in
      let gateways = add_listed key env.list_gateways [] in
      ground (
        arith,
        member-nil id,
        member-add_listed id key env.list_floating_ip_crs gateways,
        member-add_listed id key env.list_gateways [],
      )

  pub member-pars : (member id (build_referenced_par_set env) ≡ true) ↔ ParInUse env id
  unfolding build_referenced_par_set
  member-pars = ground (
    arith,
    member-nil id,
    member-add_listed id (codes "publicAddressRangeID") env.list_gateways [],
  )

module _ (id : Str) where
  member-add_members :
      (ids : List (Option Str)) (result : List Str)
      → (member id (add_members ids result) ≡ true)
        ↔ ((member id result ≡ true) ⊎ ((id ≢ []) × Any (λ j. j ≡ some id) ids))
  member-add_members [] result = ground arith
  member-add_members (none ∷ ids) result = ground (arith, member-add_members ids result)
  member-add_members (some j ∷ ids) result =
      ground (arith, member-add_members ids (add_id j result), member-add_id id j result)

  member-add_items :
      (o : Option Json) (result : List Str)
      → (member id (add_items o result) ≡ true)
        ↔ ((member id result ≡ true) ⊎ ((id ≢ []) × Holds id o))
  member-add_items none result = ground arith
  member-add_items (some (text j)) result = ground arith
  member-add_items (some (items ids)) result = member-add_members ids result
  member-add_items (some other) result = ground arith

  member-add_routes :
      (s : Status) (result : List Str)
      → (member id (add_routes s result) ≡ true)
        ↔ ((member id result ≡ true) ⊎ ((id ≢ []) × StatusRoutes id s))
  unfolding add_routes
  member-add_routes none result = ground arith
  member-add_routes (some status) result =
      let vpc = lookup (codes "vpcRouteIDs") status in
      both vpc (lookup (codes "ingressRouteIDs") status) (add_items vpc result)
        (member-add_items vpc result)
    where
      both :
          (o o' : Option Json) (middle : List Str)
          → (member id middle ≡ true) ↔ ((member id result ≡ true) ⊎ ((id ≢ []) × Holds id o))
          → (member id (add_items o' middle) ≡ true)
            ↔ ((member id result ≡ true) ⊎ ((id ≢ []) × (Holds id o ⊎ Holds id o')))
      both o o' middle h = ground (arith, h, member-add_items o' middle)

  member-add_all_routes :
      (ss : List Status) (result : List Str)
      → (member id (add_all_routes ss result) ≡ true)
        ↔ ((member id result ≡ true) ⊎ ((id ≢ []) × Any (StatusRoutes id) ss))
  unfolding add_all_routes
  member-add_all_routes [] result = ground arith
  member-add_all_routes (s ∷ ss) result =
      ground (arith, member-add_all_routes ss (add_routes s result), member-add_routes s result)

  member-add_listed_routes :
      (ss : Option (List Status)) (result : List Str)
      → (member id (add_listed_routes ss result) ≡ true)
        ↔ ((member id result ≡ true) ⊎ ((id ≢ []) × ListRoutes id ss))
  unfolding add_listed_routes
  member-add_listed_routes none result = ground arith
  member-add_listed_routes (some ss) result = member-add_all_routes ss result

pub member-routes :
    (env : Env) (id : Str) → (member id (build_referenced_route_set env) ≡ true) ↔ RouteInUse env id
unfolding build_referenced_route_set
member-routes env id =
    ground (arith, member-nil id, member-add_listed_routes id env.list_gateways [])
