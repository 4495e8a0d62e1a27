-- ===== src/Network/Subnets/Guarded.antt =====
-- When EnsureVPCSubnet creates no subnet.
use roks_vpc_cni.Base.{ℕ, ◌≡◌, ◌≢◌, inl, inr, true, false, Option, List, [], arith, Any, Bool-cases}
use roks_vpc_cni.Text.{Str, str_eq, str_eq_iff, trim_space}
use roks_vpc_cni.Controllers.Effects.{ok}
use roks_vpc_cni.Network.Objects.{NetworkObject, Subnet, Calls, NetworkEnv, subnets_created}
use roks_vpc_cni.Network.Cidr.{AddressPrefix, IpNet, cidr_fits_prefix}
use roks_vpc_cni.Network.Subnets.{
  Ensured, clear_error, subnet_name_of, validate_and_create, ensure_vpc_subnet,
}
use roks_vpc_cni.Network.Subnets.Creations.{
  CreatesNone, validates, misfit-CreatesNone, taken-CreatesNone, backfill-CreatesNone,
}

module _ (sha256 : Str → List ℕ) (parse_cidr : Str → Option IpNet) (env : NetworkEnv)
    (cluster_id : Str) (o : NetworkObject) where
  -- What keeps a subnet from being created: the object has one, its CIDR fits no address prefix of
  -- its VPC, or the VPC has a subnet of the name.
  pub data Blocked : Type 0 where
    has_subnet : o.annotations.subnet_id ≢ [] → Blocked
    misfits :
        (ps : List AddressPrefix)
        → o.annotations.vpc_id ≢ []
        → trim_space o.annotations.cidr ≢ []
        → env.list_prefixes o.annotations.vpc_id [] ≡ ok ps
        → cidr_fits_prefix parse_cidr (trim_space o.annotations.cidr) ps ≡ false
        → Blocked
    name_taken :
        (ss : List Subnet)
        → env.list_subnets o.annotations.vpc_id [] ≡ ok ss
        → Any (λ s. s.name ≡ subnet_name_of sha256 parse_cidr cluster_id o) ss
        → Blocked

  abbrev run : Ensured × Calls
  run = ensure_vpc_subnet sha256 parse_cidr env cluster_id o []

  abbrev start : Ensured × Calls
  start = validate_and_create sha256 parse_cidr env cluster_id (clear_error o) []

  validates-intro :
      o.annotations.vpc_id ≢ []
      → trim_space o.annotations.cidr ≢ []
      → validates (clear_error o) ≡ true
  unfolding clear_error
  validates-intro v c =
      ground
        (arith, str_eq_iff o.annotations.vpc_id [], str_eq_iff (trim_space o.annotations.cidr) [])

  start-CreatesNone : Blocked → str_eq o.annotations.subnet_id [] ≡ true → CreatesNone [] start
  unfolding clear_error subnet_name_of
  start-CreatesNone (has_subnet h) e = absurd (h ((str_eq_iff o.annotations.subnet_id []).0 e))
  start-CreatesNone (misfits ps v c listed misfit) e =
      misfit-CreatesNone env (clear_error o) [] cluster_id sha256 parse_cidr ps
        (validates-intro v c) listed misfit
  start-CreatesNone (name_taken ss listed taken) e =
      taken-CreatesNone env (clear_error o) [] cluster_id sha256 parse_cidr ss listed taken

  run-CreatesNone : Blocked → CreatesNone [] run
  unfolding ensure_vpc_subnet
  run-CreatesNone h = elim (Bool-cases (str_eq o.annotations.subnet_id [])) [
    | inl e ↦ rw e (start-CreatesNone h e)
    | inr e ↦ rw e (backfill-CreatesNone env o [] cluster_id sha256 parse_cidr)
  ]

-- EnsureVPCSubnet creates no subnet where the object holds a subnet's id, where the address prefixes
-- of the VPC are listed and its CIDR fits none of them (with a VPC and a CIDR annotated), or where
-- the VPC's subnets are listed and one has the network's subnet name.
pub subnets_created-Blocked :
    (sha256 : Str → List ℕ) (parse_cidr : Str → Option IpNet) (env : NetworkEnv) (cluster_id : Str)
    (o : NetworkObject)
    → Blocked sha256 parse_cidr env cluster_id o
    → subnets_created (ensure_vpc_subnet sha256 parse_cidr env cluster_id o []).1 ≡ 0
unfolding subnets_created
subnets_created-Blocked sha256 parse_cidr env cluster_id o h =
    run-CreatesNone sha256 parse_cidr env cluster_id o h
