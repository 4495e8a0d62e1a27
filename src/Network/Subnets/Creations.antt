-- ===== src/Network/Subnets/Creations.antt =====
-- What keeps each part of EnsureVPCSubnet from creating a subnet.
use roks_vpc_cni.Base.{
  ℕ, ◌≡◌, refl, inl, inr, ◌&&◌, not, Bool, true, false, Option, some, List, [], ◌∷◌, arith, Any,
  Bool-cases,
}
use roks_vpc_cni.Text.{Str, codes, str_eq, str_eq_iff, trim_space}
use roks_vpc_cni.Controllers.Effects.{Result, ok, err, branch_rule}
use roks_vpc_cni.Network.Objects.{NetworkObject, Subnet, Calls, NetworkEnv, subnets_created}
use roks_vpc_cni.Network.Cidr.{AddressPrefix, IpNet, cidr_fits_prefix}
use roks_vpc_cni.Network.Subnets.{
  Ensured, find_subnet, refuse, adopt, adopt_existing, after_list, subnet_name_of, adopt_or_create,
  misfit_message, after_prefixes, validate_and_create, backfill_name,
}

-- No subnet is created from `t` on.
abbrev pub CreatesNone : Calls → Ensured × Calls → Type 0
CreatesNone t r = subnets_created r.1 ≡ subnets_created t

abbrev pub validates : NetworkObject → Bool
validates o =
    not (str_eq o.annotations.vpc_id []) && not (str_eq (trim_space o.annotations.cidr) [])

-- Some subnet of the listing has the name.
find_subnet-Any :
    (name : Str) (ss : List Subnet)
    → Any (λ s. s.name ≡ name) ss
    → (s : Subnet) × (find_subnet name ss ≡ some s)
unfolding find_subnet
find_subnet-Any name [] h = elim h [ ]
find_subnet-Any name (s ∷ ss) (inl e) = (s, ground (arith, str_eq_iff s.name name, e))
find_subnet-Any name (s ∷ ss) (inr h) = elim (Bool-cases (str_eq s.name name)) [
  | inl e ↦ (s, ground (arith, e))
  | inr e ↦ ((find_subnet-Any name ss h).0, ground (arith, e, (find_subnet-Any name ss h).1))
]

module _ (env : NetworkEnv) (o : NetworkObject) (t : Calls) where
  refuse-CreatesNone : (op m : Str) → CreatesNone t (refuse env op o m t)
  unfolding refuse subnets_created
  refuse-CreatesNone op m = refl

  adopt-CreatesNone : (name cidr : Str) (s : Subnet) → CreatesNone t (adopt env o name cidr s t)
  unfolding adopt subnets_created refuse
  adopt-CreatesNone name cidr s = ground arith

  module _ (cluster_id : Str) (sha256 : Str → List ℕ) (parse_cidr : Str → Option IpNet) where
    adopt_or_create-CreatesNone :
        (ss : List Subnet)
        → env.list_subnets o.annotations.vpc_id t ≡ ok ss
        → Any (λ s. s.name ≡ subnet_name_of sha256 parse_cidr cluster_id o) ss
        → CreatesNone t (adopt_or_create sha256 parse_cidr env cluster_id o t)
    unfolding adopt_or_create after_list adopt_existing
    adopt_or_create-CreatesNone ss listed taken =
        let name = subnet_name_of sha256 parse_cidr cluster_id o in
        let found = find_subnet-Any name ss taken in
        rw listed (rw found.1 (adopt-CreatesNone name (trim_space o.annotations.cidr) found.0))

    -- A listing that has the subnet's name keeps every path from creating one.
    after_prefixes-CreatesNone :
        (ss : List Subnet)
        → env.list_subnets o.annotations.vpc_id t ≡ ok ss
        → Any (λ s. s.name ≡ subnet_name_of sha256 parse_cidr cluster_id o) ss
        → (r : Result (List AddressPrefix))
        → CreatesNone t (after_prefixes sha256 parse_cidr env cluster_id o r t)
    unfolding after_prefixes
    after_prefixes-CreatesNone ss listed taken (err e) = adopt_or_create-CreatesNone ss listed taken
    after_prefixes-CreatesNone ss listed taken (ok ps) =
        let cidr = trim_space o.annotations.cidr in
        branch_rule (CreatesNone t) (cidr_fits_prefix parse_cidr cidr ps)
          (adopt_or_create sha256 parse_cidr env cluster_id o)
          (refuse env (codes "create_subnet") o (misfit_message cidr ps)) t
          (adopt_or_create-CreatesNone ss listed taken)
          (refuse-CreatesNone (codes "create_subnet") (misfit_message cidr ps))

    pub misfit-CreatesNone :
        (ps : List AddressPrefix)
        → validates o ≡ true
        → env.list_prefixes o.annotations.vpc_id t ≡ ok ps
        → cidr_fits_prefix parse_cidr (trim_space o.annotations.cidr) ps ≡ false
        → CreatesNone t (validate_and_create sha256 parse_cidr env cluster_id o t)
    unfolding validate_and_create after_prefixes
    misfit-CreatesNone ps v listed misfit = rw v (
        rw listed (
          rw misfit (
            refuse-CreatesNone (codes "create_subnet")
              (misfit_message (trim_space o.annotations.cidr) ps))))

    pub taken-CreatesNone :
        (ss : List Subnet)
        → env.list_subnets o.annotations.vpc_id t ≡ ok ss
        → Any (λ s. s.name ≡ subnet_name_of sha256 parse_cidr cluster_id o) ss
        → CreatesNone t (validate_and_create sha256 parse_cidr env cluster_id o t)
    unfolding validate_and_create
    taken-CreatesNone ss listed taken = elim (Bool-cases (validates o)) [
      | inl e ↦
          rw e
            (after_prefixes-CreatesNone ss listed taken (env.list_prefixes o.annotations.vpc_id t))
      | inr e ↦ rw e (adopt_or_create-CreatesNone ss listed taken)
    ]

    pub backfill-CreatesNone : CreatesNone t (backfill_name sha256 parse_cidr env cluster_id o t)
    unfolding backfill_name subnets_created
    backfill-CreatesNone = ground arith
