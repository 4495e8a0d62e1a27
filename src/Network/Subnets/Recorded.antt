-- ===== src/Network/Subnets/Recorded.antt =====
-- What EnsureVPCSubnet promises where it returns no error.
use roks_vpc_cni.Base.{
  ℕ, ◌≡◌, ◌≢◌, refl, inl, inr, ◌&&◌, not, Option, none, some, List, [], ◌∷◌, arith, All, Bool-cases,
}
use roks_vpc_cni.Text.{Str, codes, str_eq, str_eq_nil, trim_space}
use roks_vpc_cni.Controllers.Effects.{Result, ok, err, branch_rule}
use roks_vpc_cni.Network.Objects.{
  NetworkObject, CreateSubnetOptions, Subnet, Calls, create_subnet, NetworkEnv, stored,
}
use roks_vpc_cni.Network.Cidr.{AddressPrefix, IpNet, cidr_fits_prefix}
use roks_vpc_cni.Network.Subnets.{
  Ensured, find_subnet, with_subnet, refuse, adopt, after_create, subnet_options, create_new,
  after_list, adopt_existing, misfit_message, clear_error, subnet_name_of, adopt_or_create,
  after_prefixes, validate_and_create, ensure_vpc_subnet,
}

abbrev pub HasId : Subnet → Type 0
HasId s = s.id ≢ []

-- The VPC interface gives ids to the subnets that it creates and lists.
pub record GivesIds (env : NetworkEnv) : Type 0 where
  pub created_ids :
      (q : CreateSubnetOptions) (t : Calls) (s : Subnet) → env.on_create_subnet q t ≡ ok s → HasId s
  pub listed_ids :
      (vpc_id : Str) (t : Calls) (ss : List Subnet)
      → env.list_subnets vpc_id t ≡ ok ss
      → All HasId ss

-- Where there is no error, the object holds a subnet's id, and is the one stored.
abbrev pub IsSettled : NetworkObject → Ensured × Calls → Type 0
IsSettled b r =
    r.0.error ≡ none → (r.0.object.annotations.subnet_id ≢ []) × (stored b r.1 ≡ r.0.object)

find_subnet-HasId :
    (name : Str) (ss : List Subnet) (s : Subnet)
    → All HasId ss
    → find_subnet name ss ≡ some s
    → HasId s
unfolding find_subnet
find_subnet-HasId name [] s ids e = cc
find_subnet-HasId name (s' ∷ ss) s ids e = ground (arith, find_subnet-HasId name ss s ids.1)

module _ (env : NetworkEnv) (b : NetworkObject) where
  refuse-IsSettled :
      (op : Str) (o : NetworkObject) (m : Str) (t : Calls) → IsSettled b (refuse env op o m t)
  unfolding refuse
  refuse-IsSettled op o m t e = cc

  adopt-IsSettled :
      (o : NetworkObject) (name cidr : Str) (s : Subnet) (t : Calls)
      → HasId s
      → IsSettled b (adopt env o name cidr s t)
  unfolding adopt stored with_subnet refuse
  adopt-IsSettled o name cidr s t id = ground (arith, id)

  after_create-IsSettled :
      (o : NetworkObject) (name : Str) (r : Result Subnet) (t : Calls)
      → ((s : Subnet) → r ≡ ok s → HasId s)
      → IsSettled b (after_create env o name r t)
  unfolding after_create stored with_subnet
  after_create-IsSettled o name (err e) t id = ground arith
  after_create-IsSettled o name (ok s) t id = ground (arith, id s refl)

  module _ (ids : GivesIds env) (cluster_id : Str) where
    create_new-IsSettled :
        (o : NetworkObject) (name cidr : Str) (t : Calls)
        → IsSettled b (create_new env cluster_id o name cidr t)
    unfolding create_new
    create_new-IsSettled o name cidr t =
        let q = subnet_options cluster_id o name cidr in
        let r = env.on_create_subnet q t in
        after_create-IsSettled o name r (create_subnet q r ∷ t) (ids.created_ids q t)

    adopt_existing-IsSettled :
        (o : NetworkObject) (name cidr : Str) (found : Option Subnet) (t : Calls)
        → ((s : Subnet) → found ≡ some s → HasId s)
        → IsSettled b (adopt_existing env cluster_id o name cidr found t)
    unfolding adopt_existing
    adopt_existing-IsSettled o name cidr none t id = create_new-IsSettled o name cidr t
    adopt_existing-IsSettled o name cidr (some s) t id = adopt-IsSettled o name cidr s t (id s refl)

    after_list-IsSettled :
        (o : NetworkObject) (name cidr : Str) (r : Result (List Subnet)) (t : Calls)
        → ((ss : List Subnet) → r ≡ ok ss → All HasId ss)
        → IsSettled b (after_list env cluster_id o name cidr r t)
    unfolding after_list
    after_list-IsSettled o name cidr (err e) t h = create_new-IsSettled o name cidr t
    after_list-IsSettled o name cidr (ok ss) t h =
        adopt_existing-IsSettled o name cidr (find_subnet name ss) t
          (λ s. find_subnet-HasId name ss s (h ss refl))

    module _ (sha256 : Str → List ℕ) (parse_cidr : Str → Option IpNet) where
      adopt_or_create-IsSettled :
          (o : NetworkObject) (t : Calls)
          → IsSettled b (adopt_or_create sha256 parse_cidr env cluster_id o t)
      unfolding adopt_or_create
      adopt_or_create-IsSettled o t =
          after_list-IsSettled o (subnet_name_of sha256 parse_cidr cluster_id o)
            (trim_space o.annotations.cidr) (env.list_subnets o.annotations.vpc_id t) t
            (ids.listed_ids o.annotations.vpc_id t)

      after_prefixes-IsSettled :
          (o : NetworkObject) (r : Result (List AddressPrefix)) (t : Calls)
          → IsSettled b (after_prefixes sha256 parse_cidr env cluster_id o r t)
      unfolding after_prefixes
      after_prefixes-IsSettled o (err e) t = adopt_or_create-IsSettled o t
      after_prefixes-IsSettled o (ok ps) t =
          let cidr = trim_space o.annotations.cidr in
          branch_rule (IsSettled b) (cidr_fits_prefix parse_cidr cidr ps)
            (adopt_or_create sha256 parse_cidr env cluster_id o)
            (refuse env (codes "create_subnet") o (misfit_message cidr ps)) t
            (adopt_or_create-IsSettled o t)
            (refuse-IsSettled (codes "create_subnet") o (misfit_message cidr ps) t)

      validate_and_create-IsSettled :
          (o : NetworkObject) (t : Calls)
          → IsSettled b (validate_and_create sha256 parse_cidr env cluster_id o t)
      unfolding validate_and_create
      validate_and_create-IsSettled o t =
          elim (Bool-cases (
            not (str_eq o.annotations.vpc_id [])
            && not (str_eq (trim_space o.annotations.cidr) []))) [
              | inl e ↦
                  rw e (after_prefixes-IsSettled o (env.list_prefixes o.annotations.vpc_id t) t)
              | inr e ↦ rw e (adopt_or_create-IsSettled o t)
            ]

-- EnsureVPCSubnet, run on an object without a subnet's id: where it returns no error, the object
-- holds a subnet's id, and the API server holds the same object. The VPC interface gives an id to
-- each subnet that it creates or lists.
pub ensure_vpc_subnet-IsSettled :
    (sha256 : Str → List ℕ) (parse_cidr : Str → Option IpNet) (env : NetworkEnv) (cluster_id : Str)
    (o : NetworkObject)
    → GivesIds env
    → o.annotations.subnet_id ≡ []
    → (ensure_vpc_subnet sha256 parse_cidr env cluster_id o []).0.error ≡ none
    → let (r, t) = ensure_vpc_subnet sha256 parse_cidr env cluster_id o [] in
      (r.object.annotations.subnet_id ≢ []) × (stored o t ≡ r.object)
unfolding ensure_vpc_subnet
ensure_vpc_subnet-IsSettled sha256 parse_cidr env cluster_id o ids bare =
    rw (str_eq_nil o.annotations.subnet_id bare)
      (validate_and_create-IsSettled env o ids cluster_id sha256 parse_cidr (clear_error o) [])
