-- ===== src/Network/Subnets/Tests.antt =====
-- EnsureVPCSubnet at a concrete network and with concrete interfaces.
use roks_vpc_cni.Base.{ℕ, ◌≡◌, ◌≢◌, refl, inl, Option, none, List, [], ◌∷◌, arith}
use roks_vpc_cni.Text.{Str, codes, str_eq}
use roks_vpc_cni.Network.Objects.{stored, subnets_created}
use roks_vpc_cni.Network.Samples.{subnet_a, env_with, net}
use roks_vpc_cni.Network.Cidr.{IpNet}
use roks_vpc_cni.Network.Names.{truncate_vpc_name}
use roks_vpc_cni.Network.Subnets.{
  ensure_vpc_subnet, validate_and_create, adopt_or_create, after_list, adopt_existing, create_new,
  after_create, subnet_name_of, find_subnet, clear_error, count_active,
}
use roks_vpc_cni.Network.Subnets.Recorded.{GivesIds, ensure_vpc_subnet-IsSettled}
use roks_vpc_cni.Network.Subnets.Guarded.{name_taken, subnets_created-Blocked}

abbrev no_digest : Str → List ℕ
no_digest name = []

abbrev no_cidr : Str → Option IpNet
no_cidr cidr = none

subnet_name : subnet_name_of no_digest no_cidr (codes "c") net ≡ codes "roks-c-net"
unfolding subnet_name_of truncate_vpc_name str_eq
subnet_name = refl

created_then_stored :
    (ensure_vpc_subnet no_digest no_cidr (env_with []) (codes "c") net []).0.error ≡ none
unfolding ensure_vpc_subnet validate_and_create adopt_or_create after_list adopt_existing create_new
    after_create find_subnet clear_error str_eq
created_then_stored = refl

ids : GivesIds (env_with [])
ids = record { created_ids = λ q t s e p. cc; listed_ids = λ v t ss e. ground (arith, e) }

ensure_vpc_subnet-IsSettled_example :
    let (r, t) = ensure_vpc_subnet no_digest no_cidr (env_with []) (codes "c") net [] in
    (r.object.annotations.subnet_id ≢ []) × (stored net t ≡ r.object)
ensure_vpc_subnet-IsSettled_example =
    ensure_vpc_subnet-IsSettled no_digest no_cidr (env_with []) (codes "c") net ids refl
      created_then_stored

subnets_created-Blocked_example :
    subnets_created
      (ensure_vpc_subnet no_digest no_cidr (env_with (subnet_a ∷ [])) (codes "c") net []).1
    ≡ 0
unfolding subnet_name_of truncate_vpc_name str_eq
subnets_created-Blocked_example =
    subnets_created-Blocked no_digest no_cidr (env_with (subnet_a ∷ [])) (codes "c") net
      (name_taken (subnet_a ∷ []) refl (inl refl))

provider_addresses :
    count_active (
      record { id = codes "r1"; owner = codes "provider" }
      ∷ record { id = codes "r2"; owner = codes "user" }
      ∷ [])
    ≡ 1
unfolding count_active str_eq
provider_addresses = refl
