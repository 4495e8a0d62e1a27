-- ===== src/Network/Subnets.antt =====
-- EnsureVPCSubnet, SubnetHasActiveVNIs and DeleteVPCSubnet of pkg/controller/network/helpers.go: the
-- VPC subnet of a network. The digest of the names and `net.ParseCIDR` are parameters.
pub mod Recorded
pub mod Creations
pub mod Guarded
mod Tests
use roks_vpc_cni.Base.{
  ℕ, ◌+◌, ◌&&◌, not, Bool, true, false, Option, none, some, List, [], ◌∷◌, ◌++◌, ltb, map,
  if◌then◌else◌,
}
use roks_vpc_cni.Text.{Str, codes, str_eq, trim_space, contains, join}
use roks_vpc_cni.Controllers.Effects.{Result, ok, err, Logged, pure, ◌>>=◌, ◌>>◌, branch, on_error}
use roks_vpc_cni.Controllers.Logged.{read, call, record_call}
use roks_vpc_cni.Network.Objects.{
  Annotations, NetworkObject, CreateSubnetOptions, Subnet, ReservedIp, update, create_subnet,
  delete_subnet, metric, Action, NetworkEnv,
}
use roks_vpc_cni.Network.Cidr.{AddressPrefix, IpNet, cidr_fits_prefix}
use roks_vpc_cni.Network.Names.{truncate_vpc_name}

-- isNotFoundError
unfoldable pub is_not_found : Str → Bool
is_not_found message = contains (codes "not found") message

unfoldable pub prefix_text : AddressPrefix → Str
prefix_text p = p.cidr ++ (codes " (" ++ (p.zone ++ codes ")"))

unfoldable pub format_prefixes : List AddressPrefix → Str
format_prefixes [] = codes "(none)"
format_prefixes (p ∷ ps) = join (codes ", ") (map prefix_text (p ∷ ps))

-- The results of EnsureVPCSubnet, and the object as it leaves it in memory.
pub record Ensured : Type 0 where
  pub created : Bool
  pub error : Option Str
  pub object : NetworkObject

abbrev pub call_update : NetworkEnv → NetworkObject → Action (Option Str)
call_update env o = call (env.on_update o) (update o)

-- The subnet of a listing that has the name, the first one.
unfoldable pub find_subnet : Str → List Subnet → Option Subnet
find_subnet name [] = none
find_subnet name (s ∷ ss) =
    let rest = find_subnet name ss in if str_eq s.name name then some s else rest

-- The object with the subnet in its annotations.
unfoldable pub with_subnet : NetworkObject → Str → Subnet → NetworkObject
with_subnet o name s = record o {
  annotations = record o.annotations {
    subnet_id = s.id;
    subnet_name = name;
    subnet_status = s.status;
  };
}

-- An error that the object's annotations tell.
unfoldable pub refuse : NetworkEnv → Str → NetworkObject → Str → Action Ensured
refuse env op o message = do
  let o' = record o {
    annotations = record o.annotations { subnet_status = codes "error"; subnet_error = message };
  }
  _ ← call_update env o'
  record_call (metric op false)
  pure (record { created = false; error = some message; object = o' })

unfoldable pub adopt : NetworkEnv → NetworkObject → Str → Str → Subnet → Action Ensured
adopt env o name cidr s =
    let o' = with_subnet o name s in
    branch (str_eq s.cidr cidr)
      (do
        e ← call_update env o'
        on_error e (λ m. pure (record { created = false; error = some m; object = o' }))
            (do
              record_call (metric (codes "adopt_subnet") true)
              pure (record { created = true; error = none; object = o' })))
      (refuse env (codes "adopt_subnet") o (
        codes "existing VPC subnet "
        ++ (name
            ++ (codes " ("
                ++ (s.id
                    ++ (codes ") has CIDR "
                        ++ (s.cidr ++ (codes " but annotation specifies " ++ cidr))))))))

unfoldable pub after_create : NetworkEnv → NetworkObject → Str → Result Subnet → Action Ensured
after_create env o name (err e) = do
  record_call (metric (codes "create_subnet") false)
  pure (record { created = false; error = some e; object = o })
after_create env o name (ok s) = do
  let o' = with_subnet o name s
  record_call (metric (codes "create_subnet") true)
  e ← call_update env o'
  on_error e (λ m. pure (record { created = false; error = some m; object = o' }))
      (pure (record { created = true; error = none; object = o' }))

unfoldable pub subnet_options : Str → NetworkObject → Str → Str → CreateSubnetOptions
subnet_options cluster_id o name cidr = record {
  name = name;
  vpc_id = o.annotations.vpc_id;
  zone = o.annotations.zone;
  cidr = cidr;
  acl_id = o.annotations.acl_id;
  public_gateway_id = o.annotations.public_gateway_id;
  cluster_id = cluster_id;
  cudn_name = o.name;
}

unfoldable pub create_new : NetworkEnv → Str → NetworkObject → Str → Str → Action Ensured
create_new env cluster_id o name cidr = do
  let q = subnet_options cluster_id o name cidr
  r ← call (env.on_create_subnet q) (create_subnet q)
  after_create env o name r

-- The subnet of the same name is adopted, and without one a subnet is created.
unfoldable pub adopt_existing :
    NetworkEnv → Str → NetworkObject → Str → Str → Option Subnet → Action Ensured
adopt_existing env cluster_id o name cidr none = create_new env cluster_id o name cidr
adopt_existing env cluster_id o name cidr (some s) = adopt env o name cidr s

-- The check for a subnet of the same name, by the answer of ListSubnets.
unfoldable pub after_list :
    NetworkEnv → Str → NetworkObject → Str → Str → Result (List Subnet) → Action Ensured
after_list env cluster_id o name cidr (err e) = create_new env cluster_id o name cidr
after_list env cluster_id o name cidr (ok existing) =
    adopt_existing env cluster_id o name cidr (find_subnet name existing)

unfoldable pub misfit_message : Str → List AddressPrefix → Str
misfit_message cidr prefixes =
    codes "CIDR "
    ++ (cidr
        ++ (codes " does not fit any VPC address prefix. Available prefixes: "
            ++ format_prefixes prefixes))

-- The annotations without the error of an earlier attempt.
unfoldable pub clear_error : NetworkObject → NetworkObject
clear_error o = record o { annotations = record o.annotations { subnet_error = [] } }

module _ (sha256 : Str → List ℕ) (parse_cidr : Str → Option IpNet) where
  unfoldable pub subnet_name_of : Str → NetworkObject → Str
  subnet_name_of cluster_id o = truncate_vpc_name sha256 (
      codes "roks-"
      ++ (cluster_id
          ++ b'-' ∷ (if str_eq o.namespace [] then o.name else o.namespace ++ b'-' ∷ o.name)))

  unfoldable pub adopt_or_create : NetworkEnv → Str → NetworkObject → Action Ensured
  adopt_or_create env cluster_id o = do
    existing ← read (env.list_subnets o.annotations.vpc_id)
    after_list env cluster_id o (subnet_name_of cluster_id o) (trim_space o.annotations.cidr)
        existing

  -- The validation of the CIDR, by the answer of ListVPCAddressPrefixes.
  unfoldable pub after_prefixes :
      NetworkEnv → Str → NetworkObject → Result (List AddressPrefix) → Action Ensured
  after_prefixes env cluster_id o (err e) = adopt_or_create env cluster_id o
  after_prefixes env cluster_id o (ok prefixes) =
      let cidr = trim_space o.annotations.cidr in
      branch (cidr_fits_prefix parse_cidr cidr prefixes) (adopt_or_create env cluster_id o)
        (refuse env (codes "create_subnet") o (misfit_message cidr prefixes))

  unfoldable pub validate_and_create : NetworkEnv → Str → NetworkObject → Action Ensured
  validate_and_create env cluster_id o =
      branch
        (not (str_eq o.annotations.vpc_id []) && not (str_eq (trim_space o.annotations.cidr) []))
        (do r ← read (env.list_prefixes o.annotations.vpc_id); after_prefixes env cluster_id o r)
        (adopt_or_create env cluster_id o)

  -- The subnet exists: only its name may be missing.
  unfoldable pub backfill_name : NetworkEnv → Str → NetworkObject → Action Ensured
  backfill_name env cluster_id o =
      let o' = record o {
        annotations = record o.annotations { subnet_name = subnet_name_of cluster_id o };
      } in
      branch (str_eq o.annotations.subnet_name [])
        (do _ ← call_update env o'; pure (record { created = false; error = none; object = o' }))
        (pure (record { created = false; error = none; object = o }))

  unfoldable pub ensure_vpc_subnet : NetworkEnv → Str → NetworkObject → Action Ensured
  ensure_vpc_subnet env cluster_id o =
      branch (str_eq o.annotations.subnet_id [])
        (validate_and_create env cluster_id (clear_error o)) (backfill_name env cluster_id o)

-- The reserved addresses that are not the provider's.
unfoldable pub count_active : List ReservedIp → ℕ
count_active [] = 0
count_active (r ∷ rs) =
    if str_eq r.owner (codes "provider") then count_active rs else 1 + count_active rs

unfoldable pub subnet_has_active_vnis : NetworkEnv → Str → Action (Result (Bool × ℕ))
subnet_has_active_vnis env subnet_id = do
  listed ← read (env.list_reserved_ips subnet_id)
  pure (elim listed [
    | err e ↦
        err (codes "failed to list reserved IPs for subnet " ++ (subnet_id ++ (codes ": " ++ e)))
    | ok rs ↦ ok (ltb 0 (count_active rs), count_active rs)
  ])

unfoldable pub delete_vpc_subnet : NetworkEnv → NetworkObject → Action (Option Str)
delete_vpc_subnet env o =
    let id = o.annotations.subnet_id in
    branch (str_eq id []) (pure none) (do
      e ← call (env.on_delete_subnet id) (delete_subnet id)
      on_error e (λ m. pure (if is_not_found m then none else some m)) (pure none))
