-- ===== src/Controllers/VpcSubnets/Tests.antt =====
-- Runs of the VPCSubnet reconciler at concrete inputs.
use roks_vpc_cni.Base.{◌+◌, ◌≤◌, refl, true, false, none, [], ◌∷◌, arith}
use roks_vpc_cni.Text.{codes}
use roks_vpc_cni.Controllers.Effects.{ok, unset}
use roks_vpc_cni.Controllers.Trace.{stored, creations, deletions, lost_updates}
use roks_vpc_cni.Controllers.Lifecycle.{object}
use roks_vpc_cni.Controllers.Lifecycle.Conservation.{GivesIds}
use roks_vpc_cni.Controllers.VpcSubnets.{SubnetObject, VpcSubnet, SubnetEnv, subnet_kind, reconcile}
use roks_vpc_cni.Controllers.VpcSubnets.Kept.{recorded, keeps_account}

abbrev named : SubnetObject
named = record {
  name = codes "net";
  finalizers = codes "vpc.roks.ibm.com/subnet-protection" ∷ [];
  deleting = false;
  spec = record {
    vpc_id = codes "vpc";
    zone = codes "z";
    ipv4_cidr_block = codes "10.0.0.0/24";
    acl_id = [];
    resource_group_id = [];
    cluster_id = codes "c";
    cudn_name = [];
  };
  status = record {
    sync_status = unset;
    subnet_id = codes "s1";
    vpc_subnet_status = [];
    last_sync_time = none;
    message = [];
    ready = none;
  };
}

abbrev second : VpcSubnet
second = record { id = codes "s2"; status = codes "available" }

-- Every call succeeds.
abbrev healthy : SubnetEnv
healthy = record {
  calls = record {
    on_update = λ o t. none;
    on_status_update = λ o t. none;
    on_create = λ q t. ok second;
    on_delete = λ d t. none;
    now = λ t. 7;
    has_recorder = true;
  };
  get_subnet = λ id t. ok (record { id = id; status = codes "available" });
}

healthy-GivesIds : GivesIds (subnet_kind (codes "c")) healthy.calls
healthy-GivesIds q t v e = ground (arith, e)

keeps_account_example :
    let t = (reconcile (codes "c") healthy (object named) []).1 in
    creations t + recorded (codes "c") named
    ≤ deletions t + recorded (codes "c") (stored named t) + lost_updates t
keeps_account_example =
    keeps_account (codes "c") healthy named healthy-GivesIds (λ p t. (_, refl, refl))
