-- ===== src/Controllers/VpcSubnets/Kept.antt =====
-- When a run of the reconciler keeps account of its subnet.
use roks_vpc_cni.Base.{ℕ, ◌+◌, ◌≤◌, ◌≡◌, ◌≢◌, inl, inr, true, [], arith, Bool-cases}
use roks_vpc_cni.Text.{Str, codes, str_eq, str_eq_iff, member}
use roks_vpc_cni.Controllers.Effects.{ok, Outcome, branch_rule}
use roks_vpc_cni.Controllers.Trace.{stored, creations, deletions, lost_updates}
use roks_vpc_cni.Controllers.Lifecycle.{object}
use roks_vpc_cni.Controllers.Lifecycle.Conservation
use roks_vpc_cni.Controllers.Lifecycle.Conservation.{GivesIds}
use roks_vpc_cni.Controllers.VpcSubnets.{
  SubnetObject, VpcSubnet, SubnetTrace, SubnetEnv, subnet_kind, subnet_kind-IsLawful,
  create_options, with_subnet, create_new, after_get, get_or_create, reconcile_normal,
  reconcile_delete, reconcile,
}

-- 1 where the object holds the id of a subnet, and the finalizer.
unfoldable pub recorded : Str → SubnetObject → ℕ
recorded cluster_id o = Conservation.recorded (subnet_kind cluster_id) o

-- GetSubnet finds the subnet with the id.
abbrev pub Finds : SubnetEnv → Str → Type 0
Finds env id = (t : SubnetTrace) → (v : VpcSubnet) × (env.get_subnet id t ≡ ok v) × (v.id ≡ id)

module _ (cluster_id : Str) (env : SubnetEnv) (b : SubnetObject)
    (ids : GivesIds (subnet_kind cluster_id) env.calls) where
  abbrev Balance : SubnetObject → SubnetTrace → SubnetTrace → Type 0
  Balance = Conservation.CreateBalance (subnet_kind cluster_id) b

  create_new-balances :
      (o : SubnetObject) (t : SubnetTrace)
      → str_eq o.status.subnet_id [] ≡ true
      → member (codes "vpc.roks.ibm.com/subnet-protection") o.finalizers ≡ true
      → Balance o t (create_new cluster_id env o t).1
  unfolding create_new
  create_new-balances o t e kept =
      let q = create_options cluster_id o in
      Conservation.after_create-balances (subnet_kind cluster_id) (subnet_kind-IsLawful cluster_id)
        env.calls b o q (env.calls.on_create q t) t (ids q t)
        (Conservation.unrecorded_id (subnet_kind cluster_id) o e) kept

  same_id-recorded :
      (o : SubnetObject) (v : VpcSubnet)
      → v.id ≡ o.status.subnet_id
      → Conservation.recorded (subnet_kind cluster_id) (with_subnet o v)
        ≡ Conservation.recorded (subnet_kind cluster_id) o
  unfolding Conservation.recorded with_subnet
  same_id-recorded o v e = ground (arith, e)

  get_or_create-balances :
      (o : SubnetObject) (t : SubnetTrace)
      → member (codes "vpc.roks.ibm.com/subnet-protection") o.finalizers ≡ true
      → (o.status.subnet_id ≢ [] → Finds env o.status.subnet_id)
      → Balance o t (get_or_create cluster_id env o t).1
  unfolding get_or_create
  get_or_create-balances o t kept finds = elim (Bool-cases (str_eq o.status.subnet_id [])) [
    | inl e ↦ rw e (create_new-balances o t e kept)
    | inr e ↦
        let (v, got, same) = finds (λ p. cc ((str_eq_iff o.status.subnet_id []).1 p, e)) t in
        rw e (
          rw got (
            unfold after_get in
            ground (
              arith,
              Conservation.finish-Writes (subnet_kind cluster_id) (subnet_kind-IsLawful cluster_id)
                  env.calls b (with_subnet o v) t,
              same_id-recorded o v same,
              Conservation.recorded-le_one (subnet_kind cluster_id) o,
            )))
  ]

-- One run of the VPCSubnet reconciler on an object, with any answers but that GetSubnet finds the
-- subnet that the status names: the subnets created, with the one recorded before, are at most
-- those deleted, with the one recorded after and the status updates that fail. The VPC interface
-- gives every subnet an id.
pub keeps_account :
    (cluster_id : Str) (env : SubnetEnv) (o : SubnetObject)
    → GivesIds (subnet_kind cluster_id) env.calls
    → (o.status.subnet_id ≢ [] → Finds env o.status.subnet_id)
    → let t = (reconcile cluster_id env (object o) []).1 in
      creations t + recorded cluster_id o
      ≤ deletions t + recorded cluster_id (stored o t) + lost_updates t
unfolding reconcile recorded
keeps_account cluster_id env o ids finds =
    let k = subnet_kind cluster_id in
    let law = subnet_kind-IsLawful cluster_id in
    branch_rule (λ (r : Outcome × SubnetTrace). Conservation.Conserves k o r.1) o.deleting
      (reconcile_delete cluster_id env o) (reconcile_normal cluster_id env o) []
      (unfold reconcile_delete in Conservation.delete-Conserves k law env.calls o)
      (unfold reconcile_normal in
        Conservation.ensure_then-Conserves k law env.calls o (get_or_create cluster_id env)
          (λ o' t kept same.
            get_or_create-balances cluster_id env o ids o' t kept (rw (← same) at finds)))
