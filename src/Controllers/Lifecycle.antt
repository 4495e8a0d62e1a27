-- ===== src/Controllers/Lifecycle.antt =====
-- What the reconcilers of VPC resources have in common (pkg/controller/vni, vlanattachment and
-- floatingip, each of which writes it out again): a finalizer, a creation unless the status has an
-- id, a status update; and a deletion before the finalizer goes. What differs is a `Kind`.
pub mod Conservation
pub mod Leaks
pub mod Outcomes
pub mod Progress
use roks_vpc_cni.Base.{ℕ, ◌≡◌, Bool, true, false, Option, none, some, List, [], ◌∷◌, ◌++◌}
use roks_vpc_cni.Text.{Str, codes, str_eq, member}
use roks_vpc_cni.Controllers.Effects.{
  Result, ok, err, SyncStatus, synced, Outcome, finished, failing, requeue, Env, M, pure, ◌>>=◌,
  ◌>>◌, branch, on_error, call_update, call_status_update, call_create, call_delete, count_op,
  emit_event, read_clock, remove_finalizer,
}

-- How a reconciler reads and changes its object. The changes of the status are those that it makes
-- before a status update: after a creation that failed, after all went well, after a deletion that
-- failed, and in place of everything else on a cluster of the other mode.
pub record Kind (O Q V D : Type 0) : Type 0 where
  pub protection : Str
  pub finalizers : O → List Str
  pub with_finalizers : O → List Str → O
  pub deleting : O → Bool
  pub id : O → Str
  pub sync_status : O → SyncStatus
  pub options : O → Q
  pub deletion : O → D
  pub resource_id : V → Str
  pub with_resource : O → V → O
  pub create_failed : O → Str → O
  pub synced_at : ℕ → O → O
  pub delete_failed : O → Str → O
  pub pending_at : ℕ → O → O

-- A change of the status leaves the finalizers and the id alone.
pub record Preserves {O Q V D : Type 0} (k : Kind O Q V D) (f : O → O) : Type 0 where
  pub same_finalizers : (o : O) → k.finalizers (f o) ≡ k.finalizers o
  pub same_id : (o : O) → k.id (f o) ≡ k.id o

pub record IsLawful {O Q V D : Type 0} (k : Kind O Q V D) : Type 0 where
  pub set_finalizers : (o : O) (fs : List Str) → k.finalizers (k.with_finalizers o fs) ≡ fs
  pub id-with_finalizers : (o : O) (fs : List Str) → k.id (k.with_finalizers o fs) ≡ k.id o
  pub id-with_resource : (o : O) (v : V) → k.id (k.with_resource o v) ≡ k.resource_id v
  pub finalizers-with_resource :
      (o : O) (v : V) → k.finalizers (k.with_resource o v) ≡ k.finalizers o
  pub create_failed-Preserves : (e : Str) → Preserves k (λ o. k.create_failed o e)
  pub synced_at-Preserves : (time : ℕ) → Preserves k (k.synced_at time)
  pub delete_failed-Preserves : (e : Str) → Preserves k (λ o. k.delete_failed o e)
  pub pending_at-Preserves : (time : ℕ) → Preserves k (k.pending_at time)
  pub sync_status-synced_at : (time : ℕ) (o : O) → k.sync_status (k.synced_at time o) ≡ synced

-- The answer of r.Get: the object, that it is not there, or another error.
pub data Fetched (O : Type 0) : Type 0 where
  object : O → Fetched O
  missing : Fetched O
  broken : Str → Fetched O

-- The mode of the cluster; on a ROKS cluster, whether there is a ROKS client and it is available.
pub data Mode : Type 0 where
  roks : Bool → Mode
  unmanaged : Mode

module _ {O Q V D : Type 0} (k : Kind O Q V D) where
  -- The object with the finalizer.
  abbrev pub protected : O → O
  protected o = k.with_finalizers o (k.finalizers o ++ k.protection ∷ [])

module _ {O Q V D : Type 0} (k : Kind O Q V D) (env : Env O Q V D) where
  -- finalizers.EnsureAdded: the object with the finalizer, and the error of the update.
  unfoldable pub ensure_added : O → M O Q V D (O × Option Str)
  ensure_added o =
      branch (member k.protection (k.finalizers o)) (pure (o, none))
        (do e ← call_update env (protected k o); pure (protected k o, e))

  -- finalizers.EnsureRemoved
  unfoldable pub ensure_removed : O → M O Q V D (Option Str)
  ensure_removed o =
      branch (member k.protection (k.finalizers o))
        (call_update env (k.with_finalizers o (remove_finalizer k.protection (k.finalizers o))))
        (pure none)

  -- The common status fields, and their update.
  unfoldable pub finish_normal : O → M O Q V D Outcome
  finish_normal o = do
    time ← read_clock env
    e ← call_status_update env (k.synced_at time o)
    on_error e (λ m. pure (failing m)) (pure finished)

  -- What follows the creation, by its answer.
  unfoldable pub after_create : O → Result V → M O Q V D Outcome
  after_create o (err e) = do
    count_op (codes "create") false
    emit_event env (codes "CreateFailed")
    _ ← call_status_update env (k.create_failed o e)
    pure (requeue 30)
  after_create o (ok v) = do
    count_op (codes "create") true
    emit_event env (codes "Created")
    finish_normal (k.with_resource o v)

  unfoldable pub create_or_sync : O → M O Q V D Outcome
  create_or_sync o =
      branch (str_eq (k.id o) []) (do r ← call_create env (k.options o); after_create o r)
        (finish_normal o)

  -- The finalizer, and what follows once the object has it.
  unfoldable pub ensure_then : (O → M O Q V D Outcome) → O → M O Q V D Outcome
  ensure_then m o = do r ← ensure_added o; on_error r.1 (λ e. pure (failing e)) (m r.0)

  unfoldable pub reconcile_normal : O → M O Q V D Outcome
  unfolding ensure_then
  reconcile_normal o = ensure_then create_or_sync o

  -- The last step of the deletion.
  unfoldable pub release : O → M O Q V D Outcome
  release o = do e ← ensure_removed o; on_error e (λ m. pure (failing m)) (pure finished)

  -- What follows the call that deletes the resource, by its answer.
  unfoldable pub after_delete : O → Option Str → M O Q V D Outcome
  after_delete o none = do
    count_op (codes "delete") true
    emit_event env (codes "Deleted")
    release o
  after_delete o (some e) = do
    count_op (codes "delete") false
    emit_event env (codes "DeleteFailed")
    _ ← call_status_update env (k.delete_failed o e)
    pure (requeue 30)

  unfoldable pub reconcile_delete : O → M O Q V D Outcome
  reconcile_delete o =
      branch (str_eq (k.id o) []) (release o)
        (do e ← call_delete env (k.deletion o); after_delete o e)

  unfoldable pub reconcile_roks : Bool → O → M O Q V D Outcome
  reconcile_roks roks_available o = branch roks_available (pure (requeue 300)) (do
    time ← read_clock env
    e ← call_status_update env (k.pending_at time o)
    on_error e (λ m. pure (failing m)) (pure (requeue 300)))

  unfoldable pub dispatch : Mode → O → M O Q V D Outcome
  dispatch (roks available) o = reconcile_roks available o
  dispatch unmanaged o = branch (k.deleting o) (reconcile_delete o) (reconcile_normal o)

  unfoldable pub reconcile : Mode → Fetched O → M O Q V D Outcome
  reconcile mode missing = pure finished
  reconcile mode (broken e) = pure (failing e)
  reconcile mode (object o) = dispatch mode o
