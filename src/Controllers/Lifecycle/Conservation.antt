-- ===== src/Controllers/Lifecycle/Conservation.antt =====
-- No resource is created and forgotten in one run: those that exist are accounted for by the status.
use roks_vpc_cni.Base.{
  ℕ, ◌+◌, ◌≤◌, ◌≡◌, ◌≢◌, refl, ◌⊎◌, inl, inr, not, ◌&&◌, Bool, true, false, Option, none, some, [],
  ◌∷◌, ◌++◌, arith, if◌then◌else◌, Bool-cases,
}
use roks_vpc_cni.Text.{Str, codes, str_eq, str_eq_iff, member}
use roks_vpc_cni.Controllers.Effects.{
  branch_rule, Outcome, Result, ok, err, Env, M, Trace, create, delete, metric, emit_event, update,
  on_error, pure, failing,
}
use roks_vpc_cni.Controllers.Trace.{stored, creations, deletions, lost_updates, member_last}
use roks_vpc_cni.Controllers.Lifecycle.{
  Kind, IsLawful, Preserves, protected, ensure_added, ensure_removed, finish_normal, after_create,
  create_or_sync, ensure_then, reconcile_normal, release, after_delete, reconcile_delete,
  reconcile_roks, Mode, roks, unmanaged, dispatch, reconcile, object,
}

module _ {O Q V D : Type 0} (k : Kind O Q V D) where
  -- 1 where the object holds the id of a resource, and the finalizer that keeps the object until
  -- the resource is deleted.
  unfoldable pub recorded : O → ℕ
  recorded o = if not (str_eq (k.id o) []) && member k.protection (k.finalizers o) then 1 else 0

  -- The VPC interface gives every resource that it creates an id.
  abbrev pub GivesIds : Env O Q V D → Type 0
  GivesIds env =
      (q : Q) (t : Trace O Q V D) (v : V) → env.on_create q t ≡ ok v → k.resource_id v ≢ []

  -- From `t` to `t'` nothing is created or deleted, and a write of a status that records as much as
  -- `o` succeeds or is lost. `b` is the object before the run.
  abbrev pub Writes : O → O → Trace O Q V D → Trace O Q V D → Type 0
  Writes b o t t' =
      (creations t' ≡ creations t)
      × (deletions t' ≡ deletions t)
      × (((lost_updates t' ≡ lost_updates t) × (recorded (stored b t') ≡ recorded o))
          ⊎ ((lost_updates t' ≡ lost_updates t + 1)
              × (recorded (stored b t') ≡ recorded (stored b t))))

  pub recorded-le_one : (o : O) → recorded o ≤ 1
  unfolding recorded
  recorded-le_one o = ground arith

  recorded-Preserves : (f : O → O) → Preserves k f → (o : O) → recorded (f o) ≡ recorded o
  unfolding recorded
  recorded-Preserves f p o = ground (arith, p.same_finalizers o, p.same_id o)

  pub unrecorded_id : (o : O) → str_eq (k.id o) [] ≡ true → recorded o ≡ 0
  unfolding recorded
  unrecorded_id o e = ground (arith, e)

  unrecorded_bare : (o : O) → member k.protection (k.finalizers o) ≡ false → recorded o ≡ 0
  unfolding recorded
  unrecorded_bare o e = ground (arith, e)

  pub recorded-with_resource :
      IsLawful k
      → (o : O) (v : V) → member k.protection (k.finalizers o) ≡ true
      → k.resource_id v ≢ []
      → recorded (k.with_resource o v) ≡ 1
  unfolding recorded
  recorded-with_resource law o v kept h = ground (
    arith,
    str_eq_iff (k.resource_id v) [],
    law.id-with_resource o v,
    law.finalizers-with_resource o v,
  )

  pub protected-member :
      IsLawful k → (o : O) → member k.protection (k.finalizers (protected k o)) ≡ true
  protected-member law o =
      rw (law.set_finalizers o (k.finalizers o ++ k.protection ∷ []))
        (member_last k.protection (k.finalizers o))

  module _ (b : O) where
    -- What creating the missing resource does: the balance of a run that begins at a stored object
    -- which has the finalizer.
    abbrev pub CreateBalance : O → Trace O Q V D → Trace O Q V D → Type 0
    CreateBalance o t t' =
        (creations t' + recorded o + lost_updates t
          ≤ creations t + recorded (stored b t') + lost_updates t')
        × (deletions t' ≡ deletions t)

  module _ (law : IsLawful k) (env : Env O Q V D) (b : O) where
    pub finish-Writes : (o : O) (t : Trace O Q V D) → Writes b o t (finish_normal k env o t).1
    unfolding finish_normal creations deletions lost_updates stored
    finish-Writes o t = ground (
      arith,
      recorded-Preserves (k.synced_at (env.now t)) (law.synced_at-Preserves (env.now t)) o,
    )

    pub after_create-balances :
        (o : O) (q : Q) (r : Result V) (t : Trace O Q V D)
        → ((v : V) → r ≡ ok v → k.resource_id v ≢ [])
        → recorded o ≡ 0
        → member k.protection (k.finalizers o) ≡ true
        → CreateBalance b o t (after_create k env o r (create q r ∷ t)).1
    unfolding after_create creations deletions lost_updates stored
    after_create-balances o q (err e) t ids unrecorded kept =
        ground
          (arith, recorded-Preserves (λ o. k.create_failed o e) (law.create_failed-Preserves e) o)
    after_create-balances o q (ok v) t ids unrecorded kept =
        let t1 : Trace O Q V D = metric (codes "create") true ∷ create q (ok v) ∷ t in
        let t2 = (emit_event env (codes "Created") t1).1 in
        ground (
          arith,
          finish-Writes (k.with_resource o v) t2,
          recorded-with_resource law o v kept (ids v refl),
        )

    create_or_sync-balances :
        (o : O) (t : Trace O Q V D)
        → GivesIds env
        → member k.protection (k.finalizers o) ≡ true
        → CreateBalance b o t (create_or_sync k env o t).1
    unfolding create_or_sync
    create_or_sync-balances o t ids kept = elim (Bool-cases (str_eq (k.id o) [])) [
      | inl e ↦ rw e (
          after_create-balances o (k.options o) (env.on_create (k.options o) t) t
            (ids (k.options o) t) (unrecorded_id o e) kept)
      | inr e ↦ rw e (ground (arith, finish-Writes o t, recorded-le_one o))
    ]

  -- The balance of a whole run on an object.
  abbrev pub Conserves : O → Trace O Q V D → Type 0
  Conserves o t = creations t + recorded o ≤ deletions t + recorded (stored o t) + lost_updates t

  module _ (law : IsLawful k) (env : Env O Q V D) (o : O) where
    -- What follows the finalizer keeps the balance on every object that has it and the same id.
    abbrev pub Balances : (O → M O Q V D Outcome) → Type 0
    Balances m =
        (o' : O) (t : Trace O Q V D)
        → member k.protection (k.finalizers o') ≡ true
        → k.id o' ≡ k.id o
        → CreateBalance o o' t (m o' t).1

    -- The rest of the run behind the first step, by the answer to the update of the finalizer.
    after_update : (O → M O Q V D Outcome) → Option Str → Trace O Q V D
    after_update m e =
        (on_error e (λ m. pure (failing m)) (m (protected k o)) (update (protected k o) e ∷ [])).1

    after_update-Conserves :
        (m : O → M O Q V D Outcome) (e : Option Str)
        → Balances m
        → member k.protection (k.finalizers o) ≡ false
        → Conserves o (after_update m e)
    unfolding after_update creations deletions lost_updates stored
    after_update-Conserves m (some e) balances bare = ground arith
    after_update-Conserves m none balances bare = ground (
      arith,
      balances (protected k o) (update (protected k o) none ∷ []) (protected-member law o)
          (law.id-with_finalizers o (k.finalizers o ++ k.protection ∷ [])),
      unrecorded_bare o bare,
    )

    pub ensure_then-Conserves :
        (m : O → M O Q V D Outcome) → Balances m → Conserves o (ensure_then k env m o []).1
    unfolding ensure_then ensure_added after_update
    ensure_then-Conserves m balances = elim (Bool-cases (member k.protection (k.finalizers o))) [
      | inl e ↦
          rw e (unfold creations deletions lost_updates in ground (arith, balances o [] e refl))
      | inr e ↦ rw e (after_update-Conserves m (env.on_update (protected k o) []) balances e)
    ]

    normal-Conserves : GivesIds env → Conserves o (reconcile_normal k env o []).1
    unfolding reconcile_normal
    normal-Conserves ids =
        ensure_then-Conserves (create_or_sync k env)
          (λ o' t kept same. create_or_sync-balances law env o o' t ids kept)

    after_delete-Conserves :
        (d : D) (e : Option Str) → Conserves o (after_delete k env o e (delete d e ∷ [])).1
    unfolding after_delete release ensure_removed creations deletions lost_updates stored
    after_delete-Conserves d none = ground (arith, recorded-le_one o)
    after_delete-Conserves d (some e) = ground (
      arith,
      recorded-le_one o,
      recorded-Preserves (λ o. k.delete_failed o e) (law.delete_failed-Preserves e) o,
    )

    pub delete-Conserves : Conserves o (reconcile_delete k env o []).1
    unfolding reconcile_delete
    delete-Conserves = elim (Bool-cases (str_eq (k.id o) [])) [
      | inl e ↦ rw e (
          unfold release ensure_removed creations deletions lost_updates stored in
          ground (arith, unrecorded_id o e))
      | inr e ↦ rw e (after_delete-Conserves (k.deletion o) (env.on_delete (k.deletion o) []))
    ]

    roks-Conserves : (available : Bool) → Conserves o (reconcile_roks k env available o []).1
    unfolding reconcile_roks creations deletions lost_updates stored
    roks-Conserves available = ground (
      arith,
      recorded-Preserves (k.pending_at (env.now [])) (law.pending_at-Preserves (env.now [])) o,
    )

    -- One run on an object, in either mode and whatever the interfaces answer: the resources that
    -- it creates, with the one recorded before, are at most those that it deletes, with the one
    -- recorded after and the status updates that fail. A resource is recorded by a status with its
    -- id on an object with the finalizer; the VPC interface gives every resource an id.
    pub run-Conserves :
        (mode : Mode) → GivesIds env → Conserves o (reconcile k env mode (object o) []).1
    unfolding reconcile dispatch
    run-Conserves (roks available) ids = roks-Conserves available
    run-Conserves unmanaged ids =
        branch_rule (λ (r : Outcome × Trace O Q V D). Conserves o r.1) (k.deleting o)
          (reconcile_delete k env o) (reconcile_normal k env o) [] delete-Conserves
          (normal-Conserves ids)
