-- ===== src/Controllers/Lifecycle/Outcomes.antt =====
-- What a run's outcome says about the object that it leaves behind.
use roks_vpc_cni.Base.{
  ◌≡◌, ◌≢◌, refl, true, false, Option, none, some, [], ◌∷◌, arith, Bool-cases, inl, inr,
}
use roks_vpc_cni.Text.{Str, codes, str_eq, str_eq_iff, member}
use roks_vpc_cni.Controllers.Effects.{
  Result, ok, err, synced, Outcome, finished, failing, pure, on_error, Env, Trace, create, delete,
  metric, update, emit_event,
}
use roks_vpc_cni.Controllers.Trace.{stored, deletions, Deleted}
use roks_vpc_cni.Controllers.Lifecycle.{
  Kind, IsLawful, protected, ensure_added, ensure_removed, finish_normal, after_create,
  create_or_sync, reconcile_normal, release, after_delete, reconcile_delete,
}
use roks_vpc_cni.Controllers.Lifecycle.Conservation.{
  recorded, GivesIds, recorded-with_resource, protected-member,
}

module _ {O Q V D : Type 0} (k : Kind O Q V D) (law : IsLawful k) (env : Env O Q V D) where
  -- The object is synced, has an id, and has the finalizer.
  abbrev pub IsSettled : O → Type 0
  IsSettled o = (k.sync_status o ≡ synced) × (recorded k o ≡ 1)

  -- The run left off with this outcome and trace: if it is finished, the object is settled.
  abbrev Settles : O → Outcome × Trace O Q V D → Type 0
  Settles b r = r.0 ≡ finished → IsSettled (stored b r.1)

  synced_at-IsSettled : (o : O) (time : _) → recorded k o ≡ 1 → IsSettled (k.synced_at time o)
  unfolding recorded
  synced_at-IsSettled o time h = ground (
    arith,
    law.sync_status-synced_at time o,
    (law.synced_at-Preserves time).same_finalizers o,
    (law.synced_at-Preserves time).same_id o,
  )

  module _ (b : O) where
    finish-Settles :
        (o : O) (t : Trace O Q V D) → recorded k o ≡ 1 → Settles b (finish_normal k env o t)
    unfolding finish_normal stored
    finish-Settles o t h = ground (arith, synced_at-IsSettled o (env.now t) h)

    after_create-Settles :
        (o : O) (r : Result V) (t : Trace O Q V D)
        → ((v : V) → r ≡ ok v → k.resource_id v ≢ [])
        → member k.protection (k.finalizers o) ≡ true
        → Settles b (after_create k env o r t)
    unfolding after_create
    after_create-Settles o (err e) t ids kept = ground arith
    after_create-Settles o (ok v) t ids kept =
        finish-Settles (k.with_resource o v)
          (emit_event env (codes "Created") (metric (codes "create") true ∷ t)).1
          (recorded-with_resource k law o v kept (ids v refl))

    create_or_sync-Settles :
        (o : O) (t : Trace O Q V D)
        → GivesIds k env
        → member k.protection (k.finalizers o) ≡ true
        → Settles b (create_or_sync k env o t)
    unfolding create_or_sync
    create_or_sync-Settles o t ids kept = elim (Bool-cases (str_eq (k.id o) [])) [
      | inl e ↦
          let q = k.options o in
          rw e (
            after_create-Settles o (env.on_create q t) (create q (env.on_create q t) ∷ t) (ids q t)
              kept)
      | inr e ↦ rw e (finish-Settles o t (unfold recorded in ground (arith, e, kept)))
    ]

    after_update-Settles :
        (o : O) (e : Option Str) (t : Trace O Q V D)
        → GivesIds k env
        → member k.protection (k.finalizers o) ≡ true
        → Settles b (on_error e (λ m. pure (failing m)) (create_or_sync k env o) t)
    after_update-Settles o (some m) t ids kept = ground arith
    after_update-Settles o none t ids kept = create_or_sync-Settles o t ids kept

  -- A run on an object that is not being deleted which ends without an error and asks for no
  -- further run has stored the object as synced, with an id and the finalizer.
  pub normal_settles :
      (o : O)
      → GivesIds k env
      → (reconcile_normal k env o []).0 ≡ finished
      → IsSettled (stored o (reconcile_normal k env o []).1)
  unfolding reconcile_normal ensure_added
  normal_settles o ids = elim (Bool-cases (member k.protection (k.finalizers o))) [
    | inl e ↦ rw e (create_or_sync-Settles o o [] ids e)
    | inr e ↦
        let answer = env.on_update (protected k o) [] in
        rw e (
          after_update-Settles o (protected k o) answer (update (protected k o) answer ∷ []) ids
            (protected-member k law o))
  ]

  after_delete-deletes :
      (o : O) (answer : Option Str)
      → let t = (after_delete k env o answer (delete (k.deletion o) answer ∷ [])).1 in
        member k.protection (k.finalizers o) ≡ true
        → member k.protection (k.finalizers (stored o t)) ≡ false
        → deletions t ≡ 1
  unfolding after_delete release ensure_removed stored deletions
  after_delete-deletes o none kept freed = ground arith
  after_delete-deletes o (some e) kept freed =
      ground (arith, (law.delete_failed-Preserves e).same_finalizers o)

  after_delete-Deleted :
      (o : O) (answer : Option Str)
      → let t = (after_delete k env o answer (delete (k.deletion o) answer ∷ [])).1 in
        member k.protection (k.finalizers o) ≡ true
        → member k.protection (k.finalizers (stored o t)) ≡ false
        → Deleted (k.deletion o) t
  unfolding after_delete release ensure_removed stored
  after_delete-Deleted o none kept freed = ground arith
  after_delete-Deleted o (some e) kept freed =
      absurd (ground (arith, (law.delete_failed-Preserves e).same_finalizers o))

  -- Where the finalizer goes, the resource was deleted in that run, and nothing else.
  pub delete_before_release :
      (o : O)
      → k.id o ≢ []
      → member k.protection (k.finalizers o) ≡ true
      → member k.protection (k.finalizers (stored o (reconcile_delete k env o []).1)) ≡ false
      → let t = (reconcile_delete k env o []).1 in Deleted (k.deletion o) t × (deletions t ≡ 1)
  unfolding reconcile_delete
  delete_before_release o id kept freed = elim (Bool-cases (str_eq (k.id o) [])) [
    | inl e ↦ absurd (id ((str_eq_iff (k.id o) []).0 e))
    | inr e ↦
        let answer = env.on_delete (k.deletion o) [] in
        let freed' = rw e at freed in
        rw e (after_delete-Deleted o answer kept freed', after_delete-deletes o answer kept freed')
  ]
