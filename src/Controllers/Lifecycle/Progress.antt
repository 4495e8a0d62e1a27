-- ===== src/Controllers/Lifecycle/Progress.antt =====
-- One run during which no call fails does all that there is to do.
use roks_vpc_cni.Base.{
  ◌≡◌, ◌∙◌, refl, true, false, Bool, none, List, [], ◌∷◌, arith, Bool-cases, inl, inr,
}
use roks_vpc_cni.Text.{Str, str_eq, member}
use roks_vpc_cni.Controllers.Effects.{ok, Outcome, finished, Env, Trace, remove_finalizer}
use roks_vpc_cni.Controllers.Trace.{stored}
use roks_vpc_cni.Controllers.Lifecycle.{
  Kind, IsLawful, protected, ensure_added, ensure_removed, finish_normal, after_create,
  create_or_sync, reconcile_normal, release, after_delete, reconcile_delete, dispatch, reconcile,
  unmanaged, object,
}
use roks_vpc_cni.Controllers.Lifecycle.Conservation.{GivesIds}
use roks_vpc_cni.Controllers.Lifecycle.Outcomes.{IsSettled, normal_settles}

pub remove_finalizer-member : (f : Str) (fs : List Str) → member f (remove_finalizer f fs) ≡ false
unfolding member remove_finalizer
remove_finalizer-member f [] = refl
remove_finalizer-member f (g ∷ fs) = ground (arith, remove_finalizer-member f fs)

-- No call fails.
pub record Faultless {O Q V D : Type 0} (env : Env O Q V D) : Type 0 where
  pub updates : (o : O) (t : Trace O Q V D) → env.on_update o t ≡ none
  pub status_updates : (o : O) (t : Trace O Q V D) → env.on_status_update o t ≡ none
  pub creates : (q : Q) (t : Trace O Q V D) → (v : V) × (env.on_create q t ≡ ok v)
  pub deletes : (d : D) (t : Trace O Q V D) → env.on_delete d t ≡ none

module _ {O Q V D : Type 0} (k : Kind O Q V D) (law : IsLawful k) (env : Env O Q V D)
    (good : Faultless env) where
  finish_finishes : (o : O) (t : Trace O Q V D) → (finish_normal k env o t).0 ≡ finished
  unfolding finish_normal
  finish_finishes o t = rw (good.status_updates (k.synced_at (env.now t) o) t)

  create_or_sync_finishes : (o : O) (t : Trace O Q V D) → (create_or_sync k env o t).0 ≡ finished
  unfolding create_or_sync after_create
  create_or_sync_finishes o t = elim (Bool-cases (str_eq (k.id o) [])) [
    | inl e ↦
        let (v, made) = good.creates (k.options o) t in
        rw e (rw made (finish_finishes (k.with_resource o v) _))
    | inr e ↦ rw e (finish_finishes o t)
  ]

  normal_finishes : (o : O) → (reconcile_normal k env o []).0 ≡ finished
  unfolding reconcile_normal ensure_added
  normal_finishes o = elim (Bool-cases (member k.protection (k.finalizers o))) [
    | inl e ↦ rw e (create_or_sync_finishes o [])
    | inr e ↦
        rw e (rw (good.updates (protected k o) []) (create_or_sync_finishes (protected k o) _))
  ]

  -- The object ends up synced, with an id and the finalizer.
  pub faultless_normal :
      (o : O) → GivesIds k env → IsSettled k law env (stored o (reconcile_normal k env o []).1)
  faultless_normal o ids = normal_settles k law env o ids (normal_finishes o)

  -- The object ends up without the finalizer.
  abbrev Freed : O → Outcome × Trace O Q V D → Type 0
  Freed b r = (r.0 ≡ finished) × (member k.protection (k.finalizers (stored b r.1)) ≡ false)

  release-Freed :
      (o : O) (t : Trace O Q V D)
      → member k.protection (k.finalizers (stored o t)) ≡ member k.protection (k.finalizers o)
      → Freed o (release k env o t)
  unfolding release ensure_removed stored
  release-Freed o t same =
      let fs = remove_finalizer k.protection (k.finalizers o) in
      elim (Bool-cases (member k.protection (k.finalizers o))) [
        | inl e ↦ rw e (
            rw (good.updates (k.with_finalizers o fs) t) (
              refl,
              rw (law.set_finalizers o fs) (remove_finalizer-member k.protection (k.finalizers o)),
            ))
        | inr e ↦ rw e (refl, same ∙ e)
      ]

  pub faultless_delete : (o : O) → Freed o (reconcile_delete k env o [])
  unfolding reconcile_delete after_delete
  faultless_delete o = elim (Bool-cases (str_eq (k.id o) [])) [
    | inl e ↦ rw e (release-Freed o [] (unfold stored in refl))
    | inr e ↦
        rw e
          (rw (good.deletes (k.deletion o) []) (release-Freed o _ (unfold stored in ground arith)))
  ]

  -- What is to be done with an object, by whether it is being deleted.
  abbrev pub Done : Bool → O → Type 0
  Done false s = IsSettled k law env s
  Done true s = member k.protection (k.finalizers s) ≡ false

  pub faultless_run :
      (o : O)
      → GivesIds k env
      → Done (k.deleting o) (stored o (reconcile k env unmanaged (object o) []).1)
  unfolding reconcile dispatch
  faultless_run o ids = elim (Bool-cases (k.deleting o)) [
    | inl e ↦ rw e (faultless_delete o).1
    | inr e ↦ rw e (faultless_normal o ids)
  ]
