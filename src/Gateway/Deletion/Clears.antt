-- ===== src/Gateway/Deletion/Clears.antt =====
-- Parts of the deletion of a gateway, and what each of them settles.
use roks_vpc_cni.Base.{
  ◌≡◌, refl, ◌∙◌, ◌⊎◌, inl, inr, Bool-cases, Bool, true, false, List, [], ◌∷◌, ◌++◌, append-nil,
  if◌then◌else◌, All, All-append, All-map,
}
use mathlib.Core.Path.{subst}
use roks_vpc_cni.Text.{Str, codes}
use roks_vpc_cni.Controllers.Effects.{pure, branch}
use roks_vpc_cni.Gateway.Deletion.{
  Resource, table_route, GatewayCall, update, delete, unbind_fip, metric, event, Calls, GatewayEnv,
  is_gone, and_then, tell, events, told_of, remove, or_tell, remove_routes,
}

-- The resource was deleted, or was not found when it was to be deleted.
abbrev pub Settled : Resource → Calls → Type 0
Settled r [] = ⊥
Settled r (delete r' e ∷ t) = ((r' ≡ r) × (is_gone e ≡ true)) ⊎ Settled r t
Settled r (update o e ∷ t) = Settled r t
Settled r (unbind_fip id e ∷ t) = Settled r t
Settled r (metric op b ∷ t) = Settled r t
Settled r (event s ∷ t) = Settled r t

-- The API server was asked to write the gateway.
unfoldable pub written : Calls → Bool
written [] = false
written (update o e ∷ t) = true
written (delete r e ∷ t) = written t
written (unbind_fip id e ∷ t) = written t
written (metric op b ∷ t) = written t
written (event s ∷ t) = written t

-- Nothing settled is lost, and nothing is written.
abbrev pub Quiet : Calls → Calls → Type 0
Quiet t t' = ((r : Resource) → Settled r t → Settled r t') × (written t' ≡ written t)

-- A part is quiet, and settles these where it says so.
abbrev pub Clears : List Resource → (Calls → Bool × Calls) → Type 0
Clears rs m = (t : Calls) → Quiet t (m t).1 × ((m t).0 ≡ true → All (λ r. Settled r (m t).1) rs)

pub pure-Clears : Clears [] (pure true)
pure-Clears t = ((λ r h. h, refl), λ _. tt)

pub fail-Clears : (rs : List Resource) → Clears rs (pure false)
fail-Clears rs t = ((λ r h. h, refl), λ e. absurd (cc (e)))

pub and_then-Clears :
    (rs ss : List Resource) (m k : Calls → Bool × Calls)
    → Clears rs m
    → Clears ss k
    → Clears (rs ++ ss) (and_then m k)
and_then-Clears rs ss m k hm hk t = elim (Bool-cases (m t).0) [
  | inl e ↦ rw e (
      let ((keep, same), done) = hm t in
      let ((keep', same'), rest) = hk (m t).1 in
      (
        (λ r h. keep' r (keep r h), same' ∙ same),
        λ f. All-append _ rs ss (All-map _ _ keep' rs (done e)) (rest f),
      ))
  | inr e ↦ rw e ((hm t).0, λ f. absurd (cc (f)))
]

pub and_then-true :
    (m k : Calls → Bool × Calls) (t : Calls)
    → (and_then m k t).0 ≡ true
    → ((m t).0 ≡ true) × ((k (m t).1).0 ≡ true)
and_then-true m k t h = elim (Bool-cases (m t).0) [
  | inl e ↦ (e, rw e at h)
  | inr e ↦ absurd (cc (rw e at h))
]

pub branch-Clears :
    (rs ss : List Resource) (b : Bool) (m k : Calls → Bool × Calls)
    → Clears rs m
    → Clears ss k
    → Clears (if b then rs else ss) (branch b m k)
branch-Clears rs ss true m k hm hk = hm
branch-Clears rs ss false m k hm hk = hk

-- What is only counted or told.
abbrev pub IsNote : GatewayCall → Type 0
IsNote (update o e) = ⊥
IsNote (delete r e) = ⊥
IsNote (unbind_fip id e) = ⊥
IsNote (metric op b) = Unit
IsNote (event s) = Unit

pub tell-Quiet : (cs : List GatewayCall) → All IsNote cs → (t : Calls) → Quiet t (tell cs t).1
tell-Quiet [] notes t = (λ r h. h, refl)
tell-Quiet (metric op b ∷ cs) notes t =
    let (keep, same) = tell-Quiet cs notes.1 (metric op b ∷ t) in
    (keep, same ∙ unfold written in refl)
tell-Quiet (event s ∷ cs) notes t =
    let (keep, same) = tell-Quiet cs notes.1 (event s ∷ t) in (keep, same ∙ unfold written in refl)
tell-Quiet (update o e ∷ cs) notes t = absurd notes.0
tell-Quiet (delete r e ∷ cs) notes t = absurd notes.0
tell-Quiet (unbind_fip id e ∷ cs) notes t = absurd notes.0

pub tell-Clears : (cs : List GatewayCall) → All IsNote cs → Clears [] (tell cs)
tell-Clears cs notes t = (tell-Quiet cs notes t, λ _. tt)

-- Routes of a table.
unfoldable pub due_routes : Str → List Str → List Resource
due_routes id [] = []
due_routes id (r ∷ rs) = table_route id r ∷ due_routes id rs

module _ (env : GatewayEnv) where
  pub events-notes : (reason : Str) → All IsNote (events env reason)
  events-notes reason = elim (Bool-cases env.has_recorder) [
    | inl e ↦ rw e (tt, tt)
    | inr e ↦ rw e tt
  ]

  pub or_tell-Clears :
      (rs : List Resource) (cs : List GatewayCall) (m : Calls → Bool × Calls)
      → All IsNote cs
      → Clears rs m
      → Clears rs (or_tell env cs m)
  or_tell-Clears rs cs m notes hm t = elim (Bool-cases (m t).0) [
    | inl e ↦ rw e ((hm t).0, λ _. (hm t).1 e)
    | inr e ↦ rw e (
        let ((keep, same), done) = hm t in
        let (keep', same') = tell-Quiet cs notes (m t).1 in
        ((λ r h. keep' r (keep r h), same' ∙ same), λ f. absurd (cc (f))))
  ]

  pub remove-Clears : (r : Resource) → Clears (r ∷ []) (remove env r)
  unfolding remove written
  remove-Clears r t = ((λ s h. inr h, refl), λ e. (inl (refl, e), tt))

  pub remove_routes-Clears :
      (id : Str) (ids : List Str) → Clears (due_routes id ids) (remove_routes env id ids)
  unfolding remove_routes due_routes
  remove_routes-Clears id [] = pure-Clears
  remove_routes-Clears id (r ∷ rs) =
      and_then-Clears (table_route id r ∷ []) (due_routes id rs) (remove env (table_route id r))
        (remove_routes env id rs) (remove-Clears (table_route id r)) (remove_routes-Clears id rs)

  pub told-Clears :
      (rs : List Resource) (m : Calls → Bool × Calls) (cs : List GatewayCall)
      → Clears rs m
      → All IsNote cs
      → Clears rs (and_then m (tell cs))
  told-Clears rs m cs hm notes =
      subst (λ ss. Clears ss (and_then m (tell cs))) (append-nil rs)
        (and_then-Clears rs [] m (tell cs) hm (tell-Clears cs notes))

  pub told_of-notes : (ids : List Str) → All IsNote (told_of env ids)
  told_of-notes [] = tt
  told_of-notes (id ∷ ids) = events-notes (codes "IngressRoutesDeleted")
