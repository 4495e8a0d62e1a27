-- ===== src/Controllers/Machines/Released.antt =====
-- When the finalizer of a machine goes.
use roks_vpc_cni.Base.{
  ◌≡◌, refl, ◌∙◌, sym, ap, append_assoc, ◌++◌, append-nil, Option-cases, All-append, All-map, inl,
  inr, Bool-cases, ◌&&◌, ◌||◌, Bool, true, false, Option, none, some, List, [], ◌∷◌, arith, All,
  if◌then◌else◌,
}
use roks_vpc_cni.Text.{Str, str_eq, str_eq_refl, member}
use roks_vpc_cni.Controllers.Effects.{Outcome, requeue, finished, pure, branch}
use roks_vpc_cni.Controllers.Machines.{
  VmInterface, VmAnnotations, Machine, MachineCall, update, delete_fip, delete_attachment,
  delete_vni, rename_vni, metric, Calls, MachineEnv, tolerated, owned, both, interfaces_of,
  remove_fip, remove_attachment, after_remove_vni, remove_vni, release, remove_interface,
  remove_interfaces, remove_flat, vm_cleanup, released, delete_by, reconcile_delete, is_nil,
}

-- What has to be deleted before the finalizer goes: an attachment of a server, or a VNI.
pub data Duty : Type 0 where
  attachment : Str → Str → Duty
  vni : Str → Duty

-- A deletion of it, with an answer that counts as done.
unfoldable pub settles : Duty → MachineCall → Bool
settles (attachment s i) (delete_attachment server id e) =
    str_eq server s && (str_eq id i && tolerated e)
settles (attachment s i) (update o e) = false
settles (attachment s i) (delete_fip id e) = false
settles (attachment s i) (delete_vni id e) = false
settles (attachment s i) (rename_vni id n e) = false
settles (attachment s i) (metric op r) = false
settles (vni i) (delete_vni id e) = str_eq id i && tolerated e
settles (vni i) (update o e) = false
settles (vni i) (delete_fip id e) = false
settles (vni i) (delete_attachment server id e) = false
settles (vni i) (rename_vni id n e) = false
settles (vni i) (metric op r) = false

unfoldable pub settled : Duty → Calls → Bool
settled d [] = false
settled d (c ∷ t) = settles d c || settled d t

-- The attachments and VNIs whose deletion was asked for, in order.
unfoldable pub asked : Calls → List Duty
asked [] = []
asked (delete_attachment s id e ∷ t) = asked t ++ attachment s id ∷ []
asked (delete_vni id e ∷ t) = asked t ++ vni id ∷ []
asked (update o e ∷ t) = asked t
asked (delete_fip id e ∷ t) = asked t
asked (rename_vni id n e ∷ t) = asked t
asked (metric op r ∷ t) = asked t

-- The object has been written, whatever the answer.
unfoldable pub written : Calls → Bool
written [] = false
written (update o e ∷ t) = true
written (delete_fip id e ∷ t) = written t
written (delete_attachment s id e ∷ t) = written t
written (delete_vni id e ∷ t) = written t
written (rename_vni id n e ∷ t) = written t
written (metric op r ∷ t) = written t

-- What is due for an interface, and for the flat annotations.
unfoldable pub duty_of : VmInterface → Duty
duty_of i =
    if both i.attachment_id i.bm_server_id
    then attachment i.bm_server_id i.attachment_id
    else vni i.vni_id

unfoldable pub duties : List VmInterface → List Duty
duties [] = []
duties (i ∷ is) = let rest = duties is in if owned i then duty_of i ∷ rest else rest

unfoldable pub flat_duties : VmAnnotations → List Duty
flat_duties a =
    if both a.attachment_id a.bm_server_id
    then attachment a.bm_server_id a.attachment_id ∷ []
    else if str_eq a.vni_id []
    then []
    else vni a.vni_id ∷ []

unfoldable pub duties_by : Machine → Option (List VmInterface) → List Duty
duties_by o (some is) = duties is
duties_by o none = flat_duties o.annotations

-- Nothing settled is lost, and nothing is written.
abbrev Quiet : Calls → Calls → Type 0
Quiet t t' = ((d : Duty) → settled d t ≡ true → settled d t' ≡ true) × (written t' ≡ written t)

-- From the one trace to the other these and no others were asked for, and they are settled.
abbrev Does : List Duty → Calls → Calls → Type 0
Does ds t t' = (asked t' ≡ asked t ++ ds) × All (λ d. settled d t' ≡ true) ds

-- A part of the deletion is quiet, and has done what it was for if it says so.
abbrev Clears : List Duty → Calls → Bool × Calls → Type 0
Clears ds t r = Quiet t r.1 × (r.0 ≡ true → Does ds t r.1)

Does-nil : (t : Calls) → Does [] t t
Does-nil t = (sym (append-nil (asked t)), tt)

Does-append :
    (ds es : List Duty) (t u w : Calls)
    → ((d : Duty) → settled d u ≡ true → settled d w ≡ true)
    → Does ds t u
    → Does es u w
    → Does (ds ++ es) t w
Does-append ds es t u w keep one two = (
  two.0 ∙ (ap (λ l. l ++ es) one.0 ∙ append_assoc (asked t) ds es),
  All-append _ ds es (All-map _ _ keep ds one.1) two.1,
)

module _ (env : MachineEnv) where
  remove_fip-Quiet :
      (accepted : Option Str → Bool) (id : Str) (t : Calls)
      → let t' = (remove_fip env accepted id t).1 in Quiet t t' × (asked t' ≡ asked t)
  unfolding remove_fip written settled asked
  remove_fip-Quiet accepted id t = elim (Bool-cases (str_eq id [])) [
    | inl e ↦ rw e ((λ d h. h, refl), refl)
    | inr e ↦ rw e (elim (Bool-cases (accepted (env.on_delete_fip id t))) [
      | inl f ↦ rw f ((λ d h. ground (arith, h), refl), refl)
      | inr f ↦ rw f ((λ d h. ground (arith, h), refl), refl)
    ])
  ]

  remove_attachment-Clears :
      (s id : Str) (t : Calls) → Clears (attachment s id ∷ []) t (remove_attachment env s id t)
  unfolding remove_attachment written settled settles asked
  remove_attachment-Clears s id t = ground (arith, str_eq_refl s, str_eq_refl id)

  remove_vni-Clears : (id : Str) (t : Calls) → Clears (vni id ∷ []) t (remove_vni env id t)
  unfolding remove_vni written settled settles asked after_remove_vni tolerated
  remove_vni-Clears id t = ground (arith, str_eq_refl id)

  -- The deletion behind that of the floating IP.
  abbrev Removes : List Duty → (Calls → Bool × Calls) → Type 0
  Removes ds m = (t : Calls) → Clears ds t (m t)

  after_fip-Clears :
      (ds : List Duty) (accepted : Option Str → Bool) (id : Str) (m : Calls → Bool × Calls)
      → Removes ds m
      → (t : Calls) → Clears ds t (m (remove_fip env accepted id t).1)
  after_fip-Clears ds accepted id m h t =
      let q = remove_fip-Quiet accepted id t in
      let ((keep, same), done) = h (remove_fip env accepted id t).1 in
      (
        (λ d e. keep d (q.0.0 d e), same ∙ q.0.1),
        λ f. ((done f).0 ∙ ap (λ l. l ++ ds) q.1, (done f).1),
      )

  duty_of-Removes :
      (i : VmInterface)
      → Removes (duty_of i ∷ []) (
          branch
            (both i.attachment_id i.bm_server_id)
            (remove_attachment env i.bm_server_id i.attachment_id)
            (remove_vni env i.vni_id))
  unfolding duty_of
  duty_of-Removes i t = elim (Bool-cases (both i.attachment_id i.bm_server_id)) [
    | inl e ↦ rw e (remove_attachment-Clears i.bm_server_id i.attachment_id t)
    | inr e ↦ rw e (remove_vni-Clears i.vni_id t)
  ]

  remove_interface-Clears : (i : VmInterface) → Removes (duties (i ∷ [])) (remove_interface env i)
  unfolding remove_interface duties
  remove_interface-Clears i t = elim (Bool-cases (owned i)) [
    | inl e ↦ rw e (
        after_fip-Clears (duty_of i ∷ []) tolerated i.fip_id
          (branch (both i.attachment_id i.bm_server_id)
            (remove_attachment env i.bm_server_id i.attachment_id) (remove_vni env i.vni_id))
          (duty_of-Removes i) t)
    | inr e ↦ rw e ((λ d h. h, refl), λ _. Does-nil t)
  ]

  flat-Removes :
      (a : VmAnnotations)
      → Removes (flat_duties a) (
          branch
            (both a.attachment_id a.bm_server_id)
            (remove_attachment env a.bm_server_id a.attachment_id)
            (branch (str_eq a.vni_id []) (pure true) (remove_vni env a.vni_id)))
  unfolding flat_duties
  flat-Removes a t = elim (Bool-cases (both a.attachment_id a.bm_server_id)) [
    | inl e ↦ rw e (remove_attachment-Clears a.bm_server_id a.attachment_id t)
    | inr e ↦ rw e (elim (Bool-cases (str_eq a.vni_id [])) [
      | inl f ↦ rw f ((λ d h. h, refl), λ _. Does-nil t)
      | inr f ↦ rw f (remove_vni-Clears a.vni_id t)
    ])
  ]

  remove_flat-Clears : (a : VmAnnotations) → Removes (flat_duties a) (remove_flat env a)
  unfolding remove_flat
  remove_flat-Clears a t =
      after_fip-Clears (flat_duties a) (is_nil env) a.fip_id
        (branch (both a.attachment_id a.bm_server_id)
          (remove_attachment env a.bm_server_id a.attachment_id)
          (branch (str_eq a.vni_id []) (pure true) (remove_vni env a.vni_id)))
        (flat-Removes a) t

  -- Nothing settled is lost, and where the object is written, these were asked for and are settled.
  abbrev Releases : List Duty → Calls → Outcome × Calls → Type 0
  Releases ds t r =
      ((d : Duty) → settled d t ≡ true → settled d r.1 ≡ true)
      × (written t ≡ false → written r.1 ≡ true → Does ds t r.1)

  release-Releases : (o : Machine) (t : Calls) → Releases [] t (release env o t)
  unfolding release settled asked
  release-Releases o t = elim (Bool-cases (member vm_cleanup o.finalizers)) [
    | inl e ↦ rw e (elim (Option-cases (env.on_update (released o) t)) [
      | inl f ↦ rw f (λ d h. ground (arith, h), λ _ _. Does-nil t)
      | inr (m, f) ↦ rw f (λ d h. ground (arith, h), λ _ _. Does-nil t)
    ])
    | inr e ↦ rw e (λ d h. h, λ _ _. Does-nil t)
  ]

  -- What ends a deletion, behind a part of it that says whether to go on.
  then-Releases :
      (ds es : List Duty) (m : Calls → Bool × Calls) (k : Calls → Outcome × Calls)
      → Removes ds m
      → ((t : Calls) → Releases es t (k t))
      → (t : Calls) → Releases (ds ++ es) t (branch (m t).0 k (pure (requeue 30)) (m t).1)
  then-Releases ds es m k hm hk t = elim (Bool-cases (m t).0) [
    | inl e ↦ rw e (
        let ((keep, same), done) = hm t in
        let (keep', rest) = hk (m t).1 in
        (
          λ d h. keep' d (keep d h),
          λ quiet w.
              Does-append ds es t (m t).1 (k (m t).1).1 keep' (done e) (rest (same ∙ quiet) w),
        ))
    | inr e ↦
        rw e (let ((keep, same), done) = hm t in (keep, λ quiet w. absurd (cc (w, same, quiet))))
  ]

  duties_cons :
      (i : VmInterface) (is : List VmInterface) → duties (i ∷ is) ≡ duties (i ∷ []) ++ duties is
  unfolding duties
  duties_cons i is = ground arith

  remove_interfaces-Releases :
      (o : Machine) (is : List VmInterface) (t : Calls)
      → Releases (duties is) t (remove_interfaces env o is t)
  unfolding remove_interfaces
  remove_interfaces-Releases o [] t = unfold duties in release-Releases o t
  remove_interfaces-Releases o (i ∷ is) t = rw (duties_cons i is) (
      then-Releases (duties (i ∷ [])) (duties is) (remove_interface env i)
        (remove_interfaces env o is) (remove_interface-Clears i) (remove_interfaces-Releases o is)
        t)

  delete_by-Releases :
      (o : Machine) (found : Option (List VmInterface)) (t : Calls)
      → Releases (duties_by o found) t (delete_by env o found t)
  unfolding delete_by duties_by
  delete_by-Releases o (some is) t = remove_interfaces-Releases o is t
  delete_by-Releases o none t = rw (← append-nil (flat_duties o.annotations)) (
      then-Releases (flat_duties o.annotations) [] (remove_flat env o.annotations) (release env o)
        (remove_flat-Clears o.annotations) (release-Releases o) t)

-- Where a deletion run on a machine asks the API server to write the object, it has asked before for
-- exactly these deletions of attachments and VNIs, in their order, and each of them has succeeded or
-- found nothing: for each LocalNet interface with a VNI id the attachment where the ids of both the
-- attachment and its server are given, or else the VNI; and where no interfaces can be read, the one
-- that the flat annotations name in the same way, if they name one. An attachment of an interface
-- without a VNI id and what the flat annotations name beside interfaces that can be read are not
-- among them.
pub written-settled :
    (env : MachineEnv) (o : Machine)
    → let t = (reconcile_delete env o []).1 in
      let ds = duties_by o (interfaces_of env o) in
      written t ≡ true → (asked t ≡ ds) × All (λ d. settled d t ≡ true) ds
unfolding reconcile_delete asked
written-settled env o w =
    (delete_by-Releases env o (interfaces_of env o) []).1 (unfold written in refl) w

-- Every deletion succeeds or finds nothing.
pub record Tolerates (env : MachineEnv) : Type 0 where
  pub attachments : (s id : Str) (t : Calls) → tolerated (env.on_delete_attachment s id t) ≡ true
  pub vnis : (id : Str) (t : Calls) → tolerated (env.on_delete_vni id t) ≡ true

module _ (env : MachineEnv) (good : Tolerates env) where
  -- The part goes on.
  abbrev Goes : (Calls → Bool × Calls) → Type 0
  Goes m = (t : Calls) → (m t).0 ≡ true

  remove_attachment-Goes : (s id : Str) → Goes (remove_attachment env s id)
  unfolding remove_attachment
  remove_attachment-Goes s id t = rw (good.attachments s id t) refl

  after_remove_vni-Goes : (e : Option Str) → tolerated e ≡ true → Goes (after_remove_vni env e)
  unfolding after_remove_vni tolerated
  after_remove_vni-Goes none h t = refl
  after_remove_vni-Goes (some e) h t = rw h refl

  remove_vni-Goes : (id : Str) → Goes (remove_vni env id)
  unfolding remove_vni
  remove_vni-Goes id t =
      after_remove_vni-Goes (env.on_delete_vni id t) (good.vnis id t)
        (delete_vni id (env.on_delete_vni id t) ∷ t)

  branch-Goes : (b : Bool) (m k : Calls → Bool × Calls) → Goes m → Goes k → Goes (branch b m k)
  branch-Goes true m k hm hk t = hm t
  branch-Goes false m k hm hk t = hk t

  remove_interface-Goes : (i : VmInterface) → Goes (remove_interface env i)
  unfolding remove_interface
  remove_interface-Goes i =
      branch-Goes (owned i) _ (pure true)
        (λ t.
          branch-Goes (both i.attachment_id i.bm_server_id)
            (remove_attachment env i.bm_server_id i.attachment_id) (remove_vni env i.vni_id)
            (remove_attachment-Goes i.bm_server_id i.attachment_id) (remove_vni-Goes i.vni_id)
            (remove_fip env tolerated i.fip_id t).1)
        (λ t. refl)

  remove_flat-Goes : (a : VmAnnotations) → Goes (remove_flat env a)
  unfolding remove_flat
  remove_flat-Goes a t =
      branch-Goes (both a.attachment_id a.bm_server_id)
        (remove_attachment env a.bm_server_id a.attachment_id)
        (branch (str_eq a.vni_id []) (pure true) (remove_vni env a.vni_id))
        (remove_attachment-Goes a.bm_server_id a.attachment_id)
        (branch-Goes (str_eq a.vni_id []) (pure true) (remove_vni env a.vni_id) (λ t'. refl)
          (remove_vni-Goes a.vni_id))
        (remove_fip env (is_nil env) a.fip_id t).1

  -- A run ends with the release.
  abbrev EndsIn : (o : Machine) → Outcome × Calls → Type 0
  EndsIn o r = (t : Calls) × (r ≡ release env o t)

  remove_interfaces-EndsIn :
      (o : Machine) (is : List VmInterface) (t : Calls) → EndsIn o (remove_interfaces env o is t)
  unfolding remove_interfaces
  remove_interfaces-EndsIn o [] t = (t, refl)
  remove_interfaces-EndsIn o (i ∷ is) t =
      rw (remove_interface-Goes i t) (remove_interfaces-EndsIn o is (remove_interface env i t).1)

  delete_by-EndsIn :
      (o : Machine) (found : Option (List VmInterface)) (t : Calls)
      → EndsIn o (delete_by env o found t)
  unfolding delete_by
  delete_by-EndsIn o (some is) t = remove_interfaces-EndsIn o is t
  delete_by-EndsIn o none t =
      rw (remove_flat-Goes o.annotations t) ((remove_flat env o.annotations t).1, refl)

release_writes :
    (env : MachineEnv) (o : Machine) (t : Calls)
    → member vm_cleanup o.finalizers ≡ true
    → env.on_update (released o) t ≡ none
    → release env o t ≡ (finished, update (released o) none ∷ t)
unfolding release
release_writes env o t has accepted = rw has (rw accepted refl)

-- A deletion run on a machine with the finalizer, in which every deletion succeeds or finds nothing
-- and the API server accepts the write, ends without a further run, and its last call has written
-- the machine without the finalizer.
pub reconcile_delete-release :
    (env : MachineEnv) (o : Machine)
    → Tolerates env
    → member vm_cleanup o.finalizers ≡ true
    → ((t : Calls) → env.on_update (released o) t ≡ none)
    → (t : Calls) × (reconcile_delete env o [] ≡ (finished, update (released o) none ∷ t))
unfolding reconcile_delete
reconcile_delete-release env o good has accepted =
    let (t, e) = delete_by-EndsIn env good o (interfaces_of env o) [] in
    (t, e ∙ release_writes env o t has (accepted t))
