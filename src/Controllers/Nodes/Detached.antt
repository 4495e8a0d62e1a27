-- ===== src/Controllers/Nodes/Detached.antt =====
-- What is left of a node in the annotations when it leaves the cluster.
use roks_vpc_cni.Base.{
  ℕ, ◌+◌, inl, inr, sym, ◌++◌, append-nil, append_assoc, Option-cases, ◌≡◌, refl, ◌∙◌, Option, none,
  some, List, [], ◌∷◌, arith, if◌then◌else◌,
}
use roks_vpc_cni.Text.{Str, str_eq, str_eq_iff}
use roks_vpc_cni.Dict.{Dict, lookup, erase, has_key, lookup-erase}
use roks_vpc_cni.Controllers.Effects.{Result, ok, err, Outcome, finished, failing}
use roks_vpc_cni.Network.Objects.{NetworkObject, Calls, update, stored}
use roks_vpc_cni.Network.Attachments.{parse_attachments}
use roks_vpc_cni.Network.Attachments.RoundTrip.{
  IsSerializable, erase-IsSerializable, lookup-parse-serialize,
}
use roks_vpc_cni.Network.Vlans.{with_attachments}
use roks_vpc_cni.Controllers.Nodes.{
  NodeEnv, forget_attachment, detach_network, detach_networks, detach_listed, join_lists, objects,
  list_all_networks, reconcile_delete, reconcile, missing,
}

-- the attachments in an object's annotation
abbrev pub attachments_of : NetworkObject → Dict Str
attachments_of o = parse_attachments o.annotations.vlan_attachments

module _ (env : NodeEnv) (node_name : Str) (o : NetworkObject) where
  forget-detaches :
      (found : Option Str)
      → lookup node_name (attachments_of o) ≡ found
      → IsSerializable (attachments_of o)
      → ((o' : NetworkObject) → env.network.on_update o' [] ≡ none)
      → (j : Str)
      → lookup j (attachments_of (stored o (forget_attachment env node_name o found []).1))
        ≡ (if str_eq node_name j then none else lookup j (attachments_of o))
  unfolding forget_attachment stored
  forget-detaches none e h written j = ground (arith, str_eq_iff node_name j, e)
  forget-detaches (some id) e h written j =
      let m = erase node_name (attachments_of o) in
      rw (written (with_attachments o m)) (
        lookup-parse-serialize m j (erase-IsSerializable node_name (attachments_of o) h)
        ∙ lookup-erase node_name j (attachments_of o))

-- After the loop of reconcileDelete has handled a network object, the annotation that the API server
-- holds has no attachment for the node, and the attachments of all other nodes as before. The
-- annotation is a serializable map, and the update is accepted.
pub lookup-detach_network :
    (env : NodeEnv) (node_name : Str) (o : NetworkObject)
    → IsSerializable (attachments_of o)
    → ((o' : NetworkObject) → env.network.on_update o' [] ≡ none)
    → (j : Str)
    → lookup j (attachments_of (stored o (detach_network env node_name o []).1))
      ≡ (if str_eq node_name j then none else lookup j (attachments_of o))
unfolding detach_network
lookup-detach_network env node_name o h written j =
    forget-detaches env node_name o (lookup node_name (attachments_of o)) refl h written j

-- The objects that the API server was asked to write, in order, and the number of all other calls.
unfoldable pub updates : Calls → List NetworkObject
updates [] = []
updates (update o e ∷ t) = updates t ++ o ∷ []
updates (_ ∷ t) = updates t

unfoldable pub others : Calls → ℕ
others [] = 0
others (update o e ∷ t) = others t
others (_ ∷ t) = 1 + others t

-- The objects whose annotation has the node, each with an annotation without it.
unfoldable pub forgotten : Str → List NetworkObject → List NetworkObject
forgotten node_name [] = []
forgotten node_name (o ∷ os) =
    let rest = forgotten node_name os in
    if has_key node_name (attachments_of o)
    then with_attachments o (erase node_name (attachments_of o)) ∷ rest
    else rest

-- What the run for a node that has left comes to, by what is listed.
unfoldable pub Forgets : Str → Result (List NetworkObject) → Outcome × Calls → Type 0
Forgets node_name (err e) r = (r.0 ≡ failing e) × (updates r.1 ≡ []) × (others r.1 ≡ 0)
Forgets node_name (ok os) r =
    (r.0 ≡ finished) × (updates r.1 ≡ forgotten node_name os) × (others r.1 ≡ 0)

module _ (env : NodeEnv) (node_name : Str) where
  detach_networks-forgets :
      (os : List NetworkObject) (t : Calls)
      → let r = detach_networks env node_name os t in
        (r.0 ≡ finished)
        × (updates r.1 ≡ updates t ++ forgotten node_name os)
        × (others r.1 ≡ others t)
  unfolding detach_networks detach_network forget_attachment forgotten updates others
  detach_networks-forgets [] t = (refl, sym (append-nil (updates t)), refl)
  detach_networks-forgets (o ∷ os) t = elim (Option-cases (lookup node_name (attachments_of o))) [
    | inl e ↦ rw e (detach_networks-forgets os t)
    | inr (id, e) ↦
        let o' = with_attachments o (erase node_name (attachments_of o)) in
        let t' = update o' (env.network.on_update o' t) ∷ t in
        let (ended, written, same) = detach_networks-forgets os t' in
        rw e (ended, written ∙ append_assoc (updates t) (o' ∷ []) (forgotten node_name os), same)
  ]

  detach_listed-Forgets :
      (r : Result (List NetworkObject)) → Forgets node_name r (detach_listed env node_name r [])
  unfolding detach_listed Forgets updates others
  detach_listed-Forgets (err e) = (refl, refl, refl)
  detach_listed-Forgets (ok os) = detach_networks-forgets os []

-- The run for a node that has left lists the networks of both kinds. Where the first listing fails,
-- it ends with its error, and makes no call. Else it ends without a further run, and its calls are
-- the updates, in order, of those listed objects whose annotation has the node, each with an
-- annotation from which the node's entry is erased: no VLAN attachment is deleted.
pub reconcile-missing :
    (env : NodeEnv) (node_name : Str)
    → Forgets node_name
        (join_lists objects (env.list_cudns []) (env.list_udns []))
        (reconcile env node_name missing [])
unfolding reconcile reconcile_delete list_all_networks
reconcile-missing env node_name =
    detach_listed-Forgets env node_name (join_lists objects (env.list_cudns []) (env.list_udns []))
