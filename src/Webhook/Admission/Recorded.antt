-- ===== src/Webhook/Admission/Recorded.antt =====
-- What the interfaces of an admitted machine say of the attachments that were created for it.
use roks_vpc_cni.Base.{
  All, ◌≡◌, refl, sym, ap, ◌∙◌, inl, inr, Bool-cases, Bool, true, false, Option, none, some, List,
  [], ◌∷◌, ◌++◌, append_assoc, append-nil, arith, if◌then◌else◌,
}
use roks_vpc_cni.Text.{Str, codes, str_eq, str_eq_iff}
use roks_vpc_cni.Dict.{Dict, get}
use roks_vpc_cni.Controllers.Effects.{Result, ok, err}
use roks_vpc_cni.Controllers.Machines.{VmInterface}
use roks_vpc_cni.Webhook.Json.{Json, Fields, empty, field, get_key, change_key, set_nested_field}
use roks_vpc_cni.Webhook.Networks.{MultusNet, NetworkInfo, is_local_net, is_layer2}
use roks_vpc_cni.Webhook.Admission.{
  Request, VmAttachment, NewFip, create_attachment, create_fip, Calls, WebhookEnv, Progress, Step,
  go, stop, on_step, bare_entry, with_attachment, with_fip, push_entry, with_address,
  pick_bm_server, attachment_options, after_pick, ensure_vni_attachment, fip_options, wants_fip,
  after_ensure, attach_local_net, add_overlay, after_resolve, process_network, process_networks,
}

-- The server, the attachment and the VNI.
abbrev pub Ids : Type 0
Ids = Str × (Str × Str)

abbrev pub ids_of : VmAttachment → Ids
ids_of a = (a.bm_server_id, (a.attachment_id, a.vni_id))

-- The attachments created, in their order.
unfoldable pub created : Calls → List Ids
created [] = []
created (create_attachment q (ok a) ∷ t) = created t ++ ids_of a ∷ []
created (create_attachment q (err e) ∷ t) = created t
created (create_fip q r ∷ t) = created t

-- Those that the LocalNet interfaces name.
unfoldable pub held : VmInterface → List Ids
held i =
    if str_eq i.topology (codes "LocalNet")
    then (i.bm_server_id, (i.attachment_id, i.vni_id)) ∷ []
    else []

unfoldable pub named : List VmInterface → List Ids
named [] = []
named (i ∷ is) = held i ++ named is

named-push : (is : List VmInterface) (i : VmInterface) → named (is ++ i ∷ []) ≡ named is ++ held i
unfolding named
named-push [] i = append-nil (held i)
named-push (j ∷ is) i =
    ap (λ ids. held j ++ ids) (named-push is i) ∙ sym (append_assoc (held j) (named is) (held i))

held-with_fip : (r : Result NewFip) (i : VmInterface) → held (with_fip r i) ≡ held i
unfolding with_fip held
held-with_fip (ok f) i = refl
held-with_fip (err e) i = refl

-- The path of the interface starts in the specification.
abbrev pub IsInSpec : MultusNet → Type 0
IsInSpec mn = (rest : List Str) × (mn.path ≡ codes "spec" ∷ rest)

-- The interfaces name what was created, and the machine's metadata is what it was.
abbrev pub Agrees : Option Json → Progress → Calls → Type 0
Agrees m p t = (named p.interfaces ≡ created t) × (get_key (codes "metadata") p.vm ≡ m)

-- After a step that goes on.
abbrev pub Named : Option Json → Step × Calls → Type 0
Named m (stop code, t) = Unit
Named m (go p, t) = Agrees m p t

get_key-change_key :
    (f : Json → Json) (k j : Str) (fs : Fields)
    → str_eq k j ≡ false
    → get_key j (change_key f k fs) ≡ get_key j fs
unfolding get_key change_key
get_key-change_key f k j empty e = refl
get_key-change_key f k j (field i v fs) e =
    ground (arith, str_eq_iff i k, str_eq_iff i j, str_eq_iff k j, e, get_key-change_key f k j fs e)

metadata-with_address :
    (mn : MultusNet) (a : VmAttachment) (p : Progress)
    → IsInSpec mn
    → get_key (codes "metadata") (with_address mn a p).vm ≡ get_key (codes "metadata") p.vm
unfolding with_address set_nested_field
metadata-with_address mn a p (rest, e) =
    rw e (get_key-change_key _ (codes "spec") (codes "metadata") p.vm (unfold str_eq in refl))

push-Named :
    (p : Progress) (i : VmInterface) (t : Calls) (ids : List Ids)
    → held i ≡ ids
    → created t ≡ named p.interfaces ++ ids
    → named (push_entry p i).interfaces ≡ created t
unfolding push_entry
push-Named p i t ids e made =
    named-push p.interfaces i ∙ (ap (λ x. named p.interfaces ++ x) e ∙ sym made)

held-attached :
    (a : VmAttachment) (mn : MultusNet) (info : NetworkInfo)
    → is_local_net info ≡ true
    → held (with_attachment a (bare_entry mn info)) ≡ ids_of a ∷ []
unfolding held with_attachment bare_entry
held-attached a mn info local = rw local refl

interfaces-with_address :
    (mn : MultusNet) (a : VmAttachment) (p : Progress)
    → (with_address mn a p).interfaces ≡ p.interfaces
unfolding with_address
interfaces-with_address mn a p = refl

-- An entry for an attachment just created.
attached-Agrees :
    (m : Option Json) (mn : MultusNet) (a : VmAttachment) (p : Progress) (i : VmInterface)
    (t t' : Calls)
    → IsInSpec mn
    → held i ≡ ids_of a ∷ []
    → Agrees m p t
    → created t' ≡ created t ++ ids_of a ∷ []
    → Agrees m (push_entry (with_address mn a p) i) t'
unfolding push_entry
attached-Agrees m mn a p i t t' below e (h, kept) made = (
  push-Named (with_address mn a p) i t' (ids_of a ∷ []) e (
      made
      ∙ ap (λ ids. ids ++ ids_of a ∷ []) (sym h ∙ ap named (sym (interfaces-with_address mn a p)))),
  metadata-with_address mn a p below ∙ kept,
)

module _ (m : Option Json) (env : WebhookEnv) (req : Request) (multi : Bool)
    (annots : Dict Str) where
  after_ensure-Named :
      (mn : MultusNet) (p : Progress) (info : NetworkInfo) (net_annots : Dict Str) (q : _)
      (r : Result VmAttachment) (t : Calls)
      → is_local_net info ≡ true
      → IsInSpec mn
      → Agrees m p t
      → Named m
          (after_ensure env req multi annots mn p info net_annots r (create_attachment q r ∷ t))
  unfolding after_ensure
  after_ensure-Named mn p info net_annots q (err e) t local below h = tt
  after_ensure-Named mn p info net_annots q (ok a) t local below h =
      let entry = with_attachment a (bare_entry mn info) in
      let t1 : Calls = create_attachment q (ok a) ∷ t in
      let made : created t1 ≡ created t ++ ids_of a ∷ [] = unfold created in refl in
      let o = fip_options env req multi net_annots a in
      let f = env.on_create_fip o t1 in
      elim (Bool-cases (wants_fip env req multi annots mn info)) [
        | inl w ↦ rw w (
            attached-Agrees m mn a p (with_fip f entry) t (create_fip o f ∷ t1) below
              (held-with_fip f entry ∙ held-attached a mn info local) h (unfold created in refl))
        | inr w ↦
            rw w (attached-Agrees m mn a p entry t t1 below (held-attached a mn info local) h made)
      ]

  after_pick-Named :
      (mn : MultusNet) (p : Progress) (info : NetworkInfo) (net_annots : Dict Str)
      (picked : Option Str) (t : Calls)
      → is_local_net info ≡ true
      → IsInSpec mn
      → Agrees m p t
      → let r = after_pick env req multi info.name net_annots picked t in
        Named m (after_ensure env req multi annots mn p info net_annots r.0 r.1)
  unfolding after_pick
  after_pick-Named mn p info net_annots none t local below h = unfold after_ensure in tt
  after_pick-Named mn p info net_annots (some server) t local below h =
      let q = attachment_options env req multi server info.name net_annots in
      after_ensure-Named mn p info net_annots q (env.on_create_attachment q t) t local below h

  attach_local_net-Named :
      (mn : MultusNet) (p : Progress) (info : NetworkInfo) (net_annots : Dict Str) (t : Calls)
      → is_local_net info ≡ true
      → IsInSpec mn
      → Agrees m p t
      → Named m (attach_local_net env req multi annots mn p info net_annots t)
  unfolding attach_local_net ensure_vni_attachment
  attach_local_net-Named mn p info net_annots t local below h =
      let vpc_id = get (codes "vpc.roks.ibm.com/vpc-id") net_annots in
      elim (Bool-cases (str_eq (get (codes "vpc.roks.ibm.com/subnet-id") net_annots) [])) [
        | inl e ↦ rw e tt
        | inr e ↦ rw e (
            after_pick-Named mn p info net_annots
              (pick_bm_server (env.list_nodes t) vpc_id (env.list_servers vpc_id t)) t local below
              h)
      ]

  held-overlay :
      (mn : MultusNet) (info : NetworkInfo) (gateway : Str)
      → is_local_net info ≡ false
      → held (record (bare_entry mn info) { gateway = gateway }) ≡ []
  unfolding held bare_entry
  held-overlay mn info gateway e = rw e refl

  add_overlay-Named :
      (mn : MultusNet) (p : Progress) (info : NetworkInfo) (t : Calls)
      → is_local_net info ≡ false
      → Agrees m p t
      → Named m (add_overlay env req multi annots mn p info t)
  unfolding add_overlay bare_entry push_entry
  add_overlay-Named mn p info t overlay (h, kept) =
      let made = sym (append-nil (named p.interfaces) ∙ h) in
      elim (Bool-cases (is_layer2 info)) [
        | inl e ↦ rw e (push-Named p _ t [] (held-overlay mn info _ overlay) made, kept)
        | inr e ↦ rw e (push-Named p _ t [] (held-overlay mn info [] overlay) made, kept)
      ]

  after_resolve-Named :
      (mn : MultusNet) (p : Progress) (found : Option (NetworkInfo × Dict Str)) (t : Calls)
      → IsInSpec mn
      → Agrees m p t
      → Named m (after_resolve env req multi annots mn p found t)
  unfolding after_resolve
  after_resolve-Named mn p none t below h = tt
  after_resolve-Named mn p (some (info, net_annots)) t below h =
      elim (Bool-cases (is_local_net info)) [
        | inl e ↦ rw e (attach_local_net-Named mn p info net_annots t e below h)
        | inr e ↦ rw e (add_overlay-Named mn p info t e h)
      ]

  on_step-Named :
      (k : Progress → Calls → Step × Calls)
      → ((p : Progress) (t : Calls) → Agrees m p t → Named m (k p t))
      → (s : Step) (t : Calls) → Named m (s, t)
      → Named m (on_step s k t)
  on_step-Named k hk (stop code) t h = tt
  on_step-Named k hk (go p) t h = hk p t h

  pub process_networks-Named :
      (mns : List MultusNet) (p : Progress) (t : Calls)
      → All IsInSpec mns
      → Agrees m p t
      → Named m (process_networks env req multi annots mns p t)
  unfolding process_networks process_network
  process_networks-Named [] p t below h = h
  process_networks-Named (mn ∷ mns) p t (below, rest) h =
      let r = process_network env req multi annots mn p t in
      on_step-Named (process_networks env req multi annots mns)
        (λ p' t' h'. process_networks-Named mns p' t' rest h') r.0 r.1
        (after_resolve-Named mn p _ t below h)
