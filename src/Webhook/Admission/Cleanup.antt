-- ===== src/Webhook/Admission/Cleanup.antt =====
-- The admission of a machine and its deletion by the VM controller, together.
use roks_vpc_cni.Base.{
  ◌≡◌, ◌≢◌, refl, sym, ap, ◌∙◌, inl, inr, Bool-cases, true, false, ltb, length, Option, none, some,
  List, [], ◌∷◌, map, All, All-append,
}
use mathlib.Core.Path.{subst}
use roks_vpc_cni.Text.{Str, codes, str_eq, str_eq_ne, member}
use roks_vpc_cni.Dict.{Dict, get}
use roks_vpc_cni.Controllers.Machines.{
  VmInterface, Machine, MachineEnv, owned, interfaces_of, vm_cleanup,
}
use roks_vpc_cni.Controllers.Machines.Released.{Duty, attachment, duty_of, duties, duties_by}
use roks_vpc_cni.Webhook.Json.{Json, Fields, get_nested_string_slice, as_object}
use roks_vpc_cni.Webhook.Networks.{
  MultusNet, multus_name, entry_at, named_entries, entries_of, collect_entries,
  find_all_multus_networks,
}
use roks_vpc_cni.Webhook.Admission.{
  Request, Calls, WebhookEnv, Response, allowed, errored, patched, Progress, Step, go, stop,
  metadata, process_networks, patch_machine, respond, finish, annotations_of, start,
  handle_networks, handle_decoded, handle,
}
use roks_vpc_cni.Webhook.Admission.Recorded.{
  Ids, created, held, named, IsInSpec, Named, process_networks-Named,
}
use roks_vpc_cni.Webhook.Admission.Patched.{HasMetadata, patch_machine-carries}

entry_at-IsInSpec : (ref name : Str) (i : Option _) → All IsInSpec (entry_at ref name i)
unfolding entry_at
entry_at-IsInSpec ref name none = tt
entry_at-IsInSpec ref name (some i) = ((_, refl), tt)

named_entries-IsInSpec :
    (ifaces : List Json) (net : Fields) (ref : Option Str)
    → All IsInSpec (named_entries ifaces net ref)
unfolding named_entries
named_entries-IsInSpec ifaces net none = tt
named_entries-IsInSpec ifaces net (some ref) = entry_at-IsInSpec ref _ _

entries_of-IsInSpec :
    (ifaces : List Json) (net : Option Fields) → All IsInSpec (entries_of ifaces net)
unfolding entries_of
entries_of-IsInSpec ifaces none = tt
entries_of-IsInSpec ifaces (some net) = named_entries-IsInSpec ifaces net (multus_name net)

collect_entries-IsInSpec : (ifaces nets : List Json) → All IsInSpec (collect_entries ifaces nets)
unfolding collect_entries
collect_entries-IsInSpec ifaces [] = tt
collect_entries-IsInSpec ifaces (v ∷ vs) =
    All-append IsInSpec (entries_of ifaces (as_object (some v))) (collect_entries ifaces vs)
      (entries_of-IsInSpec ifaces (as_object (some v))) (collect_entries-IsInSpec ifaces vs)

-- A patch carries interfaces that name what was created.
abbrev Carries : WebhookEnv → Response × Calls → Type 0
Carries env (allowed, t) = Unit
Carries env (errored code, t) = Unit
Carries env (patched vm, t) =
    (is : List VmInterface) × (env.marshal_interfaces is
      ≡ some (get (codes "vpc.roks.ibm.com/network-interfaces") (annotations_of vm)))
    × (named is ≡ created t)
    × (member vm_cleanup (get_nested_string_slice metadata (codes "finalizers") vm) ≡ true)

module _ (env : WebhookEnv) (annots : Dict Str) (ms : Fields) where
  respond-Carries :
      (p : Progress) (text : Option Str) (t : Calls)
      → HasMetadata p.vm ms
      → env.marshal_interfaces p.interfaces ≡ text
      → named p.interfaces ≡ created t
      → Carries env (respond env annots p text, t)
  unfolding respond
  respond-Carries p none t h e same = tt
  respond-Carries p (some text) t h e same =
      let vm = patch_machine annots text p in
      let (carried, protected) = patch_machine-carries annots text p ms h in
      elim (Bool-cases (env.marshals vm)) [
        | inl m ↦ rw m (p.interfaces, e ∙ ap some (sym carried), same, protected)
        | inr m ↦ rw m tt
      ]

  finish-Carries :
      (s : Step) (t : Calls)
      → Named (some (Json.object ms)) (s, t)
      → Carries env (finish env annots s, t)
  unfolding finish
  finish-Carries (stop code) t h = tt
  finish-Carries (go p) t (same, kept) =
      respond-Carries p (env.marshal_interfaces p.interfaces) t kept refl same

module _ (env : WebhookEnv) (req : Request) (vm ms : Fields) (h : HasMetadata vm ms) where
  handle_networks-Carries :
      (mns : List MultusNet) → All IsInSpec mns → Carries env (handle_networks env req vm mns [])
  unfolding handle_networks
  handle_networks-Carries [] below = tt
  handle_networks-Carries (mn ∷ mns) below =
      let annots = annotations_of vm in
      let multi = ltb 1 (length (mn ∷ mns)) in
      let r = process_networks env req multi annots (mn ∷ mns) (start vm) [] in
      finish-Carries env annots ms r.0 r.1 (
        process_networks-Named (some (Json.object ms)) env req multi annots (mn ∷ mns) (start vm) []
          below (unfold named created in refl, h))

  decoded-Carries :
      (decoded : Option Fields)
      → decoded ≡ some vm
      → Carries env (handle_decoded env req decoded [])
  unfolding handle_decoded find_all_multus_networks
  decoded-Carries decoded e =
      rw e (handle_networks-Carries (find_all_multus_networks vm) (collect_entries-IsInSpec _ _))

  handle-Carries : req.object ≡ some vm → Carries env (handle env req [])
  unfolding handle
  handle-Carries e = elim (Bool-cases (str_eq req.operation (codes "CREATE"))) [
    | inl c ↦ rw c (decoded-Carries req.object e)
    | inr c ↦ rw c tt
  ]

-- All three ids are given.
abbrev pub HasIds : Ids → Type 0
HasIds (server, (id, vni)) = (server ≢ []) × ((id ≢ []) × (vni ≢ []))

abbrev pub duty_for : Ids → Duty
duty_for (server, (id, vni)) = attachment server id

module _ (i : VmInterface) (is : List VmInterface) where
  named_local :
      str_eq i.topology (codes "LocalNet") ≡ true
      → named (i ∷ is) ≡ (i.bm_server_id, (i.attachment_id, i.vni_id)) ∷ named is
  unfolding named held
  named_local e = rw e refl

  named_other : str_eq i.topology (codes "LocalNet") ≡ false → named (i ∷ is) ≡ named is
  unfolding named held
  named_other e = rw e refl

  duties_local :
      str_eq i.topology (codes "LocalNet") ≡ true
      → HasIds (i.bm_server_id, (i.attachment_id, i.vni_id))
      → duties (i ∷ is) ≡ attachment i.bm_server_id i.attachment_id ∷ duties is
  unfolding duties owned duty_of
  duties_local e (s, (a, v)) = rw e (
      rw (str_eq_ne i.bm_server_id [] s)
        (rw (str_eq_ne i.attachment_id [] a) (rw (str_eq_ne i.vni_id [] v) refl)))

  duties_other : str_eq i.topology (codes "LocalNet") ≡ false → duties (i ∷ is) ≡ duties is
  unfolding duties owned
  duties_other e = rw e refl

duties-named : (is : List VmInterface) → All HasIds (named is) → duties is ≡ map duty_for (named is)
unfolding duties named
duties-named [] h = refl
duties-named (i ∷ is) h = elim (Bool-cases (str_eq i.topology (codes "LocalNet"))) [
  | inl e ↦
      let (given, rest) = rw (named_local i is e) at h in
      duties_local i is e given
      ∙ (ap (λ ds. attachment i.bm_server_id i.attachment_id ∷ ds) (duties-named is rest)
          ∙ ap (map duty_for) (sym (named_local i is e)))
  | inr e ↦
      duties_other i is e
      ∙ (duties-named is (rw (named_other i is e) at h)
          ∙ ap (map duty_for) (sym (named_other i is e)))
]

-- Where the annotation of a machine is the text of some interfaces, they are found.
interfaces_found :
    (menv : MachineEnv) (o : Machine) (is : List VmInterface)
    → o.annotations.network_interfaces ≢ []
    → menv.parse_interfaces o.annotations.network_interfaces ≡ some is
    → interfaces_of menv o ≡ some is
unfolding interfaces_of
interfaces_found menv o is given parsed =
    rw (str_eq_ne o.annotations.network_interfaces [] given) parsed

-- Where the webhook admits a machine with a patch and the VM controller later deletes a machine with
-- the patch's annotation, what is due before its finalizer goes is exactly the attachments that the
-- webhook created, in their order; and the patch has the finalizer. The metadata of the machine are
-- an object, the VPC interface gives ids to what it creates, and the text of a list of interfaces is
-- not empty and is read as that list.
pub duties-handle :
    (env : WebhookEnv) (req : Request) (vm patch ms : Fields) (t : Calls) (menv : MachineEnv)
    (o : Machine)
    → req.object ≡ some vm
    → HasMetadata vm ms
    → handle env req [] ≡ (patched patch, t)
    → All HasIds (created t)
    → ((is : List VmInterface) (text : Str)
        → env.marshal_interfaces is ≡ some text
        → (text ≢ []) × (menv.parse_interfaces text ≡ some is))
    → o.annotations.network_interfaces
      ≡ get (codes "vpc.roks.ibm.com/network-interfaces") (annotations_of patch)
    → (duties_by o (interfaces_of menv o) ≡ map duty_for (created t))
      × (member vm_cleanup (get_nested_string_slice metadata (codes "finalizers") patch) ≡ true)
unfolding duties_by
duties-handle env req vm patch ms t menv o decoded h admitted ids reads kept =
    let (is, marshalled, same, protected) =
      subst (Carries env) admitted (handle-Carries env req vm ms h decoded) in
    let (given, parsed) = reads is _ marshalled in
    (
      ap (duties_by o) (
            interfaces_found menv o is (λ e. given (sym kept ∙ e))
              (ap menv.parse_interfaces kept ∙ parsed))
          ∙ (duties-named is (subst (All HasIds) (sym same) ids) ∙ ap (map duty_for) same),
      protected,
    )
