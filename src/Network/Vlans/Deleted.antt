-- ===== src/Network/Vlans/Deleted.antt =====
-- What DeleteVLANAttachments reports.
use roks_vpc_cni.Base.{◌≡◌, inl, inr, true, Option, none, some, [], ◌∷◌, Bool-cases}
use roks_vpc_cni.Text.{Str, str_eq}
use roks_vpc_cni.Dict.{Dict}
use roks_vpc_cni.Controllers.Effects.{pure, branch, branch_rule, on_error}
use roks_vpc_cni.Network.Objects.{NetworkObject, Calls, delete_attachment, NetworkEnv}
use roks_vpc_cni.Network.Attachments.{parse_attachments}
use roks_vpc_cni.Network.Servers.{resolve_node_bm_server_id, build_bm_server_map}
use roks_vpc_cni.Network.Subnets.{is_not_found}
use roks_vpc_cni.Network.Vlans.{or_by_hostname, detach_nodes, delete_vlan_attachments}

-- Every deletion of an attachment succeeded or found nothing to delete.
unfoldable pub IsClean : Calls → Type 0
IsClean [] = Unit
IsClean (delete_attachment bm id none ∷ t) = IsClean t
IsClean (delete_attachment bm id (some e) ∷ t) = (is_not_found e ≡ true) × IsClean t
IsClean (_ ∷ t) = IsClean t

abbrev Reports : Option Str × Calls → Type 0
Reports r = r.0 ≡ none → IsClean r.1

module _ (env : NetworkEnv) (servers : Option (Dict Str)) where
  -- What follows a deletion, by its answer.
  after_detach : Dict Str → Str → Str → Calls → Option Str → Option Str × Calls
  after_detach m bm id t e =
      on_error e (λ s. branch (is_not_found s) (detach_nodes env servers m) (pure (some s)))
        (detach_nodes env servers m) (delete_attachment bm id e ∷ t)

  after_detach-Reports :
      (m : Dict Str) (bm id : Str) (t : Calls) (e : Option Str)
      → IsClean t
      → ((t' : Calls) → IsClean t' → Reports (detach_nodes env servers m t'))
      → Reports (after_detach m bm id t e)
  unfolding after_detach
  after_detach-Reports m bm id t none clean rest =
      rest (delete_attachment bm id none ∷ t) (unfold IsClean in clean)
  after_detach-Reports m bm id t (some e) clean rest = elim (Bool-cases (is_not_found e)) [
    | inl f ↦ rw f (rest (delete_attachment bm id (some e) ∷ t) (unfold IsClean in (f, clean)))
    | inr f ↦ rw f (λ p. absurd (cc))
  ]

  detach_nodes-Reports :
      (m : Dict Str) (t : Calls) → IsClean t → Reports (detach_nodes env servers m t)
  unfolding detach_nodes after_detach
  detach_nodes-Reports [] t clean = λ p. clean
  detach_nodes-Reports ((n, id) ∷ m) t clean =
      let bm = or_by_hostname servers n (resolve_node_bm_server_id (env.get_node n t)) in
      branch_rule Reports (str_eq bm []) (detach_nodes env servers m)
        (λ t. after_detach m bm id t (env.on_delete_attachment bm id t)) t
        (detach_nodes-Reports m t clean)
        (after_detach-Reports m bm id t (env.on_delete_attachment bm id t) clean
          (detach_nodes-Reports m))

-- Where DeleteVLANAttachments reports success, each deletion that it asked for succeeded, or failed
-- because the attachment was gone.
pub delete_vlan_attachments-IsClean :
    (env : NetworkEnv) (o : NetworkObject)
    → (delete_vlan_attachments env o []).0 ≡ none
    → IsClean (delete_vlan_attachments env o []).1
unfolding delete_vlan_attachments
delete_vlan_attachments-IsClean env o =
    let servers : Calls → Option (Dict Str) =
      λ t. build_bm_server_map o.annotations.vpc_id (env.list_servers o.annotations.vpc_id t) in
    let m = parse_attachments o.annotations.vlan_attachments in
    branch_rule Reports (str_eq o.annotations.vlan_attachments []) (pure none)
      (λ t. detach_nodes env (servers t) m t) [] (unfold IsClean in λ p. tt)
      (detach_nodes-Reports env (servers []) m [] (unfold IsClean in tt))
