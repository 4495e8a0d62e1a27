-- ===== src/Network/Vlans/Kept.antt =====
-- What the loop of EnsureVLANAttachments does to the map of the attachments.
use roks_vpc_cni.Base.{
  ◌+◌, ◌≡◌, refl, inl, inr, true, Option, none, some, List, [], ◌∷◌, arith, length, Option-cases,
}
use roks_vpc_cni.Text.{Str, codes, str_eq, str_eq_iff}
use roks_vpc_cni.Dict.{Dict, lookup, insert, lookup-insert, length-insert}
use roks_vpc_cni.Controllers.Effects.{Result, ok, err, pure, branch_rule}
use roks_vpc_cni.Network.Objects.{
  Calls, create_attachment, allow_vlan, metric, NetworkEnv, attachments_created,
}
use roks_vpc_cni.Network.Servers.{Node, extract_bm_server_id}
use roks_vpc_cni.Network.Vlans.{
  Scope, or_by_hostname, resource_of, publish, attachment_options, after_attach, after_allow,
  attach, attach_node, attach_nodes,
}

-- From `t` and `m`, each attachment that is created adds an entry, and the entries of `m` stay.
abbrev pub Grew : Calls → Dict Str → Dict Str × Calls → Type 0
Grew t m r =
    (attachments_created r.1 + length m ≡ attachments_created t + length r.0)
    × ((j v : Str) → lookup j m ≡ some v → lookup j r.0 ≡ some v)

publish-creates :
    (env : NetworkEnv) (r : _) (id : Str) (t : Calls)
    → attachments_created (publish env r id t).1 ≡ attachments_created t
unfolding publish attachments_created
publish-creates env r id t = ground arith

insert-keeps :
    (k v : Str) (m : Dict Str)
    → lookup k m ≡ none
    → (j w : Str) → lookup j m ≡ some w
    → lookup j (insert k v m) ≡ some w
insert-keeps k v m fresh j w e = ground (arith, lookup-insert k j v m, str_eq_iff k j, fresh, e)

module _ (env : NetworkEnv) (x : Scope) where
  after_attach-Grew :
      (n bm : Str) (m : Dict Str) (q : _) (r : Result Str) (t : Calls)
      → lookup n m ≡ none
      → Grew t m (after_attach env x n bm m r (create_attachment q r ∷ t))
  unfolding after_attach attachments_created
  after_attach-Grew n bm m q (err e) t fresh = (omega arith, λ j v h. h)
  after_attach-Grew n bm m q (ok id) t fresh = (
    ground (
      arith,
      publish-creates env (resource_of x bm n) id
          (metric (codes "create_vlan_attachment") true ∷ create_attachment q (ok id) ∷ t),
      length-insert n id m fresh,
    ),
    insert-keeps n id m fresh,
  )

  after_allow-Grew :
      (n bm : Str) (m : Dict Str) (e : Option Str) (t : Calls)
      → lookup n m ≡ none
      → Grew t m (after_allow env x n bm m e t)
  unfolding after_allow attachments_created
  after_allow-Grew n bm m (some e) t fresh = (refl, λ j v h. h)
  after_allow-Grew n bm m none t fresh =
      let q = attachment_options x bm in
      after_attach-Grew n bm m q (env.on_create_attachment q t) t fresh

  attach-Grew :
      (n bm : Str) (m : Dict Str) (t : Calls) → lookup n m ≡ none → Grew t m (attach env x n bm m t)
  unfolding attach attachments_created
  attach-Grew n bm m t fresh =
      let e = env.on_allow_vlan bm x.vlan_id t in
      after_allow-Grew n bm m e (allow_vlan bm x.vlan_id e ∷ t) fresh

  attach_fresh-Grew :
      (node : Node) (m : Dict Str) (t : Calls)
      → lookup node.name m ≡ none
      → Grew t m (attach_node env x node m t)
  unfolding attach_node
  attach_fresh-Grew node m t fresh =
      let id = or_by_hostname x.servers node.name (extract_bm_server_id node.provider_id) in
      rw fresh (
        branch_rule (Grew t m) (str_eq id []) (pure m) (attach env x node.name id m) t
          (refl, λ j v h. h) (attach-Grew node.name id m t fresh))

  attach_node-Grew :
      (node : Node) (m : Dict Str) (t : Calls) → Grew t m (attach_node env x node m t)
  attach_node-Grew node m t = elim (Option-cases (lookup node.name m)) [
    | inl e ↦ attach_fresh-Grew node m t e
    | inr (v, e) ↦ unfold attach_node in rw e (refl, λ j v h. h)
  ]

  attach_nodes-Grew :
      (nodes : List Node) (m : Dict Str) (t : Calls) → Grew t m (attach_nodes env x nodes m t)
  unfolding attach_nodes
  attach_nodes-Grew [] m t = (refl, λ j v h. h)
  attach_nodes-Grew (node ∷ nodes) m t =
      let (m', t') = attach_node env x node m t in
      let one = attach_node-Grew node m t in
      let rest = attach_nodes-Grew nodes m' t' in
      (omega (arith, one.0, rest.0), λ j v h. rest.1 j v (one.1 j v h))

-- Whatever the interfaces answer, the loop over the nodes adds one entry to the map for each VLAN
-- attachment that it creates, and changes none of the entries that the map has.
pub attach_nodes_grow :
    (env : NetworkEnv) (x : Scope) (nodes : List Node) (m : Dict Str) (t : Calls)
    → let (m', t') = attach_nodes env x nodes m t in
      (attachments_created t' + length m ≡ attachments_created t + length m')
      × ((j v : Str) → lookup j m ≡ some v → lookup j m' ≡ some v)
attach_nodes_grow env x nodes m t = attach_nodes-Grew env x nodes m t
