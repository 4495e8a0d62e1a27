-- ===== src/Network/Vlans/Stored.antt =====
-- The annotation that EnsureVLANAttachments leaves.
use roks_vpc_cni.Base.{
  ◌≡◌, refl, ◌∙◌, inl, inr, Option, none, some, List, [], ◌∷◌, arith, All, Option-cases,
}
use roks_vpc_cni.Text.{Str, str_eq}
use roks_vpc_cni.Dict.{Dict, lookup}
use roks_vpc_cni.Controllers.Effects.{Result, ok, err, pure, branch_rule, ◌>>=◌, ◌>>◌, on_error}
use roks_vpc_cni.Controllers.Logged.{read}
use roks_vpc_cni.Network.Objects.{
  NetworkObject, CreateAttachmentOptions, VlanAttachment, Calls, update, create_attachment,
  allow_vlan, NetworkEnv, stored,
}
use roks_vpc_cni.Network.Attachments.{parse_attachments}
use roks_vpc_cni.Network.Attachments.RoundTrip.{
  IsPlain, IsSerializable, insert-IsSerializable, lookup-parse-serialize,
}
use roks_vpc_cni.Network.Servers.{
  Node, extract_bm_server_id, resolve_node_provider_id, build_bm_server_map,
}
use roks_vpc_cni.Network.Vlans.Kept.{attach_nodes_grow}
use roks_vpc_cni.Network.Vlans.{
  Scope, or_by_hostname, resource_of, publish, attachment_options, after_attach, after_allow,
  attach, attach_node, attach_nodes, with_attachments, scope_of, backfill, backfill_missing,
  resource_name, attach_all, after_nodes, ensure_vlan_attachments,
}

-- Every id that the VPC interface gives to an attachment makes a plain entry with the name.
abbrev pub PlainFor : NetworkEnv → Str → Type 0
PlainFor env name =
    (q : CreateAttachmentOptions) (t : Calls) (id : Str)
    → env.on_create_attachment q t ≡ ok id
    → IsPlain (name, id)

abbrev Plain : Dict Str × Calls → Type 0
Plain r = IsSerializable r.0

module _ (env : NetworkEnv) (x : Scope) where
  after_attach-Plain :
      (n bm : Str) (m : Dict Str) (r : Result Str) (t : Calls)
      → lookup n m ≡ none
      → ((id : Str) → r ≡ ok id → IsPlain (n, id))
      → IsSerializable m
      → Plain (after_attach env x n bm m r t)
  unfolding after_attach
  after_attach-Plain n bm m (err e) t fresh plain h = h
  after_attach-Plain n bm m (ok id) t fresh plain h =
      insert-IsSerializable n id m fresh (plain id refl) h

  after_allow-Plain :
      (n bm : Str) (m : Dict Str) (e : Option Str) (t : Calls)
      → lookup n m ≡ none
      → PlainFor env n
      → IsSerializable m
      → Plain (after_allow env x n bm m e t)
  unfolding after_allow
  after_allow-Plain n bm m (some e) t fresh plain h = h
  after_allow-Plain n bm m none t fresh plain h =
      let q = attachment_options x bm in
      let r = env.on_create_attachment q t in
      after_attach-Plain n bm m r (create_attachment q r ∷ t) fresh (plain q t) h

  attach_fresh-Plain :
      (node : Node) (m : Dict Str) (t : Calls)
      → lookup node.name m ≡ none
      → PlainFor env node.name
      → IsSerializable m
      → Plain (attach_node env x node m t)
  unfolding attach_node attach
  attach_fresh-Plain node m t fresh plain h =
      let id = or_by_hostname x.servers node.name (extract_bm_server_id node.provider_id) in
      let e = env.on_allow_vlan id x.vlan_id t in
      rw fresh (
        branch_rule Plain (str_eq id []) (pure m) (attach env x node.name id m) t h
          (after_allow-Plain node.name id m e (allow_vlan id x.vlan_id e ∷ t) fresh plain h))

  attach_node-Plain :
      (node : Node) (m : Dict Str) (t : Calls)
      → PlainFor env node.name
      → IsSerializable m
      → Plain (attach_node env x node m t)
  attach_node-Plain node m t plain h = elim (Option-cases (lookup node.name m)) [
    | inl e ↦ attach_fresh-Plain node m t e plain h
    | inr (v, e) ↦ unfold attach_node in rw e h
  ]

  attach_nodes-Plain :
      (nodes : List Node) (m : Dict Str) (t : Calls)
      → All (λ node. PlainFor env node.name) nodes
      → IsSerializable m
      → Plain (attach_nodes env x nodes m t)
  unfolding attach_nodes
  attach_nodes-Plain [] m t plain h = h
  attach_nodes-Plain (node ∷ nodes) m t plain h =
      attach_nodes-Plain nodes (attach_node env x node m t).0 (attach_node env x node m t).1 plain.1
        (attach_node-Plain node m t plain.0 h)

publish-stores :
    (env : NetworkEnv) (o : NetworkObject) (r : VlanAttachment) (id : Str) (t : Calls)
    → stored o (publish env r id t).1 ≡ stored o t
unfolding publish stored
publish-stores env o r id t = ground arith

backfill_missing-stores :
    (env : NetworkEnv) (x : Scope) (o : NetworkObject) (n id : Str) (r : Option VlanAttachment)
    (t : Calls)
    → stored o (backfill_missing env x n id r t).1 ≡ stored o t
unfolding backfill_missing
backfill_missing-stores env x o n id (some r) t = refl
backfill_missing-stores env x o n id none t =
    let node = env.get_node n t in
    let bm = or_by_hostname x.servers n (extract_bm_server_id (resolve_node_provider_id node)) in
    publish-stores env o (resource_of x bm n) id t

backfill-stores :
    (env : NetworkEnv) (x : Scope) (o : NetworkObject) (m : Dict Str) (t : Calls)
    → stored o (backfill env x m t).1 ≡ stored o t
unfolding backfill
backfill-stores env x o [] t = refl
backfill-stores env x o ((n, id) ∷ m) t =
    let r = env.get_resource (resource_name x n) t in
    backfill-stores env x o m (backfill_missing env x n id r t).1
    ∙ backfill_missing-stores env x o n id r t

-- Where there is no error, the stored annotation is that of a map which keeps all attachments.
abbrev Keeps : NetworkObject → (Option Str × NetworkObject) × Calls → Type 0
Keeps o r =
    r.0.0 ≡ none
    → (j v : Str) → lookup j (parse_attachments o.annotations.vlan_attachments) ≡ some v
    → lookup j (parse_attachments (stored o r.1).annotations.vlan_attachments) ≡ some v

module _ (env : NetworkEnv) (o : NetworkObject) where
  -- What follows the update, by its answer.
  after_update : Scope → Dict Str → Calls → Option Str → (Option Str × NetworkObject) × Calls
  after_update x m t e =
      on_error e (λ s. pure (some s, with_attachments o m))
        (do backfill env x m; pure (none, with_attachments o m))
        (update (with_attachments o m) e ∷ t)

  after_update-Keeps :
      (x : Scope) (m : Dict Str) (t : Calls) (e : Option Str)
      → IsSerializable m
      → ((j v : Str)
          → lookup j (parse_attachments o.annotations.vlan_attachments) ≡ some v
          → lookup j m ≡ some v)
      → Keeps o (after_update x m t e)
  unfolding after_update
  after_update-Keeps x m t (some s) h kept e j v found = absurd (cc)
  after_update-Keeps x m t none h kept e j v found =
      rw (backfill-stores env x o m (update (with_attachments o m) none ∷ t))
        (unfold stored in lookup-parse-serialize m j h ∙ kept j v found)

  attach_all-Keeps :
      (x : Scope) (nodes : List Node) (t : Calls)
      → All (λ node. PlainFor env node.name) nodes
      → IsSerializable (parse_attachments o.annotations.vlan_attachments)
      → Keeps o (attach_all env o x nodes t)
  unfolding attach_all after_update
  attach_all-Keeps x nodes t plain h =
      let m = parse_attachments o.annotations.vlan_attachments in
      let (m', t') = attach_nodes env x nodes m t in
      after_update-Keeps x m' t' (env.on_update (with_attachments o m') t')
        (attach_nodes-Plain env x nodes m t plain h) (attach_nodes_grow env x nodes m t).1

  after_nodes-Keeps :
      (r : Result (List Node)) (t : Calls)
      → ((nodes : List Node) → r ≡ ok nodes → All (λ node. PlainFor env node.name) nodes)
      → IsSerializable (parse_attachments o.annotations.vlan_attachments)
      → Keeps o (after_nodes env o r t)
  unfolding after_nodes
  after_nodes-Keeps (err m) t plain h = λ e j v found. absurd (cc)
  after_nodes-Keeps (ok nodes) t plain h =
      let servers =
        build_bm_server_map o.annotations.vpc_id (env.list_servers o.annotations.vpc_id t) in
      attach_all-Keeps (scope_of o servers) nodes t (plain nodes refl) h

-- Where EnsureVLANAttachments returns no error, every attachment that the annotation held before is
-- in the annotation that the API server holds afterwards. The annotation is a serializable map, and
-- the names of the listed nodes and the ids of the new attachments make plain entries.
pub ensure_vlan_attachments-Keeps :
    (env : NetworkEnv) (o : NetworkObject)
    → ((nodes : List Node) → env.list_nodes [] ≡ ok nodes → All (λ n. PlainFor env n.name) nodes)
    → IsSerializable (parse_attachments o.annotations.vlan_attachments)
    → (ensure_vlan_attachments env o []).0.0 ≡ none
    → (j v : Str) → lookup j (parse_attachments o.annotations.vlan_attachments) ≡ some v
    → lookup j (
        parse_attachments
          (stored o (ensure_vlan_attachments env o []).1).annotations.vlan_attachments)
      ≡ some v
unfolding ensure_vlan_attachments
ensure_vlan_attachments-Keeps env o plain h =
    branch_rule (Keeps o) (str_eq o.annotations.subnet_id []) (pure (none, o))
      (do nodes ← read env.list_nodes; after_nodes env o nodes) []
      (unfold stored in λ e j v found. found)
      (after_nodes-Keeps env o (env.list_nodes []) [] plain h)
