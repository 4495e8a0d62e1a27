-- ===== src/Controllers/Definitions/Released.antt =====
-- When a network is let go: what has been deleted before its finalizer is removed.
use roks_vpc_cni.Base.{
  ℕ, ◌≤◌, ◌≡◌, refl, ◌∙◌, ◌⊎◌, inl, inr, Bool-cases, Option-cases, ltb, Bool, true, false, Option,
  none, List, [], ◌∷◌, arith,
}
use roks_vpc_cni.Text.{Str, str_eq}
use roks_vpc_cni.Dict.{Dict}
use roks_vpc_cni.Controllers.Effects.{Result, ok, err}
use roks_vpc_cni.Network.Objects.{
  NetworkObject, update, create_subnet, delete_subnet, allow_vlan, create_attachment,
  delete_attachment, create_resource, update_resource_status, metric, create_nncp, delete_nncp,
  event, ReservedIp, Calls, NetworkEnv,
}
use roks_vpc_cni.Network.Servers.{build_bm_server_map, resolve_node_bm_server_id}
use roks_vpc_cni.Network.Subnets.{
  is_not_found, count_active, subnet_has_active_vnis, delete_vpc_subnet,
}
use roks_vpc_cni.Network.Attachments.{parse_attachments}
use roks_vpc_cni.Network.Vlans.{or_by_hostname, detach_nodes, delete_vlan_attachments}
use roks_vpc_cni.Network.Vlans.Deleted.{IsClean, delete_vlan_attachments-IsClean}
use roks_vpc_cni.Controllers.Definitions.{
  Setting, after_active, remove_subnet, reconcile_delete_local_net,
}

-- The API server was asked to write the network.
unfoldable pub written : Calls → Bool
written [] = false
written (update o e ∷ t) = true
written (create_subnet q r ∷ t) = written t
written (delete_subnet s e ∷ t) = written t
written (allow_vlan s v e ∷ t) = written t
written (create_attachment q r ∷ t) = written t
written (delete_attachment s id e ∷ t) = written t
written (create_resource v e ∷ t) = written t
written (update_resource_status v s e ∷ t) = written t
written (metric op b ∷ t) = written t
written (create_nncp q r ∷ t) = written t
written (delete_nncp s ∷ t) = written t
written (event s ∷ t) = written t

module _ (env : NetworkEnv) (servers : Option (Dict Str)) where
  detach_nodes-written :
      (m : Dict Str) (t : Calls) → written (detach_nodes env servers m t).1 ≡ written t
  unfolding detach_nodes
  detach_nodes-written [] t = refl
  detach_nodes-written ((n, id) ∷ m) t =
      let bm = or_by_hostname servers n (resolve_node_bm_server_id (env.get_node n t)) in
      elim (Bool-cases (str_eq bm [])) [
        | inl e ↦ rw e (detach_nodes-written m t)
        | inr e ↦
            let answer = env.on_delete_attachment bm id t in
            let t' : Calls = delete_attachment bm id answer ∷ t in
            let same : written t' ≡ written t = unfold written in refl in
            rw e (elim (Option-cases answer) [
              | inl f ↦ rw f (rw f at (detach_nodes-written m t' ∙ same))
              | inr (s, f) ↦ rw f (elim (Bool-cases (is_not_found s)) [
                | inl g ↦ rw g (rw f at (detach_nodes-written m t' ∙ same))
                | inr g ↦ rw g (rw f at same)
              ])
            ])
      ]

delete_vlan_attachments-written :
    (env : NetworkEnv) (o : NetworkObject) → written (delete_vlan_attachments env o []).1 ≡ false
unfolding delete_vlan_attachments written
delete_vlan_attachments-written env o =
    elim (Bool-cases (str_eq o.annotations.vlan_attachments [])) [
      | inl e ↦ rw e refl
      | inr e ↦ rw e (
          detach_nodes-written env
            (build_bm_server_map o.annotations.vpc_id (env.list_servers o.annotations.vpc_id []))
            (parse_attachments o.annotations.vlan_attachments) [])
    ]

-- The subnet is no concern any more: there is none, or addresses in it are in use by others, or
-- DeleteVPCSubnet reports success.
abbrev pub SubnetSettled : NetworkEnv → NetworkObject → Calls → Type 0
SubnetSettled env o t =
    (str_eq o.annotations.subnet_id [] ≡ true)
    ⊎ ((rs : List ReservedIp) × (env.list_reserved_ips o.annotations.subnet_id t ≡ ok rs)
        × ((1 ≤ count_active rs) ⊎ ((delete_vpc_subnet env o t).0 ≡ none)))

module _ (x : Setting) (env : NetworkEnv) (o : NetworkObject) where
  delete_vpc_subnet-written : (t : Calls) → written (delete_vpc_subnet env o t).1 ≡ written t
  unfolding delete_vpc_subnet written
  delete_vpc_subnet-written t = elim (Bool-cases (str_eq o.annotations.subnet_id [])) [
    | inl e ↦ rw e refl
    | inr e ↦ rw e (elim (Option-cases (env.on_delete_subnet o.annotations.subnet_id t)) [
      | inl f ↦ rw f refl
      | inr (m, f) ↦ rw f refl
    ])
  ]

  -- What let the run go on behind the check of the subnet.
  abbrev WentOn : Result (Bool × ℕ) → Calls → Type 0
  WentOn (err e) t = ⊥
  WentOn (ok (true, n)) t = Unit
  WentOn (ok (false, n)) t = (delete_vpc_subnet env o t).0 ≡ none

  after_active-WentOn :
      (r : Result (Bool × ℕ)) (t : Calls)
      → written t ≡ false
      → written (after_active x env o r t).1 ≡ true
      → WentOn r t
  unfolding after_active
  after_active-WentOn (err e) t quiet h = absurd (cc (quiet, h))
  after_active-WentOn (ok (true, n)) t quiet h = tt
  after_active-WentOn (ok (false, n)) t quiet h =
      elim (Option-cases (delete_vpc_subnet env o t).0) [
        | inl e ↦ e
        | inr (m, e) ↦ absurd (cc (rw e at h, delete_vpc_subnet-written t, quiet))
      ]

  -- The answer of SubnetHasActiveVNIs, by the addresses listed.
  active_WentOn :
      (listed : Result (List ReservedIp)) (t : Calls)
      → env.list_reserved_ips o.annotations.subnet_id t ≡ listed
      → WentOn (subnet_has_active_vnis env o.annotations.subnet_id t).0 t
      → (rs : List ReservedIp) × (env.list_reserved_ips o.annotations.subnet_id t ≡ ok rs)
        × ((1 ≤ count_active rs) ⊎ ((delete_vpc_subnet env o t).0 ≡ none))
  unfolding subnet_has_active_vnis
  active_WentOn (err e) t f went = absurd (rw f at went)
  active_WentOn (ok rs) t f went = (
    rs,
    f,
    elim (Bool-cases (ltb 0 (count_active rs))) [
      | inl g ↦ inl (ground (arith, g))
      | inr g ↦ inr (rw g at (rw f at went))
    ],
  )

  remove_subnet-Settled :
      (t : Calls)
      → written t ≡ false
      → written (remove_subnet x env o t).1 ≡ true
      → SubnetSettled env o t
  unfolding remove_subnet subnet_has_active_vnis
  remove_subnet-Settled t quiet h = elim (Bool-cases (str_eq o.annotations.subnet_id [])) [
    | inl e ↦ inl e
    | inr e ↦ inr (
        active_WentOn (env.list_reserved_ips o.annotations.subnet_id t) t refl (
          after_active-WentOn (subnet_has_active_vnis env o.annotations.subnet_id t).0 t quiet
            (rw e at h)))
  ]

-- A deletion run on a LocalNet network asks the API server to write the object only if
-- DeleteVLANAttachments reports success, each deletion of an attachment that it asked for succeeded
-- or found none, and behind it the subnet is settled: there is none, or addresses in it are listed as
-- in use by others, or DeleteVPCSubnet reports success.
pub written-SubnetSettled :
    (x : Setting) (env : NetworkEnv) (o : NetworkObject)
    → written (reconcile_delete_local_net x env o []).1 ≡ true
    → let r = delete_vlan_attachments env o [] in
      (r.0 ≡ none) × (IsClean r.1) × (SubnetSettled env o r.1)
unfolding reconcile_delete_local_net
written-SubnetSettled x env o h =
    let quiet = delete_vlan_attachments-written env o in
    let t = (delete_vlan_attachments env o []).1 in
    elim (Option-cases (delete_vlan_attachments env o []).0) [
      | inl e ↦ (
        e,
        delete_vlan_attachments-IsClean env o e,
        remove_subnet-Settled x env o t quiet (rw e at h),
      )
      | inr (m, e) ↦ absurd (cc (rw e at h, quiet))
    ]
