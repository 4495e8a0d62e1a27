-- ===== src/Gc/References/Membership.antt =====
-- Which ids the sets of references hold, said without the loops that build them.
use roks_vpc_cni.Base.{◌≡◌, ◌≢◌, ◌↔◌, ◌⊎◌, true, Option, none, some, List, [], ◌∷◌, arith, Any}
use roks_vpc_cni.Text.{Str, codes, str_eq_iff}
use roks_vpc_cni.Dict.{Dict, lookup, get}
use roks_vpc_cni.Gc.World.{Json, text, items, other, Status, Env}
use roks_vpc_cni.Text.{member}
use roks_vpc_cni.Gc.References.{
  add_id, add_ids, add_text, add_status, add_statuses, add_listed, add_interfaces, add_vm, add_vms,
  add_listed_vms,
}

-- The status has the id as the text of a key.
abbrev pub StatusNames : Str → Str → Status → Type 0
StatusNames key id none = ⊥
StatusNames key id (some status) = lookup key status ≡ some (text id)

-- One of the listed statuses names the id; none does if the list call failed.
abbrev pub ListNames : Str → Str → Option (List Status) → Type 0
ListNames key id none = ⊥
ListNames key id (some ss) = Any (StatusNames key id) ss

module _ (id : Str) where
  pub member-add_id :
      (j : Str) (result : List Str)
      → (member id (add_id j result) ≡ true) ↔ ((member id result ≡ true) ⊎ ((id ≢ []) × (j ≡ id)))
  unfolding member
  member-add_id j result = ground (arith, str_eq_iff j [], str_eq_iff j id)

  member-add_text :
      (o : Option Json) (result : List Str)
      → (member id (add_text o result) ≡ true)
        ↔ ((member id result ≡ true) ⊎ ((id ≢ []) × (o ≡ some (text id))))
  member-add_text none result = ground arith
  member-add_text (some (text j)) result = ground (arith, member-add_id j result)
  member-add_text (some (items js)) result = ground arith
  member-add_text (some other) result = ground arith

  member-add_status :
      (key : Str) (s : Status) (result : List Str)
      → (member id (add_status key s result) ≡ true)
        ↔ ((member id result ≡ true) ⊎ ((id ≢ []) × StatusNames key id s))
  unfolding add_status
  member-add_status key none result = ground arith
  member-add_status key (some status) result = member-add_text (lookup key status) result

  member-add_statuses :
      (key : Str) (ss : List Status) (result : List Str)
      → (member id (add_statuses key ss result) ≡ true)
        ↔ ((member id result ≡ true) ⊎ ((id ≢ []) × Any (StatusNames key id) ss))
  unfolding add_statuses
  member-add_statuses key [] result = ground arith
  member-add_statuses key (s ∷ ss) result =
      ground (
        arith,
        member-add_statuses key ss (add_status key s result),
        member-add_status key s result,
      )

  pub member-add_listed :
      (key : Str) (ss : Option (List Status)) (result : List Str)
      → (member id (add_listed key ss result) ≡ true)
        ↔ ((member id result ≡ true) ⊎ ((id ≢ []) × ListNames key id ss))
  unfolding add_listed
  member-add_listed key none result = ground arith
  member-add_listed key (some ss) result = member-add_statuses key ss result

  member-add_ids :
      (ids result : List Str)
      → (member id (add_ids ids result) ≡ true)
        ↔ ((member id result ≡ true) ⊎ ((id ≢ []) × Any (λ j. j ≡ id) ids))
  member-add_ids [] result = ground arith
  member-add_ids (j ∷ ids) result =
      ground (arith, member-add_ids ids (add_id j result), member-add_id j result)

-- A network-interfaces annotation that is not empty and can be read holds the VNI id.
abbrev pub Interfaces : Str → Str → Option (List Str) → Type 0
Interfaces id raw none = ⊥
Interfaces id raw (some ids) = (raw ≢ []) × Any (λ j. j ≡ id) ids

-- A machine's annotations name the VNI: the one of a single network, or the network interfaces.
abbrev pub VmNames : Env → Str → Dict Str → Type 0
VmNames env id annots =
    let raw = get (codes "vpc.roks.ibm.com/network-interfaces") annots in
    (get (codes "vpc.roks.ibm.com/vni-id") annots ≡ id)
    ⊎ Interfaces id raw (env.unmarshal_vni_ids raw)

abbrev pub ListedVmNames : Env → Str → Option (List (Dict Str)) → Type 0
ListedVmNames env id none = ⊥
ListedVmNames env id (some vms) = Any (VmNames env id) vms

module _ (env : Env) (id : Str) where
  member-add_interfaces :
      (raw : Str) (o : Option (List Str)) (result : List Str)
      → (member id (add_interfaces raw o result) ≡ true)
        ↔ ((member id result ≡ true) ⊎ ((id ≢ []) × Interfaces id raw o))
  unfolding add_interfaces
  member-add_interfaces raw none result = ground arith
  member-add_interfaces raw (some ids) result =
      ground (arith, str_eq_iff raw [], member-add_ids id ids result)

  member-add_vm :
      (annots : Dict Str) (result : List Str)
      → (member id (add_vm env annots result) ≡ true)
        ↔ ((member id result ≡ true) ⊎ ((id ≢ []) × VmNames env id annots))
  unfolding add_vm
  member-add_vm annots result =
      let raw = get (codes "vpc.roks.ibm.com/network-interfaces") annots in
      let o = env.unmarshal_vni_ids raw in
      let single = get (codes "vpc.roks.ibm.com/vni-id") annots in
      join_vm single (add_interfaces raw o result) (member-add_interfaces raw o result)
    where
      join_vm :
          {P Q : Type 0} (j : Str) (ids : List Str)
          → (member id ids ≡ true) ↔ (P ⊎ ((id ≢ []) × Q))
          → (member id (add_id j ids) ≡ true) ↔ (P ⊎ ((id ≢ []) × ((j ≡ id) ⊎ Q)))
      join_vm j ids h = ground (arith, member-add_id id j ids)

  member-add_vms :
      (vms : List (Dict Str)) (result : List Str)
      → (member id (add_vms env vms result) ≡ true)
        ↔ ((member id result ≡ true) ⊎ ((id ≢ []) × Any (VmNames env id) vms))
  unfolding add_vms
  member-add_vms [] result = ground arith
  member-add_vms (vm ∷ vms) result =
      chain_vm vm (member-add_vms vms (add_vm env vm result)) (member-add_vm vm result)
    where
      chain_vm :
          {P Q R S : Type 0} (v : Dict Str)
          → (S ↔ (P ⊎ ((id ≢ []) × R)))
          → (P ↔ ((member id result ≡ true) ⊎ ((id ≢ []) × Q)))
          → S ↔ ((member id result ≡ true) ⊎ ((id ≢ []) × (Q ⊎ R)))
      chain_vm v h k = ground (arith, h, k)

  pub member-add_listed_vms :
      (vms : Option (List (Dict Str))) (result : List Str)
      → (member id (add_listed_vms env vms result) ≡ true)
        ↔ ((member id result ≡ true) ⊎ ((id ≢ []) × ListedVmNames env id vms))
  unfolding add_listed_vms
  member-add_listed_vms none result = ground arith
  member-add_listed_vms (some vms) result = member-add_vms vms result
