-- ===== src/Gc/Collector/FloatingIpObjects.antt =====
-- The status of a FloatingIP object (api/v1alpha1/floatingip_types.go) as the collector reads it.
use roks_vpc_cni.Base.{
  ◌≡◌, refl, inl, inr, Bool, true, false, Option, none, some, List, [], ◌∷◌, ◌++◌, map, arith, Any,
  if◌then◌else◌,
}
use roks_vpc_cni.Text.{Str, codes, str_eq}
use roks_vpc_cni.Dict.{Dict, lookup}
use roks_vpc_cni.Gc.World.{fip, Resource, Json, text, other, Status, Env, attempted}
use roks_vpc_cni.Gc.References.Membership.{StatusNames, ListNames}
use roks_vpc_cni.Gc.References.InUse.{FipInUse}
use roks_vpc_cni.Gc.Collector.{collect}
use roks_vpc_cni.Gc.Collector.Safety.{Listed, IsOurs, collect_fips_exactly}

-- FloatingIPStatus; a time that is not set is the empty text, the conditions are no text.
pub record FloatingIpStatus : Type 0 where
  pub sync_status : Str
  pub fip_id : Str
  pub address : Str
  pub target_vni_id : Str
  pub last_sync_time : Str
  pub message : Str
  pub has_conditions : Bool

-- A field with `omitempty`.
abbrev text_field : Str → Str → Dict Json
text_field key v = if str_eq v [] then [] else (key, text v) ∷ []

abbrev opaque_field : Str → Bool → Dict Json
opaque_field key present = if present then (key, other) ∷ [] else []

-- The object that the Kubernetes interface returns for the status, by the JSON tags.
unfoldable pub status_object : FloatingIpStatus → Dict Json
status_object s =
    text_field (codes "syncStatus") s.sync_status
    ++ (text_field (codes "fipID") s.fip_id
        ++ (text_field (codes "address") s.address
            ++ (text_field (codes "targetVNIID") s.target_vni_id
                ++ (text_field (codes "lastSyncTime") s.last_sync_time
                    ++ (text_field (codes "message") s.message
                        ++ opaque_field (codes "conditions") s.has_conditions)))))

module _ (k : Str) where
  lookup-text_field :
      (key v : Str) (d : Dict Json)
      → str_eq key k ≡ false
      → lookup k (text_field key v ++ d) ≡ lookup k d
  unfolding lookup
  lookup-text_field key v d h = ground arith

  lookup-opaque_field :
      (key : Str) (present : Bool)
      → str_eq key k ≡ false
      → lookup k (opaque_field key present) ≡ none
  unfolding lookup
  lookup-opaque_field key present h = ground arith

-- No field of the status has the key that the collector looks for.
lookup-status_object :
    (s : FloatingIpStatus) → lookup (codes "floatingIPID") (status_object s) ≡ none
unfolding status_object str_eq
lookup-status_object s =
    let k = codes "floatingIPID" in
    rw
      (
        lookup-text_field k (codes "syncStatus") s.sync_status _ refl,
        lookup-text_field k (codes "fipID") s.fip_id _ refl,
        lookup-text_field k (codes "address") s.address _ refl,
        lookup-text_field k (codes "targetVNIID") s.target_vni_id _ refl,
        lookup-text_field k (codes "lastSyncTime") s.last_sync_time _ refl,
        lookup-text_field k (codes "message") s.message _ refl,
      )
      (lookup-opaque_field k (codes "conditions") s.has_conditions refl)

abbrev pub statuses_of : List FloatingIpStatus → List Status
statuses_of = map (λ s. some (status_object s))

none_named :
    (id : Str) (crs : List FloatingIpStatus)
    → ¬ Any (StatusNames (codes "floatingIPID") id) (statuses_of crs)
none_named id [] h = h
none_named id (s ∷ crs) (inl e) = cc (lookup-status_object s)
none_named id (s ∷ crs) (inr h) = none_named id crs h

-- Where the FloatingIP objects have the statuses that their type writes, the collector takes none
-- of them for a use: whatever ids the statuses hold, it calls the deletion of every id that is
-- listed with a floating IP whose name begins with the cluster's prefix, if no gateway names the id.
pub collect_deletes_fip_of_object :
    (env : Env) (id : Str) (crs : List FloatingIpStatus)
    → env.list_floating_ip_crs ≡ some (statuses_of crs)
    → ¬ ListNames (codes "floatingIPID") id env.list_gateways
    → Listed (λ r. IsOurs env r.name) id env.list_floating_ips
    → attempted fip id (collect env).1 ≡ true
collect_deletes_fip_of_object env id crs e unnamed listed =
    (collect_fips_exactly env id).1 (weaken env.list_floating_ips listed)
  where
    free : ¬ ListNames (codes "floatingIPID") id env.list_floating_ip_crs
    free = rw e (none_named id crs)

    weaken_list :
        (rs : List Resource)
        → Any (λ r. IsOurs env r.name × (r.id ≡ id)) rs
        → Any (λ r. (IsOurs env r.name × ¬ FipInUse env r.id) × (r.id ≡ id)) rs
    weaken_list [] h = h
    weaken_list (r ∷ rs) (inl h) =
        inl ((h.0, rw h.1 (λ u. elim u.1 [ inl a ↦ unnamed a | inr b ↦ free b ])), h.1)
    weaken_list (r ∷ rs) (inr h) = inr (weaken_list rs h)

    weaken :
        (o : Option (List Resource))
        → Listed (λ r. IsOurs env r.name) id o
        → Listed (λ r. IsOurs env r.name × ¬ FipInUse env r.id) id o
    weaken none h = h
    weaken (some rs) h = weaken_list rs h
