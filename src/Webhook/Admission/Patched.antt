-- ===== src/Webhook/Admission/Patched.antt =====
-- What the patched machine carries: the interfaces as an annotation, and the finalizer.
use roks_vpc_cni.Base.{
  ◌≡◌, refl, ap, ◌∙◌, inl, inr, Bool-cases, true, false, not, ◌&&◌, Option, none, some, List, [],
  ◌∷◌, ◌++◌, arith, if◌then◌else◌,
}
use roks_vpc_cni.Text.{Str, codes, str_eq, str_eq_refl, str_eq_iff, member}
use roks_vpc_cni.Dict.{Dict, insert, get, get-insert}
use roks_vpc_cni.Controllers.Machines.{VmInterface, vm_cleanup}
use roks_vpc_cni.Webhook.Json.{
  Json, array, object, Fields, empty, field, get_key, put_key, or_nil, bind, as_object, as_array,
  array_of, nested, strings_of, texts_of, get_nested_string_map, get_nested_string_slice, below,
  put_nested, texts, fields, set_nested_string_map, set_nested_string_slice,
}
use roks_vpc_cni.Webhook.CloudInit.{
  LocalNetIp, ethernets, inject_volumes, inject_cloud_init_network_config, with_volumes,
}
use roks_vpc_cni.Webhook.Admission.{
  Progress, insert_given, flat_fip, flat_annotations, legacy_annotations, metadata, add_finalizer,
  patch_machine, annotations_of,
}

pub get_key-put_key :
    (k j : Str) (v : Json) (fs : Fields)
    → get_key j (put_key k v fs) ≡ (if str_eq k j then some v else get_key j fs)
unfolding get_key put_key
get_key-put_key k j v empty = refl
get_key-put_key k j v (field i w fs) =
    ground (arith, str_eq_iff i k, str_eq_iff i j, str_eq_iff k j, get_key-put_key k j v fs)

get_key-put_same : (k : Str) (v : Json) (fs : Fields) → get_key k (put_key k v fs) ≡ some v
get_key-put_same k v fs = ground (arith, get_key-put_key k k v fs, str_eq_refl k)

get_key-put_other :
    (k j : Str) (v : Json) (fs : Fields)
    → str_eq k j ≡ false
    → get_key j (put_key k v fs) ≡ get_key j fs
get_key-put_other k j v fs e = ground (arith, get_key-put_key k j v fs, e)

strings_of-fields : (m : Dict Str) → strings_of (fields m) ≡ some m
unfolding strings_of
strings_of-fields [] = refl
strings_of-fields ((k, s) ∷ m) = rw (strings_of-fields m) refl

texts_of-texts : (ss : List Str) → texts_of (array_of (texts ss)) ≡ some ss
unfolding texts_of array_of
texts_of-texts [] = refl
texts_of-texts (s ∷ ss) = rw (texts_of-texts ss) refl

-- The metadata are an object.
abbrev pub HasMetadata : Fields → Fields → Type 0
HasMetadata fs ms = get_key (codes "metadata") fs ≡ some (object ms)

-- A key of the metadata is set.
put-HasMetadata :
    (k : Str) (v : Json) (fs ms : Fields)
    → HasMetadata fs ms
    → HasMetadata (put_nested metadata k v fs) (put_key k v ms)
unfolding put_nested
put-HasMetadata k v fs ms h =
    get_key-put_same (codes "metadata") _ fs ∙ ap (λ w. some (below (put_key k v) w)) h

-- A path in the specification is set.
put_spec-metadata :
    (path : List Str) (k : Str) (v : Json) (fs : Fields)
    → get_key (codes "metadata") (put_nested (codes "spec" ∷ path) k v fs)
      ≡ get_key (codes "metadata") fs
unfolding put_nested
put_spec-metadata path k v fs =
    get_key-put_other (codes "spec") (codes "metadata") _ fs (unfold str_eq in refl)

with_volumes-metadata :
    (vs : Option (List Json)) (vm : Fields)
    → get_key (codes "metadata") (with_volumes vs vm) ≡ get_key (codes "metadata") vm
unfolding with_volumes
with_volumes-metadata none vm = refl
with_volumes-metadata (some vs) vm =
    put_spec-metadata (codes "template" ∷ codes "spec" ∷ []) (codes "volumes") _ vm

inject-metadata :
    (es : List LocalNetIp) (vm : Fields)
    → get_key (codes "metadata") (inject_cloud_init_network_config es vm)
      ≡ get_key (codes "metadata") vm
unfolding inject_cloud_init_network_config inject_volumes
inject-metadata es vm = elim (Bool-cases (str_eq (ethernets 0 es) [])) [
  | inl e ↦ rw e refl
  | inr e ↦ rw e (with_volumes-metadata _ vm)
]

-- Annotations and finalizers are read from the metadata alone.
annotations_at :
    (fs ms : Fields) (m : Dict Str)
    → HasMetadata fs ms
    → get_key (codes "annotations") ms ≡ some (object (fields m))
    → annotations_of fs ≡ m
unfolding get_nested_string_map nested
annotations_at fs ms m h e =
    ap
      (λ w.
        or_nil (bind (as_object (bind (as_object w) (get_key (codes "annotations")))) strings_of))
      h
    ∙ (ap (λ w. or_nil (bind (as_object w) strings_of)) e ∙ ap or_nil (strings_of-fields m))

finalizers_at :
    (fs ms : Fields) (ss : List Str)
    → HasMetadata fs ms
    → get_key (codes "finalizers") ms ≡ some (array (array_of (texts ss)))
    → get_nested_string_slice metadata (codes "finalizers") fs ≡ ss
unfolding get_nested_string_slice nested
finalizers_at fs ms ss h e =
    ap (λ w. or_nil (bind (as_array (bind (as_object w) (get_key (codes "finalizers")))) texts_of))
      h
    ∙ (ap (λ w. or_nil (bind (as_array w) texts_of)) e ∙ ap or_nil (texts_of-texts ss))

member-last : (s : Str) (ss : List Str) → member s (ss ++ s ∷ []) ≡ true
unfolding member
member-last s [] = ground (arith, str_eq_refl s)
member-last s (r ∷ ss) = ground (arith, member-last s ss)

-- The finalizer is there, and the annotations stay.
add_finalizer-keeps :
    (fs ms : Fields) (m : Dict Str)
    → HasMetadata fs ms
    → get_key (codes "annotations") ms ≡ some (object (fields m))
    → (annotations_of (add_finalizer fs) ≡ m)
      × (member vm_cleanup
            (get_nested_string_slice metadata (codes "finalizers") (add_finalizer fs))
          ≡ true)
unfolding add_finalizer set_nested_string_slice
add_finalizer-keeps fs ms m h e =
    let existing = get_nested_string_slice metadata (codes "finalizers") fs in
    let added : Json = array (array_of (texts (existing ++ vm_cleanup ∷ []))) in
    elim (Bool-cases (member vm_cleanup existing)) [
      | inl has ↦ rw has (annotations_at fs ms m h e, has)
      | inr lacks ↦ rw lacks (
        annotations_at (put_nested metadata (codes "finalizers") added fs)
            (put_key (codes "finalizers") added ms) m
            (put-HasMetadata (codes "finalizers") added fs ms h)
            (get_key-put_other (codes "finalizers") (codes "annotations") added ms
                (unfold str_eq in refl)
              ∙ e),
        ap (member vm_cleanup) (
              finalizers_at (put_nested metadata (codes "finalizers") added fs)
                (put_key (codes "finalizers") added ms) (existing ++ vm_cleanup ∷ [])
                (put-HasMetadata (codes "finalizers") added fs ms h)
                (get_key-put_same (codes "finalizers") added ms))
            ∙ member-last vm_cleanup existing,
      )
    ]

abbrev ni : Str
ni = codes "vpc.roks.ibm.com/network-interfaces"

other_key : (k v : Str) (m : Dict Str) → str_eq k ni ≡ false → get ni (insert k v m) ≡ get ni m
other_key k v m e = ground (arith, get-insert k ni v m, e)

given_key :
    (k v : Str) (m : Dict Str) → str_eq k ni ≡ false → get ni (insert_given k v m) ≡ get ni m
given_key k v m e = ground (arith, get-insert k ni v m, e)

flat_fip-keeps : (i : VmInterface) (m : Dict Str) → get ni (flat_fip i m) ≡ get ni m
unfolding flat_fip
flat_fip-keeps i m = elim (Bool-cases (str_eq i.fip_id [])) [
  | inl e ↦ rw e refl
  | inr e ↦ rw e (
      other_key (codes "vpc.roks.ibm.com/fip-address") i.fip_address _ (unfold str_eq in refl)
      ∙ other_key (codes "vpc.roks.ibm.com/fip-id") i.fip_id m (unfold str_eq in refl))
]

flat-keeps : (i : VmInterface) (m : Dict Str) → get ni (flat_annotations i m) ≡ get ni m
unfolding flat_annotations
flat-keeps i m =
    flat_fip-keeps i _
    ∙ (given_key (codes "vpc.roks.ibm.com/bm-server-id") i.bm_server_id _ (unfold str_eq in refl)
        ∙ (given_key (codes "vpc.roks.ibm.com/attachment-id") i.attachment_id _
              (unfold str_eq in refl)
            ∙ (other_key (codes "vpc.roks.ibm.com/reserved-ip-id") i.reserved_ip_id _
                  (unfold str_eq in refl)
                ∙ (other_key (codes "vpc.roks.ibm.com/reserved-ip") i.reserved_ip _
                      (unfold str_eq in refl)
                    ∙ (other_key (codes "vpc.roks.ibm.com/mac-address") i.mac_address _
                          (unfold str_eq in refl)
                        ∙ other_key (codes "vpc.roks.ibm.com/vni-id") i.vni_id m
                            (unfold str_eq in refl))))))

legacy-keeps : (is : List VmInterface) (m : Dict Str) → get ni (legacy_annotations is m) ≡ get ni m
unfolding legacy_annotations
legacy-keeps [] m = refl
legacy-keeps (i ∷ is) m =
    elim (Bool-cases (str_eq i.topology (codes "LocalNet") && not (str_eq i.vni_id []))) [
      | inl e ↦ rw e (flat-keeps i m)
      | inr e ↦ rw e (legacy-keeps is m)
    ]

-- Where the metadata are an object, the patched machine has the text of the interfaces as its
-- annotation and the finalizer of the VM controller.
pub patch_machine-carries :
    (m : Dict Str) (interfaces_text : Str) (p : Progress) (ms : Fields)
    → HasMetadata p.vm ms
    → let vm = patch_machine m interfaces_text p in
      (get (codes "vpc.roks.ibm.com/network-interfaces") (annotations_of vm) ≡ interfaces_text)
      × (member vm_cleanup (get_nested_string_slice metadata (codes "finalizers") vm) ≡ true)
unfolding patch_machine set_nested_string_map
patch_machine-carries m interfaces_text p ms h =
    let m' = insert ni interfaces_text m in
    let annots = legacy_annotations p.interfaces m' in
    let written : Json = object (fields annots) in
    let vm1 = put_nested metadata (codes "annotations") written p.vm in
    let ms1 = put_key (codes "annotations") written ms in
    let vm2 = inject_cloud_init_network_config p.local_net_ips vm1 in
    let (annotated, protected) =
      add_finalizer-keeps vm2 ms1 annots
        (inject-metadata p.local_net_ips vm1
          ∙ put-HasMetadata (codes "annotations") written p.vm ms h)
        (get_key-put_same (codes "annotations") written ms) in
    (
      ap (get ni) annotated
          ∙ (legacy-keeps p.interfaces m'
              ∙ ground (arith, get-insert ni ni interfaces_text m, str_eq_refl ni)),
      protected,
    )
