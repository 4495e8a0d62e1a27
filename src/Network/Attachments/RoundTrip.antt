-- ===== src/Network/Attachments/RoundTrip.antt =====
-- The annotation is read back as it was written, in whichever order the map was visited.
use roks_vpc_cni.Base.{
  ◌≡◌, ◌≢◌, refl, inl, inr, Option, none, some, [], ◌∷◌, map, arith, All, All-append, Bool-cases,
}
use roks_vpc_cni.Text.{
  Str, str_eq, str_eq_iff, trim_space, Lacks, split-join, split2_first, split, join,
}
use roks_vpc_cni.Dict.{Dict, lookup, insert, erase, lookup-insert, lookup-erase, lookup-nil}
use roks_vpc_cni.Network.Attachments.{
  parse_entry, parse_entries, parse_attachments, entry_text, serialize_attachments,
}

-- A node name without `,` and `:`, and an attachment id without `,`, both trimmed.
pub record IsPlain (e : Str × Str) : Type 0 where
  pub node_comma : Lacks b',' e.0
  pub node_colon : Lacks b':' e.0
  pub node_trim : trim_space e.0 ≡ e.0
  pub id_comma : Lacks b',' e.1
  pub id_trim : trim_space e.1 ≡ e.1

-- Every entry is plain, and no node is listed twice.
abbrev pub IsSerializable : Dict Str → Type 0
IsSerializable [] = Unit
IsSerializable (e ∷ m) = IsPlain e × (lookup e.0 m ≡ none) × IsSerializable m

parse_entry-text :
    (e : Str × Str) (result : Dict Str)
    → IsPlain e
    → parse_entry (entry_text e) result ≡ insert e.0 e.1 result
unfolding parse_entry
parse_entry-text (k, v) result h =
    ground (arith, split2_first b':' k v h.node_colon, h.node_trim, h.id_trim)

-- what a lookup finds behind the entries of `m`
abbrev or_else : Option Str → Option Str → Option Str
or_else none o = o
or_else (some v) o = some v

lookup-parse_entries :
    (j : Str) (m result : Dict Str)
    → IsSerializable m
    → lookup j (parse_entries (map entry_text m) result) ≡ or_else (lookup j m) (lookup j result)
unfolding parse_entries lookup
lookup-parse_entries j [] result h = refl
lookup-parse_entries j (e ∷ m) result h = ground (
  arith,
  parse_entry-text e result h.0,
  lookup-parse_entries j m (insert e.0 e.1 result) h.2,
  lookup-insert e.0 j e.1 result,
  str_eq_iff e.0 j,
  h.1,
)

entry_text-Lacks : (e : Str × Str) → IsPlain e → Lacks b',' (entry_text e)
entry_text-Lacks (k, v) h =
    All-append (λ c. c ≢ b',') k (b':' ∷ v) h.node_comma (omega arith, h.id_comma)

entry_texts-Lack : (m : Dict Str) → IsSerializable m → All (Lacks b',') (map entry_text m)
entry_texts-Lack [] h = tt
entry_texts-Lack (e ∷ m) h = (entry_text-Lacks e h.0, entry_texts-Lack m h.2)

serialize-ne-nil : (e : Str × Str) (m : Dict Str) → serialize_attachments (e ∷ m) ≢ []
unfolding serialize_attachments join
serialize-ne-nil ([], v) [] p = cc
serialize-ne-nil (c ∷ k, v) [] p = cc
serialize-ne-nil ([], v) (f ∷ m) p = cc
serialize-ne-nil (c ∷ k, v) (f ∷ m) p = cc

split-serialize :
    (e : Str × Str) (m : Dict Str)
    → IsSerializable (e ∷ m)
    → split b',' (serialize_attachments (e ∷ m)) ≡ map entry_text (e ∷ m)
unfolding serialize_attachments
split-serialize e m h = split-join b',' (map entry_text (e ∷ m)) (cc) (entry_texts-Lack (e ∷ m) h)

-- Reading back a written map finds at every node the attachment that the map has there. The map
-- is listed in any order, without a node twice; nodes hold no `,` or `:`, attachment ids no `,`,
-- and neither begins or ends with white space.
pub lookup-parse-serialize :
    (m : Dict Str) (j : Str)
    → IsSerializable m
    → lookup j (parse_attachments (serialize_attachments m)) ≡ lookup j m
unfolding parse_attachments
lookup-parse-serialize [] j h = unfold serialize_attachments join str_eq lookup in refl
lookup-parse-serialize (e ∷ m) j h = ground (
  arith,
  serialize-ne-nil e m,
  str_eq_iff (serialize_attachments (e ∷ m)) [],
  split-serialize e m h,
  lookup-parse_entries j (e ∷ m) [] h,
  lookup-nil {0} {V = Str} j,
)

-- What deleting a node leaves is serializable again.
pub erase-IsSerializable : (k : Str) (m : Dict Str) → IsSerializable m → IsSerializable (erase k m)
unfolding erase
erase-IsSerializable k [] h = tt
erase-IsSerializable k ((j, v) ∷ m) h = elim (Bool-cases (str_eq j k)) [
  | inl e ↦ rw e (erase-IsSerializable k m h.2)
  | inr e ↦ rw e (h.0, ground (arith, lookup-erase k j m, h.1), erase-IsSerializable k m h.2)
]

-- A plain entry for a node that is not there keeps the map serializable.
pub insert-IsSerializable :
    (k v : Str) (m : Dict Str)
    → lookup k m ≡ none
    → IsPlain (k, v)
    → IsSerializable m
    → IsSerializable (insert k v m)
unfolding insert
insert-IsSerializable k v [] fresh plain h = (plain, lookup-nil {0} {V = Str} k, tt)
insert-IsSerializable k v ((j, w) ∷ m) fresh plain h = elim (Bool-cases (str_eq j k)) [
  | inl e ↦ absurd (unfold lookup in ground (arith, e, fresh))
  | inr e ↦ rw e (
    h.0,
    ground (arith, lookup-insert k j v m, h.1, str_eq_iff k j, str_eq_iff j k, e),
    insert-IsSerializable k v m (unfold lookup in ground (arith, e, fresh)) plain h.2,
  )
]
