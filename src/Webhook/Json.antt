-- ===== src/Webhook/Json.antt =====
-- A decoded JSON document, as `map[string]interface{}`, and the functions of
-- k8s.io/apimachinery/pkg/apis/meta/v1/unstructured on it as pkg/webhook/vm_mutating.go wraps them.
-- A copy that Go makes is the value itself.
use roks_vpc_cni.Base.{ℕ, zero, suc, Bool, Option, none, some, List, [], ◌∷◌, if◌then◌else◌}
use roks_vpc_cni.Text.{Str, str_eq}
use roks_vpc_cni.Text.Integers.{parse_digits}
use roks_vpc_cni.Dict.{Dict}

-- A number keeps its text.
mutual
  pub data Json : Type 0 where
    null : Json
    boolean : Bool → Json
    number : Str → Json
    text : Str → Json
    array : Elements → Json
    object : Fields → Json

  pub data Elements : Type 0 where
    last : Elements
    element : Json → Elements → Elements

  pub data Fields : Type 0 where
    empty : Fields
    field : Str → Json → Fields → Fields

-- m[k]
unfoldable pub get_key : Str → Fields → Option Json
get_key k empty = none
get_key k (field j v fs) = if str_eq j k then some v else get_key k fs

-- m[k] = v
unfoldable pub put_key : Str → Json → Fields → Fields
put_key k v empty = field k v empty
put_key k v (field j w fs) = if str_eq j k then field k v fs else field j w (put_key k v fs)

-- The type assertions.
abbrev pub as_object : Option Json → Option Fields
as_object (some (object fs)) = some fs
as_object (some null) = none
as_object (some (boolean b)) = none
as_object (some (number n)) = none
as_object (some (text s)) = none
as_object (some (array es)) = none
as_object none = none

abbrev pub as_text : Option Json → Option Str
as_text (some (text s)) = some s
as_text (some null) = none
as_text (some (boolean b)) = none
as_text (some (number n)) = none
as_text (some (array es)) = none
as_text (some (object fs)) = none
as_text none = none

abbrev pub as_array : Option Json → Option Elements
as_array (some (array es)) = some es
as_array (some null) = none
as_array (some (boolean b)) = none
as_array (some (number n)) = none
as_array (some (text s)) = none
as_array (some (object fs)) = none
as_array none = none

-- The empty string where the assertion fails.
abbrev pub or_empty : Option Str → Str
or_empty none = []
or_empty (some s) = s

abbrev pub or_nil : {A : Type 0} → Option (List A) → List A
or_nil none = []
or_nil (some xs) = xs

abbrev pub bind : {A B : Type 0} → Option A → (A → Option B) → Option B
bind none f = none
bind (some a) f = f a

unfoldable pub elements : Elements → List Json
elements last = []
elements (element v es) = v ∷ elements es

unfoldable pub array_of : List Json → Elements
array_of [] = last
array_of (v ∷ vs) = element v (array_of vs)

-- unstructured.NestedFieldNoCopy at a path that ends in `last_key`: nothing for a missing key and
-- for an error.
unfoldable pub nested : List Str → Str → Fields → Option Json
nested [] last_key fs = get_key last_key fs
nested (k ∷ ks) last_key fs = bind (as_object (get_key k fs)) (nested ks last_key)

-- getNestedSlice; no elements where there is none.
unfoldable pub get_nested_slice : List Str → Str → Fields → List Json
get_nested_slice path last_key fs = elim (as_array (nested path last_key fs)) [
  | none ↦ []
  | some es ↦ elements es
]

-- Every value a string, or nothing.
unfoldable pub strings_of : Fields → Option (Dict Str)
strings_of empty = some []
strings_of (field k v fs) =
    bind (as_text (some v)) (λ s. bind (strings_of fs) (λ m. some ((k, s) ∷ m)))

unfoldable pub texts_of : Elements → Option (List Str)
texts_of last = some []
texts_of (element v es) = bind (as_text (some v)) (λ s. bind (texts_of es) (λ ss. some (s ∷ ss)))

-- getNestedStringMap
unfoldable pub get_nested_string_map : List Str → Str → Fields → Option (Dict Str)
get_nested_string_map path last_key fs = bind (as_object (nested path last_key fs)) strings_of

-- getNestedStringSlice, no elements for nil
unfoldable pub get_nested_string_slice : List Str → Str → Fields → List Str
get_nested_string_slice path last_key fs =
    or_nil (bind (as_array (nested path last_key fs)) texts_of)

-- The object below a key is changed, or made; anything else below it stays.
abbrev pub below : (Fields → Fields) → Option Json → Json
below f none = object (f empty)
below f (some (object fs)) = object (f fs)
below f (some null) = null
below f (some (boolean b)) = boolean b
below f (some (number n)) = number n
below f (some (text s)) = text s
below f (some (array es)) = array es

-- unstructured.SetNestedField: objects that are missing on the way are made; where something else
-- is in the way, nothing changes.
unfoldable pub put_nested : List Str → Str → Json → Fields → Fields
put_nested [] last_key v fs = put_key last_key v fs
put_nested (k ∷ ks) last_key v fs = put_key k (below (put_nested ks last_key v) (get_key k fs)) fs

abbrev pub texts : List Str → List Json
texts [] = []
texts (s ∷ ss) = text s ∷ texts ss

abbrev pub fields : Dict Str → Fields
fields [] = empty
fields ((k, s) ∷ m) = field k (text s) (fields m)

-- setNestedStringMap
unfoldable pub set_nested_string_map : Dict Str → List Str → Str → Fields → Fields
set_nested_string_map m path last_key = put_nested path last_key (object (fields m))

-- setNestedStringSlice
unfoldable pub set_nested_string_slice : List Str → List Str → Str → Fields → Fields
set_nested_string_slice ss path last_key = put_nested path last_key (array (array_of (texts ss)))

-- The element at an index is changed.
unfoldable pub change_nth : (Json → Json) → ℕ → Elements → Elements
change_nth f n last = last
change_nth f zero (element v es) = element (f v) es
change_nth f (suc n) (element v es) = element v (change_nth f n es)

-- The value of a key, where there is one, is changed.
unfoldable pub change_key : (Json → Json) → Str → Fields → Fields
change_key f k empty = empty
change_key f k (field j v fs) =
    if str_eq j k then field j (f v) fs else field j v (change_key f k fs)

abbrev change_at : (Json → Json) → Option ℕ → Elements → Elements
change_at f none es = es
change_at f (some n) es = change_nth f n es

-- setNestedField: a path of keys and of indices, in decimal.
unfoldable pub set_nested_field : Str → List Str → Str → Json → Json
set_nested_field value [] name (object fs) = object (put_key name (text value) fs)
set_nested_field value [] name null = null
set_nested_field value [] name (boolean b) = boolean b
set_nested_field value [] name (number n) = number n
set_nested_field value [] name (text s) = text s
set_nested_field value [] name (array es) = array es
set_nested_field value (k ∷ ks) name (object fs) =
    object (change_key (set_nested_field value ks name) k fs)
set_nested_field value (k ∷ ks) name (array es) =
    array (change_at (set_nested_field value ks name) (parse_digits k) es)
set_nested_field value (k ∷ ks) name null = null
set_nested_field value (k ∷ ks) name (boolean b) = boolean b
set_nested_field value (k ∷ ks) name (number n) = number n
set_nested_field value (k ∷ ks) name (text s) = text s
