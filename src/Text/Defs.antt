-- ===== src/Text/Defs.antt =====
-- Byte strings and the functions of Go's package `strings` over them.
use Prim.Native.Char.{code}
use mathlib.Core.List.{reverse}
use roks_vpc_cni.Base.{
  ℕ, zero, suc, ◌+◌, ◌/◌, ◌%◌, String, Bool, true, false, ◌&&◌, ◌||◌, Option, none, some, List, [],
  ◌∷◌, ◌++◌, ltb, leb, ◌==◌, if◌then◌else◌,
}

abbrev pub Str : Type 0
Str = List ℕ

-- The bytes of an ASCII literal.
abbrev pub codes : String → Str
codes String.[] = []
codes (String.◌∷◌ c s) = code c ∷ codes s

-- a == b
unfoldable pub str_eq : Str → Str → Bool
str_eq [] [] = true
str_eq [] (d ∷ t) = false
str_eq (c ∷ s) [] = false
str_eq (c ∷ s) (d ∷ t) = c == d && str_eq s t

unfoldable pub prepend_head : ℕ → List Str → List Str
prepend_head c [] = (c ∷ []) ∷ []
prepend_head c (p ∷ ps) = (c ∷ p) ∷ ps

-- strings.Split(s, sep) for a separator of one byte
unfoldable pub split : ℕ → Str → List Str
unfolding prepend_head
split sep [] = [] ∷ []
split sep (c ∷ s) = let rest = split sep s in if c == sep then [] ∷ rest else prepend_head c rest

-- strings.SplitN(s, sep, 2): `none` where it returns one part
unfoldable pub split2 : ℕ → Str → Option (Str × Str)
split2 sep [] = none
split2 sep (c ∷ s) =
    let later : Option (Str × Str) = elim (split2 sep s) [
      | none ↦ none
      | some (a, b) ↦ some (c ∷ a, b)
    ] in
    if c == sep then some ([], s) else later

-- strings.Join(parts, sep) for a separator of any length
unfoldable pub join : Str → List Str → Str
join sep [] = []
join sep (p ∷ []) = p
join sep (p ∷ q ∷ ps) = p ++ (sep ++ join sep (q ∷ ps))

-- the ASCII white space of `strings.TrimSpace`
unfoldable pub is_space : ℕ → Bool
is_space c = (leb 9 c && leb c 13) || c == 32

unfoldable pub trim_left : Str → Str
unfolding is_space
trim_left [] = []
trim_left (c ∷ s) = let rest = trim_left s in if is_space c then rest else c ∷ s

-- strings.TrimSpace(s)
unfoldable pub trim_space : Str → Str
unfolding trim_left
trim_space s = reverse (trim_left (reverse (trim_left s)))

-- strings.HasPrefix(s, prefix), arguments swapped
unfoldable pub has_prefix : Str → Str → Bool
has_prefix [] s = true
has_prefix (c ∷ p) [] = false
has_prefix (c ∷ p) (d ∷ s) = c == d && has_prefix p s

-- strings.Contains(s, sub), arguments swapped
unfoldable pub contains : Str → Str → Bool
unfolding has_prefix
contains sub [] = has_prefix sub []
contains sub (c ∷ s) = has_prefix sub (c ∷ s) || contains sub s

-- strings.IndexByte(s, c), `none` for -1
unfoldable pub index_byte : ℕ → Str → Option ℕ
index_byte b [] = none
index_byte b (c ∷ s) =
    let later : Option ℕ = elim (index_byte b s) [ none ↦ none | some i ↦ some (suc i) ] in
    if c == b then some 0 else later

-- strings.ReplaceAll for one byte by one byte
unfoldable pub replace_byte : ℕ → ℕ → Str → Str
replace_byte old new [] = []
replace_byte old new (c ∷ s) = (if c == old then new else c) ∷ replace_byte old new s

-- strings.ToLower(s), of ASCII
unfoldable pub to_lower : Str → Str
to_lower [] = []
to_lower (c ∷ s) = (if leb b'A' c && leb c b'Z' then c + 32 else c) ∷ to_lower s

-- strings.TrimRight(s, cutset) for a cutset of one byte
unfoldable pub trim_right_byte : ℕ → Str → Str
trim_right_byte b [] = []
trim_right_byte b (c ∷ s) = elim (trim_right_byte b s) [
  | [] ↦ if c == b then [] else c ∷ []
  | d ∷ t ↦ c ∷ d ∷ t
]

-- the digits of `n` in front of `out`, least significant last
unfoldable pub decimal_digits : ℕ → ℕ → Str → Str
decimal_digits zero n out = out
decimal_digits (suc fuel) n out =
    let rest = decimal_digits fuel (n / 10) ((b'0' + n % 10) ∷ out) in
    if ltb n 10 then (b'0' + n) ∷ out else rest

-- fmt.Sprintf("%d", n) for n ≥ 0
unfoldable pub decimal : ℕ → Str
unfolding decimal_digits
decimal n = decimal_digits (suc n) n []

-- Whether a list, or a `map[string]bool` that is only set to true and read, holds a string.
unfoldable pub member : Str → List Str → Bool
member k [] = false
member k (j ∷ js) = str_eq j k || member k js
