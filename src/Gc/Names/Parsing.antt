-- ===== src/Gc/Names/Parsing.antt =====
-- What `parse_vni_name` makes of a name that the operator built.
use roks_vpc_cni.Base.{
  suc, ◌≡◌, ◌≢◌, refl, ap, some, [], ◌∷◌, ◌++◌, length, length-append, take, drop, arith, true,
}
use roks_vpc_cni.Text.{Str, has_prefix, index_byte, Lacks}
use roks_vpc_cni.Gc.Names.{name_prefix, split_remainder, parse_vni_name}

-- The name that the naming convention gives to the VNI of a machine with one network.
unfoldable pub vni_name : Str → Str → Str → Str
vni_name cluster_id ns vm = name_prefix cluster_id ++ (ns ++ b'-' ∷ vm)

pub has_prefix-append : (p s : Str) → has_prefix p (p ++ s) ≡ true
unfolding has_prefix
has_prefix-append [] s = refl
has_prefix-append (c ∷ p) s = ground (arith, has_prefix-append p s)

drop-append : (p s : Str) → drop (length p) (p ++ s) ≡ s
drop-append [] s = refl
drop-append (c ∷ p) s = drop-append p s

take-append : (p s : Str) → take (length p) (p ++ s) ≡ p
take-append [] s = refl
take-append (c ∷ p) s = ap (λ t. c ∷ t) (take-append p s)

index_byte_first : (p s : Str) → Lacks b'-' p → index_byte b'-' (p ++ b'-' ∷ s) ≡ some (length p)
unfolding index_byte
index_byte_first [] s h = ground arith
index_byte_first (c ∷ p) s h = ground (arith, index_byte_first p s h.1)

drop_behind : (p s : Str) → drop (suc (length p)) (p ++ b'-' ∷ s) ≡ s
drop_behind [] s = refl
drop_behind (c ∷ p) s = drop_behind p s

-- The first dash splits the remainder, wherever the namespace ends.
split_remainder_first :
    (a b : Str) → a ≢ [] → b ≢ [] → Lacks b'-' a → split_remainder (a ++ b'-' ∷ b) ≡ (a, b)
unfolding split_remainder
split_remainder_first [] b ha hb h = absurd (ha refl)
split_remainder_first a [] ha hb h = absurd (hb refl)
split_remainder_first (c ∷ a) (d ∷ b) ha hb h = ground (
  arith,
  index_byte_first (c ∷ a) (d ∷ b) h,
  length-append (c ∷ a) (b'-' ∷ d ∷ b),
  take-append (c ∷ a) (b'-' ∷ d ∷ b),
  drop_behind (c ∷ a) (d ∷ b),
)

-- The name that is built from a cluster id, a text `a` without a dash and a text `b`, both not
-- empty, is parsed into `a` and `b`. So a namespace without a dash and its machine are found; of a
-- namespace with a dash, `a` is the part before its first dash, and `b` all that follows.
pub parse-name :
    (cluster_id a b : Str)
    → a ≢ []
    → b ≢ []
    → Lacks b'-' a
    → parse_vni_name (vni_name cluster_id a b) cluster_id ≡ (a, b)
unfolding parse_vni_name vni_name
parse-name cluster_id a b ha hb h =
    let p = name_prefix cluster_id in
    ground (
      arith,
      has_prefix-append p (a ++ b'-' ∷ b),
      drop-append p (a ++ b'-' ∷ b),
      length-append p (a ++ b'-' ∷ b),
      length-append a (b'-' ∷ b),
      split_remainder_first a b ha hb h,
    )
