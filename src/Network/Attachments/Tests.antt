-- ===== src/Network/Attachments/Tests.antt =====
-- The annotation of the attachments at concrete inputs.
use roks_vpc_cni.Base.{◌≡◌, refl, [], ◌∷◌, arith}
use roks_vpc_cni.Text.{Str, codes, str_eq, split, split2, trim_space}
use roks_vpc_cni.Dict.{Dict, insert, lookup}
use roks_vpc_cni.Network.Attachments.{
  parse_entry, parse_entries, parse_attachments, serialize_attachments,
}
use roks_vpc_cni.Network.Attachments.RoundTrip.{IsPlain, lookup-parse-serialize}

parse_spaces :
    parse_attachments (codes "n1: a1 ,bad,n2:b:c")
    ≡ (codes "n1", codes "a1") ∷ (codes "n2", codes "b:c") ∷ []
unfolding parse_attachments parse_entries parse_entry str_eq split split2 trim_space insert
parse_spaces = refl

abbrev two_nodes : Dict Str
two_nodes = (codes "n2", codes "a:2") ∷ (codes "n1", codes "a1") ∷ []

lookup-parse-serialize_example :
    lookup (codes "n1") (parse_attachments (serialize_attachments two_nodes))
    ≡ lookup (codes "n1") two_nodes
unfolding trim_space lookup str_eq
lookup-parse-serialize_example =
    lookup-parse-serialize two_nodes (codes "n1") (plain_2, refl, (plain_1, refl, tt))
  where
    plain_1 : IsPlain (codes "n1", codes "a1")
    plain_1 = record {
      node_comma = omega arith;
      node_colon = omega arith;
      node_trim = refl;
      id_comma = omega arith;
      id_trim = refl;
    }

    plain_2 : IsPlain (codes "n2", codes "a:2")
    plain_2 = record {
      node_comma = omega arith;
      node_colon = omega arith;
      node_trim = refl;
      id_comma = omega arith;
      id_trim = refl;
    }
