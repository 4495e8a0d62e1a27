-- ===== src/Controllers/Nodes/Tests.antt =====
-- A node that leaves, at concrete networks.
use roks_vpc_cni.Base.{◌≡◌, refl, none, [], ◌∷◌, arith}
use roks_vpc_cni.Text.{codes, str_eq, split, split2, trim_space}
use roks_vpc_cni.Dict.{lookup, insert}
use roks_vpc_cni.Controllers.Effects.{ok, finished}
use roks_vpc_cni.Network.Samples.{env_with, net}
use roks_vpc_cni.Network.Objects.{NetworkObject, stored}
use roks_vpc_cni.Network.Attachments.{parse_entry, parse_entries, parse_attachments}
use roks_vpc_cni.Network.Attachments.RoundTrip.{IsPlain}
use roks_vpc_cni.Controllers.Nodes.{NodeEnv, detach_network, reconcile, missing}
use roks_vpc_cni.Controllers.Nodes.Detached.{
  attachments_of, lookup-detach_network, updates, others, forgotten, Forgets, reconcile-missing,
}

abbrev left : NetworkObject
left = record net {
  annotations = record net.annotations { vlan_attachments = codes "n1:a1,n2:a2" };
}

abbrev env : NodeEnv
env = record {
  network = env_with [];
  list_cudns = λ t. ok (record { object = left; topology = codes "LocalNet" } ∷ []);
  list_udns = λ t. ok [];
}

n1-IsPlain : IsPlain (codes "n1", codes "a1")
unfolding trim_space
n1-IsPlain = record {
  node_comma = omega arith;
  node_colon = omega arith;
  node_trim = refl;
  id_comma = omega arith;
  id_trim = refl;
}

n2-IsPlain : IsPlain (codes "n2", codes "a2")
unfolding trim_space
n2-IsPlain = record {
  node_comma = omega arith;
  node_colon = omega arith;
  node_trim = refl;
  id_comma = omega arith;
  id_trim = refl;
}

lookup-detach_network_example :
    lookup (codes "n1") (attachments_of (stored left (detach_network env (codes "n1") left []).1))
    ≡ none
unfolding parse_attachments parse_entries parse_entry split split2 trim_space insert lookup str_eq
lookup-detach_network_example =
    lookup-detach_network env (codes "n1") left (n1-IsPlain, refl, (n2-IsPlain, refl, tt))
      (λ o. refl) (codes "n1")

reconcile-missing_example :
    let (r, t) = reconcile env (codes "n1") missing [] in
    (r ≡ finished) × (updates t ≡ forgotten (codes "n1") (left ∷ [])) × (others t ≡ 0)
unfolding Forgets
reconcile-missing_example = reconcile-missing env (codes "n1")
