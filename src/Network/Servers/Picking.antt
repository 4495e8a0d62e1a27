-- ===== src/Network/Servers/Picking.antt =====
-- Which server is found for a node, and which one is picked for a cluster.
use mathlib.Core.List.{cons-ne-nil}
use roks_vpc_cni.Base.{
  ◌≡◌, ◌≢◌, refl, sym, ◌⊎◌, inl, inr, Option, List, [], ◌∷◌, ◌++◌, arith, Any, All, if◌then◌else◌,
}
use roks_vpc_cni.Text.{
  Str, codes, str_eq, str_eq_iff, has_prefix, split_first, split_lacking, Lacks,
}
use roks_vpc_cni.Dict.{Dict}
use roks_vpc_cni.Controllers.Effects.{Result, ok, err}
use roks_vpc_cni.Network.Servers.{
  Node, BareMetalServer, fourth, extract_bm_server_id, build_bm_server_map, first_found,
  by_provider, by_hostname, pick_bm_server,
}

-- A provider id of the documented form has the server as its fourth part. The parts have no slash.
pub extract_server :
    (account region zone server : Str)
    → Lacks b'/' account
    → Lacks b'/' region
    → Lacks b'/' zone
    → Lacks b'/' server
    → extract_bm_server_id
        (codes "ibm://" ++ (account ++ (b'/' ∷ (region ++ (b'/' ∷ (zone ++ (b'/' ∷ server)))))))
      ≡ server
unfolding extract_bm_server_id fourth has_prefix str_eq
extract_server account region zone server ha hr hz hs = rw (
  split_first b'/' account _ ha,
  split_first b'/' region _ hr,
  split_first b'/' zone _ hz,
  split_lacking b'/' server hs,
)

module _ (f : Node → Str) where
  first_found_sound :
      (id : Str) (nodes : List Node)
      → first_found f nodes ≡ id
      → id ≢ []
      → Any (λ n. f n ≡ id) nodes
  unfolding first_found
  first_found_sound id [] e h = h (sym e)
  first_found_sound id (n ∷ nodes) e h =
      ground (arith, first_found_sound id nodes, str_eq_iff (f n) [])

  first_found_none : (nodes : List Node) → first_found f nodes ≡ [] → All (λ n. f n ≡ []) nodes
  unfolding first_found
  first_found_none [] h = tt
  first_found_none (n ∷ nodes) h = ground (arith, first_found_none nodes, str_eq_iff (f n) [])

-- What picking a server promises: an id that is found for a listed node, by its provider id or by
-- the map of server names; the second only if no node has a provider id. It fails only if the
-- nodes cannot be listed or nothing is found for any node.
abbrev pub Picked : Result (List Node) → Option (Dict Str) → Result Str → Type 0
Picked (err e) m (ok id) = ⊥
Picked (err e) m (err e') = Unit
Picked (ok nodes) m (ok id) =
    (id ≢ [])
    × (Any (λ n. by_provider n ≡ id) nodes
        ⊎ (All (λ n. by_provider n ≡ []) nodes × Any (λ n. by_hostname m n ≡ id) nodes))
Picked (ok nodes) m (err e) =
    All (λ n. by_provider n ≡ []) nodes × All (λ n. by_hostname m n ≡ []) nodes

-- A picked server is one that is found for a listed node, by its provider id or, if no node has
-- one there, by its name in the map of the VPC's servers. Picking fails only if the nodes cannot
-- be listed, or neither way finds a server for any node.
pub pick_bm_server-Picked :
    (listed_nodes : Result (List Node)) (vpc_id : Str) (listed : Option (List BareMetalServer))
    → Picked listed_nodes
        (build_bm_server_map vpc_id listed)
        (pick_bm_server listed_nodes vpc_id listed)
unfolding pick_bm_server str_eq
pick_bm_server-Picked (err e) vpc_id listed = tt
pick_bm_server-Picked (ok nodes) vpc_id listed =
    let m = build_bm_server_map vpc_id listed in
    by_results (first_found by_provider nodes) refl (first_found (by_hostname m) nodes) refl
  where
    by_results :
        (p : Str)
        → first_found by_provider nodes ≡ p
        → (q : Str) → first_found (by_hostname (build_bm_server_map vpc_id listed)) nodes ≡ q
        → Picked (ok nodes) (build_bm_server_map vpc_id listed) (
            if str_eq p []
            then if str_eq q [] then err (codes "no bare metal server found in cluster") else ok q
            else ok p)
    by_results [] ep [] eq = (first_found_none _ nodes ep, first_found_none _ nodes eq)
    by_results [] ep (c ∷ q) eq = (
      cons-ne-nil c q,
      inr (first_found_none _ nodes ep, first_found_sound _ (c ∷ q) nodes eq (cons-ne-nil c q)),
    )
    by_results (c ∷ p) ep q eq =
        (cons-ne-nil c p, inl (first_found_sound _ (c ∷ p) nodes ep (cons-ne-nil c p)))
