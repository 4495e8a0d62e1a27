-- ===== src/Network/Servers/Tests.antt =====
-- Servers of nodes at concrete inputs.
use roks_vpc_cni.Base.{◌≡◌, refl, Option, some, List, [], ◌∷◌, ◌++◌, arith}
use roks_vpc_cni.Text.{codes, str_eq, index_byte}
use roks_vpc_cni.Dict.{lookup, insert}
use roks_vpc_cni.Controllers.Effects.{ok}
use roks_vpc_cni.Network.Servers.{
  Node, BareMetalServer, extract_bm_server_id, server_map, build_bm_server_map, hostname_of,
  lookup_or_empty, resolve_by_hostname, first_found, pick_bm_server,
}
use roks_vpc_cni.Network.Servers.Picking.{extract_server, Picked, pick_bm_server-Picked}

abbrev node : Node
node = record { name = codes "sno1-host1.sno1.cloud"; provider_id = []; instance_type = [] }

abbrev servers : Option (List BareMetalServer)
servers = some (record { id = codes "bm-1"; name = codes "sno1-host1" } ∷ [])

picked_by_hostname : pick_bm_server (ok (node ∷ [])) (codes "vpc") servers ≡ ok (codes "bm-1")
unfolding pick_bm_server first_found resolve_by_hostname lookup_or_empty hostname_of
    build_bm_server_map server_map extract_bm_server_id index_byte lookup insert str_eq
picked_by_hostname = refl

server_found :
    extract_bm_server_id (
      codes "ibm://"
      ++ (codes "acc" ++ (b'/' ∷ (codes "us" ++ (b'/' ∷ (codes "us-1" ++ (b'/' ∷ codes "bm-7")))))))
    ≡ codes "bm-7"
server_found =
    extract_server (codes "acc") (codes "us") (codes "us-1") (codes "bm-7") (omega arith)
      (omega arith) (omega arith) (omega arith)

pick_bm_server-Picked_example :
    Picked
      (ok (node ∷ []))
      (build_bm_server_map (codes "vpc") servers)
      (pick_bm_server (ok (node ∷ [])) (codes "vpc") servers)
pick_bm_server-Picked_example = pick_bm_server-Picked (ok (node ∷ [])) (codes "vpc") servers
