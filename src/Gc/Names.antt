-- ===== src/Gc/Names.antt =====
-- parseVNIName of pkg/gc/orphan_collector.go.
pub mod Parsing
use roks_vpc_cni.Base.{
  ℕ, suc, ◌+◌, ◌-◌, ◌||◌, ◌≡◌, Option, none, some, [], ◌∷◌, ◌++◌, length, take, drop, leb, not,
  if◌then◌else◌,
}
use roks_vpc_cni.Text.{Str, codes, has_prefix, index_byte}

-- "roks-" + clusterID + "-"
unfoldable pub name_prefix : Str → Str
name_prefix cluster_id = codes "roks-" ++ (cluster_id ++ b'-' ∷ [])

-- what stands behind the prefix, split at its first dash
unfoldable pub split_remainder : Str → Str × Str
split_remainder remainder = elim (index_byte b'-' remainder) [
  | none ↦ ([], [])
  | some dash ↦
      if leb dash 0 || leb (length remainder) (dash + 1)
      then ([], [])
      else (take dash remainder, drop (suc dash) remainder)
]

unfoldable pub parse_vni_name : Str → Str → Str × Str
parse_vni_name vni_name cluster_id =
    let prefix = name_prefix cluster_id in
    if leb (length vni_name) (length prefix)
    then ([], [])
    else if not (has_prefix prefix vni_name)
    then ([], [])
    else split_remainder (drop (length prefix) vni_name)
