-- ===== src/Network/Attachments.antt =====
-- ParseAttachments and SerializeAttachments of pkg/controller/network/helpers.go: the annotation
-- that records which VLAN attachment each node has. pkg/controller/node/reconciler.go holds a
-- copy of both functions.
pub mod RoundTrip
mod Tests
use roks_vpc_cni.Base.{none, some, List, [], ◌∷◌, ◌++◌, map, if◌then◌else◌}
use roks_vpc_cni.Text.{Str, str_eq, split, split2, join, trim_space}
use roks_vpc_cni.Dict.{Dict, insert}

-- the body of the loop over the entries
unfoldable pub parse_entry : Str → Dict Str → Dict Str
parse_entry entry result = elim (split2 b':' entry) [
  | none ↦ result
  | some (node, id) ↦ insert (trim_space node) (trim_space id) result
]

unfoldable pub parse_entries : List Str → Dict Str → Dict Str
parse_entries [] result = result
parse_entries (entry ∷ entries) result = parse_entries entries (parse_entry entry result)

unfoldable pub parse_attachments : Str → Dict Str
parse_attachments s = if str_eq s [] then [] else parse_entries (split b',' s) []

-- fmt.Sprintf("%s:%s", node, attID)
abbrev pub entry_text : Str × Str → Str
entry_text e = e.0 ++ b':' ∷ e.1

-- The list gives the map in the order in which `range` visits it.
unfoldable pub serialize_attachments : Dict Str → Str
serialize_attachments m = join (b',' ∷ []) (map entry_text m)
