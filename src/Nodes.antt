-- ===== src/Nodes.antt =====
-- nodedef.go: the node definitions of the servers, merged into one set of numbers for the client.
pub mod Blocks
pub mod Reserved
pub mod Again
pub mod Names
pub mod Numbers
pub mod Managers
pub mod Translate
mod Tests
use multiserver.Shared.{
  ℕ, zero, suc, ◌+◌, ◌%◌, ◌^◌, Bool, true, false, ◌&&◌, Option, none, some, List, [], ◌∷◌, ◌++◌,
  Bytes, ◌==◌, nat_eq, bytes_eq, leb, if◌then◌else◌, length, GoMap, lookup, insert,
}
use multiserver.Wire.{
  Reader, new_reader, seek_start, seek_current, put_uint16, read_uint16, read_bytes16, write_uint16,
  write_uint8, write_bytes32,
}

abbrev pub content_unknown : ℕ
content_unknown = 125

abbrev pub content_ignore : ℕ
content_ignore = 127

-- `struct NodeDef`; `contents` is its field `data`.
pub record NodeDef : Type 0 where
  pub id : ℕ
  pub name : Bytes
  pub contents : Bytes

-- `nodeDefs`: for each server, the definition under each of its own numbers.
abbrev pub NodeDefs : Type 0
NodeDefs = GoMap Bytes (GoMap ℕ NodeDef)

-- The methods `ID`, `Name` and `Data`, of a nil pointer too.
unfoldable pub id_of : Option NodeDef → ℕ
id_of none = content_unknown
id_of (some d) = d.id

unfoldable pub name_of : Option NodeDef → Bytes
name_of none = []
name_of (some d) = d.name

unfoldable pub data_of : Option NodeDef → Bytes
data_of none = []
data_of (some d) = d.contents

-- `nodeDefs[srv]`: the nil map where the server has none.
unfoldable pub defs_of : Bytes → NodeDefs → GoMap ℕ NodeDef
defs_of srv defs = elim (lookup srv defs) [ none ↦ [] | some m ↦ m ]

-- The first definition of one server that has the name.
unfoldable pub find_in : Bytes → GoMap ℕ NodeDef → Option NodeDef
unfolding name_of
find_in name [] = none
find_in name ((k, d) ∷ m) = if name_of (some d) == name then some d else find_in name m

-- `NodeDefByName(srv, name)`
unfoldable pub node_def_by_name : Bytes → Bytes → NodeDefs → Option NodeDef
unfolding find_in defs_of
node_def_by_name srv name defs = find_in name (defs_of srv defs)

-- The two loops that look for the name on every server.
unfoldable pub find_any : Bytes → NodeDefs → Option NodeDef
unfolding find_in
find_any name [] = none
find_any name ((srv, m) ∷ defs) =
    let rest = find_any name defs in elim (find_in name m) [ none ↦ rest | some d ↦ some d ]

-- `nodeDefs[srv][id] = d`; the server has a map by then.
unfoldable pub put_def : Bytes → ℕ → NodeDef → NodeDefs → NodeDefs
unfolding defs_of
put_def srv id d defs = insert srv (insert id d (defs_of srv defs)) defs

-- What the loops change: the definitions, `nextID` and `total`, two `uint16`s.
pub record Merging : Type 0 where
  pub defs : NodeDefs
  pub next_id : ℕ
  pub total : ℕ

-- `nextID++`, and on over the three reserved numbers.
unfoldable pub following : ℕ → ℕ
following n = if (n + 1) % 2 ^ 16 == content_unknown then content_ignore + 1 else (n + 1) % 2 ^ 16

-- `dr.Seek(1, io.SeekStart); nodeName := string(ReadBytes16(dr))`
unfoldable pub node_name : Bytes → Bytes
node_name defb = (read_bytes16 (seek_start 1 (new_reader defb))).0

-- A name that no server has yet. What `NodeDefByName` gives is written over right away.
unfoldable pub new_node : Bytes → ℕ → Bytes → Bytes → Merging → Merging
unfolding put_def node_def_by_name following
new_node srv id name defb st =
    let earlier : NodeDefs = elim (node_def_by_name srv name st.defs) [
      | none ↦ st.defs
      | some d ↦ put_def srv id (record { id = d.id; name = name; contents = defb }) st.defs
    ] in
    record {
      defs = put_def srv id (record { id = st.next_id; name = name; contents = defb }) earlier;
      next_id = following st.next_id;
      total = (st.total + 1) % 2 ^ 16;
    }

-- One round of the loop over the nodes of a server.
unfoldable pub merge_node : Bytes → ℕ → Bytes → Merging → Merging
unfolding new_node put_def find_any
merge_node srv id defb st = elim (find_any (node_name defb) st.defs) [
  | none ↦ new_node srv id (node_name defb) defb st
  | some d ↦ record st {
    defs = put_def srv id (record { id = d.id; name = []; contents = [] }) st.defs;
  }
]

unfoldable pub merge_nodes : ℕ → Bytes → Reader → Merging → Merging
merge_nodes zero srv r st = st
merge_nodes (suc n) srv r st =
    let (id, r1) = read_uint16 r in
    let (defb, r2) = read_bytes16 r1 in merge_nodes n srv r2 (merge_node srv id defb st)

-- `if nodeDefs[srv] == nil { nodeDefs[srv] = make(…) }`
unfoldable pub ensure_server : Bytes → NodeDefs → NodeDefs
ensure_server srv defs = elim (lookup srv defs) [ none ↦ insert srv [] defs | some m ↦ defs ]

-- What is written of one definition, and of all that have data.
unfoldable pub encode_def : NodeDef → Bytes
encode_def d = put_uint16 d.id ++ (put_uint16 (length d.contents % 2 ^ 16) ++ d.contents)

unfoldable pub encode_server : GoMap ℕ NodeDef → Bytes
unfolding encode_def data_of
encode_server [] = []
encode_server ((k, d) ∷ m) =
    let rest = encode_server m in if data_of (some d) == [] then rest else encode_def d ++ rest

unfoldable pub all_defs : NodeDefs → Bytes
unfolding encode_server
all_defs [] = []
all_defs ((srv, m) ∷ defs) = encode_server m ++ all_defs defs

-- The new manager: its version, the count and the definitions.
unfoldable pub new_manager : Merging → Bytes
new_manager st = write_bytes32 (write_uint16 (write_uint8 [] 1) st.total) (all_defs st.defs)

-- What a manager holds: its version, the count of its nodes, the length of what follows, the nodes.
unfoldable pub merge_manager : Bytes → Bytes → Merging → Merging
unfolding merge_nodes
merge_manager srv mgr st =
    let (count, r) = read_uint16 (seek_start 1 (new_reader mgr)) in
    merge_nodes count srv (seek_current 4 r) st

-- `nodeDefs`, and `nodedef`, the packet for the clients.
pub record Published : Type 0 where
  pub defs : NodeDefs
  pub nodedef : Bytes

-- compress/zlib: what `NewReader` and `Copy` take out of the front of the bytes, with the bytes
-- behind it, or an error; and what a `Writer` makes of the bytes.
module _ (inflate : Bytes → Option (Bytes × Bytes)) (deflate : Bytes → Bytes) where
  -- The loop over the managers; `false` where it returned an error.
  unfoldable pub merge_managers : GoMap Bytes Bytes → Merging → Bool × Merging
  unfolding merge_manager ensure_server
  merge_managers [] st = (true, st)
  merge_managers ((srv, compressed) ∷ mgrs) st =
      let started : Merging = record st { defs = ensure_server srv st.defs } in
      let rest = λ (mgr : Bytes). merge_managers mgrs (merge_manager srv mgr started) in
      elim (inflate compressed) [ none ↦ (false, started) | some (mgr, behind) ↦ rest mgr ]

  -- `mergeNodedefs(mgrs)`: whether it returned no error.
  unfoldable pub merge_nodedefs : GoMap Bytes Bytes → Published → Bool × Published
  unfolding merge_managers new_manager
  merge_nodedefs mgrs p =
      let (done, st) = merge_managers mgrs (record { defs = p.defs; next_id = 0; total = 0 }) in
      (
        done,
        record { defs = st.defs; nodedef = if done then deflate (new_manager st) else p.nodedef },
      )
