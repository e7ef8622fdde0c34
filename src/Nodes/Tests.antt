-- ===== src/Nodes/Tests.antt =====
-- Node definitions and map blocks at concrete inputs.
use multiserver.Shared.{
  ℕ, zero, suc, ◌+◌, ◌^◌, ◌<◌, ◌≡◌, ◌≢◌, ◌==◌, ◌&&◌, refl, false, Option, some, inl, [], ◌∷◌, ◌++◌,
  map, Bytes, All, List, codes, replicate, length-replicate, arith, GoMap, bytes_eq, nat_eq, lookup,
  insert, bytes_beq,
}
use multiserver.Shared.Run.{returns}
use multiserver.Wire.{
  put_uint16, new_reader, seek_start, read_bytes16, read_uint16, read, fill, reader_len,
}
use multiserver.Conn.{Conn, zero_conn}
use multiserver.Nodes.{
  NodeDefs, Merging, merge_nodedefs, merge_managers, merge_manager, merge_nodes, new_node,
  node_def_by_name, ensure_server, following, merge_node, find_any, find_in, node_name, name_of,
  put_def, defs_of,
}
use multiserver.Nodes.Blocks.{node_count, client_id, process_blockdata}
use multiserver.Nodes.Reserved.{OpenDefs, merge_nodedefs-OpenDefs}
use multiserver.Nodes.Names.{def_at}
use multiserver.Nodes.Again.{merge_rounds, merge_node_again}
use multiserver.Nodes.Managers.{all_nodes, merge_nodedefs_distinct}
use multiserver.Nodes.Numbers.{DefinedAt}
use multiserver.Nodes.Translate.{encode_nodes, shown, process_blockdata_lem}

-- Data that is not compressed.
abbrev plain : Bytes → Option (Bytes × Bytes)
plain b = some (b, [])

-- One node, with its own number 5 and the name "x".
abbrev node_x : Bytes
node_x = 13 ∷ 0 ∷ 1 ∷ codes "x"

abbrev manager : Bytes
manager = 1 ∷ 0 ∷ 1 ∷ 0 ∷ 0 ∷ 0 ∷ 8 ∷ (put_uint16 5 ++ (put_uint16 4 ++ node_x))

abbrev managers : GoMap Bytes Bytes
managers = (codes "a", manager) ∷ (codes "b", manager) ∷ []

merge_nodedefs-OpenDefs_example :
    OpenDefs (merge_nodedefs plain (λ b. b) managers (record { defs = []; nodedef = [] })).1.defs
merge_nodedefs-OpenDefs_example =
    merge_nodedefs-OpenDefs plain (λ b. b) managers (record { defs = []; nodedef = [] }) tt

abbrev merged : NodeDefs
merged = (merge_nodedefs plain (λ b. b) managers (record { defs = []; nodedef = [] })).1.defs

x_at : DefinedAt (codes "a") 5 (record { id = 0; name = codes "x"; contents = node_x }) merged
unfolding merge_nodedefs merge_managers merge_manager merge_nodes merge_node new_node find_any
    find_in node_name name_of node_def_by_name put_def defs_of ensure_server following lookup insert
    read_uint16 read_bytes16 read fill reader_len bytes_beq
x_at = (refl, refl)

few : all_nodes plain managers + 3 < 2 ^ 16
unfolding all_nodes read_uint16 read fill
few = omega arith

merge_nodedefs_distinct_example : (codes "a" ≡ codes "a") × (◌≡◌ {A = ℕ} 5 5)
merge_nodedefs_distinct_example =
    merge_nodedefs_distinct plain (λ b. b) managers (codes "a") (codes "a") 5 5
      (record { id = 0; name = codes "x"; contents = node_x })
      (record { id = 0; name = codes "x"; contents = node_x }) few x_at x_at (inl refl)

abbrev fresh : Merging
fresh = record { defs = []; next_id = 7; total = 0 }

abbrev node_y : Bytes
node_y = 13 ∷ 0 ∷ 1 ∷ codes "y"

-- The node "y" is merged between the two rounds for "x".
abbrev between : List (Bytes × ℕ × Bytes)
between = (codes "a", 6, node_y) ∷ []

named_x : node_name node_x ≢ []
unfolding node_name read_bytes16 read_uint16 read fill reader_len
named_x h = cc h

y_apart :
    ((node_name node_y == node_name node_x) ≡ false)
    × ((codes "a" == codes "a" && ◌==◌ {K = ℕ} 6 5) ≡ false)
unfolding node_name read_bytes16 read_uint16 read fill reader_len bytes_beq
y_apart = (refl, refl)

merge_node_again_example :
    (def_at (codes "a") 5 (merge_rounds between (merge_node (codes "a") 5 node_x fresh)).defs
      ≡ some (record { id = 7; name = node_name node_x; contents = node_x }))
    × (def_at
          (codes "a")
          5
          (merge_node
            (codes "a")
            5
            node_x
            (merge_rounds between (merge_node (codes "a") 5 node_x fresh))).defs
        ≡ some (record { id = 7; name = []; contents = [] }))
    × (def_at
          (codes "a")
          5
          (merge_node
            (codes "a")
            5
            node_x
            (merge_rounds between (merge_node (codes "a") 5 node_x fresh))).defs
        ≡ some (record { id = 7; name = []; contents = [] }))
unfolding bytes_beq
merge_node_again_example =
    merge_node_again (codes "a") (codes "a") 5 5 node_x node_x between fresh
      (unfold find_any in refl) named_x refl (y_apart, tt)

All-replicate : (n : ℕ) → All (λ id. id < 2 ^ 16) (replicate n 0)
All-replicate zero = tt
All-replicate (suc n) = (omega arith, All-replicate n)

abbrev zeros : List ℕ
zeros = replicate node_count 0

abbrev client : Conn
client = zero_conn false []

process_blockdata_lem_example :
    process_blockdata
      (λ b. some (encode_nodes zeros ++ 9 ∷ [], b))
      (λ b. b)
      (λ b. [])
      []
      []
      client
      (seek_start 2 (new_reader (0 ∷ 32 ∷ 0 ∷ 1 ∷ 0 ∷ 2 ∷ 0 ∷ 3 ∷ 0 ∷ 0 ∷ 0 ∷ 2 ∷ 2 ∷ 7 ∷ [])))
    ≡ returns (
      record client { blocks = (1, 2, 3) ∷ [] },
      some (
          0
          ∷ 1
          ∷ 0
          ∷ 2
          ∷ 0
          ∷ 3
          ∷ 0
          ∷ 0
          ∷ 0
          ∷ 2
          ∷ 2
          ∷ ((encode_nodes (map (shown (client_id [] [])) zeros) ++ 9 ∷ []) ++ 7 ∷ [])),
    )
process_blockdata_lem_example =
    process_blockdata_lem (λ b. some (encode_nodes zeros ++ 9 ∷ [], b)) (λ b. b) (λ b. []) [] []
      client 0 32 (0 ∷ 0 ∷ 0 ∷ 2 ∷ 2 ∷ []) (7 ∷ []) (9 ∷ []) (7 ∷ []) 1 2 3 zeros _ (omega arith)
      (omega arith) (omega arith) refl refl refl refl (length-replicate {A = ℕ} node_count 0)
      (All-replicate node_count)
