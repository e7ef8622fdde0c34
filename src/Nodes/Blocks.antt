-- ===== src/Nodes/Blocks.antt =====
-- blockdata.go: the content numbers of a map block and of a new node, translated for the client.
use multiserver.Shared.{
  ℕ, zero, suc, ◌*◌, Bool, ◌&&◌, Option, none, some, [], ◌∷◌, ◌++◌, Bytes, leb, if◌then◌else◌,
  length, take, drop, lookup, nat_eq,
}
use multiserver.Shared.Run.{Run, returns, panic, ◌>>=◌}
use multiserver.Wire.{Reader, unread, reader_len, seek_start, read, be_value, put_uint16}
use multiserver.Conn.{Conn}
use multiserver.Nodes.{NodeDefs, content_unknown, content_ignore, id_of, defs_of}

-- `NodeCount`
abbrev pub node_count : ℕ
node_count = 16 * 16 * 16

-- `contentID >= ContentUnknown && contentID <= ContentIgnore`
unfoldable pub is_reserved : ℕ → Bool
is_reserved id = leb content_unknown id && leb id content_ignore

-- `NodeDefs()[srv][contentID].ID()`
unfoldable pub client_id : NodeDefs → Bytes → ℕ → ℕ
client_id defs srv id = id_of (lookup id (defs_of srv defs))

-- The loop over the nodes, on the bytes of the array that holds them. A slice past its end panics.
unfoldable pub translate : ℕ → (ℕ → ℕ) → Bytes → Run Bytes
unfolding is_reserved
translate zero new_id nodes = returns nodes
translate (suc n) new_id [] = panic
translate (suc n) new_id (h ∷ []) = panic
translate (suc n) new_id (h ∷ l ∷ nodes) =
    let id = be_value 0 (h ∷ l ∷ []) in
    let front = if is_reserved id then h ∷ l ∷ [] else put_uint16 (new_id id) in
    translate n new_id nodes >>= λ rest. returns (front ++ rest)

-- What `processBlockdata` returns, with the connection: nothing where the packet is dropped.
module _ (inflate : Bytes → Option (Bytes × Bytes)) (deflate spare : Bytes → Bytes) where
  -- `spare nodes` are the bytes behind `nodes` in the array of the buffer. The reader stands behind
  -- the command.
  unfoldable pub process_blockdata : NodeDefs → Bytes → Conn → Reader → Run (Conn × Option Bytes)
  unfolding translate client_id
  process_blockdata defs srv c r =
      let (pos_data, r1) = read 6 r in
      let x = be_value 0 (take 2 pos_data) in
      let y = be_value 0 (take 2 (drop 2 pos_data)) in
      let z = be_value 0 (drop 4 pos_data) in
      let c' : Conn = record c { blocks = c.blocks ++ (x, y, z) ∷ [] } in
      elim (inflate (unread (seek_start 13 r1))) [
        | none ↦ returns (c', none)
        | some (nodes, meta) ↦
            translate node_count (client_id defs srv) (nodes ++ spare nodes) >>= λ array.
            let recomp = deflate (take (length nodes) array) in
            let block_meta = (read 11 (seek_start 2 r1)).0 in
            returns (c', some (block_meta ++ (recomp ++ meta)))
      ]

-- `processAddnode(c, r)`
unfoldable pub process_addnode : NodeDefs → Bytes → Reader → Run Bytes
unfolding client_id
process_addnode defs srv r =
    let (id_bytes, r1) = read 2 (seek_start 8 r) in
    let new_id = client_id defs srv (be_value 0 id_bytes) in
    let r2 = seek_start 2 r1 in
    let whole = (read (reader_len r2) r2).0 in
    if leb 8 (length whole)
    then returns (take 6 whole ++ (put_uint16 new_id ++ drop 8 whole))
    else panic
