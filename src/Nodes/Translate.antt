-- ===== src/Nodes/Translate.antt =====
-- What becomes of the content numbers in a map block and in a new node.
use multiserver.Shared.{
  ℕ, zero, suc, ◌*◌, ◌^◌, ◌<◌, ◌≡◌, refl, sym, ap, ◌∙◌, true, Option, some, List, [], ◌∷◌, ◌++◌,
  map, Bytes, leb, if◌then◌else◌, length, take, drop, nat_eq, All, append_assoc, length-append,
  take_front, drop_front, drop-drop, arith, Bool-cases, inl, inr, length-map,
}
use multiserver.Shared.Run.{returns, panic}
use multiserver.Wire.{Reader, unread, seek_start, read, be_value, put_uint16}
use multiserver.Wire.Fields.{read-front, read_rest}
use multiserver.Conn.{Conn}
use multiserver.Nodes.{NodeDefs}
use multiserver.Nodes.Blocks.{
  node_count, is_reserved, client_id, translate, process_blockdata, process_addnode,
}

-- The contents of a block's nodes as they are sent.
unfoldable pub encode_nodes : List ℕ → Bytes
encode_nodes [] = []
encode_nodes (id ∷ ids) = put_uint16 id ++ encode_nodes ids

-- What the client gets for a server's number.
unfoldable pub shown : (ℕ → ℕ) → ℕ → ℕ
shown new_id id = if is_reserved id then id else new_id id

number_back : (id : ℕ) → id < 2 ^ 16 → be_value 0 (put_uint16 id) ≡ id
number_back id h = omega arith

length-encode_nodes : (ids : List ℕ) → length (encode_nodes ids) ≡ 2 * length ids
unfolding encode_nodes
length-encode_nodes [] = refl
length-encode_nodes (id ∷ ids) = omega (arith, length-encode_nodes ids)

translate-encode_nodes :
    (new_id : ℕ → ℕ) (ids : List ℕ) (rest : Bytes)
    → All (λ id. id < 2 ^ 16) ids
    → translate (length ids) new_id (encode_nodes ids ++ rest)
      ≡ returns (encode_nodes (map (shown new_id) ids) ++ rest)
unfolding translate encode_nodes shown
translate-encode_nodes new_id [] rest h = refl
translate-encode_nodes new_id (id ∷ ids) rest (hid, h) =
    let ih = translate-encode_nodes new_id ids rest h in
    elim (Bool-cases (is_reserved id)) [
      | inl kept ↦ rw (number_back id hid, ih, kept) refl
      | inr moved ↦ rw (number_back id hid, ih, moved) refl
    ]

translate_short :
    (n : ℕ) (new_id : ℕ → ℕ) (nodes : Bytes)
    → length nodes < 2 * n
    → translate n new_id nodes ≡ panic
unfolding translate
translate_short zero new_id nodes h = absurd (omega arith)
translate_short (suc n) new_id [] h = refl
translate_short (suc n) new_id (x ∷ []) h = refl
translate_short (suc n) new_id (x ∷ y ∷ nodes) h =
    rw (translate_short n new_id nodes (omega arith)) refl

read_buf : (n : ℕ) (r : Reader) → (read n r).1.buf ≡ r.buf
unfolding read
read_buf n r = refl

-- The loop leaves what stands behind the nodes, in the buffer and in its array.
array_lem :
    (new_id : ℕ → ℕ) (ids : List ℕ) (more spare : Bytes)
    → length ids ≡ node_count
    → All (λ id. id < 2 ^ 16) ids
    → (array : Bytes) × (translate node_count new_id ((encode_nodes ids ++ more) ++ spare)
        ≡ returns array)
      × (take (length (encode_nodes ids ++ more)) array
          ≡ encode_nodes (map (shown new_id) ids) ++ more)
array_lem new_id ids more spare count hids =
    let out = encode_nodes (map (shown new_id) ids) in
    let run = translate-encode_nodes new_id ids (more ++ spare) hids in
    let len : length (encode_nodes ids ++ more) ≡ length (out ++ more) = omega (
      arith,
      length-append (encode_nodes ids) more,
      length-append out more,
      length-encode_nodes ids,
      length-encode_nodes (map (shown new_id) ids),
      length-map (shown new_id) ids,
    ) in
    (
      (out ++ more) ++ spare,
      ap (translate node_count new_id) (append_assoc (encode_nodes ids) more spare)
          ∙ ap (λ n. translate n new_id (encode_nodes ids ++ (more ++ spare))) (sym count)
          ∙ run
          ∙ ap returns (sym (append_assoc out more spare)),
      rw len (take_front (out ++ more) spare),
    )

-- The packet behind its two bytes of command: the position, five bytes of flags, and the rest.
module _ (inflate : Bytes → Option (Bytes × Bytes)) (deflate spare : Bytes → Bytes)
    (defs : NodeDefs) (srv : Bytes) (c : Conn) where
  -- The block of a packet that is well formed: its position is remembered, the content of each of the
  -- 4096 nodes becomes the client's number for it, but for the three reserved contents, which stay,
  -- and the position, the flags, the rest of the node data and the metadata are passed on as they are.
  pub process_blockdata_lem :
      (a b : ℕ) (flags packed more meta : Bytes) (x y z : ℕ) (ids : List ℕ) (r : Reader)
      → x < 2 ^ 16
      → y < 2 ^ 16
      → z < 2 ^ 16
      → length flags ≡ 5
      → r.pos ≡ 2
      → r.buf ≡ a ∷ b ∷ (put_uint16 x ++ (put_uint16 y ++ (put_uint16 z ++ (flags ++ packed))))
      → inflate packed ≡ some (encode_nodes ids ++ more, meta)
      → length ids ≡ node_count
      → All (λ id. id < 2 ^ 16) ids
      → process_blockdata inflate deflate spare defs srv c r
        ≡ returns (
          record c { blocks = c.blocks ++ (x, y, z) ∷ [] },
          some (
              put_uint16 x
              ++ (put_uint16 y
                  ++ (put_uint16 z
                      ++ (flags
                          ++ (deflate (encode_nodes (map (shown (client_id defs srv)) ids) ++ more)
                              ++ meta))))),
        )
  unfolding process_blockdata
  process_blockdata_lem a b flags packed more meta x y z ids r hx hy hz len start e unpacked count
        hids =
      let new_id = client_id defs srv in
      let pos_data : Bytes = put_uint16 x ++ (put_uint16 y ++ put_uint16 z) in
      let r1 = (read 6 r).1 in
      let e1 : r1.buf ≡ a ∷ b ∷ ((pos_data ++ flags) ++ packed) = read_buf 6 r ∙ e in
      let (pos_eq, _) =
        read-front r pos_data (flags ++ packed) (ap (λ p. drop p r.buf) start ∙ ap (drop 2) e) in
      let packed_eq : unread (seek_start 13 r1) ≡ packed =
        ap (drop 13) e1 ∙ ap (λ n. drop n (flags ++ packed)) (sym len) ∙ drop_front flags packed in
      let (meta_eq, _) = read-front (seek_start 2 r1) (pos_data ++ flags) packed (ap (drop 2) e1) in
      let n11 : length (pos_data ++ flags) ≡ 11 = omega (arith, length-append pos_data flags) in
      let (array, run, front) =
        array_lem new_id ids more (spare (encode_nodes ids ++ more)) count hids in
      let head_eq : (read 11 (seek_start 2 r1)).0 ≡ pos_data ++ flags =
        ap (λ n. (read n (seek_start 2 r1)).0) (sym n11) ∙ meta_eq in
      rw
        (
          process_blockdata,
          packed_eq,
          unpacked,
          run,
          front,
          pos_eq,
          head_eq,
          number_back x hx,
          number_back y hy,
          number_back z hz,
        )
        refl

  -- A block whose node data, with what its buffer's array has behind them, are less than two bytes for
  -- each of 4096 nodes makes the proxy panic, whatever the rest of the packet is.
  process_blockdata_panics :
      (nodes meta : Bytes) (r : Reader)
      → inflate (drop 13 r.buf) ≡ some (nodes, meta)
      → length (nodes ++ spare nodes) < 2 * node_count
      → process_blockdata inflate deflate spare defs srv c r ≡ panic
  unfolding process_blockdata
  process_blockdata_panics nodes meta r unpacked short =
      let unpacked' : inflate (unread (seek_start 13 (read 6 r).1)) ≡ some (nodes, meta) =
        ap (λ b. inflate (drop 13 b)) (read_buf 6 r) ∙ unpacked in
      rw (process_blockdata, unpacked', translate_short node_count (client_id defs srv) _ short)
        refl

-- A new node's content becomes the client's number for it, and the position before it and all that
-- follows are passed on.
process_addnode_lem :
    (defs : NodeDefs) (srv : Bytes) (a b id : ℕ) (pos rest : Bytes) (r : Reader)
    → length pos ≡ 6
    → id < 2 ^ 16
    → r.buf ≡ a ∷ b ∷ (pos ++ (put_uint16 id ++ rest))
    → process_addnode defs srv r ≡ returns (pos ++ (put_uint16 (client_id defs srv id) ++ rest))
unfolding process_addnode
process_addnode_lem defs srv a b id pos rest r len h e =
    let r1 = (read 2 (seek_start 8 r)).1 in
    let whole : Bytes = pos ++ (put_uint16 id ++ rest) in
    let buf1 : r1.buf ≡ a ∷ b ∷ whole = read_buf 2 (seek_start 8 r) ∙ e in
    let at8 : unread (seek_start 8 r) ≡ put_uint16 id ++ rest =
      ap (drop 8) e ∙ ap (λ n. drop n whole) (sym len) ∙ drop_front pos _ in
    let (id_eq, _) = read-front (seek_start 8 r) (put_uint16 id) rest at8 in
    let rest_eq = read_rest (seek_start 2 r1) whole (ap (drop 2) buf1) in
    let front : take 6 whole ≡ pos = ap (λ n. take n whole) (sym len) ∙ take_front pos _ in
    let back : drop 8 whole ≡ rest =
      sym (drop-drop 6 2 whole)
      ∙ ap (λ n. drop 2 (drop n whole)) (sym len)
      ∙ ap (drop 2) (drop_front pos _) in
    let long : leb 8 (length whole) ≡ true =
      ground (arith, length-append pos (put_uint16 id ++ rest)) in
    rw (rest_eq, id_eq, number_back id h, front, back, long) refl
