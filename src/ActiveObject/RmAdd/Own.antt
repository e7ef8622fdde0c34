-- ===== src/ActiveObject/RmAdd/Own.antt =====
-- `processAoRmAdd` on packets that add the player's own object.
use multiserver.Shared.{
  ℕ, zero, suc, ◌+◌, ◌-◌, ◌*◌, ◌%◌, ◌^◌, ◌≤◌, ◌<◌, ◌≡◌, refl, ap, ◌∙◌, true, false, List, [], ◌∷◌,
  ◌++◌, map, Bytes, nat_eq, bytes_eq, length, All, append_assoc, length-append, arith, ==_refl,
  length-map,
}
use multiserver.Shared.Run.{returns}
use multiserver.Wire.{Reader, unread, put_uint16, read_uint8, seek_current}
use multiserver.Conn.{Conn}
use multiserver.ActiveObject.RmAdd.{
  forward_id, Adding, Object, object_name, add_object, process_ao_rm_add, append_msgs, read_msgs,
  patch_uint16, overwrite, finish_adding,
}
use multiserver.ActiveObject.RmAdd.Objects.{
  Fits, encode_ids, encode_object, encode_objects, encode_rm_add, add_objects, start_adding,
  process_ao_rm_add-encode_rm_add,
}
use multiserver.ActiveObject.RmAdd.Foreign.{
  IsForeign, forward_objects, object_ids, add_objects_foreign, write_object-encode_object,
}

-- A write that starts behind the bytes changes none of them.
overwrite_behind : (lo : ℕ) (vs xs : Bytes) → length xs ≤ lo → overwrite lo vs xs ≡ xs
unfolding overwrite
overwrite_behind lo vs [] h = refl
overwrite_behind zero vs (x ∷ xs) h = absurd (omega arith)
overwrite_behind (suc lo) vs (x ∷ xs) h = ap (λ t. x ∷ t) (overwrite_behind lo vs xs (omega arith))

length-encode_ids : (ids : List ℕ) → length (encode_ids ids) ≡ 2 * length ids
unfolding encode_ids
length-encode_ids [] = refl
length-encode_ids (id ∷ ids) = omega (arith, length-encode_ids ids)

-- The messages that a re-added object carries, as the code reads them.
abbrev pub carried : Object → List Bytes
carried o =
    let (msgcount, dr) = read_uint8 (seek_current 30 (object_name o.init_data).1) in
    read_msgs msgcount dr

-- The offset that the code patches lies behind the packet as it is at the first added object.
patch_lem :
    (capacity : ℕ → ℕ) (n v : ℕ) (w : Bytes)
    → length w ≡ 4 + 2 * n
    → n < 2 ^ 15 - 3
    → 6 + 2 * n ≤ capacity (4 + 2 * n)
    → patch_uint16 capacity ((4 + n * 2) % 2 ^ 16) ((6 + n * 2) % 2 ^ 16) v w ≡ returns w
unfolding patch_uint16
patch_lem capacity n v w len few room =
    let lo : (4 + n * 2) % 2 ^ 16 ≡ 4 + 2 * n = omega arith in
    let hi : (6 + n * 2) % 2 ^ 16 ≡ 6 + 2 * n = omega arith in
    rw (lo, hi, len) (ground (arith, overwrite_behind (4 + 2 * n) (put_uint16 v) w (omega arith)))

own_lem :
    (capacity : ℕ → ℕ) (n m : ℕ) (st : Adding) (o : Object) (msgpkt : Bytes)
    → (object_name o.init_data).0 ≡ st.conn.username
    → st.conn.init_ao_received ≡ true
    → append_msgs st.conn (carried o) (0 ∷ 0x32 ∷ []) ≡ returns msgpkt
    → length st.out ≡ 4 + 2 * n
    → n < 2 ^ 15 - 3
    → 6 + 2 * n ≤ capacity (4 + 2 * n)
    → add_object capacity n m st o
      ≡ returns (record st {
        conn = record st.conn { current_player_cao = o.id };
        sent = st.sent ++ msgpkt ∷ [];
      })
unfolding add_object
own_lem capacity n m st o msgpkt own known msgs len few room =
    simp (own, ==_refl st.conn.username, known)
      (rw (msgs, patch_lem capacity n ((m + 2 ^ 16 - 1) % 2 ^ 16) st.out len few room))

length_start :
    (c : Conn) (ids : List ℕ) (os : List Object)
    → length (start_adding c ids os).out ≡ 4 + 2 * length ids
length_start c ids os = omega (
  arith,
  length-append (encode_ids (map (forward_id c) ids)) (put_uint16 (length os)),
  length-encode_ids (map (forward_id c) ids),
  length-map (forward_id c) ids,
)

-- The player's object comes again, alone or with other objects behind it. Its messages are sent on
-- and the number that the server uses now is kept, and the object is left out of the packet. But the
-- count of added objects in the packet stays as it was: it names one more object than there are.
-- The conditions: the messages carry what they name, at most 32764 objects are removed, and the
-- buffer's array has room for two bytes more than the packet written so far.
pub process_ao_rm_add_miscounts :
    (capacity : ℕ → ℕ) (c : Conn) (ids : List ℕ) (o : Object) (others : List Object)
    (rest msgpkt : Bytes) (r : Reader)
    → (object_name o.init_data).0 ≡ c.username
    → c.init_ao_received ≡ true
    → append_msgs c (carried o) (0 ∷ 0x32 ∷ []) ≡ returns msgpkt
    → 6 + 2 * length ids ≤ capacity (4 + 2 * length ids)
    → length ids < 2 ^ 15 - 3
    → length (o ∷ others) < 2 ^ 16
    → All (λ id. id < 2 ^ 16) ids
    → All Fits (o ∷ others)
    → All (IsForeign c.username) others
    → unread r ≡ encode_rm_add ids (o ∷ others) ++ rest
    → (st : Adding) × (process_ao_rm_add capacity c r ≡ returns st)
      × (st.sent ≡ msgpkt ∷ [])
      × (st.conn ≡ record c { current_player_cao = o.id; ao_ids = st.conn.ao_ids })
      × (st.out
          ≡ put_uint16 (length ids)
            ++ (encode_ids (map (forward_id c) ids)
                ++ (put_uint16 (suc (length others))
                    ++ encode_objects
                        (forward_objects (record c { current_player_cao = o.id }) others))))
unfolding finish_adding add_objects
process_ao_rm_add_miscounts capacity c ids o others rest msgpkt r own known msgs room few few' hids
      (fo, fits) foreign e =
    let n = length ids in
    let m = suc (length others) in
    let start = start_adding c ids (o ∷ others) in
    let ids' = encode_ids (map (forward_id c) ids) in
    let len : length start.out ≡ 4 + 2 * n = length_start c ids (o ∷ others) in
    let c' : Conn = record c { current_player_cao = o.id } in
    let st : Adding = record start { conn = c'; sent = msgpkt ∷ [] } in
    let step = own_lem capacity n m start o msgpkt own known msgs len few room in
    let run = add_objects_foreign capacity n m st others fo.id_fits fits foreign in
    (
      finish_adding (map (forward_id c) ids) (record st {
        out = st.out ++ encode_objects (forward_objects c' others);
        ao_add = object_ids (forward_objects c' others);
      }),
      process_ao_rm_add-encode_rm_add capacity c ids (o ∷ others) rest r (omega arith) few' hids
            (fo, fits) e
          ∙ rw step (rw run),
      refl,
      refl,
      ap (λ t. put_uint16 n ++ t) (append_assoc ids' (put_uint16 m) _),
    )

first_lem :
    (capacity : ℕ → ℕ) (n m : ℕ) (st : Adding) (o : Object)
    → Fits o
    → (object_name o.init_data).0 ≡ st.conn.username
    → st.conn.init_ao_received ≡ false
    → add_object capacity n m st o
      ≡ returns (record st {
        conn = record st.conn {
          init_ao_received = true;
          local_player_cao = o.id;
          current_player_cao = o.id;
        };
        out = st.out ++ encode_object o;
      })
unfolding add_object
first_lem capacity n m st o fits own fresh =
    simp (own, ==_refl st.conn.username, fresh) (rw (write_object-encode_object st.out o fits))

forward_objects_same :
    (c : Conn) (os : List Object)
    → c.local_player_cao ≡ c.current_player_cao
    → forward_objects c os ≡ os
unfolding forward_id
forward_objects_same c [] h = refl
forward_objects_same c (o ∷ os) h = ground (arith, forward_objects_same c os h)

-- The player's object comes for the first time, before other objects: it stays in the packet with
-- them, none of the added objects is renumbered, nothing is sent beside the packet, and its number is
-- both the client's and the server's from now on.
process_ao_rm_add_first :
    (capacity : ℕ → ℕ) (c : Conn) (ids : List ℕ) (o : Object) (others : List Object) (rest : Bytes)
    (r : Reader)
    → (object_name o.init_data).0 ≡ c.username
    → c.init_ao_received ≡ false
    → length ids < 2 ^ 16
    → length (o ∷ others) < 2 ^ 16
    → All (λ id. id < 2 ^ 16) ids
    → All Fits (o ∷ others)
    → All (IsForeign c.username) others
    → unread r ≡ encode_rm_add ids (o ∷ others) ++ rest
    → (st : Adding) × (process_ao_rm_add capacity c r ≡ returns st)
      × (st.sent ≡ [])
      × (st.conn ≡ record c {
        init_ao_received = true;
        local_player_cao = o.id;
        current_player_cao = o.id;
        ao_ids = st.conn.ao_ids;
      })
      × (st.out ≡ encode_rm_add (map (forward_id c) ids) (o ∷ others))
unfolding finish_adding add_objects encode_rm_add encode_objects
process_ao_rm_add_first capacity c ids o others rest r own fresh few few' hids (fo, fits) foreign
      e =
    let n = length ids in
    let m = suc (length others) in
    let start = start_adding c ids (o ∷ others) in
    let ids' = encode_ids (map (forward_id c) ids) in
    let c' : Conn = record c {
      init_ao_received = true;
      local_player_cao = o.id;
      current_player_cao = o.id;
    } in
    let st : Adding = record start { conn = c'; out = start.out ++ encode_object o } in
    let step = first_lem capacity n m start o fo own fresh in
    let run = add_objects_foreign capacity n m st others fo.id_fits fits foreign in
    (
      finish_adding (map (forward_id c) ids) (record st {
        out = st.out ++ encode_objects (forward_objects c' others);
        ao_add = object_ids (forward_objects c' others);
      }),
      process_ao_rm_add-encode_rm_add capacity c ids (o ∷ others) rest r few few' hids (fo, fits) e
          ∙ rw step (rw run),
      refl,
      refl,
      rw (length-map (forward_id c) ids, forward_objects_same c' others refl)
          (ap (λ t. put_uint16 n ++ t)
            (append_assoc (ids' ++ put_uint16 m) (encode_object o) _
              ∙ append_assoc ids' (put_uint16 m) _)),
    )
