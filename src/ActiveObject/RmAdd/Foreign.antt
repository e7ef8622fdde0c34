-- ===== src/ActiveObject/RmAdd/Foreign.antt =====
-- `processAoRmAdd` on packets without the player's own object.
use multiserver.Shared.{
  ℕ, ◌^◌, ◌<◌, ◌≡◌, ◌≢◌, refl, ap, ◌∙◌, Bool, true, false, not, ◌&&◌, List, [], ◌∷◌, ◌++◌, map,
  Bytes, ◌==◌, nat_eq, bytes_eq, if◌then◌else◌, length, All, append_assoc, append-nil, arith, ==_ne,
  holds, contains, holds-insert, GoMap, insert, length-map,
}
use multiserver.Shared.Run.{returns}
use multiserver.Wire.{
  Reader, unread, put_uint16, put_uint32, write_uint16, write_uint8, write_bytes32, write_uint32,
}
use multiserver.Conn.{Conn}
use multiserver.ActiveObject.RmAdd.{
  forward_id, Adding, Object, write_object, object_name, add_object, process_ao_rm_add,
  finish_adding, mark_added, mark_removed,
}
use multiserver.ActiveObject.RmAdd.Objects.{
  Fits, encode_ids, encode_object, encode_objects, encode_rm_add, add_objects, start_adding,
  process_ao_rm_add-encode_rm_add,
}
use native.Mathlib.Nat.{mod-eq_of_lt}

-- The object is not the one of the player `name`.
abbrev pub IsForeign : Bytes → Object → Type 0
IsForeign name o = (object_name o.init_data).0 ≢ name

-- An object under the number that the client knows it by.
abbrev pub forward_object : Conn → Object → Object
forward_object c o = record o { id = forward_id c o.id }

pub write_object-encode_object :
    (w : Bytes) (o : Object)
    → Fits o
    → write_object w o.id o.obj_type o.init_data ≡ w ++ encode_object o
unfolding write_object encode_object write_bytes32 write_uint8 write_uint16 write_uint32
write_object-encode_object w o fits =
    ap (λ (k : ℕ). (((w ++ put_uint16 o.id) ++ o.obj_type ∷ []) ++ put_uint32 k) ++ o.init_data)
      (mod-eq_of_lt fits.init_fits)
    ∙ append_assoc ((w ++ put_uint16 o.id) ++ o.obj_type ∷ []) _ _
    ∙ append_assoc (w ++ put_uint16 o.id) _ _
    ∙ append_assoc w _ _

forward_object-Fits :
    (c : Conn) (o : Object) → c.current_player_cao < 2 ^ 16 → Fits o → Fits (forward_object c o)
unfolding forward_id
forward_object-Fits c o h fits = ground arith

other_lem :
    (capacity : ℕ → ℕ) (n m : ℕ) (st : Adding) (o : Object)
    → st.conn.current_player_cao < 2 ^ 16
    → Fits o
    → IsForeign st.conn.username o
    → add_object capacity n m st o
      ≡ returns (record st {
        out = st.out ++ encode_object (forward_object st.conn o);
        ao_add = st.ao_add ++ forward_id st.conn o.id ∷ [];
      })
unfolding add_object
other_lem capacity n m st o h fits foreign =
    rw (==_ne (object_name o.init_data).0 st.conn.username foreign) (
      ap (λ t. returns (record st { out = t; ao_add = st.ao_add ++ forward_id st.conn o.id ∷ [] }))
        (write_object-encode_object st.out (forward_object st.conn o)
          (forward_object-Fits st.conn o h fits)))

abbrev pub forward_objects : Conn → List Object → List Object
forward_objects c = map (forward_object c)

abbrev pub object_ids : List Object → List ℕ
object_ids = map (λ o. o.id)

pub add_objects_foreign :
    (capacity : ℕ → ℕ) (n m : ℕ) (st : Adding) (os : List Object)
    → st.conn.current_player_cao < 2 ^ 16
    → All Fits os
    → All (IsForeign st.conn.username) os
    → add_objects capacity n m st os
      ≡ returns (record st {
        out = st.out ++ encode_objects (forward_objects st.conn os);
        ao_add = st.ao_add ++ object_ids (forward_objects st.conn os);
      })
unfolding add_objects encode_objects
add_objects_foreign capacity n m st [] h fits foreign = rw (append-nil, append-nil)
add_objects_foreign capacity n m st (o ∷ os) h (fo, fits) (io, foreign) =
    let c = st.conn in
    let st' : Adding = record st {
      out = st.out ++ encode_object (forward_object c o);
      ao_add = st.ao_add ++ forward_id c o.id ∷ [];
    } in
    rw (other_lem capacity n m st o h fo io) (
      add_objects_foreign capacity n m st' os h fits foreign
      ∙ cc (
        append_assoc st.out (encode_object (forward_object c o))
            (encode_objects (forward_objects c os)),
        append_assoc st.ao_add (forward_id c o.id ∷ []) (object_ids (forward_objects c os)),
      ))

holds-mark_removed :
    (j : ℕ) (ids : List ℕ) (m : GoMap ℕ Bool)
    → holds j (mark_removed ids m) ≡ (if contains j ids then false else holds j m)
unfolding mark_removed contains
holds-mark_removed j [] m = refl
holds-mark_removed j (id ∷ ids) m =
    ground (arith, holds-mark_removed j ids (insert id false m), holds-insert j id false m)

holds-mark_added :
    (j : ℕ) (ids : List ℕ) (m : GoMap ℕ Bool)
    → holds j (mark_added ids m) ≡ (if contains j ids && not (j == 0) then true else holds j m)
unfolding mark_added contains
holds-mark_added j [] m = refl
holds-mark_added j (id ∷ ids) m = ground (
  arith,
  holds-mark_added j ids (insert id true m),
  holds-mark_added j ids m,
  holds-insert j id true m,
)

-- What the proxy tracks for the client after a packet that removes `rms` and adds `adds`.
abbrev pub tracked : List ℕ → List ℕ → GoMap ℕ Bool → ℕ → Bool
tracked rms adds m j =
    if contains j rms then false else if contains j adds && not (j == 0) then true else holds j m

-- A packet without the player's own object goes to the client with its numbers forwarded and is
-- otherwise unchanged; nothing else is sent, and of the connection only `aoIDs` changes: an object is
-- tracked afterwards if the packet adds it and does not remove it (number 0 is never added), and an
-- object that the packet does not name as before.
pub process_ao_rm_add_foreign :
    (capacity : ℕ → ℕ) (c : Conn) (ids : List ℕ) (os : List Object) (rest : Bytes) (r : Reader)
    → c.current_player_cao < 2 ^ 16
    → length ids < 2 ^ 16
    → length os < 2 ^ 16
    → All (λ id. id < 2 ^ 16) ids
    → All Fits os
    → All (IsForeign c.username) os
    → unread r ≡ encode_rm_add ids os ++ rest
    → (st : Adding) × (process_ao_rm_add capacity c r ≡ returns st)
      × (st.out ≡ encode_rm_add (map (forward_id c) ids) (forward_objects c os))
      × (st.sent ≡ [])
      × (st.conn ≡ record c { ao_ids = st.conn.ao_ids })
      × ((j : ℕ)
          → holds j st.conn.ao_ids
            ≡ tracked (map (forward_id c) ids) (object_ids (forward_objects c os)) c.ao_ids j)
unfolding finish_adding encode_rm_add
process_ao_rm_add_foreign capacity c ids os rest r h few few' hids hos foreign e =
    let start = start_adding c ids os in
    let run = add_objects_foreign capacity (length ids) (length os) start os h hos foreign in
    let st : Adding = record start {
      out = start.out ++ encode_objects (forward_objects c os);
      ao_add = object_ids (forward_objects c os);
    } in
    (
      finish_adding (map (forward_id c) ids) st,
      process_ao_rm_add-encode_rm_add capacity c ids os rest r few few' hids hos e ∙ rw run,
      rw (length-map (forward_id c) ids, length-map (forward_object c) os)
          (ap (λ t. put_uint16 (length ids) ++ t)
            (append_assoc (encode_ids (map (forward_id c) ids)) _ _)),
      refl,
      refl,
      λ j.
          holds-mark_removed j (map (forward_id c) ids) _
          ∙ rw (holds-mark_added j (object_ids (forward_objects c os)) c.ao_ids),
    )
