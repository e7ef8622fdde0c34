-- ===== src/ActiveObject/RmAdd.antt =====
-- active_object.go: `processAoRmAdd`, the packet that removes and adds objects.
pub mod Objects
pub mod Foreign
pub mod Own
use multiserver.Shared.{
  ℕ, zero, suc, ◌+◌, ◌-◌, ◌*◌, ◌%◌, ◌^◌, Bool, true, false, not, ◌&&◌, ◌||◌, List, [], ◌∷◌, ◌++◌,
  Bytes, ◌==◌, nat_eq, bytes_eq, leb, if◌then◌else◌, length, GoMap, insert,
}
use multiserver.Shared.Run.{Run, returns, panic, stuck, ◌>>=◌}
use multiserver.Wire.{
  Reader, new_reader, seek_start, seek_current, read, fill, put_uint16, read_uint8, read_uint16,
  read_bytes16, read_bytes32, write_uint16, write_uint8, write_bytes32,
}
use multiserver.Conn.{Conn}
use multiserver.ActiveObject.{ao_msg_replace_ids}

-- `if id == c.localPlayerCao { id = c.currentPlayerCao }`
unfoldable pub forward_id : Conn → ℕ → ℕ
forward_id c id = if id == c.local_player_cao then c.current_player_cao else id

-- The loop over the removed objects: what it wrote, `aoRm` and the reader.
unfoldable pub rm_loop : ℕ → Conn → Reader → Bytes → List ℕ → Bytes × List ℕ × Reader
unfolding forward_id
rm_loop zero c r w ao_rm = (w, ao_rm, r)
rm_loop (suc n) c r w ao_rm =
    let (id, r') = read_uint16 r in
    let id' = forward_id c id in rm_loop n c r' (write_uint16 w id') (ao_rm ++ id' ∷ [])

-- The messages in the initialisation data of the player's own object.
unfoldable pub read_msgs : ℕ → Reader → List Bytes
read_msgs zero dr = []
read_msgs (suc n) dr =
    let (msglen, dr1) = read_uint16 (seek_current 2 dr) in
    let (msg, dr2) = read msglen dr1 in msg ∷ read_msgs n dr2

-- `for _, msg := range msgs { … }`: the packet that carries them to the client.
unfoldable pub append_msgs : Conn → List Bytes → Bytes → Run Bytes
append_msgs c [] msgpkt = returns msgpkt
append_msgs c (msg ∷ msgs) msgpkt = ao_msg_replace_ids c msg >>= λ msg'. append_msgs c msgs (
    msgpkt
    ++ (put_uint16 c.local_player_cao
        ++ (put_uint16 (length msg % 2 ^ 16) ++ fill (length msg) msg')))

-- `PutUint16(data[lo:hi], v)` where `data` is what a `bytes.Buffer` holds, in an array of `capacity`
-- bytes. Bounds past `capacity` panic. What is written behind the length is not seen: the next write goes
-- over it.
unfoldable pub overwrite : ℕ → Bytes → Bytes → Bytes
overwrite lo vs [] = []
overwrite zero [] (x ∷ xs) = x ∷ xs
overwrite zero (v ∷ vs) (x ∷ xs) = v ∷ overwrite zero vs xs
overwrite (suc lo) vs (x ∷ xs) = x ∷ overwrite lo vs xs

unfoldable pub patch_uint16 : (ℕ → ℕ) → ℕ → ℕ → ℕ → Bytes → Run Bytes
unfolding overwrite
patch_uint16 capacity lo hi v w =
    if leb lo hi && leb hi (capacity (length w))
    then returns (overwrite lo (put_uint16 v) w)
    else panic

-- The connection, the packet written so far, `aoAdd` and the packets sent to the client.
pub record Adding : Type 0 where
  pub conn : Conn
  pub out : Bytes
  pub ao_add : List ℕ
  pub sent : List Bytes

-- An added object as the packet has it.
pub record Object : Type 0 where
  pub id : ℕ
  pub obj_type : ℕ
  pub init_data : Bytes

-- `dr.Seek(1, io.SeekStart); name := string(ReadBytes16(dr))`
unfoldable pub object_name : Bytes → Bytes × Reader
object_name init_data = read_bytes16 (seek_start 1 (new_reader init_data))

-- The three writes at the end of a round.
unfoldable pub write_object : Bytes → ℕ → ℕ → Bytes → Bytes
write_object w id obj_type init_data =
    write_bytes32 (write_uint8 (write_uint16 w id) obj_type) init_data

-- The player's own object for the first time.
unfoldable pub first_own : Adding → Object → Adding
unfolding write_object
first_own st o = record st {
  conn = record st.conn {
    init_ao_received = true;
    local_player_cao = o.id;
    current_player_cao = o.id;
  };
  out = write_object st.out o.id o.obj_type o.init_data;
}

-- Another object.
unfoldable pub other_object : Adding → Object → Adding
unfolding write_object forward_id
other_object st o =
    let id' = forward_id st.conn o.id in
    record st {
      out = write_object st.out id' o.obj_type o.init_data;
      ao_add = st.ao_add ++ id' ∷ [];
    }

-- The two loops over `aoIDs` at the end.
unfoldable pub mark_added : List ℕ → GoMap ℕ Bool → GoMap ℕ Bool
mark_added [] m = m
mark_added (id ∷ ids) m = mark_added ids (if id == 0 then m else insert id true m)

unfoldable pub mark_removed : List ℕ → GoMap ℕ Bool → GoMap ℕ Bool
mark_removed [] m = m
mark_removed (id ∷ ids) m = mark_removed ids (insert id false m)

-- The bookkeeping behind the loops, under `redirectMu`.
unfoldable pub finish_adding : List ℕ → Adding → Adding
unfolding mark_added mark_removed
finish_adding ao_rm st = record st {
  conn = record st.conn { ao_ids = mark_removed ao_rm (mark_added st.ao_add st.conn.ao_ids) };
}

-- `capacity n` is the capacity of a buffer that holds `n` bytes.
module _ (capacity : ℕ → ℕ) where
  -- The player's own object, not for the first time: its messages go out under the number that the
  -- client knows, and the object itself is left out of the packet. The offsets are `uint16`s.
  unfoldable pub resend_own : ℕ → ℕ → Adding → Object → Reader → Run Adding
  unfolding patch_uint16
  resend_own count_rm count_add st o dr =
      let (msgcount, dr') = read_uint8 (seek_current 30 dr) in
      append_msgs st.conn (read_msgs msgcount dr') (0 ∷ 0x32 ∷ []) >>= λ msgpkt.
      patch_uint16 capacity ((4 + count_rm * 2) % 2 ^ 16) ((6 + count_rm * 2) % 2 ^ 16)
        ((count_add + 2 ^ 16 - 1) % 2 ^ 16) st.out
      >>= λ w. returns (record st {
        conn = record st.conn { current_player_cao = o.id };
        out = w;
        sent = st.sent ++ msgpkt ∷ [];
      })

  -- One round of the loop over the added objects.
  unfoldable pub add_object : ℕ → ℕ → Adding → Object → Run Adding
  unfolding resend_own first_own other_object object_name
  add_object count_rm count_add st o =
      let (name, dr) = object_name o.init_data in
      if name == st.conn.username
      then (if st.conn.init_ao_received
          then resend_own count_rm count_add st o dr
          else returns (first_own st o))
      else returns (other_object st o)

  unfoldable pub add_loop : ℕ → ℕ → ℕ → Adding → Reader → Run Adding
  add_loop zero count_rm count_add st r = returns st
  add_loop (suc n) count_rm count_add st r =
      let (id, r1) = read_uint16 r in
      let (obj_type, r2) = read_uint8 r1 in
      let (init_data, r3) = read_bytes32 r2 in
      add_object count_rm count_add st
        (record { id = id; obj_type = obj_type; init_data = init_data })
      >>= λ st'. add_loop n count_rm count_add st' r3

  -- The whole function: the connection, the packet for the client and the packets sent on the way.
  unfoldable pub process_ao_rm_add : Conn → Reader → Run Adding
  process_ao_rm_add c r =
      let (count_rm, r1) = read_uint16 r in
      let (w, ao_rm, r2) = rm_loop count_rm c r1 (write_uint16 [] count_rm) [] in
      let (count_add, r3) = read_uint16 r2 in
      add_loop count_add count_rm count_add
        (record { conn = c; out = write_uint16 w count_add; ao_add = []; sent = [] }) r3
      >>= λ st. returns (finish_adding ao_rm st)
