-- ===== src/ActiveObject/Tests.antt =====
-- Concrete packets of the player "ann", whom the client knows by 5 and the server by 9.
use multiserver.Shared.{
  ℕ, ◌+◌, ◌*◌, ◌/◌, ◌≡◌, ◌≢◌, refl, true, false, List, [], ◌∷◌, ◌++◌, map, Bytes, All, codes,
  replicate, arith, holds, nat_eq, bytes_eq,
}
use multiserver.Shared.Run.{returns, panic, stuck}
use multiserver.Wire.{
  Reader, new_reader, put_uint16, read_uint16, read_uint8, read_bytes16, read, fill, reader_len,
  write_uint16, write_bytes16,
}
use multiserver.Conn.{Conn, zero_conn}
use multiserver.ActiveObject.{process_ao_msgs, ao_msgs_loop, ao_msg_replace_ids, swap_id}
use multiserver.ActiveObject.Messages.{AoMsg, encode_msg, encode_msgs, translate, IsWellFormed}
use multiserver.ActiveObject.Packets.{
  process_ao_msgs-encode_msgs, process_ao_msgs_panics, process_ao_msgs-ne-stuck, no_command,
}
use multiserver.ActiveObject.RmAdd.{
  Adding, Object, forward_id, object_name, process_ao_rm_add, append_msgs, read_msgs,
}
use multiserver.ActiveObject.RmAdd.Objects.{encode_ids, encode_objects, encode_rm_add}
use multiserver.ActiveObject.RmAdd.Foreign.{
  forward_objects, object_ids, tracked, process_ao_rm_add_foreign,
}
use multiserver.ActiveObject.RmAdd.Own.{carried, process_ao_rm_add_miscounts}

abbrev ann : Conn
ann = record (zero_conn false []) {
  username = codes "ann";
  init_ao_received = true;
  local_player_cao = 5;
  current_player_cao = 9;
}

-- A punch of the player's own object, and an attachment of object 3 to it.
abbrev msgs : List AoMsg
msgs =
    record { id = 9; cmd = 4; operands = 1 ∷ [] }
    ∷ record { id = 3; cmd = 8; operands = 0 ∷ 9 ∷ 7 ∷ [] }
    ∷ []

msgs_fit : All IsWellFormed msgs
msgs_fit = ground arith

abbrev packet : Reader
packet = new_reader (encode_msgs msgs ++ 0 ∷ [])

msgs_run :
    process_ao_msgs ann packet
    ≡ returns (0 ∷ 5 ∷ 0 ∷ 2 ∷ 4 ∷ 1 ∷ 0 ∷ 3 ∷ 0 ∷ 4 ∷ 8 ∷ 0 ∷ 5 ∷ 7 ∷ [])
unfolding process_ao_msgs ao_msgs_loop ao_msg_replace_ids swap_id encode_msgs encode_msg read_uint16
    read_bytes16 fill reader_len write_uint16 write_bytes16
msgs_run = refl

process_ao_msgs-encode_msgs_example :
    process_ao_msgs ann packet ≡ returns (encode_msgs (map (translate ann) msgs))
process_ao_msgs-encode_msgs_example =
    process_ao_msgs-encode_msgs ann msgs (0 ∷ []) packet msgs_fit (omega arith) refl

-- An empty message behind two good ones.
abbrev bad_packet : Reader
bad_packet = new_reader (encode_msgs msgs ++ 0 ∷ 3 ∷ 0 ∷ 0 ∷ [])

process_ao_msgs_panics_example : process_ao_msgs ann bad_packet ≡ panic
process_ao_msgs_panics_example =
    process_ao_msgs_panics ann msgs 3 [] [] bad_packet msgs_fit (omega arith) no_command refl

process_ao_msgs-ne-stuck_example : process_ao_msgs ann bad_packet ≢ stuck
process_ao_msgs-ne-stuck_example = process_ao_msgs-ne-stuck ann bad_packet

-- Objects: a stranger, and the player's own with one message behind its name and properties.
abbrev stranger : Object
stranger = record { id = 5; obj_type = 101; init_data = 1 ∷ 0 ∷ 1 ∷ 120 ∷ [] }

abbrev own_object : Object
own_object = record {
  id = 12;
  obj_type = 101;
  init_data = 1 ∷ 0 ∷ 3 ∷ 97 ∷ 110 ∷ 110 ∷ replicate 30 0 ++ 1 ∷ 0 ∷ 0 ∷ 0 ∷ 2 ∷ 0 ∷ 7 ∷ [];
}

stranger_name : (object_name stranger.init_data).0 ≢ codes "ann"
unfolding object_name read_bytes16 read_uint16 fill reader_len
stranger_name e = cc

own_name : (object_name own_object.init_data).0 ≡ codes "ann"
unfolding object_name read_bytes16 read_uint16 fill reader_len
own_name = refl

-- The capacity of a buffer that grows in steps of 64 bytes.
abbrev capacity : ℕ → ℕ
capacity n = (n / 64 + 1) * 64

abbrev strangers : Reader
strangers = new_reader (encode_rm_add (7 ∷ []) (stranger ∷ []) ++ [])

process_ao_rm_add_foreign_example :
    (st : Adding) × (process_ao_rm_add capacity ann strangers ≡ returns st)
    × (st.out ≡ encode_rm_add (map (forward_id ann) (7 ∷ [])) (forward_objects ann (stranger ∷ [])))
    × (st.sent ≡ [])
    × (st.conn ≡ record ann { ao_ids = st.conn.ao_ids })
    × ((j : ℕ)
        → holds j st.conn.ao_ids
          ≡ tracked
              (map (forward_id ann) (7 ∷ []))
              (object_ids (forward_objects ann (stranger ∷ [])))
              []
              j)
process_ao_rm_add_foreign_example =
    process_ao_rm_add_foreign capacity ann (7 ∷ []) (stranger ∷ []) [] strangers (omega arith)
      (omega arith) (omega arith) (omega arith) (omega arith) (stranger_name, tt) refl

abbrev own_packet : Reader
own_packet = new_reader (encode_rm_add [] (own_object ∷ stranger ∷ []) ++ [])

abbrev message_packet : Bytes
message_packet = 0 ∷ 0x32 ∷ 0 ∷ 5 ∷ 0 ∷ 2 ∷ 0 ∷ 7 ∷ []

own_messages : append_msgs ann (carried own_object) (0 ∷ 0x32 ∷ []) ≡ returns message_packet
unfolding append_msgs read_msgs ao_msg_replace_ids object_name read_bytes16 read_uint16 read_uint8
    read fill reader_len
own_messages = refl

process_ao_rm_add_miscounts_example :
    (st : Adding) × (process_ao_rm_add capacity ann own_packet ≡ returns st)
    × (st.sent ≡ message_packet ∷ [])
    × (st.conn ≡ record ann { current_player_cao = 12; ao_ids = st.conn.ao_ids })
    × (st.out
        ≡ put_uint16 0
          ++ (encode_ids (map (forward_id ann) [])
              ++ (put_uint16 2
                  ++ encode_objects
                      (forward_objects (record ann { current_player_cao = 12 }) (stranger ∷ [])))))
process_ao_rm_add_miscounts_example =
    process_ao_rm_add_miscounts capacity ann [] own_object (stranger ∷ []) [] message_packet
      own_packet own_name refl own_messages (omega arith) (omega arith) (omega arith) tt
      (omega arith) (stranger_name, tt) refl

abbrev new_ann : Conn
new_ann = record (zero_conn false []) { username = codes "ann" }
