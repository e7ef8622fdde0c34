-- ===== src/ActiveObject.antt =====
-- active_object.go: active object packets. A server numbers the player's own object as it likes and
-- the client keeps the number that it got first, so the proxy exchanges the two in both directions.
pub mod Messages
pub mod Packets
pub mod RmAdd
mod Tests
use multiserver.Shared.{
  ℕ, zero, suc, ◌+◌, ◌-◌, ◌*◌, ◌%◌, ◌^◌, Bool, true, false, ◌||◌, List, [], ◌∷◌, ◌++◌, Bytes, ◌==◌,
  nat_eq, bytes_eq, leb, if◌then◌else◌, length, take, drop,
}
use multiserver.Shared.Run.{Run, returns, panic, stuck, ◌>>=◌}
use multiserver.Wire.{
  Reader, new_reader, reader_len, put_uint16, read_uint8, read_uint16, read_bytes16, read_bytes32,
  write_uint16, write_uint8, write_bytes16, write_bytes32,
}
use multiserver.Conn.{Conn}

abbrev pub ao_cmd_attach_to : ℕ
ao_cmd_attach_to = 8

abbrev pub ao_cmd_spawn_infant : ℕ
ao_cmd_spawn_infant = 11

-- `if id == currentPlayerCao … else if id == localPlayerCao …`
unfoldable pub swap_id : Conn → ℕ → ℕ
swap_id c id =
    if id == c.current_player_cao
    then c.local_player_cao
    else if id == c.local_player_cao
    then c.current_player_cao
    else id

-- The case of the two commands that name another object, in bytes 1 and 2.
-- `data[1:3]` of a shorter message panics.
unfoldable pub replace_operand : Conn → ℕ → Bytes → Run Bytes
replace_operand c cmd [] = panic
replace_operand c cmd (hi ∷ []) = panic
replace_operand c cmd (hi ∷ lo ∷ rest) =
    let id = hi * 256 + lo in
    if id == c.current_player_cao
    then returns (cmd ∷ put_uint16 c.local_player_cao ++ rest)
    else if id == c.local_player_cao
    then returns (cmd ∷ put_uint16 c.current_player_cao ++ rest)
    else returns (cmd ∷ hi ∷ lo ∷ rest)

-- `aoMsgReplaceIDs`. `data[0]` of an empty message panics.
unfoldable pub ao_msg_replace_ids : Conn → Bytes → Run Bytes
unfolding replace_operand
ao_msg_replace_ids c [] = panic
ao_msg_replace_ids c (cmd ∷ operands) =
    if cmd == ao_cmd_attach_to || cmd == ao_cmd_spawn_infant
    then replace_operand c cmd operands
    else returns (cmd ∷ operands)

-- The loop of `processAoMsgs`, on fuel: each round takes at least 4 bytes.
unfoldable pub ao_msgs_loop : ℕ → Conn → Reader → Bytes → Run Bytes
ao_msgs_loop zero c r w = stuck
ao_msgs_loop (suc fuel) c r w =
    let (id, r1) = read_uint16 r in
    let (data_in, r2) = read_bytes16 r1 in
    let round : Run Bytes = ao_msg_replace_ids c data_in >>= λ msg.
    ao_msgs_loop fuel c r2 (write_bytes16 (write_uint16 w (swap_id c id)) msg) in
    if leb 4 (reader_len r) then round else returns w

unfoldable pub process_ao_msgs : Conn → Reader → Run Bytes
process_ao_msgs c r = ao_msgs_loop (suc (reader_len r)) c r []
