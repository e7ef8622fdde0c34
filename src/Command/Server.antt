-- ===== src/Command/Server.antt =====
-- `processPktCommand` for packets from a server: the source is a server, the destination a client.
use multiserver.Shared.{
  ℕ, ◌+◌, ◌/◌, ◌%◌, ◌^◌, Bool, true, false, ◌&&◌, ◌||◌, Option, none, some, List, [], ◌∷◌, ◌++◌,
  map, Bytes, codes, insert, ◌==◌, nat_eq, bytes_eq, if◌then◌else◌,
}
use multiserver.Shared.Run.{Run, returns, ◌>>=◌}
use multiserver.Wire.{
  Reader, byte_reader, reader_len, seek_start, seek_current, read, read_uint8, read_uint16,
  read_uint32, read_bytes16,
}
use multiserver.Conn.{Conn}
use multiserver.ActiveObject.{swap_id, process_ao_msgs}
use multiserver.ActiveObject.RmAdd.{patch_uint16, process_ao_rm_add}
use multiserver.Command.{
  rpc_ch, Effect, send_dst, chat_dst, redirect_dst, await_src, server_chat_message, rpc, blockdata,
  add_node, inventory, media_push, Outcome, handled, delegated, Config,
}
use multiserver.Command.Codes as Codes
use multiserver.Command.Codes.{to_client_code}

-- `ModChSigJoinOk`, `ModChSigSetState`, `ModChStateRO`
abbrev pub mod_ch_sig_join_ok : ℕ
mod_ch_sig_join_ok = 0

abbrev pub mod_ch_sig_set_state : ℕ
mod_ch_sig_set_state = 5

abbrev pub mod_ch_state_ro : ℕ
mod_ch_state_ro = 2

-- `switch sig { … }`: the change of `src.UseRPC()`.
abbrev pub signal_rpc : ℕ → ℕ → Conn → Conn
signal_rpc sig state src =
    if sig == mod_ch_sig_join_ok
    then record src { use_rpc = true }
    else if sig == mod_ch_sig_set_state && state == mod_ch_state_ro
    then record src { use_rpc = false }
    else src

-- A signal of a mod channel: the server's connection, and whether the packet is dropped.
unfoldable pub mod_channel_signal : Conn → Reader → Conn × Bool
mod_channel_signal src r =
    let (ch, r1) = read_bytes16 (seek_current 1 r) in
    let (state, r2) = read_uint8 r1 in
    let (sig, _) = read_uint8 (seek_start 2 r2) in
    if ch == rpc_ch then (signal_rpc sig state src, true) else (src, false)

unfoldable pub hud_add : Conn → Reader → Conn
hud_add dst r = record dst { huds = insert (read_uint32 r).0 true dst.huds }

unfoldable pub hud_rm : Conn → Reader → Conn
hud_rm dst r = record dst { huds = insert (read_uint32 r).0 false dst.huds }

-- The packet without its command, read from the start, and the reader behind it.
abbrev pub whole_data : Reader → Bytes × Reader
whole_data r = let r' = seek_start 2 r in read (reader_len r') r'

-- A new sound: the client's connection and the data of the packet. The array of `data` is as long as it.
unfoldable pub play_sound : Conn → Reader → Run (Conn × Bytes)
play_sound dst r =
    let (id, r1) = read_uint32 r in
    let (namelen, r2) = read_uint16 r1 in
    let (obj_id, r3) = read_uint16 (seek_start ((17 + namelen) % 2 ^ 16) r2) in
    let (data_in, r4) = whole_data r3 in
    let (loop, _) = read_uint8 r4 in
    patch_uint16 (λ n. n) ((17 + namelen) % 2 ^ 16) ((19 + namelen) % 2 ^ 16) (swap_id dst obj_id)
      data_in
    >>= λ data_out.
        returns
          (if loop == 0 then dst else record dst { sounds = insert id true dst.sounds }, data_out)

unfoldable pub stop_sound : Conn → Reader → Conn
stop_sound dst r = record dst { sounds = insert (read_uint32 r).0 false dst.sounds }

unfoldable pub add_particle_spawner : Conn → Reader → Run Bytes
add_particle_spawner dst r =
    let (texturelen, r1) = read_uint32 (seek_start 97 r) in
    let (id, r2) = read_uint16 (seek_current ((6 + texturelen) % 2 ^ 32) r1) in
    let (data_in, _) = whole_data r2 in
    patch_uint16 (λ n. n) ((107 + texturelen) % 2 ^ 32) ((109 + texturelen) % 2 ^ 32)
      (swap_id dst id) data_in

-- `AccessDeniedShutdown`, `AccessDeniedCrash`
abbrev pub access_denied_shutdown : ℕ
access_denied_shutdown = 11

abbrev pub access_denied_crash : ℕ
access_denied_crash = 12

abbrev pub fallback_message : ℕ → Bytes
fallback_message reason =
    codes "The minetest server has "
    ++ ((if reason == access_denied_crash then codes "crashed" else codes "shut down")
        ++ codes ", connecting you to the default server...")

abbrev pub fallback_to : ℕ → Option Bytes → Bytes → Bool × List Effect
fallback_to reason none server = (false, [])
fallback_to reason (some defsrv) server =
    if server == defsrv
    then (false, [])
    else (true, chat_dst (fallback_message reason) ∷ redirect_dst defsrv ∷ await_src ∷ [])

-- `if ok && !doFallback { return false }`
abbrev pub unless_off : Option Bool → Bool × List Effect → Bool × List Effect
unless_off (some false) x = (false, [])
unless_off _ x = x

-- The server shuts down: whether the packet is dropped, and the redirection. `server` is
-- `dst.ServerName()`.
unfoldable pub access_denied : Config → Bytes → Reader → Bool × List Effect
access_denied conf server r =
    let (reason, _) = read_uint8 r in
    let denied = fallback_to reason conf.default_server server in
    unless_off conf.do_fallback (
      if reason == access_denied_shutdown || reason == access_denied_crash
      then denied
      else (false, []))

abbrev pub passed : Conn → Conn → Bytes → Outcome
passed src dst pkt =
    handled (record { src = src; dst = dst; reader = pkt; dropped = false; effects = [] })

-- The `switch` over the command, with the reader behind it; `pkt` are the bytes of the packet.
module _ (capacity : ℕ → ℕ) (conf : Config) (server : Bytes) where
  unfoldable pub process_server_command : Conn → Conn → Bytes → ℕ → Reader → Run Outcome
  unfolding process_ao_rm_add process_ao_msgs mod_channel_signal hud_add hud_rm play_sound
      stop_sound add_particle_spawner access_denied
  process_server_command src dst pkt cmd r =
      let cmd_bytes = (cmd / 256) ∷ (cmd % 256) ∷ [] in
      if cmd == to_client_code Codes.active_object_remove_add
      then (process_ao_rm_add capacity dst r >>= λ st. returns (
          handled (record {
            src = src;
            dst = st.conn;
            reader = cmd_bytes ++ st.out;
            dropped = false;
            effects = map send_dst st.sent;
          })))
      else if cmd == to_client_code Codes.active_object_messages
      then (process_ao_msgs dst r >>= λ w. returns (passed src dst (cmd_bytes ++ w)))
      else if cmd == to_client_code Codes.chat_message
      then returns (delegated server_chat_message (seek_current 2 r))
      else if cmd == to_client_code Codes.mod_channel_signal
      then returns (
          handled (record {
            src = (mod_channel_signal src r).0;
            dst = dst;
            reader = pkt;
            dropped = (mod_channel_signal src r).1;
            effects = [];
          }))
      else if cmd == to_client_code Codes.mod_channel_msg
      then returns (delegated rpc r)
      else if cmd == to_client_code Codes.blockdata
      then returns (delegated blockdata r)
      else if cmd == to_client_code Codes.add_node
      then returns (delegated add_node r)
      else if cmd == to_client_code Codes.hud_add
      then returns (passed src (hud_add dst r) pkt)
      else if cmd == to_client_code Codes.hud_rm
      then returns (passed src (hud_rm dst r) pkt)
      else if cmd == to_client_code Codes.play_sound
      then (play_sound dst r >>= λ out. returns (passed src out.0 (cmd_bytes ++ out.1)))
      else if cmd == to_client_code Codes.stop_sound
      then returns (passed src (stop_sound dst r) pkt)
      else if cmd == to_client_code Codes.add_particle_spawner
      then (add_particle_spawner dst r >>= λ out. returns (passed src dst (cmd_bytes ++ out)))
      else if cmd == to_client_code Codes.inventory
      then returns (delegated inventory r)
      else if cmd == to_client_code Codes.access_denied
      then returns (
          handled (record {
            src = src;
            dst = dst;
            reader = pkt;
            dropped = (access_denied conf server r).0;
            effects = (access_denied conf server r).1;
          }))
      else if cmd == to_client_code Codes.media_push
      then returns (delegated media_push r)
      else returns (passed src dst pkt)

  -- `processPktCommand(src, dst, pkt)` for a server `src`. A reader holds at most `max_size` bytes.
  unfoldable pub server_packet : ℕ → Conn → Conn → Bytes → Run Outcome
  server_packet max_size src dst pkt =
      let r = byte_reader max_size pkt in
      let (cmd, r') = read_uint16 r in process_server_command src dst r.buf cmd r'
