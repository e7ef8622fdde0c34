-- ===== src/Rpc/Dispatch.antt =====
-- rpc.go: `processRPC` and the loop of `handleRPC`.
use multiserver.Shared.{
  ℕ, Bool, false, not, ◌||◌, Option, List, [], ◌++◌, Bytes, codes, ◌==◌, bytes_eq, nat_eq,
  if◌then◌else◌,
}
use multiserver.Shared.Run.{Run, returns, ◌>>=◌}
use multiserver.Wire.{Reader, byte_reader, read_uint16, read_bytes16}
use multiserver.Conn.{Conn}
use multiserver.Command.{rpc_ch}
use multiserver.Command.Codes.{to_client_code, mod_channel_signal, mod_channel_msg}
use multiserver.Config.{Entries}
use multiserver.Database.{Database}
use multiserver.Rpc.{RpcEffect, RpcResult, OnlineClient, part, itoa, handle_signal}
use multiserver.Rpc.Requests.{
  finished, reply, rpc_alert, rpc_check_privs, rpc_get_privs, rpc_set_privs, rpc_unban,
  rpc_is_online, rpc_get_srv, rpc_redirect, rpc_get_addr, rpc_ban, rpc_is_banned, rpc_get_defsrv,
  rpc_get_srvs, rpc_mt2mt, rpc_msg2mt,
}

-- What the other parts of the program know: the players online, the connections by name, the number of
-- clients, and the servers that can be told something.
pub record World : Type 0 where
  pub online : Bytes → Bool
  pub client_of : Bytes → Option OnlineClient
  pub conn_count : ℕ
  pub rpc_srvs : List Conn

module _ (d : Database) (parse_ip : Bytes → Bool) (config : Entries) (w : World) where
  -- The `switch` over the command.
  unfoldable pub run_rpc : d.State → Conn → Bytes → Bytes → Bytes → Run (RpcResult d.State)
  run_rpc s c rq msg cmd =
      if cmd == codes "<-ALERT"
      then rpc_alert d s c rq msg
      else if cmd == codes "<-GETDEFSRV"
      then rpc_get_defsrv d s c rq msg config
      else if cmd == codes "<-GETPEERCNT"
      then reply d s c rq msg (codes "->PEERCNT " ++ itoa w.conn_count)
      else if cmd == codes "<-ISONLINE"
      then rpc_is_online d s c rq msg w.online w.client_of
      else if cmd == codes "<-CHECKPRIVS"
      then rpc_check_privs d s c rq msg
      else if cmd == codes "<-GETPRIVS"
      then rpc_get_privs d s c rq msg
      else if cmd == codes "<-SETPRIVS"
      then rpc_set_privs d s c rq msg
      else if cmd == codes "<-GETSRV"
      then rpc_get_srv d s c rq msg w.online w.client_of config
      else if cmd == codes "<-REDIRECT"
      then rpc_redirect d s c rq msg w.online w.client_of
      else if cmd == codes "<-GETADDR"
      then rpc_get_addr d s c rq msg w.online w.client_of
      else if cmd == codes "<-ISBANNED"
      then rpc_is_banned d s c rq msg parse_ip
      else if cmd == codes "<-BAN"
      then rpc_ban d s c rq msg w.online w.client_of parse_ip
      else if cmd == codes "<-UNBAN"
      then rpc_unban d s c rq msg
      else if cmd == codes "<-GETSRVS"
      then rpc_get_srvs d s c rq msg config
      else if cmd == codes "<-MT2MT"
      then rpc_mt2mt d s c rq msg w.rpc_srvs
      else if cmd == codes "<-MSG2MT"
      then rpc_msg2mt d s c rq msg config w.rpc_srvs
      else finished d s c rq msg s []

  -- `processRPC(c, r)`
  unfoldable pub process_rpc : d.State → Conn → Reader → Run (RpcResult d.State)
  process_rpc s c r =
      let (ch, r1) = read_bytes16 r in
      let (sender, r2) = read_bytes16 r1 in
      let (msg, r3) = read_bytes16 r2 in
      let called = part 0 msg >>= λ rq. part 1 msg >>= λ cmd. run_rpc s c rq msg cmd in
      if not (ch == rpc_ch) || not (sender == [])
      then returns (record { taken = false; state = s; effects = [] })
      else called

  -- One round of the loop of `handleRPC`: the connection of the server, the database and the effects.
  unfoldable pub handle_rpc : ℕ → d.State → Conn → Bytes → Run (Conn × d.State × List RpcEffect)
  unfolding handle_signal
  handle_rpc max_size s srv pkt =
      let (cmd, r) = read_uint16 (byte_reader max_size pkt) in
      if cmd == to_client_code mod_channel_signal
      then returns (handle_signal srv r, s, [])
      else if cmd == to_client_code mod_channel_msg
      then (process_rpc s srv r >>= λ h. returns (srv, h.state, h.effects))
      else returns (srv, s, [])
