-- ===== src/Rpc.antt =====
-- rpc.go: the messages that servers and the proxy exchange on a mod channel.
pub mod Requests
pub mod Dispatch
pub mod Telling
pub mod Calls
mod Tests
use multiserver.Shared.{
  ℕ, zero, suc, ◌+◌, ◌/◌, ◌%◌, ◌^◌, Bool, true, false, not, ◌&&◌, Option, none, some, List, [], ◌∷◌,
  ◌++◌, map, Bytes, codes, ◌==◌, bytes_eq, nat_eq, ltb, if◌then◌else◌, length, get_elem?, drop,
}
use multiserver.Shared.Run.{Run, returns, panic, ◌>>=◌}
use multiserver.Wire.{
  Reader, byte_reader, seek_start, seek_current, put_uint16, read_uint8, read_uint16, read_bytes16,
  write_bytes16,
}
use multiserver.Text.{split, join}
use multiserver.Conn.{Conn}
use multiserver.Command.{rpc_ch}
use multiserver.Command.Server.{mod_ch_sig_join_ok, mod_ch_sig_set_state, mod_ch_state_ro}
use multiserver.Command.Codes.{
  to_client_code, to_server_code, srv_mod_channel_join, srv_mod_channel_leave, srv_mod_channel_msg,
}

-- What `joinRPC` and `leaveRPC` send.
unfoldable pub channel_packet : ℕ → Bytes
channel_packet cmd = 0 ∷ cmd ∷ (put_uint16 (length rpc_ch % 2 ^ 16) ++ rpc_ch)

abbrev pub join_rpc : Bytes
join_rpc = channel_packet (to_server_code srv_mod_channel_join)

abbrev pub leave_rpc : Bytes
leave_rpc = channel_packet (to_server_code srv_mod_channel_leave)

-- `c.doRPC(rpc, rq)`: the packet, if the server can be told anything.
unfoldable pub do_rpc : Conn → Bytes → Bytes → Option Bytes
do_rpc c rpc rq =
    if c.use_rpc
    then some (
        write_bytes16 (write_bytes16 (0 ∷ to_server_code srv_mod_channel_msg ∷ []) rpc_ch)
          (rq ++ codes " " ++ rpc))
    else none

-- `strings.Split(msg, " ")`, an element of it, and `strings.Join` of what stands from an element on.
abbrev pub parts : Bytes → List Bytes
parts msg = split b' ' msg

abbrev pub or_panic : Option Bytes → Run Bytes
or_panic none = panic
or_panic (some p) = returns p

unfoldable pub part : ℕ → Bytes → Run Bytes
part i msg = or_panic (get_elem? (parts msg) i)

unfoldable pub from_part : ℕ → Bytes → Run Bytes
from_part k msg =
    if ltb (length (parts msg)) k then panic else returns (join b' ' (drop k (parts msg)))

-- `strconv.Itoa` of a number that is not negative; `n` has at most `n + 1` digits.
unfoldable pub digits : ℕ → ℕ → Bytes
digits zero n = []
digits (suc k) n =
    let rest = digits k (n / 10) in if ltb n 10 then (48 + n) ∷ [] else rest ++ (48 + n % 10) ∷ []

unfoldable pub itoa : ℕ → Bytes
unfolding digits
itoa n = digits (suc n) n

-- What a message leads to: a chat message to all clients, a call of `doRPC`, the redirection of a
-- player, the end of a player's connection.
pub data RpcEffect : Type 0 where
  chat_all : Bytes → RpcEffect
  call : Conn → Bytes → Bytes → RpcEffect
  redirect_client : Bytes → Bytes → RpcEffect
  disconnect : Bytes → RpcEffect

-- What `processRPC` returns, the database and the effects.
pub record RpcResult (S : Type 0) : Type 0 where
  pub taken : Bool
  pub state : S
  pub effects : List RpcEffect

-- A client as `ConnByUsername` finds it: the address of its server, if it has one, its own address, and
-- the IP of that.
pub record OnlineClient : Type 0 where
  pub server : Option Bytes
  pub addr : Bytes
  pub ip : Bytes

-- The `ToClientModChannelSignal` of `handleRPC`, behind the command.
unfoldable pub handle_signal : Conn → Reader → Conn
handle_signal srv r =
    let (ch, r1) = read_bytes16 (seek_current 1 r) in
    let (state, r2) = read_uint8 r1 in
    let (sig, r3) = read_uint8 (seek_start 2 r2) in
    if ch == rpc_ch
    then (if sig == mod_ch_sig_join_ok
        then record srv { use_rpc = true }
        else if sig == mod_ch_sig_set_state
        then (if state == mod_ch_state_ro then record srv { use_rpc = false } else srv)
        else srv)
    else srv
