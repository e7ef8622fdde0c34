-- ===== src/Command.antt =====
-- command.go: what the proxy does with a packet before it is passed on.
pub mod Codes
pub mod Server
pub mod Client
pub mod Sounds
pub mod Sudo
pub mod Channels
pub mod Fallback
mod Tests
use multiserver.Shared.{
  ℕ, ◌+◌, Bool, Option, List, [], ◌∷◌, ◌++◌, Bytes, codes, GoMap, length, drop,
}
use multiserver.Wire.{Reader, new_reader, read_uint16, unread}
use multiserver.Conn.{Conn}

-- `rpcCh`
abbrev pub rpc_ch : Bytes
rpc_ch = codes "multiserver"

-- What happens beside the change of the two connections: a packet sent to the source or the
-- destination, a chat message to the destination, the start of its redirection, and the wait for the
-- end of the forwarding from the source.
pub data Effect : Type 0 where
  send_src send_dst chat_dst redirect_dst : Bytes → Effect
  await_src : Effect

-- The parts that a whole packet is handed to.
pub data Handler : Type 0 where
  chat_message server_chat_message rpc blockdata add_node inventory media_push : Handler

-- After a packet: the connections, what `pkt.Reader` gives, and whether the packet is dropped; or the
-- handler that decides, with the reader.
pub record Handled : Type 0 where
  pub src : Conn
  pub dst : Conn
  pub reader : Bytes
  pub dropped : Bool
  pub effects : List Effect

pub data Outcome : Type 0 where
  handled : Handled → Outcome
  delegated : Handler → Reader → Outcome

-- The values of the configuration that the dispatch asks for; `none` where one is missing or of
-- another type.
pub record Config : Type 0 where
  pub do_fallback : Option Bool
  pub default_server : Option Bytes
  pub modchannels : Option Bool
