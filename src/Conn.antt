-- ===== src/Conn.antt =====
-- conn.go: the state of a connection to a client or a server.
use multiserver.Shared.{ℕ, Bool, false, Option, none, List, [], Bytes, GoMap, nat_eq, bytes_eq}

-- `struct Conn`. A number keeps its bit pattern: `sounds` has `int32` keys, `blocks` `int16` fields.
-- `is_srv` and `addr` are what the `rudp.Conn` inside answers to `IsSrv` and to `RemoteAddr`;
-- `srv` is the handle of the server's connection. The inventory, a type of package mt, is left out.
pub record Conn : Type 0 where
  pub is_srv : Bool
  pub addr : Bytes
  pub proto_ver : ℕ
  pub formspec_ver : ℕ
  pub username : Bytes
  pub srp_s : Bytes
  pub srp_pub_a : Bytes
  pub srp_priv_a : Bytes
  pub srp_pub_b : Bytes
  pub srp_k : Bytes
  pub auth_mech : ℕ
  pub sudo_mode : Bool
  pub stopforward : Bool
  pub srv : Option ℕ
  pub init_ao_received : Bool
  pub ao_ids : GoMap ℕ Bool
  pub local_player_cao : ℕ
  pub current_player_cao : ℕ
  pub use_rpc : Bool
  pub no_clt : Bool
  pub mod_chs : GoMap Bytes Bool
  pub huds : GoMap ℕ Bool
  pub sounds : GoMap ℕ Bool
  pub blocks : List (ℕ × ℕ × ℕ)

-- A connection whose fields have Go's zero values, over a transport.
abbrev pub zero_conn : Bool → Bytes → Conn
zero_conn is_srv addr = record {
  is_srv = is_srv;
  addr = addr;
  proto_ver = 0;
  formspec_ver = 0;
  username = [];
  srp_s = [];
  srp_pub_a = [];
  srp_priv_a = [];
  srp_pub_b = [];
  srp_k = [];
  auth_mech = 0;
  sudo_mode = false;
  stopforward = false;
  srv = none;
  init_ao_received = false;
  ao_ids = [];
  local_player_cao = 0;
  current_player_cao = 0;
  use_rpc = false;
  no_clt = false;
  mod_chs = [];
  huds = [];
  sounds = [];
  blocks = [];
}
