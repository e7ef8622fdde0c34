-- ===== src/Login.antt =====
-- init.go: the loop of `Init` that initialises a client.
pub mod Rounds
pub mod Names
pub mod Bypass
mod Tests
use multiserver.Shared.{
  ℕ, ◌+◌, ◌-◌, ◌%◌, ◌^◌, Bool, true, false, not, ◌&&◌, ◌||◌, Option, none, some, List, [], ◌∷◌,
  ◌++◌, Bytes, codes, GoMap, holds, ltb, leb, ◌==◌, nat_eq, bytes_eq, if◌then◌else◌, length,
}
use multiserver.Shared.Run.{Run, returns, panic, stuck, ◌>>=◌}
use multiserver.Wire.{
  Reader, byte_reader, reader_len, seek_start, seek_current, put_uint16, put_uint32, read_uint8,
  read_uint16, read_bytes16, write_bytes16,
}
use multiserver.Conn.{Conn}
use multiserver.Database.{Database, Answer, ok, err, Error}
use multiserver.Auth.{tokens_of, password, create_user}
use multiserver.Ban.{is_banned}
use multiserver.Command.Codes as Codes
use multiserver.Command.Codes.{to_client_code, to_server_code}
use multiserver.Command.Client.{Srp, expected_proof, srp_bytes_s_b}

abbrev pub proto_min : ℕ
proto_min = 0x25

abbrev pub proto_latest : ℕ
proto_latest = 0x27

abbrev pub auth_mech_srp : ℕ
auth_mech_srp = 2

abbrev pub auth_mech_first_srp : ℕ
auth_mech_first_srp = 4

-- `AccessDenied…`
pub data Denial : Type 0 where
  wrong_password unexpected_data singleplayer wrong_version wrong_chars_in_name wrong_name
        too_many_users empty_password already_connected server_fail custom_string shutdown crash :
      Denial

abbrev pub denial_code : Denial → ℕ
denial_code wrong_password = 0
denial_code unexpected_data = 1
denial_code singleplayer = 2
denial_code wrong_version = 3
denial_code wrong_chars_in_name = 4
denial_code wrong_name = 5
denial_code too_many_users = 6
denial_code empty_password = 7
denial_code already_connected = 8
denial_code server_fail = 9
denial_code custom_string = 10
denial_code shutdown = 11
denial_code crash = 12

-- How the loop goes on: with the next packet, or not. `stopped told` closed the connection, and `told`
-- says whether `fin` was told. After `ready` the client is connected to a server.
pub data Next : Type 0 where
  again ready : Next
  stopped : Bool → Next

-- What one packet leads to.
pub record Login (S : Type 0) : Type 0 where
  pub conn : Conn
  pub state : S
  pub sent : List Bytes
  pub next : Next

-- `c.CloseWith(reason, custom, false)`
abbrev pub close_packet : Denial → Bytes → Bytes
close_packet reason custom =
    write_bytes16 (0 ∷ to_client_code Codes.access_denied ∷ denial_code reason ∷ []) custom
    ++ 0 ∷ []

abbrev pub closes : {S : Type 0} → Bool → Denial → Bytes → Conn → S → Login S
closes told reason custom c s = record {
  conn = c;
  state = s;
  sent = close_packet reason custom ∷ [];
  next = stopped told;
}

abbrev pub goes_on : {S : Type 0} → List Bytes → Conn → S → Login S
goes_on sent c s = record { conn = c; state = s; sent = sent; next = again }

-- The version that is agreed on; 0 where there is none.
unfoldable pub agreed_version : ℕ → ℕ → ℕ
agreed_version cli_min cli_max =
    if leb proto_min cli_max || leb cli_min proto_latest
    then (if ltb proto_latest cli_max then proto_latest else proto_latest)
    else 0

unfoldable pub refuses_version : Option Bool → ℕ → Bool
refuses_version force_latest protov =
    (elim force_latest [ some true ↦ not (protov == proto_latest) | _ ↦ false ])
    || ltb protov proto_min
    || ltb proto_latest protov

-- `^[a-zA-Z0-9-_]*$`
unfoldable pub name_char : ℕ → Bool
name_char b =
    leb 97 b && leb b 122 || leb 65 b && leb b 90 || leb 48 b && leb b 57 || b == 45 || b == 95

unfoldable pub name_chars : Bytes → Bool
name_chars [] = true
name_chars (b ∷ name) = name_char b && name_chars name

abbrev pub max_player_name_length : ℕ
max_player_name_length = 20

-- Why a name is refused before the database is asked.
unfoldable pub name_denial : Bytes → Option Denial
name_denial name =
    if name == []
    then some wrong_name
    else if ltb max_player_name_length (length name)
    then some wrong_chars_in_name
    else if name_chars name
    then none
    else some wrong_chars_in_name

-- `HELLO`
abbrev pub hello : ℕ → ℕ → Bytes → Bytes
hello protov mech name =
    0
    ∷ to_client_code Codes.hello
    ∷ 0x1c
    ∷ (put_uint16 0
        ++ (put_uint16 protov ++ (put_uint32 mech ++ (put_uint16 (length name % 2 ^ 16) ++ name))))

-- `AUTH_ACCEPT`
abbrev pub auth_accept : Bytes
auth_accept =
    0
    ∷ to_client_code Codes.auth_accept
    ∷ 0
    ∷ 0
    ∷ 0
    ∷ 0
    ∷ 0
    ∷ 0
    ∷ 0
    ∷ 0
    ∷ 0
    ∷ 0
    ∷ 0
    ∷ 0
    ∷ 0
    ∷ 0
    ∷ 0
    ∷ 0
    ∷ 0
    ∷ 0
    ∷ 0
    ∷ 0
    ∷ 0x3d
    ∷ 0xb8
    ∷ 0x51
    ∷ 0xec
    ∷ 0
    ∷ 0
    ∷ 0
    ∷ auth_mech_srp
    ∷ []

-- The values of the configuration that the loop asks for.
pub record LoginConfig : Type 0 where
  pub force_latest_proto : Option Bool
  pub disallow_empty_passwords : Option Bool

abbrev pub is_set : Option Bool → Bool
is_set (some true) = true
is_set _ = false

-- After `Password`: the mechanism is chosen, and `HELLO` names it.
abbrev pub with_account : {S : Type 0} → Conn → S → Answer (Option (Bytes × Bytes)) → Login S
with_account c s (err e) = goes_on [] c s
with_account c s (ok none) =
    goes_on (hello c.proto_ver auth_mech_first_srp c.username ∷ [])
      (record c { auth_mech = auth_mech_first_srp }) s
with_account c s (ok (some tokens)) =
    goes_on (hello c.proto_ver auth_mech_srp c.username ∷ [])
      (record c { auth_mech = auth_mech_srp }) s

abbrev pub begin_login : {S : Type 0} → Conn → S → Bytes → Bytes → Option (Bytes × Bytes) → Login S
begin_login c s a salt none = goes_on [] c s
begin_login c s a salt (some (b, k)) =
    goes_on (srp_bytes_s_b salt b ∷ [])
      (record c { srp_s = salt; srp_pub_a = a; srp_pub_b = b; srp_k = k }) s

abbrev pub login_tokens :
    {S : Type 0} → Srp → Conn → S → Bytes → Answer (Option (Bytes × Bytes)) → Login S
login_tokens srp c s a (err e) = goes_on [] c s
login_tokens srp c s a (ok tokens) =
    let (v, salt) = tokens_of tokens in begin_login c s a salt (srp.handshake a v)
