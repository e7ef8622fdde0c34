-- ===== src/Login/Rounds.antt =====
-- The packets of a client that logs in, one definition for each.
use multiserver.Shared.{
  ℕ, ◌+◌, ◌-◌, ◌%◌, ◌^◌, Bool, true, false, not, ◌&&◌, ◌||◌, Option, none, some, [], ◌∷◌, ◌++◌,
  Bytes, codes, GoMap, holds, ltb, leb, ◌==◌, nat_eq, bytes_eq, if◌then◌else◌,
}
use multiserver.Shared.Run.{Run, returns, ◌>>=◌}
use multiserver.Wire.{
  Reader, byte_reader, reader_len, seek_start, seek_current, read_uint8, read_uint16, read_bytes16,
}
use multiserver.Conn.{Conn}
use multiserver.Database.{Database, ok, err, Error}
use multiserver.Auth.{password, create_user}
use multiserver.Ban.{is_banned}
use multiserver.Command.Codes as Codes
use multiserver.Command.Codes.{to_client_code, to_server_code}
use multiserver.Command.Client.{Srp, expected_proof}
use multiserver.Login.{
  auth_mech_srp, auth_mech_first_srp, closes, goes_on, agreed_version, refuses_version, name_denial,
  auth_accept, is_set, with_account, login_tokens, Denial, wrong_password, unexpected_data,
  wrong_version, wrong_name, empty_password, already_connected, custom_string, ready, Login,
  LoginConfig,
}

-- `online` are the players that are marked as online, `ip` is the address of the client.
module _ (d : Database) (srp : Srp) (conf : LoginConfig) (online : GoMap Bytes Bool)
    (ip : Bytes) where
  unfoldable pub init_known : d.State → Conn → Run (Login d.State)
  init_known s c =
      if holds c.username online
      then returns (closes true already_connected [] c s)
      else if c.username == codes "media" || c.username == codes "rpc"
      then returns (closes true wrong_name [] c s)
      else (password d s c.username >>= λ tokens. returns (with_account c s tokens))

  abbrev pub init_banned : d.State → Conn → Bool × Bytes × Option Error → Run (Login d.State)
  init_banned s c (banned, bname, some e) = returns (goes_on [] c s)
  init_banned s c (true, bname, none) =
      returns (
        closes true custom_string (codes "Your IP address is banned. Banned name is " ++ bname) c s)
  init_banned s c (false, bname, none) = init_known s c

  abbrev pub init_named : d.State → Conn → Option Denial → Run (Login d.State)
  init_named s c (some reason) = returns (closes true reason [] c s)
  init_named s c none = init_banned s c (is_banned d s ip)

  -- `ToServerInit`
  unfoldable pub login_init : d.State → Conn → Reader → Run (Login d.State)
  login_init s c r =
      let (name, r1) = read_bytes16 (seek_start 9 r) in
      let (cli_min, r2) = read_uint16 (seek_start 5 r1) in
      let (cli_max, _) = read_uint16 r2 in
      let protov = agreed_version cli_min cli_max in
      let c1 : Conn = record c { username = name; proto_ver = protov } in
      if refuses_version conf.force_latest_proto protov
      then returns (closes true wrong_version [] c1 s)
      else init_named s c1 (name_denial name)

  -- `ToServerFirstSRP`
  unfoldable pub login_first_srp : d.State → Conn → Reader → Login d.State
  login_first_srp s c r =
      let (salt, r1) = read_bytes16 r in
      let (verifier, r2) = read_bytes16 r1 in
      let (empty, _) = read_uint8 r2 in
      let (created, s1) = create_user d s c.username verifier salt in
      if not (c.auth_mech == auth_mech_first_srp)
      then closes true unexpected_data [] c s
      else if is_set conf.disallow_empty_passwords && ltb 0 empty
      then closes true empty_password [] c s
      else goes_on (elim created [ ok _ ↦ auth_accept ∷ [] | err e ↦ [] ]) c s1

  -- `ToServerSRPBytesA`
  unfoldable pub login_srp_bytes_a : d.State → Conn → Reader → Run (Login d.State)
  login_srp_bytes_a s c r =
      let (a, _) = read_bytes16 r in
      if not (c.auth_mech == auth_mech_srp)
      then returns (closes false unexpected_data [] c s)
      else (password d s c.username >>= λ tokens. returns (login_tokens srp c s a tokens))

  -- `ToServerSRPBytesM`
  unfoldable pub login_srp_bytes_m : d.State → Conn → Reader → Login d.State
  login_srp_bytes_m s c r =
      if not (c.auth_mech == auth_mech_srp)
      then closes true unexpected_data [] c s
      else if (read_bytes16 r).0 == expected_proof srp c
      then goes_on (auth_accept ∷ []) c s
      else closes true wrong_password [] c s

  -- `ToServerClientReady`, up to the choice of the server.
  unfoldable pub login_client_ready : d.State → Conn → Reader → Login d.State
  login_client_ready s c r =
      let (_, r1) = read_bytes16 (seek_current 4 r) in
      let (v, _) = read_uint16 r1 in
      if holds c.username online then closes true already_connected [] c s else record {
        conn =
            if leb 2 (reader_len r1)
            then record c { formspec_ver = (v + 2 ^ 16 - 1) % 2 ^ 16 }
            else c;
        state = s;
        sent = [];
        next = ready;
      }

  -- One round of the loop. What media are sent is not part of it.
  unfoldable pub login_packet : ℕ → d.State → Conn → Bytes → Run (Login d.State)
  login_packet max_size s c pkt =
      let (cmd, r) = read_uint16 (byte_reader max_size pkt) in
      if cmd == to_server_code Codes.srv_init
      then login_init s c r
      else if cmd == to_server_code Codes.srv_first_srp
      then returns (login_first_srp s c r)
      else if cmd == to_server_code Codes.srv_srp_bytes_a
      then login_srp_bytes_a s c r
      else if cmd == to_server_code Codes.srv_srp_bytes_m
      then returns (login_srp_bytes_m s c r)
      else if cmd == to_server_code Codes.srv_client_ready
      then returns (login_client_ready s c r)
      else returns (goes_on [] c s)
