-- ===== src/Command/Client.antt =====
-- `processPktCommand` for packets from a client: the source is a client, the destination a server.
use multiserver.Shared.{
  ℕ, ◌%◌, ◌^◌, Bool, true, false, Option, none, some, List, [], ◌∷◌, ◌++◌, Bytes, insert, ◌==◌,
  nat_eq, bytes_eq, if◌then◌else◌, length,
}
use multiserver.Shared.Run.{Run, returns, ◌>>=◌}
use multiserver.Wire.{Reader, byte_reader, put_uint16, read_uint16, read_bytes16}
use multiserver.Conn.{Conn}
use multiserver.Database.{Database, Answer, ok, err}
use multiserver.Auth.{tokens_of, password, set_password}
use multiserver.Command.{
  rpc_ch, Effect, send_src, chat_message, Outcome, handled, delegated, Config,
}
use multiserver.Command.Codes as Codes
use multiserver.Command.Codes.{to_client_code, to_server_code}

-- Package srp: `Handshake(A, v)`, which gives `B` and `K` or an error, and `ClientProof(I, s, A, B, K)`.
pub record Srp : Type 0 where
  pub handshake : Bytes → Bytes → Option (Bytes × Bytes)
  pub client_proof : Bytes → Bytes → Bytes → Bytes → Bytes → Bytes

-- The proof of the password for the tokens that the connection holds.
unfoldable pub expected_proof : Srp → Conn → Bytes
expected_proof srp c = srp.client_proof c.username c.srp_s c.srp_pub_a c.srp_pub_b c.srp_k

-- `SRP_BYTES_S_B`
abbrev pub srp_bytes_s_b : Bytes → Bytes → Bytes
srp_bytes_s_b s b =
    0
    ∷ to_client_code Codes.srp_bytes_sb
    ∷ (put_uint16 (length s % 2 ^ 16) ++ (s ++ (put_uint16 (length b % 2 ^ 16) ++ b)))

-- After `srp.Handshake`.
abbrev pub begin_proof : Conn → Bytes → Bytes → Option (Bytes × Bytes) → Conn × List Effect
begin_proof src a s none = (src, [])
begin_proof src a s (some (b, k)) = (
  record src { srp_s = s; srp_pub_a = a; srp_pub_b = b; srp_k = k },
  send_src (srp_bytes_s_b s b) ∷ [],
)

-- After `Password`; an error is logged.
abbrev pub with_password : Srp → Conn → Bytes → Answer (Option (Bytes × Bytes)) → Conn × List Effect
with_password srp src a (err e) = (src, [])
with_password srp src a (ok tokens) =
    let (v, s) = tokens_of tokens in begin_proof src a s (srp.handshake a v)

-- The client proves that it knows its password.
unfoldable pub srp_bytes_m : Srp → Conn → Reader → Conn × List Effect
unfolding expected_proof
srp_bytes_m srp src r =
    if src.sudo_mode
    then (src, [])
    else if (read_bytes16 r).0 == expected_proof srp src
    then (
      record src { sudo_mode = true },
      send_src (0 ∷ to_client_code Codes.accept_sudo_mode ∷ []) ∷ [],
    )
    else (src, send_src (0 ∷ to_client_code Codes.deny_sudo_mode ∷ []) ∷ [])

-- `ModChSigJoinFail`, `ModChSigLeaveFail`
abbrev pub mod_ch_sig_join_fail : ℕ
mod_ch_sig_join_fail = 1

abbrev pub mod_ch_sig_leave_fail : ℕ
mod_ch_sig_leave_fail = 3

-- `deny()`
abbrev pub deny : ℕ → List Effect
deny sig =
    send_src (
      0
      ∷ to_client_code Codes.mod_channel_signal
      ∷ sig
      ∷ (put_uint16 (length rpc_ch % 2 ^ 16) ++ rpc_ch))
    ∷ []

-- `chAllowed, ok := ConfKey("modchannels").(bool); ok && !chAllowed`
abbrev pub channels_off : Config → Bool
channels_off conf = elim conf.modchannels [ some false ↦ true | _ ↦ false ]

-- Joining (`value` is true) or leaving a mod channel: the connection, whether the packet is dropped,
-- and the denial.
unfoldable pub set_mod_channel : Config → ℕ → Bool → Conn → Reader → Conn × Bool × List Effect
set_mod_channel conf sig value src r =
    let (ch, _) = read_bytes16 r in
    if channels_off conf
    then (src, true, deny sig)
    else if ch == rpc_ch
    then (src, true, deny sig)
    else (record src { mod_chs = insert ch value src.mod_chs }, false, [])

-- A message on a mod channel: whether the packet is dropped.
unfoldable pub mod_channel_message : Config → Reader → Bool
mod_channel_message conf r =
    if channels_off conf then true else if (read_bytes16 r).0 == rpc_ch then true else false

module _ (d : Database) (srp : Srp) (conf : Config) where
  -- The password change. Its error is not looked at.
  unfoldable pub first_srp : d.State → Conn → Reader → Conn × d.State
  first_srp s src r =
      let (salt, r1) = read_bytes16 r in
      let (verifier, _) = read_bytes16 r1 in
      if src.sudo_mode
      then (record src { sudo_mode = false }, (set_password d s src.username verifier salt).1)
      else (src, s)

  unfoldable pub srp_bytes_a : d.State → Conn → Reader → Run (Conn × List Effect)
  srp_bytes_a s src r =
      let (a, _) = read_bytes16 r in
      let checked : Run (Conn × List Effect) =
        password d s src.username >>= λ tokens. returns (with_password srp src a tokens) in
      if src.sudo_mode then returns (src, []) else checked

  abbrev pub finish : Conn → Bytes → d.State → Bool → Conn × List Effect → Outcome × d.State
  finish dst pkt s dropped (src, effects) = (
    handled (record { src = src; dst = dst; reader = pkt; dropped = dropped; effects = effects }),
    s,
  )

  -- The `switch` over the command, with the reader behind it; `pkt` are the bytes of the packet.
  unfoldable pub process_client_command :
      d.State → Conn → Conn → Bytes → ℕ → Reader → Run (Outcome × d.State)
  unfolding first_srp srp_bytes_a srp_bytes_m set_mod_channel mod_channel_message
  process_client_command s src dst pkt cmd r =
      if cmd == to_server_code Codes.srv_chat_message
      then returns (delegated chat_message r, s)
      else if cmd == to_server_code Codes.srv_first_srp
      then returns (finish dst pkt (first_srp s src r).1 true ((first_srp s src r).0, []))
      else if cmd == to_server_code Codes.srv_srp_bytes_a
      then (srp_bytes_a s src r >>= λ x. returns (finish dst pkt s true x))
      else if cmd == to_server_code Codes.srv_srp_bytes_m
      then returns (finish dst pkt s true (srp_bytes_m srp src r))
      else if cmd == to_server_code Codes.srv_mod_channel_join
      then (let (src', dropped, effects) = set_mod_channel conf mod_ch_sig_join_fail true src r in
          returns (finish dst pkt s dropped (src', effects)))
      else if cmd == to_server_code Codes.srv_mod_channel_leave
      then (let (src', dropped, effects) = set_mod_channel conf mod_ch_sig_leave_fail false src r in
          returns (finish dst pkt s dropped (src', effects)))
      else if cmd == to_server_code Codes.srv_mod_channel_msg
      then returns (finish dst pkt s (mod_channel_message conf r) (src, []))
      else returns (finish dst pkt s false (src, []))

  -- `processPktCommand(src, dst, pkt)` for a client `src`. A reader holds at most `max_size` bytes.
  unfoldable pub client_packet : ℕ → d.State → Conn → Conn → Bytes → Run (Outcome × d.State)
  client_packet max_size s src dst pkt =
      let r = byte_reader max_size pkt in
      let (cmd, r') = read_uint16 r in process_client_command s src dst r.buf cmd r'
