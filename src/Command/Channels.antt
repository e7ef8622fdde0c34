-- ===== src/Command/Channels.antt =====
-- The commands of clients for mod channels.
use multiserver.Shared.{
  ℕ, ◌≡◌, ◌≢◌, ◌⊎◌, refl, Bool, true, false, List, [], Bytes, insert, ◌==◌, ==_refl, ==_ne, nat_eq,
  bytes_eq, holds, holds-insert, if◌then◌else◌, Bool-cases, inl, inr,
}
use multiserver.Shared.Run.{returns}
use multiserver.Wire.{Reader, read_bytes16}
use multiserver.Conn.{Conn}
use multiserver.Database.{Database}
use multiserver.Command.{rpc_ch, Effect, handled, Config}
use multiserver.Command.Codes as Codes
use multiserver.Command.Codes.{to_server_code}
use multiserver.Command.Client.{
  Srp, deny, channels_off, mod_ch_sig_join_fail, mod_ch_sig_leave_fail, set_mod_channel,
  mod_channel_message, process_client_command,
}

-- The channels are switched off, or the packet names the channel of the proxy.
abbrev pub IsShut : Config → Reader → Type 0
IsShut conf r = (channels_off conf ≡ true) ⊎ ((read_bytes16 r).0 ≡ rpc_ch)

set_closed :
    (conf : Config) (sig : ℕ) (b : Bool) (c : Conn) (r : Reader)
    → IsShut conf r
    → set_mod_channel conf sig b c r ≡ (c, true, deny sig)
unfolding set_mod_channel
set_closed conf sig b c r (inl off) = rw off refl
set_closed conf sig b c r (inr own) = elim (Bool-cases (channels_off conf)) [
  | inl off ↦ rw off refl
  | inr on ↦ rw (on, own, ==_refl rpc_ch) refl
]

message_closed : (conf : Config) (r : Reader) → IsShut conf r → mod_channel_message conf r ≡ true
unfolding mod_channel_message
message_closed conf r (inl off) = rw off refl
message_closed conf r (inr own) = elim (Bool-cases (channels_off conf)) [
  | inl off ↦ rw off refl
  | inr on ↦ rw (on, own, ==_refl rpc_ch) refl
]

pub set_open :
    (conf : Config) (sig : ℕ) (b : Bool) (c : Conn) (r : Reader)
    → channels_off conf ≡ false
    → (read_bytes16 r).0 ≢ rpc_ch
    → set_mod_channel conf sig b c r
      ≡ (record c { mod_chs = insert (read_bytes16 r).0 b c.mod_chs }, false, [])
unfolding set_mod_channel
set_open conf sig b c r on other = rw (on, ==_ne (read_bytes16 r).0 rpc_ch other) refl

message_open :
    (conf : Config) (r : Reader)
    → channels_off conf ≡ false
    → (read_bytes16 r).0 ≢ rpc_ch
    → mod_channel_message conf r ≡ false
unfolding mod_channel_message
message_open conf r on other = rw (on, ==_ne (read_bytes16 r).0 rpc_ch other) refl

module _ (d : Database) (srp : Srp) (conf : Config) (s : d.State) (c dst : Conn) (pkt : Bytes)
    (r : Reader) where
  -- What becomes of the packet with the command `cmd`.
  abbrev pub Gives : ℕ → Conn → Bool → List Effect → Type 0
  Gives cmd c' dropped effects =
      process_client_command d srp conf s c dst pkt cmd r
      ≡ returns (
        handled
            (record { src = c'; dst = dst; reader = pkt; dropped = dropped; effects = effects }),
        s,
      )

  -- If mod channels are switched off, or the packet names the channel of the proxy, no join, leave or
  -- message of a client reaches the server; a join and a leave are denied, and nothing changes.
  pub mod_channels_closed :
      IsShut conf r
      → Gives (to_server_code Codes.srv_mod_channel_join) c true (deny mod_ch_sig_join_fail)
        × Gives (to_server_code Codes.srv_mod_channel_leave) c true (deny mod_ch_sig_leave_fail)
        × Gives (to_server_code Codes.srv_mod_channel_msg) c true []
  unfolding process_client_command
  mod_channels_closed closed = (
    rw (set_closed conf mod_ch_sig_join_fail true c r closed) refl,
    rw (set_closed conf mod_ch_sig_leave_fail false c r closed) refl,
    rw (message_closed conf r closed) refl,
  )

  -- Otherwise each of them is passed on, and after a join the connection holds the channel as joined,
  -- after a leave as left, and every other channel as before.
  mod_channels_open :
      channels_off conf ≡ false
      → (read_bytes16 r).0 ≢ rpc_ch
      → ((c' : Conn) × Gives (to_server_code Codes.srv_mod_channel_join) c' false []
          × ((ch : Bytes)
              → holds ch c'.mod_chs
                ≡ (if (read_bytes16 r).0 == ch then true else holds ch c.mod_chs)))
        × ((c' : Conn) × Gives (to_server_code Codes.srv_mod_channel_leave) c' false []
            × ((ch : Bytes)
                → holds ch c'.mod_chs
                  ≡ (if (read_bytes16 r).0 == ch then false else holds ch c.mod_chs)))
        × Gives (to_server_code Codes.srv_mod_channel_msg) c false []
  unfolding process_client_command
  mod_channels_open on other =
      let ch = (read_bytes16 r).0 in
      (
        (
          record c { mod_chs = insert ch true c.mod_chs },
          rw (set_open conf mod_ch_sig_join_fail true c r on other) refl,
          λ j. holds-insert j ch true c.mod_chs,
        ),
        (
          record c { mod_chs = insert ch false c.mod_chs },
          rw (set_open conf mod_ch_sig_leave_fail false c r on other) refl,
          λ j. holds-insert j ch false c.mod_chs,
        ),
        rw (message_open conf r on other) refl,
      )
