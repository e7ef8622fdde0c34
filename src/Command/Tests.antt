-- ===== src/Command/Tests.antt =====
-- Concrete packets.
use multiserver.Shared.{
  ◌≡◌, ◌≢◌, ◌⊎◌, refl, true, false, none, some, [], ◌∷◌, ◌++◌, Bytes, codes, inr, bytes_eq, arith,
}
use multiserver.Shared.Run.{returns, panic}
use multiserver.Wire.{
  Reader, new_reader, byte_reader, fill, put_uint16, read_uint8, read_uint16, read_bytes16,
}
use multiserver.Conn.{Conn, zero_conn}
use multiserver.ActiveObject.{swap_id}
use multiserver.Database.Memory.{memory, empty_tables}
use multiserver.Command.{rpc_ch, Config}
use multiserver.Command.Codes as Codes
use multiserver.Command.Codes.{to_server_code}
use multiserver.Command.Server.{play_sound, access_denied}
use multiserver.Command.Client.{Srp, deny, mod_ch_sig_join_fail, mod_ch_sig_leave_fail}
use multiserver.Command.Sounds.{sound_head, play_sound_lem}
use multiserver.Command.Sudo.{run_client, NeverProves, run_client_powerless}
use multiserver.Command.Channels.{IsShut, Gives, mod_channels_closed}
use multiserver.Command.Fallback.{FallsBack, moves_to, access_denied_lem}

abbrev player : Conn
player = record (zero_conn false (codes "10.0.0.1")) {
  local_player_cao = 7;
  current_player_cao = 9;
}

abbrev server : Conn
server = zero_conn true (codes "10.0.0.9")

abbrev any_srp : Srp
any_srp = record { handshake = λ a v. none; client_proof = λ i s a b k. 1 ∷ [] }

abbrev plain : Config
plain = record { do_fallback = none; default_server = some (codes "lobby"); modchannels = none }

abbrev nine : Bytes
nine = 1 ∷ 2 ∷ 3 ∷ 4 ∷ 5 ∷ 6 ∷ 7 ∷ 8 ∷ 9 ∷ []

-- The sound of the object 9; the bytes 20, 21 stand where the number is put.
abbrev sound : Reader
sound = record {
  buf = 0 ∷ 0x3f ∷ (sound_head 5 nine ++ (put_uint16 9 ++ (20 ∷ 21 ∷ 22 ∷ [])));
  pos = 2;
}

play_sound_lem_example :
    play_sound player sound
    ≡ returns
        (player, sound_head 5 nine ++ (put_uint16 9 ++ (put_uint16 (swap_id player 9) ++ 22 ∷ [])))
play_sound_lem_example =
    play_sound_lem player 0 0x3f 5 9 nine (20 ∷ 21 ∷ []) (22 ∷ []) sound (omega arith) (omega arith)
      (omega arith) (omega arith) refl refl refl

-- A change of the password without a proof.
abbrev change : Bytes
change = 0 ∷ 0x50 ∷ 0 ∷ 1 ∷ 7 ∷ 0 ∷ 1 ∷ 8 ∷ []

never_proves : NeverProves memory any_srp plain 512 server (change ∷ []) empty_tables player
unfolding NeverProves read_uint16 read_bytes16 fill byte_reader
never_proves = (refl, λ out e. tt)

run_client_powerless_example :
    (run_client memory any_srp plain 512 server (change ∷ []) empty_tables player ≡ panic)
    ⊎ ((c' : Conn) × (run_client memory any_srp plain 512 server (change ∷ []) empty_tables player
          ≡ returns (c', empty_tables))
        × (c'.sudo_mode ≡ false))
run_client_powerless_example =
    run_client_powerless memory any_srp plain 512 server (change ∷ []) empty_tables player refl
      never_proves

abbrev own_channel : Reader
own_channel = new_reader (put_uint16 11 ++ codes "multiserver")

own_closed : IsShut plain own_channel
unfolding read_bytes16 read_uint16 fill
own_closed = inr refl

mod_channels_closed_example :
    Gives memory any_srp plain empty_tables player server [] own_channel
      (to_server_code Codes.srv_mod_channel_join)
      player
      true
      (deny mod_ch_sig_join_fail)
    × Gives memory any_srp plain empty_tables player server [] own_channel
        (to_server_code Codes.srv_mod_channel_leave)
        player
        true
        (deny mod_ch_sig_leave_fail)
    × Gives memory any_srp plain empty_tables player server [] own_channel
        (to_server_code Codes.srv_mod_channel_msg)
        player
        true
        []
mod_channels_closed_example =
    mod_channels_closed memory any_srp plain empty_tables player server [] own_channel own_closed

abbrev other_channel : Reader
other_channel = new_reader (0 ∷ 1 ∷ 0x61 ∷ [])

other_open : (read_bytes16 other_channel).0 ≢ rpc_ch
unfolding read_bytes16 read_uint16 fill
other_open h = cc

abbrev crashed : Reader
crashed = new_reader (12 ∷ [])

access_denied_lem_example :
    ((target : Bytes) × FallsBack plain (codes "survival") (read_uint8 crashed).0 target
      × (access_denied plain (codes "survival") crashed ≡ moves_to (read_uint8 crashed).0 target))
    ⊎ (((target : Bytes) → ¬ FallsBack plain (codes "survival") (read_uint8 crashed).0 target)
        × (access_denied plain (codes "survival") crashed ≡ (false, [])))
access_denied_lem_example = access_denied_lem plain (codes "survival") crashed
