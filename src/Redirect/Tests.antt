-- ===== src/Redirect/Tests.antt =====
-- Redirections at concrete inputs.
use multiserver.Shared.{
  ℕ, ◌≤◌, ◌==◌, if◌then◌else◌, bytes_beq, ◌≡◌, ◌≢◌, refl, true, false, Option, none, some, List, [],
  ◌∷◌, Bytes, bytes_eq, nat_eq, codes, contains, All, arith,
}
use multiserver.Shared.Run.{returns}
use multiserver.Wire.{Reader, new_reader, read_bytes16, read_uint16, read, fill, reader_len}
use multiserver.Conn.{Conn, zero_conn}
use multiserver.Text.{split}
use multiserver.Config.{
  Value, Entries, name, text, dictionary, no_entries, entry, value_at, conf_step, conf_walk,
  conf_key, server_address, server_name, name_loop, conns_server,
}
use multiserver.Command.{Config, rpc_ch}
use multiserver.Command.Client.{set_mod_channel, mod_ch_sig_leave_fail}
use multiserver.Redirect.{chosen, choose_in}
use multiserver.Redirect.Packets.{join_packet}
use multiserver.Redirect.Sending.{Moving, moved, move_client}
use multiserver.Redirect.Moves.{Ends, move_client-Ends, rejoins_left}
use multiserver.Redirect.Group.{group_of, IsOffered, choose_in_least}

abbrev server_entry : Bytes → Value
server_entry addr = dictionary (entry (name (codes "address")) (text addr) no_entries)

abbrev a : Bytes
a = codes "a"

abbrev b : Bytes
b = codes "b"

abbrev c : Bytes
c = codes "c"

-- Three servers, each at an address that is its name.
abbrev three : Entries
three =
    entry (name (codes "servers"))
      (dictionary (
        entry (name a) (server_entry a)
          (entry (name b) (server_entry b) (entry (name c) (server_entry c) no_entries))))
      no_entries

-- Two clients on b, one on c.
abbrev clients : List (Option Bytes)
clients = some b ∷ some c ∷ some b ∷ []

abbrev counts : Bytes → ℕ
counts s = if s == b then 2 else if s == c then 1 else 0

on_a : server_name three (some a) ≡ returns a
unfolding server_name name_loop conf_key conf_walk conf_step value_at server_address split bytes_beq
on_a = refl

b-IsOffered : IsOffered three clients (some a) counts (λ s. s) a b
unfolding conns_server server_name name_loop conf_key conf_walk conf_step value_at server_address
    split bytes_beq
b-IsOffered = (refl, refl, refl, omega arith)

c-IsOffered : IsOffered three clients (some a) counts (λ s. s) a c
unfolding conns_server server_name name_loop conf_key conf_walk conf_step value_at server_address
    split bytes_beq
c-IsOffered = (refl, refl, refl, omega arith)

choose_in_least_example :
    (best : Bytes) × (choose_in three clients (some a) (codes "g") (group_of (b ∷ c ∷ []))
      ≡ returns (chosen best best))
    × (contains best (b ∷ c ∷ []) ≡ true)
    × All (λ t. counts best ≤ counts t) (b ∷ c ∷ [])
choose_in_least_example =
    choose_in_least three clients (some a) counts (λ s. s) a on_a (codes "g") b (c ∷ [])
      (b-IsOffered, (c-IsOffered, tt))

none_on_a : conns_server three clients a ≡ returns 0
unfolding conns_server server_name name_loop conf_key conf_walk conf_step value_at server_address
    split bytes_beq
none_on_a = refl

-- A client with an object and a HUD, in the mod channel "m".
abbrev client : Conn
client = record (zero_conn false []) {
  srv = some 1;
  ao_ids = (7, true) ∷ [];
  huds = (2, true) ∷ [];
  mod_chs = (codes "m", true) ∷ [];
}

move_client-Ends_example : Ends b 2 client (move_client (λ sent p. true) (λ x. x) b [] 2 client)
move_client-Ends_example = move_client-Ends (λ sent p. true) (λ x. x) b [] 2 client

abbrev leave : Reader
leave = new_reader (0 ∷ 1 ∷ codes "m")

leaves_m : (read_bytes16 leave).0 ≢ rpc_ch
unfolding read_bytes16 read_uint16 read fill reader_len
leaves_m h = cc h

abbrev all_on : Config
all_on = record { do_fallback = none; default_server = none; modchannels = none }

rejoins_left_example :
    (m : Moving) × (old : Option ℕ) × (joins : List Bytes) × (move_client
        (λ _ _. false)
        (λ b. b)
        (codes "b")
        []
        2
        (set_mod_channel all_on mod_ch_sig_leave_fail false client leave).0
      ≡ moved (codes "b") m old joins)
    × (contains (join_packet (read_bytes16 leave).0) joins ≡ true)
rejoins_left_example = rejoins_left all_on client leave (λ b. b) (codes "b") [] 2 refl leaves_m
