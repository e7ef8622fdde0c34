-- ===== src/Rpc/Tests.antt =====
-- Messages between servers and the proxy at concrete inputs.
use multiserver.Shared.{
  ◌^◌, ◌<◌, ◌≡◌, refl, inr, Bool, true, false, none, some, [], ◌∷◌, ◌++◌, Bytes, codes, length,
  bytes_eq, bytes_beq, arith,
}
use multiserver.Shared.Run.{returns, panic}
use multiserver.Wire.{Reader, new_reader}
use multiserver.Text.{split}
use multiserver.Conn.{Conn, zero_conn}
use multiserver.Command.{rpc_ch}
use multiserver.Config.{
  Entries, name, text, dictionary, no_entries, entry, value_at, conf_key, conf_walk, conf_step,
  server_address,
}
use multiserver.Database.Memory.{memory, empty_tables}
use multiserver.Rpc.Dispatch.{World, process_rpc}
use multiserver.Rpc.Telling.{tell, others, only, packets_of, heard}
use multiserver.Rpc.Calls.{
  encode_message, words, process_rpc_ignores, process_rpc_panics, process_rpc_tells,
}

abbrev server : Bytes → Conn
server addr = record (zero_conn true addr) { use_rpc = true }

abbrev world : World
world = record {
  online = λ player. false;
  client_of = λ player. none;
  conn_count = 0;
  rpc_srvs = server (codes "h:1") ∷ server (codes "h:2") ∷ [];
}

abbrev any_ip : Bytes → Bool
any_ip ip = true

-- A player's message on the channel of the proxy.
abbrev from_player : Reader
from_player = new_reader (encode_message rpc_ch (codes "eve") (codes "x <-ALERT hi"))

process_rpc_ignores_example :
    process_rpc memory any_ip no_entries world empty_tables (server (codes "h:1")) from_player
    ≡ returns (record { taken = false; state = empty_tables; effects = [] })
process_rpc_ignores_example =
    process_rpc_ignores memory any_ip no_entries world empty_tables (server (codes "h:1"))
      from_player rpc_ch (codes "eve") (codes "x <-ALERT hi") (omega arith) (omega arith)
      (omega arith) refl (inr (λ h. cc h))

process_rpc_panics_example :
    process_rpc memory any_ip no_entries world empty_tables
      (server (codes "h:1"))
      (new_reader (encode_message rpc_ch [] (codes "hello")))
    ≡ panic
process_rpc_panics_example =
    process_rpc_panics memory any_ip no_entries world empty_tables (server (codes "h:1"))
      (new_reader (encode_message rpc_ch [] (codes "hello"))) (codes "hello") (omega arith) refl
      (omega arith)

abbrev config : Entries
config =
    entry (name (codes "servers"))
      (dictionary (
        entry (name (codes "b"))
          (dictionary (entry (name (codes "address")) (text (codes "h:2")) no_entries)) no_entries))
      no_entries

b_at : server_address config (codes "b") ≡ returns (some (codes "h:2"))
unfolding server_address conf_key conf_walk conf_step value_at split bytes_beq
b_at = refl

apart : bytes_beq (codes "h:2") (codes "h:1") ≡ false
unfolding bytes_beq
apart = refl

abbrev to_all : Bytes
to_all = words (codes "1" ∷ codes "<-MT2MT" ∷ []) (codes "a b")

abbrev to_b : Bytes
to_b = words (codes "1" ∷ codes "<-MSG2MT" ∷ codes "b" ∷ []) (codes "a b")

short : (length to_all < 2 ^ 16) × (length to_b < 2 ^ 16)
unfolding words
short = (omega arith, omega arith)

process_rpc_tells_example :
    (process_rpc memory any_ip config world empty_tables
        (server (codes "h:1"))
        (new_reader (encode_message rpc_ch [] to_all))
      ≡ returns (record {
        taken = true;
        state = empty_tables;
        effects = tell (codes "->MT2MT true " ++ codes "a b") (others (codes "h:1") world.rpc_srvs);
      }))
    × (packets_of
          (tell (codes "->MT2MT true " ++ codes "a b") (others (codes "h:1") world.rpc_srvs))
        ≡ heard (codes "-- ->MT2MT true a b") (others (codes "h:1") world.rpc_srvs))
    × (process_rpc memory any_ip config world empty_tables
          (server (codes "h:1"))
          (new_reader (encode_message rpc_ch [] to_b))
        ≡ returns (record {
          taken = true;
          state = empty_tables;
          effects =
              tell (codes "->MT2MT false " ++ codes "a b") (only (codes "h:2") world.rpc_srvs);
        }))
    × (packets_of (tell (codes "->MT2MT false " ++ codes "a b") (only (codes "h:2") world.rpc_srvs))
        ≡ heard (codes "-- ->MT2MT false a b") (only (codes "h:2") world.rpc_srvs))
process_rpc_tells_example =
    process_rpc_tells memory any_ip config world empty_tables (server (codes "h:1"))
      (new_reader (encode_message rpc_ch [] to_all)) (new_reader (encode_message rpc_ch [] to_b))
      (codes "1") (codes "b") (codes "h:2") (codes "a b") (omega arith) (omega arith) b_at apart
      short.0 short.1 (omega arith) refl refl
