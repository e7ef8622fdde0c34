-- ===== src/Config/Tests.antt =====
-- The look-up of a server's address in a concrete configuration.
use multiserver.Shared.{◌≡◌, refl, some, ◌++◌, bytes_eq, codes, bytes_beq, arith}
use multiserver.Shared.Run.{returns, panic}
use multiserver.Config.{
  Entries, name, text, dictionary, no_entries, entry, value_at, server_address,
}
use multiserver.Config.Paths.{HasServer, server_address_lem}

abbrev lobby_entry : Entries
lobby_entry = entry (name (codes "address")) (text (codes "h:1")) no_entries

abbrev servers : Entries
servers = entry (name (codes "lobby")) (dictionary lobby_entry) no_entries

abbrev config : Entries
config = entry (name (codes "servers")) (dictionary servers) no_entries

has_lobby : HasServer config (codes "lobby") (codes "h:1")
unfolding value_at bytes_beq
has_lobby = record {
  servers = servers;
  entries = lobby_entry;
  at_servers = refl;
  at_name = refl;
  at_address = refl;
}

server_address_lem_example :
    (server_address config (codes "lobby") ≡ returns (some (codes "h:1")))
    × (server_address config (codes "lobby" ++ codes ":address") ≡ panic)
server_address_lem_example =
    server_address_lem config (codes "lobby") (codes "h:1") (omega arith) has_lobby
