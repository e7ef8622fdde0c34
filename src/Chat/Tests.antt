-- ===== src/Chat/Tests.antt =====
-- Chat at concrete inputs: "ann" may ban, and grants bob a privilege.
use multiserver.Shared.{
  ◌≡◌, ◌⊎◌, ◌↔◌, refl, inr, true, false, Bool, Option, none, some, List, [], ◌∷◌, ◌++◌, Bytes,
  codes, contains, lookup, insert, holds, GoMap, bytes_eq, bytes_beq, nat_eq, if◌then◌else◌, arith,
}
use multiserver.Wire.{Reader, new_reader, read, reader_len, fill}
use multiserver.Text.{split}
use multiserver.Conn.{Conn, zero_conn}
use multiserver.Database.{Tables, ok, err, database, effect, answer}
use multiserver.Database.Memory.{memory, empty_tables}
use multiserver.Privs.{Privileges, privs, set_privs, decode_privs}
use multiserver.Privs.Store.{Agrees}
use multiserver.Chat.{
  Utf16, ChatCommand, command_of, units, is_even, narrow, wider, run_command, process_chat_message,
}
use multiserver.Chat.Texts.{narrow-wider}
use multiserver.Chat.Commands.{message_of, process_chat_message_runs}
use multiserver.Chat.Grants.{
  target, split_privs, without_spaces, mark_all, tell, updated_text, change_privs, change_privs_lem,
}
use multiserver.Shared.Run.{returns}
use multiserver.Config.{
  Entries, entry, name, dictionary, text, no_entries, conf_key, conf_walk, conf_step, value_at,
  server_name, name_loop, server_address,
}
use multiserver.Privs.{has_all, check_privs, decode_loop}
use multiserver.Chat.Servers.{
  CommandEffect, say, redirect_to, conn_by_username, servers_of, join_server, check_server_privs,
  server_command,
}
use multiserver.Ban.{is_banned, ban}
use multiserver.Ban.Effects.{refuses}
use multiserver.Chat.Moderation.{ban_command}
use multiserver.Chat.Bans.{ban_command_twice}
use multiserver.Chat.Entering.{Guarded, server_command_guards}

-- Texts of characters below 128, and of one character that takes two bytes and is one unit.
abbrev ascii : Utf16
ascii = record { encode = λ b. b; decode = λ us. us }

abbrev accent : Utf16
accent = record { encode = λ b. 0xe9 ∷ []; decode = λ us. us }

narrow-wider_example : narrow accent (wider accent (0xc3 ∷ 0xa9 ∷ [])) ≡ 0xe9 ∷ 0 ∷ []
narrow-wider_example = narrow-wider accent (0xc3 ∷ 0xa9 ∷ []) (omega arith) (omega arith, tt)

abbrev ban_privs : Privileges
ban_privs = (codes "ban", true) ∷ []

abbrev commands : GoMap Bytes ChatCommand
commands =
    (codes "ban", record { help = []; privs = ban_privs; console = true; function = some 7 }) ∷ []

abbrev ann : Conn
ann = record (zero_conn false (codes "c:1")) { username = codes "ann" }

abbrev tables : Tables
tables = record empty_tables {
  privileges = (codes "ann", codes "ban") ∷ (codes "bob", codes "send") ∷ [];
}

-- "#ban eve", behind the length.
abbrev ban_message : Reader
ban_message =
    new_reader
      (0 ∷ 8 ∷ 0 ∷ 35 ∷ 0 ∷ 98 ∷ 0 ∷ 97 ∷ 0 ∷ 110 ∷ 0 ∷ 32 ∷ 0 ∷ 101 ∷ 0 ∷ 118 ∷ 0 ∷ 101 ∷ [])

ban_read : message_of ascii ban_message ≡ codes "#" ++ (codes "ban" ++ b' ' ∷ codes "eve")
unfolding message_of read reader_len narrow units is_even fill
ban_read = refl

process_chat_message_runs_example :
    ((process_chat_message ascii 5 commands memory tables (codes "#") [] ann ban_message).0 ≡ true)
    × (((process_chat_message ascii 5 commands memory tables (codes "#") [] ann ban_message).1
          ≡ run_command 7 (codes "eve") ∷ [])
        ↔ (((command_of (codes "ban") commands).function ≡ some 7)
            × ((m : Privileges) × (privs memory tables (codes "ann") ≡ ok m)
                × ((k : Bytes)
                    → holds k (command_of (codes "ban") commands).privs ≡ true
                    → holds k m ≡ true))))
unfolding command_of lookup bytes_beq
process_chat_message_runs_example =
    process_chat_message_runs ascii 5 commands memory tables (codes "#") [] ann ban_message
      (codes "ban") (some (codes "eve")) 7 (omega arith) ban_read (refl, tt)

abbrev granted_bob : Privileges
granted_bob = mark_all true (split_privs (codes "kick,ban")) (decode_privs (codes "send"))

abbrev bob_set : Tables
bob_set = (set_privs memory tables (codes "bob") granted_bob).1

bob_read : privs memory tables (codes "bob") ≡ ok (decode_privs (codes "send"))
unfolding privs answer lookup bytes_beq
bob_read = refl

bob_granted : set_privs memory tables (codes "bob") granted_bob ≡ (ok tt, bob_set)
unfolding set_privs effect lookup bytes_beq
bob_granted = refl

change_privs_lem_example :
    (change_privs memory true ascii 5 tables (some ann) (codes "bob kick,ban")
      ≡ (tell ascii 5 (some ann) updated_text, bob_set))
    × Agrees (codes "bob") tables bob_set
    × ((privs memory bob_set (codes "bob") ≡ err database)
        ⊎ ((m : Privileges) × (privs memory bob_set (codes "bob") ≡ ok m)
            × ((k : Bytes)
                → holds k m ≡ (
                    if contains k (split_privs (codes "kick,ban"))
                    then true
                    else holds k (decode_privs (codes "send"))))))
unfolding target split split_privs without_spaces effect lookup bytes_beq
change_privs_lem_example =
    change_privs_lem true ascii 5 memory tables (some ann) (codes "bob kick,ban") (codes "bob")
      (codes "kick,ban") (codes "send") {s' = bob_set} refl bob_read (λ _. ground arith)
      (inr (λ h. cc h)) bob_granted

-- The server "b" asks for the privilege "ban", which ann has.
abbrev config : Entries
config =
    entry (name (codes "servers"))
      (dictionary (
        entry (name (codes "b"))
          (dictionary (
            entry (name (codes "address")) (text (codes "h:2"))
              (entry (name (codes "priv")) (text (codes "ban")) no_entries)))
          no_entries))
      no_entries

abbrev srv_addr : Conn → Option Bytes
srv_addr c = some (codes "h:1")

abbrev joins : List CommandEffect
joins = redirect_to ann (codes "b") ∷ say (codes "Redirecting you to b") ∷ []

ann_enters : server_command config srv_addr memory tables ann (codes "b") ≡ returns joins
unfolding server_command servers_of conf_key conf_walk conf_step value_at split server_name
    name_loop server_address check_server_privs join_server check_privs has_all holds lookup insert
    bytes_beq privs answer decode_privs decode_loop
ann_enters = refl

server_command_guards_example : Guarded config srv_addr memory tables ann (codes "b") joins
server_command_guards_example =
    server_command_guards config srv_addr memory tables ann (codes "b") joins ann_enters

-- An empty privilege of a server is required of everyone, and nobody can hold it.
abbrev open_config : Entries
open_config =
    entry (name (codes "servers"))
      (dictionary (
        entry (name (codes "b"))
          (dictionary (
            entry (name (codes "address")) (text (codes "h:2"))
              (entry (name (codes "priv")) (text []) no_entries)))
          no_entries))
      no_entries

ann_kept_out :
    server_command open_config srv_addr memory tables ann (codes "b")
    ≡ returns
        (say (codes "You do not have permission to join this server! Required privilege: ") ∷ [])
unfolding server_command servers_of conf_key conf_walk conf_step value_at split server_name
    name_loop server_address check_server_privs join_server check_privs has_all holds lookup insert
    bytes_beq privs answer decode_privs decode_loop
ann_kept_out = refl

abbrev home : Bytes
home = codes "10.0.0.1"

abbrev any_ip : Bytes → Bool
any_ip s = true

abbrev ip_of : Conn → Bytes
ip_of c = c.addr

abbrev home_banned : Tables
home_banned = record empty_tables { ban = (home, codes "not known") ∷ [] }

ban_home : ban memory any_ip empty_tables home (codes "not known") ≡ (ok tt, home_banned)
unfolding ban effect lookup insert
ban_home = refl

ban_command_twice_example :
    (ban_command memory any_ip ip_of (ann ∷ []) empty_tables home
      ≡ (say (codes "Banned 10.0.0.1") ∷ [], home_banned))
    × ((is_banned memory home_banned home ≡ refuses)
        ⊎ (is_banned memory home_banned home ≡ (true, codes "not known", none)))
    × ((ban_command memory any_ip ip_of (ann ∷ []) home_banned home).0
        ≡ say (codes "10.0.0.1 is not online") ∷ [])
    × ((ban_command memory any_ip ip_of (ann ∷ []) home_banned home).1 ≡ home_banned)
unfolding conn_by_username bytes_beq
ban_command_twice_example =
    ban_command_twice memory any_ip ip_of (ann ∷ []) empty_tables home_banned home (λ h. cc h) refl
      ban_home
