-- ===== src/Chat/Moderation.antt =====
-- igutils.go: the chat commands that look at players and send them away, and what is done after a
-- redirection.
use multiserver.Shared.{
  Bool, Option, none, some, List, [], ◌∷◌, ◌++◌, Bytes, codes, drop, GoMap, ◌==◌, bytes_eq,
  if◌then◌else◌,
}
use multiserver.Text.{split, join}
use multiserver.Conn.{Conn}
use multiserver.Database.{Database, Answer, ok, err}
use multiserver.Privs.{Privileges, privs, encode_privs}
use multiserver.Ban.{Banning, ban, conn_ban, unban, ban_list}
use multiserver.Storage.{set_storage_key}
use multiserver.Chat.{first_part, bars_to_spaces}
use multiserver.Chat.Servers.{CommandEffect, say, close_with, conn_by_username}

abbrev pub not_online : Bytes → Bytes
not_online player = player ++ codes " is not online"

-- The function of `kick`
abbrev pub kick_player : Bytes → Bytes → Option Conn → List CommandEffect
kick_player player reason none = say (not_online player) ∷ []
kick_player player reason (some c) = close_with c reason ∷ say (codes "Kicked " ++ player) ∷ []

unfoldable pub kick_command : List Conn → Bytes → List CommandEffect
kick_command conns param =
    let player = first_part (split b' ' param) in
    let reason = codes "Kicked. " ++ (join b' ' (drop 1 (split b' ' param)) ++ codes ".") in
    if param == []
    then say (codes "Usage: kick <playername> [reason]") ∷ []
    else kick_player player reason (conn_by_username player conns)

-- The function of `addr`; `addr` is the address of a connection.
abbrev pub tell_addr : Bytes → Option Conn → Bytes
tell_addr player none = not_online player
tell_addr player (some c) = player ++ (codes "'s address is " ++ c.addr)

unfoldable pub addr_command : List Conn → Bytes → List CommandEffect
addr_command conns param =
    if param == []
    then say (codes "Usage: addr <playername>") ∷ []
    else say (tell_addr param (conn_by_username param conns)) ∷ []

-- `for addr, name := range bans { … }`
unfoldable pub bans_text : GoMap Bytes Bytes → Bytes
bans_text [] = []
bans_text ((addr, name) ∷ bans) = addr ++ (codes " | " ++ (name ++ 0x0a ∷ bans_text bans))

module _ (d : Database) (s : d.State) where
  abbrev pub ban_list_answer : Answer (GoMap Bytes Bytes) → List CommandEffect
  ban_list_answer (err e) =
      say (codes "An internal error occured while attempting to read the ban list") ∷ []
  ban_list_answer (ok bans) = say (codes "Address | Name" ++ 0x0a ∷ bans_text bans) ∷ []

  -- The function of `banlist`
  unfoldable pub banlist_command : List CommandEffect
  banlist_command = ban_list_answer (ban_list d s)

  abbrev pub unban_answer : Bytes → Answer (Unit {0}) × d.State → List CommandEffect × d.State
  unban_answer param (err e, s1) =
      (say (codes "An internal error occured while attempting to unban the player") ∷ [], s1)
  unban_answer param (ok x, s1) = (say (codes "Unbanned " ++ param) ∷ [], s1)

  -- The function of `unban`
  unfoldable pub unban_command : Bytes → List CommandEffect × d.State
  unban_command param =
      if param == []
      then (say (codes "Usage: unban <playername | IP address>") ∷ [], s)
      else unban_answer param (unban d s param)

  -- The function of `privs`; the console has no privileges of its own.
  abbrev pub privs_answer : Bytes → Answer Privileges → Bytes
  privs_answer r (err e) = codes "An internal error occured while attempting to get the privileges"
  privs_answer r (ok m) = r ++ bars_to_spaces (encode_privs m)

  abbrev pub own_privs : Option Conn → Bytes
  own_privs none = codes "Cannot read privileges of console!"
  own_privs (some c) = privs_answer (codes "Your privileges: ") (privs d s c.username)

  unfoldable pub privs_command : Option Conn → Bytes → Bytes
  privs_command caller param =
      if param == []
      then own_privs caller
      else privs_answer (param ++ codes "'s privileges: ") (privs d s param)

  -- What is done when a redirection of a player is over: its server is kept, or the player is told.
  unfoldable pub on_redirect_done : Conn → Bytes → Bool → List Bytes × d.State
  on_redirect_done c newsrv success =
      if success
      then ([], (set_storage_key d s (codes "server:" ++ c.username) newsrv).1)
      else ((codes "Could not connect you to " ++ (newsrv ++ codes "!")) ∷ [], s)

-- `parse_ip` says which texts `net.ParseIP` accepts, and `ip_of` is the IP address of a connection.
module _ (d : Database) (parse_ip : Bytes → Bool) (ip_of : Conn → Bytes) where
  -- `c2.Ban()` and what follows
  abbrev pub banned_player : Bytes → Conn → Banning d.State → List CommandEffect × d.State
  banned_player param c b = elim b.result [
    | err e ↦
        (say (codes "An internal error occured while attempting to ban the player") ∷ [], b.state)
    | ok x ↦ (close_with c (codes "Banned.") ∷ say (codes "Banned " ++ param) ∷ [], b.state)
  ]

  abbrev pub ban_player : Bytes → d.State → Option Conn → List CommandEffect × d.State
  ban_player param s none = (say (not_online param) ∷ [], s)
  ban_player param s (some c) = banned_player param c (conn_ban d parse_ip s c.username (ip_of c))

  abbrev pub ban_answer :
      List Conn → Bytes → Answer (Unit {0}) × d.State → List CommandEffect × d.State
  ban_answer conns param (ok x, s) = (say (codes "Banned " ++ param) ∷ [], s)
  ban_answer conns param (err e, s) = ban_player param s (conn_by_username param conns)

  -- The function of `ban`: any error of `Ban` makes the parameter a player's name.
  unfoldable pub ban_command : List Conn → d.State → Bytes → List CommandEffect × d.State
  ban_command conns s param =
      if param == []
      then (say (codes "Usage: ban <playername | IP address>") ∷ [], s)
      else ban_answer conns param (ban d parse_ip s param (codes "not known"))
