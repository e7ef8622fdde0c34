-- ===== src/Chat/Servers.antt =====
-- igutils.go: the chat commands that send players to servers, and `find`; listen.go: `ConnByUsername`.
use multiserver.Shared.{
  Bool, true, false, not, ◌&&◌, ◌||◌, Option, none, some, List, [], ◌∷◌, ◌++◌, Bytes, codes, insert,
  ◌==◌, bytes_eq, if◌then◌else◌,
}
use multiserver.Shared.Run.{Run, returns, panic, ◌>>=◌}
use multiserver.Text.{split}
use multiserver.Conn.{Conn}
use multiserver.Config.{
  Value, null, Entries, no_entries, entry, name, no_text, value_at, conf_key, as_text,
  as_dictionary, server_name,
}
use multiserver.Database.{Database, Answer, ok, err}
use multiserver.Privs.{Privileges, check_privs}

-- What a command does: a message to its caller, a player who is sent to a server or sent away.
pub data CommandEffect : Type 0 where
  say : Bytes → CommandEffect
  redirect_to : Conn → Bytes → CommandEffect
  close_with : Conn → Bytes → CommandEffect

-- `ConnByUsername(name)`, in the order in which the connections are ranged.
unfoldable pub conn_by_username : Bytes → List Conn → Option Conn
conn_by_username player [] = none
conn_by_username player (c ∷ conns) =
    let rest = conn_by_username player conns in if c.username == player then some c else rest

-- `v == nil`
abbrev pub is_nil : Value → Bool
is_nil null = true
is_nil _ = false

-- Whether a group has the name.
unfoldable pub is_group : Bytes → Entries → Bool
is_group param no_entries = false
is_group param (entry no_text v es) = is_group param es
is_group param (entry (name grp) v es) = grp == param || is_group param es

abbrev pub in_groups : Bytes → Option Entries → Bool
in_groups param none = false
in_groups param (some groups) = is_group param groups

-- `for server := range servers { r += server.(string) + " " }`
unfoldable pub names_text : Entries → Run Bytes
names_text no_entries = returns []
names_text (entry no_text v es) = panic
names_text (entry (name server) v es) = names_text es >>= λ r. returns (server ++ b' ' ∷ r)

abbrev pub groups_text : Option Entries → Run Bytes
groups_text none = returns []
groups_text (some groups) = names_text groups

-- `"servers:" + param + ":priv"`
abbrev pub server_priv : Bytes → Bytes
server_priv param = codes "servers:" ++ (param ++ codes ":priv")

abbrev pub group_priv : Bytes → Bytes
group_priv param = codes "group_privs:" ++ param

abbrev pub add_priv : Option Bytes → Privileges → Privileges
add_priv none m = m
add_priv (some p) m = insert p true m

-- The value of a string that an assertion did not give.
abbrev pub or_empty : Option Bytes → Bytes
or_empty none = []
or_empty (some t) = t

abbrev pub send_usage : Bytes
send_usage = codes "Usage: send <playername> <servername>"

-- What follows the check of the privileges, in `server`.
unfoldable pub join_server : Conn → Bytes → Bytes → Answer Bool → List CommandEffect
join_server c param reqpriv (err e) =
    say (codes "An internal error occured while attempting to check your privileges") ∷ []
join_server c param reqpriv (ok false) =
    say (codes "You do not have permission to join this server! Required privilege: " ++ reqpriv)
    ∷ []
join_server c param reqpriv (ok true) =
    redirect_to c param ∷ say (codes "Redirecting you to " ++ param) ∷ []

-- `config` is the configuration, and `srv_addr` the address of the server of a connection.
module _ (config : Entries) (srv_addr : Conn → Option Bytes) where
  -- `ConfKey("servers").(map[interface{}]interface{})`
  unfoldable pub servers_of : Run Entries
  servers_of = conf_key config (codes "servers") >>= λ v. elim (as_dictionary v) [
    | none ↦ panic
    | some servers ↦ returns servers
  ]

  -- `if c2 == nil { … }` and what follows, in `send`.
  unfoldable pub send_player : Bytes → Bytes → Option Conn → Run (List CommandEffect)
  send_player player tosrv none = returns (say (player ++ codes " is not online") ∷ [])
  send_player player tosrv (some c) = server_name config (srv_addr c) >>= λ srv. returns (
      (if srv == tosrv
        then say (player ++ codes " is already connected to this server!")
        else redirect_to c tosrv)
      ∷ [])

  unfoldable pub send_words : List Conn → List Bytes → Run (List CommandEffect)
  unfolding servers_of conn_by_username send_player
  send_words conns [] = returns (say send_usage ∷ [])
  send_words conns (player ∷ []) = returns (say send_usage ∷ [])
  send_words conns (player ∷ tosrv ∷ ps) =
      if player == [] || tosrv == []
      then returns (say send_usage ∷ [])
      else servers_of >>= λ servers.
          if is_nil (value_at tosrv servers)
          then returns (say (codes "Unknown servername " ++ tosrv) ∷ [])
          else send_player player tosrv (conn_by_username player conns)

  -- The function of `send`: without a parameter the first word is empty.
  unfoldable pub send_command : List Conn → Bytes → Run (List CommandEffect)
  unfolding send_words
  send_command conns param = send_words conns (split b' ' param)

  -- `for _, c := range Conns()`: the players on the servers that pass are sent.
  unfoldable pub redirect_loop : (Bytes → Bool) → Bytes → List Conn → Run (List CommandEffect)
  redirect_loop passes param [] = returns []
  redirect_loop passes param (c ∷ conns) =
      let rest = redirect_loop passes param conns in
      server_name config (srv_addr c) >>= λ srv.
      rest >>= λ effects. returns (if passes srv then redirect_to c param ∷ effects else effects)

  -- The function of `sendcurrent`
  unfoldable pub sendcurrent_command : List Conn → Conn → Bytes → Run (List CommandEffect)
  unfolding servers_of redirect_loop
  sendcurrent_command conns c param =
      if param == []
      then returns (say (codes "Usage: sendcurrent <servername>") ∷ [])
      else servers_of >>= λ servers.
          if is_nil (value_at param servers)
          then returns (say (codes "Unknown servername " ++ param) ∷ [])
          else server_name config (srv_addr c) >>= λ srv.
              if srv == param
              then returns (say (codes "All targets are already connected to this server!") ∷ [])
              else redirect_loop (λ psrv. psrv == srv) param conns

  -- The function of `sendall`
  unfoldable pub sendall_command : List Conn → Bytes → Run (List CommandEffect)
  unfolding servers_of redirect_loop
  sendall_command conns param =
      if param == []
      then returns (say (codes "Usage: sendall <servername>") ∷ [])
      else servers_of >>= λ servers.
          if is_nil (value_at param servers)
          then returns (say (codes "Unknown servername " ++ param) ∷ [])
          else redirect_loop (λ psrv. not (psrv == param)) param conns

  -- The function of `find`
  unfoldable pub find_command : List Conn → Bytes → Run (List CommandEffect)
  unfolding conn_by_username
  find_command conns param =
      if param == []
      then returns (say (codes "Usage: find <playername>") ∷ [])
      else elim (conn_by_username param conns) [
        | none ↦ returns (say (param ++ codes " is not online") ∷ [])
        | some c ↦ server_name config (srv_addr c) >>= λ srv.
            returns (say (param ++ (codes " is connected to server " ++ srv)) ∷ [])
      ]

  -- `server` without a parameter
  unfoldable pub list_servers : Conn → Run (List CommandEffect)
  unfolding servers_of names_text
  list_servers c = servers_of >>= λ servers. names_text servers >>= λ r.
      conf_key config (codes "groups") >>= λ groups. groups_text (as_dictionary groups) >>= λ r2.
      server_name config (srv_addr c) >>= λ srv. returns (
        say (
          codes "Current server: "
          ++ (srv ++ (codes " | All servers: " ++ (r ++ (codes "| All server groups: " ++ r2)))))
        ∷ [])

  module _ (d : Database) (s : d.State) (c : Conn) where
    -- The privileges of the server and of the group; the name of the second one is the one that is shown.
    unfoldable pub check_server_privs : Bytes → Run (List CommandEffect)
    unfolding join_server
    check_server_privs param = conf_key config (server_priv param) >>= λ v1.
        conf_key config (group_priv param) >>= λ v2. returns (
          join_server c param (or_empty (as_text v2))
            (check_privs d s c.username (add_priv (as_text v2) (add_priv (as_text v1) []))))

    -- The function of `server`
    unfoldable pub server_command : Bytes → Run (List CommandEffect)
    unfolding list_servers check_server_privs is_group
    server_command param =
        if param == []
        then list_servers c
        else servers_of >>= λ servers. server_name config (srv_addr c) >>= λ srv.
            if srv == param
            then returns (say (codes "You are already connected to this server!") ∷ [])
            else conf_key config (codes "groups") >>= λ groups.
                if is_nil (value_at param servers) && not (in_groups param (as_dictionary groups))
                then returns (say (codes "Unknown servername " ++ param) ∷ [])
                else check_server_privs param
