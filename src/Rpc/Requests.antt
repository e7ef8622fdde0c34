-- ===== src/Rpc/Requests.antt =====
-- rpc.go: the commands of `processRPC`, one definition each.
use multiserver.Shared.{
  Bool, true, false, Option, none, some, List, [], ◌∷◌, ◌++◌, map, Bytes, codes, ◌==◌, bytes_eq,
  nat_eq, leb, if◌then◌else◌, length, take, ◌-◌,
}
use multiserver.Shared.Run.{Run, returns, panic, ◌>>=◌}
use multiserver.Conn.{Conn}
use multiserver.Config.{
  Entries, name, no_text, no_entries, entry, conf_key, as_text, as_dictionary, server_address,
  server_name,
}
use multiserver.Database.{Database, Answer, ok, err}
use multiserver.Privs.{Privileges, encode_privs, decode_privs, bar, privs, set_privs, check_privs}
use multiserver.Ban.{ban, unban, is_banned, conn_ban}
use multiserver.Rpc.{
  RpcEffect, chat_all, call, redirect_client, disconnect, RpcResult, OnlineClient, part, from_part,
}

-- `"true"` or `"false"`
abbrev pub bool_text : Bool → Bytes
bool_text true = codes "true"
bool_text false = codes "false"

-- `err == nil && has`
abbrev pub is_ok_true : Answer Bool → Bool
is_ok_true (ok has) = has
is_ok_true (err e) = false

-- `strings.Replace(s, "|", ",", -1)`
abbrev pub bars_to_commas : Bytes → Bytes
bars_to_commas s = map (λ b. if b == bar then b',' else b) s

abbrev pub privs_text : Answer Privileges → Bytes
privs_text (ok p) = bars_to_commas (encode_privs p)
privs_text (err e) = []

-- The loop over the servers' names, each with a comma behind it.
unfoldable pub server_names : Entries → Bytes → Run Bytes
server_names no_entries srvs = returns srvs
server_names (entry no_text v es) srvs = panic
server_names (entry (name server) v es) srvs = server_names es (srvs ++ (server ++ codes ","))

-- `srvs[:len(srvs)-1]`
abbrev pub without_last : Bytes → Run Bytes
without_last srvs = if leb 1 (length srvs) then returns (take (length srvs - 1) srvs) else panic

-- The calls of the loops over `rpcSrvs`.
unfoldable pub tell_others : Bytes → Bytes → List Conn → List RpcEffect
tell_others addr rpc [] = []
tell_others addr rpc (srv ∷ srvs) =
    let rest = tell_others addr rpc srvs in
    if srv.addr == addr then rest else call srv rpc (codes "--") ∷ rest

unfoldable pub tell_one : Bytes → Bytes → List Conn → List RpcEffect
tell_one addr rpc [] = []
tell_one addr rpc (srv ∷ srvs) =
    let rest = tell_one addr rpc srvs in
    if srv.addr == addr then call srv rpc (codes "--") ∷ rest else rest

-- `c` is the server that sent `msg`, whose first part is `rq`.
module _ (d : Database) (s : d.State) (c : Conn) (rq msg : Bytes) where
  abbrev pub finished : d.State → List RpcEffect → Run (RpcResult d.State)
  finished s' effects = returns (record { taken = true; state = s'; effects = effects })

  abbrev pub reply : Bytes → Run (RpcResult d.State)
  reply rpc = finished s (call c rpc rq ∷ [])

  unfoldable pub rpc_alert : Run (RpcResult d.State)
  rpc_alert = from_part 2 msg >>= λ text. finished s (chat_all text ∷ [])

  unfoldable pub rpc_check_privs : Run (RpcResult d.State)
  rpc_check_privs = part 2 msg >>= λ player. from_part 3 msg >>= λ req.
      reply
        (codes "->HASPRIVS " ++ bool_text (is_ok_true (check_privs d s player (decode_privs req))))

  unfoldable pub rpc_get_privs : Run (RpcResult d.State)
  rpc_get_privs = part 2 msg >>= λ player. reply (codes "->PRIVS " ++ privs_text (privs d s player))

  unfoldable pub rpc_set_privs : Run (RpcResult d.State)
  rpc_set_privs = part 2 msg >>= λ player.
      from_part 3 msg >>= λ req. finished (set_privs d s player (decode_privs req)).1 []

  unfoldable pub rpc_unban : Run (RpcResult d.State)
  rpc_unban = part 2 msg >>= λ target. finished (unban d s target).1 []

  -- `online` is `IsOnline`, `client_of` is `ConnByUsername`. A nil connection panics where it is used.
  module _ (online : Bytes → Bool) (client_of : Bytes → Option OnlineClient) where
    unfoldable pub rpc_is_online : Run (RpcResult d.State)
    rpc_is_online =
        from_part 2 msg >>= λ player. reply (codes "->ISONLINE " ++ bool_text (online player))

    unfoldable pub rpc_get_srv : Entries → Run (RpcResult d.State)
    rpc_get_srv config = part 2 msg >>= λ player.
        if online player
        then elim (client_of player) [
          | none ↦ panic
          | some k ↦ server_name config k.server >>= λ srv. reply (codes "->SRV " ++ srv)
        ]
        else reply (codes "->SRV ")

    unfoldable pub rpc_redirect : Run (RpcResult d.State)
    rpc_redirect = part 2 msg >>= λ player. part 3 msg >>= λ tosrv.
        if online player
        then elim (client_of player) [
          | none ↦ panic
          | some k ↦ finished s (redirect_client player tosrv ∷ [])
        ]
        else finished s []

    unfoldable pub rpc_get_addr : Run (RpcResult d.State)
    rpc_get_addr = part 2 msg >>= λ player.
        if online player
        then elim (client_of player) [ none ↦ panic | some k ↦ reply (codes "->ADDR " ++ k.addr) ]
        else reply (codes "->ADDR ")

    -- `parse_ip` says which texts `net.ParseIP` accepts.
    unfoldable pub rpc_ban : (Bytes → Bool) → Run (RpcResult d.State)
    rpc_ban parse_ip = part 2 msg >>= λ target.
        let tried = ban d parse_ip s target (codes "not known") in
        elim tried.0 [
          | ok _ ↦ finished tried.1 []
          | err e ↦ elim (client_of target) [
            | none ↦ finished tried.1 []
            | some k ↦
                let banning = conn_ban d parse_ip tried.1 target k.ip in
                finished banning.state (if banning.closed then disconnect target ∷ [] else [])
          ]
        ]

  unfoldable pub rpc_is_banned : (Bytes → Bool) → Run (RpcResult d.State)
  rpc_is_banned parse_ip = part 2 msg >>= λ target.
      let (banned, banned_name, error) = is_banned d s target in
      if parse_ip target
      then elim error [
        | some e ↦ finished s []
        | none ↦ reply (codes "->ISBANNED " ++ bool_text banned)
      ]
      else finished s []

  unfoldable pub rpc_get_defsrv : Entries → Run (RpcResult d.State)
  rpc_get_defsrv config = conf_key config (codes "default_server") >>= λ v. elim (as_text v) [
    | none ↦ finished s []
    | some defsrv ↦ reply (codes "->DEFSRV " ++ defsrv)
  ]

  unfoldable pub rpc_get_srvs : Entries → Run (RpcResult d.State)
  unfolding server_names
  rpc_get_srvs config = conf_key config (codes "servers") >>= λ v. elim (as_dictionary v) [
    | none ↦ panic
    | some servers ↦ server_names servers [] >>= λ srvs.
        without_last srvs >>= λ names. reply (codes "->SRVS " ++ names)
  ]

  -- `rpc_srvs` is `rpcSrvs`.
  unfoldable pub rpc_mt2mt : List Conn → Run (RpcResult d.State)
  unfolding tell_others
  rpc_mt2mt rpc_srvs = from_part 2 msg >>= λ text.
      finished s (tell_others c.addr (codes "->MT2MT true " ++ text) rpc_srvs)

  unfoldable pub rpc_msg2mt : Entries → List Conn → Run (RpcResult d.State)
  unfolding tell_one
  rpc_msg2mt config rpc_srvs = part 2 msg >>= λ tosrv. server_address config tosrv >>= λ found.
      elim found [
        | none ↦ finished s []
        | some addr ↦
            if addr == c.addr
            then finished s []
            else from_part 3 msg >>= λ text.
                finished s (tell_one addr (codes "->MT2MT false " ++ text) rpc_srvs)
      ]
