-- ===== src/Redirect.antt =====
-- redirect.go: the move of a client from one server to another.
pub mod Packets
pub mod Sending
pub mod Group
pub mod Moves
mod Tests
use multiserver.Shared.{
  ℕ, ◌+◌, ◌^◌, ◌-◌, Bool, true, false, Option, none, some, List, [], ◌∷◌, ◌++◌, Bytes, codes, ◌==◌,
  ltb, bytes_eq, if◌then◌else◌,
}
use multiserver.Shared.Run.{Run, returns, panic, ◌>>=◌}
use multiserver.Config.{
  Value, Values, Entries, no_values, value, conf_key, as_text, as_seq, server_address, server_name,
  conns_server,
}

-- The errors that come before the proxy connects to the new server.
pub data Refusal : Type 0 where
  no_server_or_group no_server already_connected : Bytes → Refusal

-- `newsrv` as the search leaves it, with the address of the server or an error.
pub data Choice : Type 0 where
  refused : Bytes → Refusal → Choice
  chosen : Bytes → Bytes → Choice

-- `int(^uint(0) >> 1)`
abbrev pub max_int : ℕ
max_int = 2 ^ 63 - 1

module _ (config : Entries) (conns : List (Option Bytes)) (current : Option Bytes) where
  -- One round of the loop over the group: on with a count and a server, or the server that `c` is on.
  unfoldable pub pick_server : Bytes → ℕ → Bytes → Run (Option (ℕ × Bytes))
  pick_server server smallest newsrv = conns_server config conns server >>= λ cnt.
      if ltb cnt smallest
      then (server_name config current >>= λ here.
          returns (if here == server then none else some (cnt, server)))
      else returns (some (smallest, newsrv))

  -- The loop: `newsrv` behind it, with the server that it returned an error for.
  unfoldable pub pick_loop : Values → ℕ → Bytes → Run (Bytes × Option Bytes)
  unfolding pick_server
  pick_loop no_values smallest newsrv = returns (newsrv, none)
  pick_loop (value v vs) smallest newsrv =
      let go_on = pick_loop vs in
      elim (as_text v) [
        | none ↦ panic
        | some server ↦ pick_server server smallest newsrv >>= λ next. elim next [
          | none ↦ returns (newsrv, some server)
          | some (cnt, best) ↦ go_on cnt best
        ]
      ]

  -- The test before the connection is made.
  unfoldable pub check_server : Bytes → Bytes → Run Choice
  check_server newsrv addr = server_name config current >>= λ here.
      returns
        (if here == newsrv then refused newsrv (already_connected newsrv) else chosen newsrv addr)

  -- A group's server.
  unfoldable pub choose_in : Bytes → Values → Run Choice
  unfolding pick_loop check_server
  choose_in newsrv grp = pick_loop grp max_int newsrv >>= λ found. elim found.1 [
    | some server ↦ returns (refused found.0 (already_connected server))
    | none ↦ server_address config found.0 >>= λ addr. elim addr [
      | none ↦ returns (refused found.0 (no_server found.0))
      | some a ↦ check_server found.0 a
    ]
  ]

  -- From the start of `Redirect(newsrv)` to the look-up of the address.
  unfoldable pub choose_server : Bytes → Run Choice
  unfolding choose_in check_server
  choose_server newsrv = server_address config newsrv >>= λ addr. elim addr [
    | some a ↦ check_server newsrv a
    | none ↦ conf_key config (codes "groups:" ++ newsrv) >>= λ v. elim (as_seq v) [
      | none ↦ returns (refused newsrv (no_server_or_group newsrv))
      | some grp ↦ choose_in newsrv grp
    ]
  ]
