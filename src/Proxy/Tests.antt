-- ===== src/Proxy/Tests.antt =====
-- A limit of two clients, and clients that come and go.
use multiserver.Shared.{
  ℕ, ◌≡◌, refl, true, false, some, List, [], ◌∷◌, codes, bytes_eq, bytes_beq, arith,
}
use multiserver.Shared.Run.{returns}
use multiserver.Config.{Entries, entry, name, int, no_entries, conf_key, conf_walk, value_at}
use multiserver.Text.{split}
use multiserver.Proxy.{
  no_clients, accept, turn_away, Round, got, conn_closed, other_error, proxy, proxy_loop,
  after_recv,
}
use multiserver.Proxy.Limit.{counted, turn_away_locks_out}

abbrev config : Entries
config = entry (name (codes "player_limit")) (int 2) no_entries

limit_read : conf_key config (codes "player_limit") ≡ returns (int 2)
unfolding conf_key conf_walk value_at split bytes_beq
limit_read = refl

turn_away_locks_out_example :
    (turn_away config (7 ∷ 8 ∷ []) no_clients ≡ returns (counted 2))
    × ((c : ℕ) → accept config c (counted 2) ≡ returns (false, counted 2))
turn_away_locks_out_example =
    turn_away_locks_out config 2 limit_read (omega arith) (7 ∷ 8 ∷ []) refl

-- A packet that is sent on, an error, and the end of the client.
abbrev rounds : List Round
rounds =
    record { received = got (some (0 ∷ 50 ∷ [])); src_forwards = true; dst_forwards = true }
    ∷ record { received = other_error; src_forwards = true; dst_forwards = true }
    ∷ record { received = conn_closed; src_forwards = true; dst_forwards = true }
    ∷ []

client_counted : (proxy (some false) true rounds).counted_out ≡ true
unfolding proxy proxy_loop after_recv
client_counted = refl
