-- ===== src/Proxy/Limit.antt =====
-- listen.go, multiserver.go: the player limit, and clients for which no server was reached.
use multiserver.Shared.{
  ℕ, suc, ◌+◌, ◌%◌, ◌^◌, ◌<◌, ◌≤◌, ◌≡◌, refl, ap, ◌∙◌, true, false, List, [], ◌∷◌, codes, ==_refl,
  nat_eq, leb, length, arith,
}
use multiserver.Shared.Run.{returns}
use multiserver.Config.{int, Entries, conf_key}
use multiserver.Proxy.{
  Net, no_clients, int_leb, delete_conn, close_conn, accept, after_init, turn_away,
}

abbrev pub counted : ℕ → Net
counted n = record { conns = []; connected = n }

int_leb_small : (a b : ℕ) → a < 2 ^ 63 → b < 2 ^ 63 → int_leb a b ≡ leb a b
unfolding int_leb
int_leb_small a b ha hb =
    let moved_a : (a + 2 ^ 63) % 2 ^ 64 ≡ a + 2 ^ 63 = omega arith in
    let moved_b : (b + 2 ^ 63) % 2 ^ 64 ≡ b + 2 ^ 63 = omega arith in
    rw (moved_a, moved_b) (ground arith)

delete_alone : (c : ℕ) → delete_conn c (c ∷ []) ≡ []
unfolding delete_conn
delete_alone c = rw (==_refl c) refl

module _ (config : Entries) (limit : ℕ)
    (e : conf_key config (codes "player_limit") ≡ returns (int limit))
    (small : limit < 2 ^ 63) where
  accept_free :
      (c n : ℕ)
      → n < limit
      → accept config c (counted n) ≡ returns (true, record { conns = c ∷ []; connected = n + 1 })
  unfolding accept
  accept_free c n h =
      let free : leb limit n ≡ false = ground arith in
      let next : (n + 1) % 2 ^ 64 ≡ n + 1 = omega arith in
      rw (e, int_leb_small limit n small (omega arith), free, next) refl

  accept_full : (c : ℕ) → accept config c (counted limit) ≡ returns (false, counted limit)
  unfolding accept close_conn
  accept_full c =
      let full : leb limit limit ≡ true = ground arith in
      rw (e, int_leb_small limit limit small small, full, delete_alone c) refl

  turned_away :
      (cs : List ℕ) (n : ℕ)
      → n + length cs ≤ limit
      → turn_away config cs (counted n) ≡ returns (counted (n + length cs))
  unfolding turn_away after_init close_conn
  turned_away [] n h = let same : n ≡ n + 0 = omega arith in ap (λ k. returns (counted k)) same
  turned_away (c ∷ cs) n h =
      let ih = turned_away cs (n + 1) (omega arith) in
      let count : n + 1 + length cs ≡ n + suc (length cs) = omega arith in
      rw (accept_free c n (omega arith), delete_alone c) (ih ∙ ap (λ k. returns (counted k)) count)

  -- After as many clients as the limit, for each of which no server was reached, no connection is left,
  -- the count is at the limit, and every further client is refused and leaves it there. The limit is a
  -- number in the configuration that is not negative.
  pub turn_away_locks_out :
      (cs : List ℕ)
      → length cs ≡ limit
      → (turn_away config cs no_clients ≡ returns (counted limit))
        × ((c : ℕ) → accept config c (counted limit) ≡ returns (false, counted limit))
  turn_away_locks_out cs h =
      let count : 0 + length cs ≡ limit = omega arith in
      (turned_away cs 0 (omega arith) ∙ ap (λ k. returns (counted k)) count, accept_full)
