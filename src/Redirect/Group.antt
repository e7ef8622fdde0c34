-- ===== src/Redirect/Group.antt =====
-- The choice of a server from a group.
use mathlib.Core.Path.{subst}
use multiserver.Shared.{
  ℕ, ◌≤◌, ◌<◌, ◌≡◌, ◌⊎◌, inl, inr, refl, sym, ap, ◌∙◌, true, false, Option, none, some, List, [],
  ◌∷◌, Bytes, ◌==◌, bytes_eq, ltb, contains, All, Bool-cases, arith, ==_refl,
}
use multiserver.Shared.Run.{returns}
use multiserver.Config.{
  Values, Entries, no_values, value, text, server_address, server_name, conns_server,
}
use multiserver.Redirect.{
  refused, chosen, already_connected, max_int, pick_server, pick_loop, check_server, choose_in,
}

-- A group of the configuration: the names of its servers.
abbrev pub group_of : List Bytes → Values
group_of [] = no_values
group_of (s ∷ ss) = value (text s) (group_of ss)

-- `cnt` says how many clients each server has, `addr` where it is, and `here` is the client's server.
module _ (config : Entries) (conns : List (Option Bytes)) (current : Option Bytes) (cnt : Bytes → ℕ)
    (addr : Bytes → Bytes) (here : Bytes) where
  -- The server is in the configuration, is not the client's, and fewer than `max_int` clients are on it.
  abbrev pub IsOffered : Bytes → Type 0
  IsOffered s =
      (conns_server config conns s ≡ returns (cnt s))
      × (server_address config s ≡ returns (some (addr s)))
      × ((here == s) ≡ false)
      × (cnt s < max_int)

  -- What the loop finds from the least count so far, and that of its server.
  abbrev Finds : List Bytes → ℕ → Bytes → Type 0
  Finds names smallest newsrv =
      (best : Bytes) × (least : ℕ) × (pick_loop config conns current (group_of names) smallest
          newsrv
        ≡ returns (best, none))
      × (((best ≡ newsrv) × (least ≡ smallest))
          ⊎ (IsOffered best × (contains best names ≡ true) × (least ≡ cnt best)))
      × (least ≤ smallest)
      × All (λ s. least ≤ cnt s) names

  module _ (at : server_name config current ≡ returns here) where
    pick_less :
        (s newsrv : Bytes) (smallest : ℕ)
        → IsOffered s
        → ltb (cnt s) smallest ≡ true
        → pick_server config conns current s smallest newsrv ≡ returns (some (cnt s, s))
    unfolding pick_server
    pick_less s newsrv smallest (counted, _, apart, _) less = rw (counted, less, at, apart) refl

    pick_more :
        (s newsrv : Bytes) (smallest : ℕ)
        → IsOffered s
        → ltb (cnt s) smallest ≡ false
        → pick_server config conns current s smallest newsrv ≡ returns (some (smallest, newsrv))
    unfolding pick_server
    pick_more s newsrv smallest offer more = rw (offer.0, more) refl

    pick_loop-Finds :
        (names : List Bytes) (smallest : ℕ) (newsrv : Bytes)
        → All IsOffered names
        → Finds names smallest newsrv
    unfolding pick_loop contains
    pick_loop-Finds [] smallest newsrv _ =
        (newsrv, smallest, refl, inl (refl, refl), omega arith, tt)
    pick_loop-Finds (s ∷ ss) smallest newsrv (offer, offered) =
        elim (Bool-cases (ltb (cnt s) smallest)) [
          | inl less ↦
              let (best, least, run, from, below, all) = pick_loop-Finds ss (cnt s) s offered in
              let smaller : cnt s < smallest = ground (arith, less) in
              (
                best,
                least,
                rw (pick_less s newsrv smallest offer less) run,
                elim from [
                  | inl (b_eq, l_eq) ↦
                      let same = (bytes_eq.same_iff s best).1 (sym b_eq) in
                      inr (subst IsOffered (sym b_eq) offer, rw same refl, l_eq ∙ ap cnt (sym b_eq))
                  | inr (offer', among, l_eq) ↦ inr (offer', ground (arith, among), l_eq)
                ],
                omega arith,
                (below, all),
              )
          | inr more ↦
              let (best, least, run, from, below, all) =
                pick_loop-Finds ss smallest newsrv offered in
              let larger : smallest ≤ cnt s = ground (arith, more) in
              (
                best,
                least,
                rw (pick_more s newsrv smallest offer more) run,
                elim from [
                  | inl kept ↦ inl kept
                  | inr (offer', among, l_eq) ↦ inr (offer', ground (arith, among), l_eq)
                ],
                below,
                (omega arith, all),
              )
        ]

    -- From a group of servers that are all in the configuration, none the client's own and none with as many
    -- clients as the largest number of the machine, the client is sent to one of them that has no more
    -- clients than any other. The name of the client's own server can be told, and the clients of each
    -- server of the group can be counted, which panics while any client has no server yet.
    pub choose_in_least :
        (newsrv s : Bytes) (ss : List Bytes)
        → All IsOffered (s ∷ ss)
        → (best : Bytes) × (choose_in config conns current newsrv (group_of (s ∷ ss))
            ≡ returns (chosen best (addr best)))
          × (contains best (s ∷ ss) ≡ true)
          × All (λ t. cnt best ≤ cnt t) (s ∷ ss)
    unfolding choose_in check_server
    choose_in_least newsrv s ss (offer, offered) =
        let (best, least, run, from, below, (first, all)) =
          pick_loop-Finds (s ∷ ss) max_int newsrv (offer, offered) in
        elim from [
          | inl (_, l_eq) ↦ absurd (let few = offer.3 in omega arith)
          | inr ((counted, found, apart, _), among, l_eq) ↦ (
            best,
            rw (run, found, at, apart) refl,
            among,
            subst (λ n. All (λ t. n ≤ cnt t) (s ∷ ss)) l_eq (first, all),
          )
        ]

-- A client whose own server comes first in the group is refused, with the error that it is already
-- connected, whatever servers come behind and however few clients they have.
choose_in_first :
    (config : Entries) (conns : List (Option Bytes)) (current : Option Bytes) (here newsrv : Bytes)
    (vs : Values) (n : ℕ)
    → server_name config current ≡ returns here
    → conns_server config conns here ≡ returns n
    → n < max_int
    → choose_in config conns current newsrv (value (text here) vs)
      ≡ returns (refused newsrv (already_connected here))
unfolding choose_in pick_loop pick_server
choose_in_first config conns current here newsrv vs n at counted few =
    let less : ltb n max_int ≡ true = ground (arith, few) in
    rw (counted, less, at, ==_refl here) refl
