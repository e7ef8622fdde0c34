-- ===== src/Redirect/Sending.antt =====
-- redirect.go: the course of `Redirect` and what it reports.
use multiserver.Shared.{
  ℕ, Bool, Option, none, some, List, [], ◌∷◌, ◌++◌, map, Bytes, codes, ◌==◌, bytes_eq,
  if◌then◌else◌, GoMap, keys,
}
use multiserver.Shared.Run.{Run, returns, ◌>>=◌}
use multiserver.Conn.{Conn}
use multiserver.Config.{Entries, server_name}
use multiserver.Redirect.{Refusal, refused, chosen, choose_server}
use multiserver.Redirect.Packets.{
  Packet, prepend_packet, objects_packet, block_packet, hud_params, hud_packet, sound_packet,
  view_packets, sky_packets, inventory_packet, detached_of, join_packet,
}

-- The client, and what it has been sent.
pub record Moving : Type 0 where
  pub conn : Conn
  pub sent : List Packet

-- On, or out with the error of a `Send`.
pub data Progress : Type 0 where
  going stopped : Moving → Progress

infixl 5 ◌then_do◌
abbrev pub ◌then_do◌ : Progress → (Moving → Progress) → Progress
going m then_do f = f m
stopped m then_do f = stopped m

abbrev pub change : (Conn → Conn) → Moving → Progress
change f m = going (record m { conn = f m.conn })

-- How `Redirect` ends: without a server, without a connection to it, on the way, or done, with
-- the connection to the old server, which is told to stop forwarding, and the packets for the new
-- server. The text is `newsrv`.
pub data Result : Type 0 where
  denied : Bytes → Refusal → Result
  unreachable : Bytes → Result
  interrupted : Bytes → Moving → Result
  moved : Bytes → Moving → Option ℕ → List Bytes → Result

-- `fails sent p` says whether `Send` gives an error for `p` after the packets `sent`.
module _ (fails : List Packet → Packet → Bool) where
  unfoldable pub send_client : Packet → Moving → Progress
  send_client p m =
      if fails m.sent p then stopped m else going (record m { sent = m.sent ++ p ∷ [] })

  unfoldable pub send_each : List Packet → Moving → Progress
  unfolding send_client
  send_each [] m = going m
  send_each (p ∷ ps) m = send_client p m then_do send_each ps

  -- The formspec style: the error is not looked at.
  unfoldable pub send_anyway : Packet → Moving → Progress
  send_anyway p m = if fails m.sent p then going m else going (record m { sent = m.sent ++ p ∷ [] })

  -- `deflate` is what package compress/zlib makes of bytes.
  module _ (deflate : Bytes → Bytes) where
    -- All that `c` is sent, with the fields that are reset on the way.
    unfoldable pub reset_client : List Bytes → Moving → Progress
    unfolding send_each send_anyway
    reset_client invs m =
        let c = m.conn in
        send_anyway prepend_packet m
        then_do send_each (objects_packet c.ao_ids ∷ [])
        then_do change (λ k. record k { ao_ids = [] })
        then_do send_each (map (block_packet deflate) c.blocks)
        then_do change (λ k. record k { blocks = [] })
        then_do send_each hud_params
        then_do send_each (map hud_packet (keys c.huds))
        then_do change (λ k. record k { huds = [] })
        then_do send_each (map sound_packet (keys c.sounds))
        then_do change (λ k. record k { sounds = [] })
        then_do send_each view_packets
        then_do send_each (sky_packets c.proto_ver)
        then_do send_each (map inventory_packet invs)

    -- From the connection to the new server on. A client without a server does not come here: the choice of the
    -- server has asked for the name of the client's own, which panics then.
    unfoldable pub move_client : Bytes → List Bytes → ℕ → Conn → Result
    unfolding reset_client
    move_client newsrv invs srv c = elim (reset_client invs (record { conn = c; sent = [] })) [
      | stopped m ↦ interrupted newsrv m
      | going m ↦
          moved newsrv (record m { conn = record m.conn { srv = some srv } }) m.conn.srv
            (map join_packet (keys m.conn.mod_chs))
    ]

    -- `Redirect(newsrv)`. `conns` are the server addresses of all connections, `current` that of `c`;
    -- `connect` says which connection there is to an address, resolved, dialled and initialised.
    unfoldable pub redirect :
        Entries
        → List (Option Bytes)
        → Option Bytes
        → GoMap Bytes (List Bytes)
        → (Bytes → Option ℕ)
        → Conn
        → Bytes
        → Run Result
    unfolding move_client
    redirect config conns current detachedinvs connect c newsrv =
        choose_server config conns current newsrv >>= λ choice. elim choice [
          | refused srv why ↦ returns (denied srv why)
          | chosen srv addr ↦ elim (connect addr) [
            | none ↦ returns (unreachable srv)
            | some handle ↦ returns (move_client srv (detached_of srv detachedinvs) handle c)
          ]
        ]

-- `processRedirectDone(c, &newsrv)`: what it tells the servers over RPC, and what the callbacks get.
-- `current` is the address of the server that `c` has by then.
unfoldable pub redirect_done : Entries → Option Bytes → Bytes → Bytes → Run (Bytes × Bool)
redirect_done config current username newsrv = server_name config current >>= λ here.
    let success = here == newsrv in
    let successstr = if success then codes "true" else codes "false" in
    returns (
      codes "->REDIRECTED " ++ (username ++ (codes " " ++ (newsrv ++ (codes " " ++ successstr)))),
      success,
    )
