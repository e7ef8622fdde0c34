-- ===== src/Redirect/Moves.antt =====
-- What a redirection leaves of the client's connection, and what is sent on the way.
use multiserver.Shared.{
  ℕ, ◌≡◌, ◌≢◌, inl, inr, refl, sym, ap, ◌∙◌, Bool, true, false, Option, some, List, [], ◌∷◌, ◌++◌,
  map, Bytes, ◌==◌, bytes_eq, GoMap, keys, insert, contains, append_assoc, append-nil, Bool-cases,
  arith, if_holds,
}
use multiserver.Wire.{Reader, read_bytes16}
use multiserver.Conn.{Conn}
use multiserver.Command.{rpc_ch, Config}
use multiserver.Command.Channels.{set_open}
use multiserver.Command.Client.{set_mod_channel, mod_ch_sig_leave_fail, channels_off}
use multiserver.Redirect.Packets.{
  Packet, prepend_packet, objects_packet, block_packet, hud_params, hud_packet, sound_packet,
  view_packets, sky_packets, inventory_packet, join_packet,
}
use multiserver.Redirect.Sending.{
  Moving, Progress, going, stopped, ◌then_do◌, change, Result, interrupted, moved, send_client,
  send_each, send_anyway, reset_client, move_client,
}

-- All the packets of a redirection, in their order.
unfoldable pub all_packets : (Bytes → Bytes) → Conn → List Bytes → List Packet
all_packets deflate c invs =
    prepend_packet
    ∷ objects_packet c.ao_ids
    ∷ (map (block_packet deflate) c.blocks
        ++ (hud_params
            ++ (map hud_packet (keys c.huds)
                ++ (map sound_packet (keys c.sounds)
                    ++ (view_packets ++ (sky_packets c.proto_ver ++ map inventory_packet invs))))))

-- What the client no longer has.
abbrev pub forget : Conn → Conn
forget c = record c { ao_ids = []; blocks = []; huds = []; sounds = [] }

send_each_all :
    (ps : List Packet) (m : Moving)
    → send_each (λ _ _. false) ps m ≡ going (record m { sent = m.sent ++ ps })
unfolding send_each send_client
send_each_all [] m = ap (λ t. going (record m { sent = t })) (sym (append-nil m.sent))
send_each_all (p ∷ ps) m =
    send_each_all ps (record m { sent = m.sent ++ p ∷ [] })
    ∙ ap (λ t. going (record m { sent = t })) (append_assoc m.sent (p ∷ []) ps)

reset_all :
    (deflate : Bytes → Bytes) (invs : List Bytes) (c : Conn)
    → reset_client (λ _ _. false) deflate invs (record { conn = c; sent = [] })
      ≡ going (record { conn = forget c; sent = all_packets deflate c invs })
unfolding reset_client send_anyway all_packets
reset_all deflate invs c = simp (send_each_all, append_assoc)

-- The connection is as it was, but for what the client has been made to forget.
abbrev pub OnlyForgets : Conn → Conn → Type 0
OnlyForgets c k =
    k ≡ record c { ao_ids = k.ao_ids; blocks = k.blocks; huds = k.huds; sounds = k.sounds }

abbrev Keeps : Conn → Progress → Type 0
Keeps c (going m) = OnlyForgets c m.conn
Keeps c (stopped m) = OnlyForgets c m.conn

then_do-Keeps :
    (c : Conn) (p : Progress) (f : Moving → Progress)
    → Keeps c p
    → ((m : Moving) → OnlyForgets c m.conn → Keeps c (f m))
    → Keeps c (p then_do f)
then_do-Keeps c (going m) f h hf = hf m h
then_do-Keeps c (stopped m) f h hf = h

module _ (fails : List Packet → Packet → Bool) (c : Conn) where
  send_client-Keeps :
      (p : Packet) (m : Moving) → OnlyForgets c m.conn → Keeps c (send_client fails p m)
  unfolding send_client
  send_client-Keeps p m h =
      if_holds (Keeps c) (fails m.sent p) (stopped m) (going (record m { sent = m.sent ++ p ∷ [] }))
        (λ _. h) (λ _. h)

  send_each-Keeps :
      (ps : List Packet) (m : Moving) → OnlyForgets c m.conn → Keeps c (send_each fails ps m)
  unfolding send_each
  send_each-Keeps [] m h = h
  send_each-Keeps (p ∷ ps) m h =
      then_do-Keeps c (send_client fails p m) (send_each fails ps) (send_client-Keeps p m h)
        (send_each-Keeps ps)

  send_anyway-Keeps :
      (p : Packet) (m : Moving) → OnlyForgets c m.conn → Keeps c (send_anyway fails p m)
  unfolding send_anyway
  send_anyway-Keeps p m h =
      if_holds (Keeps c) (fails m.sent p) (going m) (going (record m { sent = m.sent ++ p ∷ [] }))
        (λ _. h) (λ _. h)

  clear_ao_ids :
      (m : Moving) → OnlyForgets c m.conn → Keeps c (change (λ k. record k { ao_ids = [] }) m)
  clear_ao_ids m h = ap (λ (k : Conn). record k { ao_ids = [] }) h

  clear_blocks :
      (m : Moving) → OnlyForgets c m.conn → Keeps c (change (λ k. record k { blocks = [] }) m)
  clear_blocks m h = ap (λ (k : Conn). record k { blocks = [] }) h

  clear_huds :
      (m : Moving) → OnlyForgets c m.conn → Keeps c (change (λ k. record k { huds = [] }) m)
  clear_huds m h = ap (λ (k : Conn). record k { huds = [] }) h

  clear_sounds :
      (m : Moving) → OnlyForgets c m.conn → Keeps c (change (λ k. record k { sounds = [] }) m)
  clear_sounds m h = ap (λ (k : Conn). record k { sounds = [] }) h

  reset_client-Keeps :
      (deflate : Bytes → Bytes) (invs : List Bytes) (m : Moving)
      → OnlyForgets c m.conn
      → Keeps c (reset_client fails deflate invs m)
  unfolding reset_client
  reset_client-Keeps deflate invs m h =
      let s0 = send_anyway-Keeps prepend_packet m h in
      let s1 = then_do-Keeps c _ _ s0 (send_each-Keeps (objects_packet m.conn.ao_ids ∷ [])) in
      let s2 = then_do-Keeps c _ _ s1 (clear_ao_ids) in
      let s3 =
        then_do-Keeps c _ _ s2 (send_each-Keeps (map (block_packet deflate) m.conn.blocks)) in
      let s4 = then_do-Keeps c _ _ s3 (clear_blocks) in
      let s5 = then_do-Keeps c _ _ s4 (send_each-Keeps hud_params) in
      let s6 = then_do-Keeps c _ _ s5 (send_each-Keeps (map hud_packet (keys m.conn.huds))) in
      let s7 = then_do-Keeps c _ _ s6 (clear_huds) in
      let s8 = then_do-Keeps c _ _ s7 (send_each-Keeps (map sound_packet (keys m.conn.sounds))) in
      let s9 = then_do-Keeps c _ _ s8 (clear_sounds) in
      let s10 = then_do-Keeps c _ _ s9 (send_each-Keeps view_packets) in
      let s11 = then_do-Keeps c _ _ s10 (send_each-Keeps (sky_packets m.conn.proto_ver)) in
      then_do-Keeps c _ _ s11 (send_each-Keeps (map inventory_packet invs))

unfoldable pub rejoins : Conn → List Bytes
rejoins c = map join_packet (keys c.mod_chs)

-- How a move can end, for a client `c`.
pub data Ends (newsrv : Bytes) (srv : ℕ) (c : Conn) : Result → Type 0 where
  left_off : (m : Moving) → OnlyForgets c m.conn → Ends newsrv srv c (interrupted newsrv m)
  done :
      (m : Moving) (old : Option ℕ) (joins : List Bytes)
      → OnlyForgets (record c { srv = some srv }) m.conn
      → old ≡ c.srv
      → joins ≡ rejoins c
      → Ends newsrv srv c (moved newsrv m old joins)

ends_lem :
    (newsrv : Bytes) (srv : ℕ) (c : Conn) (p : Progress)
    → Keeps c p
    → Ends newsrv srv c (elim p [
      | stopped m ↦ interrupted newsrv m
      | going m ↦
          moved newsrv
            (record m { conn = record m.conn { srv = some srv } })
            m.conn.srv
            (map join_packet (keys m.conn.mod_chs))
    ])
unfolding rejoins
ends_lem newsrv srv c (stopped m) h = left_off m h
ends_lem newsrv srv c (going m) h =
    done _ _ _ (ap (λ (k : Conn). record k { srv = some srv }) h) (ap (λ (k : Conn). k.srv) h)
      (ap (λ (k : Conn). map join_packet (keys k.mod_chs)) h)

-- Whichever of its packets cannot be sent, a move ends in one of two ways. It is left off, and the
-- client keeps its server; or it is done, the client has the new server, the connection to the old
-- one is told to stop, and the new one is sent a join for every mod channel that the connection has
-- an entry for. Either way nothing else of the connection changes but its objects, blocks, HUDs and
-- sounds.
pub move_client-Ends :
    (fails : List Packet → Packet → Bool) (deflate : Bytes → Bytes) (newsrv : Bytes)
    (invs : List Bytes) (srv : ℕ) (c : Conn)
    → Ends newsrv srv c (move_client fails deflate newsrv invs srv c)
unfolding move_client
move_client-Ends fails deflate newsrv invs srv c =
    let start : Moving = record { conn = c; sent = [] } in
    ends_lem newsrv srv c (reset_client fails deflate invs start)
      (reset_client-Keeps fails c deflate invs start refl)

-- If every packet is sent, the client gets the packets in their order, one for each thing that it is
-- to forget, and the connection forgets them.
move_client_all :
    (deflate : Bytes → Bytes) (newsrv : Bytes) (invs : List Bytes) (srv : ℕ) (c : Conn)
    → move_client (λ _ _. false) deflate newsrv invs srv c
      ≡ moved newsrv
          (record {
            conn = record (forget c) { srv = some srv };
            sent = all_packets deflate c invs;
          })
          c.srv
          (rejoins c)
unfolding move_client rejoins
move_client_all deflate newsrv invs srv c = rw (move_client, reset_all deflate invs c) refl

contains-map :
    (f : Bytes → Bytes) (k : Bytes) (ks : List Bytes)
    → contains k ks ≡ true
    → contains (f k) (map f ks) ≡ true
unfolding contains
contains-map f k [] h = cc h
contains-map f k (j ∷ ks) h = elim (Bool-cases (j == k)) [
  | inl same ↦
      let e : f j ≡ f k = ap f ((bytes_eq.same_iff j k).0 same) in
      ground (arith, bytes_eq.same_iff (f j) (f k), e)
  | inr other ↦ ground (arith, contains-map f k ks, h, other)
]

contains-insert :
    (k : Bytes) (b : Bool) (m : GoMap Bytes Bool) → contains k (keys (insert k b m)) ≡ true
unfolding contains insert
contains-insert k b [] = ground (arith, bytes_eq.same_iff k k)
contains-insert k b ((j, v) ∷ m) = ground (arith, contains-insert k b m)

-- Where mod channels are not switched off, a move right after a client has left a mod channel, whose
-- packets can all be sent, joins it again: the join of the channel is among the packets that the move
-- sends to the new server. The channel is not that of the proxy.
pub rejoins_left :
    (conf : Config) (c : Conn) (r : Reader) (deflate : Bytes → Bytes) (newsrv : Bytes)
    (invs : List Bytes) (srv : ℕ)
    → channels_off conf ≡ false
    → (read_bytes16 r).0 ≢ rpc_ch
    → (m : Moving) × (old : Option ℕ) × (joins : List Bytes) × (move_client
          (λ _ _. false)
          deflate
          newsrv
          invs
          srv
          (set_mod_channel conf mod_ch_sig_leave_fail false c r).0
        ≡ moved newsrv m old joins)
      × (contains (join_packet (read_bytes16 r).0) joins ≡ true)
unfolding rejoins
rejoins_left conf c r deflate newsrv invs srv on other =
    let ch = (read_bytes16 r).0 in
    let c' = (set_mod_channel conf mod_ch_sig_leave_fail false c r).0 in
    let left = set_open conf mod_ch_sig_leave_fail false c r on other in
    (
      record { conn = record (forget c') { srv = some srv }; sent = all_packets deflate c' invs },
      c'.srv,
      rejoins c',
      move_client_all deflate newsrv invs srv c',
      ap (λ x. contains (join_packet ch) (rejoins x.0)) left
          ∙ contains-map join_packet ch (keys (insert ch false c.mod_chs))
              (contains-insert ch false c.mod_chs),
    )
