-- ===== src/Redirect/Packets.antt =====
-- redirect.go: what a redirected client is sent, and the move itself.
use multiserver.Shared.{
  ℕ, ◌*◌, ◌%◌, ◌^◌, Bool, none, some, List, [], ◌∷◌, ◌++◌, Bytes, ◌==◌, nat_eq, bytes_eq,
  if◌then◌else◌, length, replicate, GoMap, keys, lookup,
}
use multiserver.Wire.{put_uint16, put_uint32}
use multiserver.Command.Codes.{
  to_client_code, to_server_code, formspec_prepend, active_object_remove_add, blockdata,
  hud_set_param, hud_rm, stop_sound, set_sky, detached_inventory, srv_mod_channel_join,
}
use multiserver.Nodes.{content_ignore}
use multiserver.Nodes.Blocks.{node_count}

-- A packet, with the number of its channel.
pub record Packet : Type 0 where
  pub channel : ℕ
  pub bytes : Bytes

abbrev pub on_channel : ℕ → Bytes → Packet
on_channel n b = record { channel = n; bytes = b }

abbrev pub prepend_packet : Packet
prepend_packet = on_channel 0 (0 ∷ to_client_code formspec_prepend ∷ 0 ∷ 0 ∷ [])

unfoldable pub numbers16 : List ℕ → Bytes
numbers16 [] = []
numbers16 (n ∷ ns) = put_uint16 n ++ numbers16 ns

-- The removal of all objects, and none added.
unfoldable pub objects_packet : GoMap ℕ Bool → Packet
unfolding numbers16
objects_packet ao_ids = on_channel 0 (
    0
    ∷ to_client_code active_object_remove_add
    ∷ (put_uint16 (length ao_ids % 2 ^ 16) ++ (numbers16 (keys ao_ids) ++ put_uint16 0)))

-- The nodes of an empty block: their contents, and two bytes of zero for each.
unfoldable pub empty_nodes : Bytes
unfolding numbers16
empty_nodes = numbers16 (replicate node_count content_ignore) ++ replicate (2 * node_count) 0

unfoldable pub block_packet : (Bytes → Bytes) → ℕ × ℕ × ℕ → Packet
unfolding empty_nodes
block_packet deflate (x, y, z) = on_channel 0 (
    0
    ∷ to_client_code blockdata
    ∷ (put_uint16 x
        ++ (put_uint16 y ++ (put_uint16 z ++ (0 ∷ 0xFF ∷ 0xFF ∷ 2 ∷ 2 ∷ deflate empty_nodes)))))

abbrev pub hud_params : List Packet
hud_params =
    let start = λ (b : Bytes). on_channel 1 (0 ∷ to_client_code hud_set_param ∷ b) in
    start (0 ∷ 1 ∷ 0 ∷ 4 ∷ 0 ∷ 0 ∷ 0 ∷ 8 ∷ [])
    ∷ start (0 ∷ 2 ∷ 0 ∷ 0 ∷ [])
    ∷ start (0 ∷ 3 ∷ 0 ∷ 0 ∷ [])
    ∷ []

unfoldable pub hud_packet : ℕ → Packet
hud_packet hud = on_channel 1 (0 ∷ to_client_code hud_rm ∷ put_uint32 hud)

unfoldable pub sound_packet : ℕ → Packet
sound_packet sound = on_channel 0 (0 ∷ to_client_code stop_sound ∷ put_uint32 sound)

-- The bit pattern of `float32(1)`.
abbrev pub float_one : ℕ
float_one = 0x3F800000

-- Day and night, eye offset.
abbrev pub view_packets : List Packet
view_packets = on_channel 0 (0 ∷ 0 ∷ 0 ∷ []) ∷ on_channel 0 (replicate 24 0) ∷ []

abbrev pub sky_head : Bytes
sky_head =
    0 ∷ to_client_code set_sky ∷ 0 ∷ 0 ∷ 0 ∷ 0 ∷ 0 ∷ 7 ∷ 114 ∷ 101 ∷ 103 ∷ 117 ∷ 108 ∷ 97 ∷ 114 ∷ []

abbrev pub sky_colours : Bytes
sky_colours =
    1 ∷ 255 ∷ 255 ∷ 255 ∷ 255 ∷ 255 ∷ 255 ∷ 255 ∷ 255 ∷ 0 ∷ 7 ∷ 100 ∷ 101 ∷ 102 ∷ 97 ∷ 117 ∷ 108
    ∷ 116 ∷ 255 ∷ 97 ∷ 181 ∷ 245 ∷ 255 ∷ 144 ∷ 211 ∷ 245 ∷ 255 ∷ 180 ∷ 186 ∷ 250 ∷ 255 ∷ 186 ∷ 193
    ∷ 240 ∷ 255 ∷ 0 ∷ 107 ∷ 255 ∷ 255 ∷ 64 ∷ 144 ∷ 255 ∷ 255 ∷ 100 ∷ 100 ∷ 100 ∷ []

unfoldable pub sky_packet : ℕ → Packet
sky_packet proto_ver =
    on_channel 0 (sky_head ++ (if proto_ver == 39 then sky_colours else 0 ∷ 0 ∷ []))

-- The packets with no command in front: the sun, the moon and the stars.
abbrev pub sun_packet : Packet
sun_packet = on_channel 0 (
    1
    ∷ 0
    ∷ 7
    ∷ 115
    ∷ 117
    ∷ 110
    ∷ 46
    ∷ 112
    ∷ 110
    ∷ 103
    ∷ 0
    ∷ 15
    ∷ 115
    ∷ 117
    ∷ 110
    ∷ 95
    ∷ 116
    ∷ 111
    ∷ 110
    ∷ 101
    ∷ 109
    ∷ 97
    ∷ 112
    ∷ 46
    ∷ 112
    ∷ 110
    ∷ 103
    ∷ 0
    ∷ 13
    ∷ 115
    ∷ 117
    ∷ 110
    ∷ 114
    ∷ 105
    ∷ 115
    ∷ 101
    ∷ 98
    ∷ 103
    ∷ 46
    ∷ 112
    ∷ 110
    ∷ 103
    ∷ put_uint32 float_one)

abbrev pub moon_packet : Packet
moon_packet = on_channel 0 (
    1
    ∷ 0
    ∷ 8
    ∷ 109
    ∷ 111
    ∷ 111
    ∷ 110
    ∷ 46
    ∷ 112
    ∷ 110
    ∷ 103
    ∷ 0
    ∷ 16
    ∷ 109
    ∷ 111
    ∷ 111
    ∷ 110
    ∷ 95
    ∷ 116
    ∷ 111
    ∷ 110
    ∷ 101
    ∷ 109
    ∷ 97
    ∷ 112
    ∷ 46
    ∷ 112
    ∷ 110
    ∷ 103
    ∷ put_uint32 float_one)

abbrev pub stars_packet : Packet
stars_packet = on_channel 0 (1 ∷ 0 ∷ 0 ∷ 3 ∷ 232 ∷ 105 ∷ 235 ∷ 235 ∷ 255 ∷ put_uint32 float_one)

-- After the parameters of the clouds are written, the stars' packet is sent a second time.
abbrev pub sky_packets : ℕ → List Packet
sky_packets proto_ver =
    sky_packet proto_ver ∷ sun_packet ∷ moon_packet ∷ stars_packet ∷ stars_packet ∷ []

unfoldable pub inventory_packet : Bytes → Packet
inventory_packet inv = on_channel 0 (0 ∷ to_client_code detached_inventory ∷ inv)

-- `detachedinvs[newsrv]`
unfoldable pub detached_of : Bytes → GoMap Bytes (List Bytes) → List Bytes
detached_of srv invs = elim (lookup srv invs) [ none ↦ [] | some l ↦ l ]

-- The packet that rejoins a mod channel on the new server.
unfoldable pub join_packet : Bytes → Bytes
join_packet ch = 0 ∷ to_server_code srv_mod_channel_join ∷ (put_uint16 (length ch % 2 ^ 16) ++ ch)
