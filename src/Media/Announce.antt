-- ===== src/Media/Announce.antt =====
-- media.go: `announceMedia`, what a client is told before it asks for files.
use multiserver.Shared.{
  ℕ, ◌%◌, ◌^◌, none, some, List, [], ◌∷◌, ◌++◌, map, Bytes, codes, bytes_eq, length, GoMap, lookup,
}
use multiserver.Shared.Run.{Run, returns, ◌>>=◌}
use multiserver.Wire.{put_uint32, write_uint16, write_bytes16}
use multiserver.Command.Codes.{
  to_client_code, node_def, item_def, detached_inventory, csm_restriction_flags, announce_media,
}
use multiserver.Config.{Value, Entries, conf_key, as_text, as_int}
use multiserver.Media.{Files}

-- The node definitions, or the item definitions, behind their command and length.
unfoldable pub definitions_packet : ℕ → Bytes → Bytes
definitions_packet cmd defs = 0 ∷ cmd ∷ (put_uint32 (length defs % 2 ^ 32) ++ defs)

-- `updateDetachedInvs(srvname)`
unfoldable pub detached_packets : Bytes → GoMap Bytes (List Bytes) → List Bytes
detached_packets srv invs = elim (lookup srv invs) [
  | none ↦ []
  | some l ↦ map (λ inv. 0 ∷ to_client_code detached_inventory ∷ inv) l
]

-- The restrictions for mods on the client: what is not an `int` in the configuration has a default.
abbrev pub int_or : ℕ → Value → ℕ
int_or n v = elim (as_int v) [ none ↦ n | some i ↦ i ]

unfoldable pub csm_packet : ℕ → ℕ → Bytes
csm_packet csmrf csmnr =
    0
    ∷ to_client_code csm_restriction_flags
    ∷ (put_uint32 0 ++ (put_uint32 (csmrf % 2 ^ 32) ++ put_uint32 (csmnr % 2 ^ 32)))

unfoldable pub write_digests : Files → Bytes → Bytes
write_digests [] w = w
write_digests ((name, f) ∷ files) w =
    write_digests files (write_bytes16 (write_bytes16 w name) f.digest)

-- The names and digests of all files, and the address of a server that has them.
unfoldable pub announce_packet : Files → Bytes → Bytes
unfolding write_digests
announce_packet files remote =
    write_bytes16
      (write_digests files
        (write_uint16 (0 ∷ to_client_code announce_media ∷ []) (length files % 2 ^ 16)))
      remote

abbrev pub text_or : Bytes → Value → Bytes
text_or t v = elim (as_text v) [ none ↦ t | some s ↦ s ]

-- `announceMedia()`: the packets, where each can be sent. Without a default server there are none.
unfoldable pub announce_media_packets :
    Entries → Bytes → Bytes → GoMap Bytes (List Bytes) → Files → Run (List Bytes)
unfolding definitions_packet detached_packets csm_packet announce_packet
announce_media_packets config nodedef itemdef invs files =
    conf_key config (codes "default_server") >>= λ v. elim (as_text v) [
      | none ↦ returns []
      | some srv ↦ conf_key config (codes "csm_restriction_flags") >>= λ flags.
          conf_key config (codes "csm_restriction_noderange") >>= λ noderange.
          conf_key config (codes "remote_media_server") >>= λ remote. returns (
            definitions_packet (to_client_code node_def) nodedef
            ∷ definitions_packet (to_client_code item_def) itemdef
            ∷ (detached_packets srv invs
                ++ csm_packet (int_or 0 flags) (int_or 8 noderange)
                  ∷ announce_packet files (text_or [] remote)
                  ∷ []))
    ]
