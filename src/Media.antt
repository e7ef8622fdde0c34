-- ===== src/Media.antt =====
-- media.go: the files that clients ask the proxy for, and those that the proxy fetches from a server.
pub mod Hex
pub mod Cache
pub mod Fetch
pub mod Bunches
pub mod Store
pub mod Unknown
pub mod Announce
pub mod Requests
mod Tests
use multiserver.Shared.{
  ℕ, zero, suc, ◌+◌, ◌-◌, ◌%◌, ◌^◌, Bool, true, false, Option, none, some, List, [], ◌∷◌, ◌++◌,
  Bytes, ◌==◌, bytes_eq, leb, if◌then◌else◌, length, GoMap, lookup, insert,
}
use multiserver.Shared.Run.{Run, returns, panic, ◌>>=◌}
use multiserver.Wire.{
  Reader, read_uint16, read_bytes16, write_uint16, write_uint32, write_bytes16, write_bytes32,
}
use multiserver.Command.Codes.{to_client_code, media}

-- `BytesPerBunch`
abbrev pub bytes_per_bunch : ℕ
bytes_per_bunch = 5000

-- `struct mediaFile`; `contents` is its field `data`.
pub record MediaFile : Type 0 where
  pub digest : Bytes
  pub contents : Bytes
  pub no_cache : Bool

-- The map `media`; a name that is missing has a nil pointer.
abbrev pub Files : Type 0
Files = GoMap Bytes MediaFile

-- The names that a client asks for.
unfoldable pub read_names : ℕ → Reader → List Bytes
read_names zero r = []
read_names (suc n) r = let (name, r') = read_bytes16 r in name ∷ read_names n r'

-- The loop that puts the files into bunches: those that are full, and the last with its length. A
-- file that does not exist is a nil pointer, whose data are asked for.
unfoldable pub fill_bunches : Files → List Bytes → List Files → Files → ℕ → Run (List Files)
fill_bunches known [] bunches last bunchlen = returns (bunches ++ last ∷ [])
fill_bunches known (f ∷ rq) bunches last bunchlen =
    let go_on = fill_bunches known rq in
    elim (lookup f known) [
      | none ↦ panic
      | some file ↦
          let bunch = insert f file last in
          let len = bunchlen + length file.contents in
          if leb bytes_per_bunch len
          then go_on (bunches ++ bunch ∷ []) [] 0
          else go_on bunches bunch len
    ]

-- The files of a bunch, as they are written.
unfoldable pub write_files : Files → Bytes → Bytes
write_files [] w = w
write_files ((name, file) ∷ bunch) w =
    write_files bunch (write_bytes32 (write_bytes16 w name) file.contents)

-- The packet of the bunch `i` of `count`.
unfoldable pub media_packet : ℕ → ℕ → Files → Bytes
unfolding write_files
media_packet count i bunch = write_files bunch (
    write_uint32
      (write_uint16 (write_uint16 (0 ∷ to_client_code media ∷ []) (count % 2 ^ 16)) (i % 2 ^ 16))
      (length bunch % 2 ^ 32))

-- `range` goes over a bunch in an order of its own: `ranged` puts the files of a bunch into it.
module _ (ranged : Files → Files) where
  -- The packets of the bunches from the bunch `i` on.
  unfoldable pub media_packets : ℕ → ℕ → List Files → List Bytes
  unfolding media_packet
  media_packets count i [] = []
  media_packets count i (bunch ∷ bunches) =
      media_packet count i (ranged bunch) ∷ media_packets count (i + 1) bunches

-- `fails sent p`: whether `Send` gives an error for `p` after the packets `sent`. It ends the loop.
unfoldable pub send_until : (List Bytes → Bytes → Bool) → List Bytes → List Bytes → List Bytes
send_until fails sent [] = sent
send_until fails sent (p ∷ ps) =
    let rest = send_until fails (sent ++ p ∷ []) ps in if fails sent p then sent else rest

-- `sendMedia(r)`: the packets for the client.
unfoldable pub send_media :
    (Files → Files) → (List Bytes → Bytes → Bool) → Files → Reader → Run (List Bytes)
unfolding read_names fill_bunches media_packets send_until
send_media ranged fails known r =
    let (count, r') = read_uint16 r in
    fill_bunches known (read_names count r') [] [] 0 >>= λ bunches.
    returns (send_until fails [] (media_packets ranged (length bunches) 0 bunches))
