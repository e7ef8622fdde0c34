-- ===== src/Media/Fetch.antt =====
-- media.go: what the proxy takes from a server that it fetches definitions and media from.
use multiserver.Shared.{
  ℕ, zero, suc, ◌+◌, ◌-◌, ◌%◌, ◌^◌, Bool, true, false, not, ◌&&◌, none, some, List, [], ◌∷◌, ◌++◌,
  Bytes, ◌==◌, nat_eq, bytes_eq, leb, if◌then◌else◌, length, GoMap, lookup, insert,
}
use multiserver.Shared.Run.{Run, returns, ◌>>=◌}
use multiserver.Wire.{
  Reader, reader_len, seek_start, read, byte_reader, read_uint16, read_uint32, read_bytes16,
  read_bytes32, write_uint16, write_bytes16,
}
use multiserver.Command.Codes.{
  to_client_code, to_server_code, node_def, item_def, detached_inventory, announce_media, media,
  srv_request_media,
}
use multiserver.Config.{Entries, server_name}
use multiserver.Media.{Files}
use multiserver.Media.Hex.{digest_to_string}

-- The maps of the file, `media`, `nodedefs`, `itemdefs` and `detachedinvs`.
pub record Fetched : Type 0 where
  pub files : Files
  pub nodedefs : GoMap Bytes Bytes
  pub itemdefs : GoMap Bytes Bytes
  pub detachedinvs : GoMap Bytes (List Bytes)

-- What a packet leads to: a request to the server, its connection closed, or neither.
pub data Next : Type 0 where
  request : Bytes → Next
  close carry_on : Next

-- `"cache/" + name + "#" + digestToString(digest)`, below the directory.
unfoldable pub cache_name : Bytes → Bytes → Bytes
cache_name name digest = name ++ b'#' ∷ digest_to_string digest

-- `exists` is what `os.Stat` says of a name in the cache: no error, or another than that it is missing.
module _ (exists : Bytes → Bool) where
  -- `isCached(name, digest)`
  unfoldable pub is_cached : Bytes → Bytes → Bool
  unfolding cache_name
  is_cached name digest = exists (cache_name name digest)

  -- The loop over the announced files: `rq`, and `media` with the new files, which have no data yet.
  unfoldable pub announce_loop : ℕ → Reader → List Bytes → Files → List Bytes × Files
  unfolding is_cached
  announce_loop zero r rq files = (rq, files)
  announce_loop (suc n) r rq files =
      let (name, r1) = read_bytes16 r in
      let (digest, r2) = read_bytes16 r1 in
      let known : Bool = elim (lookup name files) [ none ↦ false | some f ↦ true ] in
      if not known && not (is_cached name digest)
      then announce_loop n r2 (rq ++ name ∷ [])
          (insert name (record { digest = digest; contents = []; no_cache = false }) files)
      else announce_loop n r2 rq files

unfoldable pub write_names : List Bytes → Bytes → Bytes
write_names [] w = w
write_names (name ∷ rq) w = write_names rq (write_bytes16 w name)

-- The request for the media.
unfoldable pub request_packet : List Bytes → Bytes
unfolding write_names
request_packet rq =
    write_names rq (write_uint16 (0 ∷ to_server_code srv_request_media ∷ []) (length rq % 2 ^ 16))

-- `if media[name] != nil && len(media[name].data) == 0 { media[name].data = data }`
unfoldable pub store_file : Bytes → Bytes → Files → Files
store_file name contents files = elim (lookup name files) [
  | none ↦ files
  | some f ↦
      if f.contents == [] then insert name (record f { contents = contents }) files else files
]

-- The loop over the files of a packet.
unfoldable pub media_loop : ℕ → Reader → Files → Files
unfolding store_file
media_loop zero r files = files
media_loop (suc n) r files =
    let (name, r1) = read_bytes16 r in
    let (contents, r2) = read_bytes32 r1 in media_loop n r2 (store_file name contents files)

-- `make([]byte, r.Len())` filled from the reader.
abbrev pub rest_of : Reader → Bytes
rest_of r = (read (reader_len r) r).0

-- `detachedinvs[srvname] = append(detachedinvs[srvname], inv)`
unfoldable pub add_inventory : Bytes → Bytes → GoMap Bytes (List Bytes) → GoMap Bytes (List Bytes)
add_inventory srv inv invs = elim (lookup srv invs) [
  | none ↦ insert srv (inv ∷ []) invs
  | some l ↦ insert srv (l ++ inv ∷ []) invs
]

-- A packet with files: `bunchID >= bunchCount-1` on `uint16`s.
unfoldable pub media_received : Fetched → Reader → Fetched × Next
unfolding media_loop
media_received st r =
    let (bunch_count, r1) = read_uint16 r in
    let (bunch_id, r2) = read_uint16 r1 in
    let (file_count, r3) = read_uint32 r2 in
    let st' : Fetched = record st { files = media_loop file_count r3 st.files } in
    (st', if leb ((bunch_count + 2 ^ 16 - 1) % 2 ^ 16) bunch_id then close else carry_on)

module _ (exists : Bytes → Bool) (config : Entries) where
  unfoldable pub media_announced : Fetched → Reader → Fetched × Next
  unfolding announce_loop request_packet
  media_announced st r =
      let (count, r1) = read_uint16 r in
      let (rq, files) = announce_loop exists count r1 [] st.files in
      (record st { files = files }, request (request_packet rq))

  -- One round of the loop of `fetchMedia`, for a server at the address `addr`. A reader holds at most
  -- `max_size` bytes.
  unfoldable pub fetch_packet : ℕ → Bytes → Fetched → Bytes → Run (Fetched × Next)
  unfolding media_announced media_received add_inventory
  fetch_packet max_size addr st pkt =
      let (cmd, r) = read_uint16 (byte_reader max_size pkt) in
      if cmd == to_client_code node_def
      then (server_name config (some addr) >>= λ srv.
          returns
            (record st { nodedefs = insert srv (rest_of (seek_start 6 r)) st.nodedefs }, carry_on))
      else if cmd == to_client_code item_def
      then (server_name config (some addr) >>= λ srv.
          returns
            (record st { itemdefs = insert srv (rest_of (seek_start 6 r)) st.itemdefs }, carry_on))
      else if cmd == to_client_code detached_inventory
      then (server_name config (some addr) >>= λ srv.
          returns
            (record st { detachedinvs = add_inventory srv (rest_of r) st.detachedinvs }, carry_on))
      else if cmd == to_client_code announce_media
      then returns (media_announced st r)
      else if cmd == to_client_code media
      then returns (media_received st r)
      else returns (st, carry_on)
