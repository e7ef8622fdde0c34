-- ===== src/Media/Requests.antt =====
-- The announcement of `announceMedia`, as `fetchMedia` takes it.
use multiserver.Shared.{
  ℕ, suc, ◌%◌, ◌^◌, ◌≤◌, ◌<◌, ◌≡◌, refl, sym, ap, ◌∙◌, Bool, false, none, List, [], ◌∷◌, ◌++◌,
  Bytes, bytes_eq, nat_eq, ◌==◌, keys, length, take, take_all, lookup, NodupKeys, All, append_assoc,
  append-nil, arith,
}
use native.Mathlib.Nat.{mod-eq_of_lt}
use multiserver.Shared.Run.{returns}
use multiserver.Wire.{
  Reader, unread, put_uint16, byte_reader, read_uint16, read_bytes16, write_uint16, write_bytes16,
}
use multiserver.Wire.Fields.{read_number16, read_bytes16-front}
use multiserver.Config.{Entries}
use multiserver.Media.{MediaFile, Files}
use multiserver.Media.Fetch.{
  Fetched, request, is_cached, announce_loop, media_announced, write_names, request_packet,
  fetch_packet,
}
use multiserver.Media.Bunches.{insert_fresh, lookup-append}
use multiserver.Media.Unknown.{encode_names}
use multiserver.Media.Announce.{write_digests, announce_packet}

-- The names and digests as they are announced.
unfoldable pub encode_digests : Files → Bytes
encode_digests [] = []
encode_digests ((name, f) ∷ files) =
    put_uint16 (length name)
    ++ (name ++ (put_uint16 (length f.digest) ++ (f.digest ++ encode_digests files)))

abbrev pub FitsEntry : Bytes × MediaFile → Type 0
FitsEntry (name, f) = (length name < 2 ^ 16) × (length f.digest < 2 ^ 16)

-- The files as the announcement leaves them: no data yet.
unfoldable pub without_data : Files → Files
without_data [] = []
without_data ((name, f) ∷ files) =
    (name, record { digest = f.digest; contents = []; no_cache = false }) ∷ without_data files

write_digests-encode_digests :
    (files : Files) (w : Bytes)
    → All FitsEntry files
    → write_digests files w ≡ w ++ encode_digests files
unfolding write_digests encode_digests write_bytes16 write_uint16
write_digests-encode_digests [] w h = sym (append-nil w)
write_digests-encode_digests ((name, f) ∷ files) w ((hn, hd), h) =
    write_digests-encode_digests files _ h ∙ simp (mod-eq_of_lt hn, mod-eq_of_lt hd, append_assoc)

-- None of the names is known yet, and none appears twice.
unfoldable pub AllNew : Files → Files → Type 0
AllNew known [] = Unit
AllNew known ((name, f) ∷ files) =
    (lookup name known ≡ none)
    × AllNew (known ++ (name, record { digest = f.digest; contents = []; no_cache = false }) ∷ [])
        files

announce_loop-encode_digests :
    (exists : Bytes → Bool) (files known : Files) (rq : List Bytes) (r : Reader) (rest : Bytes)
    → ((fname : Bytes) → exists fname ≡ false)
    → All FitsEntry files
    → AllNew known files
    → unread r ≡ encode_digests files ++ rest
    → announce_loop exists (length files) r rq known
      ≡ (rq ++ keys files, known ++ without_data files)
unfolding announce_loop encode_digests without_data AllNew is_cached
announce_loop-encode_digests exists [] known rq r rest uncached h new e =
    cc (append-nil rq, append-nil known)
announce_loop-encode_digests exists ((name, f) ∷ files) known rq r rest uncached ((hn, hd), h)
      (fresh, new) e =
    let more = encode_digests files ++ rest in
    let split : unread r
        ≡ put_uint16 (length name)
          ++ (name ++ (put_uint16 (length f.digest) ++ (f.digest ++ more))) =
      e ∙ simp append_assoc in
    let (name_eq, left) = read_bytes16-front r name _ hn split in
    let (digest_eq, left') = read_bytes16-front (read_bytes16 r).1 f.digest more hd left in
    let r2 = (read_bytes16 (read_bytes16 r).1).1 in
    let file : MediaFile = record { digest = f.digest; contents = []; no_cache = false } in
    let rest_eq =
      announce_loop-encode_digests exists files (known ++ (name, file) ∷ []) (rq ++ name ∷ []) r2
        rest uncached h new left' in
    let uncached_eq : is_cached exists name f.digest ≡ false = uncached _ in
    rw (announce_loop, name_eq, digest_eq, fresh, uncached_eq, insert_fresh name file known fresh)
      (rest_eq ∙ simp append_assoc)

still_fresh :
    (name : Bytes) (file : MediaFile) (known files : Files)
    → lookup name files ≡ none
    → All (λ e. lookup e.0 known ≡ none) files
    → All (λ e. lookup e.0 (known ++ (name, file) ∷ []) ≡ none) files
unfolding lookup
still_fresh name file known [] out h = tt
still_fresh name file known ((g, e) ∷ files) out (hg, h) =
    let apart : (name == g) ≡ false =
      ground (arith, out, bytes_eq.same_iff name g, bytes_eq.same_iff g name) in
    let rest : lookup name files ≡ none = ground (arith, out) in
    (lookup-append g name file known hg apart, still_fresh name file known files rest h)

nodup-AllNew :
    (known files : Files)
    → All (λ e. lookup e.0 known ≡ none) files
    → NodupKeys files
    → AllNew known files
unfolding AllNew
nodup-AllNew known [] h nodup = tt
nodup-AllNew known ((name, f) ∷ files) (fresh, h) (out, nodup) =
    (fresh, nodup-AllNew _ files (still_fresh name _ known files out h) nodup)

abbrev nothing : Files
nothing = []

no_file_yet : (files : Files) → All (λ e. lookup e.0 nothing ≡ none) files
unfolding lookup
no_file_yet [] = tt
no_file_yet (e ∷ files) = (refl, no_file_yet files)

write_names-encode_names :
    (names : List Bytes) (w : Bytes)
    → All (λ name. length name < 2 ^ 16) names
    → write_names names w ≡ w ++ encode_names names
unfolding write_names encode_names write_bytes16 write_uint16
write_names-encode_names [] w h = sym (append-nil w)
write_names-encode_names (name ∷ names) w (hn, h) =
    write_names-encode_names names _ h ∙ simp (mod-eq_of_lt hn, append_assoc)

keys_fit : (files : Files) → All FitsEntry files → All (λ name. length name < 2 ^ 16) (keys files)
keys_fit [] h = tt
keys_fit ((name, f) ∷ files) ((hn, _), h) = (hn, keys_fit files h)

length-keys : (files : Files) → length (keys files) ≡ length files
length-keys [] = refl
length-keys ((name, f) ∷ files) = ap suc (length-keys files)

request_packet_lem :
    (files : Files)
    → length files < 2 ^ 16
    → All FitsEntry files
    → request_packet (keys files)
      ≡ put_uint16 0x40 ++ (put_uint16 (length files) ++ encode_names (keys files))
unfolding request_packet write_uint16
request_packet_lem files few fits =
    write_names-encode_names (keys files) _ (keys_fit files fits)
    ∙ simp (length-keys files, mod-eq_of_lt few, append_assoc)

-- The announcement of `announceMedia`, taken by `fetchMedia` when it knows no files yet and the cache has
-- none, leads to the packet 0x40 with the count and the names of exactly the announced files, in their
-- order, and each is then known with its digest and no data. The conditions: names are not announced
-- twice, counts and lengths fit their fields, and the packet fits the reader.
pub fetch_packet-announce_packet :
    (exists : Bytes → Bool) (config : Entries) (max_size : ℕ) (addr remote : Bytes) (st : Fetched)
    (files : Files)
    → ((fname : Bytes) → exists fname ≡ false)
    → st.files ≡ []
    → NodupKeys files
    → length files < 2 ^ 16
    → All FitsEntry files
    → length (announce_packet files remote) ≤ max_size
    → fetch_packet exists config max_size addr st (announce_packet files remote)
      ≡ returns (
        record st { files = without_data files },
        request (put_uint16 0x40 ++ (put_uint16 (length files) ++ encode_names (keys files))),
      )
unfolding fetch_packet byte_reader media_announced announce_packet write_uint16 write_bytes16
fetch_packet-announce_packet exists config max_size addr remote st files uncached none_yet nodup few
      fits small =
    let pkt = announce_packet files remote in
    let n = length files in
    let tail : Bytes = put_uint16 (length remote % 2 ^ 16) ++ remote in
    let whole : take max_size pkt ≡ pkt = take_all max_size pkt small in
    let r : Reader = byte_reader max_size pkt in
    let e : unread r ≡ put_uint16 0x3C ++ (put_uint16 n ++ (encode_digests files ++ tail)) =
      whole
      ∙ ap (λ t. (t ++ put_uint16 (length remote % 2 ^ 16)) ++ remote)
          (write_digests-encode_digests files _ fits)
      ∙ simp (mod-eq_of_lt few, append_assoc) in
    let (cmd_eq, left) =
      read_number16 r 0x3C (put_uint16 n ++ (encode_digests files ++ tail)) (omega arith) e in
    let (count_eq, left') =
      read_number16 (read_uint16 r).1 n (encode_digests files ++ tail) few left in
    let loop =
      announce_loop-encode_digests exists files [] [] (read_uint16 (read_uint16 r).1).1 tail
        uncached fits (nodup-AllNew [] files (no_file_yet files) nodup) left' in
    rw (cmd_eq, count_eq, none_yet, loop)
      (ap (λ q. returns (record st { files = without_data files }, request q))
        (request_packet_lem files few fits))
