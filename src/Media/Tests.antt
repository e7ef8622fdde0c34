-- ===== src/Media/Tests.antt =====
-- Media files at concrete inputs.
use multiserver.Shared.{
  ◌≡◌, ◌≤◌, refl, false, none, some, [], ◌∷◌, Bytes, bytes_eq, bytes_beq, codes, contains, lookup,
  insert, erase, GoMap, length, arith,
}
use multiserver.Shared.Run.{returns, panic}
use multiserver.Wire.{new_reader, write_uint16, write_uint32, write_bytes16, write_bytes32}
use multiserver.Config.{no_entries}
use multiserver.Media.{MediaFile, Files, send_media, media_packet, write_files}
use multiserver.Media.Fetch.{Fetched, close, request, fetch_packet, cache_name}
use multiserver.Media.Cache.{Stored, file, load_file, load_file-cache_name}
use multiserver.Media.Bunches.{Splits, fill_bunches_lem}
use multiserver.Media.Unknown.{encode_names, send_media_panics}
use multiserver.Media.Announce.{announce_packet, write_digests}
use multiserver.Media.Store.{Takes, fetch_packet-media_packet}
use multiserver.Media.Requests.{without_data, fetch_packet-announce_packet}

abbrev a : Bytes
a = codes "a"

abbrev b : Bytes
b = codes "b"

abbrev media_file : Bytes → MediaFile
media_file f = record { digest = 171 ∷ []; contents = f; no_cache = false }

abbrev known : Files
known = (a, media_file a) ∷ (b, media_file b) ∷ []

has_a : lookup a known ≡ some (media_file a)
unfolding lookup bytes_beq
has_a = refl

has_b : lookup b known ≡ some (media_file b)
unfolding lookup bytes_beq
has_b = refl

b_once : contains b (a ∷ []) ≡ false
unfolding contains bytes_beq
b_once = refl

none_left : contains a [] ≡ false
unfolding contains
none_left = refl

fill_bunches_lem_example : Splits known media_file (b ∷ a ∷ []) [] [] [] 0
fill_bunches_lem_example =
    fill_bunches_lem known media_file (b ∷ a ∷ []) (has_b, (has_a, tt)) (b_once, (none_left, tt))

unknown : lookup (codes "c") known ≡ none
unfolding lookup bytes_beq
unknown = refl

send_media_panics_example :
    send_media
      (λ files. files)
      (λ sent p. false)
      known
      (new_reader (0 ∷ 2 ∷ 0 ∷ 1 ∷ 97 ∷ 0 ∷ 1 ∷ 99 ∷ []))
    ≡ panic
send_media_panics_example =
    send_media_panics (λ files. files) (λ sent p. false) known (a ∷ []) (codes "c") [] []
      (new_reader (0 ∷ 2 ∷ 0 ∷ 1 ∷ 97 ∷ 0 ∷ 1 ∷ 99 ∷ [])) unknown (omega arith) (omega arith)
      (unfold encode_names in refl)

-- A proxy that knows no files, and one that waits for the data of "a".
abbrev idle : Fetched
idle = record { files = []; nodedefs = []; itemdefs = []; detachedinvs = [] }

abbrev waiting : Fetched
waiting = record idle { files = (a, media_file []) ∷ [] }

short_packet : length (media_packet 1 0 known) ≤ 100
unfolding media_packet write_files write_uint16 write_uint32 write_bytes16 write_bytes32
short_packet = omega arith

fetch_packet-media_packet_example :
    (files : Files) × (fetch_packet
        (λ fname. false)
        no_entries
        100
        []
        waiting
        (media_packet 1 0 known)
      ≡ returns (record waiting { files = files }, close))
    × Takes known waiting.files files
fetch_packet-media_packet_example =
    fetch_packet-media_packet (λ fname. false) no_entries 100 [] waiting 1 0 known (omega arith)
      (omega arith) (omega arith) (omega arith) short_packet

short_announcement : length (announce_packet known []) ≤ 100
unfolding announce_packet write_digests write_uint16 write_bytes16
short_announcement = omega arith

none_twice : lookup a ((b, media_file b) ∷ []) ≡ none
unfolding lookup bytes_beq
none_twice = refl

fetch_packet-announce_packet_example :
    fetch_packet (λ fname. false) no_entries 100 [] idle (announce_packet known [])
    ≡ returns (
      record idle { files = without_data known },
      request (0 ∷ 0x40 ∷ 0 ∷ 2 ∷ 0 ∷ 1 ∷ 97 ∷ 0 ∷ 1 ∷ 98 ∷ []),
    )
unfolding encode_names
fetch_packet-announce_packet_example =
    fetch_packet-announce_packet (λ fname. false) no_entries 100 [] [] idle known (λ fname. refl)
      refl (none_twice, (unfold lookup in refl, tt)) (omega arith) (omega arith) short_announcement

abbrev nothing : Files
nothing = []

abbrev empty_cache : GoMap Bytes Stored
empty_cache = []

load_file-cache_name_example :
    (load_file (cache_name a (171 ∷ [])) (file b) (empty_cache, nothing) ≡ (
      empty_cache,
      insert a (record { digest = 171 ∷ []; contents = b; no_cache = false }) nothing,
    ))
    × (load_file (cache_name (codes "a#b") (171 ∷ [])) (file b) (empty_cache, nothing)
        ≡ (erase (cache_name (codes "a#b") (171 ∷ [])) empty_cache, nothing))
load_file-cache_name_example =
    load_file-cache_name a b (171 ∷ []) b empty_cache nothing (omega arith) (omega arith)
      (omega arith)
