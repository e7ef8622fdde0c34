-- ===== src/Media/Cache.antt =====
-- media.go: the files of the cache directory.
use multiserver.Shared.{
  ◌≡◌, refl, ap, ◌∙◌, Bool, false, none, some, [], ◌∷◌, ◌++◌, Bytes, bytes_eq, if◌then◌else◌, GoMap,
  lookup, insert, erase, All, append_assoc,
}
use multiserver.Text.{split, join}
use multiserver.Text.Laws.{Lacks, split-join}
use multiserver.Wire.Reads.{IsByte}
use multiserver.Media.{Files}
use multiserver.Media.Hex.{
  digest_to_string, string_to_digest, string_to_digest-digest_to_string, digest_to_string-Lacks,
}
use multiserver.Media.Fetch.{cache_name}

-- What stands under a name in the directory.
pub data Stored : Type 0 where
  directory unreadable : Stored
  file : Bytes → Stored

-- A file that is not named by a media name and a digest is removed; one that is goes into `media`, if
-- it can be read.
unfoldable pub load_file : Bytes → Stored → GoMap Bytes Stored × Files → GoMap Bytes Stored × Files
load_file fname directory (cache, files) = (cache, files)
load_file fname stored (cache, files) = elim (split b'#' fname) [
  | m ∷ d ∷ [] ↦ elim stored [
    | file contents ↦ (
      cache,
      insert m (record { digest = string_to_digest d; contents = contents; no_cache = false })
          files,
    )
    | _ ↦ (cache, files)
  ]
  | _ ↦ (erase fname cache, files)
]

unfoldable pub load_loop :
    GoMap Bytes Stored → GoMap Bytes Stored × Files → GoMap Bytes Stored × Files
unfolding load_file
load_loop [] st = st
load_loop ((fname, stored) ∷ listed) st = load_loop listed (load_file fname stored st)

-- `loadMediaCache()`, where the directory can be listed and removals succeed.
unfoldable pub load_media_cache : GoMap Bytes Stored → Files → GoMap Bytes Stored × Files
unfolding load_loop
load_media_cache cache files = load_loop cache (cache, files)

-- `updateMediaCache()`: `writable` says whether a file of the name can be written.
unfoldable pub update_media_cache : (Bytes → Bool) → Files → GoMap Bytes Stored → GoMap Bytes Stored
unfolding cache_name
update_media_cache writable [] cache = cache
update_media_cache writable ((name, f) ∷ files) cache =
    let fname = cache_name name f.digest in
    let written = if writable fname then insert fname (file f.contents) cache else cache in
    let stat = lookup fname cache in
    let next : GoMap Bytes Stored =
      if f.no_cache then cache else elim stat [ none ↦ written | some s ↦ cache ] in
    update_media_cache writable files next

-- A media file that the cache has under its own name and digest is loaded with that name, that digest
-- and its data, and the cache stays as it is, if the name holds no '#' and the digest is of bytes. If
-- the name is of two parts around a '#', the file is removed from the cache and not loaded.
pub load_file-cache_name :
    (name rest digest contents : Bytes) (cache : GoMap Bytes Stored) (files : Files)
    → Lacks b'#' name
    → Lacks b'#' rest
    → All IsByte digest
    → (load_file (cache_name name digest) (file contents) (cache, files) ≡ (
      cache,
      insert name (record { digest = digest; contents = contents; no_cache = false }) files,
    ))
      × (load_file (cache_name (name ++ b'#' ∷ rest) digest) (file contents) (cache, files)
          ≡ (erase (cache_name (name ++ b'#' ∷ rest) digest) cache, files))
unfolding load_file cache_name join
load_file-cache_name name rest digest contents cache files hn hr hd =
    let d = digest_to_string digest in
    let hd' = digest_to_string-Lacks digest hd in
    let two : split b'#' (name ++ b'#' ∷ d) ≡ name ∷ d ∷ [] =
      split-join b'#' name (d ∷ []) (hn, (hd', tt)) in
    let three : split b'#' ((name ++ b'#' ∷ rest) ++ b'#' ∷ d) ≡ name ∷ rest ∷ d ∷ [] =
      ap (split b'#') (append_assoc name (b'#' ∷ rest) (b'#' ∷ d))
      ∙ split-join b'#' name (rest ∷ d ∷ []) (hn, (hr, (hd', tt))) in
    (
      rw (load_file, two, string_to_digest-digest_to_string digest hd) refl,
      rw (load_file, three) refl,
    )
