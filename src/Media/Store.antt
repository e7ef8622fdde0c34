-- ===== src/Media/Store.antt =====
-- The packets of `sendMedia`, as `fetchMedia` takes them.
use mathlib.Core.Path.{subst}
use multiserver.Shared.{
  ℕ, ◌+◌, ◌-◌, ◌%◌, ◌^◌, ◌≤◌, ◌<◌, ◌≡◌, refl, sym, ◌∙◌, Bool, [], ◌∷◌, ◌++◌, Bytes, bytes_eq,
  nat_eq, leb, lookup, lookup-insert, ==_refl, Option, none, some, Option-cases, Bool-cases, inl,
  inr, ap, bytes_beq_iff, ◌==◌, if◌then◌else◌, length, take, take_all, All, append_assoc,
  append-nil, arith,
}
use native.Mathlib.Nat.{mod-eq_of_lt}
use multiserver.Shared.Run.{returns}
use multiserver.Wire.{
  Reader, unread, put_uint16, put_uint32, byte_reader, read_uint16, read_uint32, read_bytes16,
  write_uint16, write_uint32, write_bytes16, write_bytes32,
}
use multiserver.Wire.Fields.{read_number16, read_number32, read_bytes16-front, read_bytes32-front}
use multiserver.Config.{Entries}
use multiserver.Media.{MediaFile, Files, write_files, media_packet}
use multiserver.Media.Fetch.{
  Fetched, Next, close, carry_on, store_file, media_loop, media_received, fetch_packet,
}

-- The bytes of a bunch's files.
unfoldable pub encode_files : Files → Bytes
encode_files [] = []
encode_files ((name, f) ∷ bunch) =
    put_uint16 (length name)
    ++ (name ++ (put_uint32 (length f.contents) ++ (f.contents ++ encode_files bunch)))

-- Names and data fit their length prefixes.
abbrev pub FitsFile : Bytes × MediaFile → Type 0
FitsFile (name, f) = (length name < 2 ^ 16) × (length f.contents < 2 ^ 32)

-- The data that a packet brings for a name: the first that are not empty.
unfoldable pub first_data : Bytes → Files → Bytes
first_data g [] = []
first_data g ((name, f) ∷ bunch) =
    let rest = first_data g bunch in
    if name == g then (if f.contents == [] then rest else f.contents) else rest

-- A file that is known and has no data gets them.
abbrev pub supply : Bytes → Option MediaFile → Option MediaFile
supply contents none = none
supply contents (some f) = some (if f.contents == [] then record f { contents = contents } else f)

-- The known names stay the same, and each file without data has those that the bunch brings.
abbrev pub Takes : Files → Files → Files → Type 0
Takes bunch old files = (g : Bytes) → lookup g files ≡ supply (first_data g bunch) (lookup g old)

-- The files behind the loop over a packet.
unfoldable pub store_all : Files → Files → Files
store_all [] files = files
store_all ((name, f) ∷ bunch) files = store_all bunch (store_file name f.contents files)

supply_nothing : (o : Option MediaFile) → supply [] o ≡ o
supply_nothing none = refl
supply_nothing (some f) = elim (Bool-cases (f.contents == [])) [
  | inl same ↦ rw same (
      ap (λ (x : Bytes). some (record f { contents = x }))
        (sym ((bytes_beq_iff f.contents []).0 same)))
  | inr other ↦ rw other refl
]

supply_twice :
    (c d : Bytes) (o : Option MediaFile)
    → supply d (supply c o) ≡ supply (if c == [] then d else c) o
supply_twice c d none = refl
supply_twice c d (some f) = elim (Bool-cases (f.contents == [])) [
  | inl same ↦ elim (Bool-cases (c == [])) [
    | inl empty ↦ rw (same, empty) refl
    | inr full ↦ rw (same, full) refl
  ]
  | inr other ↦ ground (arith, other)
]

store_file-own :
    (name contents : Bytes) (files : Files)
    → lookup name (store_file name contents files) ≡ supply contents (lookup name files)
unfolding store_file
store_file-own name contents files = elim (Option-cases (lookup name files)) [
  | inl missing ↦ rw (missing, store_file) missing
  | inr (f, found) ↦ elim (Bool-cases (f.contents == [])) [
    | inl empty ↦
        rw
          (
            found,
            store_file,
            empty,
            lookup-insert name name (record f { contents = contents }) files,
            ==_refl name,
          )
          refl
    | inr full ↦ rw (found, store_file, full) found
  ]
]

lookup-store_file :
    (g name contents : Bytes) (files : Files)
    → lookup g (store_file name contents files)
      ≡ (if name == g then supply contents (lookup g files) else lookup g files)
unfolding store_file
lookup-store_file g name contents files = elim (Bool-cases (name == g)) [
  | inl here ↦ rw here (
      subst
        (λ (n : Bytes).
          lookup n (store_file name contents files) ≡ supply contents (lookup n files))
        ((bytes_beq_iff name g).0 here) (store_file-own name contents files))
  | inr there ↦ elim (Option-cases (lookup name files)) [
    | inl missing ↦ rw (missing, store_file, there) refl
    | inr (f, found) ↦ elim (Bool-cases (f.contents == [])) [
      | inl empty ↦
          rw
            (
              found,
              store_file,
              empty,
              lookup-insert g name (record f { contents = contents }) files,
              there,
            )
            refl
      | inr full ↦ rw (found, store_file, full, there) refl
    ]
  ]
]

store_all-Takes : (bunch files : Files) → Takes bunch files (store_all bunch files)
unfolding store_all first_data
store_all-Takes [] files g = sym (supply_nothing (lookup g files))
store_all-Takes ((name, f) ∷ bunch) files g =
    let ih = store_all-Takes bunch (store_file name f.contents files) g in
    let step = lookup-store_file g name f.contents files in
    elim (Bool-cases (name == g)) [
      | inl here ↦
          ih ∙ rw (step, here) (supply_twice f.contents (first_data g bunch) (lookup g files))
      | inr there ↦ ih ∙ rw (step, there) refl
    ]

write_files-encode_files :
    (bunch : Files) (w : Bytes) → All FitsFile bunch → write_files bunch w ≡ w ++ encode_files bunch
unfolding write_files encode_files write_bytes16 write_bytes32 write_uint16 write_uint32
write_files-encode_files [] w h = sym (append-nil w)
write_files-encode_files ((name, f) ∷ bunch) w ((hn, hc), h) =
    write_files-encode_files bunch _ h ∙ simp (mod-eq_of_lt hn, mod-eq_of_lt hc, append_assoc)

media_loop-encode_files :
    (bunch files : Files) (r : Reader) (rest : Bytes)
    → All FitsFile bunch
    → unread r ≡ encode_files bunch ++ rest
    → media_loop (length bunch) r files ≡ store_all bunch files
unfolding media_loop encode_files store_all
media_loop-encode_files [] files r rest h e = refl
media_loop-encode_files ((name, f) ∷ bunch) files r rest ((hn, hc), h) e =
    let more = encode_files bunch ++ rest in
    let split : unread r
        ≡ put_uint16 (length name)
          ++ (name ++ (put_uint32 (length f.contents) ++ (f.contents ++ more))) =
      e ∙ simp append_assoc in
    let (name_eq, left) = read_bytes16-front r name _ hn split in
    let (data_eq, left') = read_bytes32-front (read_bytes16 r).1 f.contents more hc left in
    rw (media_loop, name_eq, data_eq)
      (media_loop-encode_files bunch (store_file name f.contents files) _ rest h left')

-- The state behind a packet with the files of a bunch, and whether the connection is closed.
abbrev pub after : Fetched → ℕ → ℕ → Files → Fetched × Next
after st count i bunch =
    (record st { files = store_all bunch st.files }, if leb count (i + 1) then close else carry_on)

media_received-encode_files :
    (st : Fetched) (count i : ℕ) (bunch : Files) (rest : Bytes) (r : Reader)
    → count < 2 ^ 16
    → i < count
    → length bunch < 2 ^ 32
    → All FitsFile bunch
    → unread r
      ≡ put_uint16 count
        ++ (put_uint16 i ++ (put_uint32 (length bunch) ++ (encode_files bunch ++ rest)))
    → media_received st r ≡ after st count i bunch
unfolding media_received
media_received-encode_files st count i bunch rest r hc hi few fits e =
    let (count_eq, left) = read_number16 r count _ hc e in
    let (id_eq, left') = read_number16 (read_uint16 r).1 i _ (omega arith) left in
    let (files_eq, left'') =
      read_number32 (read_uint16 (read_uint16 r).1).1 (length bunch) _ few left' in
    let loop =
      media_loop-encode_files bunch st.files (read_uint32 (read_uint16 (read_uint16 r).1).1).1 rest
        fits left'' in
    let last : (leb ((count + 2 ^ 16 - 1) % 2 ^ 16) i) ≡ leb count (i + 1) = ground arith in
    rw (count_eq, id_eq, files_eq, loop, last) refl

media_packet_lem :
    (count i : ℕ) (bunch : Files)
    → count < 2 ^ 16
    → i < 2 ^ 16
    → length bunch < 2 ^ 32
    → All FitsFile bunch
    → media_packet count i bunch
      ≡ put_uint16 0x38
        ++ (put_uint16 count
            ++ (put_uint16 i ++ (put_uint32 (length bunch) ++ (encode_files bunch ++ []))))
unfolding media_packet write_uint16 write_uint32
media_packet_lem count i bunch hc hi few fits =
    write_files-encode_files bunch _ fits
    ∙ simp (mod-eq_of_lt hc, mod-eq_of_lt hi, mod-eq_of_lt few, append-nil)

-- A packet of files that `sendMedia` writes, taken by `fetchMedia`: the names that are known stay the
-- same, each file that has no data gets the first data, if any, that the packet brings for its name, a file
-- that has data keeps them, and nothing else changes. The connection is closed exactly at the last bunch.
-- The conditions: counts and lengths fit their fields, and the packet fits the reader.
pub fetch_packet-media_packet :
    (exists : Bytes → Bool) (config : Entries) (max_size : ℕ) (addr : Bytes) (st : Fetched)
    (count i : ℕ) (bunch : Files)
    → count < 2 ^ 16
    → i < count
    → length bunch < 2 ^ 32
    → All FitsFile bunch
    → length (media_packet count i bunch) ≤ max_size
    → (files : Files) × (fetch_packet exists config max_size addr st (media_packet count i bunch)
        ≡ returns (record st { files = files }, if leb count (i + 1) then close else carry_on))
      × Takes bunch st.files files
unfolding fetch_packet byte_reader
fetch_packet-media_packet exists config max_size addr st count i bunch hc hi few fits small =
    let pkt = media_packet count i bunch in
    let whole : take max_size pkt ≡ pkt = take_all max_size pkt small in
    let body : Bytes =
      put_uint16 count
      ++ (put_uint16 i ++ (put_uint32 (length bunch) ++ (encode_files bunch ++ []))) in
    let r : Reader = byte_reader max_size pkt in
    let unread_eq : unread r ≡ put_uint16 0x38 ++ body =
      whole ∙ media_packet_lem count i bunch hc (omega arith) few fits in
    let (cmd_eq, left) = read_number16 r 0x38 body (omega arith) unread_eq in
    let received =
      media_received-encode_files st count i bunch [] (read_uint16 r).1 hc hi few fits left in
    (store_all bunch st.files, rw (cmd_eq, received) refl, store_all-Takes bunch st.files)
