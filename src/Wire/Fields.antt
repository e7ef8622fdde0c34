-- ===== src/Wire/Fields.antt =====
-- Packets as sequences of fields: what the `Write…` functions put down and the `Read…` functions
-- take up, over a whole packet.
use multiserver.Shared.{
  ℕ, ◌^◌, ◌<◌, ◌≡◌, refl, sym, ap, ◌∙◌, List, [], ◌∷◌, ◌++◌, map, Bytes, arith, All, length, drop,
  append_assoc, append-nil, drop_front,
}
use native.Mathlib.Nat.{mod-eq_of_lt}
use multiserver.Wire.{
  Reader, unread, reader_len, fill, read, be_value, read_uint8, read_uint16, read_uint32,
  read_uint64, read_bytes16, read_bytes32, write_uint8, write_uint16, write_uint32, write_uint64,
  write_bytes16, write_bytes32, put_uint16, put_uint32, put_uint64,
}
use multiserver.Wire.Reads.{
  fill-append, reader_len-unread, unread-read, read_uint8_lem, read_uint16_lem, read_uint32_lem,
  read_uint64_lem, unread-read_uint8, unread-read_uint16, unread-read_uint32, unread-read_uint64,
}

pub data Field : Type 0 where
  uint8 uint16 uint32 uint64 : ℕ → Field
  bytes16 bytes32 : Bytes → Field

pub data Kind : Type 0 where
  kind8 kind16 kind32 kind64 kind_bytes16 kind_bytes32 : Kind

abbrev pub kind_of : Field → Kind
kind_of (uint8 v) = kind8
kind_of (uint16 v) = kind16
kind_of (uint32 v) = kind32
kind_of (uint64 v) = kind64
kind_of (bytes16 b) = kind_bytes16
kind_of (bytes32 b) = kind_bytes32

-- What fits its width: a number below the bound, a byte string whose length does not wrap.
abbrev pub Fits : Field → Type 0
Fits (uint8 v) = v < 2 ^ 8
Fits (uint16 v) = v < 2 ^ 16
Fits (uint32 v) = v < 2 ^ 32
Fits (uint64 v) = v < 2 ^ 64
Fits (bytes16 b) = length b < 2 ^ 16
Fits (bytes32 b) = length b < 2 ^ 32

unfoldable pub write_field : Bytes → Field → Bytes
write_field w (uint8 v) = write_uint8 w v
write_field w (uint16 v) = write_uint16 w v
write_field w (uint32 v) = write_uint32 w v
write_field w (uint64 v) = write_uint64 w v
write_field w (bytes16 b) = write_bytes16 w b
write_field w (bytes32 b) = write_bytes32 w b

unfoldable pub write_fields : Bytes → List Field → Bytes
unfolding write_field
write_fields w [] = w
write_fields w (f ∷ fs) = write_fields (write_field w f) fs

unfoldable pub read_field : Kind → Reader → Field × Reader
read_field kind8 r = let (v, r') = read_uint8 r in (uint8 v, r')
read_field kind16 r = let (v, r') = read_uint16 r in (uint16 v, r')
read_field kind32 r = let (v, r') = read_uint32 r in (uint32 v, r')
read_field kind64 r = let (v, r') = read_uint64 r in (uint64 v, r')
read_field kind_bytes16 r = let (b, r') = read_bytes16 r in (bytes16 b, r')
read_field kind_bytes32 r = let (b, r') = read_bytes32 r in (bytes32 b, r')

unfoldable pub read_fields : List Kind → Reader → List Field × Reader
unfolding read_field
read_fields [] r = ([], r)
read_fields (k ∷ ks) r =
    let (f, r') = read_field k r in let (fs, r'') = read_fields ks r' in (f ∷ fs, r'')

-- A field that is written behind `w` is `w` and the bytes of the field.
write_field-append : (w : Bytes) (f : Field) → write_field w f ≡ w ++ write_field [] f
unfolding write_field write_uint8 write_uint16 write_uint32 write_uint64 write_bytes16 write_bytes32
write_field-append w (uint8 v) = refl
write_field-append w (uint16 v) = refl
write_field-append w (uint32 v) = refl
write_field-append w (uint64 v) = refl
write_field-append w (bytes16 b) = append_assoc w _ b
write_field-append w (bytes32 b) = append_assoc w _ b

write_fields-append : (w : Bytes) (fs : List Field) → write_fields w fs ≡ w ++ write_fields [] fs
unfolding write_fields
write_fields-append w [] = sym (append-nil w)
write_fields-append w (f ∷ fs) =
    write_fields-append (write_field w f) fs
    ∙ ap (λ t. t ++ write_fields [] fs) (write_field-append w f)
    ∙ append_assoc w _ _
    ∙ ap (λ t. w ++ t) (sym (write_fields-append (write_field [] f) fs))

-- One field is read back, and the reader stands behind it.
pub read-front :
    (r : Reader) (xs rest : Bytes)
    → unread r ≡ xs ++ rest
    → ((read (length xs) r).0 ≡ xs) × (unread (read (length xs) r).1 ≡ rest)
unfolding read
read-front r xs rest e = (
  ap (fill (length xs)) e ∙ fill-append xs rest,
  unread-read (length xs) r ∙ ap (drop (length xs)) e ∙ drop_front xs rest,
)

-- A read of all that is left.
pub read_rest : (r : Reader) (xs : Bytes) → unread r ≡ xs → (read (reader_len r) r).0 ≡ xs
read_rest r xs e =
    let n : reader_len r ≡ length xs = reader_len-unread r ∙ ap length e in
    ap (λ k. (read k r).0) n ∙ (read-front r xs [] (e ∙ sym (append-nil xs))).0

pub read_number16 :
    (r : Reader) (v : ℕ) (rest : Bytes)
    → v < 2 ^ 16
    → unread r ≡ put_uint16 v ++ rest
    → ((read_uint16 r).0 ≡ v) × (unread (read_uint16 r).1 ≡ rest)
unfolding fill
read_number16 r v rest h e = (
  read_uint16_lem r ∙ ap (λ t. be_value 0 (fill 2 t)) e ∙ omega arith,
  unread-read_uint16 r ∙ ap (drop 2) e,
)

pub read_number32 :
    (r : Reader) (v : ℕ) (rest : Bytes)
    → v < 2 ^ 32
    → unread r ≡ put_uint32 v ++ rest
    → ((read_uint32 r).0 ≡ v) × (unread (read_uint32 r).1 ≡ rest)
unfolding fill
read_number32 r v rest h e = (
  read_uint32_lem r ∙ ap (λ t. be_value 0 (fill 4 t)) e ∙ omega arith,
  unread-read_uint32 r ∙ ap (drop 4) e,
)

pub read_number8 :
    (r : Reader) (v : ℕ) (rest : Bytes)
    → unread r ≡ v ∷ rest
    → ((read_uint8 r).0 ≡ v) × (unread (read_uint8 r).1 ≡ rest)
unfolding fill
read_number8 r v rest e = (
  read_uint8_lem r ∙ ap (λ t. be_value 0 (fill 1 t)) e ∙ omega arith,
  unread-read_uint8 r ∙ ap (drop 1) e,
)

read_number64 :
    (r : Reader) (v : ℕ) (rest : Bytes)
    → v < 2 ^ 64
    → unread r ≡ put_uint64 v ++ rest
    → ((read_uint64 r).0 ≡ v) × (unread (read_uint64 r).1 ≡ rest)
unfolding fill
read_number64 r v rest h e = (
  read_uint64_lem r ∙ ap (λ t. be_value 0 (fill 8 t)) e ∙ omega arith,
  unread-read_uint64 r ∙ ap (drop 8) e,
)

-- `WriteBytes16` puts down the length modulo 2 ^ 16, and `ReadBytes16` takes that many bytes.
pub read_bytes16-front :
    (r : Reader) (b rest : Bytes)
    → length b < 2 ^ 16
    → unread r ≡ put_uint16 (length b) ++ (b ++ rest)
    → ((read_bytes16 r).0 ≡ b) × (unread (read_bytes16 r).1 ≡ rest)
unfolding read_bytes16
read_bytes16-front r b rest h e =
    let (len_eq, left) = read_number16 r (length b) (b ++ rest) h e in
    rw len_eq (read-front (read_uint16 r).1 b rest left)

pub read_bytes32-front :
    (r : Reader) (b rest : Bytes)
    → length b < 2 ^ 32
    → unread r ≡ put_uint32 (length b) ++ (b ++ rest)
    → ((read_bytes32 r).0 ≡ b) × (unread (read_bytes32 r).1 ≡ rest)
unfolding read_bytes32
read_bytes32-front r b rest h e =
    let (len_eq, left) = read_number32 r (length b) (b ++ rest) h e in
    rw len_eq (read-front (read_uint32 r).1 b rest left)

read_field-write_field :
    (f : Field) (r : Reader) (rest : Bytes)
    → Fits f
    → unread r ≡ write_field [] f ++ rest
    → ((read_field (kind_of f) r).0 ≡ f) × (unread (read_field (kind_of f) r).1 ≡ rest)
unfolding read_field write_field write_uint8 write_uint16 write_uint32 write_uint64 write_bytes16
    write_bytes32
read_field-write_field (uint8 v) r rest h e =
    let (v_eq, left) = read_number8 r v rest e in (ap uint8 v_eq, left)
read_field-write_field (uint16 v) r rest h e =
    let (v_eq, left) = read_number16 r v rest h e in (ap uint16 v_eq, left)
read_field-write_field (uint32 v) r rest h e =
    let (v_eq, left) = read_number32 r v rest h e in (ap uint32 v_eq, left)
read_field-write_field (uint64 v) r rest h e =
    let (v_eq, left) = read_number64 r v rest h e in (ap uint64 v_eq, left)
read_field-write_field (bytes16 b) r rest h e =
    let (b_eq, left) =
      read_bytes16-front r b rest h
        (e ∙ ap (λ (k : ℕ). (put_uint16 k ++ b) ++ rest) (mod-eq_of_lt h)) in
    (ap bytes16 b_eq, left)
read_field-write_field (bytes32 b) r rest h e =
    let (b_eq, left) =
      read_bytes32-front r b rest h
        (e ∙ ap (λ (k : ℕ). (put_uint32 k ++ b) ++ rest) (mod-eq_of_lt h)) in
    (ap bytes32 b_eq, left)

-- Whatever fields the `Write…` functions put down one after another, each fitting its width, the
-- corresponding `Read…` functions take up in the same order, and the reader then stands at the bytes
-- that follow.
pub read_fields-write_fields :
    (fs : List Field) (r : Reader) (rest : Bytes)
    → All Fits fs
    → unread r ≡ write_fields [] fs ++ rest
    → ((read_fields (map kind_of fs) r).0 ≡ fs) × (unread (read_fields (map kind_of fs) r).1 ≡ rest)
unfolding read_fields write_fields
read_fields-write_fields [] r rest h e = (refl, e)
read_fields-write_fields (f ∷ fs) r rest (hf, h) e =
    let split : unread r ≡ write_field [] f ++ (write_fields [] fs ++ rest) =
      e ∙ ap (λ t. t ++ rest) (write_fields-append (write_field [] f) fs) ∙ append_assoc _ _ rest in
    let (f_eq, left) = read_field-write_field f r _ hf split in
    let (fs_eq, behind) = read_fields-write_fields fs _ rest h left in (cc (f_eq, fs_eq), behind)
