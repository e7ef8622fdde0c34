-- ===== src/Wire/Lengths.antt =====
-- Byte strings whose length does not fit the prefix, and reads past the end of a packet.
use multiserver.Shared.{
  ℕ, ◌+◌, ◌-◌, ◌%◌, ◌^◌, ◌<◌, ◌≡◌, ap, ◌∙◌, [], ◌∷◌, ◌++◌, Bytes, arith, All, length, take, drop,
  length-append, length-drop,
}
use multiserver.Wire.{
  Reader, unread, reader_len, fill, read, be_value, read_uint16, read_bytes16, write_uint16,
  write_bytes16,
}
use multiserver.Wire.Reads.{IsByte, fill-take, length-fill, unread-read, reader_len-unread}
use multiserver.Wire.Fields.{read_number16}

-- A byte string of any length: the prefix holds its length modulo 2 ^ 16, so the read returns that
-- many of its bytes, and leaves the others in front of what follows.
read_bytes16-write_bytes16 :
    (b rest : Bytes) (r : Reader)
    → unread r ≡ write_bytes16 [] b ++ rest
    → ((read_bytes16 r).0 ≡ take (length b % 2 ^ 16) (b ++ rest))
      × (unread (read_bytes16 r).1 ≡ drop (length b % 2 ^ 16) (b ++ rest))
unfolding read_bytes16 write_bytes16 write_uint16 read
read_bytes16-write_bytes16 b rest r e =
    let n = length b % 2 ^ 16 in
    let (n_eq, left) = read_number16 r n (b ++ rest) (omega arith) e in
    rw n_eq (
      ap (fill n) left ∙ fill-take n (b ++ rest) (rw length-append (omega arith)),
      unread-read n (read_uint16 r).1 ∙ ap (drop n) left,
    )

value16-lt : (xs : Bytes) → All IsByte xs → be_value 0 (fill 2 xs) < 2 ^ 16
unfolding fill
value16-lt [] h = omega arith
value16-lt (x ∷ []) h = omega arith
value16-lt (x ∷ y ∷ xs) h = omega arith

pub left_after : (n : ℕ) (r : Reader) → reader_len (read n r).1 ≡ reader_len r - n
left_after n r =
    rw (reader_len-unread (read n r).1, reader_len-unread r, unread-read n r)
      (length-drop n (unread r))

pub reader_len-read_uint16 : (r : Reader) → reader_len (read_uint16 r).1 ≡ reader_len r - 2
unfolding read_uint16
reader_len-read_uint16 r = left_after 2 r

pub reader_len-read_bytes16 :
    (r : Reader) → reader_len (read_bytes16 r).1 ≡ reader_len r - 2 - (read_uint16 r).0
unfolding read_bytes16
reader_len-read_bytes16 r = rw left_after (rw reader_len-read_uint16)

-- On any packet, however short: a read of a number or of a byte string takes no more than is left,
-- its number is below the width's bound, and the string has the length that the prefix names.
read_bytes16_bounds :
    (r : Reader)
    → All IsByte (unread r)
    → ((read_uint16 r).0 < 2 ^ 16)
      × (length (read_bytes16 r).0 ≡ (read_uint16 r).0)
      × (reader_len (read_bytes16 r).1 ≡ reader_len r - (2 + (read_uint16 r).0))
unfolding read_bytes16 read_uint16
read_bytes16_bounds r bytes =
    let (l, r') = read_uint16 r in
    (
      value16-lt (unread r) bytes,
      length-fill l (unread r'),
      reader_len-read_bytes16 r ∙ omega arith,
    )
