-- ===== src/Wire.antt =====
-- readwrite.go: the big-endian integers and length-prefixed byte strings of the packets.
-- A `bytes.Reader` is its buffer and its position; a `bytes.Buffer` that is written to is its bytes.
pub mod Reads
pub mod Fields
pub mod Lengths
mod Tests
use multiserver.Shared.{
  ℕ, zero, suc, ◌+◌, ◌-◌, ◌*◌, ◌/◌, ◌%◌, ◌^◌, [], ◌∷◌, ◌++◌, Bytes, length, take, drop, min,
}

pub record Reader : Type 0 where
  pub buf : Bytes
  pub pos : ℕ

abbrev pub new_reader : Bytes → Reader
new_reader b = record { buf = b; pos = 0 }

-- What is left to read; `r.Len()` is its length.
abbrev pub unread : Reader → Bytes
unread r = drop r.pos r.buf

unfoldable pub reader_len : Reader → ℕ
reader_len r = length r.buf - r.pos

-- `Seek(n, io.SeekStart)` and `Seek(n, io.SeekCurrent)`; the program gives no negative offset.
abbrev pub seek_start : ℕ → Reader → Reader
seek_start n r = record r { pos = n }

abbrev pub seek_current : ℕ → Reader → Reader
seek_current n r = record r { pos = r.pos + n }

-- `make([]byte, n)` with what there is of `xs` copied over its front.
unfoldable pub fill : ℕ → Bytes → Bytes
fill zero xs = []
fill (suc n) [] = 0 ∷ fill n []
fill (suc n) (x ∷ xs) = x ∷ fill n xs

-- `b := make([]byte, n); r.Read(b)`: a short read leaves the rest of `b` zero.
unfoldable pub read : ℕ → Reader → Bytes × Reader
unfolding reader_len
read n r = (fill n (unread r), record r { pos = r.pos + min n (reader_len r) })

-- `binary.BigEndian`: `Uint16` and its like read the front of their argument.
abbrev pub be_value : ℕ → Bytes → ℕ
be_value acc [] = acc
be_value acc (b ∷ bs) = be_value (acc * 256 + b) bs

abbrev pub put_uint16 : ℕ → Bytes
put_uint16 v = (v / 256 % 256) ∷ (v % 256) ∷ []

abbrev pub put_uint32 : ℕ → Bytes
put_uint32 v = (v / 2 ^ 24 % 256) ∷ (v / 2 ^ 16 % 256) ∷ (v / 256 % 256) ∷ (v % 256) ∷ []

abbrev pub put_uint64 : ℕ → Bytes
put_uint64 v = put_uint32 (v / 2 ^ 32 % 2 ^ 32) ++ put_uint32 (v % 2 ^ 32)

-- `ByteReader`: at most `max_size` bytes of the packet, `rudp.MaxUnrelPktSize` in the program.
unfoldable pub byte_reader : ℕ → Bytes → Reader
byte_reader max_size pkt = new_reader (take max_size pkt)

-- `b[0]` of a buffer of length one, and `Uint16(b)` and its like of a buffer of their length.
unfoldable pub read_uint8 : Reader → ℕ × Reader
unfolding read
read_uint8 r = let (b, r') = read 1 r in (be_value 0 b, r')

unfoldable pub read_uint16 : Reader → ℕ × Reader
unfolding read
read_uint16 r = let (b, r') = read 2 r in (be_value 0 b, r')

unfoldable pub read_uint32 : Reader → ℕ × Reader
unfolding read
read_uint32 r = let (b, r') = read 4 r in (be_value 0 b, r')

unfoldable pub read_uint64 : Reader → ℕ × Reader
unfolding read
read_uint64 r = let (b, r') = read 8 r in (be_value 0 b, r')

unfoldable pub read_bytes16 : Reader → Bytes × Reader
read_bytes16 r = let (l, r') = read_uint16 r in read l r'

unfoldable pub read_bytes32 : Reader → Bytes × Reader
read_bytes32 r = let (l, r') = read_uint32 r in read l r'

-- Each write returns the buffer with the new bytes behind it. A number is below its width's bound.
unfoldable pub write_uint8 : Bytes → ℕ → Bytes
write_uint8 w v = w ++ v ∷ []

unfoldable pub write_uint16 : Bytes → ℕ → Bytes
write_uint16 w v = w ++ put_uint16 v

unfoldable pub write_uint32 : Bytes → ℕ → Bytes
write_uint32 w v = w ++ put_uint32 v

unfoldable pub write_uint64 : Bytes → ℕ → Bytes
write_uint64 w v = w ++ put_uint64 v

-- `uint16(len(v))` wraps around.
unfoldable pub write_bytes16 : Bytes → Bytes → Bytes
write_bytes16 w v = write_uint16 w (length v % 2 ^ 16) ++ v

unfoldable pub write_bytes32 : Bytes → Bytes → Bytes
write_bytes32 w v = write_uint32 w (length v % 2 ^ 32) ++ v
