-- ===== src/Wire/Reads.antt =====
-- What each read returns and leaves, in terms of the bytes that were left to read.
use multiserver.Shared.{
  ℕ, zero, suc, ◌≤◌, ◌<◌, ◌≡◌, refl, ap, [], ◌∷◌, ◌++◌, Bytes, arith, All, length, take, drop,
  length-drop, drop-drop, drop-min,
}
use multiserver.Wire.{
  Reader, unread, reader_len, fill, read, be_value, read_uint8, read_uint16, read_uint32,
  read_uint64,
}

pub length-fill : (n : ℕ) (xs : Bytes) → length (fill n xs) ≡ n
unfolding fill
length-fill zero xs = refl
length-fill (suc n) [] = ap suc (length-fill n [])
length-fill (suc n) (x ∷ xs) = ap suc (length-fill n xs)

pub fill-append : (xs ys : Bytes) → fill (length xs) (xs ++ ys) ≡ xs
unfolding fill
fill-append [] ys = refl
fill-append (x ∷ xs) ys = ap (λ t. x ∷ t) (fill-append xs ys)

pub fill-take : (n : ℕ) (xs : Bytes) → n ≤ length xs → fill n xs ≡ take n xs
unfolding fill
fill-take zero xs h = refl
fill-take (suc n) [] h = absurd (omega arith)
fill-take (suc n) (x ∷ xs) h = ap (λ t. x ∷ t) (fill-take n xs (omega arith))

abbrev pub IsByte : ℕ → Type 0
IsByte b = b < 256

pub fill-IsByte : (n : ℕ) (xs : Bytes) → All IsByte xs → All IsByte (fill n xs)
unfolding fill
fill-IsByte zero xs h = tt
fill-IsByte (suc n) [] h = (omega arith, fill-IsByte n [] tt)
fill-IsByte (suc n) (x ∷ xs) (hx, h) = (hx, fill-IsByte n xs h)

pub reader_len-unread : (r : Reader) → reader_len r ≡ length (unread r)
unfolding reader_len
reader_len-unread r = omega (arith, length-drop r.pos r.buf)

-- A read moves on by what it could copy, so it leaves what stands behind the `n` bytes.
pub unread-read : (n : ℕ) (r : Reader) → unread (read n r).1 ≡ drop n (unread r)
unfolding read
unread-read n r = rw (← drop-drop, ← length-drop) (drop-min n (drop r.pos r.buf))

-- The number readers: `k` bytes, high byte first.
module _ (r : Reader) where
  pub read_uint8_lem : (read_uint8 r).0 ≡ be_value 0 (fill 1 (unread r))
  unfolding read_uint8
  read_uint8_lem = refl

  pub unread-read_uint8 : unread (read_uint8 r).1 ≡ drop 1 (unread r)
  unfolding read_uint8
  unread-read_uint8 = unread-read 1 r

  pub read_uint16_lem : (read_uint16 r).0 ≡ be_value 0 (fill 2 (unread r))
  unfolding read_uint16
  read_uint16_lem = refl

  pub unread-read_uint16 : unread (read_uint16 r).1 ≡ drop 2 (unread r)
  unfolding read_uint16
  unread-read_uint16 = unread-read 2 r

  pub read_uint32_lem : (read_uint32 r).0 ≡ be_value 0 (fill 4 (unread r))
  unfolding read_uint32
  read_uint32_lem = refl

  pub unread-read_uint32 : unread (read_uint32 r).1 ≡ drop 4 (unread r)
  unfolding read_uint32
  unread-read_uint32 = unread-read 4 r

  pub read_uint64_lem : (read_uint64 r).0 ≡ be_value 0 (fill 8 (unread r))
  unfolding read_uint64
  read_uint64_lem = refl

  pub unread-read_uint64 : unread (read_uint64 r).1 ≡ drop 8 (unread r)
  unfolding read_uint64
  unread-read_uint64 = unread-read 8 r
