-- ===== src/Media/Hex.antt =====
-- The digests of media files as hexadecimal text, after package encoding/hex.
use multiserver.Shared.{
  ℕ, ◌+◌, ◌-◌, ◌*◌, ◌/◌, ◌%◌, ◌<◌, ◌≡◌, ◌≢◌, refl, ap, ◌&&◌, Option, none, some, [], ◌∷◌, Bytes,
  leb, ltb, if◌then◌else◌, All, arith,
}
use multiserver.Text.Laws.{Lacks}
use multiserver.Wire.Reads.{IsByte}

-- The digits '0' to '9' and 'a' to 'f'.
unfoldable pub hex_digit : ℕ → ℕ
hex_digit n = if ltb n 10 then 48 + n else 87 + n

-- `digestToString(d)`
unfoldable pub digest_to_string : Bytes → Bytes
digest_to_string [] = []
digest_to_string (b ∷ d) = hex_digit (b / 16) ∷ hex_digit (b % 16) ∷ digest_to_string d

-- The value of a digit, of either case.
unfoldable pub from_hex_digit : ℕ → Option ℕ
from_hex_digit c =
    if leb 48 c && leb c 57
    then some (c - 48)
    else if leb 97 c && leb c 102
    then some (c - 87)
    else if leb 65 c && leb c 70
    then some (c - 55)
    else none

-- `hex.DecodeString(s)`
unfoldable pub decode_hex : Bytes → Option Bytes
decode_hex [] = some []
decode_hex (c ∷ []) = none
decode_hex (c ∷ e ∷ s) =
    let rest = decode_hex s in
    elim (from_hex_digit c) [
      | none ↦ none
      | some hi ↦ elim (from_hex_digit e) [
        | none ↦ none
        | some lo ↦ elim rest [ none ↦ none | some d ↦ some ((hi * 16 + lo) ∷ d) ]
      ]
    ]

-- `stringToDigest(s)`
unfoldable pub string_to_digest : Bytes → Bytes
unfolding decode_hex
string_to_digest s = elim (decode_hex s) [ none ↦ [] | some d ↦ d ]

from_hex_digit-hex_digit : (n : ℕ) → n < 16 → from_hex_digit (hex_digit n) ≡ some n
unfolding from_hex_digit hex_digit
from_hex_digit-hex_digit n h = ground arith

decode_hex-digest_to_string : (d : Bytes) → All IsByte d → decode_hex (digest_to_string d) ≡ some d
unfolding decode_hex digest_to_string
decode_hex-digest_to_string [] h = refl
decode_hex-digest_to_string (b ∷ d) (hb, h) =
    rw
      (
        decode_hex,
        from_hex_digit-hex_digit (b / 16) (omega arith),
        from_hex_digit-hex_digit (b % 16) (omega arith),
        decode_hex-digest_to_string d h,
      )
      (ap (λ n. some (n ∷ d)) (omega arith))

pub string_to_digest-digest_to_string :
    (d : Bytes) → All IsByte d → string_to_digest (digest_to_string d) ≡ d
unfolding string_to_digest
string_to_digest-digest_to_string d h = rw (string_to_digest, decode_hex-digest_to_string d h) refl

digit-Lacks : (n : ℕ) → n < 16 → hex_digit n ≢ b'#'
unfolding hex_digit
digit-Lacks n h = ground arith

-- The text of a digest holds no separator of names.
pub digest_to_string-Lacks : (d : Bytes) → All IsByte d → Lacks b'#' (digest_to_string d)
unfolding digest_to_string
digest_to_string-Lacks [] h = tt
digest_to_string-Lacks (b ∷ d) (hb, h) = (
  digit-Lacks (b / 16) (omega arith),
  (digit-Lacks (b % 16) (omega arith), digest_to_string-Lacks d h),
)
