-- ===== src/Text/Base64/RoundTrip.antt =====
-- Encoding, then decoding.
use multiserver.Shared.{
  ℕ, ◌+◌, ◌*◌, ◌/◌, ◌%◌, ◌<◌, ◌≡◌, ◌≢◌, refl, ap, false, some, [], ◌∷◌, Bytes, ◌==◌, bytes_beq,
  ==_ne, nat_eq, bytes_eq, All, arith,
}
use multiserver.Text.Laws.{Lacks}
use multiserver.Text.Base64.{
  digit, padding, encode64, decode64, decode_digits, skip_line_ends, digit-lt, digit_value-digit,
}
use multiserver.Wire.Reads.{IsByte}

-- What `encode64` writes: no line end, and no `#`.
abbrev pub IsPlain : ℕ → Type 0
IsPlain c = (c ≢ 10) × (c ≢ 13) × (c ≢ 35)

digit-IsPlain : (n : ℕ) → n < 64 → IsPlain (digit n)
digit-IsPlain n h = let (a, b, c, d) = digit-lt n h in (a, b, c)

padding-IsPlain : IsPlain padding
padding-IsPlain = (λ h. omega arith, λ h. omega arith, λ h. omega arith)

encode64-IsPlain : (s : Bytes) → All IsByte s → All IsPlain (encode64 s)
unfolding encode64
encode64-IsPlain [] h = tt
encode64-IsPlain (a ∷ []) (ha, _) = (
  digit-IsPlain (a / 4) (omega arith),
  (digit-IsPlain (a % 4 * 16) (omega arith), (padding-IsPlain, (padding-IsPlain, tt))),
)
encode64-IsPlain (a ∷ b ∷ []) (ha, (hb, _)) = (
  digit-IsPlain (a / 4) (omega arith),
  (
    digit-IsPlain (a % 4 * 16 + b / 16) (omega arith),
    (digit-IsPlain (b % 16 * 4) (omega arith), (padding-IsPlain, tt)),
  ),
)
encode64-IsPlain (a ∷ b ∷ c ∷ rest) (ha, (hb, (hc, h))) = (
  digit-IsPlain (a / 4) (omega arith),
  (
    digit-IsPlain (a % 4 * 16 + b / 16) (omega arith),
    (
      digit-IsPlain (b % 16 * 4 + c / 64) (omega arith),
      (digit-IsPlain (c % 64) (omega arith), encode64-IsPlain rest h),
    ),
  ),
)

plain-Lacks : (s : Bytes) → All IsPlain s → Lacks 35 s
plain-Lacks [] h = tt
plain-Lacks (c ∷ s) ((a, b, d), h) = (d, plain-Lacks s h)

pub encode64-Lacks : (s : Bytes) → All IsByte s → Lacks 35 (encode64 s)
encode64-Lacks s h = plain-Lacks (encode64 s) (encode64-IsPlain s h)

skip_nothing : (s : Bytes) → All IsPlain s → skip_line_ends s ≡ s
unfolding skip_line_ends
skip_nothing [] h = refl
skip_nothing (c ∷ s) ((a, b, _), h) = rw (==_ne c 10 a, ==_ne c 13 b, skip_nothing s h)

no_padding : (n : ℕ) → n < 64 → (digit n == padding) ≡ false
no_padding n h = ==_ne (digit n) padding (digit-lt n h).3

digits_back : (s : Bytes) → All IsByte s → decode_digits (encode64 s) ≡ some s
unfolding decode_digits encode64 bytes_beq
digits_back [] h = refl
digits_back (a ∷ []) (ha, _) =
    let back : a / 4 * 4 + a % 4 * 16 / 16 ≡ a = omega arith in
    rw (digit_value-digit (a / 4) (omega arith), digit_value-digit (a % 4 * 16) (omega arith))
      (ap (λ t. some (t ∷ [])) back)
digits_back (a ∷ b ∷ []) (ha, (hb, _)) =
    let n = a / 4 in
    let m = a % 4 * 16 + b / 16 in
    let k = b % 16 * 4 in
    let first : n * 4 + m / 16 ≡ a = omega arith in
    let second : m % 16 * 16 + k / 4 ≡ b = omega arith in
    rw
      (
        no_padding k (omega arith),
        digit_value-digit n (omega arith),
        digit_value-digit m (omega arith),
        digit_value-digit k (omega arith),
        first,
        second,
      )
      refl
digits_back (a ∷ b ∷ c ∷ rest) (ha, (hb, (hc, h))) =
    let n = a / 4 in
    let m = a % 4 * 16 + b / 16 in
    let k = b % 16 * 4 + c / 64 in
    let l = c % 64 in
    let first : n * 4 + m / 16 ≡ a = omega arith in
    let second : m % 16 * 16 + k / 4 ≡ b = omega arith in
    let third : k % 4 * 64 + l ≡ c = omega arith in
    rw
      (
        no_padding l (omega arith),
        digit_value-digit n (omega arith),
        digit_value-digit m (omega arith),
        digit_value-digit k (omega arith),
        digit_value-digit l (omega arith),
        digits_back rest h,
        first,
        second,
        third,
      )
      refl

-- `DecodeString` gives back every byte string that `EncodeToString` wrote.
pub decode64-encode64 : (s : Bytes) → All IsByte s → decode64 (encode64 s) ≡ some s
unfolding decode64
decode64-encode64 s h = rw (skip_nothing (encode64 s) (encode64-IsPlain s h)) (digits_back s h)
