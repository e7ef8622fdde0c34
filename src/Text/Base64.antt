-- ===== src/Text/Base64.antt =====
-- Package encoding/base64: `StdEncoding`, as far as the program uses it.
pub mod RoundTrip
use multiserver.Shared.{
  ℕ, zero, suc, ◌+◌, ◌-◌, ◌*◌, ◌/◌, ◌%◌, ◌≤◌, ◌<◌, ◌≡◌, ◌≢◌, ◌↔◌, refl, sym, ap, ◌∙◌, Bool, true,
  false, ◌||◌, Option, none, some, List, [], ◌∷◌, ◌++◌, Bytes, ◌==◌, nat_eq, bytes_eq, ltb, leb,
  if◌then◌else◌, All, arith,
}
use multiserver.Text.Laws.{Lacks}
use multiserver.Wire.Reads.{IsByte}

-- `A…Z a…z 0…9 + /`
unfoldable pub digit : ℕ → ℕ
digit n =
    if ltb n 26
    then n + 65
    else if ltb n 52
    then n + 71
    else if ltb n 62
    then n - 4
    else if n == 62
    then 43
    else 47

unfoldable pub digit_value : ℕ → Option ℕ
digit_value c =
    if leb 65 c
    then (if leb c 90
        then some (c - 65)
        else if leb 97 c
        then (if leb c 122 then some (c - 71) else none)
        else none)
    else if leb 48 c
    then (if leb c 57 then some (c + 4) else none)
    else if c == 43
    then some 62
    else if c == 47
    then some 63
    else none

-- `=`
abbrev pub padding : ℕ
padding = 61

unfoldable pub encode64 : Bytes → Bytes
unfolding digit
encode64 [] = []
encode64 (a ∷ []) = digit (a / 4) ∷ digit (a % 4 * 16) ∷ padding ∷ padding ∷ []
encode64 (a ∷ b ∷ []) =
    digit (a / 4) ∷ digit (a % 4 * 16 + b / 16) ∷ digit (b % 16 * 4) ∷ padding ∷ []
encode64 (a ∷ b ∷ c ∷ rest) =
    digit (a / 4)
    ∷ digit (a % 4 * 16 + b / 16)
    ∷ digit (b % 16 * 4 + c / 64)
    ∷ digit (c % 64)
    ∷ encode64 rest

-- What two, three and four digits hold; left-over bits are not looked at.
abbrev pub bytes2 : Option ℕ → Option ℕ → Option Bytes
bytes2 (some a) (some b) = some ((a * 4 + b / 16) ∷ [])
bytes2 _ _ = none

abbrev pub bytes3 : Option ℕ → Option ℕ → Option ℕ → Option Bytes
bytes3 (some a) (some b) (some c) = some ((a * 4 + b / 16) ∷ (b % 16 * 16 + c / 4) ∷ [])
bytes3 _ _ _ = none

abbrev pub bytes4 : Option ℕ → Option ℕ → Option ℕ → Option ℕ → Option Bytes → Option Bytes
bytes4 (some a) (some b) (some c) (some d) (some rest) =
    some ((a * 4 + b / 16) ∷ (b % 16 * 16 + c / 4) ∷ (c % 4 * 64 + d) ∷ rest)
bytes4 _ _ _ _ _ = none

-- Padding stands at the end only.
unfoldable pub decode_digits : Bytes → Option Bytes
unfolding digit_value
decode_digits [] = some []
decode_digits (a ∷ b ∷ c ∷ d ∷ rest) =
    let more = decode_digits rest in
    if d == padding
    then (if rest == []
        then (if c == padding
            then bytes2 (digit_value a) (digit_value b)
            else bytes3 (digit_value a) (digit_value b) (digit_value c))
        else none)
    else bytes4 (digit_value a) (digit_value b) (digit_value c) (digit_value d) more
decode_digits _ = none

-- Line ends are skipped wherever they stand.
unfoldable pub skip_line_ends : Bytes → Bytes
skip_line_ends [] = []
skip_line_ends (c ∷ s) =
    let rest = skip_line_ends s in if c == 10 || c == 13 then rest else c ∷ rest

unfoldable pub decode64 : Bytes → Option Bytes
unfolding decode_digits skip_line_ends
decode64 s = decode_digits (skip_line_ends s)

digit-lt : (n : ℕ) → n < 64 → (digit n ≢ 10) × (digit n ≢ 13) × (digit n ≢ 35) × (digit n ≢ 61)
unfolding digit
digit-lt n h = ground arith

digit_value-digit : (n : ℕ) → n < 64 → digit_value (digit n) ≡ some n
unfolding digit_value digit
digit_value-digit n h = ground arith
