-- ===== src/Chat/Texts.antt =====
-- The wide text of chat messages.
use multiserver.Shared.{
  ℕ, zero, suc, ◌-◌, ◌*◌, ◌^◌, ◌<◌, ◌≤◌, ◌≡◌, refl, ap, true, List, [], ◌∷◌, ◌++◌, Bytes, length,
  replicate, All, arith,
}
use multiserver.Wire.{put_uint16, be_value, fill}
use multiserver.Chat.{Utf16, units, is_even, unit_bytes, narrow, wider}

-- Bytes for a whole number of units, and zeros for the rest of them.
fill_units :
    (n : ℕ) (us : List ℕ)
    → length us ≤ n
    → fill (n * 2) (unit_bytes us) ≡ unit_bytes (us ++ replicate (n - length us) 0)
unfolding fill unit_bytes
fill_units zero [] h = refl
fill_units zero (x ∷ us) h = absurd (omega arith)
fill_units (suc n) [] h =
    let double : suc n * 2 ≡ suc (suc (n * 2)) = omega arith in
    let ih : fill (n * 2) [] ≡ unit_bytes (replicate (n - 0) 0) = fill_units n [] (omega arith) in
    let less : suc n - 0 ≡ suc (n - 0) = omega arith in rw (double, less) (ap (λ t. 0 ∷ 0 ∷ t) ih)
fill_units (suc n) (x ∷ us) h =
    let double : suc n * 2 ≡ suc (suc (n * 2)) = omega arith in
    let ih = fill_units n us (omega arith) in
    let less : suc n - suc (length us) ≡ n - length us = omega arith in
    rw (double, less) (ap (λ t. put_uint16 x ++ t) ih)

is_even-unit_bytes : (us : List ℕ) → is_even (unit_bytes us) ≡ true
unfolding is_even unit_bytes
is_even-unit_bytes [] = refl
is_even-unit_bytes (x ∷ us) = is_even-unit_bytes us

units-unit_bytes : (us : List ℕ) → All (λ x. x < 2 ^ 16) us → units (unit_bytes us) ≡ us
unfolding units unit_bytes
units-unit_bytes [] h = refl
units-unit_bytes (x ∷ us) (hx, h) =
    let number : be_value 0 (put_uint16 x) ≡ x = omega arith in cc (number, units-unit_bytes us h)

All-zeros :
    (us : List ℕ) (n : ℕ) → All (λ x. x < 2 ^ 16) us → All (λ x. x < 2 ^ 16) (us ++ replicate n 0)
All-zeros [] zero h = tt
All-zeros [] (suc n) h = (omega arith, All-zeros [] n tt)
All-zeros (x ∷ us) n (hx, h) = (hx, All-zeros us n h)

-- A text that is written wide and read back is the decoding of its units with zeros behind them, one for
-- each byte that the text has more than units. The text has no more units than bytes, and a unit has
-- 16 bits.
pub narrow-wider :
    (u : Utf16) (b : Bytes)
    → length (u.encode b) ≤ length b
    → All (λ x. x < 2 ^ 16) (u.encode b)
    → narrow u (wider u b) ≡ u.decode (u.encode b ++ replicate (length b - length (u.encode b)) 0)
unfolding narrow wider
narrow-wider u b few small =
    let us = u.encode b ++ replicate (length b - length (u.encode b)) 0 in
    rw (fill_units (length b) (u.encode b) few, is_even-unit_bytes us)
      (ap u.decode (units-unit_bytes us (All-zeros (u.encode b) _ small)))
