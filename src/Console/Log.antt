-- ===== src/Console/Log.antt =====
-- `appendPop` with one line.
use multiserver.Shared.{
  ℕ, suc, ◌-◌, ◌≤◌, ◌<◌, ◌≡◌, refl, ap, true, false, List, [], ◌∷◌, ◌++◌, ltb, leb, arith,
  Bool-cases, inl, inr, length, take, drop, length-append, length-drop,
}
use multiserver.Shared.Run.{returns}
use multiserver.Console.{shift_left, shift_times, append_pop}

take_shifted : {A : Type 0} (x : A) (xs : List A) → take (length xs) (shift_left (x ∷ xs)) ≡ xs
unfolding shift_left
take_shifted x [] = refl
take_shifted x (y ∷ xs) = ap (λ t. y ∷ t) (take_shifted y xs)

with_room :
    {A : Type 0} (max : ℕ) (a : List A) (x : A)
    → length a < max
    → append_pop max a (x ∷ []) ≡ returns (a ++ x ∷ [])
unfolding append_pop
with_room max a x room = let below : ltb (length a) max ≡ true = ground arith in rw below refl

when_full :
    {A : Type 0} (max : ℕ) (y : A) (a : List A) (x : A)
    → suc (length a) ≡ max
    → append_pop max (y ∷ a) (x ∷ []) ≡ returns (a ++ x ∷ [])
unfolding append_pop shift_times
when_full max y a x full =
    let above : ltb (suc (length a)) max ≡ false = ground arith in
    let one : leb 1 max ≡ true = ground arith in
    let kept : max - 1 ≡ length a = omega arith in rw (above, one, kept, take_shifted y a) refl

latest :
    {A : Type 0} (max : ℕ) (a : List A) (x : A)
    → 1 ≤ max
    → length a ≤ max
    → append_pop max a (x ∷ []) ≡ returns (drop (suc (length a) - max) (a ++ x ∷ []))
latest max [] x some_room within =
    let none_dropped : 1 - max ≡ 0 = omega arith in rw none_dropped (with_room max [] x some_room)
latest max (y ∷ a) x some_room within = elim (Bool-cases (ltb (suc (length a)) max)) [
  | inl below ↦
      let room : suc (length a) < max = ground arith in
      let none_dropped : suc (suc (length a)) - max ≡ 0 = omega arith in
      rw none_dropped (with_room max (y ∷ a) x room)
  | inr above ↦
      let full : suc (length a) ≡ max = ground arith in
      let one_dropped : suc (suc (length a)) - max ≡ 1 = omega arith in
      rw one_dropped (when_full max y a x full)
]

-- Appending one element to a list within the bound keeps the last `max` elements of the whole: the
-- oldest is dropped where the list was full, and the bound holds again.
pub append_pop_lem :
    {A : Type 0} (max : ℕ) (a : List A) (x : A)
    → 1 ≤ max
    → length a ≤ max
    → (append_pop max a (x ∷ []) ≡ returns (drop (suc (length a) - max) (a ++ x ∷ [])))
      × (length (drop (suc (length a) - max) (a ++ x ∷ [])) ≤ max)
append_pop_lem max a x some_room within = (
  latest max a x some_room within,
  omega (arith, length-drop (suc (length a) - max) (a ++ x ∷ []), length-append a (x ∷ [])),
)
