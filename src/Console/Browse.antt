-- ===== src/Console/Browse.antt =====
-- Going back and forth in the history.
use multiserver.Shared.{
  ℕ, zero, suc, ◌-◌, ◌<◌, ◌≡◌, ◌⊎◌, refl, ap, ◌∙◌, true, false, some, List, [], ◌∷◌, leb, arith,
  inl, inr, length, get_elem?,
}
use multiserver.Shared.Run.{returns}
use multiserver.Console.{Line, History, history_prev, history_next}

in_range : (a : List Line) (j : ℕ) → j < length a → (v : Line) × (get_elem? a j ≡ some v)
in_range [] j h = absurd (omega arith)
in_range (x ∷ a) zero h = (x, refl)
in_range (x ∷ a) (suc j) h = in_range a j (omega arith)

-- The line that the history stands at: none before the first step back.
abbrev pub Shows : History → Line → Type 0
Shows h line =
    ((h.i ≡ 0) × (line ≡ [])) ⊎ ((0 < h.i) × (get_elem? h.lines (length h.lines - h.i) ≡ some line))

next_from :
    (a : List Line) (i : ℕ)
    → i < length a
    → (line : Line) × (history_next (record { lines = a; i = suc i })
        ≡ returns (record { lines = a; i = i }, line))
      × Shows (record { lines = a; i = i }) line
unfolding history_next
next_from a zero h = ([], refl, inl (refl, refl))
next_from a (suc i) h =
    let (line, there) = in_range a (length a - suc i) (omega arith) in
    let more : leb (suc (suc i)) 1 ≡ false = ground arith in
    let down : suc (suc i) - 1 ≡ suc i = omega arith in
    let inside : leb (suc i) (length a) ≡ true = ground arith in
    (line, rw (more, down, inside, there) refl, inr (omega arith, there))

-- A step back within the history shows the line before, and the step forward after it ends where the first began
-- and shows the line there.
history_prev-history_next :
    (h : History) (current : Line)
    → h.i < length h.lines
    → (line line' : Line) × (history_prev h current ≡ (record h { i = suc h.i }, line))
      × Shows (record h { i = suc h.i }) line
      × (history_next (history_prev h current).0 ≡ returns (h, line'))
      × Shows h line'
unfolding history_prev
history_prev-history_next h current within =
    let (line, there) = in_range h.lines (length h.lines - suc h.i) (omega arith) in
    let inside : leb (suc h.i) (length h.lines) ≡ true = ground arith in
    let back : history_prev h current ≡ (record h { i = suc h.i }, line) =
      rw (inside, there) refl in
    let (line', forth, at) = next_from h.lines h.i within in
    (line, line', back, inr (omega arith, there), ap (λ x. history_next x.0) back ∙ forth, at)
