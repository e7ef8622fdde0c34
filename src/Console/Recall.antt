-- ===== src/Console/Recall.antt =====
-- `History.Add`: entering a line.
use multiserver.Shared.{
  ℕ, zero, suc, ◌+◌, ◌-◌, ◌≤◌, ◌≡◌, ◌≢◌, refl, sym, ap, ◌∙◌, true, false, none, some, List, [], ◌∷◌,
  ◌++◌, append-nil, append_assoc, ltb, arith, Option-cases, inl, inr, length, length-append, take,
  take_all, take_front, drop, drop_all, get_elem?, All, All-append, ==_refl, ==_ne, bytes_eq,
}
use multiserver.Console.{Line, History, remove_at, add_loop, history_add}

-- No element is the line.
abbrev pub LacksLine : Line → List Line → Type 0
LacksLine line = All (λ v. v ≢ line)

get_lacks :
    (line : Line) (a : List Line) (j : ℕ) (v : Line)
    → LacksLine line a
    → get_elem? a j ≡ some v
    → v ≢ line
get_lacks line [] j v h e = cc
get_lacks line (x ∷ a) zero v (hx, h) e = λ same. hx (cc (e, same))
get_lacks line (x ∷ a) (suc j) v (hx, h) e = get_lacks line a j v h e

get_behind : (pre a : List Line) (j : ℕ) → get_elem? (pre ++ a) (length pre + j) ≡ get_elem? a j
get_behind [] a j = ap (get_elem? a) (omega arith)
get_behind (x ∷ pre) a j =
    let next : suc (length pre) + j ≡ suc (length pre + j) = omega arith in
    rw next (get_behind pre a j)

goes_past :
    (line v : Line) (arr : List Line) (n k len : ℕ)
    → get_elem? arr k ≡ some v
    → v ≢ line
    → add_loop (suc n) k line arr len ≡ add_loop n (suc k) line arr len
unfolding add_loop
goes_past line v arr n k len there other = rw (add_loop, there, ==_ne v line other) refl

stops :
    (line : Line) (arr : List Line) (n k len : ℕ)
    → get_elem? arr k ≡ none
    → add_loop n k line arr len ≡ (arr, len)
unfolding add_loop
stops line arr zero k len end = refl
stops line arr (suc n) k len end = rw (add_loop, end) refl

-- Where none of the places that are left holds the line, the loop changes nothing.
quiet :
    (line : Line) (pre a : List Line) (n k len : ℕ)
    → length pre ≤ k
    → LacksLine line a
    → add_loop n k line (pre ++ a) len ≡ (pre ++ a, len)
quiet line pre a zero k len behind h = unfold add_loop in refl
quiet line pre a (suc n) k len behind h = elim (Option-cases (get_elem? (pre ++ a) k)) [
  | inl end ↦ stops line (pre ++ a) (suc n) k len end
  | inr (v, there) ↦
      let at : get_elem? a (k - length pre) ≡ some v =
        sym (get_behind pre a (k - length pre)) ∙ ap (get_elem? (pre ++ a)) (omega arith) ∙ there in
      goes_past line v (pre ++ a) n k len there (get_lacks line a (k - length pre) v h at)
      ∙ quiet line pre a n (suc k) len (omega arith) h
]

first_of : (done a : List Line) (x : Line) → get_elem? (done ++ x ∷ a) (length done) ≡ some x
first_of [] a x = refl
first_of (y ∷ done) a x = first_of done a x

-- The loop passes the places before the line.
passes :
    (line : Line) (done pre a : List Line) (n len : ℕ)
    → LacksLine line pre
    → add_loop (length pre + n) (length done) line (done ++ (pre ++ a)) len
      ≡ add_loop n (length done + length pre) line (done ++ (pre ++ a)) len
passes line done [] a n len h =
    ap (λ m. add_loop m (length done) line (done ++ a) len) (omega arith)
    ∙ ap (λ k. add_loop n k line (done ++ a) len) (omega arith)
passes line done (x ∷ pre) a n len (hx, h) =
    let whole : List Line = done ++ (x ∷ (pre ++ a)) in
    let shifted : done ++ (x ∷ (pre ++ a)) ≡ (done ++ x ∷ []) ++ (pre ++ a) =
      sym (append_assoc done (x ∷ []) (pre ++ a)) in
    let len' : length (done ++ x ∷ []) ≡ suc (length done) =
      omega (arith, length-append done (x ∷ [])) in
    ap (λ m. add_loop m (length done) line whole len) (omega arith)
    ∙ goes_past line x whole (length pre + n) (length done) len (first_of done (pre ++ a) x) hx
    ∙ ap (λ k. add_loop (length pre + n) k line whole len) (sym len')
    ∙ ap (λ w. add_loop (length pre + n) (length (done ++ x ∷ [])) line w len) shifted
    ∙ passes line (done ++ x ∷ []) pre a n len h
    ∙ ap (λ w. add_loop n (length (done ++ x ∷ []) + length pre) line w len) (sym shifted)
    ∙ ap (λ k. add_loop n k line whole len) (omega arith)

-- Closing the gap at the front doubles the last element.
closes_up :
    (line x q : Line) (qs : List Line)
    → LacksLine line (q ∷ qs)
    → (last : Line) × (remove_at 0 (x ∷ q ∷ qs) ≡ q ∷ (qs ++ last ∷ [])) × (last ≢ line)
unfolding remove_at
closes_up line x q [] (hq, _) = (q, refl, hq)
closes_up line x q (r ∷ qs) (hq, h) =
    let (last, eq, other) = closes_up line q r qs h in (last, ap (λ t. q ∷ t) eq, other)

removed_mid :
    (line : Line) (pre qs : List Line) (q : Line)
    → LacksLine line (q ∷ qs)
    → (last : Line) × (remove_at (length pre) (pre ++ line ∷ q ∷ qs) ≡ pre ++ q ∷ (qs ++ last ∷ []))
      × (last ≢ line)
unfolding remove_at
removed_mid line [] qs q h = closes_up line line q qs h
removed_mid line (x ∷ pre) qs q h =
    let (last, eq, other) = removed_mid line pre qs q h in (last, ap (λ t. x ∷ t) eq, other)

found_last :
    (line : Line) (pre : List Line)
    → add_loop 1 (length pre) line (pre ++ line ∷ []) (length pre + 1)
      ≡ (pre ++ line ∷ [], length pre)
unfolding add_loop
found_last line pre =
    let at_end : ltb (length pre + 1) (length pre + 1) ≡ false = ground arith in
    rw (add_loop, first_of pre [] line, ==_refl line, at_end) refl

removes :
    (line : Line) (arr : List Line) (n k len : ℕ)
    → get_elem? arr k ≡ some line
    → ltb (k + 1) len ≡ true
    → add_loop (suc n) k line arr len
      ≡ add_loop n (suc k) line (remove_at k (take len arr) ++ drop len arr) (len - 1)
unfolding add_loop
removes line arr n k len there inside = rw (add_loop, there, ==_refl line, inside) refl

found_inside :
    (line q : Line) (pre qs : List Line) (len : ℕ)
    → LacksLine line (q ∷ qs)
    → len ≡ length pre + suc (suc (length qs))
    → (last : Line) × (add_loop (suc (suc (length qs))) (length pre) line (pre ++ line ∷ q ∷ qs) len
        ≡ (pre ++ q ∷ (qs ++ last ∷ []), len - 1))
found_inside line q pre qs len (hq, h) e =
    let (last, removed, other) = removed_mid line pre qs q (hq, h) in
    let inside : ltb (length pre + 1) len ≡ true = ground arith in
    let arr : List Line = pre ++ line ∷ q ∷ qs in
    let size : length arr ≡ len = omega (arith, length-append pre (line ∷ q ∷ qs)) in
    (
      last,
      removes line arr (suc (length qs)) (length pre) len (first_of pre (q ∷ qs) line) inside
          ∙ rw (take_all len arr (omega arith), drop_all len arr (omega arith), removed, append-nil)
              (quiet line pre (q ∷ (qs ++ last ∷ [])) (suc (length qs)) (suc (length pre)) (len - 1)
                (omega arith) (hq, All-append (λ v. v ≢ line) qs (last ∷ []) h (other, tt))),
    )

-- The loop over all lines, where the line stands between `pre` and `post`.
reaches :
    (line : Line) (pre post : List Line) (len : ℕ)
    → LacksLine line pre
    → len ≡ length pre + suc (length post)
    → add_loop len 0 line (pre ++ line ∷ post) len
      ≡ add_loop (suc (length post)) (length pre) line (pre ++ line ∷ post) len
reaches line pre post len h e =
    ap (λ n. add_loop n 0 line (pre ++ line ∷ post) len) e
    ∙ passes line [] pre (line ∷ post) (suc (length post)) len h
    ∙ ap (λ k. add_loop (suc (length post)) k line (pre ++ line ∷ post) len) (omega arith)

-- The lines that the loop leaves.
abbrev left : List Line × ℕ → List Line
left (arr, len) = take len arr

left_new :
    (line : Line) (a : List Line)
    → LacksLine line a
    → left (add_loop (length a) 0 line a (length a)) ≡ a
left_new line a h =
    ap left (quiet line [] a (length a) 0 (length a) (omega arith) h)
    ∙ take_all (length a) a (omega arith)

left_old :
    (line : Line) (pre post : List Line) (len : ℕ)
    → LacksLine line pre
    → LacksLine line post
    → len ≡ length pre + suc (length post)
    → left (add_loop len 0 line (pre ++ line ∷ post) len) ≡ pre ++ post
left_old line pre [] len hpre hpost e =
    let one : len ≡ length pre + 1 = e in
    ap left (
      reaches line pre [] len hpre e
      ∙ ap (add_loop 1 (length pre) line (pre ++ line ∷ [])) one
      ∙ found_last line pre)
    ∙ take_front pre (line ∷ [])
    ∙ sym (append-nil pre)
left_old line pre (q ∷ qs) len hpre hpost e =
    let (last, ran) = found_inside line q pre qs len hpost e in
    let kept : pre ++ q ∷ (qs ++ last ∷ []) ≡ (pre ++ q ∷ qs) ++ last ∷ [] =
      sym (append_assoc pre (q ∷ qs) (last ∷ [])) in
    let size : len - 1 ≡ length (pre ++ q ∷ qs) = omega (arith, length-append pre (q ∷ qs)) in
    ap left (reaches line pre (q ∷ qs) len hpre e ∙ ran)
    ∙ rw (kept, size) (take_front (pre ++ q ∷ qs) (last ∷ []))

-- After a line is entered it is the last one of the history, and the others stand before it in their order, whether the
-- line was entered before, once, or not; the next step back starts from the end.
history_add_lem :
    (line : Line) (pre post : List Line) (i : ℕ)
    → LacksLine line pre
    → LacksLine line post
    → (history_add (record { lines = pre ++ post; i = i }) line
        ≡ record { lines = (pre ++ post) ++ line ∷ []; i = 0 })
      × (history_add (record { lines = pre ++ line ∷ post; i = i }) line
          ≡ record { lines = (pre ++ post) ++ line ∷ []; i = 0 })
unfolding history_add
history_add_lem line pre post i hpre hpost =
    let entered : List Line → History = λ a. record { lines = a ++ line ∷ []; i = 0 } in
    (
      ap entered (left_new line (pre ++ post) (All-append (λ v. v ≢ line) pre post hpre hpost)),
      ap entered (
          left_old line pre post (length (pre ++ line ∷ post)) hpre hpost
            (length-append pre (line ∷ post))),
    )
