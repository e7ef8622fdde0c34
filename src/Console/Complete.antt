-- ===== src/Console/Complete.antt =====
-- console.go: `autoComplete`, which completes a word and then goes round the words that there are.
use multiserver.Shared.{
  ◌<◌, ◌≡◌, ◌≢◌, refl, true, false, ◌&&◌, List, [], ◌∷◌, ◌++◌, Bytes, ltb, leb, if◌then◌else◌,
  arith, length, All, ◌==◌, ==_refl, ==_ne, nat_eq, bytes_eq,
}
use multiserver.Text.{has_prefix}

abbrev pub first_or : Bytes → List Bytes → Bytes
first_or d [] = d
first_or d (v ∷ vs) = v

-- The loop over all words; `first` is the first of them.
unfoldable pub complete_loop : Bytes → List Bytes → Bytes → Bytes
complete_loop first [] current = []
complete_loop first (v ∷ vs) current =
    let rest = complete_loop first vs current in
    if v == current then first_or first vs else if has_prefix v current then v else rest

unfoldable pub auto_complete : List Bytes → Bytes → Bytes
unfolding complete_loop
auto_complete all current =
    if ltb 1 (length all) && ltb 0 (length current)
    then complete_loop (first_or [] all) all current
    else if leb 1 (length all)
    then first_or [] all
    else []

has_prefix_refl : (s : Bytes) → has_prefix s s ≡ true
unfolding has_prefix
has_prefix_refl [] = refl
has_prefix_refl (b ∷ s) = rw (==_refl b, has_prefix_refl s) refl

no_prefix-ne : (u current : Bytes) → has_prefix u current ≡ false → u ≢ current
no_prefix-ne u current h same = cc (h, same, has_prefix_refl current)

loop_lem :
    (first v current : Bytes) (pre post : List Bytes)
    → All (λ u. has_prefix u current ≡ false) pre
    → has_prefix v current ≡ true
    → complete_loop first (pre ++ v ∷ post) current
      ≡ (if v == current then first_or first post else v)
unfolding complete_loop
loop_lem first v current [] post _ begins = rw begins refl
loop_lem first v current (u ∷ pre) post (other, h) begins =
    rw (==_ne u current (no_prefix-ne u current other), other)
      (loop_lem first v current pre post h begins)

-- The first word that begins with the text is taken; if it is the text itself, the word after it is, and after the
-- last word the first one. There are several words, and the text is not empty.
auto_complete_lem :
    (pre post : List Bytes) (v current : Bytes)
    → 1 < length (pre ++ v ∷ post)
    → 0 < length current
    → All (λ u. has_prefix u current ≡ false) pre
    → has_prefix v current ≡ true
    → auto_complete (pre ++ v ∷ post) current
      ≡ (if v == current then first_or (first_or [] (pre ++ v ∷ post)) post else v)
unfolding auto_complete
auto_complete_lem pre post v current several full h begins =
    let many : ltb 1 (length (pre ++ v ∷ post)) ≡ true = ground arith in
    let some_text : ltb 0 (length current) ≡ true = ground arith in
    rw (many, some_text) (loop_lem (first_or [] (pre ++ v ∷ post)) v current pre post h begins)
