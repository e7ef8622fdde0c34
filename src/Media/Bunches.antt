-- ===== src/Media/Bunches.antt =====
-- How the files of a request are put into bunches.
use mathlib.Core.Path.{subst}
use multiserver.Shared.{
  ℕ, ◌+◌, ◌≤◌, ◌<◌, ◌≡◌, refl, sym, ap, ◌∙◌, false, none, some, List, [], ◌∷◌, ◌++◌, Bytes, ◌==◌,
  bytes_eq, leb, length, lookup, insert, contains, All, append_assoc, append-nil, Bool-cases, inl,
  inr, arith, lookup-insert, length-append, if◌then◌else◌, ◌||◌,
}
use multiserver.Shared.Run.{returns}
use multiserver.Media.{MediaFile, Files, bytes_per_bunch, fill_bunches}

unfoldable pub concat : List (List Bytes) → List Bytes
concat [] = []
concat (b ∷ bs) = b ++ concat bs

-- No name is asked for twice.
abbrev pub Distinct : List Bytes → Type 0
Distinct [] = Unit
Distinct (f ∷ fs) = (contains f fs ≡ false) × Distinct fs

pub insert_fresh :
    (f : Bytes) (file : MediaFile) (b : Files)
    → lookup f b ≡ none
    → insert f file b ≡ b ++ (f, file) ∷ []
unfolding insert lookup
insert_fresh f file [] h = refl
insert_fresh f file ((g, e) ∷ b) h = elim (Bool-cases (g == f)) [
  | inl same ↦ absurd (ground (arith, same, h))
  | inr other ↦ rw (other) (ap (λ t. (g, e) ∷ t) (insert_fresh f file b (ground (arith, other, h))))
]

pub lookup-append :
    (f g : Bytes) (file : MediaFile) (b : Files)
    → lookup f b ≡ none
    → (g == f) ≡ false
    → lookup f (b ++ (g, file) ∷ []) ≡ none
unfolding lookup
lookup-append f g file [] h other = rw other refl
lookup-append f g file ((j, e) ∷ b) h other = ground (arith, lookup-append f g file b, h, other)

-- None of the names is in the bunch.
abbrev Fresh : Files → List Bytes → Type 0
Fresh b = All (λ f. lookup f b ≡ none)

empty-Fresh : (fs : List Bytes) → Fresh [] fs
unfolding lookup
empty-Fresh [] = tt
empty-Fresh (f ∷ fs) = (refl, empty-Fresh fs)

append-Fresh :
    (g : Bytes) (file : MediaFile) (b : Files) (fs : List Bytes)
    → Fresh b fs
    → contains g fs ≡ false
    → Fresh (b ++ (g, file) ∷ []) fs
unfolding contains
append-Fresh g file b [] h out = tt
append-Fresh g file b (f ∷ fs) (hf, h) out =
    let apart : (g == f) ≡ false =
      ground (arith, out, bytes_eq.same_iff g f, bytes_eq.same_iff f g) in
    let rest : contains g fs ≡ false = ground (arith, out) in
    (lookup-append f g file b hf apart, append-Fresh g file b fs h rest)

-- A name behind others is found at once, or was among them.
contains-append :
    (g f : Bytes) (names : List Bytes) → contains g (names ++ f ∷ []) ≡ (contains g names || f == g)
unfolding contains
contains-append g f [] = ground arith
contains-append g f (j ∷ names) = ground (arith, contains-append g f names)

module _ (known : Files) (get : Bytes → MediaFile) where
  -- The proxy has every file that is asked for.
  abbrev pub Known : List Bytes → Type 0
  Known = All (λ f. lookup f known ≡ some (get f))

  -- The length of the data of files.
  unfoldable pub size : List Bytes → ℕ
  size [] = 0
  size (f ∷ names) = length (get f).contents + size names

  -- A bunch is the map with the files of these names, and no others.
  abbrev pub Holds : Files → List Bytes → Type 0
  Holds b names =
      ((g : Bytes) → lookup g b ≡ (if contains g names then some (get g) else none))
      × (length b ≡ length names)

  -- The names of a bunch that became full with its last file.
  abbrev pub IsFull : List Bytes → Type 0
  IsFull names =
      (front : List Bytes) × (f : Bytes) × (names ≡ front ++ f ∷ [])
      × (size front < bytes_per_bunch)
      × (bytes_per_bunch ≤ size names)

  unfoldable pub AllHold : List Files → List (List Bytes) → Type 0
  AllHold [] [] = Unit
  AllHold (b ∷ bs) (names ∷ ns) = Holds b names × AllHold bs ns
  AllHold _ _ = ⊥

  size_empty : size [] ≡ 0
  unfolding size
  size_empty = refl

  size_add :
      (names : List Bytes) (f : Bytes)
      → size (names ++ f ∷ []) ≡ size names + length (get f).contents
  unfolding size
  size_add [] f = omega arith
  size_add (g ∷ names) f = omega (arith, size_add names f)

  empty-Holds : Holds [] []
  unfolding lookup contains
  empty-Holds = (λ g. refl, refl)

  insert-Holds :
      (b : Files) (names : List Bytes) (f : Bytes)
      → Holds b names
      → lookup f b ≡ none
      → Holds (insert f (get f) b) (names ++ f ∷ [])
  insert-Holds b names f (at, count) new = (
    λ g. elim (Bool-cases (f == g)) [
      | inl same ↦
          let get_eq : get f ≡ get g = ap get ((bytes_eq.same_iff f g).0 same) in
          ground (arith, lookup-insert g f (get f) b, contains-append g f names, same, get_eq)
      | inr other ↦
          ground (arith, lookup-insert g f (get f) b, contains-append g f names, other, at g)
    ],
    ap length (insert_fresh f (get f) b new)
        ∙ length-append b ((f, get f) ∷ [])
        ∙ ap (λ n. n + 1) count
        ∙ sym (length-append names (f ∷ [])),
  )

  -- What the loop makes of the names from the last bunch on, which holds the files `had`: full bunches and
  -- a last one, and the names whose files they hold.
  abbrev pub Splits : List Bytes → List Files → List Bytes → Files → ℕ → Type 0
  Splits rq bunches had last len =
      (full : List Files) × (rest : Files) × (chunks : List (List Bytes)) × (names : List Bytes)
      × (fill_bunches known rq bunches last len ≡ returns (bunches ++ (full ++ rest ∷ [])))
      × AllHold full chunks
      × Holds rest names
      × All IsFull chunks
      × (size names < bytes_per_bunch)
      × (concat chunks ++ names ≡ had ++ rq)

  fill_bunches-Splits :
      (rq : List Bytes) (bunches : List Files) (had : List Bytes) (last : Files) (len : ℕ)
      → Known rq
      → Distinct rq
      → Fresh last rq
      → Holds last had
      → size had ≡ len
      → len < bytes_per_bunch
      → Splits rq bunches had last len
  unfolding fill_bunches concat AllHold
  fill_bunches-Splits [] bunches had last len _ _ _ hold s few =
      ([], last, [], had, refl, tt, hold, tt, omega arith, sym (append-nil had))
  fill_bunches-Splits (f ∷ rq) bunches had last len (hf, hk) (out, hd) (new, hn) hold s few =
      let b : Files = last ++ (f, get f) ∷ [] in
      let had' = had ++ f ∷ [] in
      let len' = len + length (get f).contents in
      let b_eq : insert f (get f) last ≡ b = insert_fresh f (get f) last new in
      let hold' : Holds b had' =
        subst (λ (t : Files). Holds t had') b_eq (insert-Holds last had f hold new) in
      let size_b : size had' ≡ len' = omega (arith, size_add had f) in
      elim (Bool-cases (leb bytes_per_bunch len')) [
        | inl reached ↦
            let (full, rest, chunks, names, run, held, ends, all, short, same) =
              fill_bunches-Splits rq (bunches ++ b ∷ []) [] [] 0 hk hd (empty-Fresh rq) empty-Holds
                size_empty (omega arith) in
            let enough : bytes_per_bunch ≤ size had' = ground (arith, reached, size_b) in
            (
              b ∷ full,
              rest,
              had' ∷ chunks,
              names,
              rw (hf, b_eq, reached, fill_bunches)
                  (run ∙ ap returns (append_assoc bunches (b ∷ []) (full ++ rest ∷ []))),
              (hold', held),
              ends,
              ((had, f, refl, omega arith, enough), all),
              short,
              append_assoc had' (concat chunks) names
                  ∙ ap (λ t. had' ++ t) same
                  ∙ append_assoc had (f ∷ []) rq,
            )
        | inr under ↦
            let (full, rest, chunks, names, run, held, ends, all, short, same) =
              fill_bunches-Splits rq bunches had' b len' hk hd
                (append-Fresh f (get f) last rq hn out) hold' size_b (ground (arith, under)) in
            (
              full,
              rest,
              chunks,
              names,
              rw (hf, b_eq, under, fill_bunches) run,
              held,
              ends,
              all,
              short,
              same ∙ append_assoc had (f ∷ []) rq,
            )
      ]

  -- A request for files that the proxy has, none asked for twice, is cut into parts, which make up the request
  -- in its order, and each bunch is the map of exactly the files of its part, each once. Every bunch but
  -- the last holds 5000 bytes of data or more, but fewer without the last file of its part, and the last
  -- bunch holds fewer than 5000.
  pub fill_bunches_lem : (rq : List Bytes) → Known rq → Distinct rq → Splits rq [] [] [] 0
  fill_bunches_lem rq hk hd =
      fill_bunches-Splits rq [] [] [] 0 hk hd (empty-Fresh rq) empty-Holds size_empty (omega arith)
