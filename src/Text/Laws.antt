-- ===== src/Text/Laws.antt =====
-- Splitting and joining.
use multiserver.Shared.{
  ℕ, ◌≡◌, ◌≢◌, refl, sym, ap, ◌∙◌, List, [], ◌∷◌, ◌++◌, Bytes, ◌==◌, nat_eq, ==_ne, ==_refl, All,
  Bool-cases, inl, inr,
}
use multiserver.Text.{on_head, split, join}

abbrev pub Lacks : ℕ → Bytes → Type 0
Lacks sep = All (λ b. b ≢ sep)

-- A part without the separator stays whole in front of it, and at the end.
pub split_last : (sep : ℕ) (p : Bytes) → Lacks sep p → split sep p ≡ p ∷ []
unfolding split
split_last sep [] h = refl
split_last sep (b ∷ p) (hb, h) = rw (==_ne b sep hb, split_last sep p h)

pub split_front : (sep : ℕ) (p s : Bytes) → Lacks sep p → split sep (p ++ sep ∷ s) ≡ p ∷ split sep s
unfolding split
split_front sep [] s h = rw (==_refl sep)
split_front sep (b ∷ p) s (hb, h) = rw (==_ne b sep hb, split_front sep p s h)

-- Splitting a join gives the parts back, if there is one and none holds the separator.
pub split-join :
    (sep : ℕ) (p : Bytes) (ps : List Bytes)
    → All (Lacks sep) (p ∷ ps)
    → split sep (join sep (p ∷ ps)) ≡ p ∷ ps
unfolding join
split-join sep p [] (h, _) = split_last sep p h
split-join sep p (q ∷ ps) (h, hs) =
    split_front sep p (join sep (q ∷ ps)) h ∙ ap (λ t. p ∷ t) (split-join sep q ps hs)

on_head-Lacks :
    (sep b : ℕ) (ps : List Bytes)
    → b ≢ sep
    → All (Lacks sep) ps
    → All (Lacks sep) (on_head (λ p. b ∷ p) ps)
on_head-Lacks sep b [] hb h = ((hb, tt), tt)
on_head-Lacks sep b (p ∷ ps) hb (hp, h) = ((hb, hp), h)

-- No part of a split holds the separator.
pub split-Lacks : (sep : ℕ) (s : Bytes) → All (Lacks sep) (split sep s)
unfolding split
split-Lacks sep [] = (tt, tt)
split-Lacks sep (b ∷ s) = elim (Bool-cases (b == sep)) [
  | inl same ↦ rw same (tt, split-Lacks sep s)
  | inr differ ↦
      rw differ (on_head-Lacks sep b (split sep s) (λ e. cc (==_refl b)) (split-Lacks sep s))
]

join-on_head : (sep b : ℕ) (ps : List Bytes) → join sep (on_head (λ p. b ∷ p) ps) ≡ b ∷ join sep ps
unfolding join
join-on_head sep b [] = refl
join-on_head sep b (p ∷ []) = refl
join-on_head sep b (p ∷ q ∷ ps) = refl

split-cons : (sep : ℕ) (s : Bytes) → (p : Bytes) × (ps : List Bytes) × (split sep s ≡ p ∷ ps)
unfolding split
split-cons sep [] = ([], [], refl)
split-cons sep (b ∷ s) = elim (Bool-cases (b == sep)) [
  | inl same ↦ ([], split sep s, rw same refl)
  | inr differ ↦ let (p, ps, e) = split-cons sep s in (b ∷ p, ps, rw (differ, e) refl)
]

-- Joining a split gives the text back.
pub join-split : (sep : ℕ) (s : Bytes) → join sep (split sep s) ≡ s
unfolding split join
join-split sep [] = refl
join-split sep (b ∷ s) = elim (Bool-cases (b == sep)) [
  | inl same ↦
      let (p, ps, e) = split-cons sep s in
      let b_eq : b ≡ sep = (nat_eq.same_iff b sep).0 same in
      let rest : join sep (p ∷ ps) ≡ s = ap (join sep) (sym e) ∙ join-split sep s in
      rw (same, e) (cc (b_eq, rest))
  | inr differ ↦ rw differ (join-on_head sep b (split sep s) ∙ ap (λ t. b ∷ t) (join-split sep s))
]
