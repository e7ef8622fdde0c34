-- ===== src/Text.antt =====
-- Package strings on byte strings: what the program uses of `Split`, `Join`, `HasPrefix`.
pub mod Laws
pub mod Base64
use multiserver.Shared.{
  ℕ, zero, suc, Bool, true, false, List, [], ◌∷◌, ◌++◌, Bytes, ◌==◌, nat_eq, ◌&&◌, if◌then◌else◌,
}

-- `strings.Split(s, sep)` for a separator of one byte; there is always a part.
abbrev pub on_head : (Bytes → Bytes) → List Bytes → List Bytes
on_head f [] = f [] ∷ []
on_head f (p ∷ ps) = f p ∷ ps

unfoldable pub split : ℕ → Bytes → List Bytes
split sep [] = [] ∷ []
split sep (b ∷ s) =
    let parts = split sep s in if b == sep then [] ∷ parts else on_head (λ p. b ∷ p) parts

-- `strings.Join(parts, sep)`
unfoldable pub join : ℕ → List Bytes → Bytes
join sep [] = []
join sep (p ∷ []) = p
join sep (p ∷ q ∷ ps) = p ++ sep ∷ join sep (q ∷ ps)

-- `strings.HasPrefix(s, prefix)`
unfoldable pub has_prefix : Bytes → Bytes → Bool
has_prefix s [] = true
has_prefix [] (p ∷ ps) = false
has_prefix (b ∷ s) (p ∷ ps) = b == p && has_prefix s ps
