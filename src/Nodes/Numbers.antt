-- ===== src/Nodes/Numbers.antt =====
-- The numbers that `mergeNodedefs` gives out are the nodes', one to one, while they last.
use multiserver.Shared.{
  ℕ, zero, suc, ◌+◌, ◌^◌, ◌<◌, ◌≤◌, ◌≡◌, ◌≢◌, refl, sym, ap, ◌∙◌, false, none, some, [], ◌⊎◌, Bytes,
  nat_eq, bytes_eq, ltb, ◌==◌, Option-cases, arith, if◌then◌else◌, inl, inr,
}
use multiserver.Wire.{Reader, read_uint16, read_bytes16}
use multiserver.Nodes.{
  NodeDef, NodeDefs, find_any, Merging, following, node_name, new_node, merge_node, merge_nodes,
}
use multiserver.Nodes.Names.{def_at, made, entry_cases, unused_name}

-- The entry is a definition, one that is no alias of another server's.
abbrev pub DefinedAt : Bytes → ℕ → NodeDef → NodeDefs → Type 0
DefinedAt s k d defs = (def_at s k defs ≡ some d) × ((d.name == []) ≡ false)

-- What the loops keep while the numbers last: a definition's number has been given out, and no
-- other entry has its number or its name.
pub record Numbered (st : Merging) : Type 0 where
  pub below : (s : Bytes) (k : ℕ) (d : NodeDef) → DefinedAt s k d st.defs → d.id < st.next_id
  pub distinct :
      (s t : Bytes) (k l : ℕ) (d e : NodeDef)
      → DefinedAt s k d st.defs
      → DefinedAt t l e st.defs
      → (d.id ≡ e.id) ⊎ (d.name ≡ e.name)
      → (s ≡ t) × (k ≡ l)

-- What holds of the definition that a round makes.
made_cases :
    (defb : Bytes) (st : Merging)
    → ((made defb st).name ≡ [])
      ⊎ ((find_any (node_name defb) st.defs ≡ none)
          × ((made defb st).name ≡ node_name defb)
          × ((made defb st).id ≡ st.next_id))
unfolding made
made_cases defb st = elim (Option-cases (find_any (node_name defb) st.defs)) [
  | inl missing ↦ inr (missing, rw (missing, made) refl, rw (missing, made) refl)
  | inr (d, found) ↦ inl (rw (found, made) refl)
]

-- There are numbers for `n` more nodes.
abbrev pub Lasts : ℕ → Merging → Type 0
Lasts n st = (if ltb st.next_id 125 then st.next_id + 3 else st.next_id) + n < 2 ^ 16

merge_node-Lasts :
    (n id : ℕ) (srv defb : Bytes) (st : Merging)
    → Lasts (suc n) st
    → Lasts n (merge_node srv id defb st)
unfolding merge_node new_node following
merge_node-Lasts n id srv defb st h = elim (Option-cases (find_any (node_name defb) st.defs)) [
  | inl missing ↦ rw (missing, merge_node) (ground arith)
  | inr (d, found) ↦ rw (found, merge_node) (ground arith)
]

-- The next number grows, past the one that a definition gets.
merge_node-next_id :
    (n id : ℕ) (srv defb : Bytes) (st : Merging)
    → Lasts (suc n) st
    → (st.next_id ≤ (merge_node srv id defb st).next_id)
      × ((find_any (node_name defb) st.defs ≡ none)
          → st.next_id < (merge_node srv id defb st).next_id)
unfolding merge_node new_node following
merge_node-next_id n id srv defb st h = elim (Option-cases (find_any (node_name defb) st.defs)) [
  | inl missing ↦ rw (missing, merge_node) (ground arith)
  | inr (d, found) ↦ rw (found, merge_node) (omega arith, λ missing. absurd (cc (missing, found)))
]

named_made :
    (defb : Bytes) (st : Merging) (d : NodeDef)
    → made defb st ≡ d
    → (d.name == []) ≡ false
    → (find_any (node_name defb) st.defs ≡ none) × (d.name ≡ node_name defb) × (d.id ≡ st.next_id)
named_made defb st d e named =
    let name_at : (made defb st).name ≡ d.name = ap (λ (x : NodeDef). x.name) e in
    let id_at : (made defb st).id ≡ d.id = ap (λ (x : NodeDef). x.id) e in
    elim (made_cases defb st) [
      | inl alias ↦
          let unnamed = (bytes_eq.same_iff d.name []).1 (sym name_at ∙ alias) in
          absurd (cc (named, unnamed))
      | inr (missing, name_eq, id_eq) ↦ (missing, sym name_at ∙ name_eq, sym id_at ∙ id_eq)
    ]

-- A definition that a round makes shares its number and its name with no earlier one.
made_apart :
    (defb : Bytes) (st : Merging) (t : Bytes) (l : ℕ) (d e : NodeDef)
    → Numbered st
    → made defb st ≡ d
    → (d.name == []) ≡ false
    → DefinedAt t l e st.defs
    → (d.id ≢ e.id) × (d.name ≢ e.name)
made_apart defb st t l d e inv made_eq named at =
    let (missing, name_eq, id_eq) = named_made defb st d made_eq named in
    let older = inv.below t l e at in
    let unused = unused_name (node_name defb) t l st.defs e missing at.0 in
    let same = (bytes_eq.same_iff e.name (node_name defb)).1 in
    (λ h. omega arith, λ h. let clash = same (sym h ∙ name_eq) in cc (clash, unused))

module _ (n id : ℕ) (srv defb : Bytes) (st : Merging) (room : Lasts (suc n) st)
    (inv : Numbered st) where
  merge_node_below :
      (s : Bytes) (k : ℕ) (d : NodeDef)
      → DefinedAt s k d (merge_node srv id defb st).defs
      → d.id < (merge_node srv id defb st).next_id
  merge_node_below s k d (at, named) =
      let (mono, grown) = merge_node-next_id n id srv defb st room in
      elim (entry_cases s srv k id defb st d at) [
        | inr old ↦ let older = inv.below s k d (old, named) in omega arith
        | inl (_, _, e) ↦
            let (missing, _, id_eq) = named_made defb st d e named in
            let grows = grown missing in omega arith
      ]

  merge_node_distinct :
      (s t : Bytes) (k l : ℕ) (d e : NodeDef)
      → DefinedAt s k d (merge_node srv id defb st).defs
      → DefinedAt t l e (merge_node srv id defb st).defs
      → (d.id ≡ e.id) ⊎ (d.name ≡ e.name)
      → (s ≡ t) × (k ≡ l)
  merge_node_distinct s t k l d e (at, named) (at', named') clash =
      elim (entry_cases s srv k id defb st d at) [
        | inl (srv_s, id_k, new) ↦ elim (entry_cases t srv l id defb st e at') [
          | inl (srv_t, id_l, _) ↦ (sym srv_s ∙ srv_t, sym id_k ∙ id_l)
          | inr old ↦
              let (no_id, no_name) = made_apart defb st t l d e inv new named (old, named') in
              absurd (elim clash [ inl h ↦ no_id h | inr h ↦ no_name h ])
        ]
        | inr old ↦ elim (entry_cases t srv l id defb st e at') [
          | inl (_, _, new) ↦
              let (no_id, no_name) = made_apart defb st s k e d inv new named' (old, named) in
              absurd (elim clash [ inl h ↦ no_id (sym h) | inr h ↦ no_name (sym h) ])
          | inr old' ↦ inv.distinct s t k l d e (old, named) (old', named') clash
        ]
      ]

  merge_node-Numbered : Numbered (merge_node srv id defb st)
  merge_node-Numbered = record { below = merge_node_below; distinct = merge_node_distinct }

pub merge_nodes-Numbered :
    (n : ℕ) (srv : Bytes) (r : Reader) (st : Merging)
    → Lasts n st
    → Numbered st
    → Numbered (merge_nodes n srv r st)
unfolding merge_nodes
merge_nodes-Numbered zero srv r st room inv = inv
merge_nodes-Numbered (suc n) srv r st room inv =
    let (id, r1) = read_uint16 r in
    let (defb, r2) = read_bytes16 r1 in
    merge_nodes-Numbered n srv r2 (merge_node srv id defb st)
      (merge_node-Lasts n id srv defb st room) (merge_node-Numbered n id srv defb st room inv)

pub merge_nodes-Lasts :
    (n m : ℕ) (srv : Bytes) (r : Reader) (st : Merging)
    → Lasts (n + m) st
    → Lasts m (merge_nodes n srv r st)
unfolding merge_nodes
merge_nodes-Lasts zero m srv r st room = omega arith
merge_nodes-Lasts (suc n) m srv r st room =
    let (id, r1) = read_uint16 r in
    let (defb, r2) = read_bytes16 r1 in
    merge_nodes-Lasts n m srv r2 (merge_node srv id defb st)
      (merge_node-Lasts (n + m) id srv defb st (omega arith))
