-- ===== src/Nodes/Names.antt =====
-- The numbers of nodes and their names, as `mergeNodedefs` goes over the nodes of the servers.
use mathlib.Core.Path.{subst}
use multiserver.Shared.{
  ℕ, ◌≡◌, refl, sym, ap, ◌∙◌, true, false, ◌&&◌, Option, none, some, List, [], ◌⊎◌, ◌∷◌, Bytes,
  nat_eq, bytes_eq, ◌==◌, ==_refl, lookup, insert, lookup-insert, Bool-cases, Option-cases, arith,
  if◌then◌else◌, inl, inr, GoMap,
}
use multiserver.Nodes.{
  NodeDef, NodeDefs, name_of, defs_of, find_in, find_any, put_def, node_def_by_name, Merging,
  node_name, new_node, merge_node,
}

-- `nodeDefs[s][k]`
abbrev pub def_at : Bytes → ℕ → NodeDefs → Option NodeDef
def_at s k defs = lookup k (defs_of s defs)

defs_of-put_def :
    (s srv : Bytes) (id : ℕ) (d : NodeDef) (defs : NodeDefs)
    → defs_of s (put_def srv id d defs)
      ≡ (if srv == s then insert id d (defs_of srv defs) else defs_of s defs)
unfolding put_def defs_of
defs_of-put_def s srv id d defs =
    ground (arith, lookup-insert s srv (insert id d (defs_of srv defs)) defs)

def_at-put_def :
    (s srv : Bytes) (k id : ℕ) (d : NodeDef) (defs : NodeDefs)
    → def_at s k (put_def srv id d defs) ≡ (if srv == s && id == k then some d else def_at s k defs)
def_at-put_def s srv k id d defs = elim (Bool-cases (srv == s)) [
  | inl same ↦
      rw (defs_of-put_def s srv id d defs, same, lookup-insert k id d (defs_of srv defs))
        (ap (λ t. if id == k then some d else lookup k (defs_of t defs))
          ((bytes_eq.same_iff srv s).0 same))
  | inr other ↦ rw (defs_of-put_def s srv id d defs, other) refl
]

pub find_in_defs :
    (name s : Bytes) (defs : NodeDefs)
    → find_any name defs ≡ none
    → find_in name (defs_of s defs) ≡ none
unfolding find_any defs_of lookup find_in
find_in_defs name s [] h = refl
find_in_defs name s ((t, m) ∷ defs) h = elim (Option-cases (find_in name m)) [
  | inl missing ↦ elim (Bool-cases (t == s)) [
    | inl same ↦ ground (arith, same, missing, h)
    | inr other ↦ ground (arith, other, missing, find_in_defs name s defs, h)
  ]
  | inr (d, found) ↦ absurd (ground (arith, found, h))
]

find_in-lookup :
    (name : Bytes) (k : ℕ) (m : List (ℕ × NodeDef)) (d : NodeDef)
    → find_in name m ≡ none
    → lookup k m ≡ some d
    → (d.name == name) ≡ false
unfolding find_in lookup name_of
find_in-lookup name k [] d h at = absurd (cc)
find_in-lookup name k ((j, e) ∷ m) d h at = elim (Bool-cases (e.name == name)) [
  | inl same ↦ absurd (ground (arith, same, h))
  | inr other ↦ elim (Bool-cases (j == k)) [
    | inl here ↦
        let same : e ≡ d = ground (arith, here, at) in
        subst (λ (x : NodeDef). (x.name == name) ≡ false) same other
    | inr there ↦ find_in-lookup name k m d (ground (arith, other, h)) (ground (arith, there, at))
  ]
]

-- A name that no server has is not that of any definition.
pub unused_name :
    (name s : Bytes) (k : ℕ) (defs : NodeDefs) (d : NodeDef)
    → find_any name defs ≡ none
    → def_at s k defs ≡ some d
    → (d.name == name) ≡ false
unused_name name s k defs d h at =
    find_in-lookup name k (defs_of s defs) d (find_in_defs name s defs h) at

-- The definition that a round makes.
unfoldable pub made : Bytes → Merging → NodeDef
made defb st = elim (find_any (node_name defb) st.defs) [
  | none ↦ record { id = st.next_id; name = node_name defb; contents = defb }
  | some d ↦ record { id = d.id; name = []; contents = [] }
]

-- What one round leaves under each number of each server.
pub def_at-merge_node :
    (s srv : Bytes) (k id : ℕ) (defb : Bytes) (st : Merging)
    → def_at s k (merge_node srv id defb st).defs
      ≡ (if srv == s && id == k then some (made defb st) else def_at s k st.defs)
unfolding merge_node new_node node_def_by_name made
def_at-merge_node s srv k id defb st = elim (Option-cases (find_any (node_name defb) st.defs)) [
  | inl missing ↦
      rw (missing, merge_node, made, find_in_defs (node_name defb) srv st.defs missing)
        (def_at-put_def s srv k id _ st.defs)
  | inr (d, found) ↦
      rw (found, merge_node, made)
        (def_at-put_def s srv k id (record { id = d.id; name = []; contents = [] }) st.defs)
]

pub entry_cases :
    (s srv : Bytes) (k id : ℕ) (defb : Bytes) (st : Merging) (d : NodeDef)
    → def_at s k (merge_node srv id defb st).defs ≡ some d
    → ((srv ≡ s) × (id ≡ k) × (made defb st ≡ d)) ⊎ (def_at s k st.defs ≡ some d)
entry_cases s srv k id defb st d h =
    let e = sym (def_at-merge_node s srv k id defb st) ∙ h in
    ground (arith, e, bytes_eq.same_iff srv s, nat_eq.same_iff id k)

find_in-insert :
    (name : Bytes) (id : ℕ) (d : NodeDef) (m : List (ℕ × NodeDef))
    → find_in name m ≡ none
    → (d.name == name) ≡ true
    → find_in name (insert id d m) ≡ some d
unfolding find_in insert name_of
find_in-insert name id d [] h named = ground (arith, named)
find_in-insert name id d ((j, e) ∷ m) h named = elim (Bool-cases (e.name == name)) [
  | inl same ↦ absurd (ground (arith, same, h))
  | inr other ↦ elim (Bool-cases (j == id)) [
    | inl here ↦ rw (here, named) refl
    | inr there ↦ rw (there, other) (find_in-insert name id d m (ground (arith, other, h)) named)
  ]
]

find_any-insert :
    (name srv : Bytes) (d : NodeDef) (m' : GoMap ℕ NodeDef) (defs : NodeDefs)
    → find_any name defs ≡ none
    → find_in name m' ≡ some d
    → find_any name (insert srv m' defs) ≡ some d
unfolding find_any insert
find_any-insert name srv d m' [] h found = rw (found, find_any) refl
find_any-insert name srv d m' ((t, m) ∷ defs) h found = elim (Option-cases (find_in name m)) [
  | inl missing ↦ elim (Bool-cases (t == srv)) [
    | inl here ↦ rw (here, found, find_any) refl
    | inr there ↦
        rw (there, missing, find_any)
          (find_any-insert name srv d m' defs (ground (arith, missing, h)) found)
  ]
  | inr (e, here) ↦ absurd (ground (arith, here, h))
]

pub find_any-merge_node :
    (srv : Bytes) (id : ℕ) (defb : Bytes) (st : Merging)
    → find_any (node_name defb) st.defs ≡ none
    → find_any (node_name defb) (merge_node srv id defb st).defs
      ≡ some (record { id = st.next_id; name = node_name defb; contents = defb })
unfolding merge_node new_node node_def_by_name put_def
find_any-merge_node srv id defb st missing =
    let own = find_in_defs (node_name defb) srv st.defs missing in
    rw (missing, merge_node, own)
      (find_any-insert (node_name defb) srv _ _ st.defs missing
        (find_in-insert (node_name defb) id _ (defs_of srv st.defs) own (==_refl (node_name defb))))
