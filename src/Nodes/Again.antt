-- ===== src/Nodes/Again.antt =====
-- A node that is merged a second time, or that another server has too.
use multiserver.Shared.{
  ℕ, ◌≡◌, ◌≢◌, refl, sym, ap, ◌∙◌, false, ◌&&◌, none, some, List, [], ◌∷◌, Bytes, nat_eq, bytes_eq,
  ◌==◌, ==_refl, ==_ne, lookup, insert, Bool-cases, Option-cases, arith, if◌then◌else◌, inl, inr,
  GoMap, All,
}
use multiserver.Nodes.{
  NodeDef, NodeDefs, name_of, defs_of, find_in, find_any, put_def, node_def_by_name, Merging,
  node_name, new_node, merge_node,
}
use multiserver.Nodes.Names.{
  def_at, made, def_at-merge_node, entry_cases, find_in_defs, find_any-merge_node, unused_name,
}

find_in-insert_other :
    (name : Bytes) (id : ℕ) (d : NodeDef) (m : List (ℕ × NodeDef))
    → ((e : NodeDef) → lookup id m ≡ some e → (e.name == name) ≡ false)
    → (d.name == name) ≡ false
    → find_in name (insert id d m) ≡ find_in name m
unfolding find_in insert name_of lookup
find_in-insert_other name id d [] h other = ground (arith, other)
find_in-insert_other name id d ((j, e) ∷ m) h other = elim (Bool-cases (j == id)) [
  | inl here ↦ let old = h e (ground (arith, here)) in rw (here, find_in, other, old) refl
  | inr there ↦
      let ih = find_in-insert_other name id d m (λ x at. h x (ground (arith, there, at))) other in
      rw (there, find_in) (ap (λ o. if e.name == name then some e else o) ih)
]

find_any-insert_same :
    (name srv : Bytes) (m' : GoMap ℕ NodeDef) (defs : NodeDefs)
    → find_in name m' ≡ find_in name (defs_of srv defs)
    → find_any name (insert srv m' defs) ≡ find_any name defs
unfolding find_any insert defs_of lookup find_in
find_any-insert_same name srv m' [] h = rw (find_any, h) refl
find_any-insert_same name srv m' ((t, m) ∷ defs) h = elim (Bool-cases (t == srv)) [
  | inl here ↦
      let same : find_in name m' ≡ find_in name m = ground (arith, here, h) in
      rw (here, find_any, same) refl
  | inr there ↦
      let rest : find_in name m' ≡ find_in name (defs_of srv defs) = ground (arith, there, h) in
      rw (there, find_any)
        (ap (λ r. elim (find_in name m) [ none ↦ r | some d ↦ some d ])
          (find_any-insert_same name srv m' defs rest))
]

merge_node-put_def :
    (srv : Bytes) (id : ℕ) (defb : Bytes) (st : Merging)
    → (merge_node srv id defb st).defs ≡ put_def srv id (made defb st) st.defs
unfolding merge_node new_node node_def_by_name made
merge_node-put_def srv id defb st = elim (Option-cases (find_any (node_name defb) st.defs)) [
  | inl missing ↦
      rw (missing, merge_node, made, find_in_defs (node_name defb) srv st.defs missing) refl
  | inr (d, found) ↦ rw (found, merge_node, made) refl
]

module _ (name srv : Bytes) (id : ℕ) (d : NodeDef) where
  -- `d` stands under the number `id` of the server, and is the only definition of the name.
  abbrev IsOnly : NodeDefs → Type 0
  IsOnly defs =
      (find_any name defs ≡ some d)
      × (def_at srv id defs ≡ some d)
      × ((s : Bytes) (k : ℕ) (e : NodeDef)
          → def_at s k defs ≡ some e
          → (s == srv && k == id) ≡ false
          → (e.name == name) ≡ false)

  -- A round for a node of another name, under another number or on another server.
  abbrev pub IsApart : Bytes × ℕ × Bytes → Type 0
  IsApart (s, i, defb) = ((node_name defb == name) ≡ false) × ((s == srv && i == id) ≡ false)

  made_other :
      (defb : Bytes) (st : Merging)
      → name ≢ []
      → (node_name defb == name) ≡ false
      → ((made defb st).name == name) ≡ false
  unfolding made
  made_other defb st named other = elim (Option-cases (find_any (node_name defb) st.defs)) [
    | inl missing ↦ rw (missing, made) other
    | inr (e, found) ↦ rw (found, made) (==_ne [] name (λ h. named (sym h)))
  ]

  merge_node-IsOnly :
      (s defb : Bytes) (i : ℕ) (st : Merging)
      → name ≢ []
      → IsApart (s, i, defb)
      → IsOnly st.defs
      → IsOnly (merge_node s i defb st).defs
  unfolding put_def
  merge_node-IsOnly s defb i st named (other, apart) (found, at, only) =
      let new = made_other defb st named other in
      let same : find_in name (insert i (made defb st) (defs_of s st.defs))
          ≡ find_in name (defs_of s st.defs) =
        find_in-insert_other name i (made defb st) (defs_of s st.defs) (λ e h. only s i e h apart)
          new in
      (
        ap (find_any name) (merge_node-put_def s i defb st)
            ∙ find_any-insert_same name s _ st.defs same
            ∙ found,
        def_at-merge_node srv s id i defb st ∙ rw apart at,
        λ t k e h away. elim (entry_cases t s k i defb st e h) [
          | inl (_, _, e_eq) ↦ ap (λ (x : NodeDef). x.name == name) (sym e_eq) ∙ new
          | inr old ↦ only t k e old away
        ],
      )

-- The rounds for nodes, one after another.
unfoldable pub merge_rounds : List (Bytes × ℕ × Bytes) → Merging → Merging
merge_rounds [] st = st
merge_rounds ((s, i, defb) ∷ rounds) st = merge_rounds rounds (merge_node s i defb st)

merge_rounds-IsOnly :
    (name srv : Bytes) (id : ℕ) (d : NodeDef) (rounds : List (Bytes × ℕ × Bytes)) (st : Merging)
    → name ≢ []
    → All (IsApart name srv id d) rounds
    → IsOnly name srv id d st.defs
    → IsOnly name srv id d (merge_rounds rounds st).defs
unfolding merge_rounds
merge_rounds-IsOnly name srv id d [] st named apart only = only
merge_rounds-IsOnly name srv id d ((s, i, defb) ∷ rounds) st named (away, apart) only =
    merge_rounds-IsOnly name srv id d rounds (merge_node s i defb st) named apart
      (merge_node-IsOnly name srv id d s defb i st named away only)

first-IsOnly :
    (srv : Bytes) (id : ℕ) (defb : Bytes) (st : Merging)
    → find_any (node_name defb) st.defs ≡ none
    → IsOnly
        (node_name defb)
        srv
        id
        (record { id = st.next_id; name = node_name defb; contents = defb })
        (merge_node srv id defb st).defs
unfolding made
first-IsOnly srv id defb st missing = (
  find_any-merge_node srv id defb st missing,
  def_at-merge_node srv srv id id defb st ∙ rw (==_refl srv, ==_refl id, made, missing) refl,
  λ s k e h away. elim (entry_cases s srv k id defb st e h) [
    | inl (s_eq, k_eq, _) ↦
        absurd (ground (arith, away, bytes_eq.same_iff s srv, nat_eq.same_iff k id, s_eq, k_eq))
    | inr old ↦ unused_name (node_name defb) s k st.defs e missing old
  ],
)

-- A node with a name, which no server had, gets the next number and keeps its definition through rounds
-- for nodes of other names that stand elsewhere. The next node of its name, on whatever server and under
-- whatever number of its own, leaves an alias there: the same number, and neither name nor data. Where that
-- is the place of the first one, as when the node is merged again, the definition is lost; else it stays.
pub merge_node_again :
    (srv t : Bytes) (id j : ℕ) (defb defb' : Bytes) (rounds : List (Bytes × ℕ × Bytes))
    (st : Merging)
    → find_any (node_name defb) st.defs ≡ none
    → node_name defb ≢ []
    → node_name defb' ≡ node_name defb
    → All
        (λ r. ((node_name r.2 == node_name defb) ≡ false) × ((r.0 == srv && r.1 == id) ≡ false))
        rounds
    → (def_at srv id (merge_rounds rounds (merge_node srv id defb st)).defs
        ≡ some (record { id = st.next_id; name = node_name defb; contents = defb }))
      × (def_at t j (merge_node t j defb' (merge_rounds rounds (merge_node srv id defb st))).defs
          ≡ some (record { id = st.next_id; name = []; contents = [] }))
      × (def_at srv id (merge_node t j defb' (merge_rounds rounds (merge_node srv id defb st))).defs
          ≡ (if t == srv && j == id
              then some (record { id = st.next_id; name = []; contents = [] })
              else some (record { id = st.next_id; name = node_name defb; contents = defb })))
unfolding made
merge_node_again srv t id j defb defb' rounds st missing named same apart =
    let d : NodeDef = record { id = st.next_id; name = node_name defb; contents = defb } in
    let st' = merge_rounds rounds (merge_node srv id defb st) in
    let (found, at, _) =
      merge_rounds-IsOnly (node_name defb) srv id d rounds (merge_node srv id defb st) named apart
        (first-IsOnly srv id defb st missing) in
    let alias : made defb' st' ≡ record { id = st.next_id; name = []; contents = [] } =
      rw (made, same, found) refl in
    (
      at,
      def_at-merge_node t t j j defb' st' ∙ rw (==_refl t, ==_refl j) (ap some alias),
      def_at-merge_node srv t id j defb' st' ∙ rw (alias, at) refl,
    )
