-- ===== src/Nodes/Managers.antt =====
-- `mergeNodedefs` as a whole: what a first merge leaves in `nodeDefs`.
use multiserver.Shared.{
  ℕ, ◌+◌, ◌^◌, ◌<◌, ◌≡◌, refl, sym, ap, ◌∙◌, Option, none, some, [], ◌⊎◌, ◌∷◌, Bytes, nat_eq,
  bytes_eq, lookup, insert, lookup-insert, Option-cases, arith, inl, inr, GoMap,
}
use multiserver.Wire.{new_reader, seek_start, seek_current, read_uint16}
use multiserver.Nodes.{
  NodeDef, NodeDefs, defs_of, Merging, merge_manager, ensure_server, merge_managers, merge_nodedefs,
}
use multiserver.Nodes.Numbers.{DefinedAt, Lasts, Numbered, merge_nodes-Lasts, merge_nodes-Numbered}

defs_of-insert :
    (s srv : Bytes) (defs : NodeDefs)
    → lookup srv defs ≡ none
    → defs_of s (insert srv [] defs) ≡ defs_of s defs
unfolding defs_of
defs_of-insert s srv defs missing =
    let none_yet : GoMap ℕ NodeDef = [] in
    ground (arith, lookup-insert s srv none_yet defs, missing, bytes_eq.same_iff srv s)

before :
    (s srv : Bytes) (k : ℕ) (d : NodeDef) (defs : NodeDefs)
    → lookup srv defs ≡ none
    → DefinedAt s k d (insert srv [] defs)
    → DefinedAt s k d defs
before s srv k d defs missing (at, named) =
    (sym (ap (λ m. lookup k m) (defs_of-insert s srv defs missing)) ∙ at, named)

ensure_server-Numbered :
    (srv : Bytes) (defs : NodeDefs) (next total : ℕ)
    → Numbered (record { defs = defs; next_id = next; total = total })
    → Numbered (record { defs = ensure_server srv defs; next_id = next; total = total })
unfolding ensure_server
ensure_server-Numbered srv defs next total inv = elim (Option-cases (lookup srv defs)) [
  | inl missing ↦
      rw (missing, ensure_server)
        (record {
          below = λ s k d h. inv.below s k d (before s srv k d defs missing h);
          distinct = λ s t k l d e h h'.
              inv.distinct s t k l d e (before s srv k d defs missing h)
                (before t srv l e defs missing h');
        })
  | inr (m, found) ↦ rw (found, ensure_server) inv
]

no_defs : (s : Bytes) (k : ℕ) (d : NodeDef) → DefinedAt s k d [] → ⊥
unfolding lookup defs_of
no_defs s k d (at, _) = cc at

-- `ReadUint16(r)` behind the version: how many nodes a manager says it has.
abbrev pub node_total : Bytes → ℕ
node_total mgr = (read_uint16 (seek_start 1 (new_reader mgr))).0

module _ (inflate : Bytes → Option (Bytes × Bytes)) where
  -- How many nodes the managers say they have, where they can be taken apart.
  unfoldable pub all_nodes : GoMap Bytes Bytes → ℕ
  all_nodes [] = 0
  all_nodes ((srv, compressed) ∷ mgrs) =
      let rest = all_nodes mgrs in
      elim (inflate compressed) [ none ↦ rest | some (mgr, behind) ↦ node_total mgr + rest ]

  module _ (deflate : Bytes → Bytes) where
    merge_managers-Numbered :
        (mgrs : GoMap Bytes Bytes) (st : Merging)
        → Lasts (all_nodes mgrs) st
        → Numbered st
        → Numbered (merge_managers inflate deflate mgrs st).1
    unfolding merge_managers all_nodes merge_manager
    merge_managers-Numbered [] st room inv = inv
    merge_managers-Numbered ((srv, compressed) ∷ mgrs) st room inv =
        let started : Merging = record st { defs = ensure_server srv st.defs } in
        let inv' : Numbered started = ensure_server-Numbered srv st.defs st.next_id st.total inv in
        elim (Option-cases (inflate compressed)) [
          | inl broken ↦ rw (broken, merge_managers) inv'
          | inr ((mgr, behind), inflated) ↦
              let r = seek_current 4 (read_uint16 (seek_start 1 (new_reader mgr))).1 in
              let n = node_total mgr in
              let total : all_nodes ((srv, compressed) ∷ mgrs) ≡ n + all_nodes mgrs =
                rw (inflated, all_nodes) refl in
              let room' : Lasts (n + all_nodes mgrs) st = omega arith in
              rw (inflated, merge_managers)
                (merge_managers-Numbered mgrs (merge_manager srv mgr started)
                  (merge_nodes-Lasts n (all_nodes mgrs) srv r started room')
                  (merge_nodes-Numbered n srv r started (omega arith) inv'))
        ]

    -- After a first merge of managers that together name fewer than 65533 nodes, no two entries that
    -- hold a definition (and are no alias of another) have the same number or the same name, whichever
    -- servers they are on and whether the merge failed on the way.
    pub merge_nodedefs_distinct :
        (mgrs : GoMap Bytes Bytes) (s t : Bytes) (k l : ℕ) (d e : NodeDef)
        → all_nodes mgrs + 3 < 2 ^ 16
        → DefinedAt s k d
            (merge_nodedefs inflate deflate mgrs (record { defs = []; nodedef = [] })).1.defs
        → DefinedAt t l e
            (merge_nodedefs inflate deflate mgrs (record { defs = []; nodedef = [] })).1.defs
        → (d.id ≡ e.id) ⊎ (d.name ≡ e.name)
        → (s ≡ t) × (k ≡ l)
    unfolding merge_nodedefs
    merge_nodedefs_distinct mgrs s t k l d e room hd he clash =
        let start : Merging = record { defs = []; next_id = 0; total = 0 } in
        let inv : Numbered start = record {
          below = λ s k d h. absurd (no_defs s k d h);
          distinct = λ s t k l d e h h' clash. absurd (no_defs s k d h);
        } in
        (merge_managers-Numbered mgrs start (omega arith) inv).distinct s t k l d e hd he clash
