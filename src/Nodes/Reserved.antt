-- ===== src/Nodes/Reserved.antt =====
-- The numbers that `mergeNodedefs` gives out, and the three that it keeps for unknown, air and ignore.
use multiserver.Shared.{
  ℕ, zero, suc, ◌^◌, ◌<◌, ◌≡◌, refl, false, Option, some, [], ◌∷◌, Bytes, nat_eq, bytes_eq, Eq,
  ◌==◌, All, GoMap, lookup, insert, Bool-cases, Option-cases, arith, inl, inr,
}
use mathlib.Core.Path.{subst}
use multiserver.Wire.{Reader, new_reader, seek_start, seek_current, read_uint16}
use multiserver.Nodes.{
  NodeDef, NodeDefs, defs_of, find_in, find_any, put_def, node_def_by_name, Merging, following,
  node_name, new_node, merge_node, merge_nodes, merge_manager, ensure_server, merge_managers,
  Published, merge_nodedefs,
}
use multiserver.Nodes.Blocks.{is_reserved}

-- A `uint16` that is not reserved.
abbrev pub IsOpen : ℕ → Type 0
IsOpen n = (n < 2 ^ 16) × (is_reserved n ≡ false)

module _ {ℓ κ} {K : Type ℓ} {V : Type κ} ⦃e : Eq K⦄ (P : V → Type 0) where
  -- `P` holds of every value of the map.
  abbrev pub EveryValue : GoMap K V → Type 0
  EveryValue m = All (λ (entry : K × V). P entry.1) m

  pub insert-EveryValue :
      (k : K) (v : V) (m : GoMap K V) → P v → EveryValue m → EveryValue (insert k v m)
  unfolding insert
  insert-EveryValue k v [] hv h = (hv, tt)
  insert-EveryValue k v ((j, w) ∷ m) hv (hw, h) = elim (Bool-cases (j == k)) [
    | inl same ↦ rw same (hv, h)
    | inr differ ↦ rw differ (hw, insert-EveryValue k v m hv h)
  ]

  pub lookup-EveryValue : (k : K) (m : GoMap K V) (v : V) → EveryValue m → lookup k m ≡ some v → P v
  unfolding lookup
  lookup-EveryValue k [] v h found = absurd (cc)
  lookup-EveryValue k ((j, w) ∷ m) v (hw, h) found = elim (Bool-cases (j == k)) [
    | inl same ↦ subst P (ground (arith, same)) hw
    | inr differ ↦ lookup-EveryValue k m v h (cc (differ, found))
  ]

abbrev pub OpenDef : NodeDef → Type 0
OpenDef d = IsOpen d.id

abbrev pub OpenDefs : NodeDefs → Type 0
OpenDefs defs = EveryValue (EveryValue OpenDef) defs

following-IsOpen : (n : ℕ) → IsOpen n → IsOpen (following n)
unfolding following is_reserved
following-IsOpen n (bound, free) = ground arith

defs_of-OpenDefs :
    (srv : Bytes) (defs : NodeDefs) → OpenDefs defs → EveryValue OpenDef (defs_of srv defs)
unfolding defs_of
defs_of-OpenDefs srv defs h = elim (Option-cases (lookup srv defs)) [
  | inl missing ↦ rw (missing, defs_of) tt
  | inr (m, found) ↦ rw (found, defs_of) (lookup-EveryValue (EveryValue OpenDef) srv defs m h found)
]

find_in-OpenDef :
    (name : Bytes) (m : GoMap ℕ NodeDef) (d : NodeDef)
    → EveryValue OpenDef m
    → find_in name m ≡ some d
    → OpenDef d
unfolding find_in
find_in-OpenDef name [] d h found = absurd (cc)
find_in-OpenDef name ((k, e) ∷ m) d (he, h) found = elim (Bool-cases (e.name == name)) [
  | inl here ↦ ground (arith, here, he)
  | inr other ↦ find_in-OpenDef name m d h (ground (arith, other))
]

find_any-OpenDef :
    (name : Bytes) (defs : NodeDefs) (d : NodeDef)
    → OpenDefs defs
    → find_any name defs ≡ some d
    → OpenDef d
unfolding find_any
find_any-OpenDef name [] d h found = absurd (cc)
find_any-OpenDef name ((srv, m) ∷ defs) d (hm, h) found = elim (Option-cases (find_in name m)) [
  | inl missing ↦ find_any-OpenDef name defs d h (ground (arith, missing))
  | inr (e, here) ↦ find_in-OpenDef name m d hm (ground (arith, here))
]

put_def-OpenDefs :
    (srv : Bytes) (id : ℕ) (d : NodeDef) (defs : NodeDefs)
    → OpenDef d
    → OpenDefs defs
    → OpenDefs (put_def srv id d defs)
unfolding put_def
put_def-OpenDefs srv id d defs hd h =
    insert-EveryValue (EveryValue OpenDef) srv (insert id d (defs_of srv defs)) defs
      (insert-EveryValue OpenDef id d (defs_of srv defs) hd (defs_of-OpenDefs srv defs h)) h

-- What the loops keep: every number given out, and the next one, is open.
abbrev pub OpenState : Merging → Type 0
OpenState st = OpenDefs st.defs × IsOpen st.next_id

new_node-OpenState :
    (srv : Bytes) (id : ℕ) (name defb : Bytes) (st : Merging)
    → OpenState st
    → OpenState (new_node srv id name defb st)
unfolding new_node
new_node-OpenState srv id name defb st (h, hn) =
    elim (Option-cases (node_def_by_name srv name st.defs)) [
      | inl missing ↦
          rw (missing, new_node)
            (put_def-OpenDefs srv id _ st.defs hn h, following-IsOpen st.next_id hn)
      | inr (d, found) ↦
          rw (found, new_node)
            (
              put_def-OpenDefs srv id _ _ hn (
                  put_def-OpenDefs srv id _ st.defs
                    (unfold node_def_by_name in
                      find_in-OpenDef name (defs_of srv st.defs) d (defs_of-OpenDefs srv st.defs h)
                        found)
                    h),
              following-IsOpen st.next_id hn,
            )
    ]

merge_node-OpenState :
    (srv : Bytes) (id : ℕ) (defb : Bytes) (st : Merging)
    → OpenState st
    → OpenState (merge_node srv id defb st)
unfolding merge_node
merge_node-OpenState srv id defb st (h, hn) =
    elim (Option-cases (find_any (node_name defb) st.defs)) [
      | inl missing ↦
          rw (missing, merge_node) (new_node-OpenState srv id (node_name defb) defb st (h, hn))
      | inr (d, found) ↦
          rw (found, merge_node)
            (
              put_def-OpenDefs srv id (record { id = d.id; name = []; contents = [] }) st.defs
                  (find_any-OpenDef (node_name defb) st.defs d h found) h,
              hn,
            )
    ]

merge_nodes-OpenState :
    (n : ℕ) (srv : Bytes) (r : Reader) (st : Merging)
    → OpenState st
    → OpenState (merge_nodes n srv r st)
unfolding merge_nodes
merge_nodes-OpenState zero srv r st h = h
merge_nodes-OpenState (suc n) srv r st h =
    merge_nodes-OpenState n srv _ (merge_node srv _ _ st) (merge_node-OpenState srv _ _ st h)

merge_manager-OpenState :
    (srv mgr : Bytes) (st : Merging) → OpenState st → OpenState (merge_manager srv mgr st)
unfolding merge_manager
merge_manager-OpenState srv mgr st h =
    let (count, r) = read_uint16 (seek_start 1 (new_reader mgr)) in
    merge_nodes-OpenState count srv (seek_current 4 r) st h

ensure_server-OpenDefs :
    (srv : Bytes) (defs : NodeDefs) → OpenDefs defs → OpenDefs (ensure_server srv defs)
unfolding ensure_server
ensure_server-OpenDefs srv defs h = elim (Option-cases (lookup srv defs)) [
  | inl missing ↦
      rw (missing, ensure_server) (insert-EveryValue (EveryValue OpenDef) srv [] defs tt h)
  | inr (m, found) ↦ rw (found, ensure_server) h
]

module _ (inflate : Bytes → Option (Bytes × Bytes)) (deflate : Bytes → Bytes) where
  merge_managers-OpenState :
      (mgrs : GoMap Bytes Bytes) (st : Merging)
      → OpenState st
      → OpenState (merge_managers inflate deflate mgrs st).1
  unfolding merge_managers
  merge_managers-OpenState [] st h = h
  merge_managers-OpenState ((srv, compressed) ∷ mgrs) st (h, hn) =
      let started : Merging = record st { defs = ensure_server srv st.defs } in
      let hs : OpenState started = (ensure_server-OpenDefs srv st.defs h, hn) in
      elim (Option-cases (inflate compressed)) [
        | inl broken ↦ rw (broken, merge_managers) hs
        | inr ((mgr, behind), inflated) ↦
            rw (inflated, merge_managers)
              (merge_managers-OpenState mgrs (merge_manager srv mgr started)
                (merge_manager-OpenState srv mgr started hs))
      ]

  -- A merge keeps every number in `nodeDefs` a `uint16` that is not one of the three reserved ones,
  -- 125, 126 and 127, whatever the managers hold and whether it fails on the way.
  pub merge_nodedefs-OpenDefs :
      (mgrs : GoMap Bytes Bytes) (p : Published)
      → OpenDefs p.defs
      → OpenDefs (merge_nodedefs inflate deflate mgrs p).1.defs
  unfolding merge_nodedefs
  merge_nodedefs-OpenDefs mgrs p h =
      (merge_managers-OpenState mgrs (record { defs = p.defs; next_id = 0; total = 0 })
        (h, (omega arith, unfold is_reserved in refl))).0
