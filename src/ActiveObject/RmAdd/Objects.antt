-- ===== src/ActiveObject/RmAdd/Objects.antt =====
-- `processAoRmAdd` on packets described by the objects that they remove and add.
use multiserver.Shared.{
  ℕ, ◌^◌, ◌<◌, ◌≡◌, refl, sym, ap, ◌∙◌, List, [], ◌∷◌, ◌++◌, map, Bytes, nat_eq, bytes_eq, length,
  All, append_assoc, append-nil,
}
use multiserver.Shared.Run.{>>=-ap, Run, returns, ◌>>=◌}
use multiserver.Wire.{Reader, unread, put_uint16, put_uint32, read_uint8, read_uint16, write_uint16}
use multiserver.Wire.Fields.{read_number8, read_number16, read_bytes32-front}
use multiserver.Conn.{Conn}
use multiserver.ActiveObject.RmAdd.{
  forward_id, rm_loop, Adding, Object, add_object, add_loop, process_ao_rm_add, finish_adding,
}

unfoldable pub encode_ids : List ℕ → Bytes
encode_ids [] = []
encode_ids (id ∷ ids) = put_uint16 id ++ encode_ids ids

pub record Fits (o : Object) : Type 0 where
  pub id_fits : o.id < 2 ^ 16
  pub init_fits : length o.init_data < 2 ^ 32

unfoldable pub encode_object : Object → Bytes
encode_object o = put_uint16 o.id ++ (o.obj_type ∷ (put_uint32 (length o.init_data) ++ o.init_data))

unfoldable pub encode_objects : List Object → Bytes
encode_objects [] = []
encode_objects (o ∷ os) = encode_object o ++ encode_objects os

-- The packet that removes `ids` and adds `os`.
unfoldable pub encode_rm_add : List ℕ → List Object → Bytes
encode_rm_add ids os =
    put_uint16 (length ids) ++ (encode_ids ids ++ (put_uint16 (length os) ++ encode_objects os))

rm_loop-encode_ids :
    (ids : List ℕ) (c : Conn) (r : Reader) (w : Bytes) (ao_rm : List ℕ) (rest : Bytes)
    → All (λ id. id < 2 ^ 16) ids
    → unread r ≡ encode_ids ids ++ rest
    → ((rm_loop (length ids) c r w ao_rm).0 ≡ w ++ encode_ids (map (forward_id c) ids))
      × ((rm_loop (length ids) c r w ao_rm).1 ≡ ao_rm ++ map (forward_id c) ids)
      × (unread (rm_loop (length ids) c r w ao_rm).2 ≡ rest)
unfolding rm_loop encode_ids write_uint16
rm_loop-encode_ids [] c r w ao_rm rest h e = (sym (append-nil w), sym (append-nil ao_rm), e)
rm_loop-encode_ids (id ∷ ids) c r w ao_rm rest (fits, h) e =
    let (id_eq, left) = read_number16 r id (encode_ids ids ++ rest) fits e in
    let id' = forward_id c (read_uint16 r).0 in
    let (w_eq, rm_eq, behind) =
      rm_loop-encode_ids ids c (read_uint16 r).1 (w ++ put_uint16 id') (ao_rm ++ id' ∷ []) rest h
        left in
    (
      w_eq
          ∙ append_assoc w _ _
          ∙ ap (λ k. w ++ (put_uint16 (forward_id c k) ++ encode_ids (map (forward_id c) ids)))
              id_eq,
      rm_eq
          ∙ append_assoc ao_rm _ _
          ∙ ap (λ k. ao_rm ++ (forward_id c k ∷ map (forward_id c) ids)) id_eq,
      behind,
    )

module _ (capacity : ℕ → ℕ) (count_rm count_add : ℕ) where
  -- The rounds of the loop over the added objects.
  unfoldable pub add_objects : Adding → List Object → Run Adding
  add_objects st [] = returns st
  add_objects st (o ∷ os) =
      add_object capacity count_rm count_add st o >>= λ st'. add_objects st' os

  add_loop-encode_objects :
      (os : List Object) (st : Adding) (r : Reader) (rest : Bytes)
      → All Fits os
      → unread r ≡ encode_objects os ++ rest
      → add_loop capacity (length os) count_rm count_add st r ≡ add_objects st os
  unfolding add_loop encode_objects encode_object add_objects
  add_loop-encode_objects [] st r rest h e = refl
  add_loop-encode_objects (o ∷ os) st r rest (fits, h) e =
      let behind : Bytes = encode_objects os ++ rest in
      let spread =
        e
        ∙ ap (λ t. put_uint16 o.id ++ (o.obj_type ∷ (put_uint32 (length o.init_data) ++ t)))
            (append_assoc o.init_data (encode_objects os) rest) in
      let (id_eq, left) =
        read_number16 r o.id
          (o.obj_type ∷ (put_uint32 (length o.init_data) ++ (o.init_data ++ behind))) fits.id_fits
          spread in
      let (type_eq, left') =
        read_number8 (read_uint16 r).1 o.obj_type
          (put_uint32 (length o.init_data) ++ (o.init_data ++ behind)) left in
      let (init_eq, left'') =
        read_bytes32-front (read_uint8 (read_uint16 r).1).1 o.init_data behind fits.init_fits
          left' in
      rw (id_eq, type_eq, init_eq)
        (>>=-ap (add_object capacity count_rm count_add st o) _ _
          (λ st'. add_loop-encode_objects os st' _ rest h left''))

-- What `processAoRmAdd` starts its loop over the added objects with.
abbrev pub start_adding : Conn → List ℕ → List Object → Adding
start_adding c ids os = record {
  conn = c;
  out = put_uint16 (length ids) ++ (encode_ids (map (forward_id c) ids) ++ put_uint16 (length os));
  ao_add = [];
  sent = [];
}

-- On a packet that removes `ids` and adds `os`.
module _ (capacity : ℕ → ℕ) (c : Conn) (ids : List ℕ) (os : List Object) where
  pub process_ao_rm_add-encode_rm_add :
      (rest : Bytes) (r : Reader)
      → length ids < 2 ^ 16
      → length os < 2 ^ 16
      → All (λ id. id < 2 ^ 16) ids
      → All Fits os
      → unread r ≡ encode_rm_add ids os ++ rest
      → process_ao_rm_add capacity c r ≡ (
          add_objects capacity (length ids) (length os) (start_adding c ids os) os >>= λ st.
          returns (finish_adding (map (forward_id c) ids) st))
  unfolding process_ao_rm_add encode_rm_add write_uint16
  process_ao_rm_add-encode_rm_add rest r few few' hids hos e =
      let objects : Bytes = encode_objects os ++ rest in
      let header : Bytes = put_uint16 (length ids) in
      let spread = e ∙ ap (λ t. header ++ t) (append_assoc (encode_ids ids) _ rest) in
      let (n_eq, left) =
        read_number16 r (length ids) (encode_ids ids ++ (put_uint16 (length os) ++ objects)) few
          spread in
      let (w_eq, rm_eq, left') = rm_loop-encode_ids ids c (read_uint16 r).1 header [] _ hids left in
      let r' = (rm_loop (length ids) c (read_uint16 r).1 header []).2 in
      let (m_eq, left'') = read_number16 r' (length os) objects few' left' in
      rw (n_eq, w_eq, rm_eq, m_eq)
        (rw (
          add_loop-encode_objects capacity (length ids) (length os) os (start_adding c ids os)
            (read_uint16 r').1 rest hos left''))
