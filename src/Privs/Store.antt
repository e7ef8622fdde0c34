-- ===== src/Privs/Store.antt =====
-- Privileges in the database: reading back, checking, granting.
use multiserver.Shared.{
  ◌≡◌, ◌≢◌, ◌↔◌, ◌⊎◌, refl, sym, ap, ◌∙◌, Bool, true, none, some, [], ◌∷◌, Bytes, lookup, insert,
  lookup-insert, holds, holds-cons, holds_missing, NodupKeys, ==_ne, ==_refl, bytes_eq,
  bytes_beq_iff, arith, Bool-cases, inl, inr,
}
use multiserver.Database.Results.{exec_result, query_result}
use multiserver.Database.{
  found, Database, Tables, Answer, ok, err, database, insert_privileges, update_privileges,
  select_privileges, effect, answer,
}
use multiserver.Privs.{
  Privileges, encode_privs, decode_privs, has_all, privs, set_privs, check_privs, check_answer,
  privs_row,
}
use multiserver.Privs.Codec.{HasNames, decode_privs-encode_privs}

has_all_sound :
    (m req : Privileges) (k : Bytes) → has_all m req ≡ true → holds k req ≡ true → holds k m ≡ true
unfolding has_all
has_all_sound m [] k h need = unfold holds lookup in cc
has_all_sound m ((p, n) ∷ req) k h need =
    ground (arith, has_all_sound m req k, holds-cons k p n req, bytes_beq_iff p k)

later-needs :
    (p k : Bytes) (n : Bool) (m req : Privileges)
    → lookup p req ≡ none
    → (holds k ((p, n) ∷ req) ≡ true → holds k m ≡ true)
    → holds k req ≡ true
    → holds k m ≡ true
later-needs p k n m req fresh h need =
    ground (arith, holds-cons k p n req, holds_missing p req fresh, bytes_beq_iff p k)

has_all_complete :
    (m req : Privileges)
    → NodupKeys req
    → ((k : Bytes) → holds k req ≡ true → holds k m ≡ true)
    → has_all m req ≡ true
unfolding has_all
has_all_complete m [] u h = refl
has_all_complete m ((p, n) ∷ req) (fresh, u) h = ground (
  arith,
  h p,
  holds-cons p p n req,
  ==_refl p,
  has_all_complete m req u (λ k. later-needs p k n m req fresh (h k)),
)

check_answer_iff :
    (a : Answer Privileges) (req : Privileges)
    → NodupKeys req
    → (check_answer a req ≡ ok true)
      ↔ ((m : Privileges) × (a ≡ ok m) × ((k : Bytes) → holds k req ≡ true → holds k m ≡ true))
check_answer_iff (err e) req u = (λ h. cc, λ h. cc (h.1))
check_answer_iff (ok m) req u = (
  λ h. (m, refl, λ k. has_all_sound m req k (cc h)),
  λ h. ap ok (has_all_complete m req u (λ k need. cc (h.1, h.2 k need))),
)

module _ (d : Database) where
  -- `CheckPrivs` says yes exactly if the player's privileges could be read and each required privilege
  -- is among them; it never says yes on an error.
  pub check_privs_iff :
      (s : d.State) (name : Bytes) (req : Privileges)
      → NodupKeys req
      → (check_privs d s name req ≡ ok true) ↔ (
          (m : Privileges) × (privs d s name ≡ ok m)
          × ((k : Bytes) → holds k req ≡ true → holds k m ≡ true))
  unfolding check_privs
  check_privs_iff s name req u = check_answer_iff (privs d s name) req u

insert-effect :
    (k v : Bytes) (t t' : Tables)
    → effect (insert_privileges (k ∷ v ∷ [])) t ≡ some t'
    → t' ≡ record t { privileges = insert k v t.privileges }
unfolding effect
insert-effect k v t t' h = ground arith

update_effect :
    (k v : Bytes) (t t' : Tables)
    → effect (update_privileges (v ∷ k ∷ [])) t ≡ some t'
    → lookup k t.privileges ≢ none
    → t' ≡ record t { privileges = insert k v t.privileges }
unfolding effect
update_effect k v t t' h present = ground arith

-- `t'` differs from `t` in the privileges of `k` at most.
pub record Agrees (k : Bytes) (t t' : Tables) : Type 0 where
  pub others : (j : Bytes) → j ≢ k → lookup j t'.privileges ≡ lookup j t.privileges
  pub auth_same : t'.auth ≡ t.auth
  pub ban_same : t'.ban ≡ t.ban
  pub storage_same : t'.storage ≡ t.storage

insert-Agrees :
    (k v : Bytes) (t t' : Tables)
    → t' ≡ record t { privileges = insert k v t.privileges }
    → Agrees k t t'
insert-Agrees k v t t' h = record {
  others =
      λ j ne. ap (λ x. lookup j x.privileges) h ∙ rw (lookup-insert, ==_ne k j (λ e. ne (sym e)));
  auth_same = ap (λ x. x.auth) h;
  ban_same = ap (λ x. x.ban) h;
  storage_same = ap (λ x. x.storage) h;
}

insert_stored :
    (k v : Bytes) (t t' : Tables)
    → t' ≡ record t { privileges = insert k v t.privileges }
    → lookup k t'.privileges ≡ some v
insert_stored k v t t' h = ap (λ x. lookup k x.privileges) h ∙ rw (lookup-insert, ==_refl k)

same-Agrees : (k : Bytes) (t t' : Tables) → t' ≡ t → Agrees k t t'
same-Agrees k t t' h = record {
  others = λ j ne. ap (λ x. lookup j x.privileges) h;
  auth_same = ap (λ x. x.auth) h;
  ban_same = ap (λ x. x.ban) h;
  storage_same = ap (λ x. x.storage) h;
}

Agrees-trans : (k : Bytes) (t t' t'' : Tables) → Agrees k t t' → Agrees k t' t'' → Agrees k t t''
Agrees-trans k t t' t'' a b = record {
  others = λ j ne. b.others j ne ∙ a.others j ne;
  auth_same = b.auth_same ∙ a.auth_same;
  ban_same = b.ban_same ∙ a.ban_same;
  storage_same = b.storage_same ∙ a.storage_same;
}

module _ (d : Database) (s : d.State) (name : Bytes) (m : Privileges) where
  abbrev insertion : Bool × d.State
  insertion = d.exec s (insert_privileges (name ∷ encode_privs m ∷ []))

  -- After the first statement the player has a row, if there was one or the statement succeeded.
  row_there :
      (insertion.0 ≡ true) ⊎ (lookup name (d.tables s).privileges ≢ none)
      → (lookup name (d.tables insertion.1).privileges ≢ none)
        × Agrees name (d.tables s) (d.tables insertion.1)
  row_there h = elim (Bool-cases insertion.0) [
    | inl done ↦
        let new =
          insert-effect name (encode_privs m) (d.tables s) (d.tables insertion.1)
            (d.exec_done s _ done) in
        (
          λ e. cc (insert_stored name (encode_privs m) _ _ new),
          insert-Agrees name (encode_privs m) _ _ new,
        )
    | inr refused ↦
        let same = d.exec_failed s (insert_privileges (name ∷ encode_privs m ∷ [])) refused in
        (
          elim h [
            | inl done ↦ λ e. cc
            | inr there ↦ λ e. there (ap (λ t. lookup name t.privileges) (sym same) ∙ e)
          ],
          same-Agrees name _ _ same,
        )
  ]

  set_privs_tables :
      {s' : d.State}
      → (insertion.0 ≡ true) ⊎ (lookup name (d.tables s).privileges ≢ none)
      → set_privs d s name m ≡ (ok tt, s')
      → (lookup name (d.tables s').privileges ≡ some (encode_privs m))
        × Agrees name (d.tables s) (d.tables s')
  unfolding set_privs
  set_privs_tables {s'} h e =
      let (inserted, s1) = insertion in
      let (present, agrees) = row_there h in
      let st = update_privileges (encode_privs m ∷ name ∷ []) in
      let (updated, ends) = exec_result (d.opens s) (d.exec s1 st).0 s (d.exec s1 st).1 s' e in
      let new = update_effect name (encode_privs m) _ _ (d.exec_done s1 st updated) present in
      rw (← ends) (
        insert_stored name (encode_privs m) _ _ new,
        Agrees-trans name _ _ _ agrees (insert-Agrees name (encode_privs m) _ _ new),
      )

read_back :
    (d : Database) (s : d.State) (name v : Bytes)
    → lookup name (d.tables s).privileges ≡ some v
    → (privs d s name ≡ err database) ⊎ (privs d s name ≡ ok (decode_privs v))
unfolding privs answer
read_back d s name v stored = elim (query_result d s (select_privileges name) privs_row) [
  | inl fails ↦ inl fails
  | inr reads ↦ inr (reads ∙ ap (λ x. privs_row (found x)) stored)
]

-- `SetPrivs` without an error, then `Privs`: unless the database fails at reading, the player has
-- exactly the privileges that were set. The others' privileges, and the tables of passwords, bans and
-- stored keys, are as before. The conditions: the map has one entry for a key, the granted names are
-- not empty and hold no bar, and the player had a row or got one (the code does not see whether
-- the insertion failed).
pub set_privs-privs :
    (d : Database) (s : d.State) (name : Bytes) (m : Privileges) {s' : d.State}
    → NodupKeys m
    → HasNames m
    → ((d.exec s (insert_privileges (name ∷ encode_privs m ∷ []))).0 ≡ true)
      ⊎ (lookup name (d.tables s).privileges ≢ none)
    → set_privs d s name m ≡ (ok tt, s')
    → ((privs d s' name ≡ err database)
        ⊎ ((m' : Privileges) × (privs d s' name ≡ ok m') × ((k : Bytes) → holds k m' ≡ holds k m)))
      × Agrees name (d.tables s) (d.tables s')
set_privs-privs d s name m {s'} u names there e =
    let (stored, agrees) = set_privs_tables d s name m there e in
    (
      elim (read_back d s' name (encode_privs m) stored) [
        | inl fails ↦ inl fails
        | inr reads ↦
            inr (decode_privs (encode_privs m), reads, decode_privs-encode_privs m u names)
      ],
      agrees,
    )
