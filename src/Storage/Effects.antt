-- ===== src/Storage/Effects.antt =====
-- What `SetStorageKey` leaves for `StorageKey` to read.
use multiserver.Shared.{
  ◌≡◌, ◌≢◌, ◌⊎◌, refl, sym, ap, ◌∙◌, Option, some, [], ◌∷◌, Bytes, GoMap, lookup, insert,
  lookup-insert, ==_ne, ==_refl, bytes_beq, bytes_eq, arith, Bool-cases, inl, inr,
}
use multiserver.Database.Results.{exec_result, query_result}
use multiserver.Database.{
  Database, Tables, ok, err, database, replace_storage, delete_storage, select_storage, effect,
  answer, found,
}
use multiserver.Storage.{storage_key, set_storage_key, storage_row, storage_statement}

read_storage :
    (d : Database) (s : d.State) (key : Bytes) (o : Option Bytes)
    → lookup key (d.tables s).storage ≡ o
    → (storage_key d s key ≡ err database) ⊎ (storage_key d s key ≡ storage_row (found o))
unfolding storage_key answer
read_storage d s key o e = elim (query_result d s (select_storage key) storage_row) [
  | inl fails ↦ inl fails
  | inr reads ↦ inr (reads ∙ ap (λ x. storage_row (found x)) e)
]

replace_effect :
    (k v : Bytes) (t t' : Tables)
    → effect (replace_storage (k ∷ v ∷ [])) t ≡ some t'
    → t' ≡ record t { storage = insert k v t.storage }
unfolding effect
replace_effect k v t t' h = ground arith

stored :
    (key value : Bytes)
    → value ≢ []
    → storage_statement key value ≡ replace_storage (key ∷ value ∷ [])
unfolding storage_statement
stored key value full = rw (==_ne value [] full)

-- A text that is not empty and that `SetStorageKey` stores without an error is what `StorageKey`
-- then reads for the key, if the database does not fail. Every other key, and the other tables, are as before.
pub set_storage_key-storage_key :
    (d : Database) (s s' : d.State) (key value : Bytes)
    → value ≢ []
    → set_storage_key d s key value ≡ (ok tt, s')
    → ((storage_key d s' key ≡ err database) ⊎ (storage_key d s' key ≡ ok value))
      × ((j : Bytes) → j ≢ key → lookup j (d.tables s').storage ≡ lookup j (d.tables s).storage)
      × (d.tables s' ≡ record (d.tables s) { storage = (d.tables s').storage })
unfolding set_storage_key
set_storage_key-storage_key d s s' key value full e =
    let st = storage_statement key value in
    let (done, ends) = exec_result (d.opens s) (d.exec s st).0 s (d.exec s st).1 s' e in
    let new : d.tables s'
        ≡ record (d.tables s) { storage = insert key value (d.tables s).storage } =
      ap d.tables (sym ends)
      ∙ replace_effect key value _ _
          (ap (λ x. effect x (d.tables s)) (sym (stored key value full)) ∙ d.exec_done s st done) in
    (
      read_storage d s' key (some value)
          (ap (λ t. lookup key t.storage) new ∙ rw (lookup-insert, ==_refl key)),
      λ j ne. ap (λ t. lookup j t.storage) new ∙ rw (lookup-insert, ==_ne key j (λ q. ne (sym q))),
      new
          ∙ ap (λ (x : GoMap Bytes Bytes). record (d.tables s) { storage = x })
              (sym (ap (λ t. t.storage) new)),
    )

refused : (t t' : Tables) → effect (delete_storage []) t ≢ some t'
unfolding effect
refused t t' h = cc

cleared : (key : Bytes) → storage_statement key [] ≡ delete_storage []
unfolding storage_statement bytes_beq
cleared key = refl

-- The empty text never deletes a key: `SetStorageKey` always reports an error then, and the tables stay as they are.
pub set_storage_key_never_deletes :
    (d : Database) (s : d.State) (key : Bytes)
    → ((set_storage_key d s key []).0 ≡ err database)
      × (d.tables (set_storage_key d s key []).1 ≡ d.tables s)
unfolding set_storage_key
set_storage_key_never_deletes d s key = rw (cleared key) (elim (Bool-cases (d.opens s)) [
  | inr closed ↦ rw closed (refl, refl)
  | inl opened ↦ elim (Bool-cases (d.exec s (delete_storage [])).0) [
    | inl done ↦ absurd (refused _ _ (d.exec_done s (delete_storage []) done))
    | inr fails ↦ rw (opened, fails) (refl, d.exec_failed s (delete_storage []) fails)
  ]
])
