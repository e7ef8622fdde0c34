-- ===== src/Database.antt =====
-- db.go, and the tables that auth.go and storage.go create: what the program relies on in the SQL
-- databases. SQLite, PostgreSQL and package database/sql are not part of the repository, so a
-- database is an interface: its operations, and as laws what SQL says of the statements used.
pub mod Memory
pub mod Results
use multiserver.Shared.{
  ℕ, ◌≡◌, ◌⊎◌, Bool, true, false, not, ◌&&◌, ◌||◌, Option, none, some, List, [], ◌∷◌, Bytes, GoMap,
  lookup, insert, erase, ◌==◌, bytes_eq, if◌then◌else◌,
}

-- The rows of the four tables. The first column is the primary key.
pub record Tables : Type 0 where
  pub auth : GoMap Bytes Bytes
  pub privileges : GoMap Bytes Bytes
  pub ban : GoMap Bytes Bytes
  pub storage : GoMap Bytes Bytes

-- The statements of the program, with the values that it passes for their parameters.
pub data Statement : Type 0 where
  insert_auth update_auth insert_privileges update_privileges insert_ban delete_ban replace_storage
        delete_storage :
      List Bytes → Statement

-- The queries with one row and one column, with the value of their parameter.
pub data Query : Type 0 where
  select_password select_privileges select_ban select_storage : Bytes → Query

-- What `QueryRow(…).Scan(&v)` gives.
pub data Row : Type 0 where
  row : Bytes → Row
  no_rows failed : Row

-- `INSERT INTO t … VALUES (k, v)`: refused where the primary key is taken.
abbrev pub insert_row : Bytes → Bytes → GoMap Bytes Bytes → Option (GoMap Bytes Bytes)
insert_row k v t = elim (lookup k t) [ none ↦ some (insert k v t) | some w ↦ none ]

-- `UPDATE t SET … = v WHERE … = k`: no row is no error.
abbrev pub update_row : Bytes → Bytes → GoMap Bytes Bytes → GoMap Bytes Bytes
update_row k v t = elim (lookup k t) [ none ↦ t | some w ↦ insert k v t ]

-- `DELETE FROM ban WHERE name = n OR addr = a`
unfoldable pub delete_rows : Bytes → Bytes → GoMap Bytes Bytes → GoMap Bytes Bytes
delete_rows n a [] = []
delete_rows n a ((addr, name) ∷ t) =
    let rest = delete_rows n a t in if name == n || addr == a then rest else (addr, name) ∷ rest

abbrev pub set_auth : Tables → GoMap Bytes Bytes → Tables
set_auth t x = record t { auth = x }

abbrev pub set_privileges : Tables → GoMap Bytes Bytes → Tables
set_privileges t x = record t { privileges = x }

abbrev pub set_ban : Tables → GoMap Bytes Bytes → Tables
set_ban t x = record t { ban = x }

abbrev pub optional {ℓ κ} : {A : Type ℓ} {B : Type κ} → (A → B) → Option A → Option B
optional f none = none
optional f (some a) = some (f a)

-- What a statement does to the tables; `none` where it is refused: a primary key that is taken, or a
-- number of values that is not the number of parameters.
unfoldable pub effect : Statement → Tables → Option Tables
effect (insert_auth (k ∷ v ∷ [])) t = optional (set_auth t) (insert_row k v t.auth)
effect (update_auth (v ∷ k ∷ [])) t = some (set_auth t (update_row k v t.auth))
effect (insert_privileges (k ∷ v ∷ [])) t =
    optional (set_privileges t) (insert_row k v t.privileges)
effect (update_privileges (v ∷ k ∷ [])) t = some (set_privileges t (update_row k v t.privileges))
effect (insert_ban (k ∷ v ∷ [])) t = optional (set_ban t) (insert_row k v t.ban)
effect (delete_ban (n ∷ a ∷ [])) t = some (set_ban t (delete_rows n a t.ban))
effect (replace_storage (k ∷ v ∷ [])) t = some (record t { storage = insert k v t.storage })
effect (delete_storage (k ∷ [])) t = some (record t { storage = erase k t.storage })
effect _ t = none

abbrev pub found : Option Bytes → Row
found none = no_rows
found (some v) = row v

unfoldable pub answer : Query → Tables → Row
answer (select_password k) t = found (lookup k t.auth)
answer (select_privileges k) t = found (lookup k t.privileges)
answer (select_ban k) t = found (lookup k t.ban)
answer (select_storage k) t = found (lookup k t.storage)

-- A database. Each operation may fail at any time, and then changes nothing; `opens` and
-- `exec` say `true` where there was no error. A statement that succeeds has its effect, a statement
-- with no effect does not succeed, and a query that does not fail answers from the tables.
pub record Database : Type 1 where
  pub State : Type 0
  pub tables : State → Tables
  pub opens : State → Bool
  pub exec : State → Statement → Bool × State
  pub query : State → Query → Row
  pub list_ban : State → Option (List (Bytes × Bytes))
  pub exec_done :
      (s : State) (st : Statement)
      → (exec s st).0 ≡ true
      → effect st (tables s) ≡ some (tables (exec s st).1)
  pub exec_failed :
      (s : State) (st : Statement) → (exec s st).0 ≡ false → tables (exec s st).1 ≡ tables s
  pub query_answers :
      (s : State) (q : Query) → (query s q ≡ failed) ⊎ (query s q ≡ answer q (tables s))
  pub list_ban_answers : (s : State) → (list_ban s ≡ none) ⊎ (list_ban s ≡ some (tables s).ban)

-- What a Go function with an error among its results returns.
pub data Error : Type 0 where
  database invalid_address already_banned undecodable : Error

pub data Answer {ℓ} (A : Type ℓ) : Type ℓ where
  ok : A → Answer A
  err : Error → Answer A
