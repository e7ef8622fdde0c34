-- ===== src/Storage.antt =====
-- storage.go: the key-value store, a table of the storage database.
pub mod Effects
mod Tests
use multiserver.Shared.{
  ℕ, Bool, true, false, Option, none, some, List, [], ◌∷◌, Bytes, ◌==◌, bytes_eq, if◌then◌else◌,
}
use multiserver.Database.{
  Database, Answer, ok, err, Error, database, Row, row, no_rows, failed, Statement, replace_storage,
  delete_storage, select_storage,
}

-- `StorageKey` after `QueryRow`: a missing key reads as the empty text.
abbrev pub storage_row : Row → Answer Bytes
storage_row (row r) = ok r
storage_row no_rows = ok []
storage_row failed = err database

-- The statement of `SetStorageKey`. The `DELETE` is executed without a value for its parameter.
unfoldable pub storage_statement : Bytes → Bytes → Statement
storage_statement key value =
    if value == [] then delete_storage [] else replace_storage (key ∷ value ∷ [])

module _ (d : Database) where
  unfoldable pub storage_key : d.State → Bytes → Answer Bytes
  storage_key s key =
      if d.opens s then storage_row (d.query s (select_storage key)) else err database

  unfoldable pub set_storage_key : d.State → Bytes → Bytes → Answer (Unit {0}) × d.State
  set_storage_key s key value =
      let (done, s1) = d.exec s (storage_statement key value) in
      if d.opens s then (if done then ok tt else err database, s1) else (err database, s)
