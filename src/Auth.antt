-- ===== src/Auth.antt =====
-- auth.go: the accounts, with the text form of their SRP tokens.
pub mod Accounts
pub mod Passphrase
mod Tests
use multiserver.Shared.{
  ℕ, Bool, true, false, Option, none, some, List, [], ◌∷◌, ◌++◌, Bytes, codes, ◌==◌, bytes_eq,
  if◌then◌else◌,
}
use multiserver.Shared.Run.{Run, returns, panic, stuck, ◌>>=◌}
use multiserver.Text.{split}
use multiserver.Text.Base64.{encode64, decode64}
use multiserver.Database.{
  Database, Answer, ok, err, Error, database, undecodable, Row, row, no_rows, failed, insert_auth,
  update_auth, select_password,
}
use multiserver.Storage.{storage_key, set_storage_key}

-- `#`
abbrev pub hash : ℕ
hash = 0x23

unfoldable pub encode_verifier_and_salt : Bytes → Bytes → Bytes
encode_verifier_and_salt s v = encode64 s ++ hash ∷ encode64 v

abbrev pub decoded : Option Bytes → Option Bytes → Answer (Bytes × Bytes)
decoded (some s) (some v) = ok (s, v)
decoded _ _ = err undecodable

-- `strings.Split(src, "#")[1]` of a text without `#` panics.
abbrev pub decode_parts : List Bytes → Run (Answer (Bytes × Bytes))
decode_parts [] = panic
decode_parts (s ∷ []) = panic
decode_parts (s ∷ v ∷ _) = returns (decoded (decode64 s) (decode64 v))

unfoldable pub decode_verifier_and_salt : Bytes → Run (Answer (Bytes × Bytes))
decode_verifier_and_salt src = decode_parts (split hash src)

abbrev pub swap_tokens : Answer (Bytes × Bytes) → Answer (Option (Bytes × Bytes))
swap_tokens (ok (salt, verifier)) = ok (some (verifier, salt))
swap_tokens (err e) = err e

-- `Password` after `QueryRow`: the verifier and the salt; `none` where both are `nil`.
unfoldable pub password_row : Row → Run (Answer (Option (Bytes × Bytes)))
unfolding decode_verifier_and_salt
password_row failed = returns (err database)
password_row no_rows = returns (ok none)
password_row (row pwd) =
    if pwd == []
    then returns (ok none)
    else (decode_verifier_and_salt pwd >>= λ tokens. returns (swap_tokens tokens))

abbrev pub saved : {S : Type 0} → Bytes → Answer (Unit {0}) × S → Answer Bytes × S
saved fresh (ok _, s1) = (ok fresh, s1)
saved fresh (err e, s1) = (err e, s1)

-- A `nil` slice is empty.
abbrev pub tokens_of : Option (Bytes × Bytes) → Bytes × Bytes
tokens_of none = ([], [])
tokens_of (some tokens) = tokens

module _ (d : Database) where
  unfoldable pub create_user : d.State → Bytes → Bytes → Bytes → Answer (Unit {0}) × d.State
  create_user s name verifier salt =
      let pwd = encode_verifier_and_salt salt verifier in
      let (done, s1) = d.exec s (insert_auth (name ∷ pwd ∷ [])) in
      if d.opens s then (if done then ok tt else err database, s1) else (err database, s)

  unfoldable pub password : d.State → Bytes → Run (Answer (Option (Bytes × Bytes)))
  unfolding password_row
  password s name =
      if d.opens s then password_row (d.query s (select_password name)) else returns (err database)

  unfoldable pub set_password : d.State → Bytes → Bytes → Bytes → Answer (Unit {0}) × d.State
  set_password s name verifier salt =
      let pwd = encode_verifier_and_salt salt verifier in
      let (done, s1) = d.exec s (update_auth (pwd ∷ name ∷ [])) in
      if d.opens s then (if done then ok tt else err database, s1) else (err database, s)

  -- The rest of `init` after `StorageKey`; `fresh` are the 16 random bytes. An error ends the program.
  abbrev pub keep_passphrase : d.State → Bytes → Answer Bytes → Answer Bytes × d.State
  keep_passphrase s fresh (err e) = (err e, s)
  keep_passphrase s fresh (ok []) =
      saved fresh (set_storage_key d s (codes "auth:passphrase") fresh)
  keep_passphrase s fresh (ok (b ∷ pwd)) = (ok (b ∷ pwd), s)

  unfoldable pub load_passphrase : d.State → Bytes → Answer Bytes × d.State
  load_passphrase s fresh = keep_passphrase s fresh (storage_key d s (codes "auth:passphrase"))
