-- ===== src/Privs.antt =====
-- privs.go: the privileges of players.
pub mod Codec
pub mod Store
pub mod Admin
mod Tests
use multiserver.Shared.{
  ℕ, zero, suc, ◌+◌, Bool, true, false, not, ◌&&◌, Option, none, some, List, [], ◌∷◌, Bytes, codes,
  GoMap, lookup, insert, holds, keys, ◌==◌, bytes_eq, if◌then◌else◌,
}
use multiserver.Text.{split, join}
use multiserver.Database.{
  Database, Answer, ok, err, database, Row, row, no_rows, failed, insert_privileges,
  update_privileges, select_privileges,
}

abbrev pub Privileges : Type 0
Privileges = GoMap Bytes Bool

-- `|`
abbrev pub bar : ℕ
bar = 0x7c

-- The second loop of `encodePrivs`; the first one only counts these keys.
unfoldable pub granted : Privileges → List Bytes
granted [] = []
granted ((priv, has) ∷ privs) = let rest = granted privs in if has then priv ∷ rest else rest

unfoldable pub encode_privs : Privileges → Bytes
encode_privs privs = join bar (granted privs)

-- The loop of `decodePrivs`.
unfoldable pub decode_loop : List Bytes → Privileges → Privileges
decode_loop [] r = r
decode_loop (p ∷ ps) r = decode_loop ps (if p == [] then r else insert p true r)

unfoldable pub decode_privs : Bytes → Privileges
unfolding decode_loop
decode_privs s = decode_loop (split bar s) []

-- The loop of `CheckPrivs` over the required privileges.
unfoldable pub has_all : Privileges → Privileges → Bool
has_all privs [] = true
has_all privs ((priv, needed) ∷ req) =
    let rest = has_all privs req in if needed && not (holds priv privs) then false else rest

-- `Privs` after `QueryRow`: no row leaves the text empty.
abbrev pub privs_row : Row → Answer Privileges
privs_row failed = err database
privs_row no_rows = ok (decode_privs [])
privs_row (row eprivs) = ok (decode_privs eprivs)

abbrev pub check_answer : Answer Privileges → Privileges → Answer Bool
check_answer (err e) req = err e
check_answer (ok privs) req = ok (has_all privs req)

abbrev pub admin_priv : Bytes
admin_priv = codes "privs"

module _ (d : Database) where
  -- `Privs(name)`: a player without a row has no privileges.
  unfoldable pub privs : d.State → Bytes → Answer Privileges
  privs s name = if d.opens s then privs_row (d.query s (select_privileges name)) else err database

  -- `SetPrivs(name, privs)`: the error of the insertion is overwritten by that of the update.
  unfoldable pub set_privs : d.State → Bytes → Privileges → Answer (Unit {0}) × d.State
  set_privs s name privs =
      let (inserted, s1) = d.exec s (insert_privileges (name ∷ encode_privs privs ∷ [])) in
      let (updated, s2) = d.exec s1 (update_privileges (encode_privs privs ∷ name ∷ [])) in
      if d.opens s then (if updated then ok tt else err database, s2) else (err database, s)

  -- `CheckPrivs(name, req)`
  unfoldable pub check_privs : d.State → Bytes → Privileges → Answer Bool
  unfolding has_all privs
  check_privs s name req = check_answer (privs s name) req

  abbrev pub grant_to : d.State → Bytes → Answer Privileges → d.State
  grant_to s admin (err e) = s
  grant_to s admin (ok privs) = (set_privs s admin (insert admin_priv true privs)).1

  -- `init`: the configured admin gets the privilege "privs".
  unfoldable pub grant_admin : d.State → Option Bytes → d.State
  grant_admin s none = s
  grant_admin s (some admin) = grant_to s admin (privs s admin)
