-- ===== src/Ban.antt =====
-- ban.go: banned addresses.
pub mod Effects
pub mod Lists
mod Tests
use multiserver.Shared.{
  ℕ, Bool, true, false, not, Option, none, some, List, [], ◌∷◌, Bytes, codes, GoMap, insert, ◌==◌,
  bytes_eq, if◌then◌else◌,
}
use multiserver.Database.{
  Database, Answer, ok, err, Error, database, invalid_address, already_banned, Row, row, no_rows,
  failed, insert_ban, delete_ban, select_ban,
}

-- `for rows.Next() { r[addr] = name }`
unfoldable pub collect_bans : List (Bytes × Bytes) → GoMap Bytes Bytes → GoMap Bytes Bytes
collect_bans [] r = r
collect_bans ((addr, name) ∷ rows) r = collect_bans rows (insert addr name r)

-- `IsBanned` after `QueryRow`: whether the address is banned, the name, and the error.
abbrev pub banned_row : Row → Bool × Bytes × Option Error
banned_row failed = (true, [], some database)
banned_row no_rows = (false, [], none)
banned_row (row name) = (not (name == []), name, none)

abbrev pub ban_list_rows : Option (List (Bytes × Bytes)) → Answer (GoMap Bytes Bytes)
ban_list_rows none = err database
ban_list_rows (some rows) = ok (collect_bans rows [])

-- What `Conn.Ban` does: its error, whether the connection was closed, and the database.
pub record Banning (S : Type 0) : Type 0 where
  pub result : Answer (Unit {0})
  pub closed : Bool
  pub state : S

module _ (d : Database) where
  unfoldable pub ban_list : d.State → Answer (GoMap Bytes Bytes)
  unfolding collect_bans
  ban_list s = if d.opens s then ban_list_rows (d.list_ban s) else err database

  unfoldable pub is_banned : d.State → Bytes → Bool × Bytes × Option Error
  is_banned s addr =
      if d.opens s then banned_row (d.query s (select_ban addr)) else (true, [], some database)

  unfoldable pub unban : d.State → Bytes → Answer (Unit {0}) × d.State
  unban s id =
      let (done, s1) = d.exec s (delete_ban (id ∷ id ∷ [])) in
      if d.opens s then (if done then ok tt else err database, s1) else (err database, s)

  -- `parse_ip` says which texts `net.ParseIP` accepts.
  module _ (parse_ip : Bytes → Bool) where
    unfoldable pub ban : d.State → Bytes → Bytes → Answer (Unit {0}) × d.State
    ban s addr name =
        let (done, s1) = d.exec s (insert_ban (addr ∷ name ∷ [])) in
        if d.opens s
        then (if parse_ip addr
            then (if done then ok tt else err database, s1)
            else (err invalid_address, s))
        else (err database, s)

    -- The rest of `Conn.Ban` after `c.IsBanned()`: the result of `Ban` is not looked at.
    abbrev pub conn_ban_checked :
        Bool × Bytes × Option Error → d.State → Bytes → Bytes → Banning d.State
    conn_ban_checked (banned, name, some e) s username ip = record {
      result = err e;
      closed = false;
      state = s;
    }
    conn_ban_checked (true, name, none) s username ip = record {
      result = err already_banned;
      closed = false;
      state = s;
    }
    conn_ban_checked (false, name, none) s username ip = record {
      result = ok tt;
      closed = true;
      state = (ban s ip username).1;
    }

    -- `c.Ban()` for a client with this name and IP address.
    unfoldable pub conn_ban : d.State → Bytes → Bytes → Banning d.State
    conn_ban s username ip = conn_ban_checked (is_banned s ip) s username ip
