-- ===== src/Chat/Grants.antt =====
-- igutils.go: the chat commands `grant` and `revoke`.
use multiserver.Shared.{
  ℕ, ◌≡◌, ◌≢◌, ◌⊎◌, refl, ◌∙◌, Bool, true, Option, none, some, List, [], ◌∷◌, Bytes, codes,
  contains, ◌==◌, nat_eq, bytes_eq, if◌then◌else◌, lookup, insert, holds, holds-insert, NodupKeys,
  insert-NodupKeys, All, arith, inl, inr,
}
use multiserver.Text.{split}
use multiserver.Conn.{Conn}
use multiserver.Database.{Database, Answer, ok, err, database, insert_privileges}
use multiserver.Privs.{Privileges, encode_privs, decode_privs, privs, set_privs}
use multiserver.Privs.Codec.{HasNames, IsName}
use multiserver.Privs.Admin.{insert-HasNames, decode_privs-fit}
use multiserver.Privs.Store.{Agrees, set_privs-privs}
use multiserver.Chat.{Utf16, send_chat_msg}

-- What `SendChatMsg(c, msg)` does: without a player, at the console, it logs the message.
pub data Told : Type 0 where
  logged : Bytes → Told
  sent : Option Bytes → Told

unfoldable pub tell : Utf16 → ℕ → Option Conn → Bytes → Told
tell u now none msg = logged msg
tell u now (some c) msg = sent (send_chat_msg u now c msg)

-- The player and the text of the privileges. With one word the player is the caller, which the console
-- cannot be.
unfoldable pub target : List Bytes → Option Conn → Option (Bytes × Bytes)
target (name ∷ privnames ∷ ps) caller = some (name, privnames)
target (privnames ∷ []) (some c) = some (c.username, privnames)
target (privnames ∷ []) none = none
target [] caller = none

-- `strings.Replace(s, " ", "", -1)`
unfoldable pub without_spaces : Bytes → Bytes
without_spaces [] = []
without_spaces (x ∷ s) = let rest = without_spaces s in if x == b' ' then rest else x ∷ rest

unfoldable pub split_privs : Bytes → List Bytes
unfolding without_spaces
split_privs privnames = split b',' (without_spaces privnames)

-- `for i := range splitprivs { privs[splitprivs[i]] = value }`
unfoldable pub mark_all : Bool → List Bytes → Privileges → Privileges
mark_all value [] m = m
mark_all value (p ∷ ps) m = mark_all value ps (insert p value m)

abbrev pub updated_text : Bytes
updated_text = codes "Privileges updated"

module _ (d : Database) where
  abbrev pub write_answer : Answer (Unit {0}) × d.State → Bytes × d.State
  write_answer (err e, s) =
      (codes "An internal error occured while attempting to set the privileges", s)
  write_answer (ok x, s) = (updated_text, s)

  abbrev pub change_read : Bool → d.State → Bytes → Bytes → Answer Privileges → Bytes × d.State
  change_read value s name privnames (err e) =
      (codes "An internal error occured while attempting to get the privileges", s)
  change_read value s name privnames (ok m) =
      write_answer (set_privs d s name (mark_all value (split_privs privnames) m))

  abbrev pub change_target : Bool → d.State → Option (Bytes × Bytes) → Bytes × d.State
  change_target value s none = (codes "Cannot write privileges of console!", s)
  change_target value s (some (name, privnames)) =
      change_read value s name privnames (privs d s name)

  -- The functions of `grant` (for `value` true) and `revoke` (for `value` false): what is said, and the
  -- database.
  unfoldable pub change_privs : Bool → Utf16 → ℕ → d.State → Option Conn → Bytes → Told × d.State
  unfolding target
  change_privs value u now s caller param =
      let (said, s1) = change_target value s (target (split b' ' param) caller) in
      (tell u now caller said, s1)

holds-mark_all :
    (k : Bytes) (value : Bool) (ps : List Bytes) (m : Privileges)
    → holds k (mark_all value ps m) ≡ (if contains k ps then value else holds k m)
unfolding mark_all contains
holds-mark_all k value [] m = refl
holds-mark_all k value (p ∷ ps) m =
    ground (arith, holds-mark_all k value ps (insert p value m), holds-insert k p value m)

mark_all-fit :
    (value : Bool) (ps : List Bytes) (m : Privileges)
    → (value ≡ true → All IsName ps)
    → NodupKeys m
    → HasNames m
    → NodupKeys (mark_all value ps m) × HasNames (mark_all value ps m)
unfolding mark_all
mark_all-fit value [] m h u n = (u, n)
mark_all-fit value (p ∷ ps) m h u n =
    mark_all-fit value ps (insert p value m) (λ e. (h e).1) (insert-NodupKeys p value m u)
      (insert-HasNames p value m (λ e. (h e).0) n)

-- `grant` and `revoke` for a player and a list of privileges, where the player's privileges can be read and
-- `SetPrivs` reports no error: the caller is told so, and unless the database fails at reading, the player then
-- has each of the listed privileges (after `revoke`: none of them) and the others as before. Other players'
-- privileges and the other tables are as before. The player had a row or got one, and what is granted is
-- not empty and holds no bar.
pub change_privs_lem :
    (value : Bool) (u : Utf16) (now : ℕ) (d : Database) (s : d.State) (caller : Option Conn)
    (param name privnames text : Bytes) {s' : d.State}
    → target (split b' ' param) caller ≡ some (name, privnames)
    → privs d s name ≡ ok (decode_privs text)
    → (value ≡ true → All IsName (split_privs privnames))
    → ((d.exec s (
          insert_privileges (
            name
            ∷ encode_privs (mark_all value (split_privs privnames) (decode_privs text))
            ∷ []))).0
        ≡ true)
      ⊎ (lookup name (d.tables s).privileges ≢ none)
    → set_privs d s name (mark_all value (split_privs privnames) (decode_privs text)) ≡ (ok tt, s')
    → (change_privs d value u now s caller param ≡ (tell u now caller updated_text, s'))
      × Agrees name (d.tables s) (d.tables s')
      × ((privs d s' name ≡ err database)
          ⊎ ((m : Privileges) × (privs d s' name ≡ ok m)
              × ((k : Bytes)
                  → holds k m ≡ (
                      if contains k (split_privs privnames)
                      then value
                      else holds k (decode_privs text)))))
unfolding change_privs
change_privs_lem value u now d s caller param name privnames text {s'} goal reads fit there sets =
    let old = decode_privs text in
    let ps = split_privs privnames in
    let (unique, names) = decode_privs-fit text in
    let (unique', names') = mark_all-fit value ps old fit unique names in
    let (result, agrees) =
      set_privs-privs d s name (mark_all value ps old) {s' = s'} unique' names' there sets in
    (
      rw (goal, reads, sets) refl,
      agrees,
      elim result [
        | inl fails ↦ inl fails
        | inr (m, reads', same) ↦ inr (m, reads', λ k. same k ∙ holds-mark_all k value ps old)
      ],
    )
