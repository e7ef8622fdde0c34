-- ===== src/Chat/Commands.antt =====
-- Who may run which chat command.
use multiserver.Shared.{
  ℕ, ◌≡◌, refl, sym, ap, ◌∙◌, ◌↔◌, Bool, true, false, Option, none, some, List, [], ◌∷◌, ◌++◌,
  Bytes, bytes_eq, nat_eq, length, drop, drop_front, GoMap, holds, NodupKeys, arith,
}
use multiserver.Wire.{Reader, reader_len, seek_current, read}
use multiserver.Text.{split, join, has_prefix}
use multiserver.Text.Laws.{Lacks, split_front, split_last, join-split}
use multiserver.Conn.{Conn}
use multiserver.Database.{Database, Answer, ok, err}
use multiserver.Privs.{Privileges, privs, check_privs}
use multiserver.Privs.Store.{check_privs_iff}
use multiserver.Chat.{
  Utf16, ChatCommand, command_of, narrow, run_command, call_function, after_check,
  process_chat_message,
}

-- The text of a message, behind the command and the length.
unfoldable pub message_of : Utf16 → Reader → Bytes
message_of u r = let r1 = seek_current 2 r in narrow u (read (reader_len r1) r1).0

-- A command as it is typed behind the prefix: its name, and then nothing, or a space and a parameter.
abbrev pub typed : Bytes → Option Bytes → Bytes
typed name none = name
typed name (some param) = name ++ b' ' ∷ param

-- The parameter that a command gets.
abbrev pub parameter : Option Bytes → Bytes
parameter none = []
parameter (some param) = param

typed-parts :
    (name : Bytes) (given : Option Bytes)
    → Lacks b' ' name
    → (ps : List Bytes) × (split b' ' (typed name given) ≡ name ∷ ps)
      × (join b' ' ps ≡ parameter given)
unfolding join
typed-parts name none lacks = ([], split_last b' ' name lacks, refl)
typed-parts name (some param) lacks =
    (split b' ' param, split_front b' ' name param lacks, join-split b' ' param)

has_prefix-front : (p s : Bytes) → has_prefix (p ++ s) p ≡ true
unfolding has_prefix
has_prefix-front [] s = refl
has_prefix-front (x ∷ p) s = ground (arith, has_prefix-front p s)

module _ (u : Utf16) (now : ℕ) (commands : GoMap Bytes ChatCommand) where
  call_iff :
      (name param : Bytes) (function : Option ℕ) (f : ℕ)
      → (call_function u now commands name param function ≡ run_command f param ∷ [])
        ↔ (function ≡ some f)
  unfolding call_function
  call_iff name param none f = (λ h. cc h, λ h. cc h)
  call_iff name param (some g) f = (λ h. cc h, λ h. cc h)

  after_check_iff :
      (name : Bytes) (params : List Bytes) (allowed : Answer Bool) (f : ℕ)
      → ((after_check u now commands name params allowed).1
          ≡ run_command f (join b' ' (drop 1 params)) ∷ [])
        ↔ ((allowed ≡ ok true) × ((command_of name commands).function ≡ some f))
  unfolding after_check
  after_check_iff name params (err e) f = (λ h. cc h, λ h. cc (h.0))
  after_check_iff name params (ok false) f = (λ h. cc h, λ h. cc (h.0))
  after_check_iff name params (ok true) f =
      let calls = call_iff name (join b' ' (drop 1 params)) (command_of name commands).function f in
      (λ h. (refl, calls.0 h), λ h. calls.1 h.1)

  after_check_drops :
      (name : Bytes) (params : List Bytes) (allowed : Answer Bool)
      → (after_check u now commands name params allowed).0 ≡ true
  unfolding after_check
  after_check_drops name params (err e) = refl
  after_check_drops name params (ok false) = refl
  after_check_drops name params (ok true) = refl

  -- A message of the prefix, a name without spaces, and behind that nothing or a space and a parameter is not
  -- forwarded to the server. It runs a function, with that parameter or an empty one, exactly if the command of
  -- that name has that function, the privileges of the player can be read, and they hold every privilege
  -- that the command requires. The privileges of the command have each key once.
  pub process_chat_message_runs :
      (d : Database) (s : d.State) (prefix : Bytes) (callbacks : List (Bytes → Bool)) (c : Conn)
      (r : Reader) (name : Bytes) (given : Option Bytes) (f : ℕ)
      → Lacks b' ' name
      → message_of u r ≡ prefix ++ typed name given
      → NodupKeys (command_of name commands).privs
      → ((process_chat_message u now commands d s prefix callbacks c r).0 ≡ true)
        × (((process_chat_message u now commands d s prefix callbacks c r).1
              ≡ run_command f (parameter given) ∷ [])
            ↔ (((command_of name commands).function ≡ some f)
                × ((m : Privileges) × (privs d s c.username ≡ ok m)
                    × ((k : Bytes)
                        → holds k (command_of name commands).privs ≡ true
                        → holds k m ≡ true))))
  unfolding process_chat_message message_of
  process_chat_message_runs d s prefix callbacks c r name given f lacks e nodup =
      let required = (command_of name commands).privs in
      let allowed = check_privs d s c.username required in
      let (ps, split_eq, rest_eq) = typed-parts name given lacks in
      let params = name ∷ ps in
      let begins : has_prefix (prefix ++ typed name given) prefix ≡ true =
        has_prefix-front prefix _ in
      let parts_eq : split b' ' (drop (length prefix) (prefix ++ typed name given)) ≡ params =
        ap (split b' ') (drop_front prefix _) ∙ split_eq in
      let run : process_chat_message u now commands d s prefix callbacks c r
          ≡ after_check u now commands name params allowed =
        rw (e, begins, parts_eq) refl in
      let (to, from) = after_check_iff name params allowed f in
      let behind =
        λ (h : (after_check u now commands name params allowed).1
            ≡ run_command f (parameter given) ∷ []).
          h ∙ ap (λ p. run_command f p ∷ []) (sym rest_eq) in
      let (read, checks) = check_privs_iff d s c.username required nodup in
      rw run (
        after_check_drops name params allowed,
        (
          λ h. let (ok_eq, function_eq) = to (behind h) in (function_eq, read ok_eq),
          λ h. from (checks h.1, h.0) ∙ ap (λ p. run_command f p ∷ []) rest_eq,
        ),
      )
