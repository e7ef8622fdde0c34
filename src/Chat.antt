-- ===== src/Chat.antt =====
-- chat.go: chat messages, and the commands among them.
pub mod Commands
pub mod Grants
pub mod Servers
pub mod Entering
pub mod Moderation
pub mod Bans
pub mod Texts
mod Tests
use multiserver.Shared.{
  ℕ, zero, suc, ◌+◌, ◌*◌, ◌%◌, ◌^◌, Bool, true, false, not, ◌&&◌, ◌||◌, Option, none, some, List,
  [], ◌∷◌, ◌++◌, map, Bytes, codes, ◌==◌, nat_eq, bytes_eq, if◌then◌else◌, length, drop, GoMap,
  lookup,
}
use multiserver.Wire.{
  Reader, reader_len, seek_start, seek_current, byte_reader, fill, read, be_value, put_uint16,
  write_uint8, write_uint16, write_uint64, write_bytes16,
}
use multiserver.Text.{split, join, has_prefix}
use multiserver.Conn.{Conn}
use multiserver.Command.Codes.{to_client_code, chat_message}
use multiserver.Database.{Database, Answer, ok, err}
use multiserver.Privs.{Privileges, encode_privs, check_privs, bar}

-- Package unicode/utf16 and the conversions of strings: a text as 16-bit units, and back.
pub record Utf16 : Type 0 where
  pub encode : Bytes → List ℕ
  pub decode : List ℕ → Bytes

-- `struct chatCommand`. The function is known by a number; a command that is missing has none.
pub record ChatCommand : Type 0 where
  pub help : Bytes
  pub privs : Privileges
  pub console : Bool
  pub function : Option ℕ

abbrev pub no_command : ChatCommand
no_command = record { help = []; privs = []; console = false; function = none }

-- `chatCommands[name]`
unfoldable pub command_of : Bytes → GoMap Bytes ChatCommand → ChatCommand
command_of name commands = elim (lookup name commands) [ none ↦ no_command | some c ↦ c ]

-- The units of an even number of bytes.
unfoldable pub units : Bytes → List ℕ
units [] = []
units (h ∷ []) = []
units (h ∷ l ∷ b) = be_value 0 (h ∷ l ∷ []) ∷ units b

unfoldable pub is_even : Bytes → Bool
is_even [] = true
is_even (x ∷ []) = false
is_even (x ∷ y ∷ b) = is_even b

unfoldable pub unit_bytes : List ℕ → Bytes
unit_bytes [] = []
unit_bytes (u ∷ us) = put_uint16 u ++ unit_bytes us

module _ (u : Utf16) where
  -- `string(narrow(b))`
  unfoldable pub narrow : Bytes → Bytes
  unfolding units is_even
  narrow b = if is_even b then u.decode (units b) else []

  -- `wider(b)`: two bytes for each byte of the text, zero behind its units. There are no more units than
  -- bytes.
  unfoldable pub wider : Bytes → Bytes
  unfolding unit_bytes
  wider b = fill (length b * 2) (unit_bytes (u.encode b))

  -- The packet of a chat message, at the time `now`.
  unfoldable pub chat_packet : ℕ → Bytes → Bytes
  unfolding wider
  chat_packet now msg =
      write_uint64
        (write_uint16
            (write_bytes16 (write_uint8 (write_uint8 (0 ∷ to_client_code chat_message ∷ []) 1) 0)
              [])
            (length msg % 2 ^ 16)
          ++ wider msg)
        (now % 2 ^ 64)

  -- `c.SendChatMsg(msg)`
  unfoldable pub send_chat_msg : ℕ → Conn → Bytes → Option Bytes
  send_chat_msg now c msg = if c.is_srv then none else some (chat_packet now msg)

-- What comes of a message: a packet for the client, or a command that is run with its parameter.
pub data ChatEffect : Type 0 where
  tell_client : Bytes → ChatEffect
  run_command : ℕ → Bytes → ChatEffect

-- `for i := range onChatMsg { … }`: every callback is called.
unfoldable pub any_true : List (Bytes → Bool) → Bytes → Bool
any_true [] s = false
any_true (f ∷ fs) s = let rest = any_true fs s in f s || rest

abbrev pub bars_to_spaces : Bytes → Bytes
bars_to_spaces s = map (λ b. if b == bar then b' ' else b) s

abbrev pub no_permission : Privileges → Bytes
no_permission privs =
    codes "You do not have permission to run this command! Required privileges: "
    ++ bars_to_spaces (encode_privs privs)

abbrev pub unknown_command : Bytes → Bytes
unknown_command name = codes "Unknown command " ++ (name ++ codes ".")

-- `strings.Split(s, " ")`: there is always a first part.
abbrev pub first_part : List Bytes → Bytes
first_part [] = []
first_part (p ∷ ps) = p

module _ (u : Utf16) (now : ℕ) (commands : GoMap Bytes ChatCommand) where
  -- The function of a command, with what follows the name.
  unfoldable pub call_function : Bytes → Bytes → Option ℕ → List ChatEffect
  unfolding chat_packet
  call_function name param none = tell_client (chat_packet u now (unknown_command name)) ∷ []
  call_function name param (some f) = run_command f param ∷ []

  -- What follows the check of the privileges: whether the message is dropped, and the effects.
  unfoldable pub after_check : Bytes → List Bytes → Answer Bool → Bool × List ChatEffect
  after_check name params (err e) = (true, [])
  after_check name params (ok false) =
      (true, tell_client (chat_packet u now (no_permission (command_of name commands).privs)) ∷ [])
  after_check name params (ok true) =
      (true, call_function name (join b' ' (drop 1 params)) (command_of name commands).function)

  -- `processChatMessage(c, r)`. `prefix` is `ChatCommandPrefix`, `callbacks` is `onChatMsg`. The message
  -- begins with the prefix, so the first one that `strings.Replace` takes out is there.
  unfoldable pub process_chat_message :
      (d : Database)
      → d.State
      → Bytes
      → List (Bytes → Bool)
      → Conn
      → Reader
      → Bool × List ChatEffect
  unfolding narrow after_check any_true
  process_chat_message d s prefix callbacks c r =
      let r1 = seek_current 2 r in
      let msg = narrow u (read (reader_len r1) r1).0 in
      let params = split b' ' (drop (length prefix) msg) in
      let name = first_part params in
      let allowed = check_privs d s c.username (command_of name commands).privs in
      let command = after_check name params allowed in
      if has_prefix msg prefix then command else (any_true callbacks msg, [])

-- `processServerChatMessage(c, pkt)`: whether the message is kept from the client.
unfoldable pub process_server_chat_message : Utf16 → ℕ → List (Bytes → Bool) → Bytes → Bool
unfolding narrow any_true
process_server_chat_message u max_size callbacks pkt =
    let r = seek_start 4 (byte_reader max_size pkt) in
    any_true callbacks (narrow u (read (reader_len r) r).0)
