-- ===== src/ActiveObject/Messages.antt =====
-- `processAoMsgs` against a description of the packets: a list of messages, each for an object.
use multiserver.Shared.{
  ℕ, suc, ◌+◌, ◌*◌, ◌^◌, ◌≤◌, ◌<◌, ◌≡◌, refl, ap, ◌∙◌, Bool, true, ◌||◌, List, [], ◌∷◌, ◌++◌, Bytes,
  ◌==◌, nat_eq, leb, if◌then◌else◌, length, All, append_assoc, arith, Bool-cases, inl, inr,
}
use native.Mathlib.Nat.{mod-eq_of_lt}
use multiserver.Shared.Run.{returns}
use multiserver.Wire.{
  Reader, unread, reader_len, put_uint16, read_uint16, read_bytes16, write_uint16, write_bytes16,
}
use multiserver.Wire.Reads.{IsByte, reader_len-unread}
use multiserver.Wire.Fields.{read_number16, read_bytes16-front}
use multiserver.Conn.{Conn}
use multiserver.ActiveObject.{
  ao_cmd_attach_to, ao_cmd_spawn_infant, swap_id, replace_operand, ao_msg_replace_ids, ao_msgs_loop,
}

-- A message for the object `id`: its command byte and the bytes behind it.
pub record AoMsg : Type 0 where
  pub id : ℕ
  pub cmd : ℕ
  pub operands : Bytes

abbrev pub names_object : ℕ → Bool
names_object cmd = cmd == ao_cmd_attach_to || cmd == ao_cmd_spawn_infant

-- A message that fits the packet format, and holds the object that its command names.
pub record IsWellFormed (m : AoMsg) : Type 0 where
  pub id_fits : m.id < 2 ^ 16
  pub length_fits : length (m.cmd ∷ m.operands) < 2 ^ 16
  pub bytes : All IsByte m.operands
  pub operand : names_object m.cmd ≡ true → 2 ≤ length m.operands

unfoldable pub encode_msg : AoMsg → Bytes
encode_msg m = put_uint16 m.id ++ (put_uint16 (length (m.cmd ∷ m.operands)) ++ (m.cmd ∷ m.operands))

unfoldable pub encode_msgs : List AoMsg → Bytes
encode_msgs [] = []
encode_msgs (m ∷ ms) = encode_msg m ++ encode_msgs ms

-- The specification: the number of the player's object is exchanged in the message's own number and
-- in the object that an attachment or an infant names.
abbrev pub swap_operand : (ℕ → ℕ) → Bytes → Bytes
swap_operand f (hi ∷ lo ∷ rest) = put_uint16 (f (hi * 256 + lo)) ++ rest
swap_operand f operands = operands

unfoldable pub translate : Conn → AoMsg → AoMsg
translate c m = record {
  id = swap_id c m.id;
  cmd = m.cmd;
  operands = if names_object m.cmd then swap_operand (swap_id c) m.operands else m.operands;
}

-- Object numbers of a connection are `uint16`s.
abbrev pub HasUint16Ids : Conn → Type 0
HasUint16Ids c = (c.local_player_cao < 2 ^ 16) × (c.current_player_cao < 2 ^ 16)

pub swap_id_self : (c : Conn) (id : ℕ) → swap_id c (swap_id c id) ≡ id
unfolding swap_id
swap_id_self c id = ground arith

pub swap_id-lt : (c : Conn) (id : ℕ) → HasUint16Ids c → id < 2 ^ 16 → swap_id c id < 2 ^ 16
unfolding swap_id
swap_id-lt c id h lt = ground arith

operand_lem :
    (c : Conn) (cmd : ℕ) (ops : Bytes)
    → All IsByte ops
    → 2 ≤ length ops
    → replace_operand c cmd ops ≡ returns (cmd ∷ swap_operand (swap_id c) ops)
unfolding replace_operand swap_id
operand_lem c cmd [] b h = absurd (omega arith)
operand_lem c cmd (hi ∷ []) b h = absurd (omega arith)
operand_lem c cmd (hi ∷ lo ∷ rest) b h = ground arith

-- On a message that holds what its command names, the code does what the specification says.
pub replace_lem :
    (c : Conn) (m : AoMsg)
    → IsWellFormed m
    → ao_msg_replace_ids c (m.cmd ∷ m.operands) ≡ returns (m.cmd ∷ (translate c m).operands)
replace_lem c m w = elim (Bool-cases (names_object m.cmd)) [
  | inl names ↦
      unfold ao_msg_replace_ids translate in
      rw names (operand_lem c m.cmd m.operands w.bytes (w.operand names))
  | inr other ↦ unfold ao_msg_replace_ids translate in rw other
]

length-swap_operand : (f : ℕ → ℕ) (ops : Bytes) → length (swap_operand f ops) ≡ length ops
length-swap_operand f [] = refl
length-swap_operand f (hi ∷ []) = refl
length-swap_operand f (hi ∷ lo ∷ rest) = refl

pub length-translate : (c : Conn) (m : AoMsg) → length (translate c m).operands ≡ length m.operands
unfolding translate
length-translate c m = ground (arith, length-swap_operand (swap_id c) m.operands)

-- Two writes of a round put down the encoding of a message.
written :
    (w : Bytes) (m : AoMsg)
    → length (m.cmd ∷ m.operands) < 2 ^ 16
    → write_bytes16 (write_uint16 w m.id) (m.cmd ∷ m.operands) ≡ w ++ encode_msg m
unfolding write_bytes16 write_uint16 encode_msg
written w m h =
    ap (λ (k : ℕ). ((w ++ put_uint16 m.id) ++ put_uint16 k) ++ (m.cmd ∷ m.operands))
      (mod-eq_of_lt h)
    ∙ append_assoc (w ++ put_uint16 m.id) _ _
    ∙ append_assoc w _ _

pub has_header : (r : Reader) → 4 ≤ length (unread r) → leb 4 (reader_len r) ≡ true
has_header r h = rw reader_len-unread (ground arith)

written_translated :
    (c : Conn) (w : Bytes) (m : AoMsg)
    → length (m.cmd ∷ m.operands) < 2 ^ 16
    → write_bytes16 (write_uint16 w (swap_id c m.id)) (m.cmd ∷ (translate c m).operands)
      ≡ w ++ encode_msg (translate c m)
unfolding translate
written_translated c w m h = written w (translate c m) (rw length-translate h)

-- What the reader has read after one round.
abbrev pub after_round : Reader → Reader
after_round r = (read_bytes16 (read_uint16 r).1).1

pub round_lem :
    (fuel : ℕ) (c : Conn) (r : Reader) (w : Bytes) (m : AoMsg) (rest : Bytes)
    → IsWellFormed m
    → unread r ≡ encode_msg m ++ rest
    → (ao_msgs_loop (suc fuel) c r w
        ≡ ao_msgs_loop fuel c (after_round r) (w ++ encode_msg (translate c m)))
      × (unread (after_round r) ≡ rest)
unfolding encode_msg ao_msgs_loop translate
round_lem fuel c r w m rest wf e =
    let behind : Bytes = (m.cmd ∷ m.operands) ++ rest in
    let (id_eq, left) =
      read_number16 r m.id (put_uint16 (length (m.cmd ∷ m.operands)) ++ behind) wf.id_fits e in
    let (msg_eq, left') =
      read_bytes16-front (read_uint16 r).1 (m.cmd ∷ m.operands) rest wf.length_fits left in
    (
      rw (has_header r (rw e (omega arith)), id_eq, msg_eq, replace_lem c m wf)
          (ap (ao_msgs_loop fuel c (after_round r)) (written_translated c w m wf.length_fits)),
      left',
    )
