-- ===== src/ActiveObject/Packets.antt =====
-- `processAoMsgs` on a whole packet.
use multiserver.Shared.{
  ℕ, zero, suc, ◌+◌, ◌*◌, ◌/◌, ◌%◌, ◌^◌, ◌≤◌, ◌<◌, ◌≡◌, ◌≢◌, refl, sym, ap, ◌∙◌, true, List, [],
  ◌∷◌, ◌++◌, map, Bytes, nat_eq, leb, length, All, append_assoc, append-nil, length-append, arith,
  Bool-cases, leb→le, inl, inr,
}
use multiserver.Shared.Run.{bind-ne-stuck, returns, panic, stuck, ◌>>=◌}
use multiserver.Wire.{Reader, new_reader, unread, reader_len, put_uint16, read_uint16}
use multiserver.Wire.Reads.{IsByte, reader_len-unread}
use multiserver.Wire.Lengths.{reader_len-read_uint16, reader_len-read_bytes16}
use multiserver.Wire.Fields.{read_number16, read_bytes16-front}
use multiserver.Conn.{Conn}
use multiserver.ActiveObject.{swap_id, ao_msg_replace_ids, ao_msgs_loop, process_ao_msgs}
use multiserver.ActiveObject.Messages.{
  AoMsg, names_object, IsWellFormed, encode_msg, encode_msgs, swap_operand, translate,
  length-translate, HasUint16Ids, swap_id_self, swap_id-lt, round_lem, after_round, has_header,
}

-- Each message takes five bytes at least.
length-encode_msgs : (ms : List AoMsg) → length ms ≤ length (encode_msgs ms)
unfolding encode_msgs encode_msg
length-encode_msgs [] = omega arith
length-encode_msgs (m ∷ ms) = rw length-append (omega (arith, length-encode_msgs ms))

stops :
    (fuel : ℕ) (c : Conn) (r : Reader) (w : Bytes)
    → length (unread r) < 4
    → ao_msgs_loop (suc fuel) c r w ≡ returns w
unfolding ao_msgs_loop
stops fuel c r w h = ground (arith, reader_len-unread r)

loop_lem :
    (ms : List AoMsg) (fuel : ℕ) (c : Conn) (r : Reader) (w tail : Bytes)
    → All IsWellFormed ms
    → unread r ≡ encode_msgs ms ++ tail
    → length ms < fuel
    → (f : ℕ) × (suc f + length ms ≡ fuel)
      × (r' : Reader) × (unread r' ≡ tail)
      × (ao_msgs_loop fuel c r w
          ≡ ao_msgs_loop (suc f) c r' (w ++ encode_msgs (map (translate c) ms)))
unfolding encode_msgs
loop_lem ms zero c r w tail wf e h = absurd (omega arith)
loop_lem [] (suc fuel) c r w tail wf e h = (fuel, omega arith, r, e, rw append-nil)
loop_lem (m ∷ ms) (suc fuel) c r w tail (hm, hms) e h =
    let (step, left) =
      round_lem fuel c r w m (encode_msgs ms ++ tail) hm (e ∙ append_assoc (encode_msg m) _ tail) in
    let (f, count, r', left', rest) =
      loop_lem ms fuel c (after_round r) (w ++ encode_msg (translate c m)) tail hms left
        (omega arith) in
    (f, omega arith, r', left', step ∙ rest ∙ ap (ao_msgs_loop (suc f) c r') (append_assoc w _ _))

-- On a packet of well-formed messages (and at most three stray bytes, which are dropped) the code
-- returns the packet of the translated messages.
pub process_ao_msgs-encode_msgs :
    (c : Conn) (ms : List AoMsg) (tail : Bytes) (r : Reader)
    → All IsWellFormed ms
    → length tail < 4
    → unread r ≡ encode_msgs ms ++ tail
    → process_ao_msgs c r ≡ returns (encode_msgs (map (translate c) ms))
unfolding process_ao_msgs
process_ao_msgs-encode_msgs c ms tail r wf short e =
    let enough : length ms < suc (reader_len r) = omega (
      arith,
      reader_len-unread r,
      ap length e,
      length-append (encode_msgs ms) tail,
      length-encode_msgs ms,
    ) in
    let (f, count, r', left, run) = loop_lem ms (suc (reader_len r)) c r [] tail wf e enough in
    run ∙ stops f c r' _ (rw left short)

put_uint16-IsByte : (v : ℕ) (rest : Bytes) → All IsByte rest → All IsByte (put_uint16 v ++ rest)
put_uint16-IsByte v rest h = (omega arith, (omega arith, h))

swap_operand-IsByte : (f : ℕ → ℕ) (ops : Bytes) → All IsByte ops → All IsByte (swap_operand f ops)
swap_operand-IsByte f [] h = h
swap_operand-IsByte f (hi ∷ []) h = h
swap_operand-IsByte f (hi ∷ lo ∷ rest) (_, (_, h)) = put_uint16-IsByte _ rest h

translate-IsWellFormed :
    (c : Conn) (m : AoMsg) → HasUint16Ids c → IsWellFormed m → IsWellFormed (translate c m)
unfolding translate
translate-IsWellFormed c m ids wf = record {
  id_fits = swap_id-lt c m.id ids wf.id_fits;
  length_fits = rw length-translate wf.length_fits;
  bytes = ground (arith, swap_operand-IsByte (swap_id c) m.operands wf.bytes);
  operand = λ names. rw length-translate (wf.operand names);
}

join_put : (v : ℕ) → v < 2 ^ 16 → v / 256 % 256 * 256 + v % 256 ≡ v
join_put v h = omega arith

swap_operand_self :
    (c : Conn) (ops : Bytes)
    → HasUint16Ids c
    → All IsByte ops
    → swap_operand (swap_id c) (swap_operand (swap_id c) ops) ≡ ops
swap_operand_self c [] ids h = refl
swap_operand_self c (hi ∷ []) ids h = refl
swap_operand_self c (hi ∷ lo ∷ rest) ids h =
    let v = hi * 256 + lo in
    rw (join_put (swap_id c v) (swap_id-lt c v ids (omega arith)), swap_id_self c v) (ground arith)

translate_self :
    (c : Conn) (m : AoMsg) → HasUint16Ids c → IsWellFormed m → translate c (translate c m) ≡ m
unfolding translate
translate_self c m ids wf =
    ground (arith, swap_id_self c m.id, swap_operand_self c m.operands ids wf.bytes)

translate-All_self :
    (c : Conn) (ms : List AoMsg)
    → HasUint16Ids c
    → All IsWellFormed ms
    → (All IsWellFormed (map (translate c) ms)) × (map (translate c) (map (translate c) ms) ≡ ms)
translate-All_self c [] ids wf = (tt, refl)
translate-All_self c (m ∷ ms) ids (hm, hms) =
    let (wf', back) = translate-All_self c ms ids hms in
    ((translate-IsWellFormed c m ids hm, wf'), cc (translate_self c m ids hm, back))

-- Processing the packet that the code itself produced gives the first packet back: the client's and
-- the server's numbering are exchanged by the same step in both directions.
process_ao_msgs_self :
    (c : Conn) (ms : List AoMsg)
    → HasUint16Ids c
    → All IsWellFormed ms
    → (process_ao_msgs c (new_reader (encode_msgs ms)) >>= λ out.
        process_ao_msgs c (new_reader out))
      ≡ returns (encode_msgs ms)
process_ao_msgs_self c ms ids wf =
    let (wf', back) = translate-All_self c ms ids wf in
    let once =
      process_ao_msgs-encode_msgs c ms [] (new_reader (encode_msgs ms)) wf (omega arith)
        (sym (append-nil _)) in
    let twice =
      process_ao_msgs-encode_msgs c (map (translate c) ms) []
        (new_reader (encode_msgs (map (translate c) ms))) wf' (omega arith) (sym (append-nil _)) in
    rw once (twice ∙ ap (λ t. returns (encode_msgs t)) back)

-- A message that the code cannot take: it is empty, or too short for the object that it names.
pub data IsTruncated : Bytes → Type 0 where
  no_command : IsTruncated []
  no_operand : {cmd : ℕ} → names_object cmd ≡ true → IsTruncated (cmd ∷ [])
  half_operand : {cmd hi : ℕ} → names_object cmd ≡ true → IsTruncated (cmd ∷ hi ∷ [])

replace_truncated : (c : Conn) {msg : Bytes} → IsTruncated msg → ao_msg_replace_ids c msg ≡ panic
unfolding ao_msg_replace_ids
replace_truncated c no_command = refl
replace_truncated c (no_operand names) = rw names
replace_truncated c (half_operand names) = rw names

truncated-length : {msg : Bytes} → IsTruncated msg → length msg < 3
truncated-length no_command = omega arith
truncated-length (no_operand names) = omega arith
truncated-length (half_operand names) = omega arith

fails :
    (fuel : ℕ) (c : Conn) (r : Reader) (w : Bytes) (id : ℕ) (msg rest : Bytes)
    → id < 2 ^ 16
    → IsTruncated msg
    → unread r ≡ put_uint16 id ++ (put_uint16 (length msg) ++ (msg ++ rest))
    → ao_msgs_loop (suc fuel) c r w ≡ panic
unfolding ao_msgs_loop
fails fuel c r w id msg rest fits t e =
    let short : length msg < 2 ^ 16 = omega (arith, truncated-length t) in
    let (id_eq, left) = read_number16 r id (put_uint16 (length msg) ++ (msg ++ rest)) fits e in
    let (msg_eq, left') = read_bytes16-front (read_uint16 r).1 msg rest short left in
    rw (has_header r (rw e (omega arith)), msg_eq, replace_truncated c t)

-- A server crashes the proxy by one truncated message, whatever valid messages stand before it.
pub process_ao_msgs_panics :
    (c : Conn) (ms : List AoMsg) (id : ℕ) (msg rest : Bytes) (r : Reader)
    → All IsWellFormed ms
    → id < 2 ^ 16
    → IsTruncated msg
    → unread r ≡ encode_msgs ms ++ (put_uint16 id ++ (put_uint16 (length msg) ++ (msg ++ rest)))
    → process_ao_msgs c r ≡ panic
unfolding process_ao_msgs
process_ao_msgs_panics c ms id msg rest r wf fits t e =
    let bad : Bytes = put_uint16 id ++ (put_uint16 (length msg) ++ (msg ++ rest)) in
    let enough : length ms < suc (reader_len r) = omega (
      arith,
      reader_len-unread r,
      ap length e,
      length-append (encode_msgs ms) bad,
      length-encode_msgs ms,
    ) in
    let (f, count, r', left, run) = loop_lem ms (suc (reader_len r)) c r [] bad wf e enough in
    run ∙ fails f c r' _ id msg rest fits t left

replace-ne-stuck : (c : Conn) (msg : Bytes) → ao_msg_replace_ids c msg ≢ stuck
unfolding ao_msg_replace_ids
replace-ne-stuck c [] = λ e. cc
replace-ne-stuck c (cmd ∷ []) = λ e. ground arith
replace-ne-stuck c (cmd ∷ hi ∷ []) = λ e. ground arith
replace-ne-stuck c (cmd ∷ hi ∷ lo ∷ rest) = λ e. ground arith

ao_msgs_loop-ne-stuck :
    (fuel : ℕ) (c : Conn) (r : Reader) (w : Bytes)
    → reader_len r < fuel
    → ao_msgs_loop fuel c r w ≢ stuck
unfolding ao_msgs_loop
ao_msgs_loop-ne-stuck zero c r w h = absurd (omega arith)
ao_msgs_loop-ne-stuck (suc fuel) c r w h = elim (Bool-cases (leb 4 (reader_len r))) [
  | inl more ↦
      let r' = after_round r in
      let smaller : reader_len r' < fuel = omega (
        arith,
        leb→le 4 (reader_len r) more,
        reader_len-read_bytes16 (read_uint16 r).1,
        reader_len-read_uint16 r,
      ) in
      rw more (
        bind-ne-stuck _ _ (replace-ne-stuck c _) (λ msg. ao_msgs_loop-ne-stuck fuel c r' _ smaller))
  | inr done ↦ rw done (λ e. cc)
]

-- On any packet at all the loop ends: the code returns a packet or panics.
pub process_ao_msgs-ne-stuck : (c : Conn) (r : Reader) → process_ao_msgs c r ≢ stuck
unfolding process_ao_msgs
process_ao_msgs-ne-stuck c r = ao_msgs_loop-ne-stuck (suc (reader_len r)) c r [] (omega arith)
