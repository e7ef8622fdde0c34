-- ===== src/Command/Sounds.antt =====
-- The packet of a new sound.
use multiserver.Shared.{
  ℕ, ◌+◌, ◌-◌, ◌%◌, ◌^◌, ◌≤◌, ◌<◌, ◌≡◌, refl, sym, ap, ◌∙◌, [], ◌∷◌, ◌++◌, Bytes, nat_eq, length,
  drop, length-append, append_assoc, append-nil, drop_front, arith,
}
use multiserver.Shared.Run.{returns}
use multiserver.Wire.{
  Reader, unread, reader_len, seek_start, fill, be_value, put_uint16, put_uint32, read_uint8,
  read_uint16, read_uint32,
}
use multiserver.Wire.Reads.{read_uint8_lem, reader_len-unread}
use multiserver.Wire.Fields.{read-front, read_number16, read_number32}
use multiserver.Conn.{Conn}
use multiserver.ActiveObject.{swap_id}
use multiserver.ActiveObject.RmAdd.{patch_uint16, overwrite}
use multiserver.Command.Server.{play_sound, whole_data}

overwrite_at :
    (pre vs ws post : Bytes)
    → length ws ≡ length vs
    → overwrite (length pre) vs (pre ++ (ws ++ post)) ≡ pre ++ (vs ++ post)
unfolding overwrite
overwrite_at [] [] [] [] h = refl
overwrite_at [] [] [] (p ∷ post) h = refl
overwrite_at [] [] (w ∷ ws) post h = absurd (omega arith)
overwrite_at [] (v ∷ vs) [] post h = absurd (omega arith)
overwrite_at [] (v ∷ vs) (w ∷ ws) post h =
    ap (λ t. v ∷ t) (overwrite_at [] vs ws post (omega arith))
overwrite_at (x ∷ pre) vs ws post h = ap (λ t. x ∷ t) (overwrite_at pre vs ws post h)

whole_lem :
    (r : Reader) (a b : ℕ) (xs : Bytes)
    → r.buf ≡ a ∷ b ∷ xs
    → ((whole_data r).0 ≡ xs) × (unread (whole_data r).1 ≡ [])
whole_lem r a b xs e =
    let left : unread (seek_start 2 r) ≡ xs ++ [] = ap (drop 2) e ∙ sym (append-nil xs) in
    let len : reader_len (seek_start 2 r) ≡ length xs =
      reader_len-unread (seek_start 2 r) ∙ ap length (ap (drop 2) e) in
    rw len (read-front (seek_start 2 r) xs [] left)

patch_at :
    (pre vs post : Bytes) (v k : ℕ)
    → length vs ≡ 2
    → length pre ≡ 17 + k
    → 19 + k < 2 ^ 16
    → patch_uint16 (λ n. n) ((17 + k) % 2 ^ 16) ((19 + k) % 2 ^ 16) v (pre ++ (vs ++ post))
      ≡ returns (pre ++ (put_uint16 v ++ post))
unfolding patch_uint16
patch_at pre vs post v k two len few =
    let lo : (17 + k) % 2 ^ 16 ≡ length pre = omega arith in
    let hi : (19 + k) % 2 ^ 16 ≡ length pre + 2 = omega arith in
    rw (lo, hi, overwrite_at pre (put_uint16 v) vs post two)
      (ground (arith, length-append pre (vs ++ post), length-append vs post))

-- What stands before the two bytes that the code takes for the number of the object.
unfoldable pub sound_head : ℕ → Bytes → Bytes
sound_head id more = put_uint32 id ++ (put_uint16 (length more - 9) ++ more)

number_buf : (r : Reader) → (read_uint16 r).1.buf ≡ r.buf
unfolding read_uint16
number_buf r = refl

header_buf : (r : Reader) → (read_uint16 (read_uint32 r).1).1.buf ≡ r.buf
unfolding read_uint16 read_uint32
header_buf r = refl

length_pre :
    (id obj : ℕ) (more : Bytes)
    → 9 ≤ length more
    → length (sound_head id more ++ put_uint16 obj) ≡ 17 + (length more - 9)
unfolding sound_head
length_pre id obj more long = omega (arith, length-append (sound_head id more) (put_uint16 obj))

obj_left :
    (a b id : ℕ) (more tail : Bytes) (r : Reader)
    → 9 ≤ length more
    → length more < 2 ^ 16 - 10
    → r.buf ≡ a ∷ b ∷ (sound_head id more ++ tail)
    → drop ((17 + (length more - 9)) % 2 ^ 16) r.buf ≡ tail
unfolding sound_head
obj_left a b id more tail r long few e =
    let front : Bytes = a ∷ b ∷ sound_head id more in
    let len : (17 + (length more - 9)) % 2 ^ 16 ≡ length front = omega arith in
    rw (len, e) (drop_front front tail)

-- The name of the sound has the length `length more - 9`. The code takes the two bytes `obj` before
-- the field at offset 17 + length of the name for the number of the object, and puts the number that it
-- exchanges it for over the field, whatever the field was. It never marks the sound as playing.
pub play_sound_lem :
    (dst : Conn) (a b id obj : ℕ) (more field post : Bytes) (r : Reader)
    → id < 2 ^ 32
    → obj < 2 ^ 16
    → 9 ≤ length more
    → length more < 2 ^ 16 - 10
    → length field ≡ 2
    → r.pos ≡ 2
    → r.buf ≡ a ∷ b ∷ (sound_head id more ++ (put_uint16 obj ++ (field ++ post)))
    → play_sound dst r
      ≡ returns
          (dst, sound_head id more ++ (put_uint16 obj ++ (put_uint16 (swap_id dst obj) ++ post)))
unfolding play_sound sound_head fill
play_sound_lem dst a b id obj more field post r hid hobj long few two start e =
    let n = length more - 9 in
    let tail : Bytes = put_uint16 obj ++ (field ++ post) in
    let left : unread r ≡ put_uint32 id ++ (put_uint16 n ++ (more ++ tail)) =
      ap (λ p. drop p r.buf) start ∙ ap (drop 2) e in
    let (_, left1) = read_number32 r id (put_uint16 n ++ (more ++ tail)) hid left in
    let (name_eq, _) = read_number16 (read_uint32 r).1 n (more ++ tail) (omega arith) left1 in
    let q : Reader = seek_start ((17 + n) % 2 ^ 16) (read_uint16 (read_uint32 r).1).1 in
    let (obj_eq, _) =
      read_number16 q obj (field ++ post) hobj
        (obj_left a b id more tail (read_uint16 (read_uint32 r).1).1 long few (header_buf r ∙ e)) in
    let (data_eq, none_left) =
      whole_lem (read_uint16 q).1 a b (sound_head id more ++ tail)
        (number_buf q ∙ header_buf r ∙ e) in
    let loop_eq : (read_uint8 (whole_data (read_uint16 q).1).1).0 ≡ 0 =
      read_uint8_lem (whole_data (read_uint16 q).1).1 ∙ ap (λ t. be_value 0 (fill 1 t)) none_left in
    let pre : Bytes = sound_head id more ++ put_uint16 obj in
    let split_data : sound_head id more ++ tail ≡ pre ++ (field ++ post) =
      sym (append_assoc (sound_head id more) (put_uint16 obj) (field ++ post)) in
    rw
      (
        name_eq,
        obj_eq,
        data_eq,
        loop_eq,
        split_data,
        patch_at pre field post (swap_id dst obj) n two (length_pre id obj more long) (omega arith),
      )
      (ap (λ t. returns (dst, t)) (append_assoc (sound_head id more) (put_uint16 obj) _))
