-- ===== src/Console/Overflow.antt =====
-- The log while the console is scrolled up.
use multiserver.Shared.{
  ℕ, suc, ◌+◌, ◌-◌, ◌≤◌, ◌<◌, ◌≡◌, ◌⊎◌, refl, sym, ap, ◌∙◌, true, ◌&&◌, List, [], ◌∷◌, ◌++◌, Bytes,
  ltb, leb, arith, Bool-cases, inl, inr, length, take, drop, All,
}
use multiserver.Shared.Run.{Run, returns, panic, ◌>>=◌}
use multiserver.Text.{split, join}
use multiserver.Text.Laws.{Lacks, split-join}
use multiserver.Console.{Logger, max_log_msgs, write_line, write_lines, drawn, log_write}
use multiserver.Console.Log.{append_pop_lem}

-- A message of one line.
pub record IsLine (p : Bytes) : Type 0 where
  pub text : Bytes
  pub one_line : Lacks 10 text
  pub ends : p ≡ text ++ 10 ∷ []

without_end : (t : ℕ) (ts : Bytes) → take (length (ts ++ 10 ∷ [])) (t ∷ (ts ++ 10 ∷ [])) ≡ t ∷ ts
without_end t [] = refl
without_end t (u ∷ ts) = ap (λ x. t ∷ x) (without_end u ts)

one_part : (text : Bytes) → Lacks 10 text → split 10 text ≡ text ∷ []
one_part text h = unfold join in split-join 10 text [] (h, tt)

-- The logger after one more line.
abbrev pub with_line : Logger → Bytes → Logger
with_line l line = record l {
  lines = drop (suc (length l.lines) - max_log_msgs) (l.lines ++ line ∷ []);
  offset = l.offset + 1;
}

write_line_lem :
    (l : Logger) (line : Bytes)
    → 0 < l.offset
    → length l.lines ≤ max_log_msgs
    → write_line l line ≡ returns (with_line l line)
unfolding write_line
write_line_lem l line up within =
    let scrolled : ltb 0 l.offset ≡ true = ground arith in
    rw ((append_pop_lem max_log_msgs l.lines line (omega arith) within).0, scrolled) refl

-- What `Logger.Write` does after the loop.
abbrev pub shows : ℕ → Bytes → Logger → Run Logger
shows rows p l = drawn rows l >>= λ _. returns (record l { all = l.all ++ p })

log_write_lem :
    (stamp : ℕ → Bytes) (rows : ℕ) (l : Logger) (text : Bytes)
    → Lacks 10 text
    → 0 < l.offset
    → length l.lines ≤ max_log_msgs
    → log_write stamp rows l (text ++ 10 ∷ []) ≡ shows rows (text ++ 10 ∷ []) (with_line l text)
unfolding log_write write_lines
log_write_lem stamp rows l [] h up within = rw (one_part [] h, write_line_lem l [] up within) refl
log_write_lem stamp rows l (t ∷ ts) h up within =
    rw (without_end t ts, one_part (t ∷ ts) h, write_line_lem l (t ∷ ts) up within) refl

-- Messages written one after another.
unfoldable pub run_log : (ℕ → Bytes) → ℕ → List Bytes → Logger → Run Logger
run_log stamp rows [] l = returns l
run_log stamp rows (p ∷ ps) l = log_write stamp rows l p >>= λ l'. run_log stamp rows ps l'

-- A drawing that succeeds shows no more lines than there are.
shows_cases :
    (rows : ℕ) (p : Bytes) (l : Logger)
    → (shows rows p l ≡ panic)
      ⊎ ((shows rows p l ≡ returns (record l { all = l.all ++ p })) × (l.offset ≤ length l.lines))
unfolding drawn
shows_cases rows p l =
    elim (Bool-cases (
      leb l.offset (length l.lines)
      && leb ((length l.lines + 1) - (rows + l.offset)) (length l.lines - l.offset))) [
        | inl fits ↦ inr (rw fits refl, ground arith)
        | inr over ↦ inl (rw over refl)
      ]

-- While the console is scrolled up every line of the log scrolls it one line further, but at most 1024 lines
-- are kept. When more messages of one line are written than there are lines between the position and
-- the 1024th line, the proxy panics.
pub scrolled_log_panics :
    (stamp : ℕ → Bytes) (rows : ℕ) (ps : List Bytes) (l : Logger)
    → 0 < l.offset
    → l.offset ≤ length l.lines
    → length l.lines ≤ max_log_msgs
    → All IsLine ps
    → max_log_msgs < length ps + l.offset
    → run_log stamp rows ps l ≡ panic
unfolding run_log
scrolled_log_panics stamp rows [] l up shown within lines many = absurd (omega arith)
scrolled_log_panics stamp rows (p ∷ ps) l up shown within (line, lines) many =
    let l' = with_line l line.text in
    let within' = (append_pop_lem max_log_msgs l.lines line.text (omega arith) within).1 in
    let wrote : log_write stamp rows l p ≡ shows rows p l' =
      ap (log_write stamp rows l) line.ends
      ∙ log_write_lem stamp rows l line.text line.one_line up within
      ∙ ap (λ q. shows rows q l') (sym line.ends) in
    elim (shows_cases rows p l') [
      | inl panics ↦ rw (wrote, panics) refl
      | inr (went, shown') ↦
          rw (wrote, went)
            (scrolled_log_panics stamp rows ps (record l' { all = l'.all ++ p }) (omega arith)
              shown' within' lines (omega arith))
    ]
