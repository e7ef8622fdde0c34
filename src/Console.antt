-- ===== src/Console.antt =====
-- console.go and log.go: the lines of the log, the history of the console, and completion.
pub mod Log
pub mod Overflow
pub mod Recall
pub mod Complete
pub mod Browse
mod Tests
use multiserver.Shared.{
  ℕ, zero, suc, ◌+◌, ◌-◌, ◌*◌, ◌%◌, ◌^◌, Bool, true, false, not, ◌&&◌, ◌||◌, Option, none, some,
  List, [], ◌∷◌, ◌++◌, Bytes, ltb, leb, ◌==◌, nat_eq, bytes_eq, if◌then◌else◌, length, take, drop,
  get_elem?,
}
use multiserver.Shared.Run.{Run, returns, panic, stuck, ◌>>=◌}
use multiserver.Text.{split, has_prefix}

-- `for j := 1; j < len(a); j++ { a[j-1] = a[j] }`
unfoldable pub shift_left {ℓ} : {A : Type ℓ} → List A → List A
shift_left [] = []
shift_left (x ∷ []) = x ∷ []
shift_left (x ∷ y ∷ a) = y ∷ shift_left (y ∷ a)

unfoldable pub shift_times {ℓ} : {A : Type ℓ} → ℕ → List A → List A
shift_times zero a = a
shift_times (suc n) a = shift_times n (shift_left a)

-- `appendPop`. A slice that ends before its start panics.
unfoldable pub append_pop : {A : Type 0} → ℕ → List A → List A → Run (List A)
append_pop max a v =
    if ltb (length a) max
    then returns (a ++ v)
    else if leb (length v) max
    then returns (take (max - length v) (shift_times (length v) a) ++ v)
    else panic

abbrev pub max_log_msgs : ℕ
max_log_msgs = 1024

-- `struct Logger`: the lines, what goes to the log file, and how far the console is scrolled up.
pub record Logger : Type 0 where
  pub lines : List Bytes
  pub all : Bytes
  pub offset : ℕ

-- One round of the loop in `Logger.Write`.
unfoldable pub write_line : Logger → Bytes → Run Logger
write_line l line = append_pop max_log_msgs l.lines (line ∷ []) >>= λ lines.
    returns (record l { lines = lines; offset = if ltb 0 l.offset then l.offset + 1 else l.offset })

-- The loop; `stamp i` is the time in front of the line `i`, for all lines but the first.
unfoldable pub write_lines : (ℕ → Bytes) → ℕ → List Bytes → Logger → Run Logger
write_lines stamp i [] l = returns l
write_lines stamp i (line ∷ lines) l =
    write_line l (if ltb 0 i then stamp i ++ 0x20 ∷ line else line) >>= λ l'.
    write_lines stamp (suc i) lines l'

-- `draw(l.lines[start : len(l.lines)-l.offset])`: what is drawn on a terminal with `rows` rows.
unfoldable pub drawn : ℕ → Logger → Run (List Bytes)
drawn rows l =
    let len = length l.lines in
    let start = (len + 1) - (rows + l.offset) in
    if leb l.offset len && leb start (len - l.offset)
    then returns (drop start (take (len - l.offset) l.lines))
    else panic

-- `Logger.Write`. `string(p)[:len(p)-1]` of an empty `p` panics.
unfoldable pub log_write : (ℕ → Bytes) → ℕ → Logger → Bytes → Run Logger
log_write stamp rows l [] = panic
log_write stamp rows l (b ∷ p) =
    write_lines stamp 0 (split 10 (take (length p) (b ∷ p))) l >>= λ l'.
    drawn rows l' >>= λ _. returns (record l' { all = l'.all ++ b ∷ p })

-- A line of the console, as its runes.
abbrev pub Line : Type 0
Line = List ℕ

-- `struct History`
pub record History : Type 0 where
  pub lines : List Line
  pub i : ℕ

-- `h.lines[:k]` followed by `h.lines[k+1:]`, in the array of `h.lines`: the elements behind `k` move
-- down, and the last place keeps its element.
unfoldable pub remove_at : ℕ → List Line → List Line
remove_at k [] = []
remove_at zero (x ∷ []) = x ∷ []
remove_at zero (x ∷ y ∷ a) = y ∷ remove_at zero (y ∷ a)
remove_at (suc k) (x ∷ a) = x ∷ remove_at k a

-- The loop of `History.Add`, for the `n` places from `k` on. It ranges over the slice that `h.lines` was
-- at first, so it reads from the array `arr`, which the removals change; `len` is the length of
-- `h.lines` now.
unfoldable pub add_loop : ℕ → ℕ → Line → List Line → ℕ → List Line × ℕ
unfolding remove_at
add_loop zero k line arr len = (arr, len)
add_loop (suc n) k line arr len = elim (get_elem? arr k) [
  | none ↦ (arr, len)
  | some v ↦
      let removed = remove_at k (take len arr) ++ drop len arr in
      let shorter = add_loop n (suc k) line removed (len - 1) in
      let cut = add_loop n (suc k) line arr k in
      let same = add_loop n (suc k) line arr len in
      if v == line then (if ltb (k + 1) len then shorter else cut) else same
]

unfoldable pub history_add : History → Line → History
unfolding add_loop
history_add h line =
    let (arr, len) = add_loop (length h.lines) 0 line h.lines (length h.lines) in
    record { lines = take len arr ++ line ∷ []; i = 0 }

-- `History.Prev`
unfoldable pub history_prev : History → Line → History × Line
history_prev h current =
    if leb (suc h.i) (length h.lines)
    then (elim (get_elem? h.lines (length h.lines - suc h.i)) [
      | some line ↦ (record h { i = suc h.i }, line)
      | none ↦ (h, current)
    ])
    else (h, current)

-- `h.lines[len(h.lines)-h.i]`
abbrev pub line_or_panic : History → Option Line → Run (History × Line)
line_or_panic h (some line) = returns (h, line)
line_or_panic h none = panic

-- `History.Next`. An index below 0 panics.
unfoldable pub history_next : History → Run (History × Line)
history_next h =
    let i = h.i - 1 in
    if leb h.i 1
    then returns (record h { i = 0 }, [])
    else if leb i (length h.lines)
    then line_or_panic (record h { i = i }) (get_elem? h.lines (length h.lines - i))
    else panic
