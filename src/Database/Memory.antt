-- ===== src/Database/Memory.antt =====
-- Tables in memory, which never fail: the laws of the interface can be met.
use multiserver.Shared.{◌≡◌, inr, refl, Bool, true, false, Option, none, some, []}
use multiserver.Database.{Tables, effect, answer, Database}

abbrev pub run : Option Tables → Tables → Bool × Tables
run none t = (false, t)
run (some t') t = (true, t')

pub run_done : (o : Option Tables) (t : Tables) → (run o t).0 ≡ true → o ≡ some (run o t).1
run_done none t h = cc
run_done (some t') t h = refl

pub run_failed : (o : Option Tables) (t : Tables) → (run o t).0 ≡ false → (run o t).1 ≡ t
run_failed none t h = refl
run_failed (some t') t h = cc

abbrev pub memory : Database
memory = record {
  State = Tables;
  tables = λ t. t;
  opens = λ t. true;
  exec = λ t st. run (effect st t) t;
  query = λ t q. answer q t;
  list_ban = λ t. some t.ban;
  exec_done = λ t st h. run_done (effect st t) t h;
  exec_failed = λ t st h. run_failed (effect st t) t h;
  query_answers = λ t q. inr refl;
  list_ban_answers = λ t. inr refl;
}

abbrev pub empty_tables : Tables
empty_tables = record { auth = []; privileges = []; ban = []; storage = [] }
