-- ===== src/Database/Results.antt =====
-- What a function that executes one statement tells by returning no error.
use multiserver.Shared.{◌≡◌, ◌⊎◌, inl, inr, refl, ap, Bool, true, false, Bool-cases, if◌then◌else◌}
use multiserver.Database.{Database, Query, Row, failed, answer, Answer, ok, err, database}

-- The database could be opened, and the statement was executed last.
pub exec_result :
    {S : Type 0} (opened done : Bool) (s s1 s' : S)
    → ◌≡◌ {A = Answer (Unit {0}) × S}
        (if opened then (if done then ok tt else err database, s1) else (err database, s))
        (ok tt, s')
    → (done ≡ true) × (s1 ≡ s')
exec_result false done s s1 s' h = cc
exec_result true false s s1 s' h = cc
exec_result true true s s1 s' h = (refl, ap (λ q. q.1) h)

-- What a function makes of a query whose failure it treats like a database that does not open: it either
-- failed, or answered from the tables.
pub query_result :
    {B : Type 0} (d : Database) (s : d.State) (q : Query) (f : Row → B)
    → ((if d.opens s then f (d.query s q) else f failed) ≡ f failed)
      ⊎ ((if d.opens s then f (d.query s q) else f failed) ≡ f (answer q (d.tables s)))
query_result d s q f = elim (Bool-cases (d.opens s)) [
  | inr closed ↦ inl (rw closed refl)
  | inl opened ↦ elim (d.query_answers s q) [
    | inl fails ↦ inl (rw (opened, fails) refl)
    | inr reads ↦ inr (rw (opened, reads) refl)
  ]
]
