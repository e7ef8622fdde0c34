-- ===== src/Ban/Lists.antt =====
-- The list of bans.
use multiserver.Shared.{
  ◌≡◌, ◌⊎◌, refl, ◌∙◌, Option, none, some, [], ◌∷◌, Bytes, GoMap, lookup, insert, lookup-insert,
  NodupKeys, bytes_eq, bytes_beq_iff, arith, Bool-cases, inl, inr,
}
use multiserver.Database.{Database, ok, err, database}
use multiserver.Ban.{ban_list, collect_bans}

abbrev or_else : Option Bytes → Option Bytes → Option Bytes
or_else none o = o
or_else (some n) o = some n

collect_lem :
    (a : Bytes) (rows r : GoMap Bytes Bytes)
    → NodupKeys rows
    → lookup a (collect_bans rows r) ≡ or_else (lookup a rows) (lookup a r)
unfolding collect_bans lookup
collect_lem a [] r u = refl
collect_lem a ((addr, name) ∷ rows) r (fresh, u) = ground (
  arith,
  collect_lem a rows (insert addr name r) u,
  lookup-insert a addr name r,
  bytes_beq_iff addr a,
)

or_else-none : (o : Option Bytes) → or_else o none ≡ o
or_else-none none = refl
or_else-none (some n) = refl

collected :
    (a : Bytes) (rows : GoMap Bytes Bytes)
    → NodupKeys rows
    → lookup a (collect_bans rows []) ≡ lookup a rows
unfolding lookup
collected a rows unique = collect_lem a rows [] unique ∙ or_else-none (lookup a rows)

-- `BanList` reports an error, or maps exactly the banned addresses to the names of their bans,
-- whatever the order of the rows.
ban_list_lem :
    (d : Database) (s : d.State)
    → NodupKeys (d.tables s).ban
    → (ban_list d s ≡ err database)
      ⊎ ((m : GoMap Bytes Bytes) × (ban_list d s ≡ ok m)
          × ((a : Bytes) → lookup a m ≡ lookup a (d.tables s).ban))
unfolding ban_list
ban_list_lem d s unique = elim (Bool-cases (d.opens s)) [
  | inr closed ↦ inl (rw closed)
  | inl opened ↦ elim (d.list_ban_answers s) [
    | inl fails ↦ inl (rw (opened, fails))
    | inr reads ↦ inr (
      collect_bans (d.tables s).ban [],
      rw (opened, reads),
      λ a. collected a (d.tables s).ban unique,
    )
  ]
]
