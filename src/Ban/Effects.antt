-- ===== src/Ban/Effects.antt =====
-- Banning and unbanning, and what `IsBanned` says afterwards.
use multiserver.Shared.{
  ◌≡◌, ◌≢◌, ◌⊎◌, refl, sym, ap, ◌∙◌, Bool, true, false, not, ◌||◌, Option, none, some, [], ◌∷◌,
  Bytes, GoMap, lookup, insert, lookup-insert, NodupKeys, ◌==◌, ==_ne, ==_refl, bytes_eq,
  Bool-cases, bytes_beq_iff, if◌then◌else◌, arith, inl, inr,
}
use multiserver.Database.Results.{exec_result, query_result}
use multiserver.Database.{
  Database, Tables, Answer, ok, err, Error, database, invalid_address, insert_ban, delete_ban,
  select_ban, effect, answer, delete_rows, found,
}
use multiserver.Ban.{is_banned, ban, unban, banned_row, conn_ban}

-- On any error `IsBanned` says that the address is banned.
abbrev pub refuses : Bool × Bytes × Option Error
refuses = (true, [], some database)

read_ban :
    (d : Database) (s : d.State) (addr : Bytes) (o : Option Bytes)
    → lookup addr (d.tables s).ban ≡ o
    → (is_banned d s addr ≡ refuses) ⊎ (is_banned d s addr ≡ banned_row (found o))
unfolding is_banned answer
read_ban d s addr o e = elim (query_result d s (select_ban addr) banned_row) [
  | inl fails ↦ inl fails
  | inr reads ↦ inr (reads ∙ ap (λ x. banned_row (found x)) e)
]

insert-effect :
    (k v : Bytes) (t t' : Tables)
    → effect (insert_ban (k ∷ v ∷ [])) t ≡ some t'
    → t' ≡ record t { ban = insert k v t.ban }
unfolding effect
insert-effect k v t t' h = ground arith

delete_effect :
    (n a : Bytes) (t t' : Tables)
    → effect (delete_ban (n ∷ a ∷ [])) t ≡ some t'
    → t' ≡ record t { ban = delete_rows n a t.ban }
unfolding effect
delete_effect n a t t' h = ground arith

ban_result :
    {S : Type 0} (o p u : Bool) (s s1 s' : S)
    → ◌≡◌ {A = Answer (Unit {0}) × S}
        (if o
          then (if p then (if u then ok tt else err database, s1) else (err invalid_address, s))
          else (err database, s))
        (ok tt, s')
    → (p ≡ true) × (u ≡ true) × (s1 ≡ s')
ban_result false p u s s1 s' h = cc
ban_result true false u s s1 s' h = cc
ban_result true true false s s1 s' h = cc
ban_result true true true s s1 s' h = (refl, refl, ap (λ q. q.1) h)

-- A ban without an error was of a text that `net.ParseIP` accepts. Afterwards `IsBanned` either
-- refuses because the database fails, or answers with the name of the ban; it calls the address
-- banned unless that name is empty. All other rows, and the other tables, are as before.
pub ban-is_banned :
    (d : Database) (parse_ip : Bytes → Bool) (s s' : d.State) (addr name : Bytes)
    → ban d parse_ip s addr name ≡ (ok tt, s')
    → (parse_ip addr ≡ true)
      × ((is_banned d s' addr ≡ refuses) ⊎ (is_banned d s' addr ≡ (not (name == []), name, none)))
      × ((j : Bytes) → j ≢ addr → lookup j (d.tables s').ban ≡ lookup j (d.tables s).ban)
      × (d.tables s' ≡ record (d.tables s) { ban = (d.tables s').ban })
unfolding ban
ban-is_banned d parse_ip s s' addr name e =
    let st = insert_ban (addr ∷ name ∷ []) in
    let (accepted, done, ends) =
      ban_result (d.opens s) (parse_ip addr) (d.exec s st).0 s (d.exec s st).1 s' e in
    let new : d.tables s' ≡ record (d.tables s) { ban = insert addr name (d.tables s).ban } =
      ap d.tables (sym ends) ∙ insert-effect addr name _ _ (d.exec_done s st done) in
    (
      accepted,
      read_ban d s' addr (some name)
          (ap (λ t. lookup addr t.ban) new ∙ rw (lookup-insert, ==_refl addr)),
      λ j ne. ap (λ t. lookup j t.ban) new ∙ rw (lookup-insert, ==_ne addr j (λ q. ne (sym q))),
      new
          ∙ ap (λ (x : GoMap Bytes Bytes). record (d.tables s) { ban = x })
              (sym (ap (λ t. t.ban) new)),
    )

-- What is left of the row of the address `j` when `id` is unbanned.
abbrev pub kept : Bytes → Bytes → Option Bytes → Option Bytes
kept id j none = none
kept id j (some name) = if name == id || j == id then none else some name

delete_lem :
    (j id : Bytes) (t : GoMap Bytes Bytes)
    → NodupKeys t
    → lookup j (delete_rows id id t) ≡ kept id j (lookup j t)
unfolding delete_rows lookup
delete_lem j id [] u = refl
delete_lem j id ((addr, name) ∷ t) (fresh, u) =
    ground
      (arith, delete_lem j id t u, bytes_beq_iff addr j, bytes_beq_iff addr id, bytes_beq_iff j id)

-- After an unban without an error `IsBanned` refuses because the database fails, or answers for every
-- address as before, except that the address `id` and each address whose ban has the name `id` are
-- not banned. The other tables are as before.
unban-is_banned :
    (d : Database) (s s' : d.State) (id : Bytes)
    → NodupKeys (d.tables s).ban
    → unban d s id ≡ (ok tt, s')
    → ((j : Bytes)
        → (is_banned d s' j ≡ refuses)
          ⊎ (is_banned d s' j ≡ banned_row (found (kept id j (lookup j (d.tables s).ban)))))
      × (d.tables s' ≡ record (d.tables s) { ban = (d.tables s').ban })
unfolding unban
unban-is_banned d s s' id unique e =
    let st = delete_ban (id ∷ id ∷ []) in
    let (done, ends) = exec_result (d.opens s) (d.exec s st).0 s (d.exec s st).1 s' e in
    let new : d.tables s' ≡ record (d.tables s) { ban = delete_rows id id (d.tables s).ban } =
      ap d.tables (sym ends) ∙ delete_effect id id _ _ (d.exec_done s st done) in
    (
      λ j.
          read_ban d s' j (kept id j (lookup j (d.tables s).ban))
            (ap (λ t. lookup j t.ban) new ∙ delete_lem j id (d.tables s).ban unique),
      new
          ∙ ap (λ (x : GoMap Bytes Bytes). record (d.tables s) { ban = x })
              (sym (ap (λ t. t.ban) new)),
    )

conn_ban_step :
    (d : Database) (parse_ip : Bytes → Bool) (s : d.State) (username ip name : Bytes)
    → is_banned d s ip ≡ (false, name, none)
    → conn_ban d parse_ip s username ip
      ≡ record { result = ok tt; closed = true; state = (ban d parse_ip s ip username).1 }
unfolding conn_ban
conn_ban_step d parse_ip s username ip name free = rw free

banned_after :
    (d : Database) (parse_ip : Bytes → Bool) (s : d.State) (username ip : Bytes)
    → (ban d parse_ip s ip username).0 ≡ ok tt
    → username ≢ []
    → (is_banned d (ban d parse_ip s ip username).1 ip).0 ≡ true
banned_after d parse_ip s username ip went named =
    let s' = (ban d parse_ip s ip username).1 in
    elim (ban-is_banned d parse_ip s s' ip username (λ i. (went i, s'))).1 [
      | inl refused ↦ ap (λ x. x.0) refused
      | inr reads ↦ ap (λ x. x.0) reads ∙ rw (==_ne username [] named)
    ]

answer_cases : (a : Answer (Unit {0})) → (a ≡ ok tt) ⊎ ((e : Error) × (a ≡ err e))
answer_cases (ok tt) = inl refl
answer_cases (err e) = inr (e, refl)

-- Banning a client that has a name and is not banned disconnects it and reports no error, whatever
-- became of the ban itself: either `Ban` failed, or `IsBanned` refuses the address afterwards.
pub conn_ban_bans :
    (d : Database) (parse_ip : Bytes → Bool) (s : d.State) (username ip name : Bytes)
    → username ≢ []
    → is_banned d s ip ≡ (false, name, none)
    → ((conn_ban d parse_ip s username ip).result ≡ ok tt)
      × ((conn_ban d parse_ip s username ip).closed ≡ true)
      × (((e : Error) × ((ban d parse_ip s ip username).0 ≡ err e))
          ⊎ ((is_banned d (conn_ban d parse_ip s username ip).state ip).0 ≡ true))
conn_ban_bans d parse_ip s username ip name named free =
    rw (conn_ban_step d parse_ip s username ip name free) (
      refl,
      refl,
      elim (answer_cases (ban d parse_ip s ip username).0) [
        | inl went ↦ inr (banned_after d parse_ip s username ip went named)
        | inr (e, fails) ↦ inl (e, fails)
      ],
    )

insert_free :
    (k v : Bytes) (t t' : Tables)
    → effect (insert_ban (k ∷ v ∷ [])) t ≡ some t'
    → lookup k t.ban ≡ none
unfolding effect
insert_free k v t t' h = ground arith

-- `Ban` on every branch where the statement is refused.
refused_cases :
    (d : Database) (o p : Bool) (s s1 : d.State)
    → d.tables s1 ≡ d.tables s
    → (e : Error) × (s2 : d.State) × (◌≡◌ {A = Answer (Unit {0}) × d.State}
        (if o
          then (if p then (if false then ok tt else err database, s1) else (err invalid_address, s))
          else (err database, s))
        (err e, s2))
      × (d.tables s2 ≡ d.tables s)
refused_cases d false p s s1 same = (database, s, refl, refl)
refused_cases d true false s s1 same = (invalid_address, s, refl, refl)
refused_cases d true true s s1 same = (database, s1, refl, same)

-- An address that has a ban is not banned again: `Ban` reports an error, and the tables stay.
pub ban_again :
    (d : Database) (parse_ip : Bytes → Bool) (s : d.State) (addr name : Bytes)
    → lookup addr (d.tables s).ban ≢ none
    → (e : Error) × (s2 : d.State) × (ban d parse_ip s addr name ≡ (err e, s2))
      × (d.tables s2 ≡ d.tables s)
unfolding ban
ban_again d parse_ip s addr name taken =
    let st = insert_ban (addr ∷ name ∷ []) in
    elim (Bool-cases (d.exec s st).0) [
      | inl done ↦ absurd (taken (insert_free addr name _ _ (d.exec_done s st done)))
      | inr refused ↦ rw refused (
          refused_cases d (d.opens s) (parse_ip addr) s (d.exec s st).1
            (d.exec_failed s st refused))
    ]

-- After a ban without an error the address has the row.
pub ban_stored :
    (d : Database) (parse_ip : Bytes → Bool) (s s' : d.State) (addr name : Bytes)
    → ban d parse_ip s addr name ≡ (ok tt, s')
    → lookup addr (d.tables s').ban ≡ some name
unfolding ban
ban_stored d parse_ip s s' addr name e =
    let st = insert_ban (addr ∷ name ∷ []) in
    let (_, done, ends) =
      ban_result (d.opens s) (parse_ip addr) (d.exec s st).0 s (d.exec s st).1 s' e in
    rw (← ends, insert-effect addr name _ _ (d.exec_done s st done), lookup-insert, ==_refl addr)
      refl
