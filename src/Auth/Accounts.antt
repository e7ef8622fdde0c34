-- ===== src/Auth/Accounts.antt =====
-- Creating accounts, and changing and reading their SRP tokens.
use multiserver.Shared.{
  ℕ, ◌≡◌, ◌≢◌, ◌⊎◌, refl, sym, ap, ◌∙◌, false, Option, none, some, [], ◌∷◌, ◌++◌, Bytes, GoMap,
  lookup, insert, lookup-insert, ◌==◌, ==_ne, ==_refl, bytes_beq, bytes_eq, arith, inl, inr, All,
}
use multiserver.Shared.Run.{returns}
use multiserver.Wire.Reads.{IsByte}
use multiserver.Text.{split, join}
use multiserver.Text.Laws.{split-join, Lacks}
use multiserver.Text.Base64.{encode64}
use multiserver.Text.Base64.RoundTrip.{encode64-Lacks, decode64-encode64}
use multiserver.Database.Results.{exec_result, query_result}
use multiserver.Database.{
  Database, Tables, ok, err, database, insert_auth, update_auth, select_password, effect, answer,
  found, row,
}
use multiserver.Auth.{
  hash, encode_verifier_and_salt, decode_verifier_and_salt, password_row, password, create_user,
  set_password,
}

parts_back : (s v : Bytes) → Lacks hash s → Lacks hash v → split hash (s ++ hash ∷ v) ≡ s ∷ v ∷ []
parts_back s v hs hv = unfold join in split-join hash s (v ∷ []) (hs, (hv, tt))

-- The text of an account's salt and verifier is decoded to them.
pub decode_verifier_and_salt-encode :
    (s v : Bytes)
    → All IsByte s
    → All IsByte v
    → decode_verifier_and_salt (encode_verifier_and_salt s v) ≡ returns (ok (s, v))
unfolding decode_verifier_and_salt encode_verifier_and_salt
decode_verifier_and_salt-encode s v hs hv =
    rw
      (
        parts_back (encode64 s) (encode64 v) (encode64-Lacks s hs) (encode64-Lacks v hv),
        decode64-encode64 s hs,
        decode64-encode64 v hv,
      )
      refl

not_empty : (xs ys : Bytes) (b : ℕ) → ((xs ++ b ∷ ys) == []) ≡ false
unfolding bytes_beq
not_empty [] ys b = refl
not_empty (x ∷ xs) ys b = refl

filled : (s v : Bytes) → (encode_verifier_and_salt s v == []) ≡ false
unfolding encode_verifier_and_salt
filled s v = not_empty (encode64 s) (encode64 v) hash

stored_row :
    (verifier salt : Bytes)
    → All IsByte verifier
    → All IsByte salt
    → password_row (row (encode_verifier_and_salt salt verifier))
      ≡ returns (ok (some (verifier, salt)))
unfolding password_row
stored_row verifier salt hv hs =
    rw (filled salt verifier, decode_verifier_and_salt-encode salt verifier hs hv) refl

read_password :
    (d : Database) (s : d.State) (name : Bytes) (o : Option Bytes)
    → lookup name (d.tables s).auth ≡ o
    → (password d s name ≡ returns (err database)) ⊎ (password d s name ≡ password_row (found o))
unfolding password answer password_row
read_password d s name o e = elim (query_result d s (select_password name) password_row) [
  | inl fails ↦ inl fails
  | inr reads ↦ inr (reads ∙ ap (λ x. password_row (found x)) e)
]

insert-effect :
    (k v : Bytes) (t t' : Tables)
    → effect (insert_auth (k ∷ v ∷ [])) t ≡ some t'
    → (t' ≡ record t { auth = insert k v t.auth }) × (lookup k t.auth ≡ none)
unfolding effect
insert-effect k v t t' h = ground arith

update_effect :
    (k v : Bytes) (t t' : Tables)
    → effect (update_auth (v ∷ k ∷ [])) t ≡ some t'
    → lookup k t.auth ≢ none
    → t' ≡ record t { auth = insert k v t.auth }
unfolding effect
update_effect k v t t' h there = ground arith

-- `t'` is `t` with the text `v` for the account `k`.
pub record Stores (k v : Bytes) (t t' : Tables) : Type 0 where
  pub stored : lookup k t'.auth ≡ some v
  pub others : (j : Bytes) → j ≢ k → lookup j t'.auth ≡ lookup j t.auth
  pub rest_same : t' ≡ record t { auth = t'.auth }

insert-Stores :
    (k v : Bytes) (t t' : Tables) → t' ≡ record t { auth = insert k v t.auth } → Stores k v t t'
insert-Stores k v t t' new = record {
  stored = ap (λ x. lookup k x.auth) new ∙ rw (lookup-insert, ==_refl k);
  others = λ j ne. ap (λ x. lookup j x.auth) new ∙ rw (lookup-insert, ==_ne k j (λ q. ne (sym q)));
  rest_same =
      new ∙ ap (λ (x : GoMap Bytes Bytes). record t { auth = x }) (sym (ap (λ x. x.auth) new));
}

-- `Password` reads the two tokens, unless the database fails.
abbrev pub Reads : (d : Database) → d.State → Bytes → Bytes → Bytes → Type 0
Reads d s name verifier salt =
    (password d s name ≡ returns (err database))
    ⊎ (password d s name ≡ returns (ok (some (verifier, salt))))

read_stored :
    (d : Database) (s : d.State) (name verifier salt : Bytes)
    → All IsByte verifier
    → All IsByte salt
    → lookup name (d.tables s).auth ≡ some (encode_verifier_and_salt salt verifier)
    → Reads d s name verifier salt
read_stored d s name verifier salt hv hs e =
    elim (read_password d s name (some (encode_verifier_and_salt salt verifier)) e) [
      | inl fails ↦ inl fails
      | inr reads ↦ inr (reads ∙ stored_row verifier salt hv hs)
    ]

-- An account that `CreateUser` creates without an error did not exist before, and `Password` reads its
-- verifier and salt afterwards, unless the database fails. Other accounts and tables are as before.
pub create_user-password :
    (d : Database) (s s' : d.State) (name verifier salt : Bytes)
    → All IsByte verifier
    → All IsByte salt
    → create_user d s name verifier salt ≡ (ok tt, s')
    → (lookup name (d.tables s).auth ≡ none)
      × Reads d s' name verifier salt
      × Stores name (encode_verifier_and_salt salt verifier) (d.tables s) (d.tables s')
unfolding create_user
create_user-password d s s' name verifier salt hv hs e =
    let pwd = encode_verifier_and_salt salt verifier in
    let st = insert_auth (name ∷ pwd ∷ []) in
    let (done, ends) = exec_result (d.opens s) (d.exec s st).0 s (d.exec s st).1 s' e in
    let (new, free) = insert-effect name pwd _ _ (d.exec_done s st done) in
    let stores = insert-Stores name pwd (d.tables s) (d.tables s') (ap d.tables (sym ends) ∙ new) in
    (free, read_stored d s' name verifier salt hv hs stores.stored, stores)

-- After a change of the password of an account without an error `Password` reads the new verifier and
-- salt, unless the database fails. Other accounts and tables are as before.
pub set_password-password :
    (d : Database) (s s' : d.State) (name verifier salt : Bytes)
    → All IsByte verifier
    → All IsByte salt
    → lookup name (d.tables s).auth ≢ none
    → set_password d s name verifier salt ≡ (ok tt, s')
    → Reads d s' name verifier salt
      × Stores name (encode_verifier_and_salt salt verifier) (d.tables s) (d.tables s')
unfolding set_password
set_password-password d s s' name verifier salt hv hs there e =
    let pwd = encode_verifier_and_salt salt verifier in
    let st = update_auth (pwd ∷ name ∷ []) in
    let (done, ends) = exec_result (d.opens s) (d.exec s st).0 s (d.exec s st).1 s' e in
    let new = update_effect name pwd _ _ (d.exec_done s st done) there in
    let stores = insert-Stores name pwd (d.tables s) (d.tables s') (ap d.tables (sym ends) ∙ new) in
    (read_stored d s' name verifier salt hv hs stores.stored, stores)
