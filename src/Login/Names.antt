-- ===== src/Login/Names.antt =====
-- Who is asked for a password: the checks of the first packet.
use multiserver.Shared.{
  ℕ, ◌≤◌, ◌≡◌, ◌≢◌, ◌↔◌, ◌⊎◌, refl, sym, ap, Bool, true, false, ◌||◌, Option, none, some, [], ◌∷◌,
  ◌++◌, Bytes, codes, ◌==◌, ==_ne, nat_eq, bytes_eq, arith, GoMap, holds, length, if_holds,
  bytes_beq_iff, All,
}
use multiserver.Shared.Run.{Run, returns, panic, stuck, ◌>>=◌}
use multiserver.Wire.{Reader, seek_start, read_uint16, read_bytes16}
use multiserver.Conn.{Conn}
use multiserver.Database.{Database, Answer, ok, err, Error}
use multiserver.Auth.{password}
use multiserver.Ban.{is_banned}
use multiserver.Command.Client.{Srp}
use multiserver.Login.{
  LoginConfig, Login, again, closes, Denial, custom_string, wrong_version, wrong_name,
  already_connected, proto_min, proto_latest, max_player_name_length, name_char, name_chars,
  name_denial, with_account, agreed_version, refuses_version,
}
use multiserver.Login.Rounds.{init_known, init_named, init_banned, login_init}

name_chars-All : (name : Bytes) → (name_chars name ≡ true) ↔ All (λ b. name_char b ≡ true) name
unfolding name_chars
name_chars-All [] = (λ _. tt, λ _. refl)
name_chars-All (b ∷ name) = (
  λ h. (ground arith, (name_chars-All name).0 (ground arith)),
  λ (hb, h). rw (hb, (name_chars-All name).1 h) refl,
)

-- A name is taken exactly if it has between 1 and 20 characters, all of them letters, digits, `-` or `_`.
name_denial_iff :
    (name : Bytes)
    → (name_denial name ≡ none)
      ↔ ((name ≢ []) × (length name ≤ max_player_name_length) × All (λ b. name_char b ≡ true) name)
unfolding name_denial
name_denial_iff name = (
  λ h.
      (ground (arith, bytes_beq_iff name []), ground arith, (name_chars-All name).0 (ground arith)),
  λ (full, short, chars). ground (arith, ==_ne name [] full, (name_chars-All name).1 chars),
)

-- A range of protocol versions is accepted exactly if it reaches up to the oldest version or down to the
-- latest one: a client that only speaks older versions, or only newer ones, is accepted too.
refuses_version_iff :
    (force_latest : Option Bool) (cli_min cli_max : ℕ)
    → (refuses_version force_latest (agreed_version cli_min cli_max) ≡ false)
      ↔ ((proto_min ≤ cli_max) ⊎ (cli_min ≤ proto_latest))
unfolding refuses_version agreed_version
refuses_version_iff none cli_min cli_max = ground arith
refuses_version_iff (some true) cli_min cli_max = ground arith
refuses_version_iff (some false) cli_min cli_max = ground arith

bind_returns :
    {A B : Type 0} (x : Run A) (f : A → Run B) (b : B)
    → (x >>= f) ≡ returns b
    → (a : A) × (f a ≡ returns b)
bind_returns (returns a) f b h = (a, h)
bind_returns panic f b h = cc
bind_returns stuck f b h = cc

returned : {A : Type 0} (a b : A) → ◌≡◌ {A = Run A} (returns a) (returns b) → a ≡ b
returned a b h = cc

module _ (d : Database) (srp : Srp) (conf : LoginConfig) (online : GoMap Bytes Bool) (ip : Bytes)
    (s : d.State) where
  -- The name is valid, neither reserved nor online, and the address is not banned.
  pub record IsAdmitted (name : Bytes) : Type 0 where
    pub valid : name_denial name ≡ none
    pub offline : holds name online ≡ false
    pub not_media : (name == codes "media") ≡ false
    pub not_rpc : (name == codes "rpc") ≡ false
    pub ban_name : Bytes
    pub not_banned : is_banned d s ip ≡ (false, ban_name, none)

  -- A round that answers and goes on admits the client and keeps the database.
  IsSafe : Run (Login d.State) → Type 0
  IsSafe x =
      (l : Login d.State)
      → x ≡ returns l
      → l.next ≡ again
      → l.sent ≢ []
      → IsAdmitted l.conn.username × (l.state ≡ s)

  account_admits :
      (c : Conn) (a : Answer (Option (Bytes × Bytes)))
      → IsAdmitted c.username
      → IsSafe (returns (with_account c s a))
  unfolding IsSafe
  account_admits c (err e) ad l h goes sends =
      absurd (sends (ap (λ x. x.sent) (sym (returned _ l h))))
  account_admits c (ok none) ad l h goes sends = rw (← returned _ l h) (ad, refl)
  account_admits c (ok (some tokens)) ad l h goes sends = rw (← returned _ l h) (ad, refl)

  closes_admits :
      (told : Bool) (reason : Denial) (custom : Bytes) (c : Conn)
      → IsSafe (returns (closes told reason custom c s))
  unfolding IsSafe
  closes_admits told reason custom c l h goes sends = cc (ap (λ x. x.next) (returned _ l h), goes)

  known_admits :
      (c : Conn) (ban_name : Bytes)
      → name_denial c.username ≡ none
      → is_banned d s ip ≡ (false, ban_name, none)
      → IsSafe (init_known d srp conf online ip s c)
  unfolding init_known IsSafe
  known_admits c ban_name valid not_banned =
      if_holds IsSafe (holds c.username online) _ _ (λ _. closes_admits true already_connected [] c)
        (λ offline.
          if_holds IsSafe (c.username == codes "media" || c.username == codes "rpc") _ _
            (λ _. closes_admits true wrong_name [] c)
            (λ free l h goes sends.
              let (a, ran) = bind_returns (password d s c.username) _ l h in
              account_admits c a
                (record {
                  valid = valid;
                  offline = offline;
                  not_media = ground (arith, free);
                  not_rpc = ground (arith, free);
                  ban_name = ban_name;
                  not_banned = not_banned;
                })
                l ran goes sends))

  banned_admits :
      (c : Conn) (x : Bool × Bytes × Option Error)
      → name_denial c.username ≡ none
      → is_banned d s ip ≡ x
      → IsSafe (init_banned d srp conf online ip s c x)
  unfolding IsSafe
  banned_admits c (banned, name, some e) valid eq =
      λ l h goes sends. absurd (sends (ap (λ x. x.sent) (sym (returned _ l h))))
  banned_admits c (true, name, none) valid eq =
      closes_admits true custom_string (codes "Your IP address is banned. Banned name is " ++ name)
        c
  banned_admits c (false, name, none) valid eq = known_admits c name valid eq

  named_admits :
      (c : Conn) (o : Option Denial)
      → name_denial c.username ≡ o
      → IsSafe (init_named d srp conf online ip s c o)
  named_admits c (some reason) eq = closes_admits true reason [] c
  named_admits c none eq = banned_admits c (is_banned d s ip) eq refl

  -- A client is asked for a password (its packet is answered and the loop goes on) only if its name is valid,
  -- neither reserved nor online, and its address is not banned; the database is as before.
  pub login_init_admits :
      (c : Conn) (r : Reader) (l : Login d.State)
      → login_init d srp conf online ip s c r ≡ returns l
      → l.next ≡ again
      → l.sent ≢ []
      → IsAdmitted l.conn.username × (l.state ≡ s)
  unfolding login_init IsSafe
  login_init_admits c r =
      let (name, r1) = read_bytes16 (seek_start 9 r) in
      let (cli_min, r2) = read_uint16 (seek_start 5 r1) in
      let protov = agreed_version cli_min (read_uint16 r2).0 in
      let c1 : Conn = record c { username = name; proto_ver = protov } in
      if_holds IsSafe (refuses_version conf.force_latest_proto protov) _ _
        (λ _. closes_admits true wrong_version [] c1) (λ _. named_admits c1 (name_denial name) refl)
