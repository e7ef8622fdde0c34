-- ===== src/Chat/Entering.antt =====
-- Who is sent to a server by the chat command `server`.
use multiserver.Shared.{
  ◌≡◌, ◌⊎◌, refl, sym, ap, ◌∙◌, Bool, true, false, not, ◌&&◌, Option, none, some, List, [], ◌∷◌,
  Bytes, codes, insert, holds, holds-insert, ◌==◌, ==_refl, bytes_eq, NodupKeys, insert-NodupKeys,
  if◌then◌else◌, inl, inr, arith,
}
use multiserver.Shared.Run.{Run, returns, panic, stuck, ◌>>=◌}
use multiserver.Conn.{Conn}
use multiserver.Config.{Value, Entries, conf_key, as_text, as_dictionary, server_name, value_at}
use multiserver.Database.{Database, Answer, ok, err}
use multiserver.Privs.{Privileges, privs, check_privs}
use multiserver.Privs.Store.{check_privs_iff}
use multiserver.Chat.Servers.{
  CommandEffect, say, redirect_to, close_with, server_priv, group_priv, add_priv, or_empty, is_nil,
  in_groups, names_text, groups_text, servers_of, list_servers, join_server, check_server_privs,
  server_command,
}

-- The players that are sent, and where.
unfoldable pub sent_to : List CommandEffect → List (Conn × Bytes)
sent_to [] = []
sent_to (say msg ∷ effects) = sent_to effects
sent_to (close_with c reason ∷ effects) = sent_to effects
sent_to (redirect_to c server ∷ effects) = (c, server) ∷ sent_to effects

-- A player holds the privilege that a string of the configuration names, if there is one.
unfoldable pub Held : Option Bytes → Privileges → Type 0
Held none m = Unit
Held (some p) m = holds p m ≡ true

bind_elim {ℓ κ μ} :
    {A : Type ℓ} {B : Type κ} {P : Type μ} {b : B} (r : Run A) (f : A → Run B)
    → ((a : A) → r ≡ returns a → f a ≡ returns b → P)
    → (r >>= f) ≡ returns b
    → P
bind_elim (returns a) f k h = k a refl h
bind_elim panic f k h = absurd (cc h)
bind_elim stuck f k h = absurd (cc h)

if_elim {ℓ μ} :
    {B : Type ℓ} {P : Type μ} {b : B} (t : Bool) (x y : Run B)
    → (x ≡ returns b → P)
    → (y ≡ returns b → P)
    → (if t then x else y) ≡ returns b
    → P
if_elim true x y on_true on_false h = on_true h
if_elim false x y on_true on_false h = on_false h

add_priv-NodupKeys : (p : Option Bytes) (m : Privileges) → NodupKeys m → NodupKeys (add_priv p m)
add_priv-NodupKeys none m u = u
add_priv-NodupKeys (some p) m u = insert-NodupKeys p true m u

kept_by_add_priv :
    (k : Bytes) (p : Option Bytes) (m : Privileges)
    → holds k m ≡ true
    → holds k (add_priv p m) ≡ true
kept_by_add_priv k none m h = h
kept_by_add_priv k (some p) m h = ground (arith, holds-insert k p true m)

-- What is required is held, if all of a map is that the two strings were added to.
add_priv-Held :
    (p1 p2 : Option Bytes) (m : Privileges)
    → ((k : Bytes) → holds k (add_priv p2 (add_priv p1 [])) ≡ true → holds k m ≡ true)
    → Held p1 m × Held p2 m
unfolding Held
add_priv-Held none none m h = (tt, tt)
add_priv-Held none (some p) m h = (tt, h p (rw (holds-insert p p true [], ==_refl p) refl))
add_priv-Held (some p) none m h = (h p (rw (holds-insert p p true [], ==_refl p) refl), tt)
add_priv-Held (some p) (some q) m h = (
  h p (kept_by_add_priv p (some q) _ (rw (holds-insert p p true [], ==_refl p) refl)),
  h q (rw (holds-insert q q true (insert p true []), ==_refl q) refl),
)

join_cases :
    (c : Conn) (param reqpriv : Bytes) (a : Answer Bool)
    → (sent_to (join_server c param reqpriv a) ≡ [])
      ⊎ ((sent_to (join_server c param reqpriv a) ≡ (c, param) ∷ []) × (a ≡ ok true))
unfolding sent_to join_server
join_cases c param reqpriv (err e) = inl refl
join_cases c param reqpriv (ok false) = inl refl
join_cases c param reqpriv (ok true) = inr (refl, refl)

module _ (config : Entries) (srv_addr : Conn → Option Bytes) (d : Database) (s : d.State)
    (c : Conn) where
  -- Nobody is sent, or the player is sent to `param` and holds what the configuration asks for.
  unfoldable pub Guarded : Bytes → List CommandEffect → Type 0
  Guarded param effects =
      (sent_to effects ≡ [])
      ⊎ ((sent_to effects ≡ (c, param) ∷ [])
          × ((v1 : Value) × (v2 : Value) × (m : Privileges) × (conf_key config (server_priv param)
                ≡ returns v1)
              × (conf_key config (group_priv param) ≡ returns v2)
              × (privs d s c.username ≡ ok m)
              × Held (as_text v1) m
              × Held (as_text v2) m))

  says-Guarded :
      (param msg : Bytes) {effects : List CommandEffect}
      → returns (say msg ∷ []) ≡ returns effects
      → Guarded param effects
  unfolding Guarded sent_to
  says-Guarded param msg {effects} h =
      let e : say msg ∷ [] ≡ effects = cc h in inl (ap sent_to (sym e))

  check_server_privs-Guarded :
      (param : Bytes) (effects : List CommandEffect)
      → check_server_privs config srv_addr d s c param ≡ returns effects
      → Guarded param effects
  unfolding check_server_privs Guarded
  check_server_privs-Guarded param effects =
      bind_elim (conf_key config (server_priv param)) _ (λ v1 e1.
        bind_elim (conf_key config (group_priv param)) _ (λ v2 e2 h.
          let required = add_priv (as_text v2) (add_priv (as_text v1) []) in
          let allowed = check_privs d s c.username required in
          let ends : join_server c param (or_empty (as_text v2)) allowed ≡ effects = cc h in
          elim (join_cases c param (or_empty (as_text v2)) allowed) [
            | inl nobody ↦ inl (ap sent_to (sym ends) ∙ nobody)
            | inr (goes, may) ↦
                let unique =
                  add_priv-NodupKeys (as_text v2) _ (add_priv-NodupKeys (as_text v1) [] tt) in
                let (m, reads, all) = (check_privs_iff d s c.username required unique).0 may in
                let (held1, held2) = add_priv-Held (as_text v1) (as_text v2) m all in
                inr (ap sent_to (sym ends) ∙ goes, (v1, v2, m, e1, e2, reads, held1, held2))
          ]))

  list_servers-Guarded :
      (param : Bytes) (effects : List CommandEffect)
      → list_servers config srv_addr c ≡ returns effects
      → Guarded param effects
  unfolding list_servers
  list_servers-Guarded param effects = bind_elim (servers_of config srv_addr) _ (λ servers _.
      bind_elim (names_text servers) _ (λ r _.
        bind_elim (conf_key config (codes "groups")) _ (λ groups _.
          bind_elim (groups_text (as_dictionary groups)) _ (λ r2 _.
            bind_elim (server_name config (srv_addr c)) _ (λ srv _. says-Guarded param _)))))

  -- The command `server`, if it does not panic, sends nobody, or it sends its caller to the server or group
  -- that was named. Then the caller's privileges could be read and hold the privilege that the configuration
  -- has under "servers", the name and "priv", if it is a string, and the one under "group_privs" and the name
  -- alike. An empty string counts as a privilege too.
  pub server_command_guards :
      (param : Bytes) (effects : List CommandEffect)
      → server_command config srv_addr d s c param ≡ returns effects
      → Guarded param effects
  unfolding server_command
  server_command_guards param effects =
      if_elim (param == []) _ _ (list_servers-Guarded param effects) (
        bind_elim (servers_of config srv_addr) _ (λ servers _.
          bind_elim (server_name config (srv_addr c)) _ (λ srv _.
            if_elim (srv == param) _ _ (says-Guarded param _) (
              bind_elim (conf_key config (codes "groups")) _ (λ groups _.
                if_elim
                  (is_nil (value_at param servers) && not (in_groups param (as_dictionary groups)))
                  _ _ (says-Guarded param _) (check_server_privs-Guarded param effects))))))
