-- ===== src/Command/Fallback.antt =====
-- A server that shuts down or crashes: its clients are moved to the default server.
use multiserver.Shared.{
  ℕ, ◌≡◌, ◌≢◌, ◌⊎◌, refl, Bool, true, false, ◌||◌, Option, none, some, List, [], ◌∷◌, Bytes, ◌==◌,
  ==_refl, nat_eq, bytes_eq, bytes_beq_iff, if◌then◌else◌, arith, Bool-cases, inl, inr,
}
use multiserver.Wire.{Reader, read_uint8}
use multiserver.Command.{Effect, chat_dst, redirect_dst, await_src, Config}
use multiserver.Command.Server.{
  access_denied, fallback_to, unless_off, fallback_message, access_denied_shutdown,
  access_denied_crash,
}

-- The conditions of the redirection to `target`.
pub record FallsBack (conf : Config) (server : Bytes) (reason : ℕ) (target : Bytes) : Type 0 where
  pub wanted : conf.do_fallback ≢ some false
  pub fatal : (reason ≡ access_denied_shutdown) ⊎ (reason ≡ access_denied_crash)
  pub default : conf.default_server ≡ some target
  pub elsewhere : server ≢ target

fatal_yes :
    (reason : ℕ)
    → (reason == access_denied_shutdown || reason == access_denied_crash) ≡ true
    → (reason ≡ access_denied_shutdown) ⊎ (reason ≡ access_denied_crash)
fatal_yes reason h = ground arith

fatal_no :
    (reason : ℕ)
    → (reason == access_denied_shutdown || reason == access_denied_crash) ≡ false
    → (reason ≡ access_denied_shutdown) ⊎ (reason ≡ access_denied_crash)
    → false ≡ true
fatal_no reason h e = ground arith

-- What happens on a redirection to `target`.
abbrev pub moves_to : ℕ → Bytes → Bool × List Effect
moves_to reason target =
    (true, chat_dst (fallback_message reason) ∷ redirect_dst target ∷ await_src ∷ [])

-- The client is moved, or it is not and there is no server to move it to.
IsChoice : Config → Bytes → ℕ → Bool × List Effect → Type 0
IsChoice conf server reason x =
    ((target : Bytes) × FallsBack conf server reason target × (x ≡ moves_to reason target))
    ⊎ (((target : Bytes) → ¬ FallsBack conf server reason target) × (x ≡ (false, [])))

target_decided :
    (conf : Config) (server : Bytes) (reason : ℕ) (o : Option Bytes)
    → conf.do_fallback ≢ some false
    → (reason ≡ access_denied_shutdown) ⊎ (reason ≡ access_denied_crash)
    → conf.default_server ≡ o
    → IsChoice conf server reason (fallback_to reason o server)
unfolding IsChoice
target_decided conf server reason none wanted fatal e = inr (λ t f. cc (f.default), refl)
target_decided conf server reason (some target) wanted fatal e =
    elim (Bool-cases (server == target)) [
      | inl same ↦
          let here = (bytes_beq_iff server target).0 same in
          inr (λ t f. f.elsewhere (cc (here, e, f.default)), rw same refl)
      | inr differ ↦ inl (
        target,
        record {
          wanted = wanted;
          fatal = fatal;
          default = e;
          elsewhere = λ same. cc (same, differ, ==_refl target);
        },
        rw differ refl,
      )
    ]

wanted_decided :
    (conf : Config) (server : Bytes) (reason : ℕ)
    → conf.do_fallback ≢ some false
    → IsChoice conf server reason (
        if reason == access_denied_shutdown || reason == access_denied_crash
        then fallback_to reason conf.default_server server
        else (false, []))
unfolding IsChoice
wanted_decided conf server reason wanted =
    elim (Bool-cases (reason == access_denied_shutdown || reason == access_denied_crash)) [
      | inl fatal ↦ rw fatal (
          target_decided conf server reason conf.default_server wanted (fatal_yes reason fatal)
            refl)
      | inr other ↦ inr (λ t f. cc (fatal_no reason other f.fatal), rw other refl)
    ]

settled :
    (conf : Config) (server : Bytes) (reason : ℕ) (o : Option Bool)
    → conf.do_fallback ≡ o
    → IsChoice conf server reason (
        unless_off o (
          if reason == access_denied_shutdown || reason == access_denied_crash
          then fallback_to reason conf.default_server server
          else (false, [])))
unfolding IsChoice
settled conf server reason none e = wanted_decided conf server reason (λ off. cc (off, e))
settled conf server reason (some true) e = wanted_decided conf server reason (λ off. cc (off, e))
settled conf server reason (some false) e = inr (λ t f. f.wanted e, refl)

-- On a denial of access the packet is dropped and the client is moved exactly if the configuration does
-- not forbid it, the server shuts down or crashed, and there is a default server, which the client is
-- not on. Otherwise the packet is passed on and nothing happens.
pub access_denied_lem :
    (conf : Config) (server : Bytes) (r : Reader)
    → ((target : Bytes) × FallsBack conf server (read_uint8 r).0 target
        × (access_denied conf server r ≡ moves_to (read_uint8 r).0 target))
      ⊎ (((target : Bytes) → ¬ FallsBack conf server (read_uint8 r).0 target)
          × (access_denied conf server r ≡ (false, [])))
unfolding access_denied IsChoice
access_denied_lem conf server r = settled conf server (read_uint8 r).0 conf.do_fallback refl
