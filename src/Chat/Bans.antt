-- ===== src/Chat/Bans.antt =====
-- The chat command `ban` for an address.
use multiserver.Shared.{
  ◌≡◌, ◌≢◌, ◌⊎◌, refl, Bool, true, none, List, [], ◌∷◌, ◌++◌, Bytes, codes, lookup, ==_ne, bytes_eq,
  bytes_beq,
}
use multiserver.Conn.{Conn}
use multiserver.Database.{Database, ok}
use multiserver.Ban.{is_banned, ban}
use multiserver.Ban.Effects.{refuses, ban-is_banned, ban_again, ban_stored}
use multiserver.Chat.Servers.{say, conn_by_username}
use multiserver.Chat.Moderation.{ban_command, not_online}

module _ (d : Database) (parse_ip : Bytes → Bool) (ip_of : Conn → Bytes) (conns : List Conn) where
  -- Of an address that has a ban, and that is no player's name, the command says that it is not online.
  ban_command_taken :
      (s : d.State) (addr : Bytes)
      → addr ≢ []
      → conn_by_username addr conns ≡ none
      → lookup addr (d.tables s).ban ≢ none
      → ((ban_command d parse_ip ip_of conns s addr).0 ≡ say (not_online addr) ∷ [])
        × (d.tables (ban_command d parse_ip ip_of conns s addr).1 ≡ d.tables s)
  unfolding ban_command
  ban_command_taken s addr named nobody taken =
      let (e, s2, fails, same) = ban_again d parse_ip s addr (codes "not known") taken in
      rw (==_ne addr [] named, fails, nobody) (refl, same)

  -- Where `Ban` takes an address, the command `ban` says that it is banned, and `IsBanned` then says so with
  -- the name "not known", or refuses because the database fails. The same command a second time says that
  -- the address is not online, and the tables stay. The address is not empty and nobody has it for a name.
  pub ban_command_twice :
      (s s' : d.State) (addr : Bytes)
      → addr ≢ []
      → conn_by_username addr conns ≡ none
      → ban d parse_ip s addr (codes "not known") ≡ (ok tt, s')
      → (ban_command d parse_ip ip_of conns s addr ≡ (say (codes "Banned " ++ addr) ∷ [], s'))
        × ((is_banned d s' addr ≡ refuses)
            ⊎ (is_banned d s' addr ≡ (true, codes "not known", none)))
        × ((ban_command d parse_ip ip_of conns s' addr).0 ≡ say (not_online addr) ∷ [])
        × (d.tables (ban_command d parse_ip ip_of conns s' addr).1 ≡ d.tables s')
  ban_command_twice s s' addr named nobody done =
      let stored = ban_stored d parse_ip s s' addr (codes "not known") done in
      let (says, same) = ban_command_taken s' addr named nobody (λ e. cc (stored, e)) in
      (
        unfold ban_command in rw (==_ne addr [] named, done) refl,
        unfold bytes_beq in (ban-is_banned d parse_ip s s' addr (codes "not known") done).1,
        says,
        same,
      )
