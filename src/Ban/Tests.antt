-- ===== src/Ban/Tests.antt =====
-- Concrete addresses.
use multiserver.Shared.{
  ◌≡◌, ◌≢◌, ◌⊎◌, refl, Bool, true, false, none, [], ◌∷◌, Bytes, codes, lookup, insert, NodupKeys,
  bytes_eq, bytes_beq,
}
use multiserver.Database.{Tables, ok, err, Error, effect, answer, delete_rows}
use multiserver.Database.Memory.{memory, empty_tables}
use multiserver.Ban.{ban, unban, is_banned, conn_ban}
use multiserver.Ban.Effects.{conn_ban_bans}

abbrev home : Bytes
home = codes "10.0.0.1"

abbrev away : Bytes
away = codes "10.0.0.2"

abbrev any_text : Bytes → Bool
any_text s = true

abbrev banned_home : Tables
banned_home = record empty_tables { ban = (home, codes "ann") ∷ [] }

ban_home : ban memory any_text empty_tables home (codes "ann") ≡ (ok tt, banned_home)
unfolding ban effect lookup insert
ban_home = refl

unban_ann : unban memory banned_home (codes "ann") ≡ (ok tt, empty_tables)
unfolding unban effect delete_rows bytes_beq
unban_ann = refl

home_unique : NodupKeys banned_home.ban
unfolding lookup
home_unique = (refl, tt)

away_free : is_banned memory banned_home away ≡ (false, [], none)
unfolding is_banned answer lookup bytes_beq
away_free = refl

bob_named : codes "bob" ≢ []
bob_named h = cc

conn_ban_bans_example :
    ((conn_ban memory any_text banned_home (codes "bob") away).result ≡ ok tt)
    × ((conn_ban memory any_text banned_home (codes "bob") away).closed ≡ true)
    × (((e : Error) × ((ban memory any_text banned_home away (codes "bob")).0 ≡ err e))
        ⊎ ((is_banned memory (conn_ban memory any_text banned_home (codes "bob") away).state away).0
            ≡ true))
conn_ban_bans_example =
    conn_ban_bans memory any_text banned_home (codes "bob") away [] bob_named away_free
