-- ===== src/Storage/Tests.antt =====
-- Concrete entries.
use multiserver.Shared.{◌≡◌, ◌≢◌, refl, [], ◌∷◌, codes, insert, bytes_beq, bytes_eq}
use multiserver.Database.{Tables, ok, err, database, effect}
use multiserver.Database.Memory.{memory, empty_tables}
use multiserver.Storage.{set_storage_key, storage_statement}
use multiserver.Storage.Effects.{set_storage_key_never_deletes}

abbrev motd_set : Tables
motd_set = record empty_tables { storage = (codes "motd", codes "hi") ∷ [] }

hi_full : codes "hi" ≢ []
hi_full h = cc

set_motd : set_storage_key memory empty_tables (codes "motd") (codes "hi") ≡ (ok tt, motd_set)
unfolding set_storage_key storage_statement effect insert bytes_beq
set_motd = refl

set_storage_key_never_deletes_example :
    ((set_storage_key memory motd_set (codes "motd") []).0 ≡ err database)
    × ((set_storage_key memory motd_set (codes "motd") []).1 ≡ motd_set)
set_storage_key_never_deletes_example = set_storage_key_never_deletes memory motd_set (codes "motd")
