-- ===== src/Auth/Tests.antt =====
-- Concrete accounts.
use multiserver.Shared.{
  ◌≡◌, ◌≢◌, refl, none, [], ◌∷◌, Bytes, codes, lookup, insert, bytes_beq, bytes_eq, arith,
}
use multiserver.Database.{Tables, ok, effect, answer}
use multiserver.Database.Memory.{memory, empty_tables}
use multiserver.Storage.{storage_key, set_storage_key, storage_statement}
use multiserver.Auth.{encode_verifier_and_salt, create_user, set_password, load_passphrase}
use multiserver.Auth.Accounts.{Reads, Stores, create_user-password, set_password-password}

abbrev ann : Bytes
ann = codes "ann"

abbrev with_ann : Bytes → Tables
with_ann pwd = record empty_tables { auth = (ann, pwd) ∷ [] }

abbrev first_pwd : Bytes
first_pwd = encode_verifier_and_salt (3 ∷ 4 ∷ []) (1 ∷ 255 ∷ [])

abbrev second_pwd : Bytes
second_pwd = encode_verifier_and_salt (7 ∷ []) (9 ∷ [])

ann_created :
    create_user memory empty_tables ann (1 ∷ 255 ∷ []) (3 ∷ 4 ∷ []) ≡ (ok tt, with_ann first_pwd)
unfolding create_user effect lookup insert
ann_created = refl

create_user-password_example :
    (lookup ann empty_tables.auth ≡ none)
    × Reads memory (with_ann first_pwd) ann (1 ∷ 255 ∷ []) (3 ∷ 4 ∷ [])
    × Stores ann first_pwd empty_tables (with_ann first_pwd)
create_user-password_example =
    create_user-password memory empty_tables (with_ann first_pwd) ann (1 ∷ 255 ∷ []) (3 ∷ 4 ∷ [])
      (omega arith, (omega arith, tt)) (omega arith, (omega arith, tt)) ann_created

ann_changed :
    set_password memory (with_ann first_pwd) ann (9 ∷ []) (7 ∷ []) ≡ (ok tt, with_ann second_pwd)
unfolding set_password effect lookup insert bytes_beq
ann_changed = refl

ann_there : lookup ann (with_ann first_pwd).auth ≢ none
unfolding lookup bytes_beq
ann_there h = cc

set_password-password_example :
    Reads memory (with_ann second_pwd) ann (9 ∷ []) (7 ∷ [])
    × Stores ann second_pwd (with_ann first_pwd) (with_ann second_pwd)
set_password-password_example =
    set_password-password memory (with_ann first_pwd) (with_ann second_pwd) ann (9 ∷ []) (7 ∷ [])
      (omega arith, tt) (omega arith, tt) ann_there ann_changed

abbrev with_phrase : Tables
with_phrase = record empty_tables { storage = (codes "auth:passphrase", 5 ∷ 6 ∷ []) ∷ [] }

abbrev phrase : Bytes
phrase = 5 ∷ 6 ∷ []

phrase_random : phrase ≢ []
phrase_random h = cc

phrase_loaded : load_passphrase memory empty_tables (5 ∷ 6 ∷ []) ≡ (ok (5 ∷ 6 ∷ []), with_phrase)
unfolding load_passphrase storage_key set_storage_key storage_statement effect answer lookup insert
    bytes_beq
phrase_loaded = refl
