-- ===== src/Privs/Tests.antt =====
-- Concrete players: "ann" has the privileges "send" and "ban", "bob" none.
use multiserver.Shared.{
  ◌≡◌, ◌≢◌, refl, true, false, none, [], ◌∷◌, Bytes, codes, lookup, insert, holds, NodupKeys,
  bytes_eq, bytes_beq, arith,
}
use multiserver.Text.{split, join}
use multiserver.Database.{Tables, ok, effect, answer}
use multiserver.Database.Memory.{memory, empty_tables}
use multiserver.Privs.{
  Privileges, granted, encode_privs, decode_privs, privs, set_privs, check_privs, admin_priv,
}
use multiserver.Privs.Codec.{HasNames}

abbrev sample : Privileges
sample = (codes "send", true) ∷ (codes "kick", false) ∷ (codes "ban", true) ∷ []

abbrev ann : Bytes
ann = codes "ann"

sample_text : encode_privs sample ≡ codes "send|ban"
unfolding encode_privs granted join
sample_text = refl

sample_unique : NodupKeys sample
unfolding lookup bytes_beq
sample_unique = (refl, (refl, (refl, tt)))

sample_names : HasNames sample
sample_names = ground arith

abbrev with_ann : Tables
with_ann = record empty_tables { privileges = (ann, codes "send|ban") ∷ [] }

ann_may_ban : check_privs memory with_ann ann ((codes "ban", true) ∷ []) ≡ ok true
unfolding check_privs decode_privs split holds lookup insert bytes_beq answer
ann_may_ban = refl

abbrev set_sample : Tables
set_sample = (set_privs memory empty_tables ann sample).1

sample_set : set_privs memory empty_tables ann sample ≡ (ok tt, set_sample)
unfolding set_privs effect lookup insert bytes_beq encode_privs granted join
sample_set = refl

abbrev granted_ann : Privileges
granted_ann = insert admin_priv true (decode_privs (codes "send|ban"))

abbrev set_ann : Tables
set_ann = (set_privs memory with_ann ann granted_ann).1

ann_read : privs memory with_ann ann ≡ ok (decode_privs (codes "send|ban"))
unfolding privs answer lookup bytes_beq
ann_read = refl

ann_set : set_privs memory with_ann ann granted_ann ≡ (ok tt, set_ann)
unfolding set_privs effect lookup bytes_beq
ann_set = refl

ann_present : lookup ann with_ann.privileges ≢ none
unfolding lookup bytes_beq
ann_present e = cc
