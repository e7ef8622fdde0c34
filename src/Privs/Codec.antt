-- ===== src/Privs/Codec.antt =====
-- Encoding and decoding of privilege sets.
use multiserver.Shared.{
  ◌≡◌, ◌≢◌, refl, ◌∙◌, Bool, true, false, not, ◌&&◌, ◌||◌, List, [], ◌∷◌, Bytes, lookup, insert,
  holds, holds-insert, contains, NodupKeys, ◌==◌, bytes_eq, bytes_beq, bytes_beq_iff, if◌then◌else◌,
  All, arith,
}
use multiserver.Text.{split, join}
use multiserver.Text.Laws.{Lacks, split-join}
use multiserver.Privs.{Privileges, bar, granted, encode_privs, decode_loop, decode_privs}

-- A name that the encoding can hold.
abbrev pub IsName : Bytes → Type 0
IsName p = (p ≢ []) × Lacks bar p

-- Every privilege that is granted has such a name.
abbrev pub HasNames : Privileges → Type 0
HasNames = All (λ (p : Bytes × Bool). p.1 ≡ true → IsName p.0)

holds-decode_loop :
    (k : Bytes) (ps : List Bytes) (r : Privileges)
    → holds k (decode_loop ps r) ≡ ((contains k ps && not (k == [])) || holds k r)
unfolding decode_loop contains
holds-decode_loop k [] r = refl
holds-decode_loop k (p ∷ ps) r = ground (
  arith,
  holds-decode_loop k ps (if p == [] then r else insert p true r),
  holds-insert k p true r,
  bytes_beq_iff p k,
  bytes_beq_iff p [],
  bytes_beq_iff k [],
)

granted-IsName : (m : Privileges) → HasNames m → All IsName (granted m)
unfolding granted
granted-IsName [] h = tt
granted-IsName ((p, true) ∷ m) (hp, h) = (hp refl, granted-IsName m h)
granted-IsName ((p, false) ∷ m) (hp, h) = granted-IsName m h

pub contains-granted :
    (k : Bytes) (m : Privileges) → NodupKeys m → contains k (granted m) ≡ holds k m
unfolding granted holds lookup contains
contains-granted k [] u = refl
contains-granted k ((p, true) ∷ m) (fresh, u) =
    ground (arith, contains-granted k m u, bytes_beq_iff p k)
contains-granted k ((p, false) ∷ m) (fresh, u) =
    ground (arith, contains-granted k m u, bytes_beq_iff p k)

All-snd : (ps : List Bytes) → All IsName ps → All (Lacks bar) ps
All-snd [] h = tt
All-snd (p ∷ ps) ((_, hp), h) = (hp, All-snd ps h)

contains-name :
    (k : Bytes) (ps : List Bytes) → All IsName ps → contains k ps ≡ (contains k ps && not (k == []))
unfolding contains
contains-name k [] h = refl
contains-name k (p ∷ ps) ((hp, _), h) =
    ground (arith, contains-name k ps h, bytes_beq_iff p k, bytes_beq_iff k [])

decode-join :
    (k : Bytes) (ps : List Bytes)
    → All IsName ps
    → holds k (decode_privs (join bar ps)) ≡ contains k ps
unfolding decode_privs
decode-join k [] h = unfold join split decode_loop holds lookup contains bytes_beq in refl
decode-join k (p ∷ ps) h = rw (split-join bar p ps (All-snd (p ∷ ps) h)) (
    holds-decode_loop k (p ∷ ps) []
    ∙ (unfold holds lookup in ground (arith, contains-name k (p ∷ ps) h)))

-- A privilege set is read back from its text, in whatever order the map was visited when it was
-- written, if the names of the granted privileges are not empty and hold no bar: afterwards a
-- privilege is granted exactly if it was.
pub decode_privs-encode_privs :
    (m : Privileges)
    → NodupKeys m
    → HasNames m
    → (k : Bytes) → holds k (decode_privs (encode_privs m)) ≡ holds k m
unfolding encode_privs
decode_privs-encode_privs m u names k =
    decode-join k (granted m) (granted-IsName m names) ∙ contains-granted k m u
