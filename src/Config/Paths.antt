-- ===== src/Config/Paths.antt =====
-- Look-ups by a path of keys.
use multiserver.Shared.{
  ◌≡◌, refl, ap, ◌∙◌, some, List, [], ◌∷◌, ◌++◌, Bytes, codes, All, append_assoc, arith,
}
use multiserver.Shared.Run.{returns, panic, ◌>>=◌}
use multiserver.Text.{join}
use multiserver.Text.Laws.{Lacks, split-join}
use multiserver.Config.{
  Value, Entries, dictionary, value_at, conf_step, conf_walk, conf_key, address_key, server_address,
  as_text, text,
}

-- A path from a dictionary to a value, through dictionaries.
pub data Reaches : Entries → List Bytes → Value → Type 0 where
  here : {c : Entries} {v : Value} (k : Bytes) → value_at k c ≡ v → Reaches c (k ∷ []) v
  through :
      {c d : Entries} {v : Value} (k j : Bytes) (ks : List Bytes)
      → value_at k c ≡ dictionary d
      → Reaches d (j ∷ ks) v
      → Reaches c (k ∷ j ∷ ks) v

conf_walk-Reaches :
    {c : Entries} {ks : List Bytes} {v : Value} → Reaches c ks v → conf_walk ks c ≡ returns v
unfolding conf_walk conf_step
conf_walk-Reaches (here k at) = ap returns at
conf_walk-Reaches (through k j ks at rest) = rw (at) (conf_walk-Reaches rest)

-- The keys of a path joined by colons look up the value at its end, if no key holds a colon.
pub conf_key-Reaches :
    {c : Entries} {v : Value} (k : Bytes) (ks : List Bytes)
    → All (Lacks b':') (k ∷ ks)
    → Reaches c (k ∷ ks) v
    → conf_key c (join b':' (k ∷ ks)) ≡ returns v
unfolding conf_key
conf_key-Reaches k ks lacks path = rw (split-join b':' k ks lacks) (conf_walk-Reaches path)

-- The configuration has a server of the name, with the text `a` for its address.
pub record HasServer (config : Entries) (s a : Bytes) : Type 0 where
  pub servers : Entries
  pub entries : Entries
  pub at_servers : value_at (codes "servers") config ≡ dictionary servers
  pub at_name : value_at s servers ≡ dictionary entries
  pub at_address : value_at (codes "address") entries ≡ text a

codes-Lacks : Lacks b':' (codes "servers") × Lacks b':' (codes "address")
codes-Lacks = (omega arith, omega arith)

address_path : (s : Bytes) → address_key s ≡ join b':' (codes "servers" ∷ s ∷ codes "address" ∷ [])
unfolding join
address_path s = refl

-- The address of a server of the configuration whose name holds no colon is found under its name. Under
-- its name with ":address" behind it the look-up panics, since it takes the address for a dictionary.
pub server_address_lem :
    (config : Entries) (s a : Bytes)
    → Lacks b':' s
    → HasServer config s a
    → (server_address config s ≡ returns (some a))
      × (server_address config (s ++ codes ":address") ≡ panic)
unfolding server_address conf_key conf_walk conf_step join
server_address_lem config s a lacks h =
    let keys = codes "servers" ∷ s ∷ codes "address" ∷ [] in
    let (ls, la) = codes-Lacks in
    let path : Reaches config keys (text a) =
      through (codes "servers") s _ h.at_servers
        (through s (codes "address") [] h.at_name (here (codes "address") h.at_address)) in
    let found : conf_key config (address_key s) ≡ returns (text a) =
      ap (conf_key config) (address_path s)
      ∙ conf_key-Reaches (codes "servers") (s ∷ codes "address" ∷ []) (ls, (lacks, (la, tt)))
          path in
    let long : address_key (s ++ codes ":address")
        ≡ join b':' (codes "servers" ∷ s ∷ codes "address" ∷ codes "address" ∷ []) =
      ap (λ t. codes "servers:" ++ t) (append_assoc s (codes ":address") (codes ":address")) in
    let keys' = codes "servers" ∷ s ∷ codes "address" ∷ codes "address" ∷ [] in
    let walk : conf_walk keys' config ≡ panic = rw (h.at_servers, h.at_name, h.at_address) refl in
    let panics : conf_key config (address_key (s ++ codes ":address")) ≡ panic =
      ap (conf_key config) long
      ∙ ap (λ ks. conf_walk ks config)
          (split-join b':' (codes "servers") (s ∷ codes "address" ∷ codes "address" ∷ [])
            (ls, (lacks, (la, (la, tt)))))
      ∙ walk in
    (
      ap (λ m. m >>= λ v. returns (as_text v)) found,
      ap (λ m. m >>= λ v. returns (as_text v)) panics,
    )
