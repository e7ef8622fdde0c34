-- ===== src/Config.antt =====
-- config.go: the look-up of configuration values, and the server names of conn.go, which rest on it.
pub mod Paths
mod Tests
use multiserver.Shared.{
  ℕ, ◌+◌, Bool, true, false, Option, none, some, List, [], ◌∷◌, ◌++◌, Bytes, codes, ◌==◌, bytes_eq,
  if◌then◌else◌,
}
use multiserver.Shared.Run.{Run, returns, panic, ◌>>=◌}
use multiserver.Text.{split}

-- A key of a dictionary: only a text is ever asked for.
pub data Key : Type 0 where
  name : Bytes → Key
  no_text : Key

-- What the YAML parser makes of a value. An `int` keeps its bit pattern; what the program has no use
-- for is `other`. A dictionary's entries stand in the order in which a `range` visits them.
mutual
  pub data Value : Type 0 where
    null other : Value
    text : Bytes → Value
    int : ℕ → Value
    flag : Bool → Value
    seq : Values → Value
    dictionary : Entries → Value

  pub data Values : Type 0 where
    no_values : Values
    value : Value → Values → Values

  pub data Entries : Type 0 where
    no_entries : Entries
    entry : Key → Value → Entries → Entries

-- `c[k]`: nil where the key is missing.
unfoldable pub value_at : Bytes → Entries → Value
value_at k no_entries = null
value_at k (entry no_text v es) = value_at k es
value_at k (entry (name j) v es) = if j == k then v else value_at k es

-- The loop over all the keys but the last, and the last. A value on the way that is nil ends it, and
-- one that is no dictionary makes the type assertion panic.
unfoldable pub conf_step : Value → (Entries → Run Value) → Run Value
conf_step null rest = returns null
conf_step (dictionary c) rest = rest c
conf_step other rest = panic
conf_step (text t) rest = panic
conf_step (int n) rest = panic
conf_step (flag b) rest = panic
conf_step (seq vs) rest = panic

unfoldable pub conf_walk : List Bytes → Entries → Run Value
unfolding value_at conf_step
conf_walk [] c = returns null
conf_walk (k ∷ []) c = returns (value_at k c)
conf_walk (k ∷ j ∷ ks) c = conf_step (value_at k c) (conf_walk (j ∷ ks))

-- `ConfKey(key)`
unfoldable pub conf_key : Entries → Bytes → Run Value
unfolding conf_walk
conf_key config key = conf_walk (split b':' key) config

-- The type assertions, with `ok`.
abbrev pub as_text : Value → Option Bytes
as_text (text t) = some t
as_text _ = none

abbrev pub as_int : Value → Option ℕ
as_int (int n) = some n
as_int _ = none

abbrev pub as_seq : Value → Option Values
as_seq (seq vs) = some vs
as_seq _ = none

abbrev pub as_dictionary : Value → Option Entries
as_dictionary (dictionary c) = some c
as_dictionary _ = none

-- `v == s` of an interface and a string.
abbrev pub is_text : Option Bytes → Bytes → Bool
is_text none s = false
is_text (some t) s = t == s

-- `"servers:" + server + ":address"`
abbrev pub address_key : Bytes → Bytes
address_key server = codes "servers:" ++ (server ++ codes ":address")

-- `ConfKey("servers:" + server + ":address").(string)`
unfoldable pub server_address : Entries → Bytes → Run (Option Bytes)
unfolding conf_key
server_address config server = conf_key config (address_key server) >>= λ v. returns (as_text v)

-- What `ConfKey` gave, compared with `c.Server().Addr().String()`: a connection with no server panics.
abbrev pub is_server : Option Bytes → Option Bytes → Run Bool
is_server found none = panic
is_server found (some a) = returns (is_text found a)

-- The loop of `ServerName` over the servers.
unfoldable pub name_loop : Entries → Option Bytes → Entries → Run Bytes
unfolding server_address
name_loop config addr no_entries = returns []
name_loop config addr (entry no_text v es) = panic
name_loop config addr (entry (name server) v es) =
    let rest = name_loop config addr es in
    server_address config server >>= λ found.
    is_server found addr >>= λ same. if same then returns server else rest

-- `c.ServerName()`: `addr` is the address of the server of `c`, if it has one.
unfoldable pub server_name : Entries → Option Bytes → Run Bytes
unfolding name_loop conf_key
server_name config addr = conf_key config (codes "servers") >>= λ v. elim (as_dictionary v) [
  | none ↦ panic
  | some servers ↦ name_loop config addr servers
]

-- The length of `ConnsServer(server)`, from the servers of the connections.
unfoldable pub conns_server : Entries → List (Option Bytes) → Bytes → Run ℕ
unfolding server_name
conns_server config [] server = returns 0
conns_server config (addr ∷ conns) server =
    let rest = conns_server config conns server in
    server_name config addr >>= λ n.
    rest >>= λ count. returns (if n == server then count + 1 else count)
