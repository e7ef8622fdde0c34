-- ===== src/Proxy.antt =====
-- listen.go, proxy.go, multiserver.go: which clients are accepted, how their packets are passed on, and
-- how they are counted.
pub mod Counts
pub mod Limit
mod Tests
use multiserver.Shared.{
  ℕ, ◌+◌, ◌-◌, ◌%◌, ◌^◌, Bool, true, false, not, Option, none, some, List, [], ◌∷◌, Bytes, codes,
  ◌==◌, nat_eq, leb, if◌then◌else◌,
}
use multiserver.Shared.Run.{Run, returns, ◌>>=◌}
use multiserver.Config.{Entries, conf_key, as_int}

-- `conns` and `connectedConns`; a connection is a number, and the count keeps its bit pattern.
pub record Net : Type 0 where
  pub conns : List ℕ
  pub connected : ℕ

abbrev pub no_clients : Net
no_clients = record { conns = []; connected = 0 }

-- `a <= b` of two `int`
unfoldable pub int_leb : ℕ → ℕ → Bool
int_leb a b = leb ((a + 2 ^ 63) % 2 ^ 64) ((b + 2 ^ 63) % 2 ^ 64)

-- `int(^uint(0) >> 1)`
abbrev pub max_int : ℕ
max_int = 2 ^ 63 - 1

abbrev pub limit_or : Option ℕ → ℕ
limit_or none = max_int
limit_or (some n) = n

-- `delete(conns, clt)`, when the connection is closed.
unfoldable pub delete_conn : ℕ → List ℕ → List ℕ
delete_conn c [] = []
delete_conn c (j ∷ conns) = let rest = delete_conn c conns in if j == c then rest else j ∷ rest

unfoldable pub close_conn : ℕ → Net → Net
unfolding delete_conn
close_conn c net = record net { conns = delete_conn c net.conns }

-- `l.Accept()` for the connection `c`: whether it is accepted. One that is not is closed.
unfoldable pub accept : Entries → ℕ → Net → Run (Bool × Net)
unfolding int_leb close_conn
accept config c net =
    let added = record net { conns = c ∷ net.conns } in
    conf_key config (codes "player_limit") >>= λ v. returns (
      if int_leb (limit_or (as_int v)) net.connected
      then (false, close_conn c added)
      else (true, record added { connected = (net.connected + 1) % 2 ^ 64 }))

-- In `main`, what follows `<-fin`: a client without a server is closed, the other one is served.
unfoldable pub after_init : Option ℕ → ℕ → Net → Net
unfolding close_conn
after_init none c net = close_conn c net
after_init (some srv) c net = net

-- The loop of `main`, for clients that get no server.
unfoldable pub turn_away : Entries → List ℕ → Net → Run Net
unfolding accept after_init
turn_away config [] net = returns net
turn_away config (c ∷ cs) net =
    accept config c net >>= λ a. turn_away config cs (if a.0 then after_init none c a.1 else a.1)

-- What `src.Recv()` gives: a packet, as `processPktCommand` leaves it if it is to be sent on, the error that
-- the connection is closed, or another one.
pub data Received : Type 0 where
  got : Option Bytes → Received
  conn_closed other_error : Received

pub record Round : Type 0 where
  pub received : Received
  pub src_forwards : Bool
  pub dst_forwards : Bool

-- What `Proxy` has done: the packets sent, whether a client was counted out and has left the players, and
-- which connection was closed.
pub record Proxied : Type 0 where
  pub sent : List Bytes
  pub counted_out : Bool
  pub left : Bool
  pub src_closed : Bool
  pub dst_closed : Bool

abbrev pub nothing_done : Proxied
nothing_done = record {
  sent = [];
  counted_out = false;
  left = false;
  src_closed = false;
  dst_closed = false;
}

abbrev pub dst_ends : Proxied
dst_ends = record nothing_done { dst_closed = true }

-- What follows `src.Recv()` where both forward, and then the checks of `Forward` before it; `rest` is what the
-- later rounds do.
unfoldable pub after_recv : Bool → Proxied → Received → Proxied
after_recv is_srv rest (got none) = rest
after_recv is_srv rest (got (some pkt)) = record rest { sent = pkt ∷ rest.sent }
after_recv is_srv rest other_error = rest
after_recv true rest conn_closed = dst_ends
after_recv false rest conn_closed = record dst_ends { counted_out = true; left = true }

abbrev pub round_end : Bool → Bool → Bool → Proxied → Received → Proxied
round_end false dst_forwards is_srv rest received = nothing_done
round_end true false is_srv rest received = dst_ends
round_end true true is_srv rest received = after_recv is_srv rest received

unfoldable pub proxy_loop : Bool → List Round → Proxied
proxy_loop is_srv [] = nothing_done
proxy_loop is_srv (r ∷ rounds) =
    let rest = proxy_loop is_srv rounds in
    round_end r.src_forwards r.dst_forwards is_srv rest r.received

-- `Proxy(src, dst)`, for what `src.IsSrv()` says if there is a source, whether there is a destination, and the
-- rounds of the loop.
unfoldable pub proxy : Option Bool → Bool → List Round → Proxied
unfolding proxy_loop
proxy none dst rounds = record dst_ends { left = true }
proxy (some is_srv) false rounds = record nothing_done { src_closed = true }
proxy (some is_srv) true rounds = proxy_loop is_srv rounds
