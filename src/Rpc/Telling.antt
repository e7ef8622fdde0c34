-- ===== src/Rpc/Telling.antt =====
-- What servers are told over RPC, and the packets that bring it to them.
use multiserver.Shared.{
  ℕ, ◌^◌, none, ◌<◌, ◌≡◌, inl, inr, refl, ap, ◌∙◌, Bool, true, false, some, List, [], ◌∷◌, ◌++◌,
  map, Bytes, codes, ◌==◌, bytes_eq, if◌then◌else◌, length, Bool-cases,
}
use native.Mathlib.Nat.{mod-eq_of_lt}
use multiserver.Wire.{put_uint16, write_uint16, write_bytes16}
use multiserver.Conn.{Conn}
use multiserver.Command.{rpc_ch}
use multiserver.Rpc.{RpcEffect, call, do_rpc}
use multiserver.Rpc.Requests.{tell_others, tell_one}

-- The RPC servers that are not, and those that are, at the address.
unfoldable pub others : Bytes → List Conn → List Conn
others addr [] = []
others addr (srv ∷ srvs) =
    let rest = others addr srvs in if srv.addr == addr then rest else srv ∷ rest

unfoldable pub only : Bytes → List Conn → List Conn
only addr [] = []
only addr (srv ∷ srvs) = let rest = only addr srvs in if srv.addr == addr then srv ∷ rest else rest

-- The calls that bring servers a text.
abbrev pub tell : Bytes → List Conn → List RpcEffect
tell rpc srvs = map (λ srv. call srv rpc (codes "--")) srvs

pub tell_others_lem :
    (addr rpc : Bytes) (srvs : List Conn) → tell_others addr rpc srvs ≡ tell rpc (others addr srvs)
unfolding tell_others others
tell_others_lem addr rpc [] = refl
tell_others_lem addr rpc (srv ∷ srvs) = elim (Bool-cases (srv.addr == addr)) [
  | inl here ↦ rw here (tell_others_lem addr rpc srvs)
  | inr there ↦ rw there (ap (λ t. call srv rpc (codes "--") ∷ t) (tell_others_lem addr rpc srvs))
]

pub tell_one_lem :
    (addr rpc : Bytes) (srvs : List Conn) → tell_one addr rpc srvs ≡ tell rpc (only addr srvs)
unfolding tell_one only
tell_one_lem addr rpc [] = refl
tell_one_lem addr rpc (srv ∷ srvs) = elim (Bool-cases (srv.addr == addr)) [
  | inl here ↦ rw here (ap (λ t. call srv rpc (codes "--") ∷ t) (tell_one_lem addr rpc srvs))
  | inr there ↦ rw there (tell_one_lem addr rpc srvs)
]

-- The packets that the calls among the effects send, and to whom.
unfoldable pub packets_of : List RpcEffect → List (Conn × Bytes)
packets_of [] = []
packets_of (call srv rpc rq ∷ effects) =
    let rest = packets_of effects in
    elim (do_rpc srv rpc rq) [ none ↦ rest | some p ↦ (srv, p) ∷ rest ]
packets_of (_ ∷ effects) = packets_of effects

-- The packet with a text on the proxy's channel.
abbrev pub channel_text : Bytes → Bytes
channel_text msg =
    0 ∷ 0x19 ∷ (put_uint16 (length rpc_ch) ++ (rpc_ch ++ (put_uint16 (length msg) ++ msg)))

-- Each of the servers that use RPC gets the text.
unfoldable pub heard : Bytes → List Conn → List (Conn × Bytes)
heard msg [] = []
heard msg (srv ∷ srvs) =
    let rest = heard msg srvs in if srv.use_rpc then (srv, channel_text msg) ∷ rest else rest

do_rpc_lem :
    (srv : Conn) (rpc : Bytes)
    → length (codes "-- " ++ rpc) < 2 ^ 16
    → do_rpc srv rpc (codes "--")
      ≡ (if srv.use_rpc then some (channel_text (codes "-- " ++ rpc)) else none)
unfolding do_rpc write_bytes16 write_uint16
do_rpc_lem srv rpc small =
    ap
      (λ (k : ℕ).
        if srv.use_rpc
        then some (
            0
            ∷ 0x19
            ∷ (put_uint16 (length rpc_ch) ++ (rpc_ch ++ (put_uint16 k ++ (codes "-- " ++ rpc)))))
        else none)
      (mod-eq_of_lt small)

hears :
    (uses : Bool) (srv : Conn) (p : Bytes) (rest : List (Conn × Bytes))
    → (elim (if uses then some p else none) [ none ↦ rest | some q ↦ (srv, q) ∷ rest ])
      ≡ (if uses then (srv, p) ∷ rest else rest)
hears true srv p rest = refl
hears false srv p rest = refl

pub tell-heard :
    (rpc : Bytes) (srvs : List Conn)
    → length (codes "-- " ++ rpc) < 2 ^ 16
    → packets_of (tell rpc srvs) ≡ heard (codes "-- " ++ rpc) srvs
unfolding packets_of heard
tell-heard rpc [] small = refl
tell-heard rpc (srv ∷ srvs) small =
    let p = channel_text (codes "-- " ++ rpc) in
    rw (packets_of, do_rpc_lem srv rpc small)
      (hears srv.use_rpc srv p (packets_of (tell rpc srvs))
        ∙ ap (λ rest. if srv.use_rpc then (srv, p) ∷ rest else rest) (tell-heard rpc srvs small))
