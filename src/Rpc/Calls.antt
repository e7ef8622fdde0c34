-- ===== src/Rpc/Calls.antt =====
-- Messages on the mod channel of the proxy, as servers write them.
use multiserver.Shared.{
  ◌^◌, ◌<◌, ◌≡◌, ◌≢◌, ◌⊎◌, inl, inr, refl, ap, ◌∙◌, Bool, true, false, not, ◌||◌, some, List, [],
  ◌∷◌, ◌++◌, Bytes, codes, ◌==◌, ==_ne, bytes_eq, bytes_beq, if◌then◌else◌, length, Bool-cases,
  arith, All, ltb, length-append, drop_front,
}
use multiserver.Shared.Run.{returns, panic, ◌>>=◌}
use multiserver.Wire.{Reader, unread, put_uint16, read_bytes16}
use multiserver.Wire.Fields.{read_bytes16-front}
use multiserver.Text.{split}
use multiserver.Text.Laws.{Lacks, split_front, split_last, join-split}
use multiserver.Conn.{Conn}
use multiserver.Command.{rpc_ch}
use multiserver.Config.{Entries, server_address}
use multiserver.Database.{Database}
use multiserver.Rpc.{part, from_part}
use multiserver.Rpc.Requests.{rpc_mt2mt, rpc_msg2mt}
use multiserver.Rpc.Telling.{
  others, only, tell, tell_others_lem, tell_one_lem, packets_of, heard, tell-heard,
}
use multiserver.Rpc.Dispatch.{World, run_rpc, process_rpc}

-- A message on a mod channel: the channel, the player who sent it, the text.
abbrev pub encode_message : Bytes → Bytes → Bytes → Bytes
encode_message ch sender msg =
    put_uint16 (length ch)
    ++ (ch ++ (put_uint16 (length sender) ++ (sender ++ (put_uint16 (length msg) ++ (msg ++ [])))))

-- A message with two parts in front of a text, or three.
unfoldable pub words : List Bytes → Bytes → Bytes
words [] text = text
words (p ∷ ps) text = p ++ b' ' ∷ words ps text

split-words :
    (ps : List Bytes) (text : Bytes)
    → All (Lacks b' ') ps
    → split b' ' (words ps text) ≡ ps ++ split b' ' text
unfolding words
split-words [] text _ = refl
split-words (p ∷ ps) text (h, hs) =
    split_front b' ' p (words ps text) h ∙ ap (λ t. p ∷ t) (split-words ps text hs)

from_part-words :
    (ps : List Bytes) (text : Bytes)
    → All (Lacks b' ') ps
    → from_part (length ps) (words ps text) ≡ returns text
unfolding from_part
from_part-words ps text lacks =
    let parts_eq = split-words ps text lacks in
    let enough : ltb (length (ps ++ split b' ' text)) (length ps) ≡ false =
      ground (arith, length-append ps (split b' ' text)) in
    rw (parts_eq, enough, drop_front ps (split b' ' text), join-split b' ' text) refl

module _ (d : Database) (parse_ip : Bytes → Bool) (config : Entries) (w : World) (s : d.State)
    (c : Conn) (r : Reader) where
  -- The three fields of a message are read back.
  read_message :
      (ch sender msg : Bytes)
      → length ch < 2 ^ 16
      → length sender < 2 ^ 16
      → length msg < 2 ^ 16
      → unread r ≡ encode_message ch sender msg
      → process_rpc d parse_ip config w s c r ≡ (
          if (not (ch == rpc_ch)) || (not (sender == []))
          then returns (record { taken = false; state = s; effects = [] })
          else (part 0 msg >>= λ rq.
              part 1 msg >>= λ cmd. run_rpc d parse_ip config w s c rq msg cmd))
  unfolding process_rpc
  read_message ch sender msg hc hs hm e =
      let (ch_eq, left) = read_bytes16-front r ch _ hc e in
      let (sender_eq, left') = read_bytes16-front (read_bytes16 r).1 sender _ hs left in
      let (msg_eq, _) = read_bytes16-front (read_bytes16 (read_bytes16 r).1).1 msg [] hm left' in
      rw (ch_eq, sender_eq, msg_eq) refl

  -- A message of a player, or on another channel than the proxy's, is never taken for a call: nothing
  -- happens, and it is passed on.
  pub process_rpc_ignores :
      (ch sender msg : Bytes)
      → length ch < 2 ^ 16
      → length sender < 2 ^ 16
      → length msg < 2 ^ 16
      → unread r ≡ encode_message ch sender msg
      → (ch ≢ rpc_ch) ⊎ (sender ≢ [])
      → process_rpc d parse_ip config w s c r
        ≡ returns (record { taken = false; state = s; effects = [] })
  process_rpc_ignores ch sender msg hc hs hm e differ =
      read_message ch sender msg hc hs hm e ∙ elim differ [
        | inl h ↦ rw (==_ne ch rpc_ch h) refl
        | inr h ↦ elim (Bool-cases (ch == rpc_ch)) [
          | inl own ↦ rw (own, ==_ne sender [] h) refl
          | inr foreign ↦ rw foreign refl
        ]
      ]

  -- A message of a server on the proxy's channel that holds no space makes the proxy panic, whatever the
  -- configuration and the databases are.
  pub process_rpc_panics :
      (msg : Bytes)
      → length msg < 2 ^ 16
      → unread r ≡ encode_message rpc_ch [] msg
      → Lacks b' ' msg
      → process_rpc d parse_ip config w s c r ≡ panic
  unfolding part bytes_beq
  process_rpc_panics msg hm e lacks =
      read_message rpc_ch [] msg (omega arith) (omega arith) hm e
      ∙ rw (split_last b' ' msg lacks) refl

  -- A call with no more than its text behind the command.
  read_call :
      (rq cmd text : Bytes) (ps : List Bytes)
      → All (Lacks b' ') (rq ∷ cmd ∷ ps)
      → length (words (rq ∷ cmd ∷ ps) text) < 2 ^ 16
      → unread r ≡ encode_message rpc_ch [] (words (rq ∷ cmd ∷ ps) text)
      → process_rpc d parse_ip config w s c r
        ≡ run_rpc d parse_ip config w s c rq (words (rq ∷ cmd ∷ ps) text) cmd
  unfolding part bytes_beq
  read_call rq cmd text ps lacks hm e =
      let msg = words (rq ∷ cmd ∷ ps) text in
      read_message rpc_ch [] msg (omega arith) (omega arith) hm e
      ∙ rw (split-words (rq ∷ cmd ∷ ps) text lacks) refl

  mt2mt_lem :
      (rq text : Bytes)
      → Lacks b' ' rq
      → length (words (rq ∷ codes "<-MT2MT" ∷ []) text) < 2 ^ 16
      → unread r ≡ encode_message rpc_ch [] (words (rq ∷ codes "<-MT2MT" ∷ []) text)
      → process_rpc d parse_ip config w s c r
        ≡ returns (record {
          taken = true;
          state = s;
          effects = tell (codes "->MT2MT true " ++ text) (others c.addr w.rpc_srvs);
        })
  unfolding run_rpc rpc_mt2mt bytes_beq
  mt2mt_lem rq text hr hm e =
      let ps = rq ∷ codes "<-MT2MT" ∷ [] in
      let lacks : All (Lacks b' ') ps = (hr, omega arith) in
      read_call rq (codes "<-MT2MT") text [] lacks hm e
      ∙ rw
          (
            from_part-words ps text lacks,
            tell_others_lem c.addr (codes "->MT2MT true " ++ text) w.rpc_srvs,
          )
          refl

  msg2mt_lem :
      (rq tosrv addr text : Bytes)
      → Lacks b' ' rq
      → Lacks b' ' tosrv
      → server_address config tosrv ≡ returns (some addr)
      → (addr == c.addr) ≡ false
      → length (words (rq ∷ codes "<-MSG2MT" ∷ tosrv ∷ []) text) < 2 ^ 16
      → unread r ≡ encode_message rpc_ch [] (words (rq ∷ codes "<-MSG2MT" ∷ tosrv ∷ []) text)
      → process_rpc d parse_ip config w s c r
        ≡ returns (record {
          taken = true;
          state = s;
          effects = tell (codes "->MT2MT false " ++ text) (only addr w.rpc_srvs);
        })
  unfolding run_rpc rpc_msg2mt part bytes_beq
  msg2mt_lem rq tosrv addr text hr ht at away hm e =
      let ps = rq ∷ codes "<-MSG2MT" ∷ tosrv ∷ [] in
      let lacks : All (Lacks b' ') ps = (hr, (omega arith, (ht, tt))) in
      read_call rq (codes "<-MSG2MT") text (tosrv ∷ []) lacks hm e
      ∙ rw
          (
            split-words ps text lacks,
            at,
            away,
            from_part-words ps text lacks,
            tell_one_lem addr (codes "->MT2MT false " ++ text) w.rpc_srvs,
          )
          refl

-- A server's text for the others, which may hold spaces, is brought to every RPC server that uses RPC but
-- those at its own address, and a text for a server of the configuration to those at that server's
-- address, if it is another than the sender's. Each gets a packet with the text as it was; nothing else
-- happens. The messages, and the one that is passed on, fit the 16 bits of their length.
pub process_rpc_tells :
    (d : Database) (parse_ip : Bytes → Bool) (config : Entries) (w : World) (s : d.State) (c : Conn)
    (r r' : Reader) (rq tosrv addr text : Bytes)
    → Lacks b' ' rq
    → Lacks b' ' tosrv
    → server_address config tosrv ≡ returns (some addr)
    → (addr == c.addr) ≡ false
    → length (words (rq ∷ codes "<-MT2MT" ∷ []) text) < 2 ^ 16
    → length (words (rq ∷ codes "<-MSG2MT" ∷ tosrv ∷ []) text) < 2 ^ 16
    → length (codes "-- ->MT2MT false " ++ text) < 2 ^ 16
    → unread r ≡ encode_message rpc_ch [] (words (rq ∷ codes "<-MT2MT" ∷ []) text)
    → unread r' ≡ encode_message rpc_ch [] (words (rq ∷ codes "<-MSG2MT" ∷ tosrv ∷ []) text)
    → (process_rpc d parse_ip config w s c r
        ≡ returns (record {
          taken = true;
          state = s;
          effects = tell (codes "->MT2MT true " ++ text) (others c.addr w.rpc_srvs);
        }))
      × (packets_of (tell (codes "->MT2MT true " ++ text) (others c.addr w.rpc_srvs))
          ≡ heard (codes "-- ->MT2MT true " ++ text) (others c.addr w.rpc_srvs))
      × (process_rpc d parse_ip config w s c r'
          ≡ returns (record {
            taken = true;
            state = s;
            effects = tell (codes "->MT2MT false " ++ text) (only addr w.rpc_srvs);
          }))
      × (packets_of (tell (codes "->MT2MT false " ++ text) (only addr w.rpc_srvs))
          ≡ heard (codes "-- ->MT2MT false " ++ text) (only addr w.rpc_srvs))
process_rpc_tells d parse_ip config w s c r r' rq tosrv addr text hr ht at away hm hm' fits e e' = (
  mt2mt_lem d parse_ip config w s c r rq text hr hm e,
  tell-heard (codes "->MT2MT true " ++ text) (others c.addr w.rpc_srvs) (omega arith),
  msg2mt_lem d parse_ip config w s c r' rq tosrv addr text hr ht at away hm' e',
  tell-heard (codes "->MT2MT false " ++ text) (only addr w.rpc_srvs) fits,
)
