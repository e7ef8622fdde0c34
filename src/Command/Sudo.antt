-- ===== src/Command/Sudo.antt =====
-- Sudo mode, in which a client may change its password.
use multiserver.Shared.{
  if_holds, ℕ, ◌≡◌, ◌⊎◌, refl, ap, ◌∙◌, Bool, true, false, ◌&&◌, Option, none, some, List, [], ◌∷◌,
  Bytes, ◌==◌, nat_eq, bytes_eq, inl, inr,
}
use multiserver.Shared.Run.{Run, returns, panic, ◌>>=◌}
use multiserver.Text.{split}
use multiserver.Wire.{Reader, byte_reader, read_uint16, read_bytes16}
use multiserver.Conn.{Conn}
use multiserver.Database.{Database, Answer, ok, err, Row, row, no_rows, failed}
use multiserver.Auth.{
  tokens_of, hash, decode_parts, decode_verifier_and_salt, password_row, password,
}
use multiserver.Command.{rpc_ch, Effect, Outcome, handled, delegated, Config}
use multiserver.Command.Codes as Codes
use multiserver.Command.Codes.{to_server_code}
use multiserver.Command.Client.{
  Srp, expected_proof, begin_proof, with_password, srp_bytes_m, set_mod_channel, channels_off,
  mod_ch_sig_join_fail, mod_ch_sig_leave_fail, first_srp, srp_bytes_a, finish,
  process_client_command, client_packet,
}

-- A run that panics or returns.
Ends : {A : Type 0} → (A → Type 0) → Run A → Type 0
Ends {A} P x = (x ≡ panic) ⊎ ((a : A) × (x ≡ returns a) × P a)

parts_end : (ps : List Bytes) → Ends (λ _. Unit) (decode_parts ps)
unfolding Ends
parts_end [] = inl refl
parts_end (s ∷ []) = inl refl
parts_end (s ∷ v ∷ ps) = inr (_, refl, tt)

bind_end :
    {A B : Type 0} (x : Run A) (f : A → B)
    → Ends (λ _. Unit) x
    → Ends (λ _. Unit) (x >>= λ a. returns (f a))
unfolding Ends
bind_end x f (inl e) = inl (rw e)
bind_end x f (inr (a, e, _)) = inr (f a, rw e, tt)

row_end : (o : Row) → Ends (λ _. Unit) (password_row o)
unfolding password_row Ends decode_verifier_and_salt
row_end failed = inr (_, refl, tt)
row_end no_rows = inr (_, refl, tt)
row_end (row pwd) =
    if_holds (Ends (λ _. Unit)) (pwd == []) _ _ (λ _. inr (_, refl, tt))
      (λ _. bind_end _ _ (parts_end (split hash pwd)))

password_end : (d : Database) (s : d.State) (name : Bytes) → Ends (λ _. Unit) (password d s name)
unfolding password Ends
password_end d s name =
    if_holds (Ends (λ _. Unit)) (d.opens s) _ _ (λ _. row_end _) (λ _. inr (_, refl, tt))

begin_proof_sudo :
    (c : Conn) (a s : Bytes) (x : Option (Bytes × Bytes))
    → (begin_proof c a s x).0.sudo_mode ≡ c.sudo_mode
begin_proof_sudo c a s none = refl
begin_proof_sudo c a s (some (b, k)) = refl

with_password_sudo :
    (srp : Srp) (c : Conn) (a : Bytes) (x : Answer (Option (Bytes × Bytes)))
    → (with_password srp c a x).0.sudo_mode ≡ c.sudo_mode
with_password_sudo srp c a (err e) = refl
with_password_sudo srp c a (ok tokens) =
    let (v, s) = tokens_of tokens in begin_proof_sudo c a s (srp.handshake a v)

set_mod_channel_sudo :
    (conf : Config) (sig : ℕ) (b : Bool) (c : Conn) (r : Reader)
    → (set_mod_channel conf sig b c r).0.sudo_mode ≡ c.sudo_mode
unfolding set_mod_channel
set_mod_channel_sudo conf sig b c r =
    let Keeps : Conn × Bool × List Effect → Type 0 = λ x. x.0.sudo_mode ≡ c.sudo_mode in
    if_holds Keeps (channels_off conf) _ _ (λ _. refl)
      (λ _. if_holds Keeps ((read_bytes16 r).0 == rpc_ch) _ _ (λ _. refl) (λ _. refl))

srp_bytes_m_off :
    (srp : Srp) (c : Conn) (r : Reader)
    → c.sudo_mode ≡ false
    → ((read_bytes16 r).0 == expected_proof srp c) ≡ false
    → (srp_bytes_m srp c r).0.sudo_mode ≡ false
unfolding srp_bytes_m
srp_bytes_m_off srp c r off wrong = rw (off, wrong) refl

-- The source's connection after the dispatch. A handler's own work is not part of it.
abbrev pub source_of : Conn → Outcome → Conn
source_of c (handled h) = h.src
source_of c (delegated h r) = c

-- The packet, with its command taken off, proves the password.
abbrev pub proves : Srp → ℕ → Conn → Bytes → Bool
proves srp max_size c pkt =
    let (cmd, r) = read_uint16 (byte_reader max_size pkt) in
    cmd == to_server_code Codes.srv_srp_bytes_m && (read_bytes16 r).0 == expected_proof srp c

module _ (d : Database) (srp : Srp) (conf : Config) (max_size : ℕ) (dst : Conn) where
  -- The dispatch returned, changed no state of the database, and the source is not in sudo mode.
  Powerless : d.State → Conn → Outcome × d.State → Type 0
  Powerless s c (o, s') = (s' ≡ s) × ((source_of c o).sudo_mode ≡ false)

  bytes_a_end :
      (s : d.State) (c : Conn) (pkt : Bytes) (r : Reader)
      → c.sudo_mode ≡ false
      → Ends
          (Powerless s c)
          (srp_bytes_a d srp conf s c r >>= λ x. returns (finish d srp conf dst pkt s true x))
  unfolding srp_bytes_a Ends Powerless
  bytes_a_end s c pkt r off = elim (password_end d s c.username) [
    | inl panics ↦ inl (rw (off, panics))
    | inr (tokens, reads, _) ↦ inr (
      finish d srp conf dst pkt s true (with_password srp c (read_bytes16 r).0 tokens),
      rw (off, reads) refl,
      (refl, with_password_sudo srp c (read_bytes16 r).0 tokens ∙ off),
    )
  ]

  first_srp_off :
      (s : d.State) (c : Conn) (r : Reader)
      → c.sudo_mode ≡ false
      → ((first_srp d srp conf s c r).1 ≡ s) × ((first_srp d srp conf s c r).0.sudo_mode ≡ false)
  unfolding first_srp
  first_srp_off s c r off =
      let Same : Conn × d.State → Type 0 = λ x. (x.1 ≡ s) × (x.0.sudo_mode ≡ false) in
      if_holds Same c.sudo_mode _ _ (λ on. cc) (λ _. (refl, off))

  command_end :
      (s : d.State) (c : Conn) (pkt : Bytes) (cmd : ℕ) (r : Reader)
      → c.sudo_mode ≡ false
      → (cmd == to_server_code Codes.srv_srp_bytes_m && (read_bytes16 r).0 == expected_proof srp c)
        ≡ false
      → Ends (Powerless s c) (process_client_command d srp conf s c dst pkt cmd r)
  unfolding process_client_command Ends Powerless
  command_end s c pkt cmd r off unproved =
      let P = Ends (Powerless s c) in
      if_holds P (cmd == _) _ _ (λ _. inr (_, refl, (refl, off)))
        (λ _.
          if_holds P (cmd == _) _ _ (λ _. inr (_, refl, first_srp_off s c r off))
            (λ _.
              if_holds P (cmd == _) _ _ (λ _. bytes_a_end s c pkt r off)
                (λ _.
                  if_holds P (cmd == _) _ _
                    (λ is_m.
                      inr (_, refl, (refl, srp_bytes_m_off srp c r off (rw is_m at unproved))))
                    (λ _.
                      if_holds P (cmd == _) _ _
                        (λ _. inr (
                          _,
                          refl,
                          (refl, set_mod_channel_sudo conf mod_ch_sig_join_fail true c r ∙ off),
                        ))
                        (λ _.
                          if_holds P (cmd == _) _ _
                            (λ _. inr (
                              _,
                              refl,
                              (
                                refl,
                                set_mod_channel_sudo conf mod_ch_sig_leave_fail false c r ∙ off,
                              ),
                            ))
                            (λ _.
                              if_holds P (cmd == _) _ _ (λ _. inr (_, refl, (refl, off)))
                                (λ _. inr (_, refl, (refl, off)))))))))

  packet_end :
      (s : d.State) (c : Conn) (pkt : Bytes)
      → c.sudo_mode ≡ false
      → proves srp max_size c pkt ≡ false
      → Ends (Powerless s c) (client_packet d srp conf max_size s c dst pkt)
  unfolding client_packet
  packet_end s c pkt off unproved = command_end s c _ _ _ off unproved

  -- The packets of a client, one after another.
  unfoldable pub run_client : List Bytes → d.State → Conn → Run (Conn × d.State)
  run_client [] s c = returns (c, s)
  run_client (pkt ∷ pkts) s c = client_packet d srp conf max_size s c dst pkt >>= λ out.
      run_client pkts out.1 (source_of c out.0)

  -- None of the packets proves the password of the connection as it is then.
  unfoldable pub NeverProves : List Bytes → d.State → Conn → Type 0
  NeverProves [] s c = Unit
  NeverProves (pkt ∷ pkts) s c =
      (proves srp max_size c pkt ≡ false)
      × ((out : Outcome × d.State)
          → client_packet d srp conf max_size s c dst pkt ≡ returns out
          → NeverProves pkts out.1 (source_of c out.0))

  -- For a client that is not in sudo mode and never sends the proof that the code computes from its
  -- tokens, the dispatch of its packets, whatever they are, leaves the database as it was and the client out of
  -- sudo mode, unless the proxy panics on the way. What the handlers of chat messages do is not part of it.
  pub run_client_powerless :
      (pkts : List Bytes) (s : d.State) (c : Conn)
      → c.sudo_mode ≡ false
      → NeverProves pkts s c
      → (run_client pkts s c ≡ panic)
        ⊎ ((c' : Conn) × (run_client pkts s c ≡ returns (c', s)) × (c'.sudo_mode ≡ false))
  unfolding run_client NeverProves Ends Powerless
  run_client_powerless [] s c off never = inr (c, refl, off)
  run_client_powerless (pkt ∷ pkts) s c off (unproved, never) =
      elim (packet_end s c pkt off unproved) [
        | inl panics ↦ inl (rw panics)
        | inr ((o, s'), went, (same, off')) ↦
            elim (run_client_powerless pkts s' (source_of c o) off' (never (o, s') went)) [
              | inl panics ↦ inl (rw went panics)
              | inr (c', ran, stays) ↦
                  inr (c', rw went (ran ∙ ap (λ t. returns (c', t)) same), stays)
            ]
      ]
