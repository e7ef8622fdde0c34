-- ===== src/Login/Bypass.antt =====
-- Packets of a client that gives a name and says that it is ready.
use multiserver.Shared.{
  ℕ, ◌≤◌, ◌≡◌, refl, sym, ap, ◌∙◌, Bool, true, false, Option, none, some, [], ◌∷◌, ◌++◌, Bytes,
  codes, ◌==◌, nat_eq, bytes_eq, arith, GoMap, holds, length, take_all, append-nil, leb, if_holds,
}
use multiserver.Shared.Run.{returns}
use multiserver.Wire.{
  Reader, unread, new_reader, byte_reader, fill, seek_start, put_uint16, read_uint16, read_bytes16,
}
use multiserver.Wire.Fields.{read_number16, read_bytes16-front}
use multiserver.Conn.{Conn}
use multiserver.Database.{Database, ok}
use multiserver.Auth.{password}
use multiserver.Ban.{is_banned}
use multiserver.Command.Client.{Srp}
use multiserver.Login.{
  LoginConfig, Login, again, ready, name_denial, hello, auth_mech_srp, with_account, agreed_version,
  refuses_version,
}
use multiserver.Login.Rounds.{init_known, init_named, login_init, login_client_ready, login_packet}

-- The first packet of a client that gives this name.
unfoldable pub init_packet : Bytes → Bytes
init_packet name = 0 ∷ 2 ∷ 0x1c ∷ 0 ∷ 0 ∷ 0 ∷ 0x25 ∷ 0 ∷ 0x27 ∷ (put_uint16 (length name) ++ name)

-- The packet that says that the client is ready.
abbrev pub ready_packet : Bytes
ready_packet = 0 ∷ 0x43 ∷ 5 ∷ 4 ∷ 0 ∷ 0 ∷ 0 ∷ 0 ∷ []

short_name : (name : Bytes) → name_denial name ≡ none → length name ≤ 20
unfolding name_denial
short_name name h = ground arith

-- What `login_init` reads of the packet, wherever the reader stands.
init_name :
    (name : Bytes)
    → length name ≤ 20
    → (read_bytes16 (seek_start 9 (read_uint16 (new_reader (init_packet name))).1)).0 ≡ name
unfolding init_packet read_uint16
init_name name short =
    (read_bytes16-front (seek_start 9 (read_uint16 (new_reader (init_packet name))).1) name []
      (omega arith) (ap (λ t. put_uint16 (length name) ++ t) (sym (append-nil name)))).0

versions_left :
    (name : Bytes)
    → unread (
        seek_start 5
          (read_bytes16 (seek_start 9 (read_uint16 (new_reader (init_packet name))).1)).1)
      ≡ put_uint16 0x25 ++ (put_uint16 0x27 ++ (put_uint16 (length name) ++ name))
unfolding init_packet read_uint16 read_bytes16
versions_left name = refl

init_version :
    (name : Bytes)
    → (let r =
          seek_start 5
            (read_bytes16 (seek_start 9 (read_uint16 (new_reader (init_packet name))).1)).1 in
        agreed_version (read_uint16 r).0 (read_uint16 (read_uint16 r).1).0)
      ≡ 0x27
unfolding init_packet agreed_version
init_version name =
    let q =
      seek_start 5
        (read_bytes16 (seek_start 9 (read_uint16 (new_reader (init_packet name))).1)).1 in
    let rest : Bytes = put_uint16 (length name) ++ name in
    let (min_eq, left) =
      read_number16 q 0x25 (put_uint16 0x27 ++ rest) (omega arith) (versions_left name) in
    let (max_eq, _) = read_number16 (read_uint16 q).1 0x27 rest (omega arith) left in
    rw (min_eq, max_eq) refl

packet_room : (name : Bytes) (n : ℕ) → length name ≤ 20 → 40 ≤ n → length (init_packet name) ≤ n
unfolding init_packet
packet_room name n short room = omega arith

version_fine : (o : Option Bool) → refuses_version o 0x27 ≡ false
unfolding refuses_version
version_fine none = refl
version_fine (some true) = refl
version_fine (some false) = refl

whole_packet : (n : ℕ) (pkt : Bytes) → length pkt ≤ n → byte_reader n pkt ≡ new_reader pkt
unfolding byte_reader
whole_packet n pkt h = ap new_reader (take_all n pkt h)

ready_command : (read_uint16 (new_reader ready_packet)).0 ≡ 0x43
unfolding read_uint16 fill
ready_command = refl

init_command : (name : Bytes) → (read_uint16 (new_reader (init_packet name))).0 ≡ 2
unfolding read_uint16 fill init_packet
init_command name = refl

module _ (d : Database) (srp : Srp) (conf : LoginConfig) (online : GoMap Bytes Bool)
    (ip : Bytes) where
  -- The client takes part under the name it had.
  TakesPart : d.State → Conn → Login d.State → Type 0
  TakesPart s c l = (l.next ≡ ready) × (l.conn.username ≡ c.username) × (l.state ≡ s)

  ready_lem :
      (s : d.State) (c : Conn) (r : Reader)
      → holds c.username online ≡ false
      → TakesPart s c (login_client_ready d srp conf online ip s c r)
  unfolding login_client_ready TakesPart
  ready_lem s c r offline =
      if_holds (TakesPart s c) (holds c.username online) _ _ (λ on. cc)
        (λ _. (
          refl,
          if_holds (λ (x : Conn). x.username ≡ c.username) (leb 2 _) _ _ (λ _. refl) (λ _. refl),
          refl,
        ))

  ready_step :
      (max_size : ℕ) (s : d.State) (c : Conn)
      → 40 ≤ max_size
      → holds c.username online ≡ false
      → (l : Login d.State) × (login_packet d srp conf online ip max_size s c ready_packet
          ≡ returns l)
        × TakesPart s c l
  unfolding login_packet
  ready_step max_size s c room offline =
      let r = (read_uint16 (byte_reader max_size ready_packet)).1 in
      let cmd =
        ap (λ x. (read_uint16 x).0) (whole_packet max_size ready_packet (omega arith))
        ∙ ready_command in
      (login_client_ready d srp conf online ip s c r, rw cmd refl, ready_lem s c r offline)

  -- The account `name` exists, and nothing but its password keeps a client from playing under the name.
  pub record IsOpenTo (s : d.State) (name : Bytes) : Type 0 where
    pub name_valid : name_denial name ≡ none
    pub not_banned : is_banned d s ip ≡ (false, [], none)
    pub not_online : holds name online ≡ false
    pub not_media : (name == codes "media") ≡ false
    pub not_rpc : (name == codes "rpc") ≡ false
    pub tokens : Bytes × Bytes
    pub has_account : password d s name ≡ returns (ok (some tokens))

  known_lem :
      (s : d.State) (c : Conn) (open_to : IsOpenTo s c.username)
      → init_known d srp conf online ip s c ≡ returns (with_account c s (ok (some open_to.tokens)))
  unfolding init_known
  known_lem s c o = rw (o.not_online, o.not_media, o.not_rpc, o.has_account) refl

  named_lem :
      (s : d.State) (c : Conn) (open_to : IsOpenTo s c.username)
      → init_named d srp conf online ip s c (name_denial c.username)
        ≡ returns (with_account c s (ok (some open_to.tokens)))
  named_lem s c o = rw (o.name_valid, o.not_banned) (known_lem s c o)

  init_step :
      (max_size : ℕ) (s : d.State) (c : Conn) (name : Bytes) (open_to : IsOpenTo s name)
      → 40 ≤ max_size
      → login_packet d srp conf online ip max_size s c (init_packet name)
        ≡ returns (
            with_account
              (record c { username = name; proto_ver = 0x27 })
              s
              (ok (some open_to.tokens)))
  unfolding login_packet login_init
  init_step max_size s c name o room =
      let pkt = init_packet name in
      let whole =
        whole_packet max_size pkt (packet_room name max_size (short_name name o.name_valid) room) in
      let cmd = ap (λ x. (read_uint16 x).0) whole ∙ init_command name in
      rw
        (
          cmd,
          whole,
          init_name name (short_name name o.name_valid),
          init_version name,
          version_fine conf.force_latest_proto,
        )
        (named_lem s (record c { username = name; proto_ver = 0x27 }) o)

  -- Whoever knows the name of a player who has an account, and is not online or banned, plays under that name: the
  -- packet with the name is answered by a request for the proof of the password, and the packet
  -- that says that the client is ready is then accepted although no proof was given.
  pub login_without_password :
      (max_size : ℕ) (s : d.State) (c : Conn) (name : Bytes)
      → 40 ≤ max_size
      → IsOpenTo s name
      → (l l' : Login d.State) × (login_packet d srp conf online ip max_size s c (init_packet name)
          ≡ returns l)
        × (l.sent ≡ hello 0x27 auth_mech_srp name ∷ [])
        × (l.next ≡ again)
        × (login_packet d srp conf online ip max_size l.state l.conn ready_packet ≡ returns l')
        × (l'.next ≡ ready)
        × (l'.conn.username ≡ name)
  unfolding TakesPart
  login_without_password max_size s c name room o =
      let l : Login d.State =
        with_account (record c { username = name; proto_ver = 0x27 }) s (ok (some o.tokens)) in
      let (l', ran, (is_ready, same, _)) = ready_step max_size s l.conn room o.not_online in
      (l, l', init_step max_size s c name o room, refl, refl, ran, is_ready, same)
