-- ===== src/Login/Tests.antt =====
-- Concrete first packets.
use multiserver.Shared.{
  ◌≡◌, ◌≢◌, refl, false, none, some, [], ◌∷◌, Bytes, codes, holds, lookup, bytes_beq, bytes_eq,
  arith,
}
use multiserver.Shared.Run.{returns}
use multiserver.Wire.{Reader, fill, read_uint16, read_bytes16}
use multiserver.Conn.{Conn, zero_conn}
use multiserver.Database.{Tables, answer, ok}
use multiserver.Database.Memory.{memory, empty_tables}
use multiserver.Text.{split}
use multiserver.Text.Base64.{decode64, decode_digits, digit_value, skip_line_ends}
use multiserver.Auth.{password, password_row, decode_verifier_and_salt}
use multiserver.Ban.{is_banned}
use multiserver.Command.Client.{Srp}
use multiserver.Login.{
  LoginConfig, Login, again, ready, hello, auth_mech_srp, name_denial, name_char, name_chars,
  with_account, agreed_version, refuses_version,
}
use multiserver.Login.Rounds.{login_packet, login_init, init_known}
use multiserver.Login.Bypass.{IsOpenTo, init_packet, ready_packet, login_without_password}
use multiserver.Login.Names.{IsAdmitted, login_init_admits}

abbrev ann : Bytes
ann = codes "ann"

-- `Ag==#AQ==`: the salt 2 and the verifier 1.
abbrev world : Tables
world = record empty_tables { auth = (ann, codes "Ag==#AQ==") ∷ [] }

abbrev stranger : Conn
stranger = zero_conn false (codes "10.0.0.3")

abbrev any_srp : Srp
any_srp = record { handshake = λ a v. none; client_proof = λ i s a b k. 1 ∷ [] }

abbrev plain : LoginConfig
plain = record { force_latest_proto = none; disallow_empty_passwords = none }

ann_account : password memory world ann ≡ returns (ok (some (1 ∷ [], 2 ∷ [])))
unfolding password password_row answer lookup bytes_beq decode_verifier_and_salt split decode64
    decode_digits digit_value skip_line_ends
ann_account = refl

ann_valid : name_denial ann ≡ none
unfolding name_denial name_chars name_char bytes_beq
ann_valid = refl

ann_free : is_banned memory world (codes "10.0.0.3") ≡ (false, [], none)
unfolding is_banned answer lookup
ann_free = refl

ann_offline : holds ann [] ≡ false
unfolding holds lookup
ann_offline = refl

ann_open : IsOpenTo memory any_srp plain [] (codes "10.0.0.3") world ann
unfolding bytes_beq
ann_open = record {
  name_valid = ann_valid;
  not_banned = ann_free;
  not_online = ann_offline;
  not_media = refl;
  not_rpc = refl;
  tokens = (1 ∷ [], 2 ∷ []);
  has_account = ann_account;
}

login_without_password_example :
    (l l' : Login Tables) × (login_packet memory any_srp plain []
        (codes "10.0.0.3")
        512
        world
        stranger
        (init_packet ann)
      ≡ returns l)
    × (l.sent ≡ hello 0x27 auth_mech_srp ann ∷ [])
    × (l.next ≡ again)
    × (login_packet memory any_srp plain [] (codes "10.0.0.3") 512 l.state l.conn ready_packet
        ≡ returns l')
    × (l'.next ≡ ready)
    × (l'.conn.username ≡ ann)
login_without_password_example =
    login_without_password memory any_srp plain [] (codes "10.0.0.3") 512 world stranger ann
      (omega arith) ann_open

abbrev asked : Login Tables
asked =
    with_account (record stranger { username = ann; proto_ver = 0x27 }) world
      (ok (some (1 ∷ [], 2 ∷ [])))

abbrev first : Reader
first = record { buf = init_packet ann; pos = 2 }

ann_asked :
    login_init memory any_srp plain [] (codes "10.0.0.3") world stranger first ≡ returns asked
unfolding login_init init_packet read_uint16 read_bytes16 fill agreed_version refuses_version
    name_denial name_chars name_char bytes_beq is_banned answer lookup init_known holds password
    password_row decode_verifier_and_salt split decode64 decode_digits digit_value skip_line_ends
ann_asked = refl

asked_answers : asked.sent ≢ []
asked_answers h = cc

login_init_admits_example :
    IsAdmitted memory any_srp plain [] (codes "10.0.0.3") world asked.conn.username
    × (asked.state ≡ world)
login_init_admits_example =
    login_init_admits memory any_srp plain [] (codes "10.0.0.3") world stranger first asked
      ann_asked refl asked_answers
