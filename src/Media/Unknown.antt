-- ===== src/Media/Unknown.antt =====
-- Requests as clients write them, and requests for files that the proxy does not have.
use multiserver.Shared.{
  ℕ, ◌+◌, ◌^◌, ◌<◌, ◌≡◌, refl, ap, ◌∙◌, Bool, none, List, [], ◌∷◌, ◌++◌, Bytes, bytes_eq, leb,
  length, lookup, insert, All, append_assoc, Option-cases, Bool-cases, inl, inr,
}
use multiserver.Shared.Run.{panic}
use multiserver.Wire.{Reader, unread, put_uint16, read_uint16, read_bytes16}
use multiserver.Wire.Fields.{read_number16, read_bytes16-front}
use multiserver.Media.{Files, bytes_per_bunch, read_names, fill_bunches, send_media}

-- The names of a request, each with its length.
unfoldable pub encode_names : List Bytes → Bytes
encode_names [] = []
encode_names (name ∷ names) = put_uint16 (length name) ++ (name ++ encode_names names)

pub read_names-encode_names :
    (names : List Bytes) (r : Reader) (rest : Bytes)
    → All (λ name. length name < 2 ^ 16) names
    → unread r ≡ encode_names names ++ rest
    → read_names (length names) r ≡ names
unfolding read_names encode_names
read_names-encode_names [] r rest h e = refl
read_names-encode_names (name ∷ names) r rest (hn, h) e =
    let split : unread r ≡ put_uint16 (length name) ++ (name ++ (encode_names names ++ rest)) =
      e ∙ ap (λ t. put_uint16 (length name) ++ t) (append_assoc name (encode_names names) rest) in
    let (name_eq, left) = read_bytes16-front r name (encode_names names ++ rest) hn split in
    let names_eq = read_names-encode_names names (read_bytes16 r).1 rest h left in
    cc (name_eq, names_eq)

fill_bunches_unknown :
    (known : Files) (front : List Bytes) (f : Bytes) (back : List Bytes) (bunches : List Files)
    (last : Files) (len : ℕ)
    → lookup f known ≡ none
    → fill_bunches known (front ++ f ∷ back) bunches last len ≡ panic
unfolding fill_bunches
fill_bunches_unknown known [] f back bunches last len h = rw (h, fill_bunches) refl
fill_bunches_unknown known (g ∷ front) f back bunches last len h =
    elim (Option-cases (lookup g known)) [
      | inl missing ↦ rw (missing, fill_bunches) refl
      | inr (file, found) ↦
          let b = insert g file last in
          let len' = len + length file.contents in
          elim (Bool-cases (leb bytes_per_bunch len')) [
            | inl full ↦
                rw (found, full, fill_bunches)
                  (fill_bunches_unknown known front f back (bunches ++ b ∷ []) [] 0 h)
            | inr short ↦
                rw (found, short, fill_bunches)
                  (fill_bunches_unknown known front f back bunches b len' h)
          ]
    ]

-- A request for a file that the proxy does not have makes it panic, wherever the name stands among the
-- others and whatever the connection does.
pub send_media_panics :
    (ranged : Files → Files) (fails : List Bytes → Bytes → Bool) (known : Files)
    (front : List Bytes) (f : Bytes) (back : List Bytes) (rest : Bytes) (r : Reader)
    → lookup f known ≡ none
    → length (front ++ f ∷ back) < 2 ^ 16
    → All (λ name. length name < 2 ^ 16) (front ++ f ∷ back)
    → unread r
      ≡ put_uint16 (length (front ++ f ∷ back)) ++ (encode_names (front ++ f ∷ back) ++ rest)
    → send_media ranged fails known r ≡ panic
unfolding send_media
send_media_panics ranged fails known front f back rest r missing few short e =
    let names = front ++ f ∷ back in
    let (count_eq, left) = read_number16 r (length names) (encode_names names ++ rest) few e in
    let names_eq = read_names-encode_names names (read_uint16 r).1 rest short left in
    rw (count_eq, names_eq, fill_bunches_unknown known front f back [] [] 0 missing) refl
