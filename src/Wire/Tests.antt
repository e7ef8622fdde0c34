-- ===== src/Wire/Tests.antt =====
-- Concrete packets.
use multiserver.Shared.{◌≡◌, refl, List, [], ◌∷◌, ◌++◌, map, Bytes, codes, replicate, arith}
use multiserver.Wire.{
  Reader, new_reader, unread, reader_len, fill, read_uint32, write_uint8, write_uint16,
  write_uint32, write_uint64, write_bytes16, write_bytes32,
}
use multiserver.Wire.Fields.{
  Field, uint8, uint16, uint32, uint64, bytes16, bytes32, kind_of, write_fields, read_fields,
  read_fields-write_fields,
}

abbrev hello : List Field
hello =
    uint16 2 ∷ uint8 28 ∷ uint32 70000 ∷ uint64 4294967298 ∷ bytes16 (codes "ann") ∷ bytes32 [] ∷ []

hello_bytes :
    write_fields [] hello
    ≡ 0 ∷ 2 ∷ 28 ∷ 0 ∷ 1 ∷ 17 ∷ 112 ∷ 0 ∷ 0 ∷ 0 ∷ 1 ∷ 0 ∷ 0 ∷ 0 ∷ 2 ∷ 0 ∷ 3 ∷ 97 ∷ 110 ∷ 110 ∷ 0 ∷ 0
      ∷ 0 ∷ 0 ∷ []
unfolding write_fields write_uint8 write_uint16 write_uint32 write_uint64 write_bytes16
    write_bytes32
hello_bytes = refl

short_read : (read_uint32 (new_reader (1 ∷ 2 ∷ []))).0 ≡ 0x01020000
unfolding read_uint32 fill reader_len
short_read = refl

abbrev hello_reader : Reader
hello_reader = new_reader (write_fields [] hello ++ 7 ∷ [])

read_fields-write_fields_example :
    ((read_fields (map kind_of hello) hello_reader).0 ≡ hello)
    × (unread (read_fields (map kind_of hello) hello_reader).1 ≡ 7 ∷ [])
read_fields-write_fields_example =
    read_fields-write_fields hello hello_reader (7 ∷ []) (omega arith) refl

abbrev long : Bytes
long = replicate 3 9

abbrev long_reader : Reader
long_reader = new_reader (write_bytes16 [] long ++ 5 ∷ [])

abbrev cut_reader : Reader
cut_reader = new_reader (0 ∷ 9 ∷ 1 ∷ [])
