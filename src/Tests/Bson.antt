-- ===== src/Tests/Bson.antt =====
-- Elements of BSON that are written and read (nodebus/core/serializer.cpp and parser.cpp).
use jsonbus.Prelude.{ℕ, ◌≡◌, refl, true, false, List, [], ◌∷◌, ◌++◌, some, ok, arith}
use jsonbus.Bson.{BsonQt}
use jsonbus.Bson.Write.{serialize_bson_elt, write_name}
use jsonbus.Bson.Read.{parse_bson_elt}
use jsonbus.Bson.Elements.{bson_received, parse-serialize_bson_elt, IsScalar}
use jsonbus.Bcon.Portable.{IsPortableKey}
use jsonbus.Variant.{int, long_long}
use jsonbus.DataStream.{read_word, write_word, le_bytes, write_int8, write_int32}
use jsonbus.DataStream.Laws.{read-write_word}
use jsonbus.Tests.Bcon.{ascii_qt, ascii_qt-IsAscii}

abbrev plain_bqt : BsonQt
plain_bqt = record {
  char_to_uint = λ c. c;
  number = λ i. i ∷ [];
  to_int = λ s. 0;
  to_uuid = λ s. s;
}

abbrev key : List ℕ
key = 97 ∷ []

key-IsPortableKey : IsPortableKey ascii_qt key
key-IsPortableKey = (((omega arith, omega arith), tt), refl)

abbrev int_bytes : List ℕ
int_bytes = 16 ∷ 97 ∷ 0 ∷ 5 ∷ 1 ∷ 0 ∷ 0 ∷ []

int_written : serialize_bson_elt ascii_qt plain_bqt true (int 261) key ≡ ok int_bytes
unfolding serialize_bson_elt write_name write_int8 write_int32 le_bytes
int_written = refl

int-IsScalar : IsScalar ascii_qt (int 261)
unfolding IsScalar
int-IsScalar = omega arith

parse-serialize_bson_elt_example :
    parse_bson_elt ascii_qt plain_bqt false 1 (int_bytes ++ 9 ∷ [])
    ≡ ok (some (bson_received (int 261), key), 9 ∷ [])
parse-serialize_bson_elt_example =
    parse-serialize_bson_elt ascii_qt plain_bqt ascii_qt-IsAscii true false (int 261) key int_bytes
      (9 ∷ []) 0 int-IsScalar key-IsPortableKey int_written

abbrev long_bytes : List ℕ
long_bytes = 18 ∷ 97 ∷ 0 ∷ 5 ∷ 1 ∷ 0 ∷ 0 ∷ []

long_written : serialize_bson_elt ascii_qt plain_bqt true (long_long 261) key ≡ ok long_bytes
unfolding serialize_bson_elt write_name write_int8 write_int32 le_bytes
long_written = refl

-- A host that writes the high byte first, and one that reads the low byte first.
read-write_word_example : read_word true 4 (write_word false 4 1000 ++ 7 ∷ []) ≡ ok (1000, 7 ∷ [])
read-write_word_example = read-write_word false true 4 1000 (7 ∷ []) (omega arith)
