-- ===== src/Bson/Faults.antt =====
-- What BSON does to the 64-bit integers (nodebus/core/serializer.cpp and parser.cpp).
use jsonbus.Prelude.{
  ℕ, suc, ◌%◌, ◌^◌, ◌≡◌, refl, Bool, true, false, List, ◌++◌, append_assoc, take, drop, some, ok,
  arith,
}
use jsonbus.DataStream.{
  read_int8, read_int64, read_word, write_int32, mapped, value_in_memory, le_bytes,
}
use jsonbus.Bson.Token
use jsonbus.Bson.{BsonQt}
use jsonbus.Bson.Write.{write_name, serialize_bson_elt}
use jsonbus.Bson.Read.{parse_bson_value, parse_bson_elt, parse_bson_items, parse_bson_fields}
use jsonbus.Bson.Elements.{name_bytes, parse_bson_named-value}
use jsonbus.Bcon.Portable.{IsAscii, IsPortableKey}
use jsonbus.Variant.{Qt, long_long, nil, end}

four_bytes :
    (writer : Bool) (n : ℕ) (rest : List ℕ) → drop 8 (write_int32 writer n ++ rest) ≡ drop 4 rest
unfolding write_int32 le_bytes
four_bytes true n rest = refl
four_bytes false n rest = refl

-- A 64-bit integer is written with four bytes and read with eight: on a host that keeps the low byte
-- first the next four bytes of the input are lost to it, whatever they are.
pub parse-long_long :
    (qt : Qt) (bqt : BsonQt) (writer : Bool) (n : ℕ) (k bytes rest : List ℕ) (fuel : ℕ)
    → IsAscii qt
    → IsPortableKey qt k
    → serialize_bson_elt qt bqt writer (long_long n) k ≡ ok bytes
    → (m : ℕ) × (parse_bson_elt qt bqt true (suc fuel) (bytes ++ rest)
        ≡ ok (some (long_long m, k), drop 4 rest))
unfolding parse_bson_elt read_int8 serialize_bson_elt
parse-long_long qt bqt writer n k bytes rest fuel ascii h e =
    let number = write_int32 writer (n % 2 ^ 32) in
    let whole : bytes ≡ write_name qt Token.int64 k ++ number = cc in
    let m = value_in_memory true (take 8 (number ++ rest)) in
    let reads : parse_bson_value qt bqt true Token.int64 (parse_bson_items qt bqt true fuel nil)
          (parse_bson_fields qt bqt true fuel end) (number ++ rest)
        ≡ ok (long_long m, drop 4 rest) =
      unfold parse_bson_value mapped read_int64 read_word in
      rw (four_bytes writer (n % 2 ^ 32) rest) in
    (
      m,
      rw
          (
            whole,
            append_assoc,
            name_bytes qt bqt ascii Token.int64 k (number ++ rest) h (omega arith),
          )
          (parse_bson_named-value qt bqt ascii true Token.int64
            (parse_bson_items qt bqt true fuel nil) (parse_bson_fields qt bqt true fuel end)
            (long_long m) k (number ++ rest) (drop 4 rest) refl h reads),
    )
