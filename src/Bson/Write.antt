-- ===== src/Bson/Write.antt =====
-- `Serializer::serializeBSONDocument` and `serializeBSONElt` (nodebus/core/serializer.cpp).
-- A document is built in a buffer of its own, so that an exception leaves nothing of it behind.
-- `toUInt` of a wider number keeps its low 32 bits.
use jsonbus.Prelude.{
  ℕ, ℕ, ℕ, ℕ, ℕ, ℕ, ℕ, ◌+◌, ◌%◌, ◌^◌, suc, Bool, List, [], ◌++◌, if◌then◌else◌, length, Outcome, ok,
  throw, bind, serializer_exception,
}
use jsonbus.DataStream.{write_int8, write_int32, write_int64, write_double}
use jsonbus.Bson.Token
use jsonbus.Bson.{BsonQt}
use jsonbus.Variant.{
  Variant, Items, Fields, Qt, invalid, bool, char, int, uint, long_long, ulong_long, double,
  date_time, string, byte_array, uuid, list, map, other, nil, cons, end, field,
}

-- What stands in front of a value: its token and its key.
unfoldable pub write_name : Qt → ℕ → List ℕ → List ℕ
unfolding write_int8
write_name qt token key = write_int8 token ++ qt.to_local8bit key ++ write_int8 0

-- The end of `serializeBSONDocument`: the length, the payload and the end.
unfoldable pub write_document : Bool → List ℕ → List ℕ
unfolding write_int32 write_int8
write_document host payload =
    write_int32 host ((length payload + 5) % 2 ^ 32) ++ payload ++ write_int8 Token.end

unfoldable pub write_bson_string : Bool → List ℕ → List ℕ
unfolding write_int32 write_int8
write_bson_string host bytes =
    write_int32 host ((length bytes + 1) % 2 ^ 32) ++ bytes ++ write_int8 0

unfoldable pub write_bson_data : Bool → List ℕ → List ℕ
unfolding write_int32 write_int8
write_bson_data host bytes =
    write_int32 host (length bytes % 2 ^ 32) ++ write_int8 Token.generic ++ bytes

module _ (qt : Qt) (bqt : BsonQt) (host : Bool) where
  unfoldable mutual
    pub serialize_bson_elt : Variant → List ℕ → Outcome (List ℕ)
    serialize_bson_elt invalid key = ok (write_name qt Token.null key)
    serialize_bson_elt (bool b) key =
        ok (write_name qt Token.bool key ++ write_int8 (if b then Token.true else Token.false))
    serialize_bson_elt (char c) key =
        ok (write_name qt Token.int32 key ++ write_int32 host (bqt.char_to_uint c))
    serialize_bson_elt (int n) key = ok (write_name qt Token.int32 key ++ write_int32 host n)
    serialize_bson_elt (uint n) key = ok (write_name qt Token.int32 key ++ write_int32 host n)
    serialize_bson_elt (long_long n) key =
        ok (write_name qt Token.int64 key ++ write_int32 host (n % 2 ^ 32))
    serialize_bson_elt (ulong_long n) key =
        ok (write_name qt Token.int64 key ++ write_int32 host (n % 2 ^ 32))
    serialize_bson_elt (double f) key = ok (write_name qt Token.double key ++ write_double host f)
    serialize_bson_elt (date_time ms) key =
        ok (write_name qt Token.datetime key ++ write_int64 host ms)
    serialize_bson_elt (map elements) key =
        bind (serialize_bson_fields elements)
          λ payload. ok (write_name qt Token.map key ++ write_document host payload)
    serialize_bson_elt (list elements) key =
        bind (serialize_bson_items 0 elements)
          λ payload. ok (write_name qt Token.list key ++ write_document host payload)
    serialize_bson_elt (string s) key =
        ok (write_name qt Token.string key ++ write_bson_string host (qt.to_local8bit s))
    serialize_bson_elt (byte_array bytes) key =
        ok (write_name qt Token.binary key ++ write_bson_data host bytes)
    serialize_bson_elt (uuid id) key = throw serializer_exception
    serialize_bson_elt (other t) key = throw serializer_exception

    -- The elements of a list, whose keys are their numbers.
    pub serialize_bson_items : ℕ → Items → Outcome (List ℕ)
    serialize_bson_items i nil = ok []
    serialize_bson_items i (cons v items) =
        bind (serialize_bson_elt v (bqt.number i))
          λ bytes. bind (serialize_bson_items (suc i) items) λ more. ok (bytes ++ more)

    pub serialize_bson_fields : Fields → Outcome (List ℕ)
    serialize_bson_fields end = ok []
    serialize_bson_fields (field key v fields) =
        bind (serialize_bson_elt v key)
          λ bytes. bind (serialize_bson_fields fields) λ more. ok (bytes ++ more)

  unfoldable pub serialize_bson_document : Variant → Outcome (List ℕ)
  serialize_bson_document (map elements) =
      bind (serialize_bson_fields elements) λ payload. ok (write_document host payload)
  serialize_bson_document (list elements) =
      bind (serialize_bson_items 0 elements) λ payload. ok (write_document host payload)
  serialize_bson_document _ = throw serializer_exception
