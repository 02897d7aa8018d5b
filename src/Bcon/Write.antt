-- ===== src/Bcon/Write.antt =====
-- `Serializer::serializeBCON` (nodebus/core/serializer.cpp).
-- What is written is a list of bytes with the exception that ended the writing, if any: an exception
-- leaves on the stream what was written before it. `&` with a mask of low bits is `%`, a right shift
-- is `/`. The conversions of a value are those to its own type.
use Prim.Native.Nat.{bit_or}
use jsonbus.Prelude.{
  ℕ, ◌/◌, ◌%◌, ◌^◌, Bool, List, [], ◌++◌, Option, none, some, ltb, ◌==◌, if◌then◌else◌, length,
  Exception, serializer_exception,
}
use jsonbus.DataStream.{write_int8, write_int16, write_int32, write_int64, write_double}
use jsonbus.Bcon.Token
use jsonbus.Variant.{
  Variant, Items, Fields, Qt, invalid, bool, char, int, uint, long_long, ulong_long, double,
  date_time, string, byte_array, uuid, list, map, other, nil, cons, end, field,
}

abbrev pub Emit : Type 0
Emit = List ℕ × Option Exception

abbrev pub emit : List ℕ → Emit
emit bytes = (bytes, none)

infixr 60 ◌&>◌
abbrev pub ◌&>◌ : Emit → Emit → Emit
(bytes, none) &> (more, e) = (bytes ++ more, e)
(bytes, some x) &> _ = (bytes, some x)

-- The case of QVariant::Int. The masks leave the sign bit out.
unfoldable pub write_int : Qt → Bool → ℕ → List ℕ
unfolding write_int8 write_int16 write_int32
write_int qt host num =
    if num % 2 ^ 31 / 2 ^ 7 == 0
    then write_int8 Token.byte ++ write_int8 (qt.to_ascii (qt.int_to_char num))
    else if num % 2 ^ 31 / 2 ^ 15 == 0
    then write_int8 Token.int16 ++ write_int16 host (num % 2 ^ 16)
    else write_int8 Token.int32 ++ write_int32 host num

unfoldable pub write_uint : Bool → ℕ → List ℕ
unfolding write_int8 write_int16 write_int32
write_uint host num =
    if num / 2 ^ 16 == 0
    then write_int8 Token.uint16 ++ write_int16 host (num % 2 ^ 16)
    else write_int8 Token.uint32 ++ write_int32 host num

-- The header and the bytes of a string or of a byte array, with the tokens of its kind. The parts of
-- the length are `int`s, so each of them goes through `operator<<(qint32)`.
write_blob : Bool → ℕ → ℕ → ℕ → ℕ → List ℕ → Emit
unfolding write_int8 write_int32
write_blob host token6 token12 token20 token36 bytes =
    let len = length bytes in
    if ltb len 64
    then emit (write_int8 (bit_or token6 (len % 64)) ++ bytes)
    else if ltb len 4096
    then emit (write_int8 (bit_or token12 (len % 16)) ++ write_int32 host (len / 16 % 256) ++ bytes)
    else if ltb len 1048576
    then emit (
        write_int8 (bit_or token20 (len % 16))
        ++ write_int32 host (len / 16 % 256)
        ++ write_int32 host (len / 4096 % 256)
        ++ bytes)
    else if ltb len 68719476736
    then emit (
        write_int8 (bit_or token36 (len % 16))
        ++ write_int32 host (len / 16 % 256)
        ++ write_int32 host (len / 4096 % 256)
        ++ write_int32 host (len / 1048576)
        ++ bytes)
    else ([], some serializer_exception)

unfoldable pub write_string : Bool → List ℕ → Emit
unfolding write_blob
write_string host bytes =
    write_blob host Token.string6 Token.string12 Token.string20 Token.string36 bytes

unfoldable pub write_byte_array : Bool → List ℕ → Emit
unfolding write_blob
write_byte_array host bytes =
    write_blob host Token.data6 Token.data12 Token.data20 Token.data36 bytes

-- The last line of `serializeBCON`: the key, if there is one, and a zero byte.
unfoldable pub write_key : Qt → Option (List ℕ) → List ℕ
unfolding write_int8
write_key qt none = []
write_key qt (some key) = qt.to_local8bit key ++ write_int8 0

module _ (qt : Qt) (host : Bool) where
  unfoldable mutual
    pub serialize_bcon : Variant → Option (List ℕ) → Emit
    serialize_bcon invalid key = emit (write_int8 Token.null) &> emit (write_key qt key)
    serialize_bcon (bool b) key =
        emit (write_int8 (if b then Token.true else Token.false)) &> emit (write_key qt key)
    serialize_bcon (char c) key =
        emit (write_int8 Token.byte ++ write_int8 (qt.to_ascii c)) &> emit (write_key qt key)
    serialize_bcon (int n) key = emit (write_int qt host n) &> emit (write_key qt key)
    serialize_bcon (uint n) key = emit (write_uint host n) &> emit (write_key qt key)
    serialize_bcon (long_long n) key =
        emit (write_int8 Token.int64 ++ write_int64 host n) &> emit (write_key qt key)
    serialize_bcon (ulong_long n) key =
        emit (write_int8 Token.uint64 ++ write_int64 host n) &> emit (write_key qt key)
    serialize_bcon (double f) key =
        emit (write_int8 Token.double ++ write_double host f) &> emit (write_key qt key)
    serialize_bcon (date_time ms) key =
        emit (write_int8 Token.datetime ++ write_int64 host ms) &> emit (write_key qt key)
    serialize_bcon (string s) key = write_string host (qt.to_local8bit s) &> emit (write_key qt key)
    serialize_bcon (byte_array bytes) key = write_byte_array host bytes &> emit (write_key qt key)
    serialize_bcon (list elements) key =
        emit (write_int8 Token.list)
        &> serialize_bcon_items elements
        &> emit (write_int8 Token.end)
        &> emit (write_key qt key)
    serialize_bcon (map elements) key =
        emit (write_int8 Token.map)
        &> serialize_bcon_fields elements
        &> emit (write_int8 Token.end)
        &> emit (write_key qt key)
    serialize_bcon (uuid _) key = ([], some serializer_exception)
    serialize_bcon (other _) key = ([], some serializer_exception)

    pub serialize_bcon_items : Items → Emit
    serialize_bcon_items nil = emit []
    serialize_bcon_items (cons v items) = serialize_bcon v none &> serialize_bcon_items items

    pub serialize_bcon_fields : Fields → Emit
    serialize_bcon_fields end = emit []
    serialize_bcon_fields (field k v fields) =
        serialize_bcon v (some k) &> serialize_bcon_fields fields
