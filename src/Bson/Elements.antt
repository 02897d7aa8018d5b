-- ===== src/Bson/Elements.antt =====
-- Which elements and flat documents BSON brings back (nodebus/core/serializer.cpp and parser.cpp).
use jsonbus.Prelude.{
  ◌-◌, ℕ, suc, ◌+◌, ◌%◌, ◌^◌, ◌<◌, ◌≡◌, refl, Bool, true, false, List, [], ◌∷◌, ◌++◌, some,
  if◌then◌else◌, ◌==◌, length, append_assoc, append-nil, ok, arith,
}
use jsonbus.DataStream.{
  Reader, Reader, mapped, read_int8, read_int32, read_int64, read_double, write_int8, write_int32,
  write_int64, write_double,
}
use jsonbus.DataStream.Laws.{read-write_word}
use jsonbus.Bson.Token
use jsonbus.Bson.{BsonQt}
use jsonbus.Bson.Write.{write_name, write_bson_string, serialize_bson_elt}
use jsonbus.Bson.Read.{
  parse_bson_string, parse_bson_value, parse_bson_named, parse_bson_elt, parse_bson_fields,
  parse_bson_items,
}
use jsonbus.Bcon.Portable.{IsAscii, IsPortableKey}
use jsonbus.Bcon.RoundTrip.{read_bytes-append, read_key-append}
use jsonbus.Variant.{
  Variant, Items, Fields, Qt, invalid, bool, char, int, uint, long_long, ulong_long, double,
  date_time, string, byte_array, uuid, list, map, other, nil, end,
}

-- The simple values that come back, which are all but characters, 64-bit integers and byte arrays.
unfoldable pub IsScalar : Qt → Variant → Type 0
IsScalar qt invalid = Unit
IsScalar qt (bool b) = Unit
IsScalar qt (int n) = n < 2 ^ 32
IsScalar qt (uint n) = n < 2 ^ 32
IsScalar qt (double f) = f < 2 ^ 64
IsScalar qt (date_time ms) = ms < 2 ^ 64
IsScalar qt (string s) =
    (length (qt.to_local8bit s) + 1 < 2 ^ 32) × (qt.from_utf8 (qt.to_local8bit s) ≡ s)
IsScalar qt _ = ⊥

-- The value as it comes back: an unsigned number becomes a signed one of the same bits.
unfoldable pub bson_received : Variant → Variant
bson_received (uint n) = int n
bson_received v = v

-- The token and the bytes of a simple value.
abbrev scalar_token : Variant → ℕ
scalar_token (bool b) = Token.bool
scalar_token (int n) = Token.int32
scalar_token (uint n) = Token.int32
scalar_token (double f) = Token.double
scalar_token (date_time ms) = Token.datetime
scalar_token (string s) = Token.string
scalar_token _ = Token.null

abbrev scalar_bytes : Qt → Bool → Variant → List ℕ
scalar_bytes qt host (bool b) = write_int8 (if b then Token.true else Token.false)
scalar_bytes qt host (int n) = write_int32 host n
scalar_bytes qt host (uint n) = write_int32 host n
scalar_bytes qt host (double f) = write_double host f
scalar_bytes qt host (date_time ms) = write_int64 host ms
scalar_bytes qt host (string s) = write_bson_string host (qt.to_local8bit s)
scalar_bytes qt host _ = []

module _ (qt : Qt) (bqt : BsonQt) where
  serialize_bson_elt-scalar :
      (host : Bool) (v : Variant) (k : List ℕ)
      → IsScalar qt v
      → serialize_bson_elt qt bqt host v k
        ≡ ok (write_name qt (scalar_token v) k ++ scalar_bytes qt host v)
  unfolding serialize_bson_elt IsScalar
  serialize_bson_elt-scalar host invalid k h = rw append-nil
  serialize_bson_elt-scalar host (bool b) k h = refl
  serialize_bson_elt-scalar host (int n) k h = refl
  serialize_bson_elt-scalar host (uint n) k h = refl
  serialize_bson_elt-scalar host (double f) k h = refl
  serialize_bson_elt-scalar host (date_time ms) k h = refl
  serialize_bson_elt-scalar host (string s) k h = refl
  serialize_bson_elt-scalar host (char c) k h = absurd h
  serialize_bson_elt-scalar host (long_long n) k h = absurd h
  serialize_bson_elt-scalar host (ulong_long n) k h = absurd h
  serialize_bson_elt-scalar host (byte_array s) k h = absurd h
  serialize_bson_elt-scalar host (uuid s) k h = absurd h
  serialize_bson_elt-scalar host (list s) k h = absurd h
  serialize_bson_elt-scalar host (map s) k h = absurd h
  serialize_bson_elt-scalar host (other s) k h = absurd h

  read_int32-write :
      (writer reader : Bool) (n : ℕ) (rest : List ℕ)
      → n < 2 ^ 32
      → read_int32 reader (write_int32 writer n ++ rest) ≡ ok (n, rest)
  unfolding read_int32 write_int32
  read_int32-write writer reader n rest h = read-write_word writer reader 4 n rest (omega arith)

  read_int64-write :
      (writer reader : Bool) (n : ℕ) (rest : List ℕ)
      → n < 2 ^ 64
      → read_int64 reader (write_int64 writer n ++ rest) ≡ ok (n, rest)
  unfolding read_int64 write_int64
  read_int64-write writer reader n rest h = read-write_word writer reader 8 n rest (omega arith)

  read_double-write :
      (writer reader : Bool) (n : ℕ) (rest : List ℕ)
      → n < 2 ^ 64
      → read_double reader (write_double writer n ++ rest) ≡ ok (n, rest)
  unfolding read_double write_double
  read_double-write writer reader n rest h = read-write_word writer reader 8 n rest (omega arith)

  string_bytes :
      (writer : Bool) (bytes rest : List ℕ)
      → length bytes + 1 < 2 ^ 32
      → write_bson_string writer bytes ++ rest
        ≡ write_int32 writer (length bytes + 1) ++ (bytes ++ 0 ∷ rest)
  unfolding write_bson_string write_int8
  string_bytes writer bytes rest h =
      let small : (length bytes + 1) % 2 ^ 32 ≡ length bytes + 1 = omega arith in
      rw (write_bson_string, small, append_assoc, append_assoc)

  parse_bson_string-write :
      (writer reader : Bool) (bytes rest : List ℕ)
      → length bytes + 1 < 2 ^ 32
      → parse_bson_string qt reader (write_bson_string writer bytes ++ rest)
        ≡ ok (string (qt.from_utf8 bytes), rest)
  unfolding parse_bson_string read_int8
  parse_bson_string-write writer reader bytes rest h =
      let back : (length bytes + 1 + (2 ^ 32 - 1)) % 2 ^ 32 ≡ length bytes = omega arith in
      rw (
        string_bytes writer bytes rest h,
        read_int32-write writer reader (length bytes + 1) (bytes ++ 0 ∷ rest) h,
        back,
        read_bytes-append bytes (0 ∷ rest),
      )

  parse_bson_value-scalar :
      (writer reader : Bool) (v : Variant) (rest : List ℕ) (items : Reader Items)
      (fields : Reader Fields)
      → IsScalar qt v
      → parse_bson_value qt bqt reader
          (scalar_token v)
          items
          fields
          (scalar_bytes qt writer v ++ rest)
        ≡ ok (bson_received v, rest)
  unfolding parse_bson_value IsScalar bson_received mapped read_int8 write_int8
  parse_bson_value-scalar writer reader invalid rest items fields h = refl
  parse_bson_value-scalar writer reader (bool true) rest items fields h = refl
  parse_bson_value-scalar writer reader (bool false) rest items fields h = refl
  parse_bson_value-scalar writer reader (int n) rest items fields h =
      rw (read_int32-write writer reader n rest h)
  parse_bson_value-scalar writer reader (uint n) rest items fields h =
      rw (read_int32-write writer reader n rest h)
  parse_bson_value-scalar writer reader (double f) rest items fields h =
      rw (read_double-write writer reader f rest h)
  parse_bson_value-scalar writer reader (date_time ms) rest items fields h =
      rw (read_int64-write writer reader ms rest h)
  parse_bson_value-scalar writer reader (string s) rest items fields h =
      rw (parse_bson_string-write writer reader (qt.to_local8bit s) rest h.0, h.1)
  parse_bson_value-scalar writer reader (char c) rest items fields h = absurd h
  parse_bson_value-scalar writer reader (long_long n) rest items fields h = absurd h
  parse_bson_value-scalar writer reader (ulong_long n) rest items fields h = absurd h
  parse_bson_value-scalar writer reader (byte_array s) rest items fields h = absurd h
  parse_bson_value-scalar writer reader (uuid s) rest items fields h = absurd h
  parse_bson_value-scalar writer reader (list s) rest items fields h = absurd h
  parse_bson_value-scalar writer reader (map s) rest items fields h = absurd h
  parse_bson_value-scalar writer reader (other s) rest items fields h = absurd h

  scalar_token_small :
      (v : Variant) → ((scalar_token v == Token.end) ≡ false) × (scalar_token v < 256)
  scalar_token_small invalid = (refl, omega arith)
  scalar_token_small (bool b) = (refl, omega arith)
  scalar_token_small (int n) = (refl, omega arith)
  scalar_token_small (uint n) = (refl, omega arith)
  scalar_token_small (double f) = (refl, omega arith)
  scalar_token_small (date_time ms) = (refl, omega arith)
  scalar_token_small (string s) = (refl, omega arith)
  scalar_token_small _ = (refl, omega arith)

  module _ (ascii : IsAscii qt) where
    pub name_bytes :
        (token : ℕ) (k more : List ℕ)
        → IsPortableKey qt k
        → token < 256
        → write_name qt token k ++ more ≡ token ∷ (k ++ 0 ∷ more)
    unfolding write_name write_int8
    name_bytes token k more h t =
        let small : token % 256 ≡ token = omega arith in rw (h.1, small, append_assoc)

    pub parse_bson_named-value :
        (reader : Bool) (t : ℕ) (items : Reader Items) (fields : Reader Fields) (v : Variant)
        (k more rest : List ℕ)
        → (t == Token.end) ≡ false
        → IsPortableKey qt k
        → parse_bson_value qt bqt reader t items fields more ≡ ok (v, rest)
        → parse_bson_named qt bqt reader t items fields (k ++ 0 ∷ more) ≡ ok (some (v, k), rest)
    unfolding parse_bson_named mapped
    parse_bson_named-value reader t items fields v k more rest f h e =
        rw (parse_bson_named, f, read_key-append qt ascii k more h.0, e)

    elt_bytes :
        (writer : Bool) (v : Variant) (k bytes rest : List ℕ)
        → IsScalar qt v
        → IsPortableKey qt k
        → serialize_bson_elt qt bqt writer v k ≡ ok bytes
        → bytes ++ rest ≡ scalar_token v ∷ (k ++ 0 ∷ (scalar_bytes qt writer v ++ rest))
    elt_bytes writer v k bytes rest h hk e =
        let written = serialize_bson_elt-scalar writer v k h in
        let whole : bytes ≡ write_name qt (scalar_token v) k ++ scalar_bytes qt writer v = cc in
        rw (whole, append_assoc)
          (name_bytes (scalar_token v) k (scalar_bytes qt writer v ++ rest) hk
            (scalar_token_small v).1)

    -- For conversions of Qt that keep ASCII, a BSON element of a simple value (null, a boolean, a
    -- 32-bit integer, a double, a date, or a string that fits and that its conversion to the local
    -- encoding and from UTF-8 gives back), under a key of ASCII characters other than 0 that the
    -- local encoding keeps, comes back with its key, an unsigned integer as the signed one of the
    -- same bits, across host byte orders and in front of any other data.
    pub parse-serialize_bson_elt :
        (writer reader : Bool) (v : Variant) (k bytes rest : List ℕ) (fuel : ℕ)
        → IsScalar qt v
        → IsPortableKey qt k
        → serialize_bson_elt qt bqt writer v k ≡ ok bytes
        → parse_bson_elt qt bqt reader (suc fuel) (bytes ++ rest)
          ≡ ok (some (bson_received v, k), rest)
    unfolding parse_bson_elt read_int8
    parse-serialize_bson_elt writer reader v k bytes rest fuel h hk e =
        rw (elt_bytes writer v k bytes rest h hk e) (
          parse_bson_named-value reader (scalar_token v) (parse_bson_items qt bqt reader fuel nil)
            (parse_bson_fields qt bqt reader fuel end) (bson_received v) k
            (scalar_bytes qt writer v ++ rest) rest (scalar_token_small v).0 hk
            (parse_bson_value-scalar writer reader v rest _ _ h))
