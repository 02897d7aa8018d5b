-- ===== src/Bcon/Faults.antt =====
-- Values that `serializeBCON` writes in a form that `parseBCON` reads otherwise
-- (nodebus/core/serializer.cpp, nodebus/core/parser.cpp).
use jsonbus.Prelude.{
  ℕ, zero, suc, ◌+◌, ◌/◌, ◌%◌, ◌^◌, ◌≤◌, ◌<◌, ◌≡◌, refl, Bool, false, List, [], ◌∷◌, ◌++◌,
  append-nil, append_assoc, none, some, length, length-append, arith, ok, undefined,
}
use jsonbus.DataStream.{mapped, write_int8, read_int8, le_bytes}
use jsonbus.Variant.{Qt, string, byte_array, int}
use jsonbus.Bcon.Bits.{data6_token, string12_token}
use jsonbus.Bcon.Write.{emit, serialize_bcon, write_key, write_byte_array, write_string, write_int}
use jsonbus.Bcon.Encode.{write_int32-le_bytes}
use jsonbus.Bcon.Read.{
  read_bytes, parse_blob, parse_length, parse_scalar, parse_value, parse_key, parse_bcon,
}
use jsonbus.Bcon.RoundTrip.{read_bytes-append}
use jsonbus.Bcon.Top.{parse, parse_of, value_or_invalid}

-- Reading past the end of the device.
read_bytes_short : (len : ℕ) (bs : List ℕ) → length bs < len → read_bytes len bs ≡ undefined
unfolding read_bytes read_int8
read_bytes_short zero bs h = absurd (omega arith)
read_bytes_short (suc len) [] h = refl
read_bytes_short (suc len) (b ∷ bs) h = rw (read_bytes_short len bs (omega arith))

write_byte_array_short :
    (host : Bool) (bytes : List ℕ)
    → length bytes < 32
    → write_byte_array host bytes ≡ emit ((160 + length bytes) ∷ bytes)
unfolding write_byte_array write_int8
write_byte_array_short host bytes h = ground (arith, data6_token (length bytes % 64))

parse_short_token :
    (qt : Qt) (host : Bool) (fuel : ℕ) (bytes : List ℕ)
    → length bytes < 32
    → parse_bcon qt host (suc fuel) false ((160 + length bytes) ∷ bytes) ≡ undefined
unfolding parse_bcon parse_value parse_blob read_int8 mapped
parse_short_token qt host fuel bytes h =
    ground (arith, read_bytes_short (length bytes + 32) bytes (omega arith))

-- A byte array of fewer than 32 bytes never comes back. Bit 0x20 of its token is read as a bit of its
-- length, so the parser runs 32 bytes past its end: off the device, if nothing follows it.
pub parse-byte_array_short :
    (qt : Qt) (writer reader : Bool) (bytes : List ℕ)
    → length bytes < 32
    → parse qt reader (serialize_bcon qt writer (byte_array bytes) none).0 ≡ undefined
unfolding serialize_bcon write_key
parse-byte_array_short qt writer reader bytes h =
    rw (write_byte_array_short writer bytes h, append-nil)
      (parse_of qt reader _ undefined (λ fuel. parse_short_token qt reader fuel bytes h))

write_string_long :
    (host : Bool) (bytes : List ℕ)
    → 64 ≤ length bytes
    → length bytes < 4096
    → write_string host bytes
      ≡ emit ((80 + length bytes % 16) ∷ (length bytes / 16) ∷ 0 ∷ 0 ∷ 0 ∷ bytes)
unfolding write_string write_int8 le_bytes
write_string_long host bytes lo hi =
    ground (
      arith,
      string12_token (length bytes % 16),
      write_int32-le_bytes host (length bytes / 16 % 256),
    )

parse_long_token :
    (qt : Qt) (host : Bool) (fuel : ℕ) (b1 b2 b3 : ℕ) (bytes rest : List ℕ)
    → length bytes + 3 < 4096
    → parse_bcon qt host
        (suc fuel)
        false
        ((80 + (length bytes + 3) % 16) ∷ ((length bytes + 3) / 16) ∷ b1 ∷ b2 ∷ b3 ∷ bytes ++ rest)
      ≡ ok (some (string (qt.from_utf8 (b1 ∷ b2 ∷ b3 ∷ bytes)), []), rest)
unfolding parse_bcon parse_value parse_blob parse_length parse_key read_int8 mapped
parse_long_token qt host fuel b1 b2 b3 bytes rest h =
    ground (arith, read_bytes-append (b1 ∷ b2 ∷ b3 ∷ bytes) rest)

-- A string of 64 to 4095 bytes does not come back: its length takes four bytes on the wire where the
-- parser reads one, so the value gets three zero bytes in front and loses its last three bytes, which
-- stay on the device in front of what follows.
pub parse-string_long :
    (qt : Qt) (writer reader : Bool) (s front back rest : List ℕ)
    → qt.to_local8bit s ≡ front ++ back
    → length back ≡ 3
    → 61 ≤ length front
    → length front < 4093
    → parse qt reader ((serialize_bcon qt writer (string s) none).0 ++ rest)
      ≡ ok (string (qt.from_utf8 (0 ∷ 0 ∷ 0 ∷ front)), back ++ rest)
unfolding serialize_bcon write_key value_or_invalid
parse-string_long qt writer reader s front back rest e three lo hi =
    let size : length (front ++ back) ≡ length front + 3 =
      omega (arith, length-append front back) in
    rw (e, write_string_long writer (front ++ back) (omega arith) (omega arith), size, append-nil)
      (rw append_assoc (
        parse_of qt reader _ _
          (λ fuel. parse_long_token qt reader fuel 0 0 0 front (back ++ rest) (omega arith))))

write_int_lowest :
    (qt : Qt) (host : Bool) (n : ℕ)
    → n < 128
    → write_int qt host (2 ^ 31 + n) ≡ 4 ∷ (qt.to_ascii (qt.int_to_char (2 ^ 31 + n)) % 256) ∷ []
unfolding write_int write_int8
write_int_lowest qt host n h = ground arith

parse_byte_token :
    (qt : Qt) (host : Bool) (fuel b : ℕ) (rest : List ℕ)
    → parse_bcon qt host (suc fuel) false (4 ∷ b ∷ rest) ≡ ok (some (int b, []), rest)
unfolding parse_bcon parse_value parse_scalar parse_key read_int8 mapped
parse_byte_token qt host fuel b rest = refl

-- A negative int of the 128 lowest is written as a byte: the masks of the tests leave the sign out.
-- It comes back as the number of that byte.
pub parse-int_lowest :
    (qt : Qt) (writer reader : Bool) (n : ℕ) (rest : List ℕ)
    → n < 128
    → parse qt reader ((serialize_bcon qt writer (int (2 ^ 31 + n)) none).0 ++ rest)
      ≡ ok (int (qt.to_ascii (qt.int_to_char (2 ^ 31 + n)) % 256), rest)
unfolding serialize_bcon write_key value_or_invalid
parse-int_lowest qt writer reader n rest h =
    rw (write_int_lowest qt writer n h)
      (parse_of qt reader _ _ (λ fuel. parse_byte_token qt reader fuel _ rest))
