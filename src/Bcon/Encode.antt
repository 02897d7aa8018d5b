-- ===== src/Bcon/Encode.antt =====
-- On a portable value `serializeBCON` writes the bytes of the BCON grammar, on every host.
use jsonbus.Prelude.{
  ℕ, ◌+◌, ◌%◌, ◌^◌, ◌≤◌, ◌<◌, ◌≡◌, refl, ap, ◌⊎◌, Bool, true, false, List, [], ◌∷◌, ◌++◌,
  append_assoc, append-nil, Option, none, some, length, arith,
}
use jsonbus.DataStream.{le_bytes, write_int8, write_int16, write_int32, write_int64, write_double}
use jsonbus.DataStream.Laws.{write_word-le_bytes}
use jsonbus.Bcon.Bits.{string6_token, data6_token}
use jsonbus.Bcon.Write.{
  emit, write_int, write_uint, write_string, write_byte_array, write_key, serialize_bcon,
  serialize_bcon_items, serialize_bcon_fields,
}
use jsonbus.Bcon.Portable.{
  encoding_fields, encoding_items, IsPortableKey, ArePortableFields, key_bytes, IsPortable,
  ArePortable, IsAscii, encoding,
}
use jsonbus.Variant.{
  Variant, Items, Fields, Qt, invalid, bool, char, int, uint, long_long, ulong_long, double,
  date_time, string, byte_array, uuid, list, map, other, nil, cons, end, field,
}

pub write_int16-le_bytes : (host : Bool) (n : ℕ) → write_int16 host n ≡ le_bytes 2 n
unfolding write_int16
write_int16-le_bytes host n = write_word-le_bytes host 2 n

pub write_int32-le_bytes : (host : Bool) (n : ℕ) → write_int32 host n ≡ le_bytes 4 n
unfolding write_int32
write_int32-le_bytes host n = write_word-le_bytes host 4 n

pub write_int64-le_bytes : (host : Bool) (n : ℕ) → write_int64 host n ≡ le_bytes 8 n
unfolding write_int64
write_int64-le_bytes host n = write_word-le_bytes host 8 n

write_double-le_bytes : (host : Bool) (n : ℕ) → write_double host n ≡ le_bytes 8 n
unfolding write_double
write_double-le_bytes host n = write_word-le_bytes host 8 n

pub write_int8_lem : (b : ℕ) → b < 256 → write_int8 b ≡ b ∷ []
unfolding write_int8
write_int8_lem b h = ap (λ t. t ∷ []) (omega arith)

write_string-encoding :
    (host : Bool) (bytes : List ℕ)
    → length bytes < 64
    → write_string host bytes ≡ emit ((192 + length bytes) ∷ bytes)
unfolding write_string write_int8
write_string-encoding host bytes h = ground (arith, string6_token (length bytes % 64))

write_byte_array-encoding :
    (host : Bool) (bytes : List ℕ)
    → 32 ≤ length bytes
    → length bytes < 64
    → write_byte_array host bytes ≡ emit ((128 + length bytes) ∷ bytes)
unfolding write_byte_array write_int8
write_byte_array-encoding host bytes l h = ground (arith, data6_token (length bytes % 64))

module _ (qt : Qt) (host : Bool) (ascii : IsAscii qt) where
  write_int-encoding :
      (n : ℕ)
      → (n < 2 ^ 31) ⊎ ((2 ^ 31 + 2 ^ 15 ≤ n) × (n < 2 ^ 32))
      → write_int qt host n ≡ encoding qt (int n)
  unfolding write_int encoding write_int8
  write_int-encoding n h = ground (
    arith,
    ascii.to_ascii_ascii n,
    ascii.int_to_char_ascii n,
    write_int16-le_bytes host n,
    write_int32-le_bytes host n,
  )

  write_uint-encoding : (n : ℕ) → n < 2 ^ 32 → write_uint host n ≡ encoding qt (uint n)
  unfolding write_uint encoding write_int8
  write_uint-encoding n h = ground (arith, write_int16-le_bytes host n, write_int32-le_bytes host n)

  abbrev Writes : Variant → Type 0
  Writes v =
      IsPortable qt v
      → (key : Option (List ℕ))
      → serialize_bcon qt host v key ≡ emit (encoding qt v ++ write_key qt key)

  abbrev WritesItems : Items → Type 0
  WritesItems items =
      ArePortable qt items → serialize_bcon_items qt host items ≡ emit (encoding_items qt items)

  abbrev WritesFields : Fields → Type 0
  WritesFields fields =
      ArePortableFields qt fields
      → serialize_bcon_fields qt host fields ≡ emit (encoding_fields qt fields)

  write_key-key_bytes :
      (k : List ℕ) → IsPortableKey qt k → write_key qt (some k) ≡ key_bytes (some k)
  unfolding write_key write_int8 key_bytes
  write_key-key_bytes k h = rw (h.1)

  write_key-none : write_key qt none ≡ []
  unfolding write_key
  write_key-none = refl

  mutual
    unfolding serialize_bcon encoding IsPortable write_int8

    writes : (v : Variant) → Writes v
    writes invalid h key = refl
    writes (bool true) h key = refl
    writes (bool false) h key = refl
    writes (char c) h key = ground (arith, ascii.to_ascii_ascii c)
    writes (int n) h key = rw (write_int-encoding n h)
    writes (uint n) h key = rw (write_uint-encoding n h)
    writes (long_long n) h key = rw (write_int64-le_bytes)
    writes (ulong_long n) h key = rw (write_int64-le_bytes)
    writes (double f) h key = rw (write_double-le_bytes)
    writes (date_time ms) h key = rw (write_int64-le_bytes)
    writes (string s) h key = rw (write_string-encoding host (qt.to_local8bit s) h.0)
    writes (byte_array bytes) h key = rw (write_byte_array-encoding host bytes h.0 h.1)
    writes (list elements) h key = rw (writes_items elements h) (simp append_assoc)
    writes (map elements) h key = rw (writes_fields elements h) (simp append_assoc)
    writes (uuid id) h key = absurd h
    writes (other t) h key = absurd h

    writes_items : (items : Items) → WritesItems items
    writes_items nil h = refl
    writes_items (cons v items) h =
        rw (writes v h.0 none, writes_items items h.1, write_key-none, append-nil)

    writes_fields : (fields : Fields) → WritesFields fields
    writes_fields end h = refl
    writes_fields (field k v fields) h =
        rw (writes v h.1 (some k), writes_fields fields h.3, write_key-key_bytes k h.0)

  -- A portable value, with the key of its entry if it has one, is written in full: the bytes of its
  -- encoding, then the key. The bytes do not depend on the host.
  pub serialize_bcon-encoding :
      (v : Variant)
      → IsPortable qt v
      → (key : Option (List ℕ))
      → serialize_bcon qt host v key ≡ emit (encoding qt v ++ write_key qt key)
  serialize_bcon-encoding v = writes v
