-- ===== src/Bcon/RoundTrip.antt =====
-- What `serializeBCON` wrote `parseBCON` reads back.
use jsonbus.Prelude.{
  ℕ, zero, suc, ◌+◌, ◌*◌, ◌^◌, ◌≤◌, ◌<◌, ◌≡◌, refl, ap, ◌∙◌, Bool, true, false, List, [], ◌∷◌, ◌++◌,
  append_assoc, none, some, length, length-append, All, arith, ok,
}
use jsonbus.DataStream.{
  mapped, le_bytes, read_int8, read_int16, read_int32, read_int64, read_double,
}
use jsonbus.DataStream.Laws.{read_word-le_bytes}
use jsonbus.Bcon.Read.{
  next_item, next_field, read_bytes, read_key, parse_blob, parse_scalar, parse_value, parse_key,
  parse_bcon, parse_items, parse_fields,
}
use jsonbus.Bcon.Portable.{
  IsAscii, IsPortable, ArePortable, ArePortableFields, IsPortableKey, encoding, encoding_items,
  encoding_fields, key_bytes, received, received_items, received_fields,
}
use jsonbus.Variant.Order.{
  KeysBelow, AllBelow, append_fields, insert-append_fields, AllBelow-append_fields,
  append_fields_assoc, append_fields-end, AllBelow-end,
}
use jsonbus.Variant.{
  Variant, Items, Fields, Qt, invalid, bool, char, int, uint, long_long, ulong_long, double,
  date_time, string, byte_array, uuid, list, map, other, nil, cons, end, field,
}

pub read_bytes-append :
    (bytes rest : List ℕ) → read_bytes (length bytes) (bytes ++ rest) ≡ ok (bytes, rest)
unfolding read_bytes read_int8
read_bytes-append [] rest = refl
read_bytes-append (b ∷ bytes) rest = rw (read_bytes-append bytes rest)

read_int16-le_bytes :
    (host : Bool) (n : ℕ) (rest : List ℕ)
    → n < 2 ^ 16
    → read_int16 host (le_bytes 2 n ++ rest) ≡ ok (n, rest)
unfolding read_int16
read_int16-le_bytes host n rest h = read_word-le_bytes host 2 n rest (omega arith)

read_int32-le_bytes :
    (host : Bool) (n : ℕ) (rest : List ℕ)
    → n < 2 ^ 32
    → read_int32 host (le_bytes 4 n ++ rest) ≡ ok (n, rest)
unfolding read_int32
read_int32-le_bytes host n rest h = read_word-le_bytes host 4 n rest (omega arith)

read_int64-le_bytes :
    (host : Bool) (n : ℕ) (rest : List ℕ)
    → n < 2 ^ 64
    → read_int64 host (le_bytes 8 n ++ rest) ≡ ok (n, rest)
unfolding read_int64
read_int64-le_bytes host n rest h = read_word-le_bytes host 8 n rest (omega arith)

read_double-le_bytes :
    (host : Bool) (n : ℕ) (rest : List ℕ)
    → n < 2 ^ 64
    → read_double host (le_bytes 8 n ++ rest) ≡ ok (n, rest)
unfolding read_double
read_double-le_bytes host n rest h = read_word-le_bytes host 8 n rest (omega arith)

module _ (qt : Qt) (ascii : IsAscii qt) where
  pub read_key-append :
      (key rest : List ℕ)
      → All (λ u. (1 ≤ u) × (u < 128)) key
      → read_key qt (key ++ 0 ∷ rest) ≡ ok (key, rest)
  unfolding read_key
  read_key-append [] rest h = refl
  read_key-append (u ∷ key) rest h =
      ground (arith, read_key-append key rest h.1, ascii.from_char_ascii u)

  module _ (host : Bool) where
    -- With enough fuel the parser reads the value off the front and goes on to the key.
    abbrev Reads : Variant → Type 0
    Reads v =
        IsPortable qt v
        → (with_key : Bool) (rest : List ℕ) (fuel : ℕ) → 2 * length (encoding qt v) ≤ suc fuel
        → parse_bcon qt host (suc fuel) with_key (encoding qt v ++ rest)
          ≡ parse_key qt host with_key (some (received v)) rest

    Reads-string : (s : List ℕ) → Reads (string s)
    unfolding IsPortable encoding received parse_bcon parse_value parse_blob read_int8 mapped
    Reads-string s h with_key rest fuel f =
        ground (arith, h.0, h.1, read_bytes-append (qt.to_local8bit s) rest)

    Reads-byte_array : (bytes : List ℕ) → Reads (byte_array bytes)
    unfolding IsPortable encoding received parse_bcon parse_value parse_blob read_int8 mapped
    Reads-byte_array bytes h with_key rest fuel f = ground (arith, read_bytes-append bytes rest)

    Reads-int : (n : ℕ) → Reads (int n)
    unfolding IsPortable encoding received parse_bcon parse_value parse_scalar read_int8 mapped
    Reads-int n h with_key rest fuel f =
        ground (arith, read_int16-le_bytes host n rest, read_int32-le_bytes host n rest)

    Reads-uint : (n : ℕ) → Reads (uint n)
    unfolding IsPortable encoding received parse_bcon parse_value parse_scalar read_int8 mapped
    Reads-uint n h with_key rest fuel f =
        ground (arith, read_int16-le_bytes host n rest, read_int32-le_bytes host n rest)

    abbrev ReadsItems : Items → Type 0
    ReadsItems items =
        ArePortable qt items
        → (rest : List ℕ) (fuel : ℕ) → 2 * length (encoding_items qt items) + 2 ≤ fuel
        → parse_items qt host fuel (encoding_items qt items ++ 0 ∷ rest)
          ≡ ok (received_items items, rest)

    abbrev ReadsFields : Fields → Type 0
    ReadsFields fields =
        (acc : Fields)
        → AllBelow acc fields
        → ArePortableFields qt fields
        → (rest : List ℕ) (fuel : ℕ) → 2 * length (encoding_fields qt fields) + 2 ≤ fuel
        → parse_fields qt host fuel acc (encoding_fields qt fields ++ 0 ∷ rest)
          ≡ ok (append_fields acc (received_fields fields), rest)

    -- The token of the end, where an element or an entry could stand.
    reads_end :
        (with_key : Bool) (rest : List ℕ) (fuel : ℕ)
        → parse_bcon qt host (suc fuel) with_key (0 ∷ rest) ≡ ok (none, rest)
    unfolding parse_bcon parse_value parse_scalar parse_key read_int8 mapped
    reads_end with_key rest fuel = refl

    parse_key-key_bytes :
        (v : Variant) (k rest : List ℕ)
        → IsPortableKey qt k
        → parse_key qt host true (some v) (k ++ 0 ∷ rest) ≡ ok (some (v, k), rest)
    unfolding parse_key mapped
    parse_key-key_bytes v k rest h = rw (read_key-append k rest h.0)

    parse_key_none :
        (v : Variant) (rest : List ℕ)
        → parse_key qt host false (some v) rest ≡ ok (some (v, []), rest)
    unfolding parse_key mapped
    parse_key_none v rest = refl

    length-encoding_pos : (v : Variant) → IsPortable qt v → 1 ≤ length (encoding qt v)
    unfolding IsPortable encoding
    length-encoding_pos invalid h = omega arith
    length-encoding_pos (int n) h = ground arith
    length-encoding_pos (uint n) h = ground arith
    length-encoding_pos (uuid id) h = absurd h
    length-encoding_pos (other t) h = absurd h
    length-encoding_pos _ h = omega arith

    parse_fields_entry :
        (k bytes more rest : List ℕ) (w : Variant) (acc : Fields) (fuel : ℕ)
        → IsPortableKey qt k
        → KeysBelow k acc
        → parse_bcon qt host fuel true (bytes ++ (k ++ 0 ∷ (more ++ 0 ∷ rest)))
          ≡ parse_key qt host true (some w) (k ++ 0 ∷ (more ++ 0 ∷ rest))
        → parse_fields qt host (suc fuel) acc (((bytes ++ (k ++ 0 ∷ [])) ++ more) ++ 0 ∷ rest)
          ≡ parse_fields qt host fuel (append_fields acc (field k w end)) (more ++ 0 ∷ rest)
    unfolding parse_bcon next_field
    parse_fields_entry k bytes more rest w acc fuel hk b e =
        simp append_assoc
          (rw (e, parse_key-key_bytes w k (more ++ 0 ∷ rest) hk, insert-append_fields k w acc b))

    mutual
      unfolding parse_bcon received encoding IsPortable parse_value parse_scalar read_int8 key_bytes
          append_fields mapped next_item next_field

      reads : (v : Variant) → Reads v
      reads invalid h with_key rest fuel f = refl
      reads (bool true) h with_key rest fuel f = refl
      reads (bool false) h with_key rest fuel f = refl
      reads (char c) h with_key rest fuel f = refl
      reads (int n) h with_key rest fuel f = Reads-int n h with_key rest fuel f
      reads (uint n) h with_key rest fuel f = Reads-uint n h with_key rest fuel f
      reads (long_long n) h with_key rest fuel f = rw (read_int64-le_bytes host n rest h)
      reads (ulong_long n) h with_key rest fuel f = rw (read_int64-le_bytes host n rest h)
      reads (double n) h with_key rest fuel f = rw (read_double-le_bytes host n rest h)
      reads (date_time n) h with_key rest fuel f = rw (read_int64-le_bytes host n rest h)
      reads (string s) h with_key rest fuel f = Reads-string s h with_key rest fuel f
      reads (byte_array bytes) h with_key rest fuel f =
          Reads-byte_array bytes h with_key rest fuel f
      reads (list elements) h with_key rest fuel f = rw (
        append_assoc,
        reads_items elements h rest fuel
            (omega (arith, length-append (encoding_items qt elements) (0 ∷ []))),
      )
      reads (map elements) h with_key rest fuel f = rw (
        append_assoc,
        reads_fields elements end (AllBelow-end elements) h rest fuel
            (omega (arith, length-append (encoding_fields qt elements) (0 ∷ []))),
      )
      reads (uuid id) h with_key rest fuel f = absurd h
      reads (other t) h with_key rest fuel f = absurd h

      reads_items : (items : Items) → ReadsItems items
      reads_items nil h rest zero f = absurd (omega arith)
      reads_items nil h rest (suc zero) f = absurd (omega arith)
      reads_items nil h rest (suc (suc fuel)) f = rw (reads_end false rest fuel)
      reads_items (cons v items) h rest zero f = absurd (omega arith)
      reads_items (cons v items) h rest (suc zero) f = absurd (omega arith)
      reads_items (cons v items) h rest (suc (suc fuel)) f =
          let sizes = length-append (encoding qt v) (encoding_items qt items) in
          let some_byte = length-encoding_pos v h.0 in
          rw
            (
              append_assoc,
              reads v h.0 false (encoding_items qt items ++ 0 ∷ rest) fuel (omega arith),
            )
            (rw (parse_key_none, reads_items items h.1 rest (suc fuel) (omega arith)))

      reads_fields : (fields : Fields) → ReadsFields fields
      reads_fields end acc b h rest zero f = absurd (omega arith)
      reads_fields end acc b h rest (suc zero) f = absurd (omega arith)
      reads_fields end acc b h rest (suc (suc fuel)) f =
          rw (reads_end true rest fuel, append_fields-end)
      reads_fields (field k v fields) acc b h rest zero f = absurd (omega arith)
      reads_fields (field k v fields) acc b h rest (suc zero) f = absurd (omega arith)
      reads_fields (field k v fields) acc b h rest (suc (suc fuel)) f =
          let sizes = length-append (encoding qt v ++ (k ++ 0 ∷ [])) (encoding_fields qt fields) in
          let sizes' = length-append (encoding qt v) (k ++ 0 ∷ []) in
          let some_byte = length-encoding_pos v h.1 in
          let tail : List ℕ = encoding_fields qt fields ++ 0 ∷ rest in
          parse_fields_entry k (encoding qt v) (encoding_fields qt fields) rest (received v) acc
            (suc fuel) h.0 b.0 (reads v h.1 true (k ++ 0 ∷ tail) fuel (omega arith))
          ∙ reads_fields fields (append_fields acc (field k (received v) end))
              (AllBelow-append_fields k (received v) acc fields b.1 h.2) h.3 rest (suc fuel)
              (omega arith)
          ∙ ap (λ t. ok (t, rest))
              (append_fields_assoc acc (field k (received v) end) (received_fields fields))

    pub parse_bcon-encoding :
        (v : Variant)
        → IsPortable qt v
        → (with_key : Bool) (rest : List ℕ) (fuel : ℕ) → 2 * length (encoding qt v) ≤ suc fuel
        → parse_bcon qt host (suc fuel) with_key (encoding qt v ++ rest)
          ≡ parse_key qt host with_key (some (received v)) rest
    parse_bcon-encoding v = reads v
