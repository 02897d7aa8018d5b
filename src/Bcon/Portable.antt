-- ===== src/Bcon/Portable.antt =====
-- The values that BCON carries from `Serializer::serializeBCON` to `Parser::parseBCON`, what they
-- become on the way, and their bytes in the plain words of nodebus/BCON.md.
use jsonbus.Prelude.{
  ℕ, ◌+◌, ◌^◌, ◌≤◌, ◌<◌, ◌≡◌, ◌⊎◌, List, [], ◌∷◌, ◌++◌, Option, none, some, ltb, if◌then◌else◌,
  length, All,
}
use jsonbus.DataStream.{le_bytes}
use jsonbus.Variant.{
  Variant, Items, Fields, Qt, invalid, bool, char, int, uint, long_long, ulong_long, double,
  date_time, string, byte_array, uuid, list, map, other, nil, cons, end, field,
}
use jsonbus.Variant.Order.{KeysAbove}

-- What the codec relies on of Qt: below 128 a character, its code and its byte are one number.
pub record IsAscii (qt : Qt) : Type 0 where
  pub from_char_ascii : (c : ℕ) → c < 128 → qt.from_char c ≡ c
  pub to_ascii_ascii : (c : ℕ) → c < 128 → qt.to_ascii c ≡ c
  pub int_to_char_ascii : (c : ℕ) → c < 128 → qt.int_to_char c ≡ c

module _ (qt : Qt) where
  -- A key of ASCII characters but the zero, which the locale's encoding keeps.
  abbrev pub IsPortableKey : List ℕ → Type 0
  IsPortableKey k = All (λ u. (1 ≤ u) × (u < 128)) k × (qt.to_local8bit k ≡ k)

  unfoldable mutual
    pub IsPortable : Variant → Type 0
    IsPortable invalid = Unit
    IsPortable (bool b) = Unit
    IsPortable (char c) = c < 128
    IsPortable (int n) = (n < 2 ^ 31) ⊎ ((2 ^ 31 + 2 ^ 15 ≤ n) × (n < 2 ^ 32))
    IsPortable (uint n) = n < 2 ^ 32
    IsPortable (long_long n) = n < 2 ^ 64
    IsPortable (ulong_long n) = n < 2 ^ 64
    IsPortable (double f) = f < 2 ^ 64
    IsPortable (date_time ms) = ms < 2 ^ 64
    IsPortable (string s) =
        (length (qt.to_local8bit s) < 64) × (qt.from_utf8 (qt.to_local8bit s) ≡ s)
    IsPortable (byte_array bytes) = (32 ≤ length bytes) × (length bytes < 64)
    IsPortable (list elements) = ArePortable elements
    IsPortable (map elements) = ArePortableFields elements
    IsPortable (uuid _) = ⊥
    IsPortable (other _) = ⊥

    pub ArePortable : Items → Type 0
    ArePortable nil = Unit
    ArePortable (cons v items) = IsPortable v × ArePortable items

    -- The keys ascend, as in every QMap.
    pub ArePortableFields : Fields → Type 0
    ArePortableFields end = Unit
    ArePortableFields (field k v fields) =
        IsPortableKey k × IsPortable v × KeysAbove k fields × ArePortableFields fields

-- The value as it comes back: a character and an unsigned number below 2 ^ 16 become ints.
unfoldable mutual
  pub received : Variant → Variant
  received invalid = invalid
  received (bool b) = bool b
  received (char c) = int c
  received (int n) = int n
  received (uint n) = if ltb n (2 ^ 16) then int n else uint n
  received (long_long n) = long_long n
  received (ulong_long n) = ulong_long n
  received (double f) = double f
  received (date_time ms) = date_time ms
  received (string s) = string s
  received (byte_array bytes) = byte_array bytes
  received (list elements) = list (received_items elements)
  received (map elements) = map (received_fields elements)
  received (uuid id) = uuid id
  received (other t) = other t

  pub received_items : Items → Items
  received_items nil = nil
  received_items (cons v items) = cons (received v) (received_items items)

  pub received_fields : Fields → Fields
  received_fields end = end
  received_fields (field k v fields) = field k (received v) (received_fields fields)

-- The key behind a value, in the grammar's words: its bytes and a zero.
unfoldable pub key_bytes : Option (List ℕ) → List ℕ
key_bytes none = []
key_bytes (some key) = key ++ 0 ∷ []

module _ (qt : Qt) where
  unfoldable mutual
    pub encoding : Variant → List ℕ
    encoding invalid = 1 ∷ []
    encoding (bool b) = (if b then 2 else 3) ∷ []
    encoding (char c) = 4 ∷ c ∷ []
    encoding (int n) =
        if ltb n (2 ^ 7)
        then 4 ∷ n ∷ []
        else if ltb n (2 ^ 15)
        then 5 ∷ le_bytes 2 n
        else 7 ∷ le_bytes 4 n
    encoding (uint n) = if ltb n (2 ^ 16) then 6 ∷ le_bytes 2 n else 8 ∷ le_bytes 4 n
    encoding (long_long n) = 9 ∷ le_bytes 8 n
    encoding (ulong_long n) = 10 ∷ le_bytes 8 n
    encoding (double f) = 11 ∷ le_bytes 8 f
    encoding (date_time ms) = 12 ∷ le_bytes 8 ms
    encoding (string s) = let bytes = qt.to_local8bit s in (192 + length bytes) ∷ bytes
    encoding (byte_array bytes) = (128 + length bytes) ∷ bytes
    encoding (list elements) = 14 ∷ encoding_items elements ++ 0 ∷ []
    encoding (map elements) = 15 ∷ encoding_fields elements ++ 0 ∷ []
    encoding (uuid _) = []
    encoding (other _) = []

    pub encoding_items : Items → List ℕ
    encoding_items nil = []
    encoding_items (cons v items) = encoding v ++ encoding_items items

    pub encoding_fields : Fields → List ℕ
    encoding_fields end = []
    encoding_fields (field k v fields) =
        (encoding v ++ key_bytes (some k)) ++ encoding_fields fields
