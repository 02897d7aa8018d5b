-- ===== src/Variant.antt =====
-- QVariant values as nodebus/core uses them, and the Qt text functions that the codecs call.
-- A QString is the list of its UTF-16 units, a QByteArray the list of its bytes, an integer its bit
-- pattern of 32 or 64 bits, a double its bit pattern of 64. Date and Time, which the codecs treat as
-- DateTime, are taken as converted: a `date_time` holds `toMSecsSinceEpoch`. `other` stands for the
-- types that no switch of the codecs names.
pub mod Order
use jsonbus.Prelude.{ℕ, ◌+◌, Bool, List, [], ◌∷◌, ◌++◌, ltb, ◌==◌, if◌then◌else◌}

mutual
  pub data Variant : Type 0 where
    invalid : Variant
    bool : Bool → Variant
    char int uint long_long ulong_long double date_time : ℕ → Variant
    string byte_array uuid : List ℕ → Variant
    list : Items → Variant
    map : Fields → Variant
    other : ℕ → Variant

  -- A QVariantList.
  pub data Items : Type 0 where
    nil : Items
    cons : Variant → Items → Items

  -- A QVariantMap, in the order in which it is walked: by key.
  pub data Fields : Type 0 where
    end : Fields
    field : List ℕ → Variant → Fields → Fields

-- Qt's conversions, which are not part of the repository.
pub record Qt : Type 0 where
  -- `QString::toLocal8Bit` and `QString::fromUtf8`
  pub to_local8bit : List ℕ → List ℕ
  pub from_utf8 : List ℕ → List ℕ
  -- `QChar(char)` and `QChar::toAscii`
  pub from_char : ℕ → ℕ
  pub to_ascii : ℕ → ℕ
  -- `QVariant(int).toChar()`
  pub int_to_char : ℕ → ℕ

-- The order of QString keys: by UTF-16 unit, a prefix first.
unfoldable pub key_lt : List ℕ → List ℕ → Bool
key_lt [] [] = Bool.false
key_lt [] (b ∷ bs) = Bool.true
key_lt (a ∷ as') [] = Bool.false
key_lt (a ∷ as') (b ∷ bs) =
    if ltb a b then Bool.true else if a == b then key_lt as' bs else Bool.false

-- `map[key] = value`: the value of the key if it is there, a new entry at its place if not.
unfoldable pub insert : List ℕ → Variant → Fields → Fields
unfolding key_lt
insert k v end = field k v end
insert k v (field j w fs) =
    if key_lt k j
    then field k v (field j w fs)
    else if key_lt j k
    then field j w (insert k v fs)
    else field k v fs
