-- ===== src/DataStream.antt =====
-- nodebus/core/datastream.h and datastream.cpp: integers on a device, byte by byte.
-- A device that is read is the list of the bytes it still holds; `QIODevice::read` gives as many of
-- the bytes that are asked for as are left. What is written is the list of the bytes written.
-- An integer of w bytes is its bit pattern, a number below 256 ^ w. `little` says whether the host
-- keeps the low byte first, which is what the constructor stores in `m_noswap`.
pub mod Laws
use jsonbus.Prelude.{
  ℕ, zero, suc, ◌+◌, ◌*◌, ◌/◌, ◌%◌, Bool, List, [], ◌∷◌, reverse, ltb, if◌then◌else◌, length, take,
  drop, Outcome, ok, undefined, bind,
}

-- The w bytes of a number, low byte first, and the number that such bytes stand for.
unfoldable pub le_bytes : ℕ → ℕ → List ℕ
le_bytes zero v = []
le_bytes (suc w) v = (v % 256) ∷ le_bytes w (v / 256)

unfoldable pub le_value : List ℕ → ℕ
le_value [] = 0
le_value (b ∷ bs) = b + 256 * le_value bs

-- How the host keeps an integer in memory.
unfoldable pub memory : Bool → ℕ → ℕ → List ℕ
memory little w v = if little then le_bytes w v else reverse (le_bytes w v)

unfoldable pub value_in_memory : Bool → List ℕ → ℕ
value_in_memory little bytes = if little then le_value bytes else le_value (reverse bytes)

abbrev pub Reader {ℓ} : Type ℓ → Type ℓ
Reader A = List ℕ → Outcome (A × List ℕ)

module _ {ℓ κ} {A : Type ℓ} {B : Type κ} where
  infixl 1 ◌>>=◌ ◌>>◌
  abbrev pub ◌>>=◌ : Reader A → (A → Reader B) → Reader B
  p >>= f = λ bs. bind (p bs) λ (a, rest). f a rest

  abbrev pub ◌>>◌ : Reader A → Reader B → Reader B
  p >> q = p >>= λ _. q

abbrev pub pure {ℓ} : {A : Type ℓ} → A → Reader A
pure a bs = ok (a, bs)

-- A value made of what is read.
unfoldable pub mapped {ℓ κ} : {A : Type ℓ} {B : Type κ} → (A → B) → Reader A → Reader B
mapped f p = p >>= λ a. pure (f a)

-- `operator>>(qint8 &)`: at the end of the device the variable `c` stays uninitialised.
unfoldable pub read_int8 : Reader ℕ
read_int8 [] = undefined
read_int8 (b ∷ bs) = ok (b, bs)

-- `operator>>` of the wider integers. Without a swap the bytes go over an `i` that is 0, so a byte
-- that is missing reads as 0 at the high end; with one, the missing bytes of `b` are uninitialised.
unfoldable pub read_word : Bool → ℕ → Reader ℕ
unfolding value_in_memory
read_word noswap w bs =
    let b = take w bs in
    if noswap
    then ok (value_in_memory noswap b, drop w bs)
    else if ltb (length b) w
    then undefined
    else ok (value_in_memory noswap (reverse b), drop w bs)

unfoldable pub read_int16 : Bool → Reader ℕ
unfolding read_word
read_int16 noswap = read_word noswap 2

unfoldable pub read_int32 : Bool → Reader ℕ
unfolding read_word
read_int32 noswap = read_word noswap 4

unfoldable pub read_int64 : Bool → Reader ℕ
unfolding read_word
read_int64 noswap = read_word noswap 8

-- `operator>>(double &)`, for the usual format: the bit pattern of the double.
unfoldable pub read_double : Bool → Reader ℕ
unfolding read_word
read_double noswap = read_word noswap 8

-- `operator>>(float &)`
unfoldable pub read_float : Bool → Reader ℕ
unfolding read_word
read_float noswap = read_word noswap 4

unfoldable pub write_int8 : ℕ → List ℕ
write_int8 i = (i % 256) ∷ []

unfoldable pub write_word : Bool → ℕ → ℕ → List ℕ
unfolding memory
write_word noswap w i = if noswap then memory noswap w i else reverse (memory noswap w i)

unfoldable pub write_int16 : Bool → ℕ → List ℕ
unfolding write_word
write_int16 noswap i = write_word noswap 2 i

unfoldable pub write_int32 : Bool → ℕ → List ℕ
unfolding write_word
write_int32 noswap i = write_word noswap 4 i

unfoldable pub write_int64 : Bool → ℕ → List ℕ
unfolding write_word
write_int64 noswap i = write_word noswap 8 i

unfoldable pub write_double : Bool → ℕ → List ℕ
unfolding write_word
write_double noswap f = write_word noswap 8 f

unfoldable pub write_float : Bool → ℕ → List ℕ
unfolding write_word
write_float noswap f = write_word noswap 4 f
