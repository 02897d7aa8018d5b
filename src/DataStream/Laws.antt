-- ===== src/DataStream/Laws.antt =====
-- What the integer operators of nodebus/core/datastream.cpp put on the wire and take from it.
use jsonbus.Prelude.{
  ◌≤◌, [], if◌then◌else◌, undefined, ℕ, zero, suc, ◌/◌, ◌%◌, ◌^◌, ◌<◌, ◌≡◌, refl, ap, Bool, true,
  false, List, ◌∷◌, ◌++◌, reverse-reverse, length, take, drop, ok, arith,
}
use jsonbus.DataStream.{
  read_float, write_float, le_bytes, le_value, memory, value_in_memory, read_word, write_word,
}

pub length-le_bytes : (w v : ℕ) → length (le_bytes w v) ≡ w
unfolding le_bytes
length-le_bytes zero v = refl
length-le_bytes (suc w) v = ap suc (length-le_bytes w (v / 256))

pub le_value-le_bytes : (w v : ℕ) → v < 256 ^ w → le_value (le_bytes w v) ≡ v
unfolding le_bytes le_value
le_value-le_bytes zero v h = omega arith
le_value-le_bytes (suc w) v h = omega (arith, le_value-le_bytes w (v / 256) (omega arith))

-- The bytes on the wire are the same for every host: low byte first.
pub write_word-le_bytes : (noswap : Bool) (w i : ℕ) → write_word noswap w i ≡ le_bytes w i
unfolding write_word memory
write_word-le_bytes true w i = refl
write_word-le_bytes false w i = reverse-reverse (le_bytes w i)

take-le_bytes : (w v : ℕ) (rest : List ℕ) → take w (le_bytes w v ++ rest) ≡ le_bytes w v
unfolding le_bytes
take-le_bytes zero v rest = refl
take-le_bytes (suc w) v rest = ap (λ t. (v % 256) ∷ t) (take-le_bytes w (v / 256) rest)

drop-le_bytes : (w v : ℕ) (rest : List ℕ) → drop w (le_bytes w v ++ rest) ≡ rest
unfolding le_bytes
drop-le_bytes zero v rest = refl
drop-le_bytes (suc w) v rest = drop-le_bytes w (v / 256) rest

pub read_word-le_bytes :
    (noswap : Bool) (w v : ℕ) (rest : List ℕ)
    → v < 256 ^ w
    → read_word noswap w (le_bytes w v ++ rest) ≡ ok (v, rest)
unfolding read_word value_in_memory
read_word-le_bytes true w v rest h = rw (take-le_bytes, drop-le_bytes, le_value-le_bytes w v h)
read_word-le_bytes false w v rest h = ground (
  arith,
  take-le_bytes w v rest,
  drop-le_bytes w v rest,
  le_value-le_bytes w v h,
  length-le_bytes w v,
  reverse-reverse (le_bytes w v),
)

take_short : (w : ℕ) (bs : List ℕ) → length bs ≤ w → take w bs ≡ bs
take_short zero [] h = refl
take_short zero (b ∷ bs) h = absurd (omega arith)
take_short (suc w) [] h = refl
take_short (suc w) (b ∷ bs) h = ap (λ t. b ∷ t) (take_short w bs (omega arith))

drop_short : (w : ℕ) (bs : List ℕ) → length bs ≤ w → drop w bs ≡ []
drop_short zero [] h = refl
drop_short zero (b ∷ bs) h = absurd (omega arith)
drop_short (suc w) [] h = refl
drop_short (suc w) (b ∷ bs) h = drop_short w bs (omega arith)

-- An integer of w bytes that a host of one byte order writes is read by a host of any byte order,
-- whatever follows it on the device.
pub read-write_word :
    (writer reader : Bool) (w i : ℕ) (rest : List ℕ)
    → i < 256 ^ w
    → read_word reader w (write_word writer w i ++ rest) ≡ ok (i, rest)
read-write_word writer reader w i rest h =
    rw (write_word-le_bytes writer w i) (read_word-le_bytes reader w i rest h)

-- Fewer bytes than the integer has: a host that keeps the low byte first reads the missing ones as
-- zero at the high end and leaves nothing, any other uses uninitialised bytes.
pub read_word_short :
    (little : Bool) (w : ℕ) (bs : List ℕ)
    → length bs < w
    → read_word little w bs ≡ (if little then ok (le_value bs, []) else undefined)
unfolding read_word value_in_memory
read_word_short true w bs h = rw (take_short w bs (omega arith), drop_short w bs (omega arith))
read_word_short false w bs h = ground (arith, take_short w bs (omega arith))

-- A float that one host writes another reads, whatever follows it.
pub read_float-write_float :
    (writer reader : Bool) (f : ℕ) (rest : List ℕ)
    → f < 256 ^ 4
    → read_float reader (write_float writer f ++ rest) ≡ ok (f, rest)
unfolding read_float write_float
read_float-write_float writer reader f rest h = read-write_word writer reader 4 f rest h
