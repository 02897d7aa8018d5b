-- ===== src/Bcon/Total.antt =====
-- `Parser::parseBCON` ends on every input: a call takes at least one byte, so fuel in the size of the
-- input is enough.
use jsonbus.Prelude.{
  ℕ, zero, suc, ◌+◌, ◌-◌, ◌*◌, ◌/◌, ◌%◌, ◌^◌, ◌≤◌, ◌≡◌, ◌≢◌, refl, Bool, true, false, List, [], ◌∷◌,
  Option, none, some, ◌==◌, if◌then◌else◌, length, length-drop, drop, arith, Outcome, Exception, ok,
  throw, undefined, out_of_fuel, bind,
}
use jsonbus.DataStream.{
  pure, ◌>>=◌, mapped, Reader, read_int8, read_word, read_int16, read_int32, read_int64,
  read_double,
}
use jsonbus.Bcon.Read.{
  next_item, next_field, read_bytes, read_key, parse_blob, parse_length, parse_scalar, parse_value,
  parse_key, parse_bcon, parse_items, parse_fields,
}
use jsonbus.Variant.{cons, Variant, Items, Fields, Qt, insert, end}

-- The run ends, and if it returns it leaves at most `n` bytes.
pub data Leaves {ℓ} {A : Type ℓ} (n : ℕ) : Outcome (A × List ℕ) → Type ℓ where
  returns : (a : A) (left : List ℕ) → length left ≤ n → Leaves n (ok (a, left))
  throws : (e : Exception) → Leaves n (throw e)
  is_undefined : Leaves n undefined

module _ {ℓ} {A : Type ℓ} where
  pub Leaves-ne-out_of_fuel : {n : ℕ} {r : Outcome (A × List ℕ)} → Leaves n r → r ≢ out_of_fuel
  Leaves-ne-out_of_fuel (returns a left h) = λ e. cc
  Leaves-ne-out_of_fuel (throws x) = λ e. cc
  Leaves-ne-out_of_fuel is_undefined = λ e. cc

  pub Leaves-le : {m n : ℕ} {r : Outcome (A × List ℕ)} → m ≤ n → Leaves m r → Leaves n r
  Leaves-le h (returns a left l) = returns a left (omega arith)
  Leaves-le h (throws x) = throws x
  Leaves-le h is_undefined = is_undefined

  pub Leaves-if :
      {n : ℕ} (b : Bool) (p q : Reader A) (bs : List ℕ)
      → Leaves n (p bs)
      → Leaves n (q bs)
      → Leaves n ((if b then p else q) bs)
  Leaves-if true p q bs h k = h
  Leaves-if false p q bs h k = k

  pub Leaves-cond :
      {n : ℕ} (b : Bool) {x y : Outcome (A × List ℕ)}
      → Leaves n x
      → Leaves n y
      → Leaves n (if b then x else y)
  Leaves-cond true h k = h
  Leaves-cond false h k = k

  pub Leaves-bind {κ} :
      {B : Type κ} {m n : ℕ} {r : Outcome (A × List ℕ)} (f : A → Reader B)
      → Leaves m r
      → ((a : A) (left : List ℕ) → length left ≤ m → Leaves n (f a left))
      → Leaves n (bind r (λ (a, left). f a left))
  Leaves-bind f (returns a left h) k = k a left h
  Leaves-bind f (throws e) k = throws e
  Leaves-bind f is_undefined k = is_undefined

-- On inputs of at most `n` bytes the reader ends, and it never gives back more than it was given.
pub record Ends {ℓ} {A : Type ℓ} (n : ℕ) (p : Reader A) : Type ℓ where
  pub at : (bs : List ℕ) → length bs ≤ n → Leaves (length bs) (p bs)

module _ {ℓ} {A : Type ℓ} {n : ℕ} where
  pub Ends-pure : {a : A} → Ends n (pure a)
  Ends-pure {a} = record { at = λ bs h. returns a bs (omega arith) }

  pub Ends-throw : {e : Exception} → Ends {A = A} n (λ bs. throw e)
  Ends-throw {e} = record { at = λ bs h. throws e }

  pub Ends-if : (b : Bool) {p q : Reader A} → Ends n p → Ends n q → Ends n (if b then p else q)
  Ends-if true h k = h
  Ends-if false h k = k

  pub Ends-mapped {κ} : {B : Type κ} (f : A → B) {p : Reader A} → Ends n p → Ends n (mapped f p)
  unfolding mapped
  Ends-mapped f h = record {
    at = λ bs l.
        Leaves-bind (λ a left. ok (f a, left)) (h.at bs l) (λ a left m. returns (f a) left m);
  }

  pub Ends-bind {κ} :
      {B : Type κ} {p : Reader A} (f : A → Reader B)
      → Ends n p
      → ((a : A) → Ends n (f a))
      → Ends n (p >>= f)
  Ends-bind f h k = record {
    at = λ bs l. Leaves-bind f (h.at bs l) (λ a left m. Leaves-le m ((k a).at left (omega arith)));
  }

pub read_int8_takes : (bs : List ℕ) → Leaves (length bs - 1) (read_int8 bs)
unfolding read_int8
read_int8_takes [] = is_undefined
read_int8_takes (b ∷ bs) = returns b bs (omega arith)

pub read_int8-Ends : (n : ℕ) → Ends n read_int8
read_int8-Ends n = record { at = λ bs h. Leaves-le (omega arith) (read_int8_takes bs) }

read_word-Leaves :
    (noswap : Bool) (w : ℕ) (bs : List ℕ) → Leaves (length bs) (read_word noswap w bs)
unfolding read_word
read_word-Leaves true w bs = returns _ (drop w bs) (omega (arith, length-drop w bs))
read_word-Leaves false w bs =
    Leaves-cond _ is_undefined (returns _ (drop w bs) (omega (arith, length-drop w bs)))

read_word-Ends : (noswap : Bool) (w n : ℕ) → Ends n (read_word noswap w)
read_word-Ends noswap w n = record { at = λ bs h. read_word-Leaves noswap w bs }

pub read_int16-Ends : (host : Bool) (n : ℕ) → Ends n (read_int16 host)
unfolding read_int16
read_int16-Ends host = read_word-Ends host 2

pub read_int32-Ends : (host : Bool) (n : ℕ) → Ends n (read_int32 host)
unfolding read_int32
read_int32-Ends host = read_word-Ends host 4

pub read_int64-Ends : (host : Bool) (n : ℕ) → Ends n (read_int64 host)
unfolding read_int64
read_int64-Ends host = read_word-Ends host 8

pub read_double-Ends : (host : Bool) (n : ℕ) → Ends n (read_double host)
unfolding read_double
read_double-Ends host = read_word-Ends host 8

pub read_bytes-Ends : (len n : ℕ) → Ends n (read_bytes len)
unfolding read_bytes
read_bytes-Ends zero n = Ends-pure
read_bytes-Ends (suc len) n =
    Ends-bind (λ b. read_bytes len >>= (λ bytes. pure (b ∷ bytes))) (read_int8-Ends n)
      λ b. Ends-bind (λ bytes. pure (b ∷ bytes)) (read_bytes-Ends len n) λ bytes. Ends-pure

read_key-Leaves : (qt : Qt) (bs : List ℕ) → Leaves (length bs) (read_key qt bs)
unfolding read_key
read_key-Leaves qt [] = is_undefined
read_key-Leaves qt (c ∷ rest) = Leaves-cond (c == 0) (returns [] rest (omega arith)) (
    Leaves-le (omega arith) (
      Leaves-bind (λ key left. ok (qt.from_char c ∷ key, left)) (read_key-Leaves qt rest)
        λ key left m. returns (qt.from_char c ∷ key) left m))

read_key-Ends : (qt : Qt) (n : ℕ) → Ends n (read_key qt)
read_key-Ends qt n = record { at = λ bs h. read_key-Leaves qt bs }

parse_blob-Ends : (qt : Qt) (c len n : ℕ) → Ends n (parse_blob qt c len)
unfolding parse_blob
parse_blob-Ends qt c len n = Ends-mapped _ (read_bytes-Ends len n)

parse_length-Ends : (c n : ℕ) → Ends n (parse_length c)
unfolding parse_length read_int8 mapped
parse_length-Ends c n =
    let b = read_int8-Ends n in
    Ends-if (c / 16 % 4 == 1) (Ends-mapped _ b) (
      Ends-if (c / 16 % 4 == 2)
        (Ends-bind (λ b1. mapped (λ b2. c % 16 + (b1 * 2 ^ 4 + b2 * 2 ^ 12)) read_int8) b
          λ b1. Ends-mapped _ b)
        (Ends-if (c / 16 % 4 == 3)
          (Ends-bind
            (λ b1. read_int8 >>= λ b2.
              mapped (λ b3. c % 16 + (b1 * 2 ^ 4 + b2 * 2 ^ 12 + b3 * 2 ^ 20)) read_int8)
            b
            λ b1.
              Ends-bind
                (λ b2. mapped (λ b3. c % 16 + (b1 * 2 ^ 4 + b2 * 2 ^ 12 + b3 * 2 ^ 20)) read_int8) b
                λ b2. Ends-mapped _ b)
          Ends-throw))

ruleset ends = (
  Ends-pure, Ends-throw, Ends-if, Ends-mapped, read_int8-Ends, read_int16-Ends, read_int32-Ends,
  read_int64-Ends, read_double-Ends,
)

module _ (qt : Qt) (host : Bool) where
  parse_scalar-Ends :
      (c n : ℕ) {items : Reader Items} {fields : Reader Fields}
      → Ends n items
      → Ends n fields
      → Ends n (parse_scalar qt host c items fields)
  unfolding parse_scalar
  parse_scalar-Ends c n hi hf = search ends depth 40

  parse_value-Ends :
      (c n : ℕ) {items : Reader Items} {fields : Reader Fields}
      → Ends n items
      → Ends n fields
      → Ends n (parse_value qt host c items fields)
  unfolding parse_value
  parse_value-Ends c n hi hf = Ends-if _ (Ends-mapped _ (parse_blob-Ends qt c (c % 64) n)) (
      Ends-if _
        (Ends-bind (λ len. mapped some (parse_blob qt c len)) (parse_length-Ends c n)
          λ len. Ends-mapped _ (parse_blob-Ends qt c len n))
        (parse_scalar-Ends c n hi hf))

  parse_key-Ends :
      (with_key : Bool) (v : Option Variant) (n : ℕ) → Ends n (parse_key qt host with_key v)
  unfolding parse_key
  parse_key-Ends with_key none n = Ends-pure
  parse_key-Ends true (some v) n = Ends-mapped _ (read_key-Ends qt n)
  parse_key-Ends false (some v) n = Ends-pure

  next_item-Leaves :
      (n : ℕ) (items : Reader Items) (r : Option (Variant × List ℕ)) (left : List ℕ)
      → length left ≤ n
      → Leaves n (items left)
      → Leaves n (next_item qt host items r left)
  unfolding next_item mapped
  next_item-Leaves n items none left h k = returns _ left h
  next_item-Leaves n items (some (v, _)) left h k =
      Leaves-bind (λ xs rest. ok (cons v xs, rest)) k λ xs rest m. returns _ rest m

  next_field-Leaves :
      (n : ℕ) (fields : Fields → Reader Fields) (acc : Fields) (r : Option (Variant × List ℕ))
      (left : List ℕ)
      → length left ≤ n
      → ((acc' : Fields) → Leaves n (fields acc' left))
      → Leaves n (next_field qt host fields acc r left)
  unfolding next_field
  next_field-Leaves n fields acc none left h k = returns _ left h
  next_field-Leaves n fields acc (some (v, key)) left h k = k (insert key v acc)

  parse_bcon_step :
      (fuel : ℕ) (with_key : Bool) (bs : List ℕ)
      → ((left : List ℕ)
          → 2 * length left + 2 ≤ fuel
          → Leaves (length left) (parse_items qt host fuel left))
      → ((left : List ℕ)
          → 2 * length left + 2 ≤ fuel
          → Leaves (length left) (parse_fields qt host fuel end left))
      → 2 * length bs + 1 ≤ suc fuel
      → Leaves (length bs - 1) (parse_bcon qt host (suc fuel) with_key bs)
  unfolding parse_bcon read_int8
  parse_bcon_step fuel with_key [] items fields h = is_undefined
  parse_bcon_step fuel with_key (c ∷ bs) items fields h =
      let items' : Ends (length bs) (parse_items qt host fuel) = record {
        at = λ left l. items left (omega arith);
      } in
      let fields' : Ends (length bs) (parse_fields qt host fuel end) = record {
        at = λ left l. fields left (omega arith);
      } in
      let value = (parse_value-Ends c (length bs) items' fields').at bs (omega arith) in
      Leaves-le (omega arith) (
        Leaves-bind (λ v more. parse_key qt host with_key v more) value
          λ v left l. Leaves-le l ((parse_key-Ends with_key v (length left)).at left (omega arith)))

  parse_items_step :
      (fuel : ℕ) (bs : List ℕ)
      → Leaves (length bs - 1) (parse_bcon qt host fuel false bs)
      → ((left : List ℕ)
          → 2 * length left + 2 ≤ fuel
          → Leaves (length left) (parse_items qt host fuel left))
      → ¬ (length bs ≡ 0)
      → 2 * length bs + 2 ≤ suc fuel
      → Leaves (length bs) (parse_items qt host (suc fuel) bs)
  unfolding parse_bcon
  parse_items_step fuel bs one more pos h =
      Leaves-bind (λ r left. next_item qt host (parse_items qt host fuel) r left) one
        λ r left l.
          next_item-Leaves (length bs) (parse_items qt host fuel) r left (omega arith)
            (Leaves-le (omega arith) (more left (omega arith)))

  parse_fields_step :
      (fuel : ℕ) (acc : Fields) (bs : List ℕ)
      → Leaves (length bs - 1) (parse_bcon qt host fuel true bs)
      → ((acc' : Fields) (left : List ℕ)
          → 2 * length left + 2 ≤ fuel
          → Leaves (length left) (parse_fields qt host fuel acc' left))
      → ¬ (length bs ≡ 0)
      → 2 * length bs + 2 ≤ suc fuel
      → Leaves (length bs) (parse_fields qt host (suc fuel) acc bs)
  unfolding parse_bcon
  parse_fields_step fuel acc bs one more pos h =
      Leaves-bind (λ r left. next_field qt host (parse_fields qt host fuel) acc r left) one
        λ r left l.
          next_field-Leaves (length bs) (parse_fields qt host fuel) acc r left (omega arith)
            λ acc'. Leaves-le (omega arith) (more acc' left (omega arith))

  -- On an empty input the first byte is missing.
  parse_bcon_empty :
      (fuel : ℕ) (with_key : Bool) → parse_bcon qt host (suc fuel) with_key [] ≡ undefined
  unfolding parse_bcon read_int8
  parse_bcon_empty fuel with_key = refl

  parse_items_empty : (fuel : ℕ) → Leaves 0 (parse_items qt host (suc (suc fuel)) [])
  unfolding parse_bcon read_int8
  parse_items_empty fuel = is_undefined

  parse_fields_empty :
      (fuel : ℕ) (acc : Fields) → Leaves 0 (parse_fields qt host (suc (suc fuel)) acc [])
  unfolding parse_bcon read_int8
  parse_fields_empty fuel acc = is_undefined

  -- A call takes a byte at least, so what it leaves is shorter than what it got.
  mutual
    pub parse_bcon-Leaves :
        (fuel : ℕ) (with_key : Bool) (bs : List ℕ)
        → 2 * length bs + 1 ≤ fuel
        → Leaves (length bs - 1) (parse_bcon qt host fuel with_key bs)
    parse_bcon-Leaves zero with_key bs h = absurd (omega arith)
    parse_bcon-Leaves (suc fuel) with_key bs h =
        parse_bcon_step fuel with_key bs (parse_items-Leaves fuel) (parse_fields-Leaves fuel end) h

    parse_items-Leaves :
        (fuel : ℕ) (bs : List ℕ)
        → 2 * length bs + 2 ≤ fuel
        → Leaves (length bs) (parse_items qt host fuel bs)
    parse_items-Leaves zero bs h = absurd (omega arith)
    parse_items-Leaves (suc zero) bs h = absurd (omega arith)
    parse_items-Leaves (suc (suc fuel)) [] h = parse_items_empty fuel
    parse_items-Leaves (suc (suc fuel)) (b ∷ bs) h =
        parse_items_step (suc fuel) (b ∷ bs)
          (parse_bcon-Leaves (suc fuel) false (b ∷ bs) (omega arith))
          (parse_items-Leaves (suc fuel)) (omega arith) h

    parse_fields-Leaves :
        (fuel : ℕ) (acc : Fields) (bs : List ℕ)
        → 2 * length bs + 2 ≤ fuel
        → Leaves (length bs) (parse_fields qt host fuel acc bs)
    parse_fields-Leaves zero acc bs h = absurd (omega arith)
    parse_fields-Leaves (suc zero) acc bs h = absurd (omega arith)
    parse_fields-Leaves (suc (suc fuel)) acc [] h = parse_fields_empty fuel acc
    parse_fields-Leaves (suc (suc fuel)) acc (b ∷ bs) h =
        parse_fields_step (suc fuel) acc (b ∷ bs)
          (parse_bcon-Leaves (suc fuel) true (b ∷ bs) (omega arith))
          (parse_fields-Leaves (suc fuel)) (omega arith) h
