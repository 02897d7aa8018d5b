-- ===== src/Bcon/Read.antt =====
-- `Parser::parseBCON` (nodebus/core/parser.cpp).
-- The answer of `parseBCON` is `none` where it returns false, and the value with the key where it
-- returns true; a call without a key pointer gives the empty key. A call costs a unit of fuel.
use jsonbus.Prelude.{
  ℕ, zero, suc, ◌+◌, ◌-◌, ◌*◌, ◌/◌, ◌%◌, ◌^◌, Bool, true, false, List, [], ◌∷◌, Option, none, some,
  ltb, ◌==◌, if◌then◌else◌, ok, throw, undefined, out_of_fuel, bind, parser_exception,
}
use jsonbus.DataStream.{
  Reader, mapped, ◌>>=◌, pure, read_int8, read_int16, read_int32, read_int64, read_double,
}
use jsonbus.Bcon.Token
use jsonbus.Variant.{
  Variant, Items, Fields, Qt, invalid, bool, int, uint, long_long, ulong_long, double, date_time,
  string, byte_array, list, map, nil, cons, end, insert,
}

-- `for (int i = 0; i < len; i++) buf[i] = read<quint8>();`
unfoldable pub read_bytes : ℕ → Reader (List ℕ)
read_bytes zero = pure []
read_bytes (suc len) = do b ← read_int8; bytes ← read_bytes len; pure (b ∷ bytes)

-- `while ((c = read<quint8>()) != '\0') key->append(c);`
unfoldable pub read_key : Qt → Reader (List ℕ)
read_key qt [] = undefined
read_key qt (c ∷ rest) =
    let more = bind (read_key qt rest) (λ (key, left). ok (qt.from_char c ∷ key, left)) in
    if c == 0 then ok ([], rest) else more

-- The bytes of a string or of a byte array, by bit 0x40 of its token.
unfoldable pub parse_blob : Qt → ℕ → ℕ → Reader Variant
parse_blob qt c len =
    mapped (λ buf. if c / 64 % 2 == 0 then byte_array buf else string (qt.from_utf8 buf))
      (read_bytes len)

-- The length of the long forms. The operands of `|` hold no bit in common; they are read from left
-- to right.
unfoldable pub parse_length : ℕ → Reader ℕ
parse_length c =
    if c / 16 % 4 == 1
    then (do b1 ← read_int8; pure (c % 16 + b1 * 2 ^ 4))
    else if c / 16 % 4 == 2
    then (do b1 ← read_int8; b2 ← read_int8; pure (c % 16 + (b1 * 2 ^ 4 + b2 * 2 ^ 12)))
    else if c / 16 % 4 == 3
    then (do
      b1 ← read_int8
      b2 ← read_int8
      mapped (λ b3. c % 16 + (b1 * 2 ^ 4 + b2 * 2 ^ 12 + b3 * 2 ^ 20)) read_int8)
    else (λ bs. throw parser_exception)

module _ (qt : Qt) (host : Bool) where
  -- The switch over the small tokens. QVariant has no type for 8 and 16 bits: the value that is read
  -- is promoted to int.
  unfoldable pub parse_scalar : ℕ → Reader Items → Reader Fields → Reader (Option Variant)
  parse_scalar c items fields =
      if c == Token.end
      then pure none
      else if c == Token.null
      then pure (some invalid)
      else if c == Token.true
      then pure (some (bool true))
      else if c == Token.false
      then pure (some (bool false))
      else if c == Token.byte
      then mapped (λ n. some (int n)) read_int8
      else if c == Token.int16
      then mapped (λ n. some (int (if ltb n (2 ^ 15) then n else n + (2 ^ 32 - 2 ^ 16))))
          (read_int16 host)
      else if c == Token.uint16
      then mapped (λ n. some (int n)) (read_int16 host)
      else if c == Token.int32
      then mapped (λ n. some (int n)) (read_int32 host)
      else if c == Token.uint32
      then mapped (λ n. some (uint n)) (read_int32 host)
      else if c == Token.int64
      then mapped (λ n. some (long_long n)) (read_int64 host)
      else if c == Token.uint64
      then mapped (λ n. some (ulong_long n)) (read_int64 host)
      else if c == Token.double
      then mapped (λ f. some (double f)) (read_double host)
      else if c == Token.datetime
      then mapped (λ ms. some (date_time ms)) (read_int64 host)
      else if c == Token.list
      then mapped (λ l. some (list l)) items
      else if c == Token.map
      then mapped (λ m. some (map m)) fields
      else (λ bs. throw parser_exception)

  unfoldable pub parse_value : ℕ → Reader Items → Reader Fields → Reader (Option Variant)
  parse_value c items fields =
      if ltb 0 (c / 128 % 2)
      then mapped some (parse_blob qt c (c % 64))
      else if ltb 0 (c / 16 % 16)
      then (parse_length c >>= (λ len. mapped some (parse_blob qt c len)))
      else parse_scalar c items fields

  -- The end of `parseBCON`: the key follows the value.
  unfoldable pub parse_key : Bool → Option Variant → Reader (Option (Variant × List ℕ))
  parse_key with_key none = pure none
  parse_key true (some v) = mapped (λ key. some (v, key)) (read_key qt)
  parse_key false (some v) = pure (some (v, []))

  -- The body of `while (true)` behind the call: `break`, or `list.append(value)` and on.
  unfoldable pub next_item : Reader Items → Option (Variant × List ℕ) → Reader Items
  next_item more none = pure nil
  next_item more (some (v, _)) = mapped (λ items. cons v items) more

  -- `break`, or `map[key] = value` and on.
  unfoldable pub next_field :
      (Fields → Reader Fields) → Fields → Option (Variant × List ℕ) → Reader Fields
  next_field more acc none = pure acc
  next_field more acc (some (v, key)) = more (insert key v acc)

  unfoldable mutual
    pub parse_bcon : ℕ → Bool → Reader (Option (Variant × List ℕ))
    parse_bcon zero with_key bs = out_of_fuel
    parse_bcon (suc fuel) with_key bs = bind (read_int8 bs) λ (c, left).
        bind (parse_value c (parse_items fuel) (parse_fields fuel end) left)
          λ (v, more). parse_key with_key v more

    pub parse_items : ℕ → Reader Items
    parse_items zero bs = out_of_fuel
    parse_items (suc fuel) bs =
        bind (parse_bcon fuel false bs) λ (r, left). next_item (parse_items fuel) r left

    pub parse_fields : ℕ → Fields → Reader Fields
    parse_fields zero acc bs = out_of_fuel
    parse_fields (suc fuel) acc bs =
        bind (parse_bcon fuel true bs) λ (r, left). next_field (parse_fields fuel) acc r left
