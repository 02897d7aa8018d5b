-- ===== src/Bson/Read.antt =====
-- `Parser::parseBSONDocument` and `parseBSONElt` (nodebus/core/parser.cpp).
-- The answer of `parse_bson_elt` is `none` where it returns false. A call costs a unit of fuel.
use jsonbus.Prelude.{
  ℕ, ℕ, ℕ, ℕ, ℕ, ℕ, ℕ, zero, suc, ◌+◌, ◌-◌, ◌%◌, ◌^◌, Bool, List, Option, none, some, ◌==◌,
  if◌then◌else◌, throw, out_of_fuel, bind, parser_exception,
}
use jsonbus.DataStream.{Reader, mapped, ◌>>=◌, pure, read_int8, read_int32, read_int64, read_double}
use jsonbus.Bson.Token
use jsonbus.Bson.{BsonQt}
use jsonbus.Bcon.Read.{read_bytes, read_key}
use jsonbus.Variant.{
  Variant, Items, Fields, Qt, invalid, bool, int, long_long, double, date_time, string, byte_array,
  uuid, list, map, nil, cons, end, insert,
}

-- `QList::insert`: an index behind the end appends.
unfoldable pub insert_at : ℕ → Variant → Items → Items
insert_at zero v items = cons v items
insert_at (suc i) v nil = cons v nil
insert_at (suc i) v (cons w items) = cons w (insert_at i v items)

-- `read<quint32>()-1` wraps around.
unfoldable pub parse_bson_string : Qt → Bool → Reader Variant
parse_bson_string qt host = do
  len ← read_int32 host
  buf ← read_bytes ((len + (2 ^ 32 - 1)) % 2 ^ 32)
  zero_byte ← read_int8
  pure (string (qt.from_utf8 buf))

unfoldable pub parse_bson_data : BsonQt → Bool → Reader Variant
parse_bson_data bqt host = do
  type ← read_int8
  len ← read_int32 host
  mapped
      (λ buf.
        if type == Token.olduuid
        then uuid (bqt.to_uuid buf)
        else if type == Token.uuid
        then uuid (bqt.to_uuid buf)
        else byte_array buf)
      (read_bytes len)

-- The switch over the token.
unfoldable pub parse_bson_value :
    Qt → BsonQt → Bool → ℕ → Reader Items → Reader Fields → Reader Variant
parse_bson_value qt bqt host t items fields =
    if t == Token.undef
    then pure invalid
    else if t == Token.null
    then pure invalid
    else if t == Token.bool
    then mapped (λ n. bool (n == Token.true)) read_int8
    else if t == Token.int32
    then mapped int (read_int32 host)
    else if t == Token.int64
    then mapped long_long (read_int64 host)
    else if t == Token.double
    then mapped double (read_double host)
    else if t == Token.datetime
    then mapped date_time (read_int64 host)
    else if t == Token.string
    then parse_bson_string qt host
    else if t == Token.jscode
    then parse_bson_string qt host
    else if t == Token.oid
    then mapped byte_array (read_bytes 12)
    else if t == Token.binary
    then parse_bson_data bqt host
    else if t == Token.map
    then (read_int32 host >>= (λ len. mapped map fields))
    else if t == Token.list
    then (read_int32 host >>= (λ len. mapped list items))
    else (λ bs. throw parser_exception)

-- `break`, or what the loop does with the element.
unfoldable pub next_bson_field :
    (Fields → Reader Fields) → Fields → Option (Variant × List ℕ) → Reader Fields
next_bson_field more acc none = pure acc
next_bson_field more acc (some (v, key)) = more (insert key v acc)

unfoldable pub next_bson_item :
    BsonQt → (Items → Reader Items) → Items → Option (Variant × List ℕ) → Reader Items
unfolding insert_at
next_bson_item bqt more acc none = pure acc
next_bson_item bqt more acc (some (v, key)) = more (insert_at (bqt.to_int key) v acc)

-- The token is read; behind it come the key and the value, unless it is the end.
unfoldable pub parse_bson_named :
    Qt → BsonQt → Bool → ℕ → Reader Items → Reader Fields → Reader (Option (Variant × List ℕ))
unfolding parse_bson_value
parse_bson_named qt bqt host t items fields =
    if t == Token.end
    then pure none
    else (read_key qt >>= λ key.
        mapped (λ v. some (v, key)) (parse_bson_value qt bqt host t items fields))

module _ (qt : Qt) (bqt : BsonQt) (host : Bool) where
  unfoldable mutual
    pub parse_bson_elt : ℕ → Reader (Option (Variant × List ℕ))
    parse_bson_elt zero bs = out_of_fuel
    parse_bson_elt (suc fuel) bs = bind (read_int8 bs) λ (t, left).
        parse_bson_named qt bqt host t (parse_bson_items fuel nil) (parse_bson_fields fuel end) left

    pub parse_bson_items : ℕ → Items → Reader Items
    parse_bson_items zero acc bs = out_of_fuel
    parse_bson_items (suc fuel) acc bs =
        bind (parse_bson_elt fuel bs)
          λ (r, left). next_bson_item bqt (parse_bson_items fuel) acc r left

    pub parse_bson_fields : ℕ → Fields → Reader Fields
    parse_bson_fields zero acc bs = out_of_fuel
    parse_bson_fields (suc fuel) acc bs =
        bind (parse_bson_elt fuel bs)
          λ (r, left). next_bson_field (parse_bson_fields fuel) acc r left

  -- `parseBSONDocument` gives a map, for a list too.
  unfoldable pub parse_bson_document : ℕ → Reader Variant
  parse_bson_document fuel = read_int32 host >>= λ len. mapped map (parse_bson_fields fuel end)
