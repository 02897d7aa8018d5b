-- ===== src/Bcon/Top.antt =====
-- `Parser::parse` with the format BCON (nodebus/core/parser.cpp): the call of `parseBCON` without a
-- key, its answer ignored. The fuel is enough for every input.
use jsonbus.Prelude.{
  ℕ, zero, suc, ◌+◌, ◌-◌, ◌*◌, ◌≤◌, ◌≡◌, Bool, false, List, [], ◌++◌, append-nil, Option, none,
  some, length, length-append, arith, Outcome, ok, bind,
}
use jsonbus.DataStream.{Reader}
use jsonbus.Variant.{Variant, Qt, invalid}
use jsonbus.Bcon.Write.{serialize_bcon, write_key}
use jsonbus.Bcon.Read.{parse_bcon, parse_key}
use jsonbus.Bcon.Portable.{IsAscii, IsPortable, received, encoding}
use jsonbus.Bcon.Encode.{serialize_bcon-encoding}
use jsonbus.Bcon.RoundTrip.{parse_bcon-encoding}
use jsonbus.Bcon.Total.{Leaves, Leaves-bind, parse_bcon-Leaves}

-- `QVariant res; parseBCON(res, NULL); return res;`
unfoldable pub value_or_invalid : Option (Variant × List ℕ) → Variant
value_or_invalid none = invalid
value_or_invalid (some (v, _)) = v

unfoldable pub parse : Qt → Bool → Reader Variant
unfolding value_or_invalid
parse qt host bs =
    bind (parse_bcon qt host (2 * length bs + 1) false bs)
      λ (r, left). ok (value_or_invalid r, left)

-- `parse` where `parseBCON` answers the same with every fuel.
pub parse_of :
    (qt : Qt) (host : Bool) (bs : List ℕ) (r : Outcome (Option (Variant × List ℕ) × List ℕ))
    → ((fuel : ℕ) → parse_bcon qt host (suc fuel) false bs ≡ r)
    → parse qt host bs ≡ bind r λ (v, left). ok (value_or_invalid v, left)
unfolding parse
parse_of qt host bs r h =
    let e : 2 * length bs + 1 ≡ suc (2 * length bs) = omega arith in rw (e, h (2 * length bs))

module _ (qt : Qt) (host : Bool) (ascii : IsAscii qt) where
  reads_root :
      (v : Variant) (rest : List ℕ) (fuel : ℕ)
      → IsPortable qt v
      → 2 * length (encoding qt v) ≤ fuel
      → 1 ≤ fuel
      → parse_bcon qt host fuel false (encoding qt v ++ rest) ≡ ok (some (received v, []), rest)
  unfolding parse_key
  reads_root v rest zero h f pos = absurd (omega arith)
  reads_root v rest (suc fuel) h f pos = parse_bcon-encoding qt ascii host v h false rest fuel f

-- What a `Serializer` wrote for the format BCON on one host a `Parser` reads on another, whatever
-- follows it, for every portable value: it gets the value back, with characters and unsigned numbers
-- below 2 ^ 16 as ints, and leaves what follows.
pub parse-serialize_bcon :
    (qt : Qt) (writer reader : Bool) (v : Variant) (rest : List ℕ)
    → IsAscii qt
    → IsPortable qt v
    → parse qt reader ((serialize_bcon qt writer v none).0 ++ rest) ≡ ok (received v, rest)
unfolding parse parse_key write_key
parse-serialize_bcon qt writer reader v rest ascii h =
    let sizes = length-append (encoding qt v) rest in
    rw (serialize_bcon-encoding qt writer ascii v h none, append-nil)
      (rw (
        reads_root qt reader ascii v rest (2 * length (encoding qt v ++ rest) + 1) h (omega arith)
          (omega arith)))

-- On no input does parseBCON run out of fuel: it returns having consumed input, it throws, or it
-- reads past the end of the input, which is undefined and is not followed any further.
pub parse-Leaves : (qt : Qt) (host : Bool) (bs : List ℕ) → Leaves (length bs - 1) (parse qt host bs)
unfolding parse
parse-Leaves qt host bs =
    Leaves-bind (λ r left. ok (value_or_invalid r, left))
      (parse_bcon-Leaves qt host (2 * length bs + 1) false bs (omega arith))
      λ r left l. Leaves.returns (value_or_invalid r) left l
