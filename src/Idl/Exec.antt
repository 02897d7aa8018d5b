-- ===== src/Idl/Exec.antt =====
-- `Driver::opexec` (nodebus/core/idlparser/driver.cpp): the operators of constant expressions.
-- QVariant's conversions and the arithmetic of doubles are an argument. A 64-bit integer is its bit
-- pattern.
use jsonbus.Prelude.{
  ℕ, ◌+◌, ◌-◌, ◌*◌, ◌/◌, ◌%◌, ◌^◌, Bool, true, false, not, ◌&&◌, ◌||◌, List, [], ◌∷◌, ◌++◌, Option,
  none, some, if◌then◌else◌, leb, ◌==◌, length, drop, Outcome, ok, undefined, bind,
}
use jsonbus.Variant.{Variant, string, double, long_long}
use jsonbus.Idl.{NodeRoot, append_error, invalid_operand, operator_text}

pub record Arithmetic : Type 0 where
  pub can_convert_double : Variant → Bool
  pub can_convert_int : Variant → Bool
  pub to_string : Variant → List ℕ
  pub to_long_long : Variant → ℕ
  pub to_double : Variant → ℕ
  pub add_double : ℕ → ℕ → ℕ
  pub sub_double : ℕ → ℕ → ℕ
  pub mul_double : ℕ → ℕ → ℕ
  pub div_double : ℕ → ℕ → ℕ

abbrev pub is_string : Variant → Bool
is_string (string s) = true
is_string _ = false

abbrev pub is_double : Variant → Bool
is_double (double f) = true
is_double _ = false

-- The codes of the operators.
abbrev pub plus : ℕ
plus = 43

abbrev pub minus : ℕ
minus = 45

abbrev pub times : ℕ
times = 42

abbrev pub divide : ℕ
divide = 47

abbrev pub modulo : ℕ
modulo = 37

abbrev is_negative : ℕ → Bool
is_negative n = leb (2 ^ 63) n

abbrev magnitude : ℕ → ℕ
magnitude n = if is_negative n then 2 ^ 64 - n else n

abbrev negated : Bool → ℕ → ℕ
negated b n = if b then (2 ^ 64 - n) % 2 ^ 64 else n

-- `/` on qlonglong cuts towards 0; it is undefined for a divisor of 0 and where the quotient does not
-- fit.
unfoldable pub quotient : ℕ → ℕ → Outcome ℕ
quotient a b =
    if b == 0
    then undefined
    else if (a == 2 ^ 63) && (b == 2 ^ 64 - 1)
    then undefined
    else if is_negative a
    then ok (negated (not (is_negative b)) (magnitude a / magnitude b))
    else ok (negated (is_negative b) (magnitude a / magnitude b))

-- `%`, whose sign is that of the dividend.
unfoldable pub remainder : ℕ → ℕ → Outcome ℕ
remainder a b =
    if b == 0
    then undefined
    else if (a == 2 ^ 63) && (b == 2 ^ 64 - 1)
    then undefined
    else ok (negated (is_negative a) (magnitude a % magnitude b))

-- "Error: invalid operator fot string value: " and "Error: invalid operator ".
unfoldable pub string_operator_error : List ℕ
string_operator_error =
    69 ∷ 114 ∷ 114 ∷ 111 ∷ 114 ∷ 58 ∷ 32 ∷ 105 ∷ 110 ∷ 118 ∷ 97 ∷ 108 ∷ 105 ∷ 100 ∷ 32 ∷ 111 ∷ 112
    ∷ 101 ∷ 114 ∷ 97 ∷ 116 ∷ 111 ∷ 114 ∷ 32 ∷ 102 ∷ 111 ∷ 116 ∷ 32 ∷ 115 ∷ 116 ∷ 114 ∷ 105 ∷ 110
    ∷ 103 ∷ 32 ∷ 118 ∷ 97 ∷ 108 ∷ 117 ∷ 101 ∷ 58 ∷ 32 ∷ []

unfoldable pub operator_error : List ℕ
operator_error =
    69 ∷ 114 ∷ 114 ∷ 111 ∷ 114 ∷ 58 ∷ 32 ∷ 105 ∷ 110 ∷ 118 ∷ 97 ∷ 108 ∷ 105 ∷ 100 ∷ 32 ∷ 111 ∷ 112
    ∷ 101 ∷ 114 ∷ 97 ∷ 116 ∷ 111 ∷ 114 ∷ 32 ∷ []

-- The sum of a C string and a char is the string from that place on, if it lies within.
unfoldable pub text_at : List ℕ → ℕ → Outcome (List ℕ)
text_at text n = if leb n (length text) then ok (drop n text) else undefined

-- What a run gives: the state, and the result where it returns true.
abbrev pub Answer : Type 0
Answer = Outcome (NodeRoot × Option Variant)

unfoldable pub bad_operator : List ℕ → ℕ → NodeRoot → Answer
unfolding text_at append_error
bad_operator text op root =
    bind (text_at text op) λ message. ok ((append_error (operator_text message) root).0, none)

unfoldable pub string_op : Arithmetic → ℕ → Variant → Variant → NodeRoot → Answer
unfolding bad_operator string_operator_error operator_error
string_op ar op a b root =
    if op == plus
    then ok (root, some (string (ar.to_string a ++ ar.to_string b)))
    else if (op == minus) || (op == times) || (op == divide) || (op == modulo)
    then bad_operator string_operator_error op root
    else bad_operator operator_error op root

abbrev pub with_result : NodeRoot → (ℕ → Variant) → Outcome ℕ → Answer
with_result root f r = bind r λ n. ok (root, some (f n))

unfoldable pub double_op : Arithmetic → ℕ → Variant → Variant → NodeRoot → Answer
unfolding bad_operator operator_error remainder
double_op ar op a b root =
    if op == plus
    then ok (root, some (double (ar.add_double (ar.to_double a) (ar.to_double b))))
    else if op == minus
    then ok (root, some (double (ar.sub_double (ar.to_double a) (ar.to_double b))))
    else if op == times
    then ok (root, some (double (ar.mul_double (ar.to_double a) (ar.to_double b))))
    else if op == divide
    then ok (root, some (double (ar.div_double (ar.to_double a) (ar.to_double b))))
    else if op == modulo
    then with_result root long_long (remainder (ar.to_long_long a) (ar.to_long_long b))
    else bad_operator operator_error op root

-- A sum, a difference or a product that does not fit wraps around, as the machine's does.
unfoldable pub integer_op : Arithmetic → ℕ → Variant → Variant → NodeRoot → Answer
unfolding bad_operator operator_error remainder quotient
integer_op ar op a b root =
    let x = ar.to_long_long a in
    let y = ar.to_long_long b in
    if op == plus
    then ok (root, some (long_long ((x + y) % 2 ^ 64)))
    else if op == minus
    then ok (root, some (long_long ((x + 2 ^ 64 - y) % 2 ^ 64)))
    else if op == times
    then ok (root, some (long_long ((x * y) % 2 ^ 64)))
    else if op == divide
    then with_result root long_long (quotient x y)
    else if op == modulo
    then with_result root long_long (remainder x y)
    else bad_operator operator_error op root

abbrev pub is_number : Arithmetic → Variant → Bool
is_number ar a = ar.can_convert_double a || ar.can_convert_int a

-- The second test looks at the type of the first operand, too.
unfoldable pub opexec : Arithmetic → ℕ → Variant → Variant → NodeRoot → Answer
unfolding append_error string_op double_op integer_op
opexec ar op a b root =
    if not (is_number ar a) && not (is_string a)
    then ok ((append_error (invalid_operand a) root).0, none)
    else if not (is_number ar b) && not (is_string a)
    then ok ((append_error (invalid_operand b) root).0, none)
    else if is_string a || is_string b
    then string_op ar op a b root
    else if is_double a || is_double b
    then double_op ar op a b root
    else integer_op ar op a b root
