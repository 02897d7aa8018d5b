-- ===== src/Idl/Assign.antt =====
-- `Driver::setOpResult` and `type2str` (nodebus/core/idlparser/driver.cpp): assigning a constant to a
-- variable. `QVariant::convert` is an argument: the converted value, if there is one.
use jsonbus.Prelude.{ℕ, ◌==◌, Bool, true, List, [], ◌∷◌, Option, none, some, if◌then◌else◌}
use jsonbus.Variant.{Variant}
use jsonbus.Idl.{NodeRoot, IdlError, append_error, void_variable, variable_type, not_convertible}

-- The types that a result may be converted to.
pub data OpType : Type 0 where
  to_invalid to_bool to_char to_uint to_int to_ulong_long to_long_long to_double : OpType
  to_string to_bit_array to_date_time : OpType

-- `type2str`
unfoldable pub type_to_str : OpType → List ℕ
type_to_str to_invalid =
    97 ∷ 110 ∷ 32 ∷ 105 ∷ 110 ∷ 118 ∷ 97 ∷ 108 ∷ 105 ∷ 100 ∷ 47 ∷ 117 ∷ 110 ∷ 115 ∷ 112 ∷ 101 ∷ 99
    ∷ 105 ∷ 102 ∷ 105 ∷ 101 ∷ 100 ∷ 32 ∷ 116 ∷ 121 ∷ 112 ∷ 101 ∷ []
type_to_str to_bool = 97 ∷ 32 ∷ 98 ∷ 111 ∷ 111 ∷ 108 ∷ 101 ∷ 97 ∷ 110 ∷ []
type_to_str to_char = 97 ∷ 110 ∷ 32 ∷ 111 ∷ 99 ∷ 116 ∷ 101 ∷ 116 ∷ 47 ∷ 98 ∷ 121 ∷ 116 ∷ 101 ∷ []
type_to_str to_uint =
    97 ∷ 110 ∷ 32 ∷ 117 ∷ 115 ∷ 105 ∷ 103 ∷ 110 ∷ 101 ∷ 100 ∷ 32 ∷ 51 ∷ 50 ∷ 32 ∷ 98 ∷ 105 ∷ 116
    ∷ 115 ∷ 32 ∷ 105 ∷ 110 ∷ 116 ∷ 101 ∷ 103 ∷ 101 ∷ 114 ∷ []
type_to_str to_int =
    97 ∷ 32 ∷ 115 ∷ 105 ∷ 103 ∷ 110 ∷ 101 ∷ 100 ∷ 32 ∷ 51 ∷ 50 ∷ 32 ∷ 98 ∷ 105 ∷ 116 ∷ 115 ∷ 32
    ∷ 105 ∷ 110 ∷ 116 ∷ 101 ∷ 103 ∷ 101 ∷ 114 ∷ []
type_to_str to_ulong_long =
    97 ∷ 110 ∷ 32 ∷ 117 ∷ 115 ∷ 105 ∷ 103 ∷ 110 ∷ 101 ∷ 100 ∷ 32 ∷ 54 ∷ 52 ∷ 32 ∷ 98 ∷ 105 ∷ 116
    ∷ 115 ∷ 32 ∷ 105 ∷ 110 ∷ 116 ∷ 101 ∷ 103 ∷ 101 ∷ 114 ∷ []
type_to_str to_long_long =
    97 ∷ 32 ∷ 115 ∷ 105 ∷ 103 ∷ 110 ∷ 101 ∷ 100 ∷ 32 ∷ 54 ∷ 52 ∷ 32 ∷ 98 ∷ 105 ∷ 116 ∷ 115 ∷ 32
    ∷ 105 ∷ 110 ∷ 116 ∷ 101 ∷ 103 ∷ 101 ∷ 114 ∷ []
type_to_str to_double =
    97 ∷ 32 ∷ 100 ∷ 111 ∷ 117 ∷ 98 ∷ 108 ∷ 101 ∷ 32 ∷ 112 ∷ 114 ∷ 101 ∷ 115 ∷ 105 ∷ 115 ∷ 105 ∷ 111
    ∷ 110 ∷ 32 ∷ 102 ∷ 108 ∷ 111 ∷ 97 ∷ 116 ∷ []
type_to_str to_string = 97 ∷ 32 ∷ 115 ∷ 116 ∷ 114 ∷ 105 ∷ 110 ∷ 103 ∷ []
type_to_str to_bit_array =
    97 ∷ 110 ∷ 32 ∷ 111 ∷ 99 ∷ 116 ∷ 101 ∷ 116 ∷ 47 ∷ 98 ∷ 121 ∷ 116 ∷ 101 ∷ 32 ∷ 97 ∷ 114 ∷ 114
    ∷ 97 ∷ 121 ∷ []
type_to_str to_date_time = 97 ∷ 32 ∷ 100 ∷ 97 ∷ 116 ∷ 101 ∷ 47 ∷ 116 ∷ 105 ∷ 109 ∷ 101 ∷ []

-- The switch over the first character of the variable's type; "v", which is void, has its own error.
unfoldable pub op_data_type : ℕ → Option OpType
op_data_type c =
    if c == 97
    then some to_invalid
    else if c == 98
    then some to_bool
    else if c == 111
    then some to_char
    else if c == 73
    then some to_uint
    else if c == 105
    then some to_int
    else if c == 76
    then some to_ulong_long
    else if c == 108
    then some to_long_long
    else if c == 100
    then some to_double
    else if c == 99
    then some to_string
    else if c == 79
    then some to_bit_array
    else if c == 116
    then some to_date_time
    else none

-- A variable: the first character of its type, and its value.
pub record Var : Type 0 where
  pub data_type : ℕ
  pub value : Option Variant

-- What a call leaves: the variable, the state and what it returns.
abbrev pub Assigned : Type 0
Assigned = Var × NodeRoot × Bool

unfoldable pub refuse : IdlError → Var → NodeRoot → Assigned
unfolding append_error
refuse e var root = let (after, few) = append_error e root in (var, after, few)

unfoldable pub convert_result :
    (OpType → Variant → Option Variant) → OpType → Variant → Var → NodeRoot → Assigned
unfolding refuse type_to_str
convert_result convert type res var root = elim (convert type res) [
  | none ↦ refuse (not_convertible (type_to_str type)) var root
  | some v ↦ (record var { value = some v }, root, true)
]

-- `setOpResult`
unfoldable pub set_op_result :
    (OpType → Variant → Option Variant) → Variant → Var → NodeRoot → Assigned
unfolding refuse op_data_type convert_result
set_op_result convert res var root =
    if var.data_type == 118
    then refuse void_variable var root
    else elim (op_data_type var.data_type) [
      | none ↦ refuse variable_type var root
      | some type ↦ convert_result convert type res var root
    ]
