-- ===== src/Json/Write.antt =====
-- `Serializer::serializeJSON`, `sanitizeString` and `Serializer::INDENT` (nodebus/core/serializer.*).
-- What is written is a list of bytes with the exception that ended the writing, if any. The flags are 32
-- bits: the indentation step in the lowest 5, FORMAT_COMPACT in the next one, and the indentation so far
-- in the upper 16. Characters are their numbers.
use jsonbus.Prelude.{
  ℕ, zero, suc, ◌+◌, ◌-◌, ◌*◌, ◌/◌, ◌%◌, ◌^◌, Bool, List, [], ◌∷◌, ◌++◌, some, take, ◌==◌,
  if◌then◌else◌, serializer_exception,
}
use jsonbus.Dict.{text_same}
use jsonbus.Variant.{
  Variant, Items, Fields, Qt, invalid, bool, char, int, uint, long_long, ulong_long, double,
  date_time, string, byte_array, uuid, list, map, other, nil, cons, end, field,
}
use jsonbus.Bcon.Write.{Emit, emit, ◌&>◌}

-- `QString::number` on the integers and on doubles, `QVariant(QChar).toInt()` and
-- `QVariant(QByteArray).toString()`.
pub record Texts : Type 0 where
  pub number_int : ℕ → List ℕ
  pub number_uint : ℕ → List ℕ
  pub number_long_long : ℕ → List ℕ
  pub number_ulong_long : ℕ → List ℕ
  pub number_double : ℕ → List ℕ
  pub char_to_int : ℕ → ℕ
  pub byte_array_to_string : List ℕ → List ℕ

-- `str.replace(c, text)` for a character.
unfoldable pub replace_char : ℕ → List ℕ → List ℕ → List ℕ
replace_char c text [] = []
replace_char c text (b ∷ str) = (if b == c then text else b ∷ []) ++ replace_char c text str

-- The replacements of `sanitizeString`, in their order.
unfoldable pub escape : List ℕ → List ℕ
unfolding replace_char
escape str =
    let str1 = replace_char 92 (92 ∷ 92 ∷ []) str in
    let str2 = replace_char 34 (92 ∷ 34 ∷ []) str1 in
    let str3 = replace_char 8 (92 ∷ 98 ∷ []) str2 in
    let str4 = replace_char 12 (92 ∷ 102 ∷ []) str3 in
    let str5 = replace_char 10 (92 ∷ 110 ∷ []) str4 in
    let str6 = replace_char 13 (92 ∷ 114 ∷ []) str5 in replace_char 9 (92 ∷ 116 ∷ []) str6

-- `sanitizeString`
unfoldable pub sanitize_string : List ℕ → List ℕ
unfolding escape
sanitize_string str = 34 ∷ escape str ++ 34 ∷ []

abbrev inf : List ℕ
inf = 105 ∷ 110 ∷ 102 ∷ []

abbrev infinity : List ℕ
infinity = 105 ∷ 110 ∷ 102 ∷ 105 ∷ 110 ∷ 105 ∷ 116 ∷ 121 ∷ []

-- `str.replace("inf", "infinity")`, behind `skip` characters that were replaced already.
unfoldable pub replace_inf : ℕ → List ℕ → List ℕ
replace_inf skip [] = []
replace_inf (suc skip) (b ∷ str) = replace_inf skip str
replace_inf zero (b ∷ str) =
    let found = text_same (take 3 (b ∷ str)) inf in
    (if found then infinity else b ∷ []) ++ replace_inf (if found then 2 else 0) str

unfoldable pub spaces : ℕ → List ℕ
spaces zero = []
spaces (suc n) = 32 ∷ spaces n

-- `INDENT` and the tests and shifts of the flags
unfoldable pub indent : ℕ → ℕ
indent flags = flags % 2 ^ 8 % 32

unfoldable pub is_compact : ℕ → Bool
is_compact flags = flags / 32 % 2 == 1

unfoldable pub indent_off : ℕ → ℕ
unfolding indent
indent_off flags = (flags / 2 ^ 16 + indent flags) % 2 ^ 32

unfoldable pub inner_flags : ℕ → ℕ
unfolding indent_off
inner_flags flags = flags % 2 ^ 16 + indent_off flags % 2 ^ 16 * 2 ^ 16

-- A new line of an object or array, the space behind a member's colon, what separates elements, and the
-- line of the closing bracket.
unfoldable pub new_line : ℕ → List ℕ
unfolding spaces
new_line off = if off == 0 then [] else 10 ∷ spaces off

unfoldable pub member_space : ℕ → List ℕ
unfolding is_compact
member_space flags = if is_compact flags then [] else 32 ∷ []

unfoldable pub separator_space : ℕ → List ℕ
unfolding new_line member_space indent_off
separator_space flags =
    if indent_off flags == 0 then member_space flags else new_line (indent_off flags)

unfoldable pub last_line : ℕ → List ℕ
unfolding spaces indent_off
last_line flags =
    if indent_off flags == 0 then [] else 10 ∷ spaces (indent_off flags - indent flags)

module _ (qt : Qt) (texts : Texts) where
  -- `operator<<(const QString &)` on a number and on a string
  unfoldable pub write_number : List ℕ → Emit
  unfolding replace_inf
  write_number text = emit (qt.to_local8bit (replace_inf 0 text))

  unfoldable pub write_text : List ℕ → Emit
  unfolding sanitize_string
  write_text str = emit (qt.to_local8bit (sanitize_string str))

  unfoldable mutual
    pub serialize_json : Variant → ℕ → Emit
    serialize_json invalid flags = emit (110 ∷ 117 ∷ 108 ∷ 108 ∷ [])
    serialize_json (bool b) flags =
        emit (if b then 116 ∷ 114 ∷ 117 ∷ 101 ∷ [] else 102 ∷ 97 ∷ 108 ∷ 115 ∷ 101 ∷ [])
    serialize_json (map end) flags = emit (123 ∷ []) &> emit (125 ∷ [])
    serialize_json (map (field k v fields)) flags =
        emit (123 ∷ [])
        &> emit (new_line (indent_off flags))
        &> write_text k
        &> emit (58 ∷ [])
        &> emit (member_space flags)
        &> serialize_json v (inner_flags flags)
        &> serialize_json_fields fields flags
        &> emit (last_line flags)
        &> emit (125 ∷ [])
    serialize_json (list nil) flags = emit (91 ∷ []) &> emit (93 ∷ [])
    serialize_json (list (cons v items)) flags =
        emit (91 ∷ [])
        &> emit (new_line (indent_off flags))
        &> serialize_json v (inner_flags flags)
        &> serialize_json_items items flags
        &> emit (last_line flags)
        &> emit (93 ∷ [])
    serialize_json (string s) flags = write_text s
    serialize_json (byte_array bytes) flags = write_text (texts.byte_array_to_string bytes)
    serialize_json (char c) flags = write_number (texts.number_int (texts.char_to_int c))
    serialize_json (int n) flags = write_number (texts.number_int n)
    serialize_json (uint n) flags = write_number (texts.number_uint n)
    serialize_json (long_long n) flags = write_number (texts.number_long_long n)
    serialize_json (ulong_long n) flags = write_number (texts.number_ulong_long n)
    serialize_json (double f) flags = write_number (texts.number_double f)
    serialize_json (date_time ms) flags = ([], some serializer_exception)
    serialize_json (uuid _) flags = ([], some serializer_exception)
    serialize_json (other _) flags = ([], some serializer_exception)

    -- The elements behind the first one; the flags are those of the whole list or map.
    pub serialize_json_items : Items → ℕ → Emit
    serialize_json_items nil flags = emit []
    serialize_json_items (cons v items) flags =
        emit (44 ∷ [])
        &> emit (separator_space flags)
        &> serialize_json v (inner_flags flags)
        &> serialize_json_items items flags

    pub serialize_json_fields : Fields → ℕ → Emit
    serialize_json_fields end flags = emit []
    serialize_json_fields (field k v fields) flags =
        emit (44 ∷ [])
        &> emit (separator_space flags)
        &> write_text k
        &> emit (58 ∷ [])
        &> emit (member_space flags)
        &> serialize_json v (inner_flags flags)
        &> serialize_json_fields fields flags
