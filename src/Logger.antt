-- ===== src/Logger.antt =====
-- nodebus/core/logger.h and logger.cpp: the text of one log entry. What QTextStream makes of a number or
-- a pointer is an argument, and so is the time, as text, that each call reads from the clock.
pub mod Lines
pub mod Items
pub mod Columns
pub mod Hex
use jsonbus.Prelude.{
  ℕ, zero, suc, ◌+◌, ◌-◌, ◌/◌, ◌%◌, Bool, true, false, Option, none, some, List, [], ◌∷◌, ◌++◌,
  length, ltb, ◌==◌, if◌then◌else◌, Outcome, ok, undefined,
}

pub data Level : Type 0 where
  off critical warning info config fine finer finest all_levels : Level

-- `COLOR_RED_HL` and its like, whose colours are the digits 1 to 7.
highlight : ℕ → List ℕ
highlight d =
    27 ∷ b'[' ∷ b'1' ∷ b';' ∷ b'4' ∷ d ∷ b'm' ∷ 27 ∷ b'[' ∷ b'1' ∷ b';' ∷ b'3' ∷ b'7' ∷ b'm' ∷ []

-- `COLOR_RED` and its like.
colour : ℕ → List ℕ
colour d = 27 ∷ b'[' ∷ b'0' ∷ b'm' ∷ 27 ∷ b'[' ∷ b'1' ∷ b';' ∷ b'3' ∷ d ∷ b'm' ∷ []

-- `levelHdrs[level] + 1`, the header without its line break.
unfoldable pub mark : ℕ → ℕ → List ℕ
unfolding highlight colour
mark d c = b' ' ∷ highlight d ++ b'[' ∷ b' ' ∷ c ∷ c ∷ b' ' ∷ b']' ∷ colour d ++ b' ' ∷ []

-- `LEVEL_HDRS[0]` without the line breaks; `ALL` is past its end.
unfoldable pub level_header : Level → Option (List ℕ)
unfolding mark
level_header off = none
level_header critical = some (mark b'1' b'!')
level_header warning = some (mark b'3' b'#')
level_header info = some (mark b'2' b'i')
level_header config = some (mark b'5' b'*')
level_header fine = some (mark b'4' b'+')
level_header finer = some (mark b'6' b'=')
level_header finest = some (mark b'7' b'-')
level_header all_levels = none

-- The buffer with the stream at its end, and the header of the level, without its line break.
pub record Logger : Type 0 where
  pub buffer : List ℕ
  pub header : List ℕ

abbrev pub stream : List ℕ → Logger → Logger
stream text l = record l { buffer = l.buffer ++ text }

-- The constructor.
unfoldable pub new_logger : List ℕ → Level → Outcome Logger
unfolding level_header
new_logger now level = elim (level_header level) [
  | none ↦ undefined
  | some header ↦ ok (record { buffer = header ++ now; header = header })
]

-- The constructor by copy.
unfoldable pub copy_logger : List ℕ → Logger → Logger
copy_logger now other = stream (other.header ++ now) other

-- `str.replace('\n', after)`
unfoldable pub replace_breaks : List ℕ → List ℕ → List ℕ
replace_breaks after [] = []
replace_breaks after (c ∷ cs) =
    let rest = replace_breaks after cs in if c == b'\n' then after ++ rest else c ∷ rest

-- `append`
unfoldable pub append : List ℕ → List ℕ → Logger → Logger
unfolding replace_breaks
append now str l = stream (replace_breaks (b'\n' ∷ l.header ++ now) str) l

-- `appendln`
unfoldable pub appendln : List ℕ → Logger → Logger
appendln now l = stream (b'\n' ∷ l.header ++ now) l

-- `operator<<` of a QChar and of a char.
unfoldable pub write_char : List ℕ → ℕ → Logger → Logger
unfolding appendln
write_char now c l = if c == b'\n' then appendln now l else stream (c ∷ []) l

-- `operator<<` of a QBool and of a bool.
unfoldable pub write_bool : Bool → Logger → Logger
write_bool true l = stream (b't' ∷ b'r' ∷ b'u' ∷ b'e' ∷ []) l
write_bool false l = stream (b'f' ∷ b'a' ∷ b'l' ∷ b's' ∷ b'e' ∷ []) l

-- `operator<<` of the numbers and of `const void *`, with what the stream makes of them.
unfoldable pub write_number : List ℕ → Logger → Logger
write_number text l = stream text l

-- `operator<<` of the texts: char pointers, QString, QStringRef, QLatin1String and QVariant::toString.
unfoldable pub write_text : List ℕ → List ℕ → Logger → Logger
unfolding append
write_text now text l = append now text l

-- `operator<<` of `endl`.
unfoldable pub write_endl : List ℕ → Logger → Logger
unfolding appendln
write_endl now l = appendln now l

-- A digit of `%X`.
unfoldable pub hex_digit : ℕ → ℕ
hex_digit n = if ltb n 10 then b'0' + n else b'A' + (n - 10)

-- `snprintf(buff, 3, "%02X", byte)`
unfoldable pub hex_byte : ℕ → List ℕ
unfolding hex_digit
hex_byte b = hex_digit (b / 16) ∷ hex_digit (b % 16) ∷ []

-- The loop over the bytes behind the first one.
unfoldable pub write_more_bytes : List ℕ → List ℕ → Logger → Logger
unfolding write_text write_char hex_byte
write_more_bytes now [] l = l
write_more_bytes now (b ∷ bytes) l =
    write_more_bytes now bytes (write_text now (hex_byte b) (write_char now b' ' l))

-- `operator<<` of a QByteArray.
unfoldable pub write_bytes : List ℕ → List ℕ → Logger → Logger
unfolding write_text hex_byte write_more_bytes
write_bytes now [] l = l
write_bytes now (b ∷ bytes) l = write_more_bytes now bytes (write_text now (hex_byte b) l)

-- An entry of a map, with the time when it is written and the text of its value.
pub record Entry : Type 0 where
  pub time : List ℕ
  pub key : List ℕ
  pub value : List ℕ

-- The first loop of `operator<<` of a map.
unfoldable pub longest : ℕ → List Entry → ℕ
longest n [] = n
longest n (e ∷ es) = longest (if ltb n (length e.key) then length e.key else n) es

unfoldable pub spaces : ℕ → List ℕ
spaces zero = []
spaces (suc n) = b' ' ∷ spaces n

-- `leftJustified(width, ' ')`
unfoldable pub left_justified : ℕ → List ℕ → List ℕ
unfolding spaces
left_justified width text = text ++ spaces (width - length text)

-- One turn of the second loop.
unfoldable pub entry_line : List ℕ → ℕ → Entry → List ℕ
unfolding left_justified
entry_line header width e =
    b'\n'
    ∷ (header ++ (e.time ++ (b'\t' ∷ (left_justified width e.key ++ (b':' ∷ b' ' ∷ e.value)))))

unfoldable pub write_entries : ℕ → List Entry → Logger → Logger
unfolding entry_line
write_entries width [] l = l
write_entries width (e ∷ es) l = write_entries width es (stream (entry_line l.header width e) l)

-- `operator<<` of a QMap, whose entries come in the order of the keys.
unfoldable pub write_map : List Entry → Logger → Logger
unfolding write_entries longest
write_map es l = write_entries (longest 0 es + 1) es l

-- The end of the entry: what the destructor prints on the error stream, `COLOR_RST` being the foot.
unfoldable pub print_entry : Logger → List ℕ
print_entry l = l.buffer ++ 27 ∷ b'[' ∷ b'0' ∷ b'm' ∷ b'\n' ∷ []

-- What a log statement writes with `<<`.
pub data Item : Type 0 where
  character : List ℕ → ℕ → Item
  boolean : Bool → Item
  number : List ℕ → Item
  text : List ℕ → List ℕ → Item
  line_end : List ℕ → Item
  byte_array : List ℕ → List ℕ → Item
  map : List Entry → Item

unfoldable pub write_item : Item → Logger → Logger
unfolding write_char write_bool write_number write_text write_endl write_bytes write_map
write_item (character now c) = write_char now c
write_item (boolean b) = write_bool b
write_item (number t) = write_number t
write_item (text now t) = write_text now t
write_item (line_end now) = write_endl now
write_item (byte_array now bytes) = write_bytes now bytes
write_item (map es) = write_map es

unfoldable pub write_items : List Item → Logger → Logger
unfolding write_item
write_items [] l = l
write_items (i ∷ is) l = write_items is (write_item i l)
