-- ===== src/Tests/Json.antt =====
-- The JSON codec and the files at concrete values, with Qt's conversions of ASCII text.
use jsonbus.Prelude.{
  ℕ, ◌+◌, ◌%◌, ◌≡◌, refl, true, false, List, [], ◌∷◌, ◌++◌, ok, throw, exception, arith, ltb,
  Bool-cases, inl, inr,
}
use jsonbus.Variant.{Variant, invalid, int, list, map, nil, cons, end, field, key_lt}
use jsonbus.Bcon.Portable.{IsPortable, received}
use jsonbus.Bson.{BsonQt}
use jsonbus.Proxy.{bcon}
use jsonbus.Json.Write.{
  Texts, serialize_json, sanitize_string, new_line, indent_off, write_text, member_space,
  write_number, inner_flags, replace_inf, separator_space, last_line, escape, replace_char,
}
use jsonbus.Json.Scan.{scan_string, scan_string-sanitize_string, found, IsAscii}
use jsonbus.Json.Layout.{Encodes, nothing, ascii, wide, IsWide}
use jsonbus.Json.Closed.{IsText, NoQuotes}
use jsonbus.Json.Flags.{SameText, serialize_json-SameText}
use jsonbus.Codec.{from_file, to_file, from_file-to_file}
use jsonbus.Tests.Bcon.{ascii_qt, ascii_qt-IsAscii}

-- `a"b` and a tab
abbrev quoted : List ℕ
quoted = 97 ∷ 34 ∷ 98 ∷ 9 ∷ []

quoted-IsAscii : IsAscii quoted
unfolding IsAscii
quoted-IsAscii = (omega arith, (omega arith, (omega arith, (omega arith, tt))))

scan_string-sanitize_string_example :
    scan_string ascii_qt (ascii_qt.to_local8bit (sanitize_string quoted) ++ 44 ∷ [])
    ≡ found quoted (44 ∷ [])
scan_string-sanitize_string_example =
    scan_string-sanitize_string ascii_qt (λ c l. refl) quoted (44 ∷ []) (λ t a. refl) quoted-IsAscii

-- Numbers with one digit.
abbrev pub digits : Texts
digits = record {
  number_int = λ n. (48 + n % 10) ∷ [];
  number_uint = λ n. (48 + n % 10) ∷ [];
  number_long_long = λ n. (48 + n % 10) ∷ [];
  number_ulong_long = λ n. (48 + n % 10) ∷ [];
  number_double = λ n. (48 + n % 10) ∷ [];
  char_to_int = λ c. c;
  byte_array_to_string = λ s. s;
}

digit-NoQuotes : (n : ℕ) → NoQuotes ((48 + n % 10) ∷ [])
unfolding NoQuotes
digit-NoQuotes n = (ground arith, tt)

one-IsWide : (c : ℕ) → (ltb c 128) ≡ false → IsWide (c ∷ [])
unfolding IsWide
one-IsWide c n = (ground (arith, n), tt)

self-Encodes : (s : List ℕ) → Encodes s s
self-Encodes [] = nothing
self-Encodes (c ∷ s) = elim (Bool-cases (ltb c 128)) [
  | inl y ↦ ascii (ground (arith, y)) (self-Encodes s)
  | inr n ↦ wide c [] c [] s s (one-IsWide c n) (one-IsWide c n) (self-Encodes s)
]

ascii-IsText : IsText ascii_qt digits
ascii-IsText = record {
  encodes = self-Encodes;
  int_plain = digit-NoQuotes;
  uint_plain = digit-NoQuotes;
  long_long_plain = digit-NoQuotes;
  ulong_long_plain = digit-NoQuotes;
  double_plain = digit-NoQuotes;
}

-- {"a": [1, null]}
abbrev small : Variant
small = map (field (97 ∷ []) (list (cons (int 1) (cons invalid nil))) end)

small_compact :
    (serialize_json ascii_qt digits small 32).0
    ≡ 123 ∷ 34 ∷ 97 ∷ 34 ∷ 58 ∷ 91 ∷ 49 ∷ 44 ∷ 110 ∷ 117 ∷ 108 ∷ 108 ∷ 93 ∷ 125 ∷ []
unfolding serialize_json new_line indent_off write_text member_space write_number inner_flags
    replace_inf separator_space last_line sanitize_string escape replace_char
small_compact = refl

serialize_json-SameText_example :
    SameText (serialize_json ascii_qt digits small 32) (serialize_json ascii_qt digits small 2)
serialize_json-SameText_example = serialize_json-SameText ascii-IsText small 32 2

abbrev pub no_bqt : BsonQt
no_bqt = record { char_to_uint = λ c. c; number = λ i. i ∷ []; to_int = λ s. 0; to_uuid = λ s. s }

small-IsPortable : IsPortable ascii_qt small
unfolding IsPortable key_lt
small-IsPortable = ground arith

from_file-to_file_example :
    from_file ascii_qt no_bqt digits true
      (λ bytes. throw exception)
      (λ name. throw exception)
      0
      true
      (102 ∷ [])
      bcon
      (to_file ascii_qt no_bqt digits true true (102 ∷ []) bcon small 32 []).0
    ≡ ok (received small)
from_file-to_file_example =
    from_file-to_file ascii_qt no_bqt digits true (λ bytes. throw exception)
      (λ name. throw exception) 0 (102 ∷ []) small 32 [] ascii_qt-IsAscii small-IsPortable
