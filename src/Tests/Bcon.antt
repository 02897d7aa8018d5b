-- ===== src/Tests/Bcon.antt =====
-- The BCON codec at concrete values, with Qt's conversions of ASCII text.
use jsonbus.Prelude.{ℕ, ◌≡◌, refl, true, false, List, [], ◌∷◌, ◌++◌, none, some, ok, arith}
use jsonbus.DataStream.{le_bytes}
use jsonbus.Variant.{
  key_lt, Variant, Qt, invalid, char, uint, string, list, map, nil, cons, end, field,
}
use jsonbus.Bcon.Portable.{IsAscii, IsPortable, received, encoding}
use jsonbus.Bcon.Write.{emit, serialize_bcon, write_key}
use jsonbus.Bcon.Encode.{serialize_bcon-encoding}
use jsonbus.Bcon.Top.{parse, parse-serialize_bcon, parse-Leaves}
use jsonbus.Bcon.Total.{Leaves}

abbrev pub ascii_qt : Qt
ascii_qt = record {
  to_local8bit = λ s. s;
  from_utf8 = λ s. s;
  from_char = λ c. c;
  to_ascii = λ c. c;
  int_to_char = λ c. c;
}

abbrev pub ascii_qt-IsAscii : IsAscii ascii_qt
ascii_qt-IsAscii = record {
  from_char_ascii = λ c h. refl;
  to_ascii_ascii = λ c h. refl;
  int_to_char_ascii = λ c h. refl;
}

-- {"id": 300u, "l": [null, 'A', "hi"]}
abbrev sample : Variant
sample = map (
    field (b'i' ∷ b'd' ∷ []) (uint 300) (
      field (b'l' ∷ [])
        (list (cons invalid (cons (char 65) (cons (string (b'h' ∷ b'i' ∷ [])) nil)))) end))

sample-IsPortable : IsPortable ascii_qt sample
unfolding IsPortable key_lt
sample-IsPortable = ground arith

parse-serialize_bcon_example :
    parse ascii_qt true ((serialize_bcon ascii_qt false sample none).0 ++ 7 ∷ [])
    ≡ ok (received sample, 7 ∷ [])
parse-serialize_bcon_example =
    parse-serialize_bcon ascii_qt false true sample (7 ∷ []) ascii_qt-IsAscii sample-IsPortable

serialize_bcon-encoding_example :
    serialize_bcon ascii_qt false sample (some (b'k' ∷ []))
    ≡ emit (encoding ascii_qt sample ++ write_key ascii_qt (some (b'k' ∷ [])))
serialize_bcon-encoding_example =
    serialize_bcon-encoding ascii_qt false ascii_qt-IsAscii sample sample-IsPortable
      (some (b'k' ∷ []))

parse-Leaves_example : Leaves 3 (parse ascii_qt true (14 ∷ 14 ∷ 1 ∷ 0 ∷ []))
parse-Leaves_example = parse-Leaves ascii_qt true (14 ∷ 14 ∷ 1 ∷ 0 ∷ [])

abbrev sixty_one : List ℕ
sixty_one = le_bytes 61 0
