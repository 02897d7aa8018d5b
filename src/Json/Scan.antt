-- ===== src/Json/Scan.antt =====
-- The strings of the scanner (nodebus/core/jsonparser/scanner.l), whose rules ignore the case. A line
-- break inside a string matches no rule: flex echoes it and stays where it is.
use jsonbus.Prelude.{
  ℕ, ◌+◌, ◌*◌, ◌-◌, ◌<◌, ◌≡◌, refl, ap, ◌∙◌, true, false, Option, none, some, List, [], ◌∷◌, ◌++◌,
  append_assoc, ◌==◌, ltb, ◌&&◌, ◌||◌, if◌then◌else◌, arith, Bool-cases, inl, inr, append-nil,
  if_both,
}
use jsonbus.Variant.{Qt}
use jsonbus.Json.Write.{sanitize_string}
use jsonbus.Json.Escapes.{escape_char, escape_all, sanitize_string-escape_all}

-- What follows a quote: a string with what is behind it, TSYNERRESC, TSYNERRUNI or TEND.
pub data Scanned : Type 0 where
  found : List ℕ → List ℕ → Scanned
  bad_escape bad_unicode unterminated no_string : Scanned

-- The rules of the state STRING
pub data Kind : Type 0 where
  closes escapes breaks plain : Kind

unfoldable pub kind : ℕ → Kind
kind b = if b == 34 then closes else if b == 92 then escapes else if b == 10 then breaks else plain

-- The rules of the state STRING_ESCAPE
pub data EscapeKind : Type 0 where
  stands_for : ℕ → EscapeKind
  unicode breaks_escape unknown : EscapeKind

unfoldable pub escape_kind : ℕ → EscapeKind
escape_kind b =
    if b == 117 || b == 85
    then unicode
    else if b == 92
    then stands_for 92
    else if b == 34
    then stands_for 34
    else if b == 47
    then stands_for 47
    else if b == 98 || b == 66
    then stands_for 8
    else if b == 102 || b == 70
    then stands_for 12
    else if b == 110 || b == 78
    then stands_for 10
    else if b == 114 || b == 82
    then stands_for 13
    else if b == 116 || b == 84
    then stands_for 9
    else if b == 10
    then breaks_escape
    else unknown

unfoldable pub hex_digit : ℕ → Option ℕ
hex_digit b =
    if ltb 47 b && ltb b 58
    then some (b - 48)
    else if ltb 96 b && ltb b 103
    then some (b - 87)
    else if ltb 64 b && ltb b 71
    then some (b - 55)
    else none

-- One more digit of a number
unfoldable pub hex_step : Option ℕ → ℕ → Option ℕ
unfolding hex_digit
hex_step none b = none
hex_step (some n) b = elim (hex_digit b) [ none ↦ none | some d ↦ some (n * 16 + d) ]

-- `value_unicode` and the number that STRING_APPEND_UNICODE makes of it
unfoldable pub hex_value : ℕ → ℕ → ℕ → ℕ → Option ℕ
unfolding hex_step
hex_value a b c d = hex_step (hex_step (hex_step (hex_step (some 0) a) b) c) d

module _ (qt : Qt) where
  unfoldable mutual
    -- In the state STRING, behind what was appended to the string.
    pub in_string : List ℕ → List ℕ → Scanned
    in_string str [] = unterminated
    in_string str (b ∷ rest) = elim (kind b) [
      | closes ↦ found str rest
      | escapes ↦ in_escape str rest
      | breaks ↦ in_string str rest
      | plain ↦ in_string (str ++ qt.from_char b ∷ []) rest
    ]

    pub in_escape : List ℕ → List ℕ → Scanned
    in_escape str [] = unterminated
    in_escape str (b ∷ rest) = elim (escape_kind b) [
      | stands_for c ↦ in_string (str ++ qt.from_char c ∷ []) rest
      | unicode ↦ in_unicode str rest
      | breaks_escape ↦ in_escape str rest
      | unknown ↦ bad_escape
    ]

    pub in_unicode : List ℕ → List ℕ → Scanned
    in_unicode str [] = unterminated
    in_unicode str (a ∷ []) = if a == 10 then unterminated else bad_unicode
    in_unicode str (a ∷ b ∷ []) = elim (a == 10) [
      | true ↦ in_unicode str (b ∷ [])
      | false ↦ bad_unicode
    ]
    in_unicode str (a ∷ b ∷ c ∷ []) = elim (a == 10) [
      | true ↦ in_unicode str (b ∷ c ∷ [])
      | false ↦ bad_unicode
    ]
    in_unicode str (a ∷ b ∷ c ∷ d ∷ rest) = elim (hex_value a b c d) [
      | some n ↦ in_string (str ++ n ∷ []) rest
      | none ↦ elim (a == 10) [ true ↦ in_unicode str (b ∷ c ∷ d ∷ rest) | false ↦ bad_unicode ]
    ]

  -- The rule of the state INITIAL for a quote
  unfoldable pub scan_string : List ℕ → Scanned
  unfolding in_string
  scan_string [] = no_string
  scan_string (b ∷ rest) = if b == 34 then in_string [] rest else no_string

-- ASCII text.
unfoldable pub IsAscii : List ℕ → Type 0
IsAscii [] = Unit
IsAscii (c ∷ str) = (c < 128) × IsAscii str

append-IsAscii : (a b : List ℕ) → IsAscii a → IsAscii b → IsAscii (a ++ b)
unfolding IsAscii
append-IsAscii [] b x y = y
append-IsAscii (c ∷ a) b (l, x) y = (l, append-IsAscii a b x y)

pair_IsAscii : (b : ℕ) → b < 128 → IsAscii (92 ∷ b ∷ [])
unfolding IsAscii
pair_IsAscii b l = (omega arith, (l, tt))

one_IsAscii : (c : ℕ) → c < 128 → IsAscii (c ∷ [])
unfolding IsAscii
one_IsAscii c l = (l, tt)

escape_char-IsAscii : (c : ℕ) → c < 128 → IsAscii (escape_char c)
unfolding escape_char
escape_char-IsAscii c l = if_both IsAscii (c == 92) (pair_IsAscii 92 (omega arith)) (
    if_both IsAscii (c == 34) (pair_IsAscii 34 (omega arith)) (
      if_both IsAscii (c == 8) (pair_IsAscii 98 (omega arith)) (
        if_both IsAscii (c == 12) (pair_IsAscii 102 (omega arith)) (
          if_both IsAscii (c == 10) (pair_IsAscii 110 (omega arith)) (
            if_both IsAscii (c == 13) (pair_IsAscii 114 (omega arith))
              (if_both IsAscii (c == 9) (pair_IsAscii 116 (omega arith)) (one_IsAscii c l)))))))

escape_all-IsAscii : (s : List ℕ) → IsAscii s → IsAscii (escape_all s)
unfolding escape_all IsAscii
escape_all-IsAscii [] a = a
escape_all-IsAscii (c ∷ s) (l, a) =
    append-IsAscii (escape_char c) (escape_all s) (escape_char-IsAscii c l) (escape_all-IsAscii s a)

sanitize_string-IsAscii : (s : List ℕ) → IsAscii s → IsAscii (sanitize_string s)
unfolding IsAscii
sanitize_string-IsAscii s a = rw (sanitize_string-escape_all s) (
  omega arith,
  append-IsAscii (escape_all s) (34 ∷ []) (escape_all-IsAscii s a) (one_IsAscii 34 (omega arith)),
)

module _ (qt : Qt) (from_ascii : (c : ℕ) → c < 128 → qt.from_char c ≡ c) where
  plain_char :
      (c : ℕ) (str rest : List ℕ)
      → c < 128
      → escape_char c ≡ c ∷ []
      → kind c ≡ plain
      → in_string qt str (escape_char c ++ rest) ≡ in_string qt (str ++ c ∷ []) rest
  unfolding in_string
  plain_char c str rest l e k = rw (e, in_string, k, from_ascii c l) refl

  in_string-escape_char :
      (c : ℕ) (str rest : List ℕ)
      → c < 128
      → in_string qt str (escape_char c ++ rest) ≡ in_string qt (str ++ c ∷ []) rest
  unfolding in_string in_escape in_unicode escape_char kind escape_kind
  in_string-escape_char c str rest l = elim (Bool-cases (c == 92)) [
    | inl y ↦ let m : c ≡ 92 = ground (arith, y) in rw (m, from_ascii 92 (ground arith)) refl
    | inr n1 ↦ elim (Bool-cases (c == 34)) [
      | inl y ↦ let m : c ≡ 34 = ground (arith, y) in rw (m, from_ascii 34 (ground arith)) refl
      | inr n2 ↦ elim (Bool-cases (c == 8)) [
        | inl y ↦ let m : c ≡ 8 = ground (arith, y) in rw (m, from_ascii 8 (ground arith)) refl
        | inr n3 ↦ elim (Bool-cases (c == 12)) [
          | inl y ↦ let m : c ≡ 12 = ground (arith, y) in rw (m, from_ascii 12 (ground arith)) refl
          | inr n4 ↦ elim (Bool-cases (c == 10)) [
            | inl y ↦
                let m : c ≡ 10 = ground (arith, y) in rw (m, from_ascii 10 (ground arith)) refl
            | inr n5 ↦ elim (Bool-cases (c == 13)) [
              | inl y ↦
                  let m : c ≡ 13 = ground (arith, y) in rw (m, from_ascii 13 (ground arith)) refl
              | inr n6 ↦ elim (Bool-cases (c == 9)) [
                | inl y ↦
                    let m : c ≡ 9 = ground (arith, y) in rw (m, from_ascii 9 (ground arith)) refl
                | inr n7 ↦
                    plain_char c str rest l (simp (n1, n2, n3, n4, n5, n6, n7) refl)
                      (simp (n1, n2, n5) refl)
              ]
            ]
          ]
        ]
      ]
    ]
  ]

  in_string-escape_all :
      (s str rest : List ℕ)
      → IsAscii s
      → in_string qt str (escape_all s ++ 34 ∷ rest) ≡ found (str ++ s) rest
  unfolding in_string escape_all IsAscii kind
  in_string-escape_all [] str rest a = rw (append-nil str) refl
  in_string-escape_all (c ∷ s) str rest (l, a) =
      ap (in_string qt str) (append_assoc (escape_char c) (escape_all s) (34 ∷ rest))
      ∙ in_string-escape_char c str (escape_all s ++ 34 ∷ rest) l
      ∙ in_string-escape_all s (str ++ c ∷ []) rest a
      ∙ ap (λ z. found z rest) (append_assoc str (c ∷ []) s)

  -- For conversions that keep ASCII, the scanner reads an ASCII string that sanitizeString wrote as
  -- that string, whatever follows it.
  pub scan_string-sanitize_string :
      (s rest : List ℕ)
      → ((t : List ℕ) → IsAscii t → qt.to_local8bit t ≡ t)
      → IsAscii s
      → scan_string qt (qt.to_local8bit (sanitize_string s) ++ rest) ≡ found s rest
  unfolding scan_string
  scan_string-sanitize_string s rest h a =
      let e : qt.to_local8bit (sanitize_string s) ≡ 34 ∷ escape_all s ++ 34 ∷ [] =
        h (sanitize_string s) (sanitize_string-IsAscii s a) ∙ sanitize_string-escape_all s in
      rw e (
        ap (in_string qt []) (append_assoc (escape_all s) (34 ∷ []) rest)
        ∙ in_string-escape_all s [] rest a)
