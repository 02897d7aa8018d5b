-- ===== src/Json/Escapes.antt =====
-- The seven replacements of `sanitizeString` (nodebus/core/serializer.cpp) against a table of escapes.
use jsonbus.Prelude.{
  ℕ, ◌≡◌, refl, sym, ◌∙◌, List, [], ◌∷◌, ◌++◌, append_assoc, ◌==◌, if◌then◌else◌, arith, Bool-cases,
  inl, inr,
}
use jsonbus.Json.Write.{replace_char, escape, sanitize_string}

-- What stands for a character in a JSON string.
unfoldable pub escape_char : ℕ → List ℕ
escape_char c =
    if c == 92
    then 92 ∷ 92 ∷ []
    else if c == 34
    then 92 ∷ 34 ∷ []
    else if c == 8
    then 92 ∷ 98 ∷ []
    else if c == 12
    then 92 ∷ 102 ∷ []
    else if c == 10
    then 92 ∷ 110 ∷ []
    else if c == 13
    then 92 ∷ 114 ∷ []
    else if c == 9
    then 92 ∷ 116 ∷ []
    else c ∷ []

unfoldable pub escape_all : List ℕ → List ℕ
unfolding escape_char
escape_all [] = []
escape_all (c ∷ str) = escape_char c ++ escape_all str

replace_char-append :
    (c : ℕ) (text a b : List ℕ)
    → replace_char c text (a ++ b) ≡ replace_char c text a ++ replace_char c text b
unfolding replace_char
replace_char-append c text [] b = refl
replace_char-append c text (x ∷ a) b = rw (replace_char-append c text a b) (
    sym (
      append_assoc (if x == c then text else x ∷ []) (replace_char c text a)
        (replace_char c text b)))

escape-append : (a b : List ℕ) → escape (a ++ b) ≡ escape a ++ escape b
unfolding escape
escape-append a b = simp (replace_char-append) refl

escape_one : (c : ℕ) → escape (c ∷ []) ≡ escape_char c
unfolding escape replace_char escape_char
escape_one c = elim (Bool-cases (c == 92)) [
  | inl y ↦ let m : c ≡ 92 = ground (arith, y) in rw m refl
  | inr n1 ↦ elim (Bool-cases (c == 34)) [
    | inl y ↦ let m : c ≡ 34 = ground (arith, y) in rw m refl
    | inr n2 ↦ elim (Bool-cases (c == 8)) [
      | inl y ↦ let m : c ≡ 8 = ground (arith, y) in rw m refl
      | inr n3 ↦ elim (Bool-cases (c == 12)) [
        | inl y ↦ let m : c ≡ 12 = ground (arith, y) in rw m refl
        | inr n4 ↦ elim (Bool-cases (c == 10)) [
          | inl y ↦ let m : c ≡ 10 = ground (arith, y) in rw m refl
          | inr n5 ↦ elim (Bool-cases (c == 13)) [
            | inl y ↦ let m : c ≡ 13 = ground (arith, y) in rw m refl
            | inr n6 ↦ elim (Bool-cases (c == 9)) [
              | inl y ↦ let m : c ≡ 9 = ground (arith, y) in rw m refl
              | inr n7 ↦ simp (n1, n2, n3, n4, n5, n6, n7) refl
            ]
          ]
        ]
      ]
    ]
  ]
]

empty : escape [] ≡ []
unfolding escape replace_char
empty = refl

pub escape-escape_all : (str : List ℕ) → escape str ≡ escape_all str
unfolding escape_all
escape-escape_all [] = empty
escape-escape_all (c ∷ str) =
    escape-append (c ∷ []) str ∙ rw (escape_one c, escape-escape_all str) refl

pub sanitize_string-escape_all :
    (str : List ℕ) → sanitize_string str ≡ 34 ∷ escape_all str ++ 34 ∷ []
unfolding sanitize_string
sanitize_string-escape_all str = rw (escape-escape_all str) refl
