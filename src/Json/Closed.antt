-- ===== src/Json/Closed.antt =====
-- Each piece that `Serializer::serializeJSON` (nodebus/core/serializer.cpp) writes ends outside of strings.
use jsonbus.Prelude.{
  ℕ, zero, suc, ◌-◌, ◌≡◌, refl, ap, ◌∙◌, false, List, [], ◌∷◌, ◌++◌, ◌==◌, if◌then◌else◌,
  Bool-cases, inl, inr, if_both, take,
}
use jsonbus.Dict.{text_same}
use jsonbus.Variant.{Qt}
use jsonbus.Json.Write.{
  Texts, sanitize_string, replace_inf, spaces, new_line, member_space, separator_space, last_line,
  indent, indent_off, is_compact,
}
use jsonbus.Json.Escapes.{escape_char, escape_all, sanitize_string-escape_all}
use jsonbus.Json.Layout.{
  outside, inside, step, place, kept, strip, Encodes, place-append, place-Encodes,
}

unfoldable IsInner : List ℕ → Type 0
IsInner text = place inside text ≡ inside

pair-IsInner : (c : ℕ) → IsInner (92 ∷ c ∷ [])
unfolding IsInner place step
pair-IsInner c = refl

one-IsInner : (c : ℕ) → (c == 34) ≡ false → (c == 92) ≡ false → IsInner (c ∷ [])
unfolding IsInner place step
one-IsInner c n m = simp (n, m) refl

escape_char-IsInner : (c : ℕ) → IsInner (escape_char c)
unfolding escape_char
escape_char-IsInner c = elim (Bool-cases (c == 92)) [
  | inl y ↦ rw (escape_char, y) (pair-IsInner 92)
  | inr m ↦ elim (Bool-cases (c == 34)) [
    | inl y ↦ rw (escape_char, m, y) (pair-IsInner 34)
    | inr n ↦
        rw (escape_char, m, n)
          (if_both IsInner (c == 8) (pair-IsInner 98) (
            if_both IsInner (c == 12) (pair-IsInner 102) (
              if_both IsInner (c == 10) (pair-IsInner 110) (
                if_both IsInner (c == 13) (pair-IsInner 114)
                  (if_both IsInner (c == 9) (pair-IsInner 116) (one-IsInner c n m))))))
  ]
]

escape_all-IsInner : (s : List ℕ) → IsInner (escape_all s)
unfolding IsInner escape_all place
escape_all-IsInner [] = refl
escape_all-IsInner (c ∷ s) =
    place-append inside (escape_char c) (escape_all s)
    ∙ ap (λ p. place p (escape_all s)) (escape_char-IsInner c)
    ∙ escape_all-IsInner s

unfoldable pub IsClosed : List ℕ → Type 0
IsClosed text = place outside text ≡ outside

sanitize_string-IsClosed : (s : List ℕ) → IsClosed (sanitize_string s)
unfolding IsClosed place step IsInner
sanitize_string-IsClosed s = rw (sanitize_string-escape_all s) (
    place-append inside (escape_all s) (34 ∷ [])
    ∙ ap (λ p. place p (34 ∷ [])) (escape_all-IsInner s))

unfoldable pub NoQuotes : List ℕ → Type 0
NoQuotes [] = Unit
NoQuotes (c ∷ text) = ((c == 34) ≡ false) × NoQuotes text

NoQuotes-append : (a b : List ℕ) → NoQuotes a → NoQuotes b → NoQuotes (a ++ b)
unfolding NoQuotes
NoQuotes-append [] b x y = y
NoQuotes-append (c ∷ a) b (n, x) y = (n, NoQuotes-append a b x y)

NoQuotes-IsClosed : (text : List ℕ) → NoQuotes text → IsClosed text
unfolding NoQuotes IsClosed place step
NoQuotes-IsClosed [] n = refl
NoQuotes-IsClosed (c ∷ text) (n, m) = simp n (NoQuotes-IsClosed text m)

infinity-NoQuotes : NoQuotes (105 ∷ 110 ∷ 102 ∷ 105 ∷ 110 ∷ 105 ∷ 116 ∷ 121 ∷ [])
unfolding NoQuotes
infinity-NoQuotes = (refl, (refl, (refl, (refl, (refl, (refl, (refl, (refl, tt))))))))

replace_inf-NoQuotes : (skip : ℕ) (text : List ℕ) → NoQuotes text → NoQuotes (replace_inf skip text)
unfolding NoQuotes replace_inf
replace_inf-NoQuotes skip [] n = n
replace_inf-NoQuotes (suc skip) (c ∷ text) (n, m) = replace_inf-NoQuotes skip text m
replace_inf-NoQuotes zero (c ∷ text) (n, m) =
    let found = text_same (take 3 (c ∷ text)) (105 ∷ 110 ∷ 102 ∷ []) in
    NoQuotes-append (if found then 105 ∷ 110 ∷ 102 ∷ 105 ∷ 110 ∷ 105 ∷ 116 ∷ 121 ∷ [] else c ∷ [])
      (replace_inf (if found then 2 else 0) text) (if_both NoQuotes found infinity-NoQuotes (n, tt))
      (replace_inf-NoQuotes (if found then 2 else 0) text m)

-- Qt's encoding is one that keeps ASCII, and its numbers have no quotes.
pub record IsText (qt : Qt) (texts : Texts) : Type 0 where
  pub encodes : (s : List ℕ) → Encodes s (qt.to_local8bit s)
  pub int_plain : (n : ℕ) → NoQuotes (texts.number_int n)
  pub uint_plain : (n : ℕ) → NoQuotes (texts.number_uint n)
  pub long_long_plain : (n : ℕ) → NoQuotes (texts.number_long_long n)
  pub ulong_long_plain : (n : ℕ) → NoQuotes (texts.number_ulong_long n)
  pub double_plain : (n : ℕ) → NoQuotes (texts.number_double n)

module _ {qt : Qt} {texts : Texts} (h : IsText qt texts) where
  encoded-IsClosed : (s : List ℕ) → IsClosed s → IsClosed (qt.to_local8bit s)
  unfolding IsClosed
  encoded-IsClosed s c = place-Encodes outside (h.encodes s) ∙ c

  pub text-IsClosed : (s : List ℕ) → IsClosed (qt.to_local8bit (sanitize_string s))
  text-IsClosed s = encoded-IsClosed (sanitize_string s) (sanitize_string-IsClosed s)

  pub number-IsClosed :
      (text : List ℕ) → NoQuotes text → IsClosed (qt.to_local8bit (replace_inf 0 text))
  number-IsClosed text n =
      encoded-IsClosed (replace_inf 0 text)
        (NoQuotes-IsClosed (replace_inf 0 text) (replace_inf-NoQuotes 0 text n))

-- White space outside of strings.
pub record IsBlank (text : List ℕ) : Type 0 where
  pub strips : strip outside text ≡ []
  pub closed : place outside text ≡ outside

none-IsBlank : IsBlank []
unfolding strip place
none-IsBlank = record { strips = refl; closed = refl }

space-IsBlank : (text : List ℕ) → IsBlank text → IsBlank (32 ∷ text)
unfolding strip place step kept
space-IsBlank text b = record { strips = b.strips; closed = b.closed }

line-IsBlank : (text : List ℕ) → IsBlank text → IsBlank (10 ∷ text)
unfolding strip place step kept
line-IsBlank text b = record { strips = b.strips; closed = b.closed }

spaces-IsBlank : (n : ℕ) → IsBlank (spaces n)
unfolding spaces
spaces-IsBlank zero = none-IsBlank
spaces-IsBlank (suc n) = space-IsBlank (spaces n) (spaces-IsBlank n)

pub new_line-IsBlank : (off : ℕ) → IsBlank (new_line off)
unfolding new_line
new_line-IsBlank off =
    if_both IsBlank (off == 0) none-IsBlank (line-IsBlank (spaces off) (spaces-IsBlank off))

pub member_space-IsBlank : (flags : ℕ) → IsBlank (member_space flags)
unfolding member_space
member_space-IsBlank flags =
    if_both IsBlank (is_compact flags) none-IsBlank (space-IsBlank [] none-IsBlank)

pub separator_space-IsBlank : (flags : ℕ) → IsBlank (separator_space flags)
unfolding separator_space
separator_space-IsBlank flags =
    if_both IsBlank (indent_off flags == 0) (member_space-IsBlank flags)
      (new_line-IsBlank (indent_off flags))

pub last_line-IsBlank : (flags : ℕ) → IsBlank (last_line flags)
unfolding last_line
last_line-IsBlank flags = if_both IsBlank (indent_off flags == 0) none-IsBlank (
    line-IsBlank (spaces (indent_off flags - indent flags))
      (spaces-IsBlank (indent_off flags - indent flags)))
