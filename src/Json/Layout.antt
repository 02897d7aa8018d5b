-- ===== src/Json/Layout.antt =====
-- The flags of `Serializer::serializeJSON` (nodebus/core/serializer.cpp) only lay the text out.
use jsonbus.Prelude.{
  ℕ, ◌<◌, ◌≤◌, ◌≡◌, refl, sym, ap, ◌∙◌, false, List, [], ◌∷◌, ◌++◌, append_assoc, ◌==◌, ◌||◌,
  if◌then◌else◌, arith,
}

-- Where a character of a JSON text stands: outside of the strings, in one, or behind a backslash in one.
pub data Place : Type 0 where
  outside inside escaped : Place

unfoldable pub step : Place → ℕ → Place
step outside c = if c == 34 then inside else outside
step inside c = if c == 34 then outside else if c == 92 then escaped else inside
step escaped c = inside

unfoldable pub place : Place → List ℕ → Place
unfolding step
place p [] = p
place p (c ∷ text) = place (step p c) text

unfoldable pub kept : Place → ℕ → List ℕ
kept outside c = if c == 32 || c == 10 then [] else c ∷ []
kept inside c = c ∷ []
kept escaped c = c ∷ []

-- A text without the spaces and line breaks outside of its strings.
unfoldable pub strip : Place → List ℕ → List ℕ
unfolding step kept
strip p [] = []
strip p (c ∷ text) = kept p c ++ strip (step p c) text

pub place-append : (p : Place) (a b : List ℕ) → place p (a ++ b) ≡ place (place p a) b
unfolding place
place-append p [] b = refl
place-append p (c ∷ a) b = place-append (step p c) a b

pub strip-append : (p : Place) (a b : List ℕ) → strip p (a ++ b) ≡ strip p a ++ strip (place p a) b
unfolding strip place
strip-append p [] b = refl
strip-append p (c ∷ a) b =
    rw (strip-append (step p c) a b)
      (sym (append_assoc (kept p c) (strip (step p c) a) (strip (place (step p c) a) b)))

unfoldable pub IsWide : List ℕ → Type 0
IsWide [] = Unit
IsWide (c ∷ text) = (128 ≤ c) × IsWide text

-- An encoding that keeps ASCII and writes other characters, several at a time or one, as bytes from 128.
pub data Encodes : List ℕ → List ℕ → Type 0 where
  nothing : Encodes [] []
  ascii : {c : ℕ} {s t : List ℕ} → c < 128 → Encodes s t → Encodes (c ∷ s) (c ∷ t)
  wide :
      (u : ℕ) (us : List ℕ) (b : ℕ) (bs s t : List ℕ)
      → IsWide (u ∷ us)
      → IsWide (b ∷ bs)
      → Encodes s t
      → Encodes ((u ∷ us) ++ s) ((b ∷ bs) ++ t)

unfoldable behind_wide : Place → Place
behind_wide outside = outside
behind_wide inside = inside
behind_wide escaped = inside

place-wide : (p : Place) (us : List ℕ) → IsWide us → place (behind_wide p) us ≡ behind_wide p
unfolding place IsWide step behind_wide
place-wide p [] w = refl
place-wide outside (u ∷ us) (l, w) =
    let n : (u == 34) ≡ false = ground (arith, l) in simp n (place-wide outside us w)
place-wide inside (u ∷ us) (l, w) =
    let n : (u == 34) ≡ false = ground (arith, l) in
    let m : (u == 92) ≡ false = ground (arith, l) in simp (n, m) (place-wide inside us w)
place-wide escaped (u ∷ us) (l, w) =
    let n : (u == 34) ≡ false = ground (arith, l) in
    let m : (u == 92) ≡ false = ground (arith, l) in simp (n, m) (place-wide inside us w)

place-wide_some :
    (p : Place) (u : ℕ) (us : List ℕ) → IsWide (u ∷ us) → place p (u ∷ us) ≡ behind_wide p
unfolding place IsWide step behind_wide
place-wide_some outside u us w = place-wide outside (u ∷ us) w
place-wide_some inside u us w = place-wide inside (u ∷ us) w
place-wide_some escaped u us (l, w) = place-wide inside us w

pub place-Encodes : {s t : List ℕ} (p : Place) → Encodes s t → place p t ≡ place p s
unfolding place
place-Encodes p nothing = refl
place-Encodes p (ascii {c} {s} {t} l e) = place-Encodes (step p c) e
place-Encodes p (wide u us b bs s t w x e) =
    place-append p (b ∷ bs) t
    ∙ ap (λ q. place q t) (place-wide_some p b bs x)
    ∙ place-Encodes (behind_wide p) e
    ∙ ap (λ q. place q s) (sym (place-wide_some p u us w))
    ∙ sym (place-append p (u ∷ us) s)
