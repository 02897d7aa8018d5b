-- ===== src/Logger/Columns.antt =====
-- The columns of a printed map.
use jsonbus.Prelude.{
  ℕ, suc, ◌+◌, ◌-◌, ◌≡◌, ◌≤◌, refl, List, [], ◌∷◌, length, length-append, ltb, if◌then◌else◌, All,
  arith,
}
use jsonbus.Logger.{Entry, longest, spaces, left_justified}

longest-grows : (n : ℕ) (es : List Entry) → n ≤ longest n es
unfolding longest
longest-grows n [] = omega arith
longest-grows n (e ∷ es) =
    ground (arith, longest-grows (if ltb n (length e.key) then length e.key else n) es)

longest-covers : (es : List Entry) (n : ℕ) → All (λ e. length e.key ≤ longest n es) es
unfolding longest
longest-covers [] n = tt
longest-covers (e ∷ es) n = (
  ground (arith, longest-grows (if ltb n (length e.key) then length e.key else n) es),
  longest-covers es _,
)

length-spaces : (n : ℕ) → length (spaces n) ≡ n
unfolding spaces
length-spaces Prim.Native.Nat.zero = refl
length-spaces (suc n) = omega (arith, length-spaces n)

pub length-left_justified :
    (width : ℕ) (t : List ℕ) → length t ≤ width → length (left_justified width t) ≡ width
unfolding left_justified
length-left_justified width t h =
    omega (arith, length-append t (spaces (width - length t)), length-spaces (width - length t))

-- Every key is filled up to the same width and ends with a space.
pub AreAligned : ℕ → List Entry → Type 0
AreAligned width =
    All λ e. (length (left_justified width e.key) ≡ width) × (length e.key ≤ width - 1)

All-AreAligned : (n : ℕ) (es : List Entry) → All (λ e. length e.key ≤ n) es → AreAligned (n + 1) es
unfolding AreAligned
All-AreAligned n [] h = tt
All-AreAligned n (e ∷ es) (h, t) =
    ((length-left_justified (n + 1) e.key (omega arith), omega arith), All-AreAligned n es t)

-- The keys of a map are filled up to one width in a log entry, which is more than the length of
-- each.
pub longest-AreAligned : (es : List Entry) → AreAligned (longest 0 es + 1) es
longest-AreAligned es = All-AreAligned (longest 0 es) es (longest-covers es 0)
