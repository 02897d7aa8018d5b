-- ===== src/Idlc/Marks.antt =====
-- How many keys of a table are not marked: the interfaces of a linker, or the files of a driver.
use jsonbus.Prelude.{
  ℕ, suc, ◌+◌, ◌≤◌, ◌≡◌, refl, sym, ap, ◌∙◌, Bool, true, false, [], ◌∷◌, some, if◌then◌else◌, arith,
  Bool-cases, inl, inr, length,
}
use jsonbus.Dict.{text_eq, text_same, text_same_iff, Dict, lookup}
use jsonbus.Idlc.{Name, update}

unfoldable pub unmarked : {V : Type 0} → Dict Name V → (Name → Bool) → ℕ
unmarked [] mark = 0
unmarked ((n, i) ∷ d) mark = (if mark n then 0 else 1) + unmarked d mark

pub unmarked-ext :
    {V : Type 0} (d : Dict Name V) (f g : Name → Bool)
    → ((n : Name) → g n ≡ f n)
    → unmarked d g ≡ unmarked d f
unfolding unmarked
unmarked-ext [] f g h = refl
unmarked-ext ((n, i) ∷ d) f g h = rw (h n, unmarked-ext d f g h) refl

pub unmarked_fewer :
    {V : Type 0} (d : Dict Name V) (n : Name) (f : Name → Bool)
    → unmarked d (update n true f) ≤ unmarked d f
unfolding unmarked
unmarked_fewer [] n f = omega arith
unmarked_fewer ((m, i) ∷ d) n f = ground (arith, unmarked_fewer d n f)

pub unmarked-update :
    {V : Type 0} (d : Dict Name V) (n : Name) (i : V) (f : Name → Bool)
    → lookup n d ≡ some i
    → f n ≡ false
    → suc (unmarked d (update n true f)) ≤ unmarked d f
unfolding unmarked lookup
unmarked-update [] n i f l u = cc
unmarked-update ((m, j) ∷ d) n i f l u = elim (Bool-cases (text_same m n)) [
  | inl y ↦
      let e : m ≡ n = (text_same_iff m n).0 y in
      let y2 : text_same n m ≡ true = (text_same_iff n m).1 (sym e) in
      let u2 : f m ≡ false = ap f e ∙ u in ground (arith, y2, u2, unmarked_fewer d n f)
  | inr x ↦ let r = unmarked-update d n i f (ground (arith, x, l)) u in ground (arith, r)
]

pub unmarked-length : {V : Type 0} (d : Dict Name V) (f : Name → Bool) → unmarked d f ≤ length d
unfolding unmarked
unmarked-length [] f = omega arith
unmarked-length ((n, i) ∷ d) f = ground (arith, unmarked-length d f)
