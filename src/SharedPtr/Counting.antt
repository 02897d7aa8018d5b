-- ===== src/SharedPtr/Counting.antt =====
-- How many pointers of a heap point to an object.
use jsonbus.Prelude.{
  ℕ, zero, suc, ◌+◌, ◌^◌, ◌<◌, ◌≡◌, refl, ◌==◌, ltb, true, Option, none, some, List, [], ◌∷◌, ◌++◌,
  arith, if◌then◌else◌, inl, inr, Bool-cases, ap,
}
use jsonbus.SharedPtr.{sum_below, fields_of, Heap, Object}

abbrev pub is_at : ℕ → Option ℕ → ℕ
is_at o none = 0
is_at o (some j) = if o == j then 1 else 0

unfoldable pub occurrences : ℕ → List (Option ℕ) → ℕ
occurrences o [] = 0
occurrences o (p ∷ ps) = is_at o p + occurrences o ps

pub occurrences-append :
    (o : ℕ) (ps qs : List (Option ℕ))
    → occurrences o (ps ++ qs) ≡ occurrences o ps + occurrences o qs
unfolding occurrences
occurrences-append o [] qs = omega arith
occurrences-append o (p ∷ ps) qs = omega (arith, occurrences-append o ps qs)

pub sum_below-ext : (n : ℕ) (f g : ℕ → ℕ) → ((i : ℕ) → g i ≡ f i) → sum_below n g ≡ sum_below n f
unfolding sum_below
sum_below-ext zero f g e = refl
sum_below-ext (suc n) f g e = omega (arith, e n, sum_below-ext n f g e)

pub sum_below-update :
    (n k x : ℕ) (f g : ℕ → ℕ)
    → ((i : ℕ) → g i ≡ (if k == i then x else f i))
    → sum_below n g + (if ltb k n then f k else 0) ≡ sum_below n f + (if ltb k n then x else 0)
unfolding sum_below
sum_below-update zero k x f g e = ground arith
sum_below-update (suc n) k x f g e = ground (arith, e n, sum_below-update n k x f g e)

unfoldable pub refs : ℕ → Heap → ℕ
refs o h = sum_below h.next (λ i. occurrences o (fields_of (h.object i)))

-- All the pointers to `o`, those that are yet to be destroyed first.
unfoldable pub pointers : ℕ → List (Option ℕ) → Heap → ℕ
pointers o pending h = occurrences o pending + (occurrences o h.roots + refs o h)

put_at :
    (m : List (Option ℕ) → ℕ) (k : ℕ) (p : Option Object) (h : Heap) (i : ℕ)
    → m (fields_of (if k == i then p else h.object i))
      ≡ (if k == i then m (fields_of p) else m (fields_of (h.object i)))
put_at m k p h i = elim (Bool-cases (k == i)) [ inl y ↦ rw y refl | inr n ↦ rw n refl ]

-- A sum over the objects after one of them changed.
pub sum-put :
    (m : List (Option ℕ) → ℕ) (k : ℕ) (x : Object) (p : Option Object) (h : Heap)
    → h.object k ≡ some x
    → k < h.next
    → sum_below h.next (λ i. m (fields_of (if k == i then p else h.object i))) + m x.fields
      ≡ sum_below h.next (λ i. m (fields_of (h.object i))) + m (fields_of p)
sum-put m k x p h e l =
    let l2 : ltb k h.next ≡ true = ground (arith, l) in
    let s =
      sum_below-update h.next k (m (fields_of p)) (λ i. m (fields_of (h.object i)))
        (λ i. m (fields_of (if k == i then p else h.object i))) (λ i. put_at m k p h i) in
    ground (arith, s, l2, ap (λ z. m (fields_of z)) e)

pub record IsCounted (pending : List (Option ℕ)) (h : Heap) : Type 0 where
  pub counted : (o : ℕ) (x : Object) → h.object o ≡ some x → x.count ≡ pointers o pending h
  pub not_dangling : (o : ℕ) → h.object o ≡ none → pointers o pending h ≡ 0
  pub allocated : (o : ℕ) (x : Object) → h.object o ≡ some x → o < h.next
  pub is_small : (o : ℕ) → pointers o pending h < 2 ^ 64
