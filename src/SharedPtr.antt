-- ===== src/SharedPtr.antt =====
-- nodebus/core/sharedptr.h and shareddata.*: counted pointers to objects of a heap.
-- Objects are known by numbers, given out in order. A pointer is a SharedPtr that no object holds (a
-- root) or a SharedPtr that is a member of an object. What the destructor of a class does is to destroy
-- its members; `fields` lists them in that order. Touching an object that was deleted is `undefined`.
pub mod Counting
pub mod Release
pub mod Pointers
pub mod Assign
pub mod Dangling
use jsonbus.Prelude.{
  ℕ, zero, suc, ◌+◌, ◌-◌, ◌%◌, ◌^◌, ◌<◌, ◌≤◌, ◌≡◌, refl, ◌∙◌, ◌==◌, ltb, Bool, true, false, Option,
  none, some, List, [], ◌∷◌, ◌++◌, length, arith, if◌then◌else◌, null_pointer_exception,
  invalid_class_exception, Outcome, ok, throw, undefined, out_of_fuel, inl, inr, Bool-cases,
  Option-cases, length-append,
}

pub record Object : Type 0 where
  pub class : ℕ
  pub count : ℕ
  pub fields : List (Option ℕ)

pub record Heap : Type 0 where
  pub object : ℕ → Option Object
  pub next : ℕ
  pub roots : List (Option ℕ)

abbrev pub Done : Type 0
Done = Heap × Outcome Unit

abbrev pub put_object : ℕ → Option Object → Heap → Heap
put_object o x h = record h { object = λ j. if o == j then x else h.object j }

-- `ptrNbRef` is 64 bits wide.
abbrev pub raised : Object → Object
raised x = record x { count = (x.count + 1) % 2 ^ 64 }

abbrev pub lowered : Object → Object
lowered x = record x { count = (x.count + (2 ^ 64 - 1)) % 2 ^ 64 }

-- `ptrNbRef` has the 64 bits that atomic_uint_fast16_t has with glibc on x86-64.
-- The destructor of a SharedPtr to the object `x`: what is left to destroy.
unfoldable pub drop_ref : ℕ → Object → List (Option ℕ) → Heap → List (Option ℕ) × Heap
drop_ref o x rest h =
    if x.count == 1
    then (x.fields ++ rest, put_object o none h)
    else (rest, put_object o (some (lowered x)) h)

-- The destructors of the pointers, one after the other.
unfoldable pub release : ℕ → List (Option ℕ) → Heap → Done
unfolding drop_ref
release n [] h = (h, ok tt)
release zero (p ∷ ps) h = (h, out_of_fuel)
release (suc n) (none ∷ ps) h = release n ps h
release (suc n) (some o ∷ ps) h = elim (h.object o) [
  | none ↦ (h, undefined)
  | some x ↦ let (ps2, h2) = drop_ref o x ps h in release n ps2 h2
]

-- How many pointers the objects hold: it bounds the destructors that one destructor can run.
unfoldable pub sum_below : ℕ → (ℕ → ℕ) → ℕ
sum_below zero f = 0
sum_below (suc n) f = f n + sum_below n f

abbrev pub fields_of : Option Object → List (Option ℕ)
fields_of none = []
fields_of (some x) = x.fields

unfoldable pub size : Heap → ℕ
size h = sum_below h.next (λ i. length (fields_of (h.object i)))

-- The pointer of a root, and what is left when it is written.
unfoldable pub root : ℕ → List (Option ℕ) → Option ℕ
root i [] = none
root zero (p ∷ ps) = p
root (suc i) (p ∷ ps) = root i ps

unfoldable pub set_root : ℕ → Option ℕ → List (Option ℕ) → List (Option ℕ)
set_root i v [] = []
set_root zero v (p ∷ ps) = v ∷ ps
set_root (suc i) v (p ∷ ps) = p ∷ set_root i v ps

-- `instanceof`, `operator==` and `operator->`, which `operator*` does too
unfoldable pub same_data : Option ℕ → Option ℕ → Bool
same_data none none = true
same_data none (some b) = false
same_data (some a) none = false
same_data (some a) (some b) = a == b

unfoldable pub deref : Option ℕ → Heap → Outcome ℕ
deref none h = throw null_pointer_exception
deref (some o) h = elim (h.object o) [ none ↦ undefined | some x ↦ ok o ]

-- Whether an object of the first class is one of the second, which `dynamic_cast` finds out.
module _ (derives : ℕ → ℕ → Bool) where
  unfoldable pub is_instance : ℕ → Option ℕ → Heap → Outcome Bool
  is_instance t none h = ok false
  is_instance t (some o) h = elim (h.object o) [
    | none ↦ undefined
    | some x ↦ ok (derives x.class t)
  ]

  unfoldable pub cast : ℕ → Option ℕ → Heap → Outcome ℕ
  cast t none h = throw invalid_class_exception
  cast t (some o) h = elim (h.object o) [
    | none ↦ undefined
    | some x ↦ if derives x.class t then ok o else throw invalid_class_exception
  ]

  -- The end of the constructors and of `operator=`: the class is tested and the count raised.
  unfoldable pub retain : ℕ → Option ℕ → (Heap → Heap) → Heap → Done
  retain t none f h = (f h, ok tt)
  retain t (some o) f h = elim (h.object o) [
    | none ↦ (h, undefined)
    | some x ↦
        if derives x.class t
        then (put_object o (some (raised x)) (f h), ok tt)
        else (h, throw invalid_class_exception)
  ]

  -- The constructors of a new root, on top of the others.
  unfoldable pub construct : ℕ → Option ℕ → Heap → Done
  unfolding retain
  construct t v h = retain t v (λ h1. record h1 { roots = v ∷ h1.roots }) h

  -- `operator=` on the root `i`: the old object is let go before the class of the new one is tested.
  unfoldable pub assign_new : ℕ → ℕ → Option ℕ → Done → Done
  unfolding retain
  assign_new t i v (h, ok u) = retain t v (λ h1. record h1 { roots = set_root i v h1.roots }) h
  assign_new t i v (h, throw e) = (h, throw e)
  assign_new t i v (h, undefined) = (h, undefined)
  assign_new t i v (h, out_of_fuel) = (h, out_of_fuel)

  unfoldable pub assign : ℕ → ℕ → Option ℕ → Heap → Done
  unfolding release assign_new same_data size
  assign t i v h =
      if same_data (root i h.roots) v
      then (h, ok tt)
      else assign_new t i v (release (suc (size h)) (root i h.roots ∷ []) h)

-- The destructor of the newest root
unfoldable pub destroy : Heap → Done
unfolding release
destroy h = elim h.roots [
  | [] ↦ (h, ok tt)
  | p ∷ ps ↦ release (suc (size h)) (p ∷ []) (record h { roots = ps })
]
