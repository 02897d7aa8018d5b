-- ===== src/SharedPtr/Dangling.antt =====
-- `operator=` of nodebus/core/sharedptr.h lets the old object go first: what that breaks.
use jsonbus.Prelude.{
  Exception, ℕ, zero, suc, ◌≤◌, ◌≡◌, refl, ◌∙◌, sym, ap, ◌==◌, Bool, true, false, Option, none,
  some, List, [], ◌∷◌, ◌++◌, length, arith, ok, throw, undefined, out_of_fuel, inl, inr, Bool-cases,
  Option-cases,
}
use jsonbus.SharedPtr.{
  size, Heap, Object, Done, put_object, lowered, raised, drop_ref, release, root, set_root,
  same_data, retain, assign_new, assign, destroy,
}
use jsonbus.SharedPtr.Counting.{IsCounted}
use jsonbus.SharedPtr.Release.{release_roots, size-deleted}
use jsonbus.SharedPtr.Assign.{let_go, let_go-Released, assign_new-ok}

-- A destructor brings no object back.
release-dead :
    (n k : ℕ) (ps : List (Option ℕ)) (h : Heap)
    → h.object k ≡ none
    → (release n ps h).0.object k ≡ none
unfolding release drop_ref
release-dead n k [] h d = d
release-dead zero k (p ∷ ps) h d = d
release-dead (suc n) k (none ∷ ps) h d = release-dead n k ps h d
release-dead (suc n) k (some o ∷ ps) h d = elim (Option-cases (h.object o)) [
  | inl e ↦ rw (release, e) d
  | inr (x, e) ↦ elim (Bool-cases (x.count == 1)) [
    | inl y ↦
        rw (release, e, drop_ref, y)
          (release-dead n k (x.fields ++ ps) (put_object o none h) (ground (arith, d)))
    | inr y ↦
        rw (release, e, drop_ref, y)
          (release-dead n k ps (put_object o (some (lowered x)) h) (ground (arith, d, e)))
  ]
]

-- The last pointer to an object deletes it.
release-deletes :
    (n k : ℕ) (x : Object) (ps : List (Option ℕ)) (h : Heap)
    → h.object k ≡ some x
    → x.count ≡ 1
    → (release (suc n) (some k ∷ ps) h).0.object k ≡ none
unfolding release drop_ref
release-deletes n k x ps h e c =
    let y : (x.count == 1) ≡ true = ground (arith, c) in
    rw (release, e, drop_ref, y)
      (release-dead n k (x.fields ++ ps) (put_object k none h) (ground arith))

-- What the only pointer of an object holds alone is deleted with it.
release-deletes_field :
    (n k o : ℕ) (x y : Object) (h : Heap)
    → h.object k ≡ some x
    → x.count ≡ 1
    → x.fields ≡ some o ∷ []
    → h.object o ≡ some y
    → y.count ≡ 1
    → (k == o) ≡ false
    → (release (suc (suc n)) (some k ∷ []) h).0.object o ≡ none
unfolding release drop_ref
release-deletes_field n k o x y h e c f e2 c2 m =
    let b : (x.count == 1) ≡ true = ground (arith, c) in
    rw (release, e, drop_ref, b, f) (release-deletes n o y [] (put_object k none h) (rw m e2) c2)

retain-throw :
    (derives : ℕ → ℕ → Bool) (t : ℕ) (v : Option ℕ) (f : Heap → Heap) (h : Heap) (e : Exception)
    → (retain derives t v f h).1 ≡ throw e
    → (retain derives t v f h).0 ≡ h
unfolding retain
retain-throw derives t none f h e q = cc
retain-throw derives t (some o) f h e q = elim (Option-cases (h.object o)) [
  | inl n ↦ rw (retain, n) refl
  | inr (x, l) ↦ elim (Bool-cases (derives x.class t)) [
    | inl y ↦
        let a : retain derives t (some o) f h ≡ (put_object o (some (raised x)) (f h), ok tt) =
          rw (retain, l, y) refl in
        let z : ok tt ≡ throw e = sym (ap (λ w. w.1) a) ∙ q in cc
    | inr y ↦ rw (retain, l, y) refl
  ]
]

assign_new-throw :
    (derives : ℕ → ℕ → Bool) (t i : ℕ) (v : Option ℕ) (r : Done) (e : Exception)
    → (assign_new derives t i v r).1 ≡ throw e
    → (assign_new derives t i v r).0 ≡ r.0
unfolding assign_new
assign_new-throw derives t i v (h, ok u) e q =
    retain-throw derives t v (λ h1. record h1 { roots = set_root i v h1.roots }) h e q
assign_new-throw derives t i v (h, throw x) e q = refl
assign_new-throw derives t i v (h, undefined) e q = refl
assign_new-throw derives t i v (h, out_of_fuel) e q = refl

destroy_dead :
    (k : ℕ) (ps : List (Option ℕ)) (h : Heap)
    → h.roots ≡ some k ∷ ps
    → h.object k ≡ none
    → (destroy h).1 ≡ undefined
unfolding destroy release
destroy_dead k ps h r d = rw (destroy, r, release, d) refl

first_root :
    (k : ℕ) (ps : List (Option ℕ)) (h : Heap) → h.roots ≡ some k ∷ ps → root 0 h.roots ≡ some k
unfolding root
first_root k ps h r = ap (λ z. root 0 z) r

root_deletes :
    (n k : ℕ) (x : Object) (ps : List (Option ℕ)) (h : Heap)
    → h.roots ≡ some k ∷ ps
    → h.object k ≡ some x
    → x.count ≡ 1
    → (release (suc n) (root 0 h.roots ∷ []) h).0.object k ≡ none
root_deletes n k x ps h r l c = simp (first_root k ps h r) (release-deletes n k x [] h l c)

root_deletes_field :
    (n k o : ℕ) (x y : Object) (ps : List (Option ℕ)) (h : Heap)
    → h.roots ≡ some k ∷ ps
    → h.object k ≡ some x
    → x.count ≡ 1
    → x.fields ≡ some o ∷ []
    → h.object o ≡ some y
    → y.count ≡ 1
    → (k == o) ≡ false
    → 1 ≤ n
    → (release (suc n) (root 0 h.roots ∷ []) h).0.object o ≡ none
root_deletes_field zero k o x y ps h r l n f l2 n2 m w = ground (arith, w)
root_deletes_field (suc j) k o x y ps h r l n f l2 n2 m w =
    simp (first_root k ps h r) (release-deletes_field j k o x y h l n f l2 n2 m)

retain_dead :
    (derives : ℕ → ℕ → Bool) (t o : ℕ) (f : Heap → Heap) (h : Heap)
    → h.object o ≡ none
    → (retain derives t (some o) f h).1 ≡ undefined
unfolding retain
retain_dead derives t o f h d = rw (retain, d) refl

-- When an assignment to the only pointer of an object throws, destroying that pointer is undefined:
-- it still points to the object that was deleted.
pub assign-dangles :
    (derives : ℕ → ℕ → Bool) (t k : ℕ) (x : Object) (v : Option ℕ) (ps : List (Option ℕ)) (h : Heap)
    (e : Exception)
    → h.roots ≡ some k ∷ ps
    → h.object k ≡ some x
    → x.count ≡ 1
    → (assign derives t 0 v h).1 ≡ throw e
    → (destroy (assign derives t 0 v h).0).1 ≡ undefined
unfolding assign root
assign-dangles derives t k x v ps h e r l c q = elim (Bool-cases (same_data (root 0 h.roots) v)) [
  | inl y ↦ let z : ok tt ≡ throw e = simp y at q in cc
  | inr y ↦
      let g = release (suc (size h)) (root 0 h.roots ∷ []) h in
      let a : assign derives t 0 v h ≡ assign_new derives t 0 v g = simp y refl in
      let b : (assign derives t 0 v h).0 ≡ g.0 =
        ap (λ z. z.0) a ∙ assign_new-throw derives t 0 v g e (sym (ap (λ z. z.1) a) ∙ q) in
      let d : g.0.object k ≡ none = root_deletes (size h) k x ps h r l c in
      let s : g.0.roots ≡ some k ∷ ps =
        ap (λ z. z.0.roots) (release_roots (suc (size h)) (root 0 h.roots ∷ []) h.roots h) ∙ r in
      rw b (destroy_dead k ps g.0 s d)
]

-- Assigning to the only pointer of an object the next object, which a member of the first alone
-- holds, is undefined: the next object is deleted before it is counted.
pub assign-next :
    (derives : ℕ → ℕ → Bool) (t k o : ℕ) (x y : Object) (ps : List (Option ℕ)) (h : Heap)
    → IsCounted [] h
    → h.roots ≡ some k ∷ ps
    → h.object k ≡ some x
    → x.count ≡ 1
    → x.fields ≡ some o ∷ []
    → h.object o ≡ some y
    → y.count ≡ 1
    → (k == o) ≡ false
    → (assign derives t 0 (some o) h).1 ≡ undefined
unfolding assign root same_data let_go
assign-next derives t k o x y ps h c r l n f l2 n2 m =
    let g = let_go 0 h in
    let s : same_data (root 0 h.roots) (some o) ≡ false = simp (first_root k ps h r) m in
    let w : 1 ≤ size h =
      ground (arith, size-deleted k x h l (c.allocated k x l), ap (λ z. length z) f) in
    let d = root_deletes_field (size h) k o x y ps h r l n f l2 n2 m w in
    let e = (let_go-Released 0 h (rw r (ground arith)) c).ends_well in
    rw (assign, s, assign_new-ok derives t 0 (some o) g e)
      (retain_dead derives t o (λ h1. record h1 { roots = set_root 0 (some o) h1.roots }) g.0 d)
