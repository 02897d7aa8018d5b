-- ===== src/SharedPtr/Pointers.antt =====
-- The constructors, the assignment and the destructor of nodebus/core/sharedptr.h on the roots.
use jsonbus.Prelude.{
  invalid_class_exception, ◌⊎◌, ℕ, zero, suc, ◌+◌, ◌%◌, ◌^◌, ◌<◌, ◌≤◌, ◌≡◌, refl, ◌∙◌, sym, ap,
  ◌==◌, Bool, Option, none, some, List, [], ◌∷◌, length, arith, ok, throw, inl, inr, Bool-cases,
}
use jsonbus.SharedPtr.{
  size, Heap, Object, Done, put_object, raised, root, set_root, retain, construct, destroy,
}
use jsonbus.SharedPtr.Counting.{is_at, occurrences, sum-put, refs, pointers, IsCounted}
use jsonbus.SharedPtr.Release.{release-IsReleased, count_of, at_self}

pub occurrences-set_root :
    (o i : ℕ) (v : Option ℕ) (rs : List (Option ℕ))
    → i < length rs
    → occurrences o (set_root i v rs) + is_at o (root i rs) ≡ occurrences o rs + is_at o v
unfolding occurrences set_root root
occurrences-set_root o i v [] l = ground (arith, l)
occurrences-set_root o zero v (p ∷ ps) l = omega arith
occurrences-set_root o (suc i) v (p ∷ ps) l =
    let r = occurrences-set_root o i v ps (omega (arith, l)) in omega (arith, r)

pub occurrences-root : (o i : ℕ) (rs : List (Option ℕ)) → is_at o (root i rs) ≤ occurrences o rs
unfolding occurrences root
occurrences-root o i [] = omega arith
occurrences-root o zero (p ∷ ps) = omega arith
occurrences-root o (suc i) (p ∷ ps) = omega (arith, occurrences-root o i ps)

pub pointers-raised :
    (o k : ℕ) (x : Object) (rs0 rs : List (Option ℕ)) (h : Heap)
    → h.object k ≡ some x
    → k < h.next
    → occurrences o rs ≡ occurrences o rs0 + is_at o (some k)
    → pointers o [] (put_object k (some (raised x)) (record h { roots = rs }))
      ≡ pointers o [] (record h { roots = rs0 }) + is_at o (some k)
unfolding pointers refs occurrences
pointers-raised o k x rs0 rs h e l m =
    omega (arith, m, sum-put (occurrences o) k x (some (raised x)) h e l)

raised-IsCounted :
    (k : ℕ) (x : Object) (rs0 rs : List (Option ℕ)) (h : Heap)
    → h.object k ≡ some x
    → IsCounted [] (record h { roots = rs0 })
    → ((o : ℕ) → occurrences o rs ≡ occurrences o rs0 + is_at o (some k))
    → pointers k [] (record h { roots = rs0 }) + 1 < 2 ^ 64
    → IsCounted [] (put_object k (some (raised x)) (record h { roots = rs }))
raised-IsCounted k x rs0 rs h e i m b =
    let p = λ (o : ℕ). pointers-raised o k x rs0 rs h e (i.allocated k x e) (m o) in
    record {
      counted = λ o y f. elim (Bool-cases (k == o)) [
        | inl y1 ↦
            let m1 : k ≡ o = ground (arith, y1) in
            let z : some (raised x) ≡ some y = simp y1 at f in
            let c : y.count ≡ (x.count + 1) % 2 ^ 64 = sym (ap (λ w. count_of w) z) in
            rw (← m1) (omega (arith, c, p k, at_self k, i.counted k x e, b))
        | inr n1 ↦ ground (arith, n1, f, p o, i.counted o y)
      ];
      not_dangling = λ o f. ground (arith, f, p o, i.not_dangling o);
      allocated = λ o y f. ground (arith, f, i.allocated k x e, i.allocated o y);
      is_small = λ o. elim (Bool-cases (k == o)) [
        | inl y1 ↦
            let m1 : k ≡ o = ground (arith, y1) in rw (← m1) (omega (arith, p k, at_self k, b))
        | inr n1 ↦ ground (arith, n1, p o, i.is_small o)
      ];
    }

pub pointers-same :
    (o : ℕ) (ps ps2 rs rs2 : List (Option ℕ)) (h : Heap)
    → occurrences o ps2 + occurrences o rs2 ≡ occurrences o ps + occurrences o rs
    → pointers o ps2 (record h { roots = rs2 }) ≡ pointers o ps (record h { roots = rs })
unfolding pointers refs
pointers-same o ps ps2 rs rs2 h m = omega (arith, m)

-- Pointers may be moved between the roots and those that are yet to be destroyed.
pub same-IsCounted :
    (ps ps2 rs rs2 : List (Option ℕ)) (h : Heap)
    → IsCounted ps (record h { roots = rs })
    → ((o : ℕ) → occurrences o ps2 + occurrences o rs2 ≡ occurrences o ps + occurrences o rs)
    → IsCounted ps2 (record h { roots = rs2 })
same-IsCounted ps ps2 rs rs2 h i m =
    let p = λ (o : ℕ). pointers-same o ps ps2 rs rs2 h (m o) in
    record {
      counted = λ o x e. i.counted o x e ∙ sym (p o);
      not_dangling = λ o e. p o ∙ i.not_dangling o e;
      allocated = i.allocated;
      is_small = λ o. omega (arith, p o, i.is_small o);
    }

-- A pointer is null or points to an object that is there, and one more pointer to it can be counted.
pub record IsSound (v : Option ℕ) (h : Heap) : Type 0 where
  pub is_live : (o : ℕ) → v ≡ some o → (x : Object) × (h.object o ≡ some x)
  pub has_room : (o : ℕ) → v ≡ some o → pointers o [] h + 1 < 2 ^ 64

-- What a constructor or an assignment may leave: the roots `rs`, counted, or an exception.
abbrev pub Kept : List (Option ℕ) → Done → Type 0
Kept rs r = (r.1 ≡ ok tt) × IsCounted [] r.0 × (r.0.roots ≡ rs)

pub swap :
    (o : ℕ) (v : Option ℕ) (rs : List (Option ℕ))
    → occurrences o (v ∷ rs) ≡ occurrences o rs + is_at o v
unfolding occurrences
swap o v rs = omega arith

pub moves :
    (o : ℕ) (p : Option ℕ) (ps : List (Option ℕ))
    → occurrences o (p ∷ []) + occurrences o ps ≡ occurrences o [] + occurrences o (p ∷ ps)
unfolding occurrences
moves o p ps = omega arith

pub size-roots : (rs : List (Option ℕ)) (h : Heap) → size (record h { roots = rs }) ≡ size h
unfolding size
size-roots rs h = refl

module _ (derives : ℕ → ℕ → Bool) where
  pub retain-Kept :
      (t : ℕ) (v : Option ℕ) (rs0 rs : List (Option ℕ)) (f : Heap → Heap) (h : Heap)
      → f h ≡ record h { roots = rs }
      → IsCounted [] (record h { roots = rs0 })
      → IsSound v (record h { roots = rs0 })
      → ((o : ℕ) → occurrences o rs ≡ occurrences o rs0 + is_at o v)
      → Kept rs (retain derives t v f h)
        ⊎ (retain derives t v f h ≡ (h, throw invalid_class_exception))
  unfolding retain
  retain-Kept t none rs0 rs f h e i s m = inl (
    refl,
    (rw e (same-IsCounted [] [] rs0 rs h i (λ o. omega (arith, m o)))),
    (ap (λ z. z.roots) e),
  )
  retain-Kept t (some o) rs0 rs f h e i s m =
      let (x, l) = s.is_live o refl in
      elim (Bool-cases (derives x.class t)) [
        | inl y ↦ inl (
            rw (retain, l, y, e)
              (refl, raised-IsCounted o x rs0 rs h l i m (s.has_room o refl), refl))
        | inr n ↦ inr (rw (retain, l, n) refl)
      ]

  pub construct-Kept :
      (t : ℕ) (v : Option ℕ) (h : Heap)
      → IsCounted [] h
      → IsSound v h
      → Kept (v ∷ h.roots) (construct derives t v h)
        ⊎ (construct derives t v h ≡ (h, throw invalid_class_exception))
  unfolding construct
  construct-Kept t v h i s =
      retain-Kept t v h.roots (v ∷ h.roots) (λ h1. record h1 { roots = v ∷ h1.roots }) h refl i s
        (λ o. swap o v h.roots)

moved-IsCounted :
    (p : Option ℕ) (ps : List (Option ℕ)) (h : Heap)
    → h.roots ≡ p ∷ ps
    → IsCounted [] h
    → IsCounted (p ∷ []) (record h { roots = ps })
moved-IsCounted p ps h e i = same-IsCounted [] (p ∷ []) h.roots ps h i (λ o. rw e (moves o p ps))

pub destroy-Kept :
    (p : Option ℕ) (ps : List (Option ℕ)) (h : Heap)
    → h.roots ≡ p ∷ ps
    → IsCounted [] h
    → Kept ps (destroy h)
unfolding destroy
destroy-Kept p ps h e i =
    let r =
      release-IsReleased (suc (size h)) (p ∷ []) (record h { roots = ps })
        (moved-IsCounted p ps h e i) (omega (arith, size-roots ps h)) in
    rw (destroy, e) (r.ends_well, r.is_counted, r.same_roots)
