-- ===== src/SharedPtr/Release.antt =====
-- The destructors of nodebus/core/sharedptr.h: they end, and they touch no object that was deleted.
use jsonbus.Prelude.{
  ℕ, zero, suc, ◌+◌, ◌-◌, ◌%◌, ◌^◌, ◌<◌, ◌≤◌, ◌≡◌, refl, ◌∙◌, sym, ap, ◌==◌, true, false, Option,
  none, some, List, [], ◌∷◌, ◌++◌, length, arith, ok, inl, inr, Bool-cases, Option-cases,
  length-append,
}
use jsonbus.SharedPtr.{size, Done, Heap, Object, put_object, lowered, drop_ref, release}
use jsonbus.SharedPtr.Counting.{
  is_at, occurrences, occurrences-append, sum-put, refs, pointers, IsCounted,
}

pub pointers-lowered :
    (o k : ℕ) (x : Object) (ps : List (Option ℕ)) (h : Heap)
    → h.object k ≡ some x
    → k < h.next
    → pointers o ps (put_object k (some (lowered x)) h) + is_at o (some k)
      ≡ pointers o (some k ∷ ps) h
unfolding pointers refs occurrences
pointers-lowered o k x ps h e l =
    omega (arith, sum-put (occurrences o) k x (some (lowered x)) h e l)

pub pointers-deleted :
    (o k : ℕ) (x : Object) (ps : List (Option ℕ)) (h : Heap)
    → h.object k ≡ some x
    → k < h.next
    → pointers o (x.fields ++ ps) (put_object k none h) + is_at o (some k)
      ≡ pointers o (some k ∷ ps) h
unfolding pointers refs occurrences
pointers-deleted o k x ps h e l =
    omega (arith, occurrences-append o x.fields ps, sum-put (occurrences o) k x none h e l)

abbrev pub count_of : Option Object → ℕ
count_of none = 0
count_of (some x) = x.count

pub at_self : (o : ℕ) → is_at o (some o) ≡ 1
at_self o = ground arith

-- The heap that the first destructor of `some k` leaves.
lowered-IsCounted :
    (k : ℕ) (x : Object) (ps : List (Option ℕ)) (h : Heap)
    → h.object k ≡ some x
    → IsCounted (some k ∷ ps) h
    → (x.count == 1) ≡ false
    → IsCounted ps (put_object k (some (lowered x)) h)
lowered-IsCounted k x ps h e i n =
    let p = λ (o : ℕ). pointers-lowered o k x ps h e (i.allocated k x e) in
    record {
      counted = λ o y f. elim (Bool-cases (k == o)) [
        | inl y1 ↦
            let m : k ≡ o = ground (arith, y1) in
            let z : some (lowered x) ≡ some y = simp y1 at f in
            let c : y.count ≡ (x.count + (2 ^ 64 - 1)) % 2 ^ 64 = sym (ap (λ w. count_of w) z) in
            rw (← m) (omega (arith, c, p k, at_self k, i.counted k x e, i.is_small k))
        | inr n1 ↦ ground (arith, n1, f, p o, i.counted o y)
      ];
      not_dangling = λ o f. ground (arith, f, p o, i.not_dangling o);
      allocated = λ o y f. ground (arith, f, i.allocated k x e, i.allocated o y);
      is_small = λ o. omega (arith, p o, i.is_small o);
    }

deleted-IsCounted :
    (k : ℕ) (x : Object) (ps : List (Option ℕ)) (h : Heap)
    → h.object k ≡ some x
    → IsCounted (some k ∷ ps) h
    → (x.count == 1) ≡ true
    → IsCounted (x.fields ++ ps) (put_object k none h)
deleted-IsCounted k x ps h e i n =
    let p = λ (o : ℕ). pointers-deleted o k x ps h e (i.allocated k x e) in
    record {
      counted = λ o y f. ground (arith, f, p o, i.counted o y);
      not_dangling = λ o f. elim (Bool-cases (k == o)) [
        | inl y1 ↦
            let m : k ≡ o = ground (arith, y1) in
            rw (← m) (ground (arith, p k, n, at_self k, i.counted k x e))
        | inr n1 ↦ ground (arith, n1, f, p o, i.not_dangling o)
      ];
      allocated = λ o y f. ground (arith, f, i.allocated o y);
      is_small = λ o. omega (arith, p o, i.is_small o);
    }

pub size-lowered :
    (k : ℕ) (x : Object) (h : Heap)
    → h.object k ≡ some x
    → k < h.next
    → size (put_object k (some (lowered x)) h) ≡ size h
unfolding size
size-lowered k x h e l = omega (arith, sum-put (λ xs. length xs) k x (some (lowered x)) h e l)

pub size-deleted :
    (k : ℕ) (x : Object) (h : Heap)
    → h.object k ≡ some x
    → k < h.next
    → size (put_object k none h) + length x.fields ≡ size h
unfolding size
size-deleted k x h e l = omega (arith, sum-put (λ xs. length xs) k x none h e l)

-- What the destructors leave.
pub record IsReleased (ps : List (Option ℕ)) (h : Heap) (r : Done) : Type 0 where
  pub ends_well : r.1 ≡ ok tt
  pub is_counted : IsCounted [] r.0
  pub no_more : (o : ℕ) → pointers o [] r.0 ≤ pointers o ps h
  pub same_roots : r.0.roots ≡ h.roots
  pub same_next : r.0.next ≡ h.next

pointers-none :
    (o : ℕ) (ps : List (Option ℕ)) (h : Heap) → pointers o (none ∷ ps) h ≡ pointers o ps h
unfolding pointers occurrences
pointers-none o ps h = omega arith

pointers-some : (k : ℕ) (ps : List (Option ℕ)) (h : Heap) → 1 ≤ pointers k (some k ∷ ps) h
unfolding pointers occurrences
pointers-some k ps h = omega (arith, at_self k)

none-IsCounted : (ps : List (Option ℕ)) (h : Heap) → IsCounted (none ∷ ps) h → IsCounted ps h
none-IsCounted ps h i = record {
  counted = λ o x e. i.counted o x e ∙ pointers-none o ps h;
  not_dangling = λ o e. omega (arith, i.not_dangling o e, pointers-none o ps h);
  allocated = i.allocated;
  is_small = λ o. omega (arith, i.is_small o, pointers-none o ps h);
}

through :
    (ps ps2 : List (Option ℕ)) (h h2 : Heap) (r : Done)
    → h2.roots ≡ h.roots
    → h2.next ≡ h.next
    → ((o : ℕ) → pointers o ps2 h2 ≤ pointers o ps h)
    → IsReleased ps2 h2 r
    → IsReleased ps h r
through ps ps2 h h2 r e f m d = record {
  ends_well = d.ends_well;
  is_counted = d.is_counted;
  no_more = λ o. omega (arith, m o, d.no_more o);
  same_roots = d.same_roots ∙ e;
  same_next = d.same_next ∙ f;
}

-- On a heap whose counts are those of its pointers, fewer than 2 ^ 64 for each object, the
-- destructors of the pointers that are to go end within as many steps as there are such pointers and
-- members of objects, touch no object that was deleted, leave the counts right and the roots alone,
-- and no object that has a pointer left is deleted.
pub release-IsReleased :
    (n : ℕ) (ps : List (Option ℕ)) (h : Heap)
    → IsCounted ps h
    → length ps + size h ≤ n
    → IsReleased ps h (release n ps h)
unfolding release drop_ref
release-IsReleased n [] h i l = record {
  ends_well = refl;
  is_counted = i;
  no_more = λ o. omega arith;
  same_roots = refl;
  same_next = refl;
}
release-IsReleased zero (p ∷ ps) h i l = ground (arith, l)
release-IsReleased (suc n) (none ∷ ps) h i l =
    through (none ∷ ps) ps h h (release n ps h) refl refl (λ o. omega (arith, pointers-none o ps h))
      (release-IsReleased n ps h (none-IsCounted ps h i) (omega (arith, l)))
release-IsReleased (suc n) (some k ∷ ps) h i l = elim (Option-cases (h.object k)) [
  | inl e ↦ ground (arith, i.not_dangling k e, pointers-some k ps h)
  | inr (x, e) ↦ elim (Bool-cases (x.count == 1)) [
    | inl y ↦
        let h2 = put_object k none h in
        let m : length (x.fields ++ ps) + size h2 ≤ n =
          omega (arith, l, size-deleted k x h e (i.allocated k x e), length-append x.fields ps) in
        rw (release, e, drop_ref, y)
          (through (some k ∷ ps) (x.fields ++ ps) h h2 (release n (x.fields ++ ps) h2) refl refl
            (λ o. omega (arith, pointers-deleted o k x ps h e (i.allocated k x e)))
            (release-IsReleased n (x.fields ++ ps) h2 (deleted-IsCounted k x ps h e i y) m))
    | inr y ↦
        let h2 = put_object k (some (lowered x)) h in
        let m : length ps + size h2 ≤ n =
          omega (arith, l, size-lowered k x h e (i.allocated k x e)) in
        rw (release, e, drop_ref, y)
          (through (some k ∷ ps) ps h h2 (release n ps h2) refl refl
            (λ o. omega (arith, pointers-lowered o k x ps h e (i.allocated k x e)))
            (release-IsReleased n ps h2 (lowered-IsCounted k x ps h e i y) m))
  ]
]

-- The destructors read no root.
pub release_roots :
    (n : ℕ) (ps rs : List (Option ℕ)) (h : Heap)
    → release n ps (record h { roots = rs })
      ≡ (record ((release n ps h).0) { roots = rs }, (release n ps h).1)
unfolding release drop_ref
release_roots n [] rs h = refl
release_roots zero (p ∷ ps) rs h = refl
release_roots (suc n) (none ∷ ps) rs h = release_roots n ps rs h
release_roots (suc n) (some k ∷ ps) rs h = elim (Option-cases (h.object k)) [
  | inl e ↦ rw (release, e) refl
  | inr (x, e) ↦ elim (Bool-cases (x.count == 1)) [
    | inl y ↦
        rw (release, e, drop_ref, y) (release_roots n (x.fields ++ ps) rs (put_object k none h))
    | inr y ↦
        rw (release, e, drop_ref, y) (release_roots n ps rs (put_object k (some (lowered x)) h))
  ]
]
