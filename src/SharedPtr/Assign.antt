-- ===== src/SharedPtr/Assign.antt =====
-- `operator=` of nodebus/core/sharedptr.h: it keeps the counts where another root holds the new object.
use jsonbus.Prelude.{
  invalid_class_exception, ◌⊎◌, ℕ, zero, suc, ◌+◌, ◌^◌, ◌<◌, ◌≡◌, refl, ◌∙◌, sym, ap, ◌==◌, Bool,
  true, false, Option, none, some, List, [], ◌∷◌, length, arith, ok, throw, undefined, out_of_fuel,
  inl, inr, Bool-cases, Option-cases,
}
use jsonbus.SharedPtr.{
  size, Heap, Object, Done, release, root, set_root, same_data, retain, assign_new, assign,
}
use jsonbus.SharedPtr.Counting.{is_at, occurrences, refs, pointers, IsCounted}
use jsonbus.SharedPtr.Release.{IsReleased, release-IsReleased, release_roots, at_self}
use jsonbus.SharedPtr.Pointers.{
  Kept, IsSound, retain-Kept, same-IsCounted, occurrences-set_root, occurrences-root, size-roots,
}

pub same_data-eq : (a b : Option ℕ) → same_data a b ≡ true → a ≡ b
unfolding same_data
same_data-eq none none e = refl
same_data-eq none (some b) e = cc
same_data-eq (some a) none e = cc
same_data-eq (some a) (some b) e = ap some (ground (arith, e))

set_root-root : (i : ℕ) (rs : List (Option ℕ)) → set_root i (root i rs) rs ≡ rs
unfolding set_root root
set_root-root i [] = refl
set_root-root zero (p ∷ ps) = refl
set_root-root (suc i) (p ∷ ps) = ap (λ z. p ∷ z) (set_root-root i ps)

root-set_root :
    (i j : ℕ) (v : Option ℕ) (rs : List (Option ℕ))
    → (i == j) ≡ false
    → root j (set_root i v rs) ≡ root j rs
unfolding set_root root
root-set_root i j v [] n = refl
root-set_root zero zero v (p ∷ ps) n = ground (arith, n)
root-set_root zero (suc j) v (p ∷ ps) n = refl
root-set_root (suc i) zero v (p ∷ ps) n = refl
root-set_root (suc i) (suc j) v (p ∷ ps) n = root-set_root i j v ps (ground (arith, n))

-- What a root points to is there.
pub rooted :
    (j o : ℕ) (h : Heap)
    → IsCounted [] h
    → root j h.roots ≡ some o
    → (x : Object) × (h.object o ≡ some x)
unfolding pointers occurrences
rooted j o h i e = elim (Option-cases (h.object o)) [
  | inl n ↦
      let a : is_at o (root j h.roots) ≡ 1 = rw e (at_self o) in
      ground (arith, a, i.not_dangling o n, occurrences-root o j h.roots)
  | inr x ↦ x
]

pub assign_new-ok :
    (derives : ℕ → ℕ → Bool) (t i : ℕ) (v : Option ℕ) (r : Done)
    → r.1 ≡ ok tt
    → assign_new derives t i v r
      ≡ retain derives t v (λ h1. record h1 { roots = set_root i v h1.roots }) r.0
unfolding assign_new
assign_new-ok derives t i v (h, ok u) e = refl
assign_new-ok derives t i v (h, throw x) e = cc
assign_new-ok derives t i v (h, undefined) e = cc
assign_new-ok derives t i v (h, out_of_fuel) e = cc

-- The heap in which the old object is let go, read with a null root.
unfoldable pub let_go : ℕ → Heap → Done
let_go i h = release (suc (size h)) (root i h.roots ∷ []) h

moved_root :
    (o i : ℕ) (rs : List (Option ℕ))
    → i < length rs
    → occurrences o (root i rs ∷ []) + occurrences o (set_root i none rs)
      ≡ occurrences o [] + occurrences o rs
unfolding occurrences
moved_root o i rs l = omega (arith, occurrences-set_root o i none rs l)

pub let_go-Released :
    (i : ℕ) (h : Heap)
    → i < length h.roots
    → IsCounted [] h
    → IsReleased
        (root i h.roots ∷ [])
        (record h { roots = set_root i none h.roots })
        (record ((let_go i h).0) { roots = set_root i none h.roots }, (let_go i h).1)
unfolding let_go
let_go-Released i h l c =
    let rs = set_root i none h.roots in
    let c0 : IsCounted (root i h.roots ∷ []) (record h { roots = rs }) =
      same-IsCounted [] (root i h.roots ∷ []) h.roots rs h c (λ o. moved_root o i h.roots l) in
    rw (← release_roots (suc (size h)) (root i h.roots ∷ []) rs h) (
      release-IsReleased (suc (size h)) (root i h.roots ∷ []) (record h { roots = rs }) c0
        (omega (arith, size-roots rs h)))

let_go_roots : (i : ℕ) (h : Heap) → (let_go i h).0.roots ≡ h.roots
unfolding let_go
let_go_roots i h =
    ap (λ r. r.0.roots) (release_roots (suc (size h)) (root i h.roots ∷ []) h.roots h)

still :
    (o i : ℕ) (h : Heap)
    → i < length h.roots
    → pointers o (root i h.roots ∷ []) (record h { roots = set_root i none h.roots })
      ≡ pointers o [] h
unfolding pointers refs
still o i h l = omega (arith, moved_root o i h.roots l)

-- The new object outlives the old one: another root holds it.
let_go-IsSound :
    (i j : ℕ) (v : Option ℕ) (h : Heap)
    → i < length h.roots
    → IsCounted [] h
    → (i == j) ≡ false
    → root j h.roots ≡ v
    → ((o : ℕ) → pointers o [] h + 1 < 2 ^ 64)
    → IsSound v (record ((let_go i h).0) { roots = set_root i none h.roots })
let_go-IsSound i j v h l c n e b =
    let r = let_go-Released i h l c in
    let e2 : root j (set_root i none h.roots) ≡ v = root-set_root i j none h.roots n ∙ e in
    record {
      is_live = λ o f.
          rooted j o (record ((let_go i h).0) { roots = set_root i none h.roots }) r.is_counted
            (e2 ∙ f);
      has_room = λ o f. omega (arith, r.no_more o, b o, still o i h l);
    }

-- On a heap whose counts are those of its pointers, fewer than 2 ^ 64 - 1 for each object, assigning
-- one root to another ends without touching a deleted object: the root has the new pointer and the
-- counts are right, or InvalidClassException is thrown after the old object was let go.
pub assign-Kept :
    (derives : ℕ → ℕ → Bool) (t i j : ℕ) (h : Heap)
    → IsCounted [] h
    → i < length h.roots
    → (i == j) ≡ false
    → ((o : ℕ) → pointers o [] h + 1 < 2 ^ 64)
    → Kept (set_root i (root j h.roots) h.roots) (assign derives t i (root j h.roots) h)
      ⊎ (assign derives t i (root j h.roots) h ≡ ((let_go i h).0, throw invalid_class_exception))
unfolding assign let_go
assign-Kept derives t i j h c l n b =
    elim (Bool-cases (same_data (root i h.roots) (root j h.roots))) [
      | inl y ↦ inl (
          rw (assign, y)
            (
              refl,
              c,
              sym (
                  rw (← same_data-eq (root i h.roots) (root j h.roots) y)
                    (set_root-root i h.roots)),
            ))
      | inr m ↦
          let v = root j h.roots in
          let r = let_go-Released i h l c in
          let g = let_go i h in
          let s = let_go-IsSound i j v h l c n refl b in
          rw (assign, m, assign_new-ok derives t i v g r.ends_well)
            (retain-Kept derives t v (set_root i none h.roots) (set_root i v h.roots)
              (λ h1. record h1 { roots = set_root i v h1.roots }) g.0
              (ap (λ z. record (g.0) { roots = set_root i v z }) (let_go_roots i h)) r.is_counted s
              (λ o. omega (
                arith,
                occurrences-set_root o i v h.roots l,
                occurrences-set_root o i none h.roots l,
              )))
    ]
