-- ===== src/Tests/SharedPtr.antt =====
-- Heaps of one and two objects (nodebus/core/sharedptr.h).
use jsonbus.Prelude.{
  ◌≡◌, refl, ℕ, true, none, some, [], ◌∷◌, arith, throw, Option, ◌==◌, ◌⊎◌, invalid_class_exception,
  if◌then◌else◌,
}
use jsonbus.SharedPtr.{Heap, Object, release, assign, size, sum_below, set_root, root}
use jsonbus.SharedPtr.Counting.{IsCounted, pointers, occurrences, refs}
use jsonbus.SharedPtr.Release.{IsReleased, release-IsReleased}
use jsonbus.SharedPtr.Pointers.{Kept}
use jsonbus.SharedPtr.Assign.{assign-Kept, let_go}

-- Two roots, each with an object of its own.
abbrev two_objects : ℕ → Option Object
two_objects o =
    if o == 0
    then some (record { class = 4; count = 1; fields = [] })
    else if o == 1
    then some (record { class = 5; count = 1; fields = [] })
    else none

abbrev two_roots : Heap
two_roots = record { object = two_objects; next = 2; roots = some 0 ∷ some 1 ∷ [] }

two_roots-pointers :
    (o : ℕ) → pointers o [] two_roots ≡ (if o == 0 then 1 else if o == 1 then 1 else 0)
unfolding pointers occurrences refs sum_below
two_roots-pointers o = ground arith

two_roots-IsCounted : IsCounted [] two_roots
two_roots-IsCounted = record {
  counted = λ o x e. ground (arith, two_roots-pointers o, e);
  not_dangling = λ o e. ground (arith, two_roots-pointers o, e);
  allocated = λ o x e. ground (arith, e);
  is_small = λ o. ground (arith, two_roots-pointers o);
}

-- `p`, which alone holds the object 0, whose member alone holds the object 1.
abbrev chained : ℕ → Option Object
chained o =
    if o == 0
    then some (record { class = 4; count = 1; fields = some 1 ∷ [] })
    else if o == 1
    then some (record { class = 4; count = 1; fields = [] })
    else none

abbrev chain : Heap
chain = record { object = chained; next = 2; roots = some 0 ∷ [] }

chain-pointers : (o : ℕ) → pointers o [] chain ≡ (if o == 0 then 1 else if o == 1 then 1 else 0)
unfolding pointers occurrences refs sum_below
chain-pointers o = ground arith

chain-IsCounted : IsCounted [] chain
chain-IsCounted = record {
  counted = λ o x e. ground (arith, chain-pointers o, e);
  not_dangling = λ o e. ground (arith, chain-pointers o, e);
  allocated = λ o x e. ground (arith, e);
  is_small = λ o. ground (arith, chain-pointers o);
}

-- Destroying the root of the chain deletes both objects.
abbrev unrooted : Heap
unrooted = record chain { roots = [] }

unrooted-pointers :
    (o : ℕ) → pointers o (some 0 ∷ []) unrooted ≡ (if o == 0 then 1 else if o == 1 then 1 else 0)
unfolding pointers occurrences refs sum_below
unrooted-pointers o = ground arith

unrooted-IsCounted : IsCounted (some 0 ∷ []) unrooted
unrooted-IsCounted = record {
  counted = λ o x e. ground (arith, unrooted-pointers o, e);
  not_dangling = λ o e. ground (arith, unrooted-pointers o, e);
  allocated = λ o x e. ground (arith, e);
  is_small = λ o. ground (arith, unrooted-pointers o);
}

release-IsReleased_example : IsReleased (some 0 ∷ []) unrooted (release 2 (some 0 ∷ []) unrooted)
unfolding size sum_below
release-IsReleased_example =
    release-IsReleased 2 (some 0 ∷ []) unrooted unrooted-IsCounted (omega arith)

assign-Kept_example :
    Kept
      (set_root 0 (root 1 two_roots.roots) two_roots.roots)
      (assign (λ c t. true) 4 0 (root 1 two_roots.roots) two_roots)
    ⊎ (assign (λ c t. true) 4 0 (root 1 two_roots.roots) two_roots
        ≡ ((let_go 0 two_roots).0, throw invalid_class_exception))
assign-Kept_example =
    assign-Kept (λ c t. true) 4 0 1 two_roots two_roots-IsCounted (ground arith) refl
      (λ o. ground (arith, two_roots-pointers o))
