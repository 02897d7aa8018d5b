-- ===== src/Dict.antt =====
-- QMap as an association list with one entry to a key. The order of the entries is not that of QMap;
-- it stands where only lookups matter. Keys are compared by a test that decides equality.
use jsonbus.Prelude.{
  ℕ, ◌≡◌, refl, ◌↔◌, Bool, true, false, List, [], ◌∷◌, Option, none, some, arith, if◌then◌else◌,
  ◌==◌,
}

-- A test of equality.
pub record Eq {ℓ} (K : Type ℓ) : Type ℓ where
  pub same : K → K → Bool
  pub same_iff : (a b : K) → (same a b ≡ true) ↔ (a ≡ b)

pub nat_same_iff : (a b : ℕ) → ((a == b) ≡ true) ↔ (a ≡ b)
nat_same_iff a b = ground arith

instance abbrev pub nat_eq : Eq ℕ
nat_eq = record { same = λ a b. a == b; same_iff = nat_same_iff }

abbrev pub text_same : List ℕ → List ℕ → Bool
text_same [] [] = true
text_same [] (b ∷ bs) = false
text_same (a ∷ as') [] = false
text_same (a ∷ as') (b ∷ bs) = if a == b then text_same as' bs else false

text_same-eq : (a b : List ℕ) → text_same a b ≡ true → a ≡ b
text_same-eq [] [] h = refl
text_same-eq [] (b ∷ bs) h = cc
text_same-eq (a ∷ as') [] h = cc
text_same-eq (a ∷ as') (b ∷ bs) h = ground (arith, text_same-eq as' bs)

text_same_self : (a : List ℕ) → text_same a a ≡ true
text_same_self [] = refl
text_same_self (a ∷ as') = ground (arith, text_same_self as')

pub text_same_iff : (a b : List ℕ) → (text_same a b ≡ true) ↔ (a ≡ b)
text_same_iff a b = (text_same-eq a b, λ e. rw (← e) (text_same_self a))

instance abbrev pub text_eq : Eq (List ℕ)
text_eq = record { same = text_same; same_iff = text_same_iff }

pub same_self {ℓ} : {K : Type ℓ} ⦃e : Eq K⦄ (k : K) → e.same k k ≡ true
same_self ⦃e⦄ k = (e.same_iff k k).1 refl

abbrev pub Dict {ℓ κ} : Type ℓ → Type κ → Type (ℓ ⊔ κ)
Dict K V = List (K × V)

module _ {ℓ κ} {K : Type ℓ} {V : Type κ} ⦃e : Eq K⦄ where
  -- `find`
  unfoldable pub lookup : K → Dict K V → Option V
  lookup k [] = none
  lookup k ((j, v) ∷ d) = if e.same j k then some v else lookup k d

  -- `map[k] = v` and `insert`
  unfoldable pub insert : K → V → Dict K V → Dict K V
  insert k v [] = (k, v) ∷ []
  insert k v ((j, w) ∷ d) = if e.same j k then (j, v) ∷ d else (j, w) ∷ insert k v d

  -- `remove`; a key that is not there changes nothing.
  unfoldable pub remove : K → Dict K V → Dict K V
  remove k [] = []
  remove k ((j, w) ∷ d) = if e.same j k then remove k d else (j, w) ∷ remove k d

  unfoldable pub contains : K → Dict K V → Bool
  unfolding lookup
  contains k d = elim (lookup k d) [ none ↦ false | some _ ↦ true ]

  pub lookup-insert :
      (j k : K) (v : V) (d : Dict K V)
      → lookup j (insert k v d) ≡ (if e.same k j then some v else lookup j d)
  unfolding lookup insert
  lookup-insert j k v [] = refl
  lookup-insert j k v ((i, w) ∷ d) =
      ground (arith, e.same_iff i k, e.same_iff i j, e.same_iff k j, lookup-insert j k v d)

  pub lookup-remove :
      (j k : K) (d : Dict K V) → lookup j (remove k d) ≡ (if e.same k j then none else lookup j d)
  unfolding lookup remove
  lookup-remove j k [] = ground arith
  lookup-remove j k ((i, w) ∷ d) =
      ground (arith, e.same_iff i k, e.same_iff i j, e.same_iff k j, lookup-remove j k d)

  pub contains-insert :
      (j k : K) (v : V) (d : Dict K V)
      → contains j (insert k v d) ≡ (if e.same k j then true else contains j d)
  unfolding contains
  contains-insert j k v d = ground (arith, lookup-insert j k v d)

  pub contains-remove :
      (j k : K) (d : Dict K V)
      → contains j (remove k d) ≡ (if e.same k j then false else contains j d)
  unfolding contains
  contains-remove j k d = ground (arith, lookup-remove j k d)
