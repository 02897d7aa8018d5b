-- ===== src/Nio/Selector/Registry.antt =====
-- The registry of nodebus/nio/selector.cpp: the map of keys, the interest list of epoll, the channel of a
-- key and the key of a channel are four views of the same registrations.
use jsonbus.Prelude.{
  inr, inl, Bool-cases, ℕ, suc, ◌<◌, ◌≡◌, refl, ◌==◌, false, Option, none, some, arith,
  if◌then◌else◌,
}
use jsonbus.Dict.{
  nat_eq, Dict, lookup, insert, remove, contains, lookup-insert, lookup-remove, contains-insert,
  contains-remove,
}
use jsonbus.Nio.Selector.{Selector, update}

-- The channel, its descriptor and its key that a number stands for are given as functions.
pub record IsLinked (keys epoll : Dict ℕ ℕ) (owner : ℕ → Option ℕ) (fd : ℕ → ℕ)
    (held : ℕ → Option ℕ) (next : ℕ) : Type 0 where
  pub owned :
      (f k : ℕ)
      → lookup f keys ≡ some k
      → (c : ℕ) × (owner k ≡ some c) × (fd c ≡ f) × (held c ≡ some k)
  pub listed : (c k : ℕ) → held c ≡ some k → lookup (fd c) keys ≡ some k × (owner k ≡ some c)
  pub watched : (f : ℕ) → contains f keys ≡ contains f epoll
  pub fresh : (f k : ℕ) → lookup f keys ≡ some k → k < next

module _ {keys epoll : Dict ℕ ℕ} {owner : ℕ → Option ℕ} {fd : ℕ → ℕ} {held : ℕ → Option ℕ}
    {next : ℕ} (h : IsLinked keys epoll owner fd held next) (owner2 : ℕ → Option ℕ)
    (held2 : ℕ → Option ℕ) (ch : ℕ) where
  -- An entry that is left is another one.
  stays :
      (f k j : ℕ)
      → held ch ≡ some k
      → lookup f (remove (fd ch) keys) ≡ some j
      → (lookup f keys ≡ some j) × ((k == j) ≡ false) × ((fd ch == f) ≡ false)
  stays f k j hc e = elim (Bool-cases (fd ch == f)) [
    | inl y ↦ ground (arith, y, e, lookup-remove f (fd ch) keys)
    | inr n ↦
        let l : lookup f keys ≡ some j = ground (arith, n, e, lookup-remove f (fd ch) keys) in
        let (c, o, p, q) = h.owned f j l in (l, ground (arith, h.listed ch k hc, o, p, n), n)
  ]

  pub unlink :
      (k : ℕ)
      → held ch ≡ some k
      → ((j : ℕ) → owner2 j ≡ (if k == j then owner2 k else owner j))
      → ((c : ℕ) → held2 c ≡ (if ch == c then none else held c))
      → IsLinked (remove (fd ch) keys) (remove (fd ch) epoll) owner2 fd held2 next
  unlink k hc ho hh = record {
    owned = λ f j e.
        let (l, n, m) = stays f k j hc e in
        let (c, o, p, q) = h.owned f j l in
        (c, ground (arith, ho j, n, o), p, ground (arith, hh c, q, m, p));
    listed = λ c j e.
        let (l, o) = h.listed c j (ground (arith, hh c, e)) in
        let (l2, o2) = h.listed ch k hc in
        let n : (ch == c) ≡ false = ground (arith, hh c, e) in
        let m : (k == j) ≡ false = ground (arith, o, o2, n) in
        (ground (arith, lookup-remove (fd c) (fd ch) keys, l, l2, m), ground (arith, ho j, m, o));
    watched = λ f.
        ground
          (arith, h.watched f, contains-remove f (fd ch) keys, contains-remove f (fd ch) epoll);
    fresh = λ f j e. h.fresh f j (stays f k j hc e).0;
  }

  pub link :
      lookup (fd ch) keys ≡ none
      → (events : ℕ) → ((j : ℕ) → owner2 j ≡ (if next == j then some ch else owner j))
      → ((c : ℕ) → held2 c ≡ (if ch == c then some next else held c))
      → IsLinked (insert (fd ch) next keys) (insert (fd ch) events epoll) owner2 fd held2 (suc next)
  link hn events ho hh = record {
    owned = λ f j e. elim (Bool-cases (fd ch == f)) [
      | inl y ↦
          let m : j ≡ next = ground (arith, e, y, lookup-insert f (fd ch) next keys) in
          (ch, ground (arith, ho j, m), ground (arith, y), ground (arith, hh ch, m))
      | inr n ↦
          let l : lookup f keys ≡ some j =
            ground (arith, e, n, lookup-insert f (fd ch) next keys) in
          let (c, o, p, q) = h.owned f j l in
          (c, ground (arith, ho j, h.fresh f j l, o), p, ground (arith, hh c, q, n, p))
    ];
    listed = λ c j e. elim (Bool-cases (ch == c)) [
      | inl y ↦ ground (arith, e, y, hh c, ho j, lookup-insert (fd c) (fd ch) next keys)
      | inr n ↦
          let (l, o) = h.listed c j (ground (arith, hh c, n, e)) in
          let m : (fd ch == fd c) ≡ false = ground (arith, l, hn) in
          (
            ground (arith, lookup-insert (fd c) (fd ch) next keys, l, m),
            ground (arith, ho j, h.fresh (fd c) j l, o),
          )
    ];
    watched = λ f. ground (
      arith,
      h.watched f,
      contains-insert f (fd ch) next keys,
      contains-insert f (fd ch) events epoll,
    );
    fresh = λ f j e. ground (arith, e, lookup-insert f (fd ch) next keys, h.fresh f j);
  }

-- The registry may be read through other functions with the same values.
pub IsLinked-ext :
    {keys keys2 epoll epoll2 : Dict ℕ ℕ} {owner owner2 : ℕ → Option ℕ} {fd fd2 : ℕ → ℕ}
    {held held2 : ℕ → Option ℕ} {next next2 : ℕ}
    → IsLinked keys epoll owner fd held next
    → keys2 ≡ keys
    → epoll2 ≡ epoll
    → ((k : ℕ) → owner2 k ≡ owner k)
    → ((c : ℕ) → fd2 c ≡ fd c)
    → ((c : ℕ) → held2 c ≡ held c)
    → next2 ≡ next
    → IsLinked keys2 epoll2 owner2 fd2 held2 next2
IsLinked-ext h ek ee ho hf hh en = record {
  owned = λ f j e.
      let (c, o, p, q) = h.owned f j (rw (← ek) e) in
      (c, ground (arith, ho j, o), ground (arith, hf c, p), ground (arith, hh c, q));
  listed = λ c j e.
      let (l, o) = h.listed c j (ground (arith, hh c, e)) in
      (rw (ek, hf c) l, ground (arith, ho j, o));
  watched = λ f. rw (ek, ee) (h.watched f);
  fresh = λ f j e. rw (en) (h.fresh f j (rw (← ek) e));
}

-- A field of what an update leaves.
pub field-update {ℓ κ} :
    {A : Type ℓ} {B : Type κ} (P : A → B) (k : ℕ) (x : A) (f : ℕ → A) (j : ℕ)
    → P (update k x f j) ≡ (if k == j then P x else P (f j))
field-update P k x f j = elim (Bool-cases (k == j)) [ inl y ↦ rw y refl | inr n ↦ rw n refl ]

pub field-update_same {ℓ κ} :
    {A : Type ℓ} {B : Type κ} (P : A → B) (k : ℕ) (x : A) (f : ℕ → A) (j : ℕ)
    → P x ≡ P (f k)
    → P (update k x f j) ≡ P (f j)
field-update_same P k x f j e = elim (Bool-cases (k == j)) [
  | inl y ↦ let m : k ≡ j = ground (arith, y) in rw (y, ← m) e
  | inr n ↦ rw n refl
]

-- The registry of a selector.
unfoldable pub IsConsistent : Selector → Type 0
IsConsistent s =
    IsLinked s.keys s.epoll (λ k. (s.key k).channel) (λ c. (s.channel c).fd)
      (λ c. (s.channel c).key) s.next_key
