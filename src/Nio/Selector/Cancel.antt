-- ===== src/Nio/Selector/Cancel.antt =====
-- `SelectionKey::cancel`, `Channel::closeChannel` and `Channel::registerTo`: what they leave.
use jsonbus.Prelude.{
  ◌+◌, ◌^◌, ◌∙◌, Option-cases, inr, inl, Bool-cases, ℕ, ◌≡◌, refl, ◌==◌, true, false, none, some,
  arith, if◌then◌else◌,
}
use jsonbus.Dict.{nat_eq, lookup, remove, contains, lookup-insert}
use jsonbus.Nio.Selector.{
  flags, and_then, Selector, Step, cancel_all, cancel, remove_key, detach, epoll_del, set_channel,
  close_channel, register_to, new_key, put, epoll_add, key_for,
}
use jsonbus.Nio.Selector.Registry.{
  IsConsistent, unlink, link, IsLinked-ext, field-update, field-update_same,
}

-- What is left when the channel `ch` leaves the registry.
pub record Left (ch : ℕ) (s : Selector) (r : Step) : Type 0 where
  pub ends_well : r.1 ≡ none
  pub is_consistent : IsConsistent r.0
  pub is_out : key_for ch r.0 ≡ none
  pub same_fd : (c : ℕ) → (r.0.channel c).fd ≡ (s.channel c).fd
  pub same_key : (c : ℕ) → (ch == c) ≡ false → key_for c r.0 ≡ key_for c s
  pub same_next : r.0.next_key ≡ s.next_key

cancelled : ℕ → ℕ → Selector → Selector
cancelled k ch s =
    detach k ch (record s {
      keys = remove (s.channel ch).fd s.keys;
      epoll = remove (s.channel ch).fd s.epoll;
    })

cancel_all-eq :
    (ch k : ℕ) (s : Selector)
    → IsConsistent s
    → (s.channel ch).key ≡ some k
    → cancel_all ch s ≡ (cancelled k ch s, none)
unfolding cancel_all cancel remove_key epoll_del IsConsistent cancelled contains
cancel_all-eq ch k s h e =
    let (l, o) = h.listed ch k e in
    let w : contains (s.channel ch).fd s.epoll ≡ true =
      ground (arith, h.watched (s.channel ch).fd, l) in
    rw (cancel_all, e, cancel, o, remove_key, epoll_del, w) refl

cancelled-Left :
    (ch k : ℕ) (s : Selector)
    → IsConsistent s
    → (s.channel ch).key ≡ some k
    → Left ch s (cancelled k ch s, none)
unfolding cancelled detach IsConsistent key_for
cancelled-Left ch k s h e = record {
  same_next = refl;
  ends_well = refl;
  is_consistent =
      IsLinked-ext
        (unlink h (λ j. if k == j then none else (s.key j).channel)
          (λ c. if ch == c then none else (s.channel c).key) ch k e (λ j. ground arith) (λ c. refl))
        refl refl (field-update (λ x. x.channel) k (record (s.key k) { channel = none }) s.key)
        (λ c.
          field-update_same (λ x. x.fd) ch (record (s.channel ch) { key = none }) s.channel c refl)
        (field-update (λ x. x.key) ch (record (s.channel ch) { key = none }) s.channel) refl;
  is_out =
      ground
        (arith, field-update (λ x. x.key) ch (record (s.channel ch) { key = none }) s.channel ch);
  same_fd =
      λ c. field-update_same (λ x. x.fd) ch (record (s.channel ch) { key = none }) s.channel c refl;
  same_key = λ c n.
      ground
        (arith, n, field-update (λ x. x.key) ch (record (s.channel ch) { key = none }) s.channel c);
}

pub cancel_all-Left : (ch : ℕ) (s : Selector) → IsConsistent s → Left ch s (cancel_all ch s)
unfolding key_for cancel_all
cancel_all-Left ch s h = elim (Option-cases (s.channel ch).key) [
  | inl n ↦
      rw (cancel_all, n)
        (record {
          ends_well = refl;
          is_consistent = h;
          is_out = n;
          same_next = refl;
          same_fd = λ c. refl;
          same_key = λ c n. refl;
        })
  | inr (k, e) ↦ rw (cancel_all-eq ch k s h e) (cancelled-Left ch k s h e)
]

cancel_all-active :
    (ch : ℕ) (s : Selector) (c : ℕ)
    → IsConsistent s
    → ((cancel_all ch s).0.channel c).active ≡ (s.channel c).active
unfolding cancel_all cancelled detach
cancel_all-active ch s c h = elim (Option-cases (s.channel ch).key) [
  | inl n ↦ rw (cancel_all, n) refl
  | inr (k, e) ↦
      rw (cancel_all-eq ch k s h e) (
        field-update_same (λ x. x.active) ch (record (s.channel ch) { key = none }) s.channel c
          refl)
]

-- A field of the channel changes that the registry does not name.
set_active-IsConsistent :
    (ch : ℕ) (s : Selector)
    → IsConsistent s
    → IsConsistent (set_channel ch (record (s.channel ch) { active = false }) s)
unfolding IsConsistent
set_active-IsConsistent ch s h =
    IsLinked-ext h refl refl (λ k. refl)
      (λ c.
        field-update_same (λ x. x.fd) ch (record (s.channel ch) { active = false }) s.channel c
          refl)
      (λ c.
        field-update_same (λ x. x.key) ch (record (s.channel ch) { active = false }) s.channel c
          refl)
      refl

-- `closeChannel` on an active channel.
close_channel-Left :
    (ch : ℕ) (s : Selector)
    → IsConsistent s
    → (s.channel ch).active ≡ true
    → Left ch s (close_channel ch s)
unfolding key_for close_channel
close_channel-Left ch s h a =
    let s1 = set_channel ch (record (s.channel ch) { active = false }) s in
    let l = cancel_all-Left ch s1 (set_active-IsConsistent ch s h) in
    rw (close_channel, a)
      (record {
        ends_well = l.ends_well;
        is_consistent = l.is_consistent;
        is_out = l.is_out;
        same_next = l.same_next;
        same_fd = λ c.
            l.same_fd c
            ∙ field-update_same (λ x. x.fd) ch (record (s.channel ch) { active = false }) s.channel
                c refl;
        same_key = λ c n.
            l.same_key c n
            ∙ field-update_same (λ x. x.key) ch (record (s.channel ch) { active = false }) s.channel
                c refl;
      })

-- What `registerTo` comes to.
pub record Registered (ch : ℕ) (s : Selector) (r : Step) : Type 0 where
  pub ends_well : r.1 ≡ none
  pub is_consistent : IsConsistent r.0
  pub has_key : key_for ch r.0 ≡ some s.next_key
  pub is_found : lookup (r.0.channel ch).fd r.0.keys ≡ some s.next_key
  pub same_fd : (c : ℕ) → (r.0.channel c).fd ≡ (s.channel c).fd
  pub same_key : (c : ℕ) → (ch == c) ≡ false → key_for c r.0 ≡ key_for c s
  pub same_active : (c : ℕ) → (r.0.channel c).active ≡ (s.channel c).active

-- No other channel is registered for the descriptor.
unfoldable pub IsAlone : ℕ → Selector → Type 0
IsAlone ch s = (c k : ℕ) → key_for c s ≡ some k → (s.channel c).fd ≡ (s.channel ch).fd → ch ≡ c

free_fd :
    (ch : ℕ) (s : Selector)
    → IsConsistent s
    → IsAlone ch s
    → key_for ch s ≡ none
    → lookup (s.channel ch).fd s.keys ≡ none
unfolding IsConsistent IsAlone key_for
free_fd ch s h a e = elim (Option-cases (lookup (s.channel ch).fd s.keys)) [
  | inl n ↦ n
  | inr (k, l) ↦
      let (c, o, p, q) = h.owned (s.channel ch).fd k l in
      let m = a c k q p in ground (arith, e, q, m)
]

new_key-Registered :
    (ch events attachment : ℕ) (s : Selector)
    → IsConsistent s
    → IsAlone ch s
    → key_for ch s ≡ none
    → (s.channel ch).active ≡ true
    → Registered ch s (new_key ch events attachment s)
unfolding IsConsistent key_for new_key
new_key-Registered ch events attachment s h a e o =
    let f = (s.channel ch).fd in
    let l = free_fd ch s h a e in
    let w : contains f s.epoll ≡ false = ground (arith, h.watched f, l) in
    rw (new_key, put, epoll_add, w, o)
      (record {
        ends_well = refl;
        is_consistent =
            IsLinked-ext
              (link h (λ j. if s.next_key == j then some ch else (s.key j).channel)
                (λ c. if ch == c then some s.next_key else (s.channel c).key) ch l
                (flags events + 2 ^ 31) (λ j. refl) (λ c. refl))
              refl refl
              (field-update (λ x. x.channel) s.next_key
                (record { channel = some ch; events = 0; attachment = attachment }) s.key)
              (λ c.
                field-update_same (λ x. x.fd) ch (record (s.channel ch) { key = some s.next_key })
                  s.channel c refl)
              (field-update (λ x. x.key) ch (record (s.channel ch) { key = some s.next_key })
                s.channel)
              refl;
        has_key = ground (
          arith,
          field-update (λ x. x.key) ch (record (s.channel ch) { key = some s.next_key }) s.channel
              ch,
        );
        is_found =
            rw
              (field-update_same (λ x. x.fd) ch (record (s.channel ch) { key = some s.next_key })
                s.channel ch refl)
              (ground (arith, lookup-insert f f s.next_key s.keys));
        same_fd = λ c.
            field-update_same (λ x. x.fd) ch (record (s.channel ch) { key = some s.next_key })
              s.channel c refl;
        same_key = λ c n. ground (
          arith,
          n,
          field-update (λ x. x.key) ch (record (s.channel ch) { key = some s.next_key }) s.channel
              c,
        );
        same_active = λ c.
            field-update_same (λ x. x.active) ch (record (s.channel ch) { key = some s.next_key })
              s.channel c refl;
      })

pub and_then-none : (r : Step) (f : Selector → Step) → r.1 ≡ none → and_then r f ≡ f r.0
and_then-none (s, none) f e = refl
and_then-none (s, some x) f e = cc

IsAlone-Left : (ch : ℕ) (s : Selector) → IsAlone ch s → (r : Step) → Left ch s r → IsAlone ch r.0
unfolding IsAlone
IsAlone-Left ch s a r l c k e f = elim (Bool-cases (ch == c)) [
  | inl y ↦ ground (arith, y)
  | inr n ↦ a c k (ground (arith, l.same_key c n, e)) (ground (arith, l.same_fd c, l.same_fd ch, f))
]

-- Registering an active channel, whose descriptor no other channel is registered for, with a
-- consistent selector succeeds, replaces the key that it had, makes the new one the key of the
-- channel and of its descriptor, keeps the keys of the other channels, and leaves the map of keys,
-- the interest list of epoll, the keys and the channels consistent.
pub register_to-Registered :
    (ch events attachment : ℕ) (s : Selector)
    → IsConsistent s
    → IsAlone ch s
    → (s.channel ch).active ≡ true
    → Registered ch s (register_to ch events attachment s)
unfolding register_to
register_to-Registered ch events attachment s h a o =
    let l = cancel_all-Left ch s h in
    let s1 = (cancel_all ch s).0 in
    let r =
      new_key-Registered ch events attachment s1 l.is_consistent
        (IsAlone-Left ch s a (cancel_all ch s) l) l.is_out (cancel_all-active ch s ch h ∙ o) in
    rw
      (
        register_to,
        and_then-none (cancel_all ch s) (λ x. new_key ch events attachment x) l.ends_well,
      )
      (record {
        ends_well = r.ends_well;
        is_consistent = r.is_consistent;
        has_key = r.has_key ∙ rw l.same_next refl;
        is_found = r.is_found ∙ rw l.same_next refl;
        same_fd = λ c. r.same_fd c ∙ l.same_fd c;
        same_key = λ c n. r.same_key c n ∙ l.same_key c n;
        same_active = λ c. r.same_active c ∙ cancel_all-active ch s c h;
      })
