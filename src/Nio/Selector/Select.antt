-- ===== src/Nio/Selector/Select.antt =====
-- The loop of `Selector::select` over the events that `epoll_wait` gave.
use jsonbus.Prelude.{
  append-nil, sym, ◌∙◌, inr, inl, Bool-cases, ℕ, ◌≡◌, refl, ◌==◌, true, false, none, some, arith,
  if◌then◌else◌, List, ◌∷◌, [], ◌++◌, append_assoc, ◌%◌, ◌&&◌,
}
use jsonbus.Dict.{nat_eq, Dict, lookup, remove, contains}
use jsonbus.Nio.Selector.{
  Selector, Step, cancel_all, update_status, set_channel, close_channel, take_out, select_key,
  select_event, select_events, epoll_del,
}
use jsonbus.Nio.Selector.Registry.{
  IsConsistent, unlink, IsLinked-ext, field-update, field-update_same,
}
use jsonbus.Nio.Selector.Cancel.{and_then-none}

-- What `updateStatus` may change of a channel that has no key is `active`.
record Quiet (s : Selector) (r : Step) : Type 0 where
  ends_well : r.1 ≡ none
  same_keys : r.0.keys ≡ s.keys
  same_epoll : r.0.epoll ≡ s.epoll
  same_key : (k : ℕ) → r.0.key k ≡ s.key k
  same_fd : (c : ℕ) → (r.0.channel c).fd ≡ (s.channel c).fd
  same_held : (c : ℕ) → (r.0.channel c).key ≡ (s.channel c).key
  same_next : r.0.next_key ≡ s.next_key
  same_pending : r.0.pending ≡ s.pending

stays_Quiet : (s : Selector) → Quiet s (s, none)
stays_Quiet s = record {
  ends_well = refl;
  same_keys = refl;
  same_epoll = refl;
  same_key = λ k. refl;
  same_fd = λ c. refl;
  same_held = λ c. refl;
  same_next = refl;
  same_pending = refl;
}

cancel_all-none : (ch : ℕ) (s : Selector) → (s.channel ch).key ≡ none → cancel_all ch s ≡ (s, none)
unfolding cancel_all
cancel_all-none ch s e = rw (cancel_all, e) refl

close_channel-Quiet :
    (ch : ℕ) (s : Selector) → (s.channel ch).key ≡ none → Quiet s (close_channel ch s)
unfolding close_channel
close_channel-Quiet ch s e = elim (Bool-cases (s.channel ch).active) [
  | inr n ↦ rw (close_channel, n) (stays_Quiet s)
  | inl y ↦
      let s1 = set_channel ch (record (s.channel ch) { active = false }) s in
      let held =
        field-update_same (λ x. x.key) ch (record (s.channel ch) { active = false }) s.channel in
      rw (close_channel, y, cancel_all-none ch s1 (held ch refl ∙ e))
        (record {
          ends_well = refl;
          same_keys = refl;
          same_epoll = refl;
          same_key = λ k. refl;
          same_fd = λ c.
              field-update_same (λ x. x.fd) ch (record (s.channel ch) { active = false }) s.channel
                c refl;
          same_held = λ c. held c refl;
          same_next = refl;
          same_pending = refl;
        })
]

update_status-Quiet :
    (ch events : ℕ) (s : Selector) → (s.channel ch).key ≡ none → Quiet s (update_status ch events s)
unfolding update_status
update_status-Quiet ch events s e = elim (Bool-cases (events % 2 == 1 && (s.channel ch).at_end)) [
  | inl y ↦ rw (update_status, y) (close_channel-Quiet ch s e)
  | inr n ↦ rw (update_status, n) (stays_Quiet s)
]

-- What an event leaves of the registry.
record SelectedKey (fd k : ℕ) (s : Selector) (r : Step) : Type 0 where
  ends_well : r.1 ≡ none
  is_consistent : IsConsistent r.0
  keys_left : r.0.keys ≡ remove fd s.keys
  epoll_left : r.0.epoll ≡ remove fd s.epoll
  appended : r.0.pending ≡ s.pending ++ k ∷ []

owner_same :
    (s : Selector) (k j : ℕ)
    → (s.key j).channel ≡ (if k == j then (s.key k).channel else (s.key j).channel)
owner_same s k j = elim (Bool-cases (k == j)) [
  | inl y ↦ let m : k ≡ j = ground (arith, y) in rw (y, m) refl
  | inr n ↦ rw n refl
]

take_out-Selected :
    (events k ch : ℕ) (s : Selector)
    → IsConsistent s
    → (s.channel ch).key ≡ some k
    → SelectedKey (s.channel ch).fd k s (
        take_out
          (s.channel ch).fd
          events
          k
          ch
          (record s { epoll = remove (s.channel ch).fd s.epoll }))
unfolding take_out IsConsistent
take_out-Selected events k ch s h e =
    let s1 =
      set_channel ch (record (s.channel ch) { key = none })
        (record s {
          keys = remove (s.channel ch).fd s.keys;
          epoll = remove (s.channel ch).fd s.epoll;
        }) in
    let quiet = update_status-Quiet ch events s1 (
      ground (
        arith,
        field-update (λ x. x.key) ch (record (s.channel ch) { key = none }) s.channel ch,
      )) in
    let s2 = (update_status ch events s1).0 in
    rw (take_out, and_then-none (update_status ch events s1) _ quiet.ends_well)
      (record {
        ends_well = refl;
        is_consistent =
            IsLinked-ext
              (unlink h (λ j. (s.key j).channel) (λ c. if ch == c then none else (s.channel c).key)
                ch k e (λ j. owner_same s k j) (λ c. refl))
              quiet.same_keys quiet.same_epoll
              (λ j.
                field-update_same (λ x. x.channel) k (record (s2.key k) { events = events }) s2.key
                  j refl
                ∙ rw (quiet.same_key j) refl)
              (λ c.
                quiet.same_fd c
                ∙ field-update_same (λ x. x.fd) ch (record (s.channel ch) { key = none }) s.channel
                    c refl)
              (λ c.
                quiet.same_held c
                ∙ field-update (λ x. x.key) ch (record (s.channel ch) { key = none }) s.channel c)
              quiet.same_next;
        keys_left = quiet.same_keys;
        epoll_left = quiet.same_epoll;
        appended = rw quiet.same_pending refl;
      })

select_event-Selected :
    (fd events k : ℕ) (s : Selector)
    → IsConsistent s
    → lookup fd s.keys ≡ some k
    → SelectedKey fd k s (select_event fd events s)
unfolding select_event IsConsistent epoll_del contains
select_event-Selected fd events k s h l =
    let (ch, o, p, q) = h.owned fd k l in
    let w : contains fd s.epoll ≡ true = ground (arith, h.watched fd, l) in
    rw (select_event, epoll_del, w, l, select_key, o, ← p) (take_out-Selected events k ch s h q)

-- The keys of the descriptors that `epoll_wait` reports, each one registered and reported once.
pub data Reported : List (ℕ × ℕ) → List ℕ → Dict ℕ ℕ → Type 0 where
  none_left : {keys : Dict ℕ ℕ} → Reported [] [] keys
  next_one :
      {fd events k : ℕ} {rest : List (ℕ × ℕ)} {ks : List ℕ} {keys : Dict ℕ ℕ}
      → lookup fd keys ≡ some k
      → Reported rest ks (remove fd keys)
      → Reported ((fd, events) ∷ rest) (k ∷ ks) keys

pub record SelectedKeys (ks : List ℕ) (s : Selector) (r : Step) : Type 0 where
  pub ends_well : r.1 ≡ none
  pub is_consistent : IsConsistent r.0
  pub appended : r.0.pending ≡ s.pending ++ ks

-- For the events of different registered descriptors, the loop of select ends without an exception,
-- appends their keys to the pending ones in that order, and leaves the map of keys, the interest
-- list of epoll, the keys and the channels consistent.
pub select_events-Selected :
    (events : List (ℕ × ℕ)) (ks : List ℕ) (s : Selector)
    → IsConsistent s
    → Reported events ks s.keys
    → SelectedKeys ks s (select_events events s)
unfolding select_events
select_events-Selected [] [] s h none_left = record {
  ends_well = refl;
  is_consistent = h;
  appended = sym (append-nil s.pending);
}
select_events-Selected [] (k ∷ ks) s h r = elim r [ ]
select_events-Selected (event ∷ rest) [] s h r = elim r [ ]
select_events-Selected ((fd, ev) ∷ rest) (k ∷ ks2) s h (next_one l more) =
    let one = select_event-Selected fd ev k s h l in
    let s1 = (select_event fd ev s).0 in
    let all = select_events-Selected rest ks2 s1 one.is_consistent (rw one.keys_left more) in
    rw (select_events, and_then-none (select_event fd ev s) (select_events rest) one.ends_well)
      (record {
        ends_well = all.ends_well;
        is_consistent = all.is_consistent;
        appended = all.appended ∙ rw (one.appended) (append_assoc s.pending (k ∷ []) ks2);
      })
