-- ===== src/Nio/PeerAdmin/Serving.antt =====
-- `PeerAdmin::processServer` (nodebus/nio/peeradmin.cpp): a server goes on being waited for.
use jsonbus.Prelude.{
  ℕ, ◌≡◌, ◌≢◌, ap, sym, ◌∙◌, false, none, some, ◌==◌, arith, Bool-cases, inl, inr,
}
use jsonbus.Nio.Selector.{Selector, Step, register_to, key_for}
use jsonbus.Nio.Selector.Registry.{IsConsistent}
use jsonbus.Nio.Selector.Cancel.{Registered, register_to-Registered, IsAlone}
use jsonbus.Nio.PeerAdmin.{
  true, PeerAdmin, Accepted, connects, fails, Turned, process_server, accept,
}

-- The channel of a new connection is active and has a descriptor of its own.
unfoldable pub IsNew : ℕ → Accepted → Selector → Type 0
IsNew socket (fails e) s = Unit
IsNew socket (connects channel peer) s =
    IsAlone channel s
    × ((s.channel channel).active ≡ true)
    × ((s.channel channel).fd ≢ (s.channel socket).fd)

-- The selector goes on waiting for the server and waits for the channel of the connection, if there is one.
pub record IsServed (socket : ℕ) (accepted : Accepted) (t : Turned) : Type 0 where
  pub ends_well : t.1 ≡ none
  pub is_consistent : IsConsistent t.0.selector
  pub waits_for_server : (k : ℕ) × (key_for socket t.0.selector ≡ some k)
  pub waits_for_client :
      (channel peer : ℕ)
      → accepted ≡ connects channel peer
      → (k : ℕ) × (key_for channel t.0.selector ≡ some k)

other_fd : (s : Selector) (a b : ℕ) → (s.channel a).fd ≢ (s.channel b).fd → (b == a) ≡ false
other_fd s a b n = elim (Bool-cases (b == a)) [
  | inl y ↦ let m : b ≡ a = ground (arith, y) in absurd (n (ap (λ c. (s.channel c).fd) (sym m)))
  | inr m ↦ m
]

-- Registering another channel leaves the server alone with its descriptor.
IsAlone-Registered :
    (socket channel : ℕ) (s : Selector) (r : Step)
    → IsAlone socket s
    → Registered channel s r
    → (s.channel channel).fd ≢ (s.channel socket).fd
    → IsAlone socket r.0
unfolding IsAlone
IsAlone-Registered socket channel s r a g n c k e f = elim (Bool-cases (channel == c)) [
  | inl y ↦
      let m : channel ≡ c = ground (arith, y) in
      absurd (n (sym (g.same_fd channel) ∙ ap (λ z. (r.0.channel z).fd) m ∙ f ∙ g.same_fd socket))
  | inr m ↦ a c k (sym (g.same_key c m) ∙ e) (sym (g.same_fd c) ∙ f ∙ g.same_fd socket)
]

-- For an active server alone on its descriptor, registered with a consistent selector, and a
-- connection whose channel is active on a descriptor of its own, processServer ends without an
-- exception whether accepting succeeds or throws: the selector is consistent and waits for the
-- server, and for the channel of the connection if there is one.
pub process_server-IsServed :
    (accepted : Accepted) (socket factory : ℕ) (a : PeerAdmin)
    → IsConsistent a.selector
    → IsAlone socket a.selector
    → (a.selector.channel socket).active ≡ true
    → IsNew socket accepted a.selector
    → IsServed socket accepted (process_server accepted socket factory a)
unfolding process_server accept IsNew
process_server-IsServed (fails e) socket factory a c l o n =
    let r = register_to-Registered socket 1 factory a.selector c l o in
    record {
      ends_well = r.ends_well;
      is_consistent = r.is_consistent;
      waits_for_server = (a.selector.next_key, r.has_key);
      waits_for_client = λ channel peer e2. cc;
    }
process_server-IsServed (connects channel peer) socket factory a c l o (m, v, n) =
    let g = register_to-Registered channel 1 peer a.selector c m v in
    let s1 = (register_to channel 1 peer a.selector).0 in
    let r =
      register_to-Registered socket 1 factory s1 g.is_consistent
        (IsAlone-Registered socket channel a.selector (register_to channel 1 peer a.selector) l g n)
        (g.same_active socket ∙ o) in
    record {
      ends_well = r.ends_well;
      is_consistent = r.is_consistent;
      waits_for_server = (s1.next_key, r.has_key);
      waits_for_client = λ ch p e2.
          let e3 : channel ≡ ch = ap (λ z. elim z [ connects c2 p2 ↦ c2 | fails x ↦ 0 ]) e2 in
          (
            a.selector.next_key,
            rw (← e3) (r.same_key channel (other_fd a.selector channel socket n) ∙ g.has_key),
          );
    }
