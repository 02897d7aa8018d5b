-- ===== src/Nio/Server/Options.antt =====
-- The descriptors and the options of the channels that a server accepts.
use jsonbus.Prelude.{
  ℕ, ◌≡◌, refl, ap, ◌∙◌, ◌⊎◌, inl, inr, Bool, true, List, [], ◌∷◌, ◌++◌, append_assoc, append-nil,
  ◌==◌, if◌then◌else◌, Bool-cases, Option-cases, io_exception, Outcome, ok, throw, undefined,
  out_of_fuel,
}
use jsonbus.Nio.Sockets.{
  Process, Cmd, and_then, open_fd, Epoll, SocketOption, keep_alive, keep_intlv, keep_idle, keep_cnt,
  SocketChannel, of_fd, new_io_channel, watch,
}
use jsonbus.Nio.Server.{
  bind_host, Lookup, new_server, ServerSocketChannel, Incoming, set_option, set_options,
  accept_named, s_accept, accept_channel,
}

abbrev pub nonzero : SocketOption → ℕ → List (SocketOption × ℕ)
nonzero option value = if value == 0 then [] else (option, value) ∷ []

-- The options that a server is told to set, in order.
abbrev pub configured : ServerSocketChannel → List (SocketOption × ℕ)
configured s =
    nonzero keep_alive s.alive
    ++ (nonzero keep_intlv s.intlv ++ (nonzero keep_idle s.idle ++ nonzero keep_cnt s.cnt))

abbrev pub on_socket : ℕ → List (SocketOption × ℕ) → List (ℕ × SocketOption × ℕ)
on_socket fd [] = []
on_socket fd ((o, v) ∷ os) = (fd, o, v) ∷ on_socket fd os

on_socket-append :
    (fd : ℕ) (os ps : List (SocketOption × ℕ))
    → on_socket fd (os ++ ps) ≡ on_socket fd os ++ on_socket fd ps
on_socket-append fd [] ps = refl
on_socket-append fd ((o, v) ∷ os) ps = ap (λ t. (fd, o, v) ∷ t) (on_socket-append fd os ps)

-- The options were appended and nothing else was done, or a call failed and no descriptor was touched.
SetAs : Process → ℕ → List (SocketOption × ℕ) → Process × Outcome (Unit {0}) → Type 0
SetAs p fd os (q, ok _) = q ≡ record p { options = p.options ++ on_socket fd os }
SetAs p fd os (q, throw e) = (q.opened ≡ p.opened) × (e ≡ io_exception)
SetAs p fd os (q, undefined) = ⊥
SetAs p fd os (q, out_of_fuel) = ⊥

set_option-SetAs :
    (incoming : Incoming) (fd : ℕ) (option : SocketOption) (value : ℕ) (p : Process)
    → SetAs p fd (nonzero option value) (set_option incoming fd option value p)
unfolding set_option SetAs
set_option-SetAs incoming fd option value p = elim (Bool-cases (value == 0)) [
  | inl zero_value ↦ rw zero_value (rw append-nil refl)
  | inr set_value ↦ elim (Bool-cases (incoming.sets option value)) [
    | inl sets ↦ rw (set_value, sets) refl
    | inr fails ↦ rw (set_value, fails) (refl, refl)
  ]
]

and_then-SetAs :
    (p : Process) (fd : ℕ) (os ps : List (SocketOption × ℕ)) (r : Process × Outcome (Unit {0}))
    (k : Cmd (Unit {0}))
    → SetAs p fd os r
    → ((q : Process) → SetAs q fd ps (k q))
    → SetAs p fd (os ++ ps) (and_then r (λ _. k))
unfolding SetAs
and_then-SetAs p fd os ps (q, ok _) k h f = later (k q) (f q)
  where
    later : (r : Process × Outcome (Unit {0})) → SetAs q fd ps r → SetAs p fd (os ++ ps) r
    later (t, ok _) g = g ∙ rw h (rw (on_socket-append fd os ps, append_assoc) refl)
    later (t, throw e) (g, i) = (g ∙ ap (λ x. x.opened) h, i)
    later (t, undefined) g = elim g [ ]
    later (t, out_of_fuel) g = elim g [ ]
and_then-SetAs p fd os ps (q, throw e) k h f = h
and_then-SetAs p fd os ps (q, undefined) k h f = elim h [ ]
and_then-SetAs p fd os ps (q, out_of_fuel) k h f = elim h [ ]

set_options-SetAs :
    (incoming : Incoming) (fd : ℕ) (s : ServerSocketChannel) (p : Process)
    → SetAs p fd (configured s) (set_options incoming fd s p)
unfolding set_options
set_options-SetAs incoming fd s p =
    and_then-SetAs p fd (nonzero keep_alive s.alive) _ (set_option incoming fd keep_alive s.alive p)
      _ (set_option-SetAs incoming fd keep_alive s.alive p)
      λ p1.
        and_then-SetAs p1 fd (nonzero keep_intlv s.intlv) _
          (set_option incoming fd keep_intlv s.intlv p1) _
          (set_option-SetAs incoming fd keep_intlv s.intlv p1)
          λ p2.
            and_then-SetAs p2 fd (nonzero keep_idle s.idle) _
              (set_option incoming fd keep_idle s.idle p2) _
              (set_option-SetAs incoming fd keep_idle s.idle p2)
              (set_option-SetAs incoming fd keep_cnt s.cnt)

-- A channel has the server's options and opened its two descriptors; where the server throws, at most
-- the descriptor of the connection stays open.
pub IsAccepted : ServerSocketChannel → Process → Process × Outcome SocketChannel → Type 0
IsAccepted s p (q, ok c) = q ≡ record p {
  opened = c.io.epfd ∷ c.io.fd ∷ p.opened;
  options = p.options ++ on_socket c.io.fd (configured s);
}
IsAccepted s p (q, throw e) =
    ((q.opened ≡ p.opened) ⊎ ((fd : ℕ) × (q.opened ≡ fd ∷ p.opened))) × (e ≡ io_exception)
IsAccepted s p (q, undefined) = ⊥
IsAccepted s p (q, out_of_fuel) = ⊥

set_options-IsAccepted :
    (epoll : Epoll) (fd : ℕ) (name : List ℕ) (s : ServerSocketChannel) (p : Process)
    (r : Process × Outcome (Unit {0}))
    → SetAs (open_fd fd p) fd (configured s) r
    → IsAccepted s p (and_then (and_then r (λ _ q. (q, ok (fd, name)))) λ (f, n). of_fd epoll f n)
unfolding SetAs IsAccepted of_fd new_io_channel watch
set_options-IsAccepted epoll fd name s p (q, ok _) h = elim (Option-cases epoll.created) [
  | inl fails ↦ rw fails (inr (fd, ap (λ x. x.opened) h), refl)
  | inr (epfd, e) ↦ rw (e, h) refl
]
set_options-IsAccepted epoll fd name s p (q, throw e) (h, i) = (inr (fd, h), i)
set_options-IsAccepted epoll fd name s p (q, undefined) h = elim h [ ]
set_options-IsAccepted epoll fd name s p (q, out_of_fuel) h = elim h [ ]

-- Accepting either gives a channel whose two descriptors were opened and whose socket has the
-- options of the server that are not 0, in order, or it throws an IOException with at most one
-- descriptor left open, whichever call fails.
pub accept_channel-IsAccepted :
    (incoming : Incoming) (epoll : Epoll) (s : ServerSocketChannel) (p : Process)
    → IsAccepted s p (accept_channel incoming epoll s p)
unfolding accept_channel s_accept accept_named IsAccepted
accept_channel-IsAccepted incoming epoll s p = elim (Option-cases incoming.accepted) [
  | inl fails ↦ rw fails (inl refl, refl)
  | inr (fd, e) ↦ elim (Option-cases incoming.name_info) [
    | inl nameless ↦ rw (e, nameless) (inr (fd, refl), refl)
    | inr ((host, serv), n) ↦
        rw (e, n)
          (set_options-IsAccepted epoll fd (host ++ b':' ∷ serv) s p _
            (set_options-SetAs incoming fd s (open_fd fd p)))
  ]
]

-- A new server has its name and no options.
unfoldable pub IsNewServer : List ℕ → Process × Outcome ServerSocketChannel → Type 0
IsNewServer name (q, ok s) =
    (fd : ℕ) × (s
      ≡ record { fd = fd; name = name; active = true; alive = 0; intlv = 0; idle = 0; cnt = 0 })
IsNewServer name (q, _) = Unit

pub new_server-IsNewServer :
    (listens : ℕ → Bool) (lookup : Lookup) (host port_text : List ℕ) (opts : ℕ) (p : Process)
    → IsNewServer (host ++ b':' ∷ port_text) (new_server listens lookup host port_text opts p)
unfolding new_server IsNewServer
new_server-IsNewServer listens lookup host port_text opts p =
    named (bind_host listens lookup opts p)
  where
    named :
        (r : Process × Outcome ℕ)
        → IsNewServer (host ++ b':' ∷ port_text) (
            and_then r λ fd q. (
              q,
              ok (record {
                fd = fd;
                name = host ++ b':' ∷ port_text;
                active = true;
                alive = 0;
                intlv = 0;
                idle = 0;
                cnt = 0;
              }),
            ))
    named (q, ok fd) = (fd, refl)
    named (q, throw e) = tt
    named (q, undefined) = tt
    named (q, out_of_fuel) = tt
