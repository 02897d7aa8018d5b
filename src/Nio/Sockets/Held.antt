-- ===== src/Nio/Sockets/Held.antt =====
-- Which descriptors `__connect` and `__bind` leave open.
use jsonbus.Prelude.{
  inr, Bool-cases, inl, ◌⊎◌, ℕ, ◌≡◌, refl, Bool, true, false, ◌&&◌, Option, none, some, List, [],
  ◌∷◌, arith, io_exception, Outcome, ok, throw, undefined, out_of_fuel, All,
}
use jsonbus.Nio.Sockets.{
  not, Process, remove, open_fd, close_fd, Attempt, no_socket, socket, Lookup, resolved, minus_one,
  other_code, connect_each, or_throw, connect_host, reuse_addr, mask_backlog, bind_each,
  listen_bound, bind_host,
}

pub remove_first : (n : ℕ) (ns : List ℕ) → remove n (n ∷ ns) ≡ ns
unfolding remove
remove_first n ns = ground arith

pub remove_two : (m n : ℕ) (ns : List ℕ) → remove m (remove n (m ∷ n ∷ ns)) ≡ ns
unfolding remove
remove_two m n ns = ground arith

pub close_fd-open_fd : (fd : ℕ) (p : Process) → close_fd fd (open_fd fd p) ≡ p
close_fd-open_fd fd p = rw remove_first refl

and_false : (b : Bool) → (b && false) ≡ false
and_false true = refl
and_false false = refl

-- A socket that is given back is open and nothing else was opened or closed; where there is none,
-- nothing was.
unfoldable pub Holds : Process → Process × Option ℕ → Type 0
Holds p (q, some fd) = q ≡ open_fd fd p
Holds p (q, none) = q ≡ p

unfoldable pub IsHeld : Process → Process × Outcome ℕ → Type 0
IsHeld p (q, ok fd) = q ≡ open_fd fd p
IsHeld p (q, throw e) = (q ≡ p) × (e ≡ io_exception)
IsHeld p (q, undefined) = q ≡ p
IsHeld p (q, out_of_fuel) = ⊥

connect_each-Holds : (attempts : List Attempt) (p : Process) → Holds p (connect_each attempts p)
unfolding connect_each Holds
connect_each-Holds [] p = refl
connect_each-Holds (no_socket ∷ rest) p = refl
connect_each-Holds (socket fd reuses true ∷ rest) p = refl
connect_each-Holds (socket fd reuses false ∷ rest) p =
    rw (remove_first fd p.opened) (connect_each-Holds rest p)

or_throw-IsHeld : (p : Process) (r : Process × Option ℕ) → Holds p r → IsHeld p (or_throw r)
unfolding Holds IsHeld
or_throw-IsHeld p (q, some fd) h = h
or_throw-IsHeld p (q, none) h = (h, refl)

pub connect_host-IsHeld : (lookup : Lookup) (p : Process) → IsHeld p (connect_host lookup p)
unfolding connect_host IsHeld
connect_host-IsHeld (resolved a rest) p =
    or_throw-IsHeld p (connect_each (a ∷ rest) p) (connect_each-Holds (a ∷ rest) p)
connect_host-IsHeld minus_one p = (refl, refl)
connect_host-IsHeld other_code p = refl

-- `setsockopt` succeeds on the socket of this address.
unfoldable pub CanReuse : Attempt → Type 0
CanReuse no_socket = Unit
CanReuse (socket fd reuses bound) = reuses ≡ true

bind_each-Holds :
    (opts : ℕ) (attempts : List Attempt) (p : Process)
    → All CanReuse attempts
    → Holds p (bind_each opts attempts p)
unfolding bind_each Holds CanReuse
bind_each-Holds opts [] p h = refl
bind_each-Holds opts (no_socket ∷ rest) p h = refl
bind_each-Holds opts (socket fd reuses true ∷ rest) p (e, h) = rw (e, and_false _) refl
bind_each-Holds opts (socket fd reuses false ∷ rest) p (e, h) =
    rw (e, and_false _, remove_first fd p.opened) (bind_each-Holds opts rest p h)

listen_bound-IsHeld :
    (listens : ℕ → Bool) (opts : ℕ) (p : Process) (r : Process × Option ℕ)
    → listens (mask_backlog opts) ≡ true
    → Holds p r
    → IsHeld p (listen_bound listens opts r)
unfolding Holds IsHeld listen_bound
listen_bound-IsHeld listens opts p (q, some fd) e h = rw e h
listen_bound-IsHeld listens opts p (q, none) e h = (h, refl)

-- Where setting the option of the sockets and listening succeed, __bind with a list of addresses
-- gives a socket that is open, with no other descriptor opened or closed, or throws an IOException
-- and leaves the process as it was.
pub bind_host-IsHeld :
    (listens : ℕ → Bool) (a : Attempt) (rest : List Attempt) (opts : ℕ) (p : Process)
    → All CanReuse (a ∷ rest)
    → listens (mask_backlog opts) ≡ true
    → IsHeld p (bind_host listens (resolved a rest) opts p)
unfolding bind_host
bind_host-IsHeld listens a rest opts p h e =
    listen_bound-IsHeld listens opts p (bind_each opts (a ∷ rest) p) e
      (bind_each-Holds opts (a ∷ rest) p h)

-- Nothing or one socket was opened.
pub AtMostOne : Process → Process → Type 0
AtMostOne p q = (q ≡ p) ⊎ ((fd : ℕ) × (q ≡ open_fd fd p))

bind_each-AtMostOne :
    (opts : ℕ) (attempts : List Attempt) (p : Process) → AtMostOne p (bind_each opts attempts p).0
unfolding bind_each AtMostOne
bind_each-AtMostOne opts [] p = inl refl
bind_each-AtMostOne opts (no_socket ∷ rest) p = inl refl
bind_each-AtMostOne opts (socket fd reuses bound ∷ rest) p =
    elim (Bool-cases (reuse_addr opts && not reuses)) [
      | inl stuck ↦ rw stuck (inr (fd, refl))
      | inr clear ↦ elim (Bool-cases bound) [
        | inl yes_bound ↦ rw (clear, yes_bound) (inr (fd, refl))
        | inr not_bound ↦
            rw (clear, not_bound, remove_first fd p.opened) (bind_each-AtMostOne opts rest p)
      ]
    ]

listen_bound-keeps :
    (listens : ℕ → Bool) (opts : ℕ) (r : Process × Option ℕ) → (listen_bound listens opts r).0 ≡ r.0
unfolding listen_bound
listen_bound-keeps listens opts (q, some fd) = ground arith
listen_bound-keeps listens opts (q, none) = refl

-- Whatever fails, `__bind` leaves at most one socket behind.
pub bind_host-AtMostOne :
    (listens : ℕ → Bool) (lookup : Lookup) (opts : ℕ) (p : Process)
    → AtMostOne p (bind_host listens lookup opts p).0
unfolding bind_host AtMostOne
bind_host-AtMostOne listens (resolved a rest) opts p =
    rw (listen_bound-keeps listens opts (bind_each opts (a ∷ rest) p))
      (bind_each-AtMostOne opts (a ∷ rest) p)
bind_host-AtMostOne listens minus_one opts p = inl refl
bind_host-AtMostOne listens other_code opts p = inl refl
