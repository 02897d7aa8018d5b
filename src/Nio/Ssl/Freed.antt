-- ===== src/Nio/Ssl/Freed.antt =====
-- The life of a TLS channel, and what it writes.
use jsonbus.Prelude.{
  inr, inl, ℕ, suc, zero, ◌≤◌, ◌≡◌, refl, ◌∙◌, ap, ◌&&◌, some, List, [], ◌∷◌, length, Option-cases,
  if_both, io_exception, exception, Exception, Option, none, Outcome, ok, throw, undefined,
  out_of_fuel, All, arith,
}
use jsonbus.Nio.Sockets.Held.{remove_first}
use jsonbus.Nio.Sockets.Connected.{IsReleased, connect_channel-IsReleased}
use jsonbus.Nio.Sockets.{
  Process, open_fd, and_then, Lookup, Epoll, SocketChannel, connect_channel, close_channel,
  delete_io_channel, delete_socket_channel,
}
use jsonbus.Nio.Writing.{
  Answer, took, failed, Moves, Returns, s_write-Returns, Sends, s_write-Sends,
}
use jsonbus.Nio.Ssl.{
  false, Handshake, SslSocketChannel, make_ssl, shake_hands, secure, connect_ssl, close_io,
  delete_ssl, checked, all_checked, s_write_ssl,
}

-- What the constructor throws once it is connected: the handler of the handshake slices.
abbrev pub handshake_failure : Option ℕ → Exception
handshake_failure none = io_exception
handshake_failure (some ssl) = exception

-- The constructor fails without a trace, or it leaves the socket of the connection open.
pub data Failed (made : Option ℕ) (p q : Process) (e : Exception) : Type 0 where
  unconnected : q ≡ p → e ≡ io_exception → Failed made p q e
  leaks : (fd : ℕ) → q ≡ open_fd fd p → e ≡ handshake_failure made → Failed made p q e

-- The destructor gives the process back as it was but for the socket, which stays open as it does where the
-- handshake fails.
pub IsFreed : Option ℕ → Process → Process × Outcome SslSocketChannel → Type 0
IsFreed made p (q, ok c) = delete_ssl c q ≡ open_fd c.base.io.fd p
IsFreed made p (q, throw e) = Failed made p q e
IsFreed made p (q, undefined) = q ≡ p
IsFreed made p (q, out_of_fuel) = ⊥

delete_ssl-make_ssl :
    (c : SocketChannel) (ssl : ℕ) (q : Process)
    → c.io.device_open ≡ false
    → delete_ssl (record { base = c; ssl = ssl }) (make_ssl ssl q) ≡ delete_socket_channel c q
unfolding delete_ssl close_io close_channel delete_socket_channel delete_io_channel
delete_ssl-make_ssl c ssl q d = simp (d, remove_first)

secure-IsFreed :
    (handshake : Handshake) (p : Process) (r : Process × Outcome SocketChannel)
    → IsReleased p r
    → IsFreed handshake.made p (and_then r (secure handshake))
unfolding secure shake_hands IsFreed IsReleased
secure-IsFreed handshake p (q, ok c) (_, d, _, _, n) = elim (Option-cases handshake.made) [
  | inl unmade ↦ rw unmade (leaks c.io.fd d refl)
  | inr (ssl, e) ↦ rw e (
      if_both (IsFreed (some ssl) p) (handshake.fd_set && handshake.agreed)
        (delete_ssl-make_ssl c ssl q n ∙ d) (leaks c.io.fd (rw (remove_first ssl q.ssls) d) refl))
]
secure-IsFreed handshake p (q, throw e) (h, k) = unconnected h k
secure-IsFreed handshake p (q, undefined) h = h
secure-IsFreed handshake p (q, out_of_fuel) h = h

-- Where an epoll descriptor can be made, the constructor of a TLS channel to a host either gives a
-- channel whose destructor releases all but the socket; or, not connected, it throws an IOException
-- or follows a list that is NULL and leaves the process as it was; or, connected, it throws an
-- IOException where SSL_new fails and a plain Exception where SSL_set_fd or the handshake fails, and
-- leaves the socket open and nothing else.
pub connect_ssl-IsFreed :
    (lookup : Lookup) (epoll : Epoll) (epfd : ℕ) (handshake : Handshake) (host port_text : List ℕ)
    (p : Process)
    → epoll.created ≡ some epfd
    → IsFreed handshake.made p (connect_ssl lookup epoll handshake host port_text p)
unfolding connect_ssl
connect_ssl-IsFreed lookup epoll epfd handshake host port_text p e =
    secure-IsFreed handshake p (connect_channel lookup epoll host port_text p)
      (connect_channel-IsReleased lookup epoll epfd host port_text p e)

all_checked-Moves : (answers : List Answer) → All Moves (all_checked answers)
unfolding checked Moves
all_checked-Moves [] = tt
all_checked-Moves (took zero ∷ answers) = (tt, all_checked-Moves answers)
all_checked-Moves (took (suc n) ∷ answers) = (omega arith, all_checked-Moves answers)
all_checked-Moves (failed ∷ answers) = (tt, all_checked-Moves answers)

length-all_checked : (answers : List Answer) → length (all_checked answers) ≡ length answers
length-all_checked [] = refl
length-all_checked (a ∷ answers) = ap suc (length-all_checked answers)

-- With an answer of SSL_write for each byte, writing over TLS ends: it returns having sent all the
-- bytes in order, or, having sent a front of them, it throws an IOException or is undefined, by an
-- answer above the length that it was given.
pub s_write_ssl-Sends :
    (answers : List Answer) (bytes sent : List ℕ)
    → length bytes ≤ length answers
    → Sends sent bytes (s_write_ssl answers bytes sent) × Returns (s_write_ssl answers bytes sent)
unfolding s_write_ssl
s_write_ssl-Sends answers bytes sent h = (
  s_write-Sends (all_checked answers) bytes sent,
  s_write-Returns (all_checked answers) bytes sent (all_checked-Moves answers)
      (omega (arith, length-all_checked answers)),
)
