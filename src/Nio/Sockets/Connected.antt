-- ===== src/Nio/Sockets/Connected.antt =====
-- The life of a channel that connects to a host, from the constructor to the destructor.
use jsonbus.Prelude.{
  ℕ, ◌∷◌, false, ◌≡◌, refl, true, some, List, io_exception, Outcome, ok, throw, undefined,
  out_of_fuel,
}
use jsonbus.Nio.Sockets.Held.{IsHeld, connect_host-IsHeld, remove_first, remove_two}
use jsonbus.Nio.Sockets.{
  false, and_then, Process, open_fd, Lookup, Epoll, SocketChannel, connect_host, watch,
  new_io_channel, of_fd, connect_channel, close_channel, delete_io_channel, delete_socket_channel,
}

-- The channel behind `closeChannel`.
abbrev pub closed : SocketChannel → SocketChannel
closed c = record c { io = record c.io { active = false } }

-- The channel is active, its two descriptors were opened and no more, and epoll waits for what it waited for;
-- the destructor alone leaves its socket open, and behind `closeChannel` it gives the process back as it
-- was. Where the constructor throws, the process is as it was.
unfoldable pub IsReleased : Process → Process × Outcome SocketChannel → Type 0
IsReleased p (q, ok c) =
    (q ≡ open_fd c.io.epfd (open_fd c.io.fd p))
    × (delete_socket_channel c q ≡ open_fd c.io.fd p)
    × (delete_socket_channel (closed c) (close_channel c.io q) ≡ p)
    × (c.io.active ≡ true)
    × (c.io.device_open ≡ false)
IsReleased p (q, throw e) = (q ≡ p) × (e ≡ io_exception)
IsReleased p (q, undefined) = q ≡ p
IsReleased p (q, out_of_fuel) = ⊥

of_fd-IsReleased :
    (epoll : Epoll) (epfd : ℕ) (p q : Process) (fd : ℕ) (name : List ℕ)
    → epoll.created ≡ some epfd
    → q ≡ open_fd fd p
    → IsReleased p (of_fd epoll fd name q)
unfolding of_fd new_io_channel watch IsReleased delete_socket_channel delete_io_channel
    close_channel
of_fd-IsReleased epoll epfd p q fd name e h =
    rw (e, h)
      (
        refl,
        rw (remove_first epfd (fd ∷ p.opened)) refl,
        rw (remove_two epfd fd p.opened) refl,
        refl,
        refl,
      )

of_held-IsReleased :
    (epoll : Epoll) (epfd : ℕ) (p : Process) (name : List ℕ) (r : Process × Outcome ℕ)
    → epoll.created ≡ some epfd
    → IsHeld p r
    → IsReleased p (and_then r λ fd. of_fd epoll fd name)
unfolding IsHeld IsReleased
of_held-IsReleased epoll epfd p name (q, ok fd) e h = of_fd-IsReleased epoll epfd p q fd name e h
of_held-IsReleased epoll epfd p name (q, throw x) e h = h
of_held-IsReleased epoll epfd p name (q, undefined) e h = h
of_held-IsReleased epoll epfd p name (q, out_of_fuel) e h = h

-- Where an epoll descriptor can be made, the constructor of a channel to a host either gives an
-- active channel, with its two descriptors opened and no more and epoll waiting for what it waited
-- for, whose destructor alone leaves the socket open, and behind closeChannel leads back to the
-- process in front of the constructor; or it throws an IOException or follows a list that is NULL
-- and leaves the process as it was.
pub connect_channel-IsReleased :
    (lookup : Lookup) (epoll : Epoll) (epfd : ℕ) (host port_text : List ℕ) (p : Process)
    → epoll.created ≡ some epfd
    → IsReleased p (connect_channel lookup epoll host port_text p)
unfolding connect_channel
connect_channel-IsReleased lookup epoll epfd host port_text p e =
    of_held-IsReleased epoll epfd p _ (connect_host lookup p) e (connect_host-IsHeld lookup p)
