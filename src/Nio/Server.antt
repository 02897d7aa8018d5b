-- ===== src/Nio/Server.antt =====
-- nodebus/nio/serversocketchannel.*: a socket that listens, and the channels that it accepts.
pub mod Options
use jsonbus.Prelude.{
  ℕ, Bool, true, false, Option, none, some, List, [], ◌∷◌, ◌++◌, ◌==◌, if◌then◌else◌, io_exception,
  Outcome, ok, throw,
}
use jsonbus.Nio.Sockets.{
  Process, Cmd, and_then, open_fd, close_fd, Lookup, Epoll, bind_host, SocketOption, keep_alive,
  keep_intlv, keep_idle, keep_cnt, SocketChannel, of_fd,
}

-- An option that is 0 is not set. The numbers are the bit patterns of ints.
pub record ServerSocketChannel : Type 0 where
  pub fd : ℕ
  pub name : List ℕ
  pub active : Bool
  pub alive : ℕ
  pub intlv : ℕ
  pub idle : ℕ
  pub cnt : ℕ

-- The constructor.
unfoldable pub new_server : (ℕ → Bool) → Lookup → List ℕ → List ℕ → ℕ → Cmd ServerSocketChannel
unfolding bind_host
new_server listens lookup host port_text opts p = and_then (bind_host listens lookup opts p) λ fd q.
    (
      q,
      ok (record {
        fd = fd;
        name = host ++ b':' ∷ port_text;
        active = true;
        alive = 0;
        intlv = 0;
        idle = 0;
        cnt = 0;
      }),
    )

unfoldable pub set_keep_alive : Bool → ServerSocketChannel → ServerSocketChannel
set_keep_alive value s = record s { alive = if value then 1 else 0 }

unfoldable pub set_keep_cnt : ℕ → ServerSocketChannel → ServerSocketChannel
set_keep_cnt value s = record s { cnt = value }

unfoldable pub set_keep_idle : ℕ → ServerSocketChannel → ServerSocketChannel
set_keep_idle value s = record s { idle = value }

unfoldable pub set_keep_intlv : ℕ → ServerSocketChannel → ServerSocketChannel
set_keep_intlv value s = record s { intlv = value }

-- The destructor, for a server without keys.
unfoldable pub delete_server : ServerSocketChannel → Process → Process
delete_server s p = if s.active then close_fd s.fd p else p

-- What the system answers to `s_accept`: `accept`, what `getnameinfo` writes where it does not give -1,
-- and `setsockopt`.
pub record Incoming : Type 0 where
  pub accepted : Option ℕ
  pub name_info : Option (List ℕ × List ℕ)
  pub sets : SocketOption → ℕ → Bool

-- One of the four tests.
unfoldable pub set_option : Incoming → ℕ → SocketOption → ℕ → Cmd (Unit {0})
set_option incoming fd option value p =
    if value == 0
    then (p, ok tt)
    else if incoming.sets option value
    then (record p { options = p.options ++ (fd, option, value) ∷ [] }, ok tt)
    else (p, throw io_exception)

-- The options, in their order.
unfoldable pub set_options : Incoming → ℕ → ServerSocketChannel → Cmd (Unit {0})
unfolding set_option
set_options incoming fd s p = and_then (set_option incoming fd keep_alive s.alive p) λ _ p1.
    and_then (set_option incoming fd keep_intlv s.intlv p1) λ _ p2.
      and_then (set_option incoming fd keep_idle s.idle p2)
        λ _. set_option incoming fd keep_cnt s.cnt

-- `s_accept` behind `accept`.
unfoldable pub accept_named :
    Incoming → ℕ → Option (List ℕ × List ℕ) → ServerSocketChannel → Cmd (ℕ × List ℕ)
unfolding set_options
accept_named incoming fd none s p = (p, throw io_exception)
accept_named incoming fd (some (host, serv)) s p =
    and_then (set_options incoming fd s p) λ _ q. (q, ok (fd, host ++ b':' ∷ serv))

-- `s_accept`
unfoldable pub s_accept : Incoming → ServerSocketChannel → Cmd (ℕ × List ℕ)
unfolding accept_named
s_accept incoming s p = elim incoming.accepted [
  | none ↦ (p, throw io_exception)
  | some fd ↦ accept_named incoming fd incoming.name_info s (open_fd fd p)
]

-- `accept`
unfoldable pub accept_channel : Incoming → Epoll → ServerSocketChannel → Cmd SocketChannel
unfolding s_accept of_fd
accept_channel incoming epoll s p =
    and_then (s_accept incoming s p) λ (fd, name). of_fd epoll fd name
