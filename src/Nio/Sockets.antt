-- ===== src/Nio/Sockets.antt =====
-- nodebus/nio/socketchannel.*, serversocketchannel.* and the making and unmaking of an IOChannel: which
-- descriptors they open and close. The answers of the system calls are arguments. A method gives the
-- state of the process that it leaves and how it ended.
pub mod Held
pub mod Connected
use jsonbus.Prelude.{
  ℕ, ◌+◌, ◌/◌, ◌%◌, Bool, true, false, not, ◌&&◌, Option, none, some, List, [], ◌∷◌, ◌++◌, ◌==◌,
  if◌then◌else◌, io_exception, Outcome, ok, throw, undefined, out_of_fuel,
}

-- The options that are set on a socket.
pub data SocketOption : Type 0 where
  keep_alive keep_intlv keep_idle keep_cnt : SocketOption

-- What a process holds: its open descriptors, the pairs of an epoll descriptor and one that it watches,
-- the options set on sockets, and the SSL objects.
pub record Process : Type 0 where
  pub opened : List ℕ
  pub watches : List (ℕ × ℕ)
  pub options : List (ℕ × SocketOption × ℕ)
  pub ssls : List ℕ

abbrev pub Cmd : Type 0 → Type 0
Cmd A = Process → Process × Outcome A

abbrev pub and_then : {A B : Type 0} → Process × Outcome A → (A → Cmd B) → Process × Outcome B
and_then (p, ok a) k = k a p
and_then (p, throw e) k = (p, throw e)
and_then (p, undefined) k = (p, undefined)
and_then (p, out_of_fuel) k = (p, out_of_fuel)

-- A list without the first place where the number stands.
unfoldable pub remove : ℕ → List ℕ → List ℕ
remove n [] = []
remove n (m ∷ ms) = if m == n then ms else m ∷ remove n ms

abbrev pub open_fd : ℕ → Process → Process
open_fd fd p = record p { opened = fd ∷ p.opened }

-- `::close`
abbrev pub close_fd : ℕ → Process → Process
close_fd fd p = record p { opened = remove fd p.opened }

-- What the system answers for one address: `socket`, with what `setsockopt` and then `connect` or `bind` say.
pub data Attempt : Type 0 where
  no_socket : Attempt
  socket : ℕ → Bool → Bool → Attempt

-- What `getaddrinfo` gives: addresses, at least one; -1; or another of its error codes, with no list.
pub data Lookup : Type 0 where
  resolved : Attempt → List Attempt → Lookup
  minus_one other_code : Lookup

-- The inner loop of `__connect`.
unfoldable pub connect_each : List Attempt → Process → Process × Option ℕ
connect_each [] p = (p, none)
connect_each (no_socket ∷ rest) p = (p, none)
connect_each (socket fd reuses connected ∷ rest) p =
    if connected then (open_fd fd p, some fd) else connect_each rest (close_fd fd (open_fd fd p))

abbrev pub or_throw : Process × Option ℕ → Process × Outcome ℕ
or_throw (p, some fd) = (p, ok fd)
or_throw (p, none) = (p, throw io_exception)

-- `__connect`: a list that is NULL is followed.
unfoldable pub connect_host : Lookup → Cmd ℕ
unfolding connect_each
connect_host (resolved a rest) p = or_throw (connect_each (a ∷ rest) p)
connect_host minus_one p = (p, throw io_exception)
connect_host other_code p = (p, undefined)

-- `opts & OPT_REUSEADDR`
unfoldable pub reuse_addr : ℕ → Bool
reuse_addr opts = (opts / 131072) % 2 == 1

-- `opts & MASK_BACKLOG`
unfoldable pub mask_backlog : ℕ → ℕ
mask_backlog opts = opts % 65536

-- The inner loop of `__bind`, which leaves the socket open where `setsockopt` fails.
unfoldable pub bind_each : ℕ → List Attempt → Process → Process × Option ℕ
unfolding reuse_addr
bind_each opts [] p = (p, none)
bind_each opts (no_socket ∷ rest) p = (p, none)
bind_each opts (socket fd reuses bound ∷ rest) p =
    if reuse_addr opts && not reuses
    then (open_fd fd p, none)
    else if bound
    then (open_fd fd p, some fd)
    else bind_each opts rest (close_fd fd (open_fd fd p))

-- `listen` on the socket that was bound.
unfoldable pub listen_bound : (ℕ → Bool) → ℕ → Process × Option ℕ → Process × Outcome ℕ
unfolding mask_backlog
listen_bound listens opts (p, none) = (p, throw io_exception)
listen_bound listens opts (p, some fd) =
    if listens (mask_backlog opts) then (p, ok fd) else (p, throw io_exception)

-- `__bind`
unfoldable pub bind_host : (ℕ → Bool) → Lookup → ℕ → Cmd ℕ
unfolding bind_each listen_bound
bind_host listens (resolved a rest) opts p = listen_bound listens opts (bind_each opts (a ∷ rest) p)
bind_host listens minus_one opts p = (p, throw io_exception)
bind_host listens other_code opts p = (p, undefined)

-- `device_open` is what `QIODevice::isOpen` gives, on which nothing here calls `open`; `active` is `m_active`.
pub record IoChannel : Type 0 where
  pub fd : ℕ
  pub close_on_delete : Bool
  pub epfd : ℕ
  pub active : Bool
  pub device_open : Bool

-- What the system answers to an `IOChannel`: `epoll_create1` and `epoll_ctl`.
pub record Epoll : Type 0 where
  pub created : Option ℕ
  pub added : Bool

-- The test of `READABLE` in the constructor, and `epoll_ctl`.
unfoldable pub watch : Bool → Bool → IoChannel → Cmd IoChannel
watch added readable c p =
    if readable
    then (if added
        then (record p { watches = (c.epfd, c.fd) ∷ p.watches }, ok c)
        else (p, throw io_exception))
    else (p, ok c)

-- `IOChannel::IOChannel`, with the flags CLOSE_ON_DELETE = 1 and READABLE = 2.
unfoldable pub new_io_channel : Epoll → ℕ → ℕ → Cmd IoChannel
unfolding watch
new_io_channel epoll fd flags p = elim epoll.created [
  | none ↦ (p, throw io_exception)
  | some epfd ↦
      watch epoll.added (flags / 2 % 2 == 1)
        (record {
          fd = fd;
          close_on_delete = flags % 2 == 1;
          epfd = epfd;
          active = true;
          device_open = false;
        })
        (open_fd epfd p)
]

-- `IOChannel::closeFd` behind `Channel::closeChannel`, for a channel without keys.
unfoldable pub close_channel : IoChannel → Process → Process
close_channel c p = if c.active then close_fd c.fd p else p

-- `IOChannel::~IOChannel`, whose test of `isOpen` is the one of QIODevice; the end of the epoll descriptor
-- ends its watches.
unfoldable pub delete_io_channel : IoChannel → Process → Process
unfolding close_channel
delete_io_channel c p =
    close_fd c.epfd (if c.close_on_delete && c.device_open then close_channel c p else p)

pub record SocketChannel : Type 0 where
  pub io : IoChannel
  pub name : List ℕ

-- The constructor's `IOChannel(fd, true)` has the flags 1.
unfoldable pub of_fd : Epoll → ℕ → List ℕ → Cmd SocketChannel
unfolding new_io_channel
of_fd epoll fd name p =
    and_then (new_io_channel epoll fd 1 p) λ io q. (q, ok (record { io = io; name = name }))

-- The constructor from a host and a port, whose decimals are `port_text`.
unfoldable pub connect_channel : Lookup → Epoll → List ℕ → List ℕ → Cmd SocketChannel
unfolding connect_host of_fd
connect_channel lookup epoll host port_text p =
    and_then (connect_host lookup p) λ fd. of_fd epoll fd (host ++ b':' ∷ port_text)

-- The destructor.
unfoldable pub delete_socket_channel : SocketChannel → Process → Process
unfolding delete_io_channel
delete_socket_channel c = delete_io_channel c.io
