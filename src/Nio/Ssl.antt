-- ===== src/Nio/Ssl.antt =====
-- nodebus/nio/ssliochannel.*, sslsocketchannel.* and sslserversocketchannel.*: channels over TLS. What
-- OpenSSL answers is an argument. The members of `SSLIOChannel` and `SSLSocketChannel` that do the same
-- are one definition.
pub mod Freed
use jsonbus.Prelude.{
  ◌&&◌, ◌||◌, ℕ, zero, suc, ◌+◌, Bool, true, false, Option, none, some, List, [], ◌∷◌, ◌==◌,
  if◌then◌else◌, io_exception, exception, eof_exception, Outcome, ok, throw, undefined, out_of_fuel,
}
use jsonbus.Nio.Sockets.{
  Process, Cmd, and_then, remove, Lookup, Epoll, IoChannel, SocketChannel, of_fd, connect_channel,
  close_channel, new_io_channel, delete_io_channel, delete_socket_channel,
}
use jsonbus.Nio.Server.{Incoming, ServerSocketChannel, s_accept}
use jsonbus.Nio.Writing.{Answer, took, failed, s_write}

-- What `SSL_new` gives, and whether `SSL_set_fd` and then `SSL_connect` or `SSL_accept` succeed.
pub record Handshake : Type 0 where
  pub made : Option ℕ
  pub fd_set : Bool
  pub agreed : Bool

-- A channel with its SSL object, `m_ssl`.
pub record SslSocketChannel : Type 0 where
  pub base : SocketChannel
  pub ssl : ℕ

abbrev pub make_ssl : ℕ → Process → Process
make_ssl ssl p = record p { ssls = ssl ∷ p.ssls }

-- `SSL_free`
abbrev pub free_ssl : ℕ → Process → Process
free_ssl ssl p = record p { ssls = remove ssl p.ssls }

-- The `try` of the constructors, whose handler frees the SSL object and throws a copy that is a plain
-- Exception; the base is destroyed behind it.
unfoldable pub shake_hands : Handshake → SocketChannel → ℕ → Cmd SslSocketChannel
unfolding delete_socket_channel
shake_hands handshake base ssl p =
    if handshake.fd_set && handshake.agreed
    then (p, ok (record { base = base; ssl = ssl }))
    else (delete_socket_channel base (free_ssl ssl p), throw exception)

-- The bodies of the two constructors of `SSLSocketChannel`.
unfoldable pub secure : Handshake → SocketChannel → Cmd SslSocketChannel
unfolding shake_hands delete_socket_channel
secure handshake base p = elim handshake.made [
  | none ↦ (delete_socket_channel base p, throw io_exception)
  | some ssl ↦ shake_hands handshake base ssl (make_ssl ssl p)
]

-- The constructor from a host and a port.
unfoldable pub connect_ssl : Lookup → Epoll → Handshake → List ℕ → List ℕ → Cmd SslSocketChannel
unfolding connect_channel secure
connect_ssl lookup epoll handshake host port_text p =
    and_then (connect_channel lookup epoll host port_text p) (secure handshake)

-- The constructor from a descriptor.
unfoldable pub ssl_of_fd : Epoll → Handshake → ℕ → List ℕ → Cmd SslSocketChannel
unfolding of_fd secure
ssl_of_fd epoll handshake fd name p = and_then (of_fd epoll fd name p) (secure handshake)

-- `SSLServerSocketChannel::accept`
unfoldable pub accept_ssl :
    Incoming → Epoll → Handshake → ServerSocketChannel → Cmd SslSocketChannel
unfolding s_accept ssl_of_fd
accept_ssl incoming epoll handshake s p =
    and_then (s_accept incoming s p) λ (fd, name). ssl_of_fd epoll handshake fd name

-- `close`, with the channel that it leaves: `isOpen` is the one of QIODevice.
unfoldable pub close_io : IoChannel → Process → Process × IoChannel
unfolding close_channel
close_io c p = if c.device_open then (close_channel c p, record c { active = false }) else (p, c)

-- The destructor, with those of its bases.
unfoldable pub delete_ssl : SslSocketChannel → Process → Process
unfolding close_io delete_io_channel
delete_ssl c p =
    let (q, io) = if c.base.io.device_open then close_io c.base.io p else (p, c.base.io) in
    delete_io_channel io (free_ssl c.ssl q)

-- A channel of `SSLIOChannel`.
pub record SslIoChannel : Type 0 where
  pub io : IoChannel
  pub ssl : ℕ

-- The constructor of `SSLIOChannel`: a flag that is true is 1. The SSL object is not freed where
-- `SSL_set_fd` fails.
unfoldable pub new_ssl_io : Epoll → Handshake → ℕ → Bool → Cmd SslIoChannel
unfolding new_io_channel delete_io_channel
new_ssl_io epoll handshake fd close_on_delete p =
    and_then (new_io_channel epoll fd (if close_on_delete then 1 else 0) p) λ io q.
      elim handshake.made [
        | none ↦ (delete_io_channel io q, throw io_exception)
        | some ssl ↦
            if handshake.fd_set
            then (make_ssl ssl q, ok (record { io = io; ssl = ssl }))
            else (delete_io_channel io (make_ssl ssl q), throw io_exception)
      ]

-- The destructor of `SSLIOChannel`.
unfoldable pub delete_ssl_io : SslIoChannel → Process → Process
unfolding close_io delete_io_channel
delete_ssl_io c p =
    let (q, io) = if c.io.close_on_delete && c.io.device_open then close_io c.io p else (p, c.io) in
    delete_io_channel io (free_ssl c.ssl q)

-- What `SSL_read` gives: bytes, at least one; 0 with the answer of `SSL_get_error`; or less.
pub data SslRead : Type 0 where
  got : ℕ → List ℕ → SslRead
  nothing : ℕ → SslRead
  negative : SslRead

-- `s_read`, with SSL_ERROR_NONE = 0 and SSL_ERROR_ZERO_RETURN = 6.
unfoldable pub s_read : SslRead → Outcome (List ℕ)
s_read (got b bytes) = ok (b ∷ bytes)
s_read (nothing e) = if e == 0 || e == 6 then throw eof_exception else throw io_exception
s_read negative = throw io_exception

-- The test of what `SSL_write` gives.
unfoldable pub checked : Answer → Answer
checked (took zero) = failed
checked (took (suc n)) = took (suc n)
checked failed = failed

abbrev pub all_checked : List Answer → List Answer
all_checked [] = []
all_checked (a ∷ answers) = checked a ∷ all_checked answers

-- `s_write`
unfoldable pub s_write_ssl : List Answer → List ℕ → List ℕ → List ℕ × Outcome (Unit {0})
unfolding s_write checked
s_write_ssl answers = s_write (all_checked answers)

-- `s_available`: what `SSL_pending` gives, or else what the channel below has.
unfoldable pub s_available_ssl : ℕ → Outcome ℕ → Outcome ℕ
s_available_ssl pending below = if pending == 0 then below else ok pending
