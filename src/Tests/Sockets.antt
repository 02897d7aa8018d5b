-- ===== src/Tests/Sockets.antt =====
-- Channels that connect, accept and write, and the descriptors that they leave (nodebus/nio).
use jsonbus.Prelude.{◌==◌, ◌≡◌, refl, arith, true, false, some, [], ◌∷◌}
use jsonbus.Nio.Sockets.{
  Process, remove, socket, Lookup, resolved, Epoll, connect_each, connect_host, connect_channel,
  bind_host,
}
use jsonbus.Nio.Sockets.Held.{CanReuse, IsHeld, bind_host-IsHeld}
use jsonbus.Nio.Sockets.Connected.{IsReleased, connect_channel-IsReleased}
use jsonbus.Nio.Server.{ServerSocketChannel, Incoming, accept_channel}
use jsonbus.Nio.Server.Options.{IsAccepted, accept_channel-IsAccepted}
use jsonbus.Nio.Writing.{took, Sends, Returns}
use jsonbus.Nio.Ssl.{Handshake, connect_ssl, s_write_ssl}
use jsonbus.Nio.Ssl.Freed.{IsFreed, connect_ssl-IsFreed, s_write_ssl-Sends}

-- A process with its three standard descriptors.
abbrev process : Process
process = record { opened = 2 ∷ 1 ∷ 0 ∷ []; watches = []; options = []; ssls = [] }

-- The first address refuses, the second connects.
abbrev two_addresses : Lookup
two_addresses = resolved (socket 3 true false) (socket 3 true true ∷ [])

abbrev epoll : Epoll
epoll = record { created = some 4; added = true }

second_connects : (connect_host two_addresses process).0.opened ≡ 3 ∷ 2 ∷ 1 ∷ 0 ∷ []
unfolding connect_host connect_each remove
second_connects = refl

connect_channel-IsReleased_example :
    IsReleased process (connect_channel two_addresses epoll (b'h' ∷ []) (b'8' ∷ b'0' ∷ []) process)
connect_channel-IsReleased_example =
    connect_channel-IsReleased two_addresses epoll 4 (b'h' ∷ []) (b'8' ∷ b'0' ∷ []) process refl

bind_host-IsHeld_example : IsHeld process (bind_host (λ _. true) two_addresses 131077 process)
unfolding CanReuse
bind_host-IsHeld_example =
    bind_host-IsHeld (λ _. true) (socket 3 true false) (socket 3 true true ∷ []) 131077 process
      (refl, (refl, tt)) refl

-- A server with two options, and a connection whose second option fails.
abbrev server : ServerSocketChannel
server = record {
  fd = 3;
  name = b'h' ∷ [];
  active = true;
  alive = 1;
  intlv = 60;
  idle = 0;
  cnt = 0;
}

abbrev incoming : Incoming
incoming = record {
  accepted = some 5;
  name_info = some (b'c' ∷ [], b'9' ∷ []);
  sets = λ _ v. v == 1;
}

accept_channel-IsAccepted_example :
    IsAccepted server process (accept_channel incoming epoll server process)
accept_channel-IsAccepted_example = accept_channel-IsAccepted incoming epoll server process

abbrev refused : Handshake
refused = record { made = some 7; fd_set = true; agreed = false }

connect_ssl-IsFreed_example :
    IsFreed
      (some 7)
      process
      (connect_ssl two_addresses epoll refused (b'h' ∷ []) (b'8' ∷ []) process)
connect_ssl-IsFreed_example =
    connect_ssl-IsFreed two_addresses epoll 4 refused (b'h' ∷ []) (b'8' ∷ []) process refl

s_write_ssl-Sends_example :
    Sends [] (1 ∷ 2 ∷ 3 ∷ []) (s_write_ssl (took 2 ∷ took 1 ∷ took 1 ∷ []) (1 ∷ 2 ∷ 3 ∷ []) [])
    × Returns (s_write_ssl (took 2 ∷ took 1 ∷ took 1 ∷ []) (1 ∷ 2 ∷ 3 ∷ []) [])
s_write_ssl-Sends_example =
    s_write_ssl-Sends (took 2 ∷ took 1 ∷ took 1 ∷ []) (1 ∷ 2 ∷ 3 ∷ []) [] (omega arith)
