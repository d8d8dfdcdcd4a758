-- ===== src/Acceptor/Tests.antt =====
-- An acceptor on descriptor 4, in a poller that knows nothing yet.
use easy_event.Base.{◌≡◌, refl, [], none, some, true, pos, ok, ◌>>=◌, arith}
use easy_event.Channel.{read_event, new_channel}
use easy_event.CapsuledAddr.{SockaddrIn}
use easy_event.Socket.{SocketCalls, not_accepted}
use easy_event.Poller.{Poller}
use easy_event.Poller.Wiring.{IsWired}
use easy_event.Acceptor.{Acceptor, new_acceptor, listen}
use easy_event.Acceptor.Listen.{listen-IsWired}

abbrev address : SockaddrIn
address = record { sin_family = 2; sin_port = 80; sin_addr = 77 }

abbrev calls : SocketCalls
calls = record {
  socket_stream = some 4;
  socket_dgram = none;
  bind = λ fd addr. true;
  listen = λ fd. true;
  accept4 = λ fd. not_accepted;
  getsockname = λ fd. some address;
  getsockopt_error = λ fd. none;
  errno = 0;
  close = λ fd. true;
}

abbrev nothing : Poller
nothing = record {
  owner_loop = 3;
  pollfds = [];
  channel_map = λ fd. none;
  channels = λ p. new_channel 3 (pos 0);
}

nothing-IsWired : IsWired nothing
nothing-IsWired = record {
  entries = λ fd p e. absurd (cc);
  slots = λ i pfd e. absurd (ground arith);
}

listen-IsWired_example :
    (a : Acceptor) × ((new_acceptor calls nothing 1 address >>= listen calls true) ≡ ok a)
    × (a.listenning ≡ true)
    × IsWired a.poller
    × (a.poller.channel_map (pos 4) ≡ some 1)
    × ((a.poller.channels 1).events ≡ read_event)
listen-IsWired_example =
    listen-IsWired calls nothing 1 4 address refl refl refl nothing-IsWired (λ fd e. absurd (cc))
      refl
