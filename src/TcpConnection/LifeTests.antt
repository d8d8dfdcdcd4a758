-- ===== src/TcpConnection/LifeTests.antt =====
-- A connection on descriptor 6 that comes to the loop of `Tests` and goes.
use easy_event.Base.{true, ℕ, ◌≡◌, refl, ap, inl, inr, List, [], ◌∷◌, none, some, pos, ℤ, ok, arith}
use easy_event.Channel.{readable, read_event}
use easy_event.Poller.{PollFd, PollAnswer, map_put}
use easy_event.Poller.Join.{joined_entry}
use easy_event.Poller.Report.{prepend}
use easy_event.Poller.Wiring.{IsWired, map_put_self, map_put_other}
use easy_event.Socket.{SocketCalls, not_accepted}
use easy_event.TcpServer.Names.{IsNamed, PrintsInts}
use easy_event.TcpConnection.{TcpConnection, k_connected, k_disconnected}
use easy_event.TcpConnection.Alone.{ReportsFor}
use easy_event.TcpConnection.Life.{serve-serve_new_connection}
use easy_event.TcpConnection.Loop.{serve}
use easy_event.TcpConnection.Server.{server_callbacks, serve_new_connection}
use easy_event.TcpConnection.Sound.{IsSound}
use easy_event.TcpConnection.Tests.{
  entry, os_with, one_byte, os_with-Wakes, callbacks, identity_of, server, first_loop, waiting,
  waiting-IsWired, waiting-unused,
}
use easy_event.TcpConnection.TurnTests.{no_others}

abbrev pub calls : SocketCalls
calls = record {
  socket_stream = none;
  socket_dgram = none;
  bind = λ fd addr. true;
  listen = λ fd. true;
  accept4 = λ fd. not_accepted;
  getsockname = λ fd. some (identity_of 6).local_addr;
  getsockopt_error = λ fd. none;
  errno = 0;
  close = λ fd. true;
}

abbrev pub print : ℕ → List ℕ
print i = i ∷ []

pub print-once : PrintsInts print
print-once i j _ _ e = cc

server-IsNamed : IsNamed print server
server-IsNamed = (((6, omega arith, refl), ((5, omega arith, refl), tt)), inl refl, omega arith)

-- poll(2) reports for the last entry that there is something to read.
abbrev last_only : List PollFd → PollAnswer
last_only asked = record {
  filled = entry read_event ∷ record (joined_entry 6) { revents = readable } ∷ [];
  num_events = pos 1;
}

last_only-ReportsFor :
    ReportsFor last_only
      (entry read_event ∷ joined_entry 6 ∷ [])
      (map_put (pos 6) (some 1) (waiting read_event).channel_map)
      1
      6
      readable
last_only-ReportsFor = record {
  answers = (refl, refl, inl refl, (refl, refl, inl refl, tt));
  number = refl;
  alone = ap (λ o. prepend o []) (map_put_self (pos 6) (some 1) (waiting read_event).channel_map);
  place = 1;
  entry = _;
  there = refl;
  its = refl;
  happened = refl;
}

serve-serve_new_connection_example :
    (c c' : TcpConnection) × (serve_new_connection
        (os_with one_byte)
        calls
        print
        callbacks
        1
        6
        (identity_of 6).peer_addr
        1
        (λ k. first_loop)
        (λ k. waiting read_event)
        server
      ≡ ok c)
    × (c.state ≡ k_connected)
    × IsSound 1 6 c
    × (serve
          (os_with one_byte)
          (server_callbacks (os_with one_byte) 1 callbacks)
          1
          9
          some
          no_others
          0
          last_only
          c
        ≡ ok c')
    × (c'.state ≡ k_disconnected)
    × (c'.wire ≡ [])
    × (c'.server.conn_map ≡ server.conn_map)
    × ((fd : ℤ) → c'.poller.channel_map fd ≡ (waiting read_event).channel_map fd)
    × IsWired c'.poller
serve-serve_new_connection_example =
    serve-serve_new_connection (os_with one_byte) calls print callbacks 1 9 6
      (identity_of 6).local_addr (identity_of 6).peer_addr 1 (λ k. first_loop)
      (λ k. waiting read_event) server some no_others 0 last_only readable print-once (omega arith)
      refl refl refl server-IsNamed refl refl (waiting-IsWired read_event) waiting-unused
      (map_put_other (pos 5) (some 0) (λ _. none) (pos 6) (λ same. absurd (cc)))
      (os_with-Wakes one_byte) (λ d. refl) (inr (refl, refl)) last_only-ReportsFor
