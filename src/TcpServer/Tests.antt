-- ===== src/TcpServer/Tests.antt =====
-- A server for 4 threads, named "A", with connections on the descriptors 8 and 9.
use easy_event.Base.{ℕ, List, [], ◌∷◌, none, some, true}
use easy_event.CapsuledAddr.{SockaddrIn}
use easy_event.Socket.{SocketCalls, accepted}
use easy_event.TcpServer.{TcpServer, new_server}

abbrev pub address : SockaddrIn
address = record { sin_family = 2; sin_port = 80; sin_addr = 77 }

abbrev pub calls : SocketCalls
calls = record {
  socket_stream = some 4;
  socket_dgram = none;
  bind = λ fd addr. true;
  listen = λ fd. true;
  accept4 = λ fd. accepted 8 address;
  getsockname = λ fd. some address;
  getsockopt_error = λ fd. none;
  errno = 0;
  close = λ fd. true;
}

-- "#" and one character.
abbrev pub print : ℕ → List ℕ
print i = 35 ∷ i ∷ []

-- The server with one connection.
abbrev one : TcpServer
one = record (new_server 3 (65 ∷ [])) {
  next_conn_id = 2;
  conn_map =
      record {
        conn_name = 65 ∷ 35 ∷ 1 ∷ [];
        io_loop = 3;
        connfd = 7;
        local_addr = address;
        peer_addr = address;
      }
      ∷ [];
}
