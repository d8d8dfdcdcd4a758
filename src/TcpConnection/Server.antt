-- ===== src/TcpConnection/Server.antt =====
-- net/TcpServer.cpp, `newConnection`, with the connection object that it makes.
use easy_event.Base.{ℕ, List, some, Result, ◌>>=◌}
use easy_event.CapsuledAddr.{SockaddrIn}
use easy_event.Socket.{SocketCalls}
use easy_event.Poller.{Poller}
use easy_event.EventLoop.{EventLoop, is_in_loop_thread, run_in_loop}
use easy_event.TcpServer
use easy_event.TcpConnection.{
  TcpConnection, Functor, connect_established_later, Os, Callbacks, new_connection, run_functor,
  set_loop, remove_connection,
}

-- What the server sets in a new connection: the callbacks of its user, and its own for the end, where the
-- connection has the server's loop.
abbrev pub server_callbacks : {T : Type 0} → Os → ℕ → Callbacks T → Callbacks T
server_callbacks os current cb = record cb { close_cb = some (remove_connection os current) }

-- `channel` is the address of the new channel object; `loops` and `pollers` are the loops, by their numbers,
-- and their pollers, and the connection is made and started on the one that the pool gives.
unfoldable pub serve_new_connection :
    {T : Type 0}
    → Os
    → SocketCalls
    → (ℕ → List ℕ)
    → Callbacks T
    → ℕ
    → ℕ
    → SockaddrIn
    → ℕ
    → (ℕ → EventLoop Functor)
    → (ℕ → Poller)
    → TcpServer.TcpServer
    → Result TcpConnection
serve_new_connection os calls print cb current connfd peer_addr channel loops pollers server = do
  (conn, kept) ←
      TcpServer.new_connection calls print (is_in_loop_thread current (loops server.loop)) connfd
        peer_addr server
  c ← new_connection (loops conn.io_loop) (pollers conn.io_loop) kept channel conn
  run_in_loop (λ (d : TcpConnection). d.loop) set_loop
      (run_functor os (server_callbacks os current cb) current) os.eventfd_write current
      connect_established_later c
