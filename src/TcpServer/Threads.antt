-- ===== src/TcpServer/Threads.antt =====
-- net/TcpServer.cpp: `start` and `setThreadNum` against the loops that new connections get.
use easy_event.Base.{
  some, ℕ, ◌≡◌, refl, true, List, [], ◌∷◌, pos, length, ◌++◌, ◌+◌, arith, Result, ok, ◌>>=◌, false,
  ◌<◌, ◌≤◌, Option, lt→ltb, ap,
}
use easy_event.CapsuledAddr.{SockaddrIn}
use easy_event.Socket.{SocketCalls, get_local_addr}
use easy_event.Acceptor.{Acceptor}
use easy_event.Acceptor.Listen.{IsListening, IsNew}
use easy_event.EventLoop.{EventLoop}
use easy_event.EventLoopThreadPool
use easy_event.EventLoopThreadPool.Turns.{get_next_loop-base}
use easy_event.TcpServer.{
  TcpServer, Connection, new_server, set_thread_num, new_connection, insert, int_max,
}
use easy_event.TcpServer.Start.{StartTask, Starting, start_in, start_in-here}

-- One new connection after another, in the loop's thread.
pub accept_all :
    SocketCalls
    → (ℕ → List ℕ)
    → List (ℕ × SockaddrIn)
    → TcpServer
    → Result (List Connection × TcpServer)
accept_all calls print [] s = ok ([], s)
accept_all calls print ((fd, peer) ∷ fds) s = do
  (conn, s₁) ← new_connection calls print true fd peer s
  (rest, s₂) ← accept_all calls print fds s₁
  ok (conn ∷ rest, s₂)

abbrev pub AllOn : ℕ → List Connection → Type 0
AllOn base [] = Unit {0}
AllOn base (c ∷ cs) = (c.io_loop ≡ base) × AllOn base cs

accept_all-unstarted :
    (calls : SocketCalls) (local : ℕ → SockaddrIn)
    → ((fd : ℕ) → calls.getsockname fd ≡ some (local fd))
    → (print : ℕ → List ℕ) (fds : List (ℕ × SockaddrIn)) (base : ℕ) (s : TcpServer)
    → s.next_conn_id + length fds ≤ int_max
    → s.thread_pool.loops ≡ []
    → s.thread_pool.base_loop ≡ base
    → (conns : List Connection) × (s' : TcpServer) × (accept_all calls print fds s ≡ ok (conns, s'))
      × (length conns ≡ length fds)
      × AllOn base conns
unfolding accept_all new_connection get_local_addr
accept_all-unstarted calls local address print [] base s room none_own is_base =
    ([], s, refl, refl, tt)
accept_all-unstarted calls local address print ((fd, peer) ∷ fds) base s room none_own is_base =
    let conn : Connection = record {
      conn_name = s.name ++ print s.next_conn_id;
      io_loop = s.thread_pool.base_loop;
      connfd = fd;
      local_addr = local fd;
      peer_addr = peer;
    } in
    let s₁ : TcpServer = record s {
      next_conn_id = s.next_conn_id + 1;
      conn_map = insert conn s.conn_map;
    } in
    let (rest, s', did, size, on_base) =
      accept_all-unstarted calls local address print fds base s₁ (omega arith) none_own is_base in
    (
      conn ∷ rest,
      s',
      rw (
        lt→ltb s.next_conn_id int_max (omega arith),
        address fd,
        get_next_loop-base s.thread_pool none_own,
        did,
      ),
      omega (arith, size),
      (is_base, on_base),
    )

-- A new server is told to use `n` threads and is started in its loop's thread; its acceptor is new,
-- listen(2) succeeds on the socket, every descriptor has an address, and the new connections are fewer than
-- the largest `int`. Then it is started and its acceptor listens, and it serves every new connection, but
-- with its base loop: `start` does not start the pool.
pub start-single :
    (calls : SocketCalls) (local : ℕ → SockaddrIn)
    → ((fd : ℕ) → calls.getsockname fd ≡ some (local fd))
    → (print : ℕ → List ℕ) (fds : List (ℕ × SockaddrIn)) (base n : ℕ) (name : List ℕ)
      (eventfd_write : ℕ → Option ℕ) (current fd : ℕ) (a : Acceptor) (l : EventLoop StartTask)
    → l.thread_id ≡ current
    → calls.listen fd ≡ true
    → IsNew fd a
    → a.listenning ≡ false
    → length fds < int_max
    → (w : Starting) × (conns : List Connection) × (s' : TcpServer) × ((set_thread_num
            (pos n)
            (new_server base name)
          >>= λ s.
              start_in calls eventfd_write current (record { server = s; acceptor = a; loop = l }))
        ≡ ok w)
      × (w.server.started ≡ true)
      × IsListening fd w.acceptor
      × (accept_all calls print fds w.server ≡ ok (conns, s'))
      × (length conns ≡ length fds)
      × AllOn base conns
unfolding set_thread_num new_server
start-single calls local address print fds base n name eventfd_write current fd a l in_thread
      listens new silent few =
    let s : TcpServer = record (new_server base name) {
      thread_pool = EventLoopThreadPool.set_thread_num (pos n) (EventLoopThreadPool.new_pool base);
    } in
    let (w, did, up, listening, same_pool, first) =
      start_in-here calls eventfd_write current fd (record { server = s; acceptor = a; loop = l })
        in_thread listens new silent in
    let (conns, s', accepted, size, on_base) =
      accept_all-unstarted calls local address print fds base w.server (omega (arith, first))
        (ap (λ (p : EventLoopThreadPool.EventLoopThreadPool). p.loops) same_pool)
        (ap (λ (p : EventLoopThreadPool.EventLoopThreadPool). p.base_loop) same_pool) in
    (w, conns, s', did, up, listening, accepted, size, on_base)
