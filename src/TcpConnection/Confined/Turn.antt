-- ===== src/TcpConnection/Confined/Turn.antt =====
-- net/TcpConnection.cpp and net/TcpServer.cpp: what a connection's loop runs for it changes only what is
-- its own.
use easy_event.Base.{
  Ensures-if, List, ℕ, ◌≡◌, refl, Bool, true, false, aborted, Ensures, Ensures-bind, Ensures-result,
  Ensures-fault,
}
use easy_event.Channel.{handle_event}
use easy_event.Channel.Dispatch.{Callback, on_close, on_error, on_read, on_write, invoke}
use easy_event.Channel.Frame.{handle_event-Ensures}
use easy_event.Poller.Frame.{Spares-put}
use easy_event.Poller.Uses.{Uses-refl}
use easy_event.Poller.Request.{changed, changed-IsWired}
use easy_event.TcpConnection.Alone.{flag-Keeps}
use easy_event.TcpServer
use easy_event.TcpServer.{TcpServer, Connection, holds_name, same_name}
use easy_event.EventLoop.{
  run_in_loop, EventLoop, queue_in_loop, do_pending_functors, swap_functors, set_calling,
}
use easy_event.EventLoop.Rounds.{do_pending_functors-Ensures}
use easy_event.EventLoop.Queue.{queue_in_loop-thread, run_in_loop-Ensures}
use easy_event.TcpConnection.{
  send, shutdown, is_connected, k_disconnecting, remove_connection, remove_connection_in_loop,
  send_later, shut_down_later, connect_destroyed_later, connect_established_later,
  remove_connection_later, run_functor, set_loop, TcpConnection, Functor, write_complete_later, Os,
  Callbacks, channel_of, in_loop,
}
use easy_event.TcpConnection.Loop.{channel_callbacks, set_handling, handling_flag}
use easy_event.TcpConnection.Confined.{
  Keeping, From, From-refl, From-trans, AreConfined, queue-From,
}
use easy_event.TcpConnection.Confined.Handlers.{
  shut_down_in_loop-From, handle_write-From, send_in_loop-From, handle_close-From, handle_read-From,
  connect_destroyed-From, connect_established-From,
}

module _ (K : Keeping) where
  -- The server's own close callback takes no other connection out of its map.
  remove_connection_in_loop-From :
      (os : Os) (current : ℕ) (c : TcpConnection)
      → Ensures (From K c) (remove_connection_in_loop os current c)
  unfolding remove_connection_in_loop
  remove_connection_in_loop-From os current c =
      Ensures-bind (λ (r : ℕ × TcpServer). K.keeps c.identity.conn_name c.server r.1)
        (TcpServer.remove_connection_in_loop (in_loop current c) c.identity c.server) _
        (K.keeps_removed (in_loop current c) c.identity c.server)
        λ r others.
          Ensures-bind (λ (l : EventLoop Functor). l.thread_id ≡ c.loop.thread_id)
            (queue_in_loop os.eventfd_write current connect_destroyed_later c.loop) _
            (queue_in_loop-thread os.eventfd_write current connect_destroyed_later c.loop)
            λ l same.
              Ensures-result (record c { server = r.1; loop = l })
                (record {
                  channel_ = refl;
                  identity_ = refl;
                  poller_ = Uses-refl c.channel c.poller;
                  thread_ = same;
                  server_ = others;
                })

  pub remove_connection-From :
      (os : Os) (current : ℕ) (c : TcpConnection)
      → Ensures (From K c) (remove_connection os current c)
  unfolding remove_connection
  remove_connection-From os current c =
      run_in_loop-Ensures (λ (d : TcpConnection). d.loop) set_loop
        (λ task. remove_connection_in_loop os current) os.eventfd_write current
        remove_connection_later c (remove_connection_in_loop-From os current c)
        (queue-From K os current remove_connection_later c)

  run_functor-From :
      {T : Type 0} (os : Os) (cb : Callbacks T) (current : ℕ) (f : Functor) (c : TcpConnection)
      → AreConfined K cb
      → Ensures (From K c) (run_functor os cb current f c)
  unfolding run_functor
  run_functor-From os cb current (send_later message) c h =
      send_in_loop-From K os cb current message c
  run_functor-From os cb current shut_down_later c h = shut_down_in_loop-From K os current c
  run_functor-From os cb current write_complete_later c h = h.complete c
  run_functor-From os cb current connect_established_later c h =
      connect_established-From K cb current c h.conn
  run_functor-From os cb current connect_destroyed_later c h =
      connect_destroyed-From K cb current c h.conn
  run_functor-From os cb current remove_connection_later c h =
      remove_connection_in_loop-From os current c

  -- A new set of tasks, and a new flag of the channel.
  pub set_loop-From :
      (l : EventLoop Functor) (c : TcpConnection)
      → l.thread_id ≡ c.loop.thread_id
      → From K c (set_loop l c)
  set_loop-From l c same = record {
    channel_ = refl;
    identity_ = refl;
    poller_ = Uses-refl c.channel c.poller;
    thread_ = same;
    server_ = K.keeps_refl c.identity.conn_name c.server;
  }

  set_handling-From : (b : Bool) (c : TcpConnection) → From K c (set_handling b c)
  unfolding changed
  set_handling-From b c = record {
    channel_ = refl;
    identity_ = refl;
    poller_ = record {
      spares =
          Spares-put c.channel c.poller (handling_flag b (channel_of c)) c.poller.pollfds
            c.poller.channel_map refl (λ fd ne. refl);
      wires = λ n h w. changed-IsWired (handling_flag b) (flag-Keeps b) c.channel c.poller w;
    };
    thread_ = refl;
    server_ = K.keeps_refl c.identity.conn_name c.server;
  }

  -- The event of the connection's channel, and a round of the functors.
  pub handle_event-From :
      {T : Type 0} (os : Os) (cb : Callbacks T) (current : ℕ) (t : T) (c : TcpConnection)
      → AreConfined K cb
      → Ensures
          (From K c)
          (handle_event channel_of set_handling (channel_callbacks os cb current) t c)
  handle_event-From os cb current t c h =
      handle_event-Ensures (From K) (From-refl K) (From-trans K) channel_of set_handling
        (channel_callbacks os cb current) t set_handling-From each c
    where
      each :
          (k : Callback) (d : TcpConnection)
          → Ensures (From K d) (invoke (channel_callbacks os cb current) t k d)
      each on_close d = handle_close-From K cb current d h.close
      each on_error d = Ensures-fault aborted
      each on_read d = handle_read-From K os cb t current d h
      each on_write d = handle_write-From K os cb current d

  pub do_pending_functors-From :
      {T : Type 0} (os : Os) (cb : Callbacks T) (current : ℕ) (c : TcpConnection)
      → AreConfined K cb
      → Ensures (From K c) (
          do_pending_functors
            (λ (x : TcpConnection). x.loop)
            set_loop
            (run_functor os cb current)
            c)
  do_pending_functors-From os cb current c h =
      do_pending_functors-Ensures (From K) (From-refl K) (From-trans K)
        (λ (x : TcpConnection). x.loop) set_loop (run_functor os cb current)
        (λ d. set_loop-From (swap_functors (set_calling true d.loop)) d refl)
        (λ d. set_loop-From (set_calling false d.loop) d refl)
        (λ f d. run_functor-From os cb current f d h) c

  -- `send` and `shutdown`, in any thread.
  in_loop-From :
      {T : Type 0} (os : Os) (cb : Callbacks T) (current : ℕ) (f : Functor) (c : TcpConnection)
      → AreConfined K cb
      → Ensures (From K c) (
          run_in_loop
            (λ (d : TcpConnection). d.loop)
            set_loop
            (run_functor os cb current)
            os.eventfd_write
            current
            f
            c)
  in_loop-From os cb current f c h =
      run_in_loop-Ensures (λ (d : TcpConnection). d.loop) set_loop (run_functor os cb current)
        os.eventfd_write current f c (run_functor-From os cb current f c h)
        (queue-From K os current f c)

  pub send-From :
      {T : Type 0} (os : Os) (cb : Callbacks T) (current : ℕ) (message : List ℕ) (c : TcpConnection)
      → AreConfined K cb
      → Ensures (From K c) (send os cb current message c)
  unfolding send
  send-From os cb current message c h =
      Ensures-if (is_connected c.state) _ _ (in_loop-From os cb current (send_later message) c h)
        (Ensures-result c (From-refl K c))

  pub shutdown-From :
      {T : Type 0} (os : Os) (cb : Callbacks T) (current : ℕ) (c : TcpConnection)
      → AreConfined K cb
      → Ensures (From K c) (shutdown os cb current c)
  unfolding shutdown
  shutdown-From os cb current c h =
      let d : TcpConnection = record c { state = k_disconnecting } in
      Ensures-if (is_connected c.state) _ _ (in_loop-From os cb current shut_down_later d h)
        (Ensures-result c (From-refl K c))
