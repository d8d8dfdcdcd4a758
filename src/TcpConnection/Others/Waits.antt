-- ===== src/TcpConnection/Others/Waits.antt =====
-- net/TcpConnection.cpp and net/TcpServer.cpp: a connection is untouched by what the others do.
use easy_event.Base.{
  Bool, ok, ℕ, ◌≡◌, ◌≢◌, refl, sym, ap, ◌∙◌, subst, some, ℤ, pos, Ensures, Ensures-after,
  Ensures-result, List,
}
use easy_event.Buffer.{new_buffer}
use easy_event.Channel.{Channel, new_channel, is_writing}
use easy_event.EventLoop.{EventLoop}
use easy_event.Poller.{Poller}
use easy_event.Poller.Join.{with_object, with_object-IsWired}
use easy_event.Poller.Wiring.{channel_put_other}
use easy_event.CapsuledAddr.{SockaddrIn}
use easy_event.Socket.{SocketCalls}
use easy_event.TcpServer
use easy_event.TcpServer.{TcpServer, Connection}
use easy_event.TcpServer.Names.{PrintsInts}
use easy_event.TcpServer.Listed.{
  found, IsListed, KeepsEntries-IsListed, new_connection-IsListed, new_connection-keeps_IsListed,
}
use easy_event.TcpConnection.{TcpConnection, Functor, Os, Callbacks, new_connection}
use easy_event.TcpConnection.Beside.{beside, beside-IsSound}
use easy_event.TcpConnection.Confined.{From, AreConfined}
use easy_event.TcpConnection.Confined.Handlers.{connect_established-From, connect_destroyed-From}
use easy_event.TcpConnection.Confined.Turn.{
  handle_event-From, do_pending_functors-From, send-From, shutdown-From,
}
use easy_event.TcpConnection.Others.{
  Operation, handles, runs_functors, sends, shuts_down, starts, ends, perform, Shared, with_shared,
  entries_kept, Step, acts, accepts, makes, Steps, here, next,
}
use easy_event.TcpConnection.Sound.{IsSound}

perform-From :
    {T : Type 0} (os : Os) (cb : Callbacks T) (current : ℕ) (o : Operation T) (c : TcpConnection)
    → AreConfined entries_kept cb
    → Ensures (From entries_kept c) (perform os cb current o c)
unfolding perform
perform-From os cb current (handles t) c h = handle_event-From entries_kept os cb current t c h
perform-From os cb current runs_functors c h =
    do_pending_functors-From entries_kept os cb current c h
perform-From os cb current (sends message) c h = send-From entries_kept os cb current message c h
perform-From os cb current shuts_down c h = shutdown-From entries_kept os cb current c h
perform-From os cb current starts c h = connect_established-From entries_kept cb current c h.conn
perform-From os cb current ends c h = connect_destroyed-From entries_kept cb current c h.conn

-- The loop matters by its thread only, and the server not at all.
IsSound-else :
    (current n : ℕ) (l : EventLoop Functor) (v : TcpServer) (d : TcpConnection)
    → l.thread_id ≡ current
    → IsSound current n d
    → IsSound current n (record d { loop = l; server = v })
IsSound-else current n l v d in_thread s = record {
  here = in_thread;
  valid = s.valid;
  wired = s.wired;
  known = s.known;
  mine = s.mine;
  idle = s.idle;
  busy = s.busy;
}

-- The constructor of a connection changes a channel object to which the poller does not point.
new_connection-makes :
    (l : EventLoop Functor) (s : Poller) (server : TcpServer) (channel : ℕ) (identity : Connection)
    → Ensures
        (λ (c : TcpConnection).
          (c.poller ≡ with_object channel (new_channel s.owner_loop (pos identity.connfd)) s)
          × (c.server ≡ server))
        (new_connection l s server channel identity)
unfolding new_connection
new_connection-makes l s server channel identity =
    Ensures-after new_buffer _
      λ input. Ensures-after new_buffer _ λ output. Ensures-result _ (refl, refl)

with_object-IsSound :
    (current n channel : ℕ) (ch : Channel) (w : Shared) (d : TcpConnection)
    → ((fd : ℤ) → w.poller.channel_map fd ≢ some channel)
    → IsSound current n (with_shared w d)
    → IsSound current n (with_shared (record w { poller = with_object channel ch w.poller }) d)
with_object-IsSound current n channel ch w d unused s =
    let kept : (with_object channel ch w.poller).channels d.channel ≡ w.poller.channels d.channel =
      channel_put_other channel ch w.poller.channels d.channel
        (λ same. unused (pos n) (s.known ∙ ap some (sym same))) in
    let waits : is_writing ((with_object channel ch w.poller).channels d.channel)
        ≡ is_writing (w.poller.channels d.channel) =
      ap (λ (c : Channel). is_writing c) kept in
    record {
      here = s.here;
      valid = s.valid;
      wired = with_object-IsWired channel ch w.poller s.wired unused;
      known = s.known;
      mine = ap (λ (c : Channel). c.loop_ptr) kept ∙ s.mine;
      idle = λ e. waits ∙ s.idle e;
      busy = λ ne. waits ∙ s.busy ne;
    }

abbrev Waits : (ℕ → List ℕ) → ℕ → TcpConnection → Shared → Type 0
Waits print current d w =
    IsSound current d.identity.connfd (with_shared w d) × IsListed print d.identity w.server

Step-Waits :
    {T : Type 0} (print : ℕ → List ℕ) (current : ℕ) (d : TcpConnection) (w w' : Shared)
    → PrintsInts print
    → d.loop.thread_id ≡ current
    → Waits print current d w
    → Step T print d w w'
    → Waits print current d w'
Step-Waits print current d w w' once in_thread (sound, listed)
      (acts os cb caller n o c c' confined apart its others_fd differ same_thread did) =
    let f : From entries_kept (with_shared w c) c' =
      (perform-From os cb caller o (with_shared w c) confined).gives c' did in
    (
      IsSound-else current d.identity.connfd d.loop c'.server (beside d c') in_thread (
          beside-IsSound entries_kept current n d.identity.connfd (with_shared w c) c' d f its
            others_fd apart
            (IsSound-else current d.identity.connfd c.loop w.server (with_shared w d)
              (same_thread ∙ in_thread) sound)),
      KeepsEntries-IsListed print c.identity.conn_name d.identity w.server c'.server differ
          f.server_ listed,
    )
Step-Waits print current d w w' once in_thread (sound, listed)
      (accepts calls in_loop connfd peer_addr conn kept did) =
    (
      IsSound-else current d.identity.connfd d.loop kept (with_shared w d) in_thread sound,
      (new_connection-keeps_IsListed calls print in_loop connfd peer_addr d.identity w.server once
            listed).gives
          (conn, kept) did,
    )
Step-Waits print current d w w' once in_thread (sound, listed)
      (makes l channel identity c unused did) =
    let (its_poller, its_server) =
      (new_connection-makes l w.poller w.server channel identity).gives c did in
    let ch : Channel = new_channel w.poller.owner_loop (pos identity.connfd) in
    (
      subst (λ p. IsSound current d.identity.connfd (record d { poller = p; server = c.server }))
          (sym its_poller)
          (IsSound-else current d.identity.connfd d.loop c.server
            (with_shared (record w { poller = with_object channel ch w.poller }) d) in_thread
            (with_object-IsSound current d.identity.connfd channel ch w d unused sound)),
      subst (IsListed print d.identity) (sym its_server) listed,
    )

Steps-Waits_all :
    {T : Type 0} (print : ℕ → List ℕ) (current : ℕ) (d : TcpConnection) (w w' : Shared)
    → PrintsInts print
    → d.loop.thread_id ≡ current
    → Waits print current d w
    → Steps T print d w w'
    → Waits print current d w'
Steps-Waits_all print current d w w' once in_thread waits here = waits
Steps-Waits_all print current d w w' once in_thread waits (next before step) =
    Step-Waits print current d _ w' once in_thread
      (Steps-Waits_all print current d w _ once in_thread waits before) step

-- A connection that the server has just made, and that is sound, stays sound, and the server keeps it: the
-- entry under its name in the map is its own, whatever happens beside it: other connections of its loop, with
-- other channels, descriptors and names, whose callbacks change only what is their own, have their events
-- handled and their functors run, are sent to, shut down, established and destroyed, in any thread; the server
-- accepts connections; and their objects are made; in any order and any number of times, where none of this
-- stops the program. `print` tells apart the numbers that an `int` can have.
pub Steps-Waits :
    {T : Type 0} (calls : SocketCalls) (print : ℕ → List ℕ) (in_loop : Bool) (connfd : ℕ)
    (peer_addr : SockaddrIn) (server : TcpServer) (current : ℕ) (d : TcpConnection) (w w' : Shared)
    → PrintsInts print
    → TcpServer.new_connection calls print in_loop connfd peer_addr server
      ≡ ok (d.identity, w.server)
    → d.loop.thread_id ≡ current
    → IsSound current d.identity.connfd (with_shared w d)
    → Steps T print d w w'
    → IsSound current d.identity.connfd (with_shared w' d)
      × (found d.identity.conn_name w'.server.conn_map ≡ some d.identity)
Steps-Waits calls print in_loop connfd peer_addr server current d w w' once made in_thread sound
      steps =
    let (sound', listed) =
      Steps-Waits_all print current d w w' once in_thread
        (
          sound,
          (new_connection-IsListed calls print in_loop connfd peer_addr server).gives
              (d.identity, w.server) made,
        )
        steps in
    (sound', listed.entry)
