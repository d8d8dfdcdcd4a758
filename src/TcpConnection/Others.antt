-- ===== src/TcpConnection/Others.antt =====
-- net/TcpConnection.cpp and net/TcpServer.cpp: what the other connections of a loop and its server may do
-- while one connection waits.
pub mod Waits
use easy_event.Base.{ℕ, ◌≡◌, ◌≢◌, Bool, false, List, some, ℤ, pos, Result, ok}
use easy_event.CapsuledAddr.{SockaddrIn}
use easy_event.Socket.{SocketCalls}
use easy_event.Channel.{handle_event}
use easy_event.Poller.{Poller}
use easy_event.EventLoop.{EventLoop, do_pending_functors}
use easy_event.TcpServer
use easy_event.TcpServer.{Connection, same_name}
use easy_event.TcpConnection.{
  TcpConnection, Functor, Os, Callbacks, channel_of, send, shutdown, connect_established,
  connect_destroyed, new_connection, run_functor, set_loop,
}
use easy_event.TcpConnection.Confined.{AreConfined, Keeping}
use easy_event.TcpServer.Listed.{
  KeepsEntries, KeepsEntries-refl, KeepsEntries-trans, remove_connection_in_loop-KeepsEntries,
}
use easy_event.TcpConnection.Loop.{channel_callbacks, set_handling}

-- A connection leaves the entries of the others alone in its server's map.
abbrev pub entries_kept : Keeping
entries_kept = record {
  keeps = KeepsEntries;
  keeps_refl = KeepsEntries-refl;
  keeps_trans = KeepsEntries-trans;
  keeps_removed = remove_connection_in_loop-KeepsEntries;
}

-- What is called on a connection: by its channel's event, which carries the time of the poll, by the loop
-- for the connection's functors, by its users, and by the server.
pub data Operation (T : Type 0) : Type 0 where
  handles : T → Operation T
  runs_functors : Operation T
  sends : List ℕ → Operation T
  shuts_down : Operation T
  starts : Operation T
  ends : Operation T

unfoldable pub perform :
    {T : Type 0} → Os → Callbacks T → ℕ → Operation T → TcpConnection → Result TcpConnection
perform os cb current (handles t) c =
    handle_event channel_of set_handling (channel_callbacks os cb current) t c
perform os cb current runs_functors c =
    do_pending_functors (λ (d : TcpConnection). d.loop) set_loop (run_functor os cb current) c
perform os cb current (sends message) c = send os cb current message c
perform os cb current shuts_down c = shutdown os cb current c
perform os cb current starts c = connect_established cb current c
perform os cb current ends c = connect_destroyed cb current c

-- What connections of one loop and one server share. Each has its own part of the loop's queue.
pub record Shared : Type 0 where
  pub poller : Poller
  pub server : TcpServer.TcpServer

abbrev pub with_shared : Shared → TcpConnection → TcpConnection
with_shared w c = record c { poller = w.poller; server = w.server }

abbrev pub shared_of : TcpConnection → Shared
shared_of c = record { poller = c.poller; server = c.server }

-- Beside the connection `d`, another one does something, in the thread `current`, whatever the system calls
-- and its callbacks are that change only what is its own; or the server makes the entry for a new
-- connection, whose number `print` prints; or that connection's object is made, with a channel to which the poller does not point.
pub data Step (T : Type 0) (print : ℕ → List ℕ) (d : TcpConnection) (w : Shared)
    : Shared → Type 0 where
  acts :
      (os : Os) (cb : Callbacks T) (current n : ℕ) (o : Operation T) (c c' : TcpConnection)
      → AreConfined entries_kept cb
      → c.channel ≢ d.channel
      → (w.poller.channels c.channel).fd ≡ pos n
      → n ≢ d.identity.connfd
      → same_name c.identity.conn_name d.identity.conn_name ≡ false
      → c.loop.thread_id ≡ d.loop.thread_id
      → perform os cb current o (with_shared w c) ≡ ok c'
      → Step T print d w (shared_of c')
  accepts :
      (calls : SocketCalls) (in_loop : Bool) (connfd : ℕ) (peer_addr : SockaddrIn)
      (conn : Connection) (kept : TcpServer.TcpServer)
      → TcpServer.new_connection calls print in_loop connfd peer_addr w.server ≡ ok (conn, kept)
      → Step T print d w (record w { server = kept })
  makes :
      (l : EventLoop Functor) (channel : ℕ) (identity : Connection) (c : TcpConnection)
      → ((fd : ℤ) → w.poller.channel_map fd ≢ some channel)
      → new_connection l w.poller w.server channel identity ≡ ok c
      → Step T print d w (shared_of c)

pub data Steps (T : Type 0) (print : ℕ → List ℕ) (d : TcpConnection) (w : Shared)
    : Shared → Type 0 where
  here : Steps T print d w w
  next : {u v : Shared} → Steps T print d w u → Step T print d u v → Steps T print d w v
