-- ===== src/UdpServer.antt =====
-- net/UdpServer.h and net/UdpServer.cpp: a server for datagrams, over its handler and a pool of loops.
pub mod Deliver
mod Tests
use easy_event.Base.{
  ℕ, Bool, true, false, not, List, [], ◌∷◌, ◌++◌, Option, none, some, ◌==◌, if◌then◌else◌, ℤ,
  is_negative, Result, ok, ◌>>=◌, ◌>>◌, assert,
}
use easy_event.CapsuledAddr.{SockaddrIn}
use easy_event.Poller.{Poller}
use easy_event.Socket.{SocketCalls}
use easy_event.EventLoopThreadPool
use easy_event.EventLoopThreadPool.{new_pool, get_next_loop}
use easy_event.UdpHandler
use easy_event.UdpHandler.{
  UdpCallbacks, RecvAnswer, new_udp_handler, call_back, handle_receive_message, handle_send_message,
}

-- What the server hands to `runInLoop`: the callback for connections, `handleReceiveMessage` and
-- `handleSendMessage`.
pub data UdpTask : Type 0 where
  connection_task : UdpTask
  receive_task : UdpTask
  send_task : List ℕ → ℕ → SockaddrIn → UdpTask

-- `queued` is what `runInLoop` has queued on loops of other threads, in order.
pub record UdpServer : Type 0 where
  pub loop : ℕ
  pub handler : UdpHandler.UdpHandler
  pub thread_pool : EventLoopThreadPool.EventLoopThreadPool
  pub started : Bool
  pub next_conn_id : ℕ
  pub queued : List (ℕ × UdpTask)

-- The constructor.
pub new_udp_server : SocketCalls → Poller → ℕ → ℕ → SockaddrIn → Result UdpServer
new_udp_server calls s loop channel listen_addr = do
  h ← new_udp_handler calls s channel listen_addr
  ok (record {
    loop = loop;
    handler = h;
    thread_pool = new_pool loop;
    started = false;
    next_conn_id = 1;
    queued = [];
  })

pub set_thread_num : ℤ → UdpServer → Result UdpServer
set_thread_num num s = do
  assert (not (is_negative num))
  ok (record s { thread_pool = EventLoopThreadPool.set_thread_num num s.thread_pool })

-- In the loop's thread, where `runInLoop` calls `listen` at once.
pub start : UdpServer → Result UdpServer
start s =
    let listening = do
      h ← UdpHandler.listen true s.handler
      ok (record s { started = true; handler = h })
    in if s.handler.listenning then ok (record s { started = true }) else listening

-- The server's callbacks for messages are its handler's; the one for connections is its own, which
-- the record has in the place of the handler's. `recvfrom` and `old` are the answer of the system call
-- and the stack under the array.
module _ (cb : UdpCallbacks UdpServer) (recvfrom : ℕ → RecvAnswer) (old : List ℕ) where
  pub run_task : UdpTask → UdpServer → Result UdpServer
  run_task connection_task s = call_back cb.new_conn_cb s
  run_task receive_task s = handle_receive_message cb recvfrom old s
  run_task (send_task msg len peer) s =
      handle_send_message cb (λ (v : UdpServer). v.handler) (λ h v. record v { handler = h }) msg
        len peer s

  -- `runInLoop` on a loop, in the thread of the loop `current`.
  pub run_on : ℕ → ℕ → UdpTask → UdpServer → Result UdpServer
  run_on current io_loop task s =
      if io_loop == current
      then run_task task s
      else ok (record s { queued = s.queued ++ (io_loop, task) ∷ [] })

  -- `if(_connCB){ ioLoop->runInLoop(_connCB); }`
  pub announce : ℕ → ℕ → UdpServer → Result UdpServer
  announce current io_loop s = elim cb.new_conn_cb [
    | none ↦ ok s
    | some callback ↦ run_on current io_loop connection_task s
  ]

  pub send_message : ℕ → List ℕ → ℕ → SockaddrIn → UdpServer → Result UdpServer
  send_message current msg len peer s = do
    (io_loop, pool) ← get_next_loop (current == s.loop) s.thread_pool
    run_on current io_loop (send_task msg len peer) (record s { thread_pool = pool })

  pub new_connection : ℕ → UdpServer → Result UdpServer
  new_connection current s = do
    assert (s.loop == current)
    (io_loop, pool) ← get_next_loop (current == s.loop) s.thread_pool
    let s₁ = record s { thread_pool = pool }
    s₂ ← announce current io_loop s₁
    run_on current io_loop receive_task s₂
