-- ===== src/TcpServer/Start.antt =====
-- net/TcpServer.cpp, `start`, which is called in any thread.
use easy_event.Base.{
  ℕ, ◌≡◌, ◌≢◌, refl, sym, ap, ◌∙◌, true, false, List, [], ◌∷◌, ◌++◌, Option, some, Result, ok,
  ◌>>=◌, if◌then◌else◌, eq→==,
}
use easy_event.Acceptor.{Acceptor, listen}
use easy_event.Acceptor.Listen.{IsListening, IsNew, listen-IsListening, listen_again}
use easy_event.EventLoop.{
  EventLoop, is_in_loop_thread, run_in_loop, do_pending_functors, swap_functors, set_calling,
}
use easy_event.EventLoop.Queue.{queued, run_in_loop-here, run_in_loop-elsewhere}
use easy_event.EventLoop.Rounds.{run_each-nil, run_each-cons, do_pending_functors-runs}
use easy_event.Socket.{SocketCalls}
use easy_event.TcpServer.{TcpServer}

-- The functor that `start` hands to its loop.
pub data StartTask : Type 0 where
  listen_later : StartTask

-- The server with its acceptor and its loop.
pub record Starting : Type 0 where
  pub server : TcpServer
  pub acceptor : Acceptor
  pub loop : EventLoop StartTask

abbrev pub set_starting_loop : EventLoop StartTask → Starting → Starting
set_starting_loop l w = record w { loop = l }

pub run_start_task : SocketCalls → ℕ → StartTask → Starting → Result Starting
run_start_task calls current listen_later w = do
  a ← listen calls (is_in_loop_thread current w.loop) w.acceptor
  ok (record w { acceptor = a; server = record w.server { listenning = a.listenning } })

pub start_in : SocketCalls → (ℕ → Option ℕ) → ℕ → Starting → Result Starting
start_in calls eventfd_write current w =
    let w₁ : Starting = record w { server = record w.server { started = true } } in
    let listens =
      run_in_loop (λ (v : Starting). v.loop) set_starting_loop (run_start_task calls current)
        eventfd_write current listen_later w₁ in
    if w.acceptor.listenning then ok w₁ else listens

run_start_task-IsListening :
    (calls : SocketCalls) (current fd : ℕ) (w : Starting)
    → w.loop.thread_id ≡ current
    → (a : Acceptor) × (listen calls true w.acceptor ≡ ok a) × IsListening fd a
    → (w' : Starting) × (run_start_task calls current listen_later w ≡ ok w')
      × IsListening fd w'.acceptor
      × (w'.server.listenning ≡ true)
      × (w'.server.started ≡ w.server.started)
      × (w'.loop ≡ w.loop)
unfolding run_start_task
run_start_task-IsListening calls current fd w in_thread (a, did, h) = (
  record w { acceptor = a; server = record w.server { listenning = a.listenning } },
  rw (eq→== w.loop.thread_id current in_thread, did),
  h,
  h.told,
  refl,
  refl,
)

-- In the loop's thread, `start` has the acceptor listen at once.
pub start_in-here :
    (calls : SocketCalls) (eventfd_write : ℕ → Option ℕ) (current fd : ℕ) (w : Starting)
    → w.loop.thread_id ≡ current
    → calls.listen fd ≡ true
    → IsNew fd w.acceptor
    → w.acceptor.listenning ≡ false
    → (w' : Starting) × (start_in calls eventfd_write current w ≡ ok w')
      × (w'.server.started ≡ true)
      × IsListening fd w'.acceptor
      × (w'.server.thread_pool ≡ w.server.thread_pool)
      × (w'.server.next_conn_id ≡ w.server.next_conn_id)
unfolding start_in run_start_task
start_in-here calls eventfd_write current fd w in_thread listens new silent =
    let w₁ : Starting = record w { server = record w.server { started = true } } in
    let listens_now : Result Starting =
      run_in_loop (λ (v : Starting). v.loop) set_starting_loop (run_start_task calls current)
        eventfd_write current listen_later w₁ in
    let (a, did, listening) = listen-IsListening calls fd w.acceptor listens new in
    (
      record w {
        acceptor = a;
        server = record w.server { started = true; listenning = a.listenning };
      },
      ap (λ b. if b then ok w₁ else listens_now) silent
          ∙ run_in_loop-here (λ (v : Starting). v.loop) set_starting_loop
              (run_start_task calls current) eventfd_write current listen_later w₁ in_thread
          ∙ rw (eq→== w.loop.thread_id current in_thread, did) refl,
      refl,
      listening,
      refl,
      refl,
    )

-- In another thread than the loop's, `start` queues the functor.
start_in-queues :
    (calls : SocketCalls) (eventfd_write : ℕ → Option ℕ) (caller : ℕ) (w : Starting) (woken : ℕ)
    → eventfd_write w.loop.wakeup_count ≡ some woken
    → w.loop.thread_id ≢ caller
    → w.acceptor.listenning ≡ false
    → start_in calls eventfd_write caller w
      ≡ ok (record w {
        server = record w.server { started = true };
        loop = queued caller listen_later woken w.loop;
      })
unfolding start_in
start_in-queues calls eventfd_write caller w woken e elsewhere silent =
    let w₁ : Starting = record w { server = record w.server { started = true } } in
    let listens : Result Starting =
      run_in_loop (λ (v : Starting). v.loop) set_starting_loop (run_start_task calls caller)
        eventfd_write caller listen_later w₁ in
    ap (λ b. if b then ok w₁ else listens) silent
    ∙ run_in_loop-elsewhere (λ (v : Starting). v.loop) set_starting_loop
        (run_start_task calls caller) eventfd_write caller listen_later w₁ woken elsewhere e

-- `start` is idempotent across threads: called twice in another thread than the loop's, before the loop runs
-- what is queued, for a server whose acceptor is new, listen(2) succeeds on the socket, the eventfd takes
-- every write and the loop has nothing queued, it returns both times and has not listened yet; the loop's
-- next round of functors returns, with the server started, and its acceptor listening as after one call: the
-- poller is wired and knows the acceptor's channel, which waits for the read events.
pub start_in_twice :
    (calls : SocketCalls) (eventfd_write : ℕ → Option ℕ) (caller current fd : ℕ) (w : Starting)
    → ((k : ℕ) → (m : ℕ) × (eventfd_write k ≡ some m))
    → calls.listen fd ≡ true
    → w.loop.thread_id ≡ current
    → current ≢ caller
    → w.loop.pending_functors ≡ []
    → w.acceptor.listenning ≡ false
    → IsNew fd w.acceptor
    → (w₂ w' : Starting) × ((start_in calls eventfd_write caller w
          >>= start_in calls eventfd_write caller)
        ≡ ok w₂)
      × (w₂.acceptor ≡ w.acceptor)
      × (do_pending_functors
            (λ (v : Starting). v.loop)
            set_starting_loop
            (run_start_task calls current)
            w₂
          ≡ ok w')
      × (w'.server.started ≡ true)
      × (w'.server.listenning ≡ true)
      × IsListening fd w'.acceptor
start_in_twice calls eventfd_write caller current fd w wakes listens in_thread apart none_queued
      silent new =
    let loop_of : Starting → EventLoop StartTask = λ v. v.loop in
    let w₀ : Starting = record w { server = record w.server { started = true } } in
    let (m, e) = wakes w.loop.wakeup_count in
    let w₁ : Starting = record w₀ { loop = queued caller listen_later m w.loop } in
    let (k, f) = wakes w₁.loop.wakeup_count in
    let w₂ : Starting = record w₀ { loop = queued caller listen_later k w₁.loop } in
    let elsewhere : w.loop.thread_id ≢ caller = λ same. apart (sym in_thread ∙ same) in
    let begun : Starting = set_starting_loop (swap_functors (set_calling true w₂.loop)) w₂ in
    let (v, did, listening, _, up, same) =
      run_start_task-IsListening calls current fd begun in_thread
        (listen-IsListening calls fd w.acceptor listens new) in
    let (v', did', listening', told, up', same') =
      run_start_task-IsListening calls current fd v
        (ap (λ (l : EventLoop StartTask). l.thread_id) same ∙ in_thread)
        (listen_again calls fd v.acceptor listens listening) in
    (
      w₂,
      set_starting_loop (set_calling false v'.loop) v',
      rw (start_in-queues calls eventfd_write caller w m e elsewhere silent)
          (start_in-queues calls eventfd_write caller w₁ k f elsewhere silent),
      refl,
      do_pending_functors-runs loop_of set_starting_loop (run_start_task calls current)
          (listen_later ∷ listen_later ∷ []) w₂ v'
          (ap (λ (ts : List StartTask). (ts ++ listen_later ∷ []) ++ listen_later ∷ []) none_queued)
          (run_each-cons loop_of set_starting_loop (run_start_task calls current) listen_later
            (listen_later ∷ []) begun v v' did
            (run_each-cons loop_of set_starting_loop (run_start_task calls current) listen_later []
              v v' v' did'
              (run_each-nil loop_of set_starting_loop (run_start_task calls current) v'))),
      up' ∙ up,
      told,
      listening',
    )
