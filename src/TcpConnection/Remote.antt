-- ===== src/TcpConnection/Remote.antt =====
-- net/TcpConnection.cpp, `send` and `shutdown` in another thread than the loop's, and what the loop
-- makes of them.
use easy_event.Base.{
  ℕ, ◌≡◌, ◌≢◌, sym, ap, ◌∙◌, Bool, true, false, List, [], ◌∷◌, ◌++◌, ok, ◌>>=◌, length, Bool-cases,
  inl, inr, if◌then◌else◌,
}
use easy_event.Channel.{is_writing}
use easy_event.EventLoop.{EventLoop, do_pending_functors, swap_functors, set_calling}
use easy_event.EventLoop.Queue.{queued, run_in_loop-elsewhere}
use easy_event.EventLoop.Rounds.{run_each-nil, run_each-cons, do_pending_functors-runs}
use easy_event.TcpConnection.{
  TcpConnection, Functor, send_later, shut_down_later, Os, Callbacks, channel_of, send, shutdown,
  shut_down_in_loop, run_functor, set_loop, is_connected, k_disconnecting,
}
use easy_event.TcpConnection.Sound.{IsSound, Wakes}
use easy_event.TcpConnection.Rest.{stream, HasRoom, inside}
use easy_event.TcpConnection.Stream.{Answered, send_in_loop-stream}

abbrev loop_of : TcpConnection → EventLoop Functor
loop_of c = c.loop

-- `send` and then `shutdown` in the thread `caller` queue two functors, and change the state only.
abbrev pub told : ℕ → List ℕ → ℕ → ℕ → TcpConnection → TcpConnection
told caller message m k c = record c {
  loop = queued caller shut_down_later k (queued caller (send_later message) m c.loop);
  state = k_disconnecting;
}

send-shutdown-told :
    {T : Type 0} (os : Os) (cb : Callbacks T) (caller : ℕ) (message : List ℕ) (c : TcpConnection)
    → Wakes os
    → c.loop.thread_id ≢ caller
    → is_connected c.state ≡ true
    → (m k : ℕ) × ((send os cb caller message c >>= shutdown os cb caller)
        ≡ ok (told caller message m k c))
unfolding send shutdown
send-shutdown-told os cb caller message c wakes there up =
    let (m, e) = wakes c.loop.wakeup_count in
    let c₁ : TcpConnection = record c {
      loop = queued caller (send_later message) m c.loop;
      state = k_disconnecting;
    } in
    let (k, f) = wakes c₁.loop.wakeup_count in
    (
      m,
      k,
      rw (
        up,
        run_in_loop-elsewhere loop_of set_loop (run_functor os cb caller) os.eventfd_write caller
            (send_later message) c m there e,
        up,
        run_in_loop-elsewhere loop_of set_loop (run_functor os cb caller) os.eventfd_write caller
            shut_down_later c₁ k there f,
      ),
    )

-- `shutDownInLoop` of a sound connection shuts the writing end, unless something is still to be sent.
shut_down_in_loop-waits :
    (os : Os) (current n : ℕ) (c : TcpConnection)
    → IsSound current n c
    → os.shutdown_succeeds ≡ true
    → shut_down_in_loop os current c
      ≡ ok (record c { write_shut = if is_writing (channel_of c) then c.write_shut else true })
unfolding shut_down_in_loop
shut_down_in_loop-waits os current n c s shuts = elim (Bool-cases (is_writing (channel_of c))) [
  | inl writing ↦ rw (inside current n c s, writing)
  | inr idle ↦ rw (inside current n c s, idle, shuts)
]

-- The user sends a message and shuts the connection down, both in another thread than the loop's, with
-- a sound connection which is connected and whose loop has nothing queued. In that thread only the state
-- changes and two functors are queued. When the loop then runs what is queued, the whole message is in
-- the stream, behind what was there, before the writing end is shut: that happens at once if nothing is
-- left to be sent, and is left to `handleWrite` otherwise. No assertion fails, and the connection stays
-- sound, being shut down. This is where the eventfd takes every write, write(2) takes a part or would
-- have to wait, shutdown(2) succeeds and the output buffer has room.
pub send-shutdown :
    {T : Type 0} (os : Os) (cb : Callbacks T) (caller current n : ℕ) (message : List ℕ)
    (c : TcpConnection)
    → Wakes os
    → os.shutdown_succeeds ≡ true
    → Answered os.ewouldblock (length message) (os.write message)
    → IsSound current n c
    → HasRoom message c
    → is_connected c.state ≡ true
    → c.loop.pending_functors ≡ []
    → current ≢ caller
    → (m k : ℕ) × (c' : TcpConnection) × ((send os cb caller message c >>= shutdown os cb caller)
        ≡ ok (told caller message m k c))
      × (do_pending_functors
            (λ (x : TcpConnection). x.loop)
            set_loop
            (run_functor os cb current)
            (told caller message m k c)
          ≡ ok c')
      × (stream c' ≡ stream c ++ message)
      × (c'.write_shut ≡ (if is_writing (channel_of c') then c.write_shut else true))
      × (c'.state ≡ k_disconnecting)
      × IsSound current n c'
unfolding run_functor
send-shutdown os cb caller current n message c wakes shuts answer s room up none_queued other =
    let (m, k, asked) =
      send-shutdown-told os cb caller message c wakes (λ same. other (sym s.here ∙ same)) up in
    let c₁ : TcpConnection = told caller message m k c in
    let w : TcpConnection = set_loop (swap_functors (set_calling true c₁.loop)) c₁ in
    let (d, sent, grown, (state, shut), s') =
      send_in_loop-stream os cb current n message w wakes answer
        (record {
          here = s.here;
          valid = s.valid;
          wired = s.wired;
          known = s.known;
          mine = s.mine;
          idle = s.idle;
          busy = s.busy;
        })
        room in
    let shut_d : Bool = if is_writing (channel_of d) then d.write_shut else true in
    let done : TcpConnection = record d { write_shut = shut_d } in
    let two : c₁.loop.pending_functors ≡ send_later message ∷ shut_down_later ∷ [] =
      ap (λ (fs : List Functor). (fs ++ send_later message ∷ []) ++ shut_down_later ∷ [])
        none_queued in
    let runs : run_functor os cb current shut_down_later d ≡ ok done =
      shut_down_in_loop-waits os current n d s' shuts in
    (
      m,
      k,
      set_loop (set_calling false done.loop) done,
      asked,
      do_pending_functors-runs loop_of set_loop (run_functor os cb current)
          (send_later message ∷ shut_down_later ∷ []) c₁ done two
          (run_each-cons loop_of set_loop (run_functor os cb current) (send_later message)
            (shut_down_later ∷ []) w d done sent
            (run_each-cons loop_of set_loop (run_functor os cb current) shut_down_later [] d done
              done runs (run_each-nil loop_of set_loop (run_functor os cb current) done))),
      grown,
      ap (λ (b : Bool). if is_writing (channel_of d) then b else true) shut,
      state,
      record {
        here = s'.here;
        valid = s'.valid;
        wired = s'.wired;
        known = s'.known;
        mine = s'.mine;
        idle = s'.idle;
        busy = s'.busy;
      },
    )
