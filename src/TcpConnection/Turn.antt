-- ===== src/TcpConnection/Turn.antt =====
-- net/EventLoop.cpp, one turn of `startLoop`, when poll(2) reports that a connection can send.
use easy_event.Base.{
  ℕ, ◌≡◌, ◌≢◌, ◌<◌, refl, sym, ap, ◌∙◌, Bool, true, false, List, [], Option, ℤ, pos, length, Result,
  ok, ◌>>=◌,
}
use easy_event.Buffer.Contents.{contents}
use easy_event.Channel.{Channel, write_event, is_writing, handle_event}
use easy_event.Channel.Dispatch.{handle_event-writable}
use easy_event.Poller.{Poller, PollFd, PollAnswer}
use easy_event.Poller.Wiring.{IsWired}
use easy_event.Poller.Request.{changed, changed_here, changed-IsWired}
use easy_event.Poller.Report.{SameButRevents}
use easy_event.EventLoop.{do_pending_functors}
use easy_event.TcpConnection.{
  TcpConnection, Os, Callbacks, channel_of, handle_write, run_functor, set_loop,
}
use easy_event.TcpConnection.Sound.{IsSound, Wakes}
use easy_event.TcpConnection.Rest.{stream}
use easy_event.TcpConnection.Drain.{TakesSome, handle_write-stream}
use easy_event.TcpConnection.Alone.{flag-Keeps, handling-revents, ReportsOnly, serve-alone}
use easy_event.TcpConnection.Loop.{channel_callbacks, handling_flag, set_handling, serve}

-- `poll` changes nothing that a connection relies on.
IsSound-polled :
    (current n : ℕ) (c : TcpConnection) (ps : List PollFd) (s : Poller)
    → IsSound current n c
    → SameButRevents (record c.poller { pollfds = ps }) s
    → IsWired s
    → IsSound current n (record c { poller = s })
IsSound-polled current n c ps s h same w = record {
  here = h.here;
  valid = h.valid;
  wired = w;
  known = ap (λ (m : ℤ → Option ℕ). m (pos n)) same.channel_map ∙ h.known;
  mine = same.loop_ptrs c.channel ∙ h.mine ∙ sym same.owner_loop;
  idle = λ e. ap (λ x. x.pollout) (same.events c.channel) ∙ h.idle e;
  busy = λ e. ap (λ x. x.pollout) (same.events c.channel) ∙ h.busy e;
}

IsSound-handling :
    (current n : ℕ) (b : Bool) (c : TcpConnection)
    → IsSound current n c
    → IsSound current n (set_handling b c)
unfolding changed
IsSound-handling current n b c h =
    let here : (changed (handling_flag b) c.channel c.poller).channels c.channel
        ≡ handling_flag b (channel_of c) =
      changed_here (handling_flag b) (flag-Keeps b) c.channel c.poller in
    record {
      here = h.here;
      valid = h.valid;
      wired = changed-IsWired (handling_flag b) (flag-Keeps b) c.channel c.poller h.wired;
      known = h.known;
      mine = ap (λ (ch : Channel). ch.loop_ptr) here ∙ h.mine;
      idle = λ e. ap (λ (ch : Channel). is_writing ch) here ∙ h.idle e;
      busy = λ e. ap (λ (ch : Channel). is_writing ch) here ∙ h.busy e;
    }

-- The channel's event, when there is room to write and nothing else.
handle_event-writes :
    {T : Type 0} (os : Os) (cb : Callbacks T) (current n : ℕ) (t : T) (c : TcpConnection)
    → Wakes os
    → TakesSome os
    → os.shutdown_succeeds ≡ true
    → IsSound current n c
    → contents c.output_buffer ≢ []
    → c.output_buffer.is_full ≡ false
    → (channel_of c).revents ≡ write_event
    → (c' : TcpConnection) × (handle_event channel_of set_handling
          (channel_callbacks os cb current)
          t
          c
        ≡ ok c')
      × (stream c' ≡ stream c)
      × (length c.wire < length c'.wire)
      × IsSound current n c'
handle_event-writes os cb current n t c wakes takes shuts s left not_full told =
    let (c', did, same, more, room, s') =
      handle_write-stream os cb current n (set_handling true c) wakes takes shuts
        (IsSound-handling current n true c s) left not_full in
    (
      set_handling false c',
      handle_event-writable channel_of set_handling (channel_callbacks os cb current) t
            (handle_write os cb current) c refl (handling-revents true c ∙ told)
          ∙ ap (λ (m : Result TcpConnection). m >>= λ w'. ok (set_handling false w')) did,
      same,
      more,
      IsSound-handling current n false c' s',
    )

-- One turn of the loop of a sound connection with something to send whose output buffer is not full,
-- when poll(2) answers as documented and reports for the connection's channel alone, and only that it
-- can be written to: whatever the other channels' callbacks are, the turn first sends more of the
-- stream and leaves the connection sound, no assertion fails, and then runs the queued functors. This
-- is where write(2) takes a part, shutdown(2) succeeds and the eventfd takes every write.
pub serve-writes :
    {T : Type 0} (os : Os) (cb : Callbacks T) (current wakeup_channel n : ℕ)
    (eventfd_read : ℕ → Option ℕ) (others : ℕ → TcpConnection → Result TcpConnection) (t : T)
    (sys_poll : List PollFd → PollAnswer) (c : TcpConnection)
    → Wakes os
    → TakesSome os
    → os.shutdown_succeeds ≡ true
    → IsSound current n c
    → contents c.output_buffer ≢ []
    → c.output_buffer.is_full ≡ false
    → ReportsOnly sys_poll c n write_event
    → (c' : TcpConnection) × (serve os cb current wakeup_channel eventfd_read others t sys_poll c
        ≡ do_pending_functors
            (λ (x : TcpConnection). x.loop)
            set_loop
            (run_functor os cb current)
            c')
      × (stream c' ≡ stream c)
      × (length c.wire < length c'.wire)
      × IsSound current n c'
serve-writes os cb current wakeup_channel n eventfd_read others t sys_poll c wakes takes shuts s
      left not_full reports =
    let (p, turned, same, told, wired) =
      serve-alone os cb current wakeup_channel n eventfd_read others t sys_poll write_event c
        s.wired s.known refl reports in
    let (c', did, sends, more, s') =
      handle_event-writes os cb current n t (record c { poller = p }) wakes takes shuts
        (IsSound-polled current n c (sys_poll c.poller.pollfds).filled p s same wired) left not_full
        told in
    (c', turned ∙ rw did, sends, more, s')
