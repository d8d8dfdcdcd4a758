-- ===== src/TcpConnection/Loop.antt =====
-- net/TcpConnection.cpp, the constructor's callbacks, in the loop of net/EventLoop.cpp: a loop that
-- serves one connection, beside its wake-up channel and channels of others.
use easy_event.Base.{ℕ, Bool, List, Option, none, some, Result, ok, ◌>>=◌, ◌==◌, if◌then◌else◌}
use easy_event.Channel
use easy_event.Channel.{Channel, handle_event}
use easy_event.Poller.{PollFd, PollAnswer, poll, channel_put}
use easy_event.EventLoop
use easy_event.EventLoop.{turn, queue_in_loop}
use easy_event.TcpConnection.{
  TcpConnection, Os, Callbacks, channel_of, handle_read, handle_write, handle_close, handle_error,
  run_functor, set_loop,
}

module _ {T : Type 0} (os : Os) (cb : Callbacks T) (current : ℕ) where
  -- What the constructor binds to the channel.
  abbrev pub channel_callbacks : Channel.Callbacks T TcpConnection
  channel_callbacks = record {
    read_callback = some (λ t. handle_read os cb t current);
    write_callback = some (handle_write os cb current);
    error_callback = some handle_error;
    close_callback = some (handle_close cb current);
  }

-- `_eventHandling` of the connection's channel.
abbrev pub handling_flag : Bool → Channel → Channel
handling_flag b ch = record ch { event_handling = b }

-- The channel `p` in the loop's poller, and its flag.
abbrev channel_at : ℕ → TcpConnection → Channel
channel_at p c = c.poller.channels p

abbrev set_handling_at : ℕ → Bool → TcpConnection → TcpConnection
set_handling_at p b c = record c {
  poller = record c.poller {
    channels = channel_put p (handling_flag b (channel_at p c)) c.poller.channels;
  };
}

abbrev pub set_handling : Bool → TcpConnection → TcpConnection
set_handling b c = set_handling_at c.channel b c

-- What the constructor of the loop binds to its wake-up channel.
abbrev wakeup_callbacks : {T : Type 0} → (ℕ → Option ℕ) → Channel.Callbacks T TcpConnection
wakeup_callbacks eventfd_read = record {
  read_callback =
      some (λ t c. do l ← EventLoop.handle_read eventfd_read c.loop; ok (record c { loop = l }));
  write_callback = none;
  error_callback = none;
  close_callback = none;
}

-- `poll` of the loop's poller.
unfoldable pub poll_channels :
    (List PollFd → PollAnswer) → TcpConnection → Result (List ℕ × TcpConnection)
poll_channels sys_poll c = do
  (active, s) ← poll sys_poll c.poller
  ok (active, record c { poller = s })

module _ {T : Type 0} (os : Os) (cb : Callbacks T) (current wakeup_channel : ℕ)
    (eventfd_read : ℕ → Option ℕ) (others : ℕ → TcpConnection → Result TcpConnection) (t : T) where
  -- `handleEvent` of an active channel: the connection's, the loop's own, which reads the eventfd, or
  -- one of another user of the loop.
  unfoldable pub dispatch : ℕ → TcpConnection → Result TcpConnection
  dispatch p c =
      let own = handle_event channel_of set_handling (channel_callbacks os cb current) t c in
      let woken =
        handle_event (channel_at p) (set_handling_at p) (wakeup_callbacks eventfd_read) t c in
      if p == c.channel then own else if p == wakeup_channel then woken else others p c

  -- One turn of `startLoop`.
  unfoldable pub serve : (List PollFd → PollAnswer) → TcpConnection → Result TcpConnection
  serve sys_poll =
      turn (λ (c : TcpConnection). c.loop) set_loop (run_functor os cb current)
        (poll_channels sys_poll) dispatch
