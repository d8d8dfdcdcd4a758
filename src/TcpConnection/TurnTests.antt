-- ===== src/TcpConnection/TurnTests.antt =====
-- The connection of `Tests` in turns of its loop.
use easy_event.Base.{
  Result, ℕ, ◌<◌, ◌≡◌, refl, ap, inl, inr, true, false, List, [], ◌∷◌, none, some, pos, length, ok,
  arith,
}
use easy_event.Buffer.{Buffer, got}
use easy_event.Buffer.Contents
use easy_event.Buffer.Contents.{contents, count}
use easy_event.Channel.{any_bit, readable, Events, read_event, write_event, bits_or}
use easy_event.Poller.{PollFd, PollAnswer, map_put}
use easy_event.Poller.Report.{prepend}
use easy_event.Poller.Wiring.{IsWired, map_put_self}
use easy_event.TcpConnection.{
  connect_destroyed_later, k_disconnected, TcpConnection, Os, Callbacks, handle_read, run_functor,
  set_loop,
}
use easy_event.EventLoop.{push_functor, do_pending_functors}
use easy_event.TcpConnection.Loop.{serve}
use easy_event.TcpConnection.{remove_connection}
use easy_event.TcpConnection.Gone.{left_by, IsServed}
use easy_event.TcpServer.{holds_name, same_name}
use easy_event.TcpConnection.Alone.{ReportsOnly}
use easy_event.TcpConnection.Incoming.{handle_read-Handles}
use easy_event.TcpConnection.HangUp.{serve-hangs_up}
use easy_event.TcpConnection.Turn.{serve-writes}
use easy_event.TcpConnection.Sound.{IsSound}
use easy_event.TcpConnection.Rest.{stream}
use easy_event.TcpConnection.Tests.{
  entry, os_with, one_byte, callbacks, os_with-Wakes, one_byte-TakesSome, quiet, quiet-IsSound,
  leaving, leaving-IsSound, leaving-left,
}

abbrev queue_more : TcpConnection → Result TcpConnection
queue_more c = ok (record c { loop = push_functor connect_destroyed_later c.loop })

-- poll(2) reports `r` for descriptor 5.
abbrev answers_with : Events → List PollFd → PollAnswer
answers_with r asked = record {
  filled = record (entry (bits_or read_event write_event)) { revents = r } ∷ [];
  num_events = pos 1;
}

leaving-ReportsOnly : (r : Events) → any_bit r ≡ true → ReportsOnly (answers_with r) leaving 5 r
leaving-ReportsOnly r some_bit = record {
  answers = (refl, refl, inl refl, tt);
  number = rw some_bit;
  alone = rw some_bit (ap (λ o. prepend o []) (map_put_self (pos 5) (some 0) (λ _. none)));
  place = 0;
  entry = _;
  there = refl;
  its = refl;
  happened = refl;
}

abbrev pub no_others : ℕ → TcpConnection → Result TcpConnection
no_others p c = ok c

serve-writes_example :
    (c' : TcpConnection) × (serve
        (os_with one_byte)
        callbacks
        1
        9
        some
        no_others
        0
        (answers_with write_event)
        leaving
      ≡ do_pending_functors
          (λ (x : TcpConnection). x.loop)
          set_loop
          (run_functor (os_with one_byte) callbacks 1)
          c')
    × (stream c' ≡ stream leaving)
    × (0 < length c'.wire)
    × IsSound 1 5 c'
serve-writes_example =
    serve-writes (os_with one_byte) callbacks 1 9 5 some no_others 0 (answers_with write_event)
      leaving (os_with-Wakes one_byte) one_byte-TakesSome refl leaving-IsSound leaving-left refl
      (leaving-ReportsOnly write_event refl)

abbrev pub served : Callbacks ℕ
served = record {
  conn_cb = some queue_more;
  msg_cb = none;
  write_complete_cb = none;
  close_cb = some (remove_connection (os_with one_byte) 1);
}

leaving-IsServed : IsServed leaving
unfolding holds_name same_name
leaving-IsServed = refl

-- The peer has closed: there is something to read, and it is the end.
serve-hangs_up_example :
    (c' : TcpConnection) × (serve
        (os_with one_byte)
        served
        1
        9
        some
        no_others
        0
        (answers_with readable)
        leaving
      ≡ ok c')
    × (c'.state ≡ k_disconnected)
    × IsWired c'.poller
    × (c'.poller.channel_map ≡ map_put (pos 5) none leaving.poller.channel_map)
    × (c'.server ≡ left_by leaving leaving.server)
    × (c'.wire ≡ [])
    × (c'.output_buffer ≡ leaving.output_buffer)
    × (contents c'.input_buffer ≡ contents leaving.input_buffer)
    × (c'.loop.calling_pending_functors ≡ false)
serve-hangs_up_example =
    serve-hangs_up (os_with one_byte) served 1 9 5 some no_others 0 (answers_with readable) readable
      leaving (os_with-Wakes one_byte) leaving-IsSound refl refl leaving-IsServed refl
      (λ d. (push_functor connect_destroyed_later d.loop, refl, refl))
      (inr (refl, refl, quiet-IsSound.valid)) (leaving-ReportsOnly readable refl)

abbrev two_arrive : Os
two_arrive = record (os_with one_byte) { read = λ n. got (3 ∷ 4 ∷ []) }

-- The message callback leaves a mark.
abbrev telling : Callbacks ℕ
telling = record callbacks { msg_cb = some (λ t c. ok (record c { write_shut = true })) }

handle_read-Handles_example :
    (b : Buffer) × Contents.IsValid b
    × (contents b ≡ 3 ∷ 4 ∷ [])
    × (handle_read two_arrive telling 0 1 quiet
        ≡ ok (record quiet { input_buffer = b; write_shut = true }))
unfolding count contents
handle_read-Handles_example =
    handle_read-Handles two_arrive telling 0 1 quiet quiet-IsSound.valid
      (omega arith, inl (omega arith))
