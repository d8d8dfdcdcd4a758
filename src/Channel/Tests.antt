-- ===== src/Channel/Tests.antt =====
-- The theorem about net/Channel.cpp at a concrete channel.
use easy_event.Base.{
  ℕ, ◌≡◌, refl, Bool, true, false, none, some, List, [], ◌∷◌, ◌++◌, Result, ok, ◌>>=◌, pos, arith,
}
use easy_event.Channel.{Channel, read_event, Callbacks, new_channel, handle_event}
use easy_event.Channel.Dispatch.{
  on_close, on_error, on_read, on_write, due, invoke_all, LeavesRevents, handle_event-due,
}

-- A program's state: the channel, and a log of the callbacks that ran.
record Program : Type 0 where
  channel : Channel
  log : List ℕ

abbrev logs : ℕ → Program → Result Program
logs n w = ok (record w { log = w.log ++ n ∷ [] })

-- The close callback was never set.
abbrev callbacks : Callbacks ℕ Program
callbacks = record {
  read_callback = some (λ t. logs t);
  write_callback = some (logs 2);
  error_callback = some (logs 3);
  close_callback = none;
}

abbrev handling : Bool → Program → Program
handling b w = record w { channel = record w.channel { event_handling = b } }

-- Something to read, and room to write.
abbrev start : Program
start = record {
  channel = record (new_channel 0 (pos 5)) { revents = record read_event { pollout = true } };
  log = [];
}

leaves : LeavesRevents (λ w. w.channel) callbacks 7
leaves on_close w w' e = ground arith
leaves on_error w w' e = ground arith
leaves on_read w w' e = ground arith
leaves on_write w w' e = ground arith

handle_event-due_example : handle_event (λ w. w.channel) handling callbacks 7 start ≡ (
    invoke_all callbacks 7 (due start.channel.revents) (handling true start) >>= λ w.
    ok (handling false w))
handle_event-due_example = handle_event-due (λ w. w.channel) handling callbacks 7 start leaves refl

-- The read callback runs at the time given, then the write callback.
handle_event-runs :
    handle_event (λ w. w.channel) handling callbacks 7 start
    ≡ ok (record start { log = 7 ∷ 2 ∷ [] })
unfolding handle_event
handle_event-runs = refl
