-- ===== src/Channel.antt =====
-- net/Channel.h and net/Channel.cpp: what one descriptor waits for, what happened on it, and the
-- callbacks that its events call. The channel's requests to its loop are in `Poller`.
pub mod Dispatch
pub mod Frame
mod Tests
use easy_event.Base.{
  ℕ, Bool, true, false, not, ◌&&◌, ◌||◌, Option, none, some, ℤ, pos, negsuc, if◌then◌else◌, Result,
  ok, ◌>>=◌,
}

-- A set of poll(2) flags: the bits of the `int` and `short` values that the code combines by `|`,
-- `&` and `~`, and compares with 0.
pub record Events : Type 0 where
  pub pollin : Bool
  pub pollpri : Bool
  pub pollout : Bool
  pub pollerr : Bool
  pub pollhup : Bool
  pub pollnval : Bool
  pub pollrdhup : Bool

-- kNoneEvent, kReadEvent and kWriteEvent.
abbrev pub none_event : Events
none_event = record {
  pollin = false;
  pollpri = false;
  pollout = false;
  pollerr = false;
  pollhup = false;
  pollnval = false;
  pollrdhup = false;
}

abbrev pub read_event : Events
read_event = record none_event { pollin = true; pollpri = true }

abbrev pub write_event : Events
write_event = record none_event { pollout = true }

-- POLLHUP and POLLIN
abbrev pub hang_up : Events
hang_up = record none_event { pollhup = true }

abbrev pub readable : Events
readable = record none_event { pollin = true }

abbrev pub bits_or : Events → Events → Events
bits_or a b = record {
  pollin = a.pollin || b.pollin;
  pollpri = a.pollpri || b.pollpri;
  pollout = a.pollout || b.pollout;
  pollerr = a.pollerr || b.pollerr;
  pollhup = a.pollhup || b.pollhup;
  pollnval = a.pollnval || b.pollnval;
  pollrdhup = a.pollrdhup || b.pollrdhup;
}

-- a & ~b
abbrev pub bits_without : Events → Events → Events
bits_without a b = record {
  pollin = a.pollin && not b.pollin;
  pollpri = a.pollpri && not b.pollpri;
  pollout = a.pollout && not b.pollout;
  pollerr = a.pollerr && not b.pollerr;
  pollhup = a.pollhup && not b.pollhup;
  pollnval = a.pollnval && not b.pollnval;
  pollrdhup = a.pollrdhup && not b.pollrdhup;
}

-- Whether the value is not 0.
abbrev pub any_bit : Events → Bool
any_bit a =
    a.pollin || a.pollpri || a.pollout || a.pollerr || a.pollhup || a.pollnval || a.pollrdhup

-- The members that are no callbacks. The loop is a number, as every object that is pointed to.
pub record Channel : Type 0 where
  pub loop_ptr : ℕ
  pub fd : ℤ
  pub events : Events
  pub revents : Events
  pub index : ℤ
  pub event_handling : Bool

-- The constructor.
abbrev pub new_channel : ℕ → ℤ → Channel
new_channel loop fd = record {
  loop_ptr = loop;
  fd = fd;
  events = none_event;
  revents = none_event;
  index = negsuc 0;
  event_handling = false;
}

abbrev pub is_none_event : Channel → Bool
is_none_event c = not (any_bit c.events)

abbrev pub is_writing : Channel → Bool
is_writing c = c.events.pollout

abbrev pub set_revents : Events → Channel → Channel
set_revents revt c = record c { revents = revt }

abbrev pub set_index : ℤ → Channel → Channel
set_index idx c = record c { index = idx }

-- What `enableReading`, `enableWriting`, `disableWriting` and `disableAll` make of `_events`.
abbrev pub with_reading : Channel → Channel
with_reading c = record c { events = bits_or c.events read_event }

abbrev pub with_writing : Channel → Channel
with_writing c = record c { events = bits_or c.events write_event }

abbrev pub without_writing : Channel → Channel
without_writing c = record c { events = bits_without c.events write_event }

abbrev pub without_all : Channel → Channel
without_all c = record c { events = none_event }

-- The callbacks, on the state of the program `W`; one that was never set is empty. `T` is the type
-- of time stamps.
pub record Callbacks (T : Type 0) (W : Type 0) : Type 0 where
  pub read_callback : Option (T → W → Result W)
  pub write_callback : Option (W → Result W)
  pub error_callback : Option (W → Result W)
  pub close_callback : Option (W → Result W)

-- `if(cond){ if(callback){ callback(); } }`
abbrev pub call_if : {W : Type 0} → Bool → Option (W → Result W) → W → Result W
call_if true (some callback) w = callback w
call_if true none w = ok w
call_if false callback w = ok w

-- A read callback at the time that it is given.
abbrev pub at_time : {T W : Type 0} → Option (T → W → Result W) → T → Option (W → Result W)
at_time none t = none
at_time (some callback) t = some (callback t)

module _ {T W : Type 0} (channel : W → Channel) (set_handling : Bool → W → W) where
  -- `handleEvent`. Each test reads `_revents` of the channel as it stands in the program's state.
  pub handle_event : Callbacks T W → T → W → Result W
  handle_event cb receive_time w = do
    let w₀ = set_handling true w
    w₁ ←
        call_if ((channel w₀).revents.pollhup && not (channel w₀).revents.pollin) cb.close_callback
          w₀
    w₂ ←
        call_if ((channel w₁).revents.pollerr || (channel w₁).revents.pollnval) cb.error_callback w₁
    w₃ ←
        call_if
          ((channel w₂).revents.pollin
            || (channel w₂).revents.pollpri
            || (channel w₂).revents.pollrdhup)
          (at_time cb.read_callback receive_time) w₂
    w₄ ← call_if (channel w₃).revents.pollout cb.write_callback w₃
    ok (set_handling false w₄)
