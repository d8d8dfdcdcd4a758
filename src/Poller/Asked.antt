-- ===== src/Poller/Asked.antt =====
-- net/Poller.cpp: whether the array that poll(2) is given has the events that the channels wait for, and
-- the uses that the loop and its channels make of the poller.
pub mod Stay
pub mod Leave
pub mod Invariant
use easy_event.Base.{ℕ, ◌≡◌, ◌≢◌, true, List, [], none, some, ℤ, pos, get_elem?, ok, ◌>>=◌}
use easy_event.Channel.{Channel, new_channel}
use easy_event.Poller.{
  Poller, PollFd, PollAnswer, loop_remove_channel, change_events, disable_all, enable_reading, poll,
}
use easy_event.Poller.Wiring.{real_fd}
use easy_event.Poller.Join.{with_object}
use easy_event.Poller.Request.{Keeps}
use easy_event.Poller.Poll.{Answers}
use easy_event.Poller.Report.{count_ready}

-- Every entry that stands for a channel's descriptor has the events that the channel waits for.
abbrev pub IsAsked : Poller → Type 0
IsAsked s =
    (fd : ℤ) (q i : ℕ) (x : PollFd)
    → s.channel_map fd ≡ some q
    → get_elem? s.pollfds i ≡ some x
    → real_fd x.fd ≡ fd
    → x.events ≡ (s.channels q).events

-- One use that the loop and its channels make of the poller, in the loop's thread. The channel has the
-- address `p` and the descriptor `n`.
pub data Request (s : Poller) : Poller → Type 0 where
  -- A channel that is known changes what it waits for.
  changes :
      {s' : Poller} (change : Channel → Channel)
      → Keeps change
      → (p n : ℕ) → s.channel_map (pos n) ≡ some p
      → (s.channels p).loop_ptr ≡ s.owner_loop
      → change_events change true p s ≡ ok s'
      → Request s s'
  -- A new channel starts to read.
  joins :
      {s' : Poller} (p n : ℕ)
      → ((fd : ℤ) → s.channel_map fd ≢ some p)
      → s.channel_map (pos n) ≡ none
      → enable_reading true p (with_object p (new_channel s.owner_loop (pos n)) s) ≡ ok s'
      → Request s s'
  -- A channel waits for nothing any more and is removed.
  leaves :
      {s' : Poller} (p n : ℕ)
      → s.channel_map (pos n) ≡ some p
      → (s.channels p).loop_ptr ≡ s.owner_loop
      → (disable_all true p s >>= loop_remove_channel true p) ≡ ok s'
      → Request s s'
  -- The loop polls, and poll(2) answers as documented.
  polls :
      {s' : Poller} (sys_poll : List PollFd → PollAnswer) (active : List ℕ)
      → Answers s.pollfds (sys_poll s.pollfds).filled
      → (sys_poll s.pollfds).num_events ≡ pos (count_ready (sys_poll s.pollfds).filled)
      → poll sys_poll s ≡ ok (active, s')
      → Request s s'

pub data Requests (s : Poller) : Poller → Type 0 where
  here : Requests s s
  next : {t u : Poller} → Requests s t → Request t u → Requests s u
