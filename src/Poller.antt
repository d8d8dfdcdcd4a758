-- ===== src/Poller.antt =====
-- net/Poller.h and net/Poller.cpp, with the requests that net/Channel.h and net/EventLoop.cpp pass
-- on to them: the array for poll(2), the map from descriptors to channels, and the index by which
-- each channel knows its place in the array. poll(2) itself is an argument.
pub mod Wiring
pub mod Add
pub mod Renew
pub mod Request
pub mod Frame
pub mod Join
pub mod Swap
pub mod Remove
pub mod Report
pub mod Poll
pub mod Uses
pub mod Asked
mod Tests
mod AskedTests
use easy_event.Base.{
  ℕ, suc, ◌+◌, ◌-◌, Bool, true, false, not, ◌&&◌, ◌||◌, List, [], ◌∷◌, ◌++◌, Option, none, some,
  ltb, leb, ◌==◌, if◌then◌else◌, length, get_elem?, set, take, ℤ, pos, negsuc, minus_one_minus,
  is_negative, eqb_ℤ, Result, ok, fault, ◌>>=◌, ◌>>◌, assert, undefined,
}
use easy_event.Channel.{
  Channel, Events, none_event, any_bit, is_none_event, set_index, set_revents, with_reading,
  with_writing, without_writing, without_all,
}

-- struct pollfd
pub record PollFd : Type 0 where
  pub fd : ℤ
  pub events : Events
  pub revents : Events

-- The members of the poller and the channels that it points to; a pointer is a number. The loop
-- that owns the poller is `owner_loop`.
pub record Poller : Type 0 where
  pub owner_loop : ℕ
  pub pollfds : List PollFd
  pub channel_map : ℤ → Option ℕ
  pub channels : ℕ → Channel

-- `_channelMap[fd] = channel` and `_channelMap.erase(fd)`.
pub map_put : ℤ → Option ℕ → (ℤ → Option ℕ) → ℤ → Option ℕ
map_put fd entry m key = if eqb_ℤ fd key then entry else m key

-- A write through the pointer.
pub channel_put : ℕ → Channel → (ℕ → Channel) → ℕ → Channel
channel_put p c h q = if p == q then c else h q

abbrev pub points_to : Option ℕ → ℕ → Bool
points_to none p = false
points_to (some q) p = q == p

abbrev pub is_found : Option ℕ → Bool
is_found none = false
is_found (some q) = true

-- `_channelMap.find(fd)->second`, undefined at the end iterator.
abbrev pub found : Option ℕ → Result ℕ
found none = fault undefined
found (some p) = ok p

-- `_pollfds[i]`, undefined out of range.
pub pollfd_at : List PollFd → ℤ → Result PollFd
pollfd_at ps (negsuc n) = fault undefined
pollfd_at ps (pos n) = elim (get_elem? ps n) [ none ↦ fault undefined | some pfd ↦ ok pfd ]

-- `0 <= idx && idx < static_cast<int>(_pollfds.size())`
abbrev pub index_in : ℤ → List PollFd → Bool
index_in (negsuc n) ps = false
index_in (pos n) ps = ltb n (length ps)

abbrev pub to_index : ℤ → ℕ
to_index (pos n) = n
to_index (negsuc n) = 0

-- `fillActiveChannels`: the channels are returned in the order in which they are pushed.
pub fill_active_channels : List PollFd → ℕ → Poller → Result (List ℕ × Poller)
fill_active_channels [] num_events s = ok ([], s)
fill_active_channels (pfd ∷ rest) num_events s =
    let skip = fill_active_channels rest num_events s in
    let visit = do
      assert (is_found (s.channel_map pfd.fd))
      p ← found (s.channel_map pfd.fd)
      assert (eqb_ℤ (s.channels p).fd pfd.fd)
      let marked = record s {
        channels = channel_put p (set_revents pfd.revents (s.channels p)) s.channels;
      }
      (active, end) ← fill_active_channels rest (num_events - 1) marked
      ok (p ∷ active, end)
    in if ltb 0 num_events then (if any_bit pfd.revents then visit else skip) else ok ([], s)

-- What poll(2) answers: its result, and the array with `revents` filled in.
pub record PollAnswer : Type 0 where
  pub num_events : ℤ
  pub filled : List PollFd

pub poll : (List PollFd → PollAnswer) → Poller → Result (List ℕ × Poller)
poll sys_poll s = do
  let answer = sys_poll s.pollfds
  let polled = record s { pollfds = answer.filled }
  assert (not (is_negative answer.num_events))
  if ltb 0 (to_index answer.num_events)
      then fill_active_channels answer.filled (to_index answer.num_events) polled
      else ok ([], polled)

-- `updateChannel` for a channel that has no place yet.
pub add_channel : ℕ → Poller → Result Poller
add_channel p s =
    let ch = s.channels p in
    let pfd : PollFd = record { fd = ch.fd; events = ch.events; revents = none_event } in
    let grown = s.pollfds ++ pfd ∷ [] in
    do
      assert (not (is_found (s.channel_map ch.fd)))
      ok (record s {
        pollfds = grown;
        channel_map = map_put ch.fd (some p) s.channel_map;
        channels = channel_put p (set_index (pos (length grown - 1)) ch) s.channels;
      })

-- `updateChannel` for a channel that has one.
pub renew_channel : ℕ → Poller → Result Poller
renew_channel p s =
    let ch = s.channels p in
    do
      assert (is_found (s.channel_map ch.fd))
      assert (points_to (s.channel_map ch.fd) p)
      assert (index_in ch.index s.pollfds)
      pfd ← pollfd_at s.pollfds ch.index
      assert (eqb_ℤ pfd.fd ch.fd || eqb_ℤ pfd.fd (minus_one_minus ch.fd))
      let fd = if is_none_event ch then minus_one_minus ch.fd else pfd.fd
      let fresh : PollFd = record { fd = fd; events = ch.events; revents = none_event }
      ok (record s { pollfds = set s.pollfds (to_index ch.index) fresh })

-- The thread that calls is in the loop's thread if `in_loop`.
pub update_channel : Bool → ℕ → Poller → Result Poller
update_channel in_loop p s = do
  assert in_loop
  if is_negative (s.channels p).index then add_channel p s else renew_channel p s

-- The end of `removeChannel`: the entry at `index` leaves the array, the last one takes its place.
pub drop_entry : ℕ → Poller → Result Poller
drop_entry index s =
    if index == length s.pollfds - 1
    then ok (record s { pollfds = take (length s.pollfds - 1) s.pollfds })
    else do
      last ← pollfd_at s.pollfds (pos (length s.pollfds - 1))
      let end_fd = if is_negative last.fd then minus_one_minus last.fd else last.fd
      q ← found (s.channel_map end_fd)
      ok (record s {
        pollfds = take (length s.pollfds - 1) (set s.pollfds index last);
        channels = channel_put q (set_index (pos index) (s.channels q)) s.channels;
      })

abbrev same_bit : Bool → Bool → Bool
same_bit true b = b
same_bit false b = not b

pub same_events : Events → Events → Bool
same_events a b =
    same_bit a.pollin b.pollin
    && same_bit a.pollpri b.pollpri
    && same_bit a.pollout b.pollout
    && same_bit a.pollerr b.pollerr
    && same_bit a.pollhup b.pollhup
    && same_bit a.pollnval b.pollnval
    && same_bit a.pollrdhup b.pollrdhup

pub remove_channel : Bool → ℕ → Poller → Result Poller
remove_channel in_loop p s =
    let ch = s.channels p in
    do
      assert in_loop
      assert (is_found (s.channel_map ch.fd))
      assert (points_to (s.channel_map ch.fd) p)
      assert (is_none_event ch)
      assert (index_in ch.index s.pollfds)
      pfd ← pollfd_at s.pollfds ch.index
      assert (eqb_ℤ pfd.fd (minus_one_minus ch.fd))
      assert (same_events pfd.events ch.events)
      drop_entry (to_index ch.index) (record s { channel_map = map_put ch.fd none s.channel_map })

-- `EventLoop::updateChannel` and `EventLoop::removeChannel`, which check the channel's owner first.
pub loop_update_channel : Bool → ℕ → Poller → Result Poller
loop_update_channel in_loop p s = do
  assert ((s.channels p).loop_ptr == s.owner_loop)
  assert in_loop
  update_channel in_loop p s

pub loop_remove_channel : Bool → ℕ → Poller → Result Poller
loop_remove_channel in_loop p s = do
  assert ((s.channels p).loop_ptr == s.owner_loop)
  assert in_loop
  remove_channel in_loop p s

-- `enableReading`, `enableWriting`, `disableWriting`, `disableAll`: the change, then `update`.
pub change_events : (Channel → Channel) → Bool → ℕ → Poller → Result Poller
change_events change in_loop p s =
    loop_update_channel in_loop p
      (record s { channels = channel_put p (change (s.channels p)) s.channels })

unfoldable pub enable_reading : Bool → ℕ → Poller → Result Poller
enable_reading = change_events with_reading

unfoldable pub enable_writing : Bool → ℕ → Poller → Result Poller
enable_writing = change_events with_writing

unfoldable pub disable_writing : Bool → ℕ → Poller → Result Poller
disable_writing = change_events without_writing

unfoldable pub disable_all : Bool → ℕ → Poller → Result Poller
disable_all = change_events without_all
