-- ===== src/Poller/AskedTests.antt =====
-- A channel with the descriptor 5 that joins a new poller, wants to write, and leaves.
use easy_event.Base.{refl, true, [], none, pos, Result, ok, fault, ◌>>=◌}
use easy_event.Channel.{new_channel, with_writing}
use easy_event.Poller.{
  Poller, change_events, disable_all, enable_reading, loop_remove_channel, loop_update_channel,
  update_channel, add_channel, renew_channel, remove_channel, drop_entry, map_put, channel_put,
  pollfd_at, same_events,
}
use easy_event.Poller.Asked.{IsAsked, Requests, here, next, joins, changes, leaves}
use easy_event.Poller.Asked.Invariant.{Requests-IsAsked}
use easy_event.Poller.Join.{with_object}
use easy_event.Poller.Wiring.{IsWired}

abbrev fresh_poller : Poller
fresh_poller = record {
  owner_loop = 3;
  pollfds = [];
  channel_map = λ _. none;
  channels = λ _. new_channel 3 (pos 0);
}

abbrev result_of : Result Poller → Poller
result_of (fault why) = fresh_poller
result_of (ok s) = s

abbrev joined : Poller
joined = result_of (enable_reading true 1 (with_object 1 (new_channel 3 (pos 5)) fresh_poller))

abbrev writing : Poller
writing = result_of (change_events with_writing true 1 joined)

abbrev left : Poller
left = result_of (disable_all true 1 writing >>= loop_remove_channel true 1)

all_steps : Requests fresh_poller left
unfolding enable_reading disable_all change_events loop_update_channel update_channel add_channel
    renew_channel loop_remove_channel remove_channel drop_entry map_put channel_put pollfd_at
    same_events
all_steps =
    next
      (next (next here (joins 1 5 (λ fd never. absurd (cc)) refl refl)) (
        changes with_writing (record { fd = λ c. refl; index = λ c. refl; loop_ptr = λ c. refl }) 1
          5 refl refl refl))
      (leaves 1 5 refl refl refl)

Requests-IsAsked_example : IsWired left × IsAsked left
Requests-IsAsked_example = Requests-IsAsked fresh_poller left refl (λ fd. refl) all_steps
