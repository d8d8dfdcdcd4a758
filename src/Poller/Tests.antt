-- ===== src/Poller/Tests.antt =====
-- Runs of net/Poller.cpp, and the theorems about it at a concrete poller.
use easy_event.Base.{
  ℕ, zero, suc, ◌≡◌, refl, subst, ap, sym, ◌∙◌, some-injective, inl, inr, true, none, some, List,
  [], ◌∷◌, get_elem?, pos, negsuc, ok, fault, ◌>>=◌, arith, assertion,
}
use easy_event.Channel.{Channel, none_event, read_event, new_channel}
use easy_event.Poller.{
  Poller, PollFd, PollAnswer, change_events, loop_update_channel, renew_channel, remove_channel,
  drop_entry, pollfd_at, same_events, map_put, channel_put, update_channel, loop_remove_channel,
  disable_all, enable_reading, poll,
}
use easy_event.Poller.Wiring.{IsWired, Placed, real_fd, map_put-cases}
use easy_event.Poller.Request.{reenabled_stays_off}
use easy_event.Poller.Remove.{disable_all-remove_channel}
use easy_event.Poller.Swap.{Dropped}
use easy_event.Poller.Poll.{poll-ready}
use easy_event.Poller.Report.{ready, SameButRevents, Reported}

abbrev entry : ℕ → PollFd
entry fd = record { fd = pos fd; events = read_event; revents = none_event }

abbrev reading : ℕ → ℕ → Channel
reading fd index = record (new_channel 0 (pos fd)) { events = read_event; index = pos index }

abbrev objects : ℕ → Channel
objects zero = reading 5 0
objects (suc zero) = reading 7 1
objects (suc (suc n)) = record (new_channel 0 (pos 9)) { events = read_event }

-- Channels 0 and 1 wait for something to read on the descriptors 5 and 7; channel 2 is new.
abbrev two : Poller
two = record {
  owner_loop = 0;
  pollfds = entry 5 ∷ entry 7 ∷ [];
  channel_map = map_put (pos 5) (some 0) (map_put (pos 7) (some 1) (λ fd. none));
  channels = objects;
}

two-IsWired : IsWired two
two-IsWired = record {
  entries = λ fd p e.
      elim (map_put-cases (pos 5) (some 0) (map_put (pos 7) (some 1) (λ key. none)) fd p e) [
        | inl (at, it) ↦
            subst (λ k. Placed two fd k) (some-injective 0 p it)
              (subst (λ k. Placed two k 0) at (0, entry 5, refl, refl, refl, refl))
        | inr (_, e') ↦ elim (map_put-cases (pos 7) (some 1) (λ key. none) fd p e') [
          | inl (at, it) ↦
              subst (λ k. Placed two fd k) (some-injective 1 p it)
                (subst (λ k. Placed two k 1) at (1, entry 7, refl, refl, refl, refl))
          | inr (_, e'') ↦ absurd (ground arith)
        ]
      ];
  slots = slot;
}
  where
    map7 : two.channel_map (pos 7) ≡ some 1
    map7 = unfold map_put in refl

    slot :
        (i : ℕ) (pfd : PollFd)
        → get_elem? two.pollfds i ≡ some pfd
        → (p : ℕ) × (two.channel_map (real_fd pfd.fd) ≡ some p) × ((objects p).index ≡ pos i)
    slot zero pfd e = (
      0,
      ap (λ (x : PollFd). two.channel_map (real_fd x.fd)) (sym (some-injective (entry 5) pfd e))
          ∙ (unfold map_put in refl),
      refl,
    )
    slot (suc zero) pfd e = (
      1,
      ap (λ (x : PollFd). two.channel_map (real_fd x.fd)) (sym (some-injective (entry 7) pfd e))
          ∙ map7,
      refl,
    )
    slot (suc (suc i)) pfd e = absurd (ground arith)

map-two : (two.channel_map (pos 5) ≡ some 0) × (two.channel_map (pos 9) ≡ none)
unfolding map_put
map-two = (refl, refl)

reenabled_stays_off_example :
    (s' : Poller) × (i : ℕ) × ((disable_all true 0 two >>= enable_reading true 0) ≡ ok s')
    × (s'.channel_map (pos 5) ≡ some 0)
    × ((s'.channels 0).index ≡ pos i)
    × (get_elem? s'.pollfds i ≡ some (record (entry 5) { fd = negsuc 5 }))
reenabled_stays_off_example = reenabled_stays_off 0 5 two two-IsWired map-two.0 refl

disable_all-remove_channel_example :
    (s' : Poller) × ((disable_all true 0 two >>= loop_remove_channel true 0) ≡ ok s')
    × Dropped 5 two s'
disable_all-remove_channel_example = disable_all-remove_channel 0 5 two two-IsWired map-two.0 refl

-- An answer: something to read on descriptor 7.
abbrev one_ready : List PollFd → PollAnswer
one_ready ps = record {
  num_events = pos 1;
  filled = entry 5 ∷ record (entry 7) { revents = read_event } ∷ [];
}

poll-ready_example :
    (s' : Poller) × (poll one_ready two
      ≡ ok (ready two.channel_map (one_ready two.pollfds).filled, s'))
    × SameButRevents (record two { pollfds = (one_ready two.pollfds).filled }) s'
    × Reported two.channel_map (one_ready two.pollfds).filled two.channels s'.channels
    × IsWired s'
poll-ready_example =
    poll-ready one_ready two two-IsWired ((refl, refl, inl refl, (refl, refl, inl refl, tt))) refl

ready-two : ready two.channel_map (one_ready two.pollfds).filled ≡ 1 ∷ []
unfolding map_put
ready-two = refl

-- A channel that has left cannot come back: its index stays, so `updateChannel` looks for it.
update_after_remove :
    ((disable_all true 0 two >>= loop_remove_channel true 0) >>= update_channel true 0)
    ≡ fault assertion
unfolding disable_all change_events loop_update_channel update_channel renew_channel
    loop_remove_channel remove_channel drop_entry map_put channel_put pollfd_at same_events
update_after_remove = refl
