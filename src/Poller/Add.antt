-- ===== src/Poller/Add.antt =====
-- net/Poller.cpp, `updateChannel` for a channel that is new.
use easy_event.Base.{
  ℕ, ◌≡◌, ◌≢◌, inl, inr, refl, subst, some-injective, ap, sym, ◌∙◌, true, none, some, arith, length,
  get_elem?, ℤ, pos, is_negative, [], ◌∷◌, ◌++◌, ok, ◌-◌, length-append, get_elem?_inside,
  get_elem?-append_left, get_elem?-append_last, get_elem?_last_cases,
}
use easy_event.Channel.{Channel, set_index, none_event}
use easy_event.Poller.{Poller, PollFd, map_put, channel_put, add_channel, update_channel}
use easy_event.Poller.Wiring.{
  IsWired, Placed, real_fd, map_put-cases, map_put_self, map_put_other, channel_put_self,
  channel_put_other,
}

module _ (p : ℕ) (s : Poller) where
  new_pollfd : PollFd
  new_pollfd = record {
    fd = (s.channels p).fd;
    events = (s.channels p).events;
    revents = none_event;
  }

  new_index : length (s.pollfds ++ new_pollfd ∷ []) - 1 ≡ length s.pollfds
  new_index = omega (arith, length-append s.pollfds (new_pollfd ∷ []))

  -- The channel once it knows its place.
  indexed : Channel
  indexed = set_index (pos (length (s.pollfds ++ new_pollfd ∷ []) - 1)) (s.channels p)

  pub added : Poller
  unfolding new_pollfd indexed
  added = record s {
    pollfds = s.pollfds ++ new_pollfd ∷ [];
    channel_map = map_put (s.channels p).fd (some p) s.channel_map;
    channels = channel_put p indexed s.channels;
  }

  added_other : (q : ℕ) → p ≢ q → added.channels q ≡ s.channels q
  unfolding added
  added_other q h = channel_put_other p indexed s.channels q h

  added_here :
      ((added.channels p).fd ≡ (s.channels p).fd)
      × ((added.channels p).index ≡ pos (length s.pollfds))
  unfolding added
  added_here = rw (channel_put_self p indexed s.channels, new_index) (refl, refl)

  module _ (w : IsWired s) (n : ℕ) (numbered : (s.channels p).fd ≡ pos n)
      (fresh : s.channel_map (s.channels p).fd ≡ none) where
    -- A channel of the map is another one.
    other_channel : (fd : ℤ) (q : ℕ) → s.channel_map fd ≡ some q → p ≢ q
    other_channel fd q e same =
        let (_, _, here, _, _, _) = w.entries fd q e in
        ground (arith, ap (λ (r : ℕ). (s.channels r).fd) same, here, ap s.channel_map here)

    Placed-here : Placed added (s.channels p).fd p
    unfolding added new_pollfd
    Placed-here = (
      length s.pollfds,
      new_pollfd,
      added_here.0,
      added_here.1,
      get_elem?-append_last s.pollfds new_pollfd (length s.pollfds) refl,
      rw numbered,
    )

    added-entries : (fd : ℤ) (q : ℕ) → added.channel_map fd ≡ some q → Placed added fd q
    unfolding added
    added-entries fd q e = elim (map_put-cases (s.channels p).fd (some p) s.channel_map fd q e) [
      | inl (here, it) ↦
          subst (λ r. Placed added fd r) (some-injective p q it)
            (subst (λ k. Placed added k p) here Placed-here)
      | inr (other, old) ↦
          let (i, pfd, a, b, c, d) = w.entries fd q old in
          let kept : added.channels q ≡ s.channels q = added_other q (other_channel fd q old) in
          (
            i,
            pfd,
            ap (λ (ch : Channel). ch.fd) kept ∙ a,
            ap (λ (ch : Channel). ch.index) kept ∙ b,
            get_elem?-append_left s.pollfds (new_pollfd ∷ []) i (get_elem?_inside s.pollfds i pfd c)
                ∙ c,
            d,
          )
    ]

    added-slots :
        (i : ℕ) (pfd : PollFd)
        → get_elem? added.pollfds i ≡ some pfd
        → (q : ℕ) × (added.channel_map (real_fd pfd.fd) ≡ some q)
          × ((added.channels q).index ≡ pos i)
    unfolding added new_pollfd
    added-slots i pfd e = elim (get_elem?_last_cases s.pollfds new_pollfd i pfd e) [
      | inl old ↦
          let (q, a, b) = w.slots i pfd old in
          (
            q,
            map_put_other (s.channels p).fd (some p) s.channel_map (real_fd pfd.fd)
                  (λ h. ground (arith, ap s.channel_map h, fresh, a))
                ∙ a,
            ap (λ (ch : Channel). ch.index) (added_other q (other_channel (real_fd pfd.fd) q a))
                ∙ b,
          )
      | inr (last, it) ↦ (
        p,
        ap (λ (k : ℤ). map_put (s.channels p).fd (some p) s.channel_map k)
              (ap (λ (x : PollFd). real_fd x.fd) it ∙ rw numbered)
            ∙ map_put_self (s.channels p).fd (some p) s.channel_map,
        added_here.1 ∙ ap pos (sym last),
      )
    ]

    pub added-IsWired : IsWired added
    added-IsWired = record { entries = added-entries; slots = added-slots }

-- The new channel keeps its loop and its events, and the loop keeps its poller.
pub added-keeps :
    (p : ℕ) (s : Poller)
    → (((added p s).channels p).loop_ptr ≡ (s.channels p).loop_ptr)
      × (((added p s).channels p).events ≡ (s.channels p).events)
      × ((added p s).owner_loop ≡ s.owner_loop)
unfolding added indexed
added-keeps p s = rw (channel_put_self p (indexed p s) s.channels) (refl, refl, refl)

pub added-knows :
    (p n : ℕ) (s : Poller) → (s.channels p).fd ≡ pos n → (added p s).channel_map (pos n) ≡ some p
unfolding added
added-knows p n s numbered = rw numbered (map_put_self (pos n) (some p) s.channel_map)

-- What becomes of the array and the map.
pub added-grows :
    (p n : ℕ) (s : Poller)
    → (s.channels p).fd ≡ pos n
    → ((added p s).pollfds
        ≡ s.pollfds
          ++ record { fd = pos n; events = (s.channels p).events; revents = none_event } ∷ [])
      × ((added p s).channel_map ≡ map_put (pos n) (some p) s.channel_map)
unfolding added new_pollfd
added-grows p n s numbered = rw numbered (refl, refl)

-- `updateChannel` as a whole, on such a channel.
pub update_channel-added :
    (p n : ℕ) (s : Poller)
    → is_negative (s.channels p).index ≡ true
    → (s.channels p).fd ≡ pos n
    → s.channel_map (pos n) ≡ none
    → update_channel true p s ≡ ok (added p s)
unfolding update_channel add_channel added indexed new_pollfd
update_channel-added p n s unplaced numbered fresh = rw (unplaced, numbered, fresh)
