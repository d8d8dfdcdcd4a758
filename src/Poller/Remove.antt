-- ===== src/Poller/Remove.antt =====
-- net/Poller.cpp, `removeChannel`: a channel leaves the poller.
use easy_event.Base.{
  ℕ, ◌≡◌, refl, ap, ◌∙◌, true, some, length, get_elem?, pos, negsuc, ok, ◌>>=◌, eq→==,
  get_elem?_inside, length-set, lt→ltb, eqb_ℤ-refl, minus_one_minus,
}
use easy_event.Channel.{Channel, is_none_event, without_all, none_event}
use easy_event.Poller.{
  Poller, PollFd, drop_entry, remove_channel, same_events, disable_all, loop_remove_channel,
}
use easy_event.Poller.Wiring.{IsWired, real_fd, channel_put_self}
use easy_event.Poller.Renew.{pollfd_at-ok, entry_of, renewed}
use easy_event.Poller.Request.{changed, change_events-ok, off-Keeps}
use easy_event.Poller.Swap.{Dropped, without, drop_entry-Dropped}

same_none : same_events none_event none_event ≡ true
unfolding same_events
same_none = refl

-- The assertions of `removeChannel` before that.
remove_channel-drops :
    (p n i : ℕ) (pfd : PollFd) (s : Poller)
    → s.channel_map (pos n) ≡ some p
    → (s.channels p).index ≡ pos i
    → get_elem? s.pollfds i ≡ some pfd
    → (s.channels p).fd ≡ pos n
    → is_none_event (s.channels p) ≡ true
    → pfd.fd ≡ negsuc n
    → same_events pfd.events (s.channels p).events ≡ true
    → remove_channel true p s ≡ drop_entry i (without n s)
unfolding remove_channel
remove_channel-drops p n i pfd s known indexed there numbered none_left off same = rw (
  numbered,
  known,
  none_left,
  indexed,
  eq→== p p refl,
  lt→ltb i (length s.pollfds) (get_elem?_inside s.pollfds i pfd there),
  pollfd_at-ok s.pollfds i pfd there,
  off,
  eqb_ℤ-refl (negsuc n),
  same,
)

-- For a channel that a wired poller knows, that waits for no event, and whose entry is switched off
-- and agrees with its events, `removeChannel` in the loop's thread meets no failing assertion, the
-- poller stays wired with one entry less, and the map forgets that descriptor and nothing else.
pub remove_channel-Dropped :
    (p n i : ℕ) (pfd : PollFd) (s : Poller)
    → IsWired s
    → s.channel_map (pos n) ≡ some p
    → (s.channels p).index ≡ pos i
    → get_elem? s.pollfds i ≡ some pfd
    → is_none_event (s.channels p) ≡ true
    → pfd.fd ≡ negsuc n
    → same_events pfd.events (s.channels p).events ≡ true
    → (s' : Poller) × (remove_channel true p s ≡ ok s') × Dropped n s s'
remove_channel-Dropped p n i pfd s w known indexed there none_left off same =
    let stands : real_fd pfd.fd ≡ pos n = ap real_fd off in
    let (s', did, d) = drop_entry-Dropped p n i pfd s w known indexed there stands in
    (
      s',
      remove_channel-drops p n i pfd s known indexed there (w.entries (pos n) p known).2 none_left
            off same
          ∙ did,
      d,
    )

loop_remove_channel-mine :
    (p : ℕ) (s : Poller)
    → (s.channels p).loop_ptr ≡ s.owner_loop
    → loop_remove_channel true p s ≡ remove_channel true p s
unfolding loop_remove_channel
loop_remove_channel-mine p s mine = rw (mine, eq→== s.owner_loop s.owner_loop refl)

-- Taking leave as a closing connection does, `disableAll` and then `removeChannel`: for a channel of
-- this loop that a wired poller knows, in the loop's thread, no assertion fails, the poller stays
-- wired with one entry less, and the map forgets the channel's descriptor and nothing else.
pub disable_all-remove_channel :
    (p n : ℕ) (s : Poller)
    → IsWired s
    → s.channel_map (pos n) ≡ some p
    → (s.channels p).loop_ptr ≡ s.owner_loop
    → (s' : Poller) × ((disable_all true p s >>= loop_remove_channel true p) ≡ ok s')
      × Dropped n s s'
unfolding disable_all changed
disable_all-remove_channel p n s w known mine =
    let (i, pfd, at, was, did, wired, there) =
      change_events-ok without_all off-Keeps p s n w known mine in
    let off : Poller = renewed p i pfd (changed without_all p s) in
    let here : off.channels p ≡ without_all (s.channels p) =
      channel_put_self p (without_all (s.channels p)) s.channels in
    let (s', gone, (wired', size, forgets)) =
      remove_channel-Dropped p n i (entry_of (without_all (s.channels p)) pfd.fd) off wired known
        (ap (λ (c : Channel). c.index) here ∙ at) there (ap is_none_event here)
        (ap minus_one_minus (w.entries (pos n) p known).2)
        (ap (λ (c : Channel). same_events none_event c.events) here ∙ same_none) in
    (
      s',
      rw did (loop_remove_channel-mine p off (ap (λ (c : Channel). c.loop_ptr) here ∙ mine) ∙ gone),
      (wired', size ∙ length-set s.pollfds i (entry_of (off.channels p) pfd.fd), forgets),
    )
