-- ===== src/Poller/Frame.antt =====
-- net/Poller.cpp: what the requests of one channel leave alone.
use easy_event.Base.{
  ℕ, ◌≡◌, ◌≢◌, refl, sym, ap, ◌∙◌, subst, Bool, Option, none, ℤ, List, ℕ_discrete, Ensures,
  Ensures-after, Ensures-if, Ensures-assert, Ensures-result, Ensures-weaken,
}
use easy_event.Channel.{Channel, set_index}
use easy_event.Poller.{
  Poller, PollFd, map_put, channel_put, add_channel, renew_channel, update_channel, drop_entry,
  remove_channel, loop_update_channel, loop_remove_channel, change_events,
}
use easy_event.Poller.Wiring.{map_put_other, channel_put_self, channel_put_other}

-- Whatever happened between `s` and `s'` was the doing of channel `p`: the other channels keep their
-- descriptors, owners and events, and the map is the same but for the descriptor of `p`.
pub record Spares (p : ℕ) (s s' : Poller) : Type 0 where
  pub owner_loop : s'.owner_loop ≡ s.owner_loop
  pub own_fd : (s'.channels p).fd ≡ (s.channels p).fd
  pub fds : (q : ℕ) → p ≢ q → (s'.channels q).fd ≡ (s.channels q).fd
  pub loop_ptrs : (q : ℕ) → p ≢ q → (s'.channels q).loop_ptr ≡ (s.channels q).loop_ptr
  pub events : (q : ℕ) → p ≢ q → (s'.channels q).events ≡ (s.channels q).events
  pub elsewhere : (fd : ℤ) → (s.channels p).fd ≢ fd → s'.channel_map fd ≡ s.channel_map fd

pub Spares-refl : (p : ℕ) (s : Poller) → Spares p s s
Spares-refl p s = record {
  owner_loop = refl;
  own_fd = refl;
  fds = λ q h. refl;
  loop_ptrs = λ q h. refl;
  events = λ q h. refl;
  elsewhere = λ fd h. refl;
}

pub Spares-trans : (p : ℕ) (s t u : Poller) → Spares p s t → Spares p t u → Spares p s u
Spares-trans p s t u a b = record {
  owner_loop = b.owner_loop ∙ a.owner_loop;
  own_fd = b.own_fd ∙ a.own_fd;
  fds = λ q h. b.fds q h ∙ a.fds q h;
  loop_ptrs = λ q h. b.loop_ptrs q h ∙ a.loop_ptrs q h;
  events = λ q h. b.events q h ∙ a.events q h;
  elsewhere = λ fd h. b.elsewhere fd (λ e. h (sym a.own_fd ∙ e)) ∙ a.elsewhere fd h;
}

-- The channel itself may change in every way but its descriptor.
pub Spares-put :
    (p : ℕ) (s : Poller) (ch : Channel) (ps : List PollFd) (m : ℤ → Option ℕ)
    → ch.fd ≡ (s.channels p).fd
    → ((fd : ℤ) → (s.channels p).fd ≢ fd → m fd ≡ s.channel_map fd)
    → Spares p s
        (record s { pollfds = ps; channel_map = m; channels = channel_put p ch s.channels })
Spares-put p s ch ps m same else_same = record {
  owner_loop = refl;
  own_fd = ap (λ (c : Channel). c.fd) (channel_put_self p ch s.channels) ∙ same;
  fds = λ q h. ap (λ (c : Channel). c.fd) (channel_put_other p ch s.channels q h);
  loop_ptrs = λ q h. ap (λ (c : Channel). c.loop_ptr) (channel_put_other p ch s.channels q h);
  events = λ q h. ap (λ (c : Channel). c.events) (channel_put_other p ch s.channels q h);
  elsewhere = else_same;
}

-- A new index changes nothing else, whichever channel gets it.
put_index_keeps :
    {A : Type 0} (f : Channel → A) (h : ℕ → Channel) (q : ℕ) (i : ℤ)
    → ((c : Channel) → f (set_index i c) ≡ f c)
    → (r : ℕ) → f (channel_put q (set_index i (h q)) h r) ≡ f (h r)
put_index_keeps f h q i keeps r = elim (ℕ_discrete q r) [
  | yes e ↦
      subst (λ k. f (channel_put q (set_index i (h q)) h k) ≡ f (h k)) e
        (ap f (channel_put_self q (set_index i (h q)) h) ∙ keeps (h q))
  | no ne ↦ ap f (channel_put_other q (set_index i (h q)) h r ne)
]

Spares-index :
    (p q : ℕ) (s : Poller) (i : ℤ) (ps : List PollFd)
    → Spares p s (record s {
      pollfds = ps;
      channels = channel_put q (set_index i (s.channels q)) s.channels;
    })
Spares-index p q s i ps = record {
  owner_loop = refl;
  own_fd = put_index_keeps (λ (c : Channel). c.fd) s.channels q i (λ c. refl) p;
  fds = λ r h. put_index_keeps (λ (c : Channel). c.fd) s.channels q i (λ c. refl) r;
  loop_ptrs = λ r h. put_index_keeps (λ (c : Channel). c.loop_ptr) s.channels q i (λ c. refl) r;
  events = λ r h. put_index_keeps (λ (c : Channel). c.events) s.channels q i (λ c. refl) r;
  elsewhere = λ fd h. refl;
}

Spares-map :
    (p : ℕ) (s : Poller) (ps : List PollFd) (m : ℤ → Option ℕ)
    → ((fd : ℤ) → (s.channels p).fd ≢ fd → m fd ≡ s.channel_map fd)
    → Spares p s (record s { pollfds = ps; channel_map = m })
Spares-map p s ps m else_same = record {
  owner_loop = refl;
  own_fd = refl;
  fds = λ q h. refl;
  loop_ptrs = λ q h. refl;
  events = λ q h. refl;
  elsewhere = else_same;
}

ruleset spares_rules = (
  Ensures-after, Ensures-assert, Ensures-if, Ensures-result, Spares-put, Spares-map, Spares-index,
  map_put_other,
)

add_channel-Spares : (p : ℕ) (s : Poller) → Ensures (Spares p s) (add_channel p s)
unfolding add_channel
add_channel-Spares p s = search spares_rules depth 12

renew_channel-Spares : (p : ℕ) (s : Poller) → Ensures (Spares p s) (renew_channel p s)
unfolding renew_channel
renew_channel-Spares p s = search spares_rules depth 12

drop_entry-Spares : (p i : ℕ) (s : Poller) → Ensures (Spares p s) (drop_entry i s)
unfolding drop_entry
drop_entry-Spares p i s = search spares_rules

-- The map has forgotten the descriptor of `p`, and the array loses an entry.
without-Spares :
    (p i : ℕ) (s : Poller)
    → Ensures
        (Spares p s)
        (drop_entry i (record s { channel_map = map_put (s.channels p).fd none s.channel_map }))
without-Spares p i s =
    Ensures-weaken
      (λ t h.
        Spares-trans p s (record s { channel_map = map_put (s.channels p).fd none s.channel_map }) t
          (Spares-map p s s.pollfds (map_put (s.channels p).fd none s.channel_map)
            (λ fd ne. map_put_other (s.channels p).fd none s.channel_map fd ne))
          h)
      (drop_entry-Spares p i
        (record s { channel_map = map_put (s.channels p).fd none s.channel_map }))

remove_channel-Spares :
    (in_loop : Bool) (p : ℕ) (s : Poller) → Ensures (Spares p s) (remove_channel in_loop p s)
unfolding remove_channel
remove_channel-Spares in_loop p s = search (spares_rules, without-Spares) depth 14

update_channel-Spares :
    (in_loop : Bool) (p : ℕ) (s : Poller) → Ensures (Spares p s) (update_channel in_loop p s)
unfolding update_channel
update_channel-Spares in_loop p s =
    search (spares_rules, add_channel-Spares, renew_channel-Spares) depth 8

loop_update_channel-Spares :
    (in_loop : Bool) (p : ℕ) (s : Poller) → Ensures (Spares p s) (loop_update_channel in_loop p s)
unfolding loop_update_channel
loop_update_channel-Spares in_loop p s = search (spares_rules, update_channel-Spares) depth 8

-- The requests of `p`, as the channel and the loop pass them on, spare everything that is not of `p`.
pub loop_remove_channel-Spares :
    (in_loop : Bool) (p : ℕ) (s : Poller) → Ensures (Spares p s) (loop_remove_channel in_loop p s)
unfolding loop_remove_channel
loop_remove_channel-Spares in_loop p s = search (spares_rules, remove_channel-Spares) depth 8

pub change_events-Spares :
    (change : Channel → Channel)
    → ((c : Channel) → (change c).fd ≡ c.fd)
    → (in_loop : Bool) (p : ℕ) (s : Poller)
    → Ensures (Spares p s) (change_events change in_loop p s)
unfolding change_events
change_events-Spares change same in_loop p s =
    Ensures-weaken
      (λ t h.
        Spares-trans p s (record s { channels = channel_put p (change (s.channels p)) s.channels })
          t
          (Spares-put p s (change (s.channels p)) s.pollfds s.channel_map (same (s.channels p))
            (λ fd ne. refl))
          h)
      (loop_update_channel-Spares in_loop p _)
