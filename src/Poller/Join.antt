-- ===== src/Poller/Join.antt =====
-- net/Channel.h, `enableReading` of a channel that is new: it joins the poller.
use easy_event.Base.{
  ℕ, ◌≡◌, ◌≢◌, refl, ap, sym, ◌∙◌, [], ◌∷◌, ◌++◌, true, none, some, ℤ, pos, ok, eq→==,
}
use easy_event.Channel.{Channel, new_channel, with_reading, read_event, none_event}
use easy_event.Poller.{
  PollFd, map_put, Poller, channel_put, change_events, enable_reading, loop_update_channel,
}
use easy_event.Poller.Wiring.{IsWired, channel_put_self, channel_put_other}
use easy_event.Poller.Add.{
  added, added-IsWired, added-keeps, added-knows, added-grows, update_channel-added,
}
use easy_event.Poller.Request.{changed, changed-IsWired, reading-Keeps}

-- A poller with an object at `p` to which nothing pointed.
abbrev pub with_object : ℕ → Channel → Poller → Poller
with_object p c s = record s { channels = channel_put p c s.channels }

pub with_object-IsWired :
    (p : ℕ) (c : Channel) (s : Poller)
    → IsWired s
    → ((fd : ℤ) → s.channel_map fd ≢ some p)
    → IsWired (with_object p c s)
with_object-IsWired p c s w unused = record {
  entries = λ fd q e.
      let (i, pfd, a, b, there, d) = w.entries fd q e in
      let kept : channel_put p c s.channels q ≡ s.channels q =
        channel_put_other p c s.channels q (λ same. unused fd (e ∙ ap some (sym same))) in
      (
        i,
        pfd,
        ap (λ (ch : Channel). ch.fd) kept ∙ a,
        ap (λ (ch : Channel). ch.index) kept ∙ b,
        there,
        d,
      );
  slots = λ i pfd e.
      let (q, held, at) = w.slots i pfd e in
      let kept : channel_put p c s.channels q ≡ s.channels q =
        channel_put_other p c s.channels q (λ same. unused _ (held ∙ ap some (sym same))) in
      (q, held, ap (λ (ch : Channel). ch.index) kept ∙ at);
}

-- The entry of a channel that waits for the read events.
abbrev pub joined_entry : ℕ → PollFd
joined_entry n = record { fd = pos n; events = read_event; revents = none_event }

-- `enableReading` of a new channel of this loop, in the loop's thread: no assertion fails, and the
-- channel joins the map and, last, the array, and waits for the read events only.
pub enable_reading-joins :
    (p n : ℕ) (s : Poller)
    → IsWired s
    → ((fd : ℤ) → s.channel_map fd ≢ some p)
    → s.channel_map (pos n) ≡ none
    → (s' : Poller) × (enable_reading true p (with_object p (new_channel s.owner_loop (pos n)) s)
        ≡ ok s')
      × IsWired s'
      × (s'.channel_map (pos n) ≡ some p)
      × ((s'.channels p).loop_ptr ≡ s'.owner_loop)
      × ((s'.channels p).events ≡ read_event)
      × (s'.pollfds ≡ s.pollfds ++ joined_entry n ∷ [])
      × (s'.channel_map ≡ map_put (pos n) (some p) s.channel_map)
unfolding enable_reading change_events loop_update_channel changed
enable_reading-joins p n s w unused fresh =
    let made : Channel = new_channel s.owner_loop (pos n) in
    let s₁ : Poller = with_object p made s in
    let s₂ : Poller = changed with_reading p s₁ in
    let here : s₂.channels p ≡ with_reading made =
      channel_put_self p (with_reading (s₁.channels p)) s₁.channels
      ∙ ap with_reading (channel_put_self p made s.channels) in
    let numbered : (s₂.channels p).fd ≡ pos n = ap (λ (c : Channel). c.fd) here in
    let reads : (s₂.channels p).events ≡ read_event = ap (λ (c : Channel). c.events) here in
    let mine : (s₂.channels p).loop_ptr ≡ s.owner_loop = ap (λ (c : Channel). c.loop_ptr) here in
    let wired : IsWired s₂ =
      changed-IsWired with_reading reading-Keeps p s₁ (with_object-IsWired p made s w unused) in
    (
      added p s₂,
      rw (mine, eq→== s.owner_loop s.owner_loop refl)
          (update_channel-added p n s₂ (rw here) numbered fresh),
      added-IsWired p s₂ wired n numbered (ap s.channel_map numbered ∙ fresh),
      added-knows p n s₂ numbered,
      (added-keeps p s₂).0 ∙ mine ∙ sym (added-keeps p s₂).2,
      (added-keeps p s₂).1 ∙ reads,
      (added-grows p n s₂ numbered).0 ∙ rw reads,
      (added-grows p n s₂ numbered).1,
    )
