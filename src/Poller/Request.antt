-- ===== src/Poller/Request.antt =====
-- net/Channel.h, `enableReading`, `enableWriting`, `disableWriting` and `disableAll` on a channel
-- that the poller knows; and a channel that is switched off and on again.
use easy_event.Base.{
  ℕ, ◌≡◌, refl, ap, ap₂, sym, pos-injective, some-injective, ◌∙◌, subst, true, some, get_elem?, ℤ,
  pos, negsuc, ok, ◌>>=◌, eq→==, ℕ_discrete,
}
use easy_event.Channel.{Channel, none_event, read_event, with_reading, without_all}
use easy_event.Poller.{
  Poller, PollFd, channel_put, loop_update_channel, change_events, disable_all, enable_reading,
}
use easy_event.Poller.Wiring.{IsWired, channel_put_self, channel_put_other}
use easy_event.Poller.Renew.{entry_of, renewed, update_channel-renews}

-- A change that leaves a channel where it is.
pub record Keeps (change : Channel → Channel) : Type 0 where
  pub fd : (c : Channel) → (change c).fd ≡ c.fd
  pub index : (c : Channel) → (change c).index ≡ c.index
  pub loop_ptr : (c : Channel) → (change c).loop_ptr ≡ c.loop_ptr

unfoldable pub changed : (Channel → Channel) → ℕ → Poller → Poller
changed change p s = record s { channels = channel_put p (change (s.channels p)) s.channels }

module _ (change : Channel → Channel) (k : Keeps change) (p : ℕ) (s : Poller) where
  pub changed_here : (changed change p s).channels p ≡ change (s.channels p)
  unfolding changed
  changed_here = channel_put_self p (change (s.channels p)) s.channels

  -- Every channel keeps what `f` reads of it, if `change` does.
  pub changed_keeps {ℓ} :
      {A : Type ℓ} (f : Channel → A)
      → ((c : Channel) → f (change c) ≡ f c)
      → (q : ℕ) → f ((changed change p s).channels q) ≡ f (s.channels q)
  unfolding changed
  changed_keeps f h q = elim (ℕ_discrete p q) [
    | yes e ↦
        subst (λ r. f ((changed change p s).channels r) ≡ f (s.channels r)) e
          (ap f changed_here ∙ h (s.channels p))
    | no ne ↦ ap f (channel_put_other p (change (s.channels p)) s.channels q ne)
  ]

  pub changed-IsWired : IsWired s → IsWired (changed change p s)
  unfolding changed
  changed-IsWired w = record {
    entries = λ fd q e.
        let (i, pfd, a, b, c, d) = w.entries fd q e in
        (
          i,
          pfd,
          changed_keeps (λ (c : Channel). c.fd) k.fd q ∙ a,
          changed_keeps (λ (c : Channel). c.index) k.index q ∙ b,
          c,
          d,
        );
    slots = λ i pfd e.
        let (q, a, b) = w.slots i pfd e in
        (q, a, changed_keeps (λ (c : Channel). c.index) k.index q ∙ b);
  }

  -- Such a request, of a channel of this loop in the loop's thread.
  pub change_events-ok :
      (n : ℕ)
      → IsWired s
      → s.channel_map (pos n) ≡ some p
      → (s.channels p).loop_ptr ≡ s.owner_loop
      → (i : ℕ) × (pfd : PollFd) × ((s.channels p).index ≡ pos i)
        × (get_elem? s.pollfds i ≡ some pfd)
        × (change_events change true p s ≡ ok (renewed p i pfd (changed change p s)))
        × IsWired (renewed p i pfd (changed change p s))
        × (get_elem? (renewed p i pfd (changed change p s)).pollfds i
            ≡ some (entry_of (change (s.channels p)) pfd.fd))
  unfolding change_events loop_update_channel changed
  change_events-ok n w known mine =
      let (i, pfd, at, was, did, wired, there) =
        update_channel-renews p n (changed change p s) (changed-IsWired w) known in
      (
        i,
        pfd,
        sym (changed_keeps (λ (c : Channel). c.index) k.index p) ∙ at,
        was,
        rw
            (
              ap (λ (c : Channel). c.loop_ptr) changed_here ∙ k.loop_ptr (s.channels p) ∙ mine,
              eq→== s.owner_loop s.owner_loop refl,
            )
            did,
        wired,
        there ∙ ap (λ (c : Channel). some (entry_of c pfd.fd)) changed_here,
      )

pub off-Keeps : Keeps without_all
off-Keeps = record { fd = λ c. refl; index = λ c. refl; loop_ptr = λ c. refl }

pub reading-Keeps : Keeps with_reading
reading-Keeps = record { fd = λ c. refl; index = λ c. refl; loop_ptr = λ c. refl }

abbrev off_entry : ℕ → PollFd
off_entry n = record { fd = negsuc n; events = read_event; revents = none_event }

entry_on_again :
    (c d : Channel) (x : PollFd) (old : ℤ) (n : ℕ)
    → c.fd ≡ pos n
    → d ≡ without_all c
    → x ≡ entry_of (without_all c) old
    → entry_of (with_reading d) x.fd ≡ off_entry n
entry_on_again c d x old n numbered e f =
    ap₂ (λ (ch : Channel) (y : PollFd). entry_of (with_reading ch) y.fd) e f ∙ rw numbered

-- A channel that the poller knows, switched off by `disableAll` and then switched on again by
-- `enableReading`: its entry waits for the read events again, but keeps the descriptor -fd - 1, so
-- poll(2) goes on ignoring it.
pub reenabled_stays_off :
    (p n : ℕ) (s : Poller)
    → IsWired s
    → s.channel_map (pos n) ≡ some p
    → (s.channels p).loop_ptr ≡ s.owner_loop
    → (s' : Poller) × (i : ℕ) × ((disable_all true p s >>= enable_reading true p) ≡ ok s')
      × (s'.channel_map (pos n) ≡ some p)
      × ((s'.channels p).index ≡ pos i)
      × (get_elem? s'.pollfds i
          ≡ some (record { fd = negsuc n; events = read_event; revents = none_event }))
unfolding disable_all enable_reading changed
reenabled_stays_off p n s w known mine =
    let (i, pfd, at, was, did, wired, there) =
      change_events-ok without_all off-Keeps p s n w known mine in
    let off : Poller = renewed p i pfd (changed without_all p s) in
    let here : off.channels p ≡ without_all (s.channels p) =
      channel_put_self p (without_all (s.channels p)) s.channels in
    let (j, entry, at', was', did', wired', there') =
      change_events-ok with_reading reading-Keeps p off n wired known
        (ap (λ (c : Channel). c.loop_ptr) here ∙ mine) in
    let same : i ≡ j = pos-injective (sym at ∙ sym (ap (λ (c : Channel). c.index) here) ∙ at') in
    let was_off : entry ≡ entry_of (without_all (s.channels p)) pfd.fd =
      some-injective entry (entry_of (without_all (s.channels p)) pfd.fd)
        (sym was' ∙ ap (get_elem? off.pollfds) (sym same) ∙ there) in
    let numbered : (s.channels p).fd ≡ pos n = (w.entries (pos n) p known).2 in
    (
      renewed p j entry (changed with_reading p off),
      j,
      rw did did',
      known,
      ap (λ (c : Channel). c.index) (changed_here with_reading reading-Keeps p off) ∙ at',
      there'
          ∙ ap some
              (entry_on_again (s.channels p) (off.channels p) entry pfd.fd n numbered here was_off),
    )
