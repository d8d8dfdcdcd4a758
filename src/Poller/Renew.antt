-- ===== src/Poller/Renew.antt =====
-- net/Poller.cpp, `updateChannel` for a channel that has its place, and what the four requests of
-- net/Channel.h make of it.
use easy_event.Base.{
  ℕ, ◌≡◌, ◌⊎◌, inl, inr, refl, ap, sym, ◌∙◌, some-injective, true, some, arith, length, get_elem?,
  set, ℤ, pos, negsuc, eqb_ℤ, minus_one_minus, eqb_ℤ-refl, if◌then◌else◌, ℕ_discrete, ◌||◌, List,
  ok, Bool-cases, get_elem?_inside, lt→ltb, eq→==, get_elem?-set_self, get_elem?-set_other,
}
use easy_event.Channel.{Channel, is_none_event, none_event}
use easy_event.Poller.{Poller, PollFd, pollfd_at, renew_channel, update_channel}
use easy_event.Poller.Wiring.{IsWired, Placed, real_fd}

-- The entry that `updateChannel` writes, over the descriptor of the old one.
abbrev pub entry_of : Channel → ℤ → PollFd
entry_of ch old = record {
  fd = if is_none_event ch then minus_one_minus ch.fd else old;
  events = ch.events;
  revents = none_event;
}

abbrev pub renewed : ℕ → ℕ → PollFd → Poller → Poller
renewed p i pfd s = record s { pollfds = set s.pollfds i (entry_of (s.channels p) pfd.fd) }

pub pollfd_at-ok :
    (ps : List PollFd) (i : ℕ) (pfd : PollFd)
    → get_elem? ps i ≡ some pfd
    → pollfd_at ps (pos i) ≡ ok pfd
unfolding pollfd_at
pollfd_at-ok ps i pfd e = rw (e, pollfd_at)

-- An entry is written for its channel's descriptor or for that descriptor switched off.
real_fd-cases : (n : ℕ) (x : ℤ) → real_fd x ≡ pos n → (x ≡ pos n) ⊎ (x ≡ negsuc n)
real_fd-cases n (pos m) h = inl h
real_fd-cases n (negsuc m) h = inr (ground arith)

real_fd-entry_of :
    (ch : Channel) (old : ℤ) (n : ℕ)
    → ch.fd ≡ pos n
    → real_fd old ≡ pos n
    → real_fd (entry_of ch old).fd ≡ pos n
real_fd-entry_of ch old n h k = elim (Bool-cases (is_none_event ch)) [
  | inl off ↦ rw (off, h)
  | inr on ↦ rw on k
]

module _ (p n i : ℕ) (pfd : PollFd) (s : Poller) (w : IsWired s)
    (known : s.channel_map (pos n) ≡ some p) (numbered : (s.channels p).fd ≡ pos n)
    (indexed : (s.channels p).index ≡ pos i) (there : get_elem? s.pollfds i ≡ some pfd)
    (stands : real_fd pfd.fd ≡ pos n) where
  pub renew_channel-ok : renew_channel p s ≡ ok (renewed p i pfd s)
  unfolding renew_channel
  renew_channel-ok = rw (
    numbered,
    known,
    indexed,
    eq→== p p refl,
    lt→ltb i (length s.pollfds) (get_elem?_inside s.pollfds i pfd there),
    pollfd_at-ok s.pollfds i pfd there,
    for_channel,
  )
    where
      for_channel : (eqb_ℤ pfd.fd (pos n) || eqb_ℤ pfd.fd (negsuc n)) ≡ true
      for_channel = elim (real_fd-cases n pfd.fd stands) [
        | inl on ↦ rw (on, eqb_ℤ-refl (pos n))
        | inr off ↦ rw (off, eqb_ℤ-refl (negsuc n))
      ]

  -- The new entry stands for the channel too.
  entry_stands : real_fd (entry_of (s.channels p) pfd.fd).fd ≡ pos n
  entry_stands = real_fd-entry_of (s.channels p) pfd.fd n numbered stands

  pub entry_there : get_elem? (renewed p i pfd s).pollfds i ≡ some (entry_of (s.channels p) pfd.fd)
  entry_there =
      get_elem?-set_self s.pollfds i (entry_of (s.channels p) pfd.fd)
        (get_elem?_inside s.pollfds i pfd there)

  renewed-entries : (fd : ℤ) (q : ℕ) → s.channel_map fd ≡ some q → Placed (renewed p i pfd s) fd q
  renewed-entries fd q e =
      let (j, x, a, b, c, d) = w.entries fd q e in
      elim (ℕ_discrete i j) [
        | yes same ↦
            let one : pfd ≡ x =
              some-injective pfd x (sym there ∙ ap (get_elem? s.pollfds) same ∙ c) in
            (
              i,
              entry_of (s.channels p) pfd.fd,
              a,
              b ∙ ap pos (sym same),
              entry_there,
              entry_stands ∙ sym stands ∙ ap (λ (y : PollFd). real_fd y.fd) one ∙ d,
            )
        | no other ↦ (
          j,
          x,
          a,
          b,
          get_elem?-set_other s.pollfds i j (entry_of (s.channels p) pfd.fd) other ∙ c,
          d,
        )
      ]

  renewed-slots :
      (j : ℕ) (x : PollFd)
      → get_elem? (renewed p i pfd s).pollfds j ≡ some x
      → (q : ℕ) × (s.channel_map (real_fd x.fd) ≡ some q) × ((s.channels q).index ≡ pos j)
  renewed-slots j x e = elim (ℕ_discrete i j) [
    | yes same ↦
        let one : entry_of (s.channels p) pfd.fd ≡ x =
          some-injective (entry_of (s.channels p) pfd.fd) x
            (sym entry_there ∙ ap (get_elem? (renewed p i pfd s).pollfds) same ∙ e) in
        (
          p,
          ap s.channel_map (ap (λ (y : PollFd). real_fd y.fd) (sym one) ∙ entry_stands) ∙ known,
          indexed ∙ ap pos same,
        )
    | no other ↦
        w.slots j x
          (sym (get_elem?-set_other s.pollfds i j (entry_of (s.channels p) pfd.fd) other) ∙ e)
  ]

  pub renewed-IsWired : IsWired (renewed p i pfd s)
  renewed-IsWired = record { entries = renewed-entries; slots = renewed-slots }

-- `updateChannel` of a channel that a wired poller knows, in the loop's thread: no assertion fails,
-- the poller stays wired, and the channel's entry waits for its events now; an entry for no event is
-- switched off, and otherwise its descriptor stays as it was.
pub update_channel-renews :
    (p n : ℕ) (s : Poller)
    → IsWired s
    → s.channel_map (pos n) ≡ some p
    → (i : ℕ) × (pfd : PollFd) × ((s.channels p).index ≡ pos i)
      × (get_elem? s.pollfds i ≡ some pfd)
      × (update_channel true p s ≡ ok (renewed p i pfd s))
      × IsWired (renewed p i pfd s)
      × (get_elem? (renewed p i pfd s).pollfds i ≡ some (entry_of (s.channels p) pfd.fd))
unfolding update_channel
update_channel-renews p n s w known =
    let (i, pfd, a, b, c, d) = w.entries (pos n) p known in
    (
      i,
      pfd,
      b,
      c,
      rw b (renew_channel-ok p n i pfd s w known a b c d),
      renewed-IsWired p n i pfd s w known a b c d,
      entry_there p n i pfd s w known a b c d,
    )
