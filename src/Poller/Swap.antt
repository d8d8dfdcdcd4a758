-- ===== src/Poller/Swap.antt =====
-- net/Poller.cpp, the end of `removeChannel`: the last entry of the array takes the place of the one
-- that goes.
use easy_event.Base.{
  ℕ, ◌+◌, ◌-◌, ◌<◌, ◌≡◌, ◌≢◌, inl, inr, refl, subst, ap, sym, ◌∙◌, pos-injective, some-injective,
  Option, none, some, arith, length, take, set, get_elem?, ℤ, pos, negsuc, ok, eq→==, ne→==_false,
  ℕ_discrete, get_elem?-set_self, get_elem?-set_other, get_elem?-take, get_elem?_inside,
  get_elem?_of_lt, get_elem?-take_inside, length-set, length-take_le, is_negative, minus_one_minus,
  if◌then◌else◌,
}
use easy_event.Channel.{Channel, set_index}
use easy_event.Poller.{Poller, PollFd, map_put, channel_put, drop_entry}
use easy_event.Poller.Wiring.{
  IsWired, Placed, real_fd, channel_put_self, channel_put_other, map_put-cases, map_put_other,
}
use easy_event.Poller.Renew.{pollfd_at-ok}

-- A wired poller with one entry less, whose map forgets the descriptor `n` and nothing else.
abbrev pub Dropped : ℕ → Poller → Poller → Type 0
Dropped n s s' =
    IsWired s'
    × (length s'.pollfds + 1 ≡ length s.pollfds)
    × (s'.channel_map ≡ map_put (pos n) none s.channel_map)

end_fd-eq : (x : ℤ) → (if is_negative x then minus_one_minus x else x) ≡ real_fd x
end_fd-eq (pos n) = refl
end_fd-eq (negsuc n) = refl

-- The poller that `removeChannel` works on after `erase`.
abbrev pub without : ℕ → Poller → Poller
without n s = record s { channel_map = map_put (pos n) none s.channel_map }

-- A wired poller, a channel that it knows, and the channel's entry.
module _ (p n i : ℕ) (pfd : PollFd) (s : Poller) (w : IsWired s)
    (known : s.channel_map (pos n) ≡ some p) (indexed : (s.channels p).index ≡ pos i)
    (there : get_elem? s.pollfds i ≡ some pfd) (stands : real_fd pfd.fd ≡ pos n) where
  erased : ℤ → Option ℕ
  erased = map_put (pos n) none s.channel_map

  within : i < length s.pollfds
  within = get_elem?_inside s.pollfds i pfd there

  -- What the map still holds, it held before, under another descriptor.
  still : (fd : ℤ) (q : ℕ) → erased fd ≡ some q → (pos n ≢ fd) × (s.channel_map fd ≡ some q)
  unfolding erased
  still fd q e = elim (map_put-cases (pos n) none s.channel_map fd q e) [
    | inl (_, gone) ↦ absurd (cc)
    | inr kept ↦ kept
  ]

  -- An entry elsewhere is another channel's, and the map still holds that.
  elsewhere :
      (j : ℕ) (x : PollFd)
      → get_elem? s.pollfds j ≡ some x
      → i ≢ j
      → (q : ℕ) × (erased (real_fd x.fd) ≡ some q) × ((s.channels q).index ≡ pos j)
  unfolding erased
  elsewhere j x e apart =
      let (q, held, at) = w.slots j x e in
      (
        q,
        map_put_other (pos n) none s.channel_map (real_fd x.fd) (λ same. apart (
              pos-injective (
                sym indexed
                ∙ ap (λ (r : ℕ). (s.channels r).index)
                    (some-injective p q (sym known ∙ ap s.channel_map same ∙ held))
                ∙ at)))
            ∙ held,
        at,
      )

  -- A channel that the map still holds has its place elsewhere.
  apart_from :
      (fd : ℤ) (q : ℕ)
      → erased fd ≡ some q
      → (j : ℕ) (x : PollFd) → get_elem? s.pollfds j ≡ some x
      → real_fd x.fd ≡ fd
      → i ≢ j
  apart_from fd q e j x c d same = (still fd q e).0 (
      sym stands
      ∙ ap (λ (y : PollFd). real_fd y.fd)
          (some-injective pfd x (sym there ∙ ap (get_elem? s.pollfds) same ∙ c))
      ∙ d)

  -- The entry that goes is the last one.
  shrunk : Poller
  shrunk = record s { pollfds = take (length s.pollfds - 1) s.pollfds; channel_map = erased }

  shrunk-IsWired : i ≡ length s.pollfds - 1 → IsWired shrunk
  unfolding shrunk
  shrunk-IsWired at_end = record {
    entries = λ fd q e.
        let (j, x, a, b, c, d) = w.entries fd q (still fd q e).1 in
        let apart : i ≢ j = apart_from fd q e j x c d in
        (
          j,
          x,
          a,
          b,
          get_elem?-take (length s.pollfds - 1) s.pollfds j
                (omega (arith, get_elem?_inside s.pollfds j x c))
              ∙ c,
          d,
        );
    slots = λ j x e.
        let (inside, old) = get_elem?-take_inside (length s.pollfds - 1) s.pollfds j x e in
        elsewhere j x old (λ (same : i ≡ j). absurd (omega arith));
  }

  -- Another entry, the last, takes its place, and its channel learns of that.
  module _ (last : PollFd) (q : ℕ) (at_end : get_elem? s.pollfds (length s.pollfds - 1) ≡ some last)
      (before : i ≢ length s.pollfds - 1) (held : erased (real_fd last.fd) ≡ some q)
      (q_last : (s.channels q).index ≡ pos (length s.pollfds - 1)) where
    swapped : Poller
    swapped = record s {
      pollfds = take (length s.pollfds - 1) (set s.pollfds i last);
      channel_map = erased;
      channels = channel_put q (set_index (pos i) (s.channels q)) s.channels;
    }

    moved : swapped.channels q ≡ set_index (pos i) (s.channels q)
    unfolding swapped
    moved = channel_put_self q (set_index (pos i) (s.channels q)) s.channels

    -- A channel with another index is another channel, and stays as it was.
    unmoved :
        (r j : ℕ)
        → (s.channels r).index ≡ pos j
        → j ≢ length s.pollfds - 1
        → swapped.channels r ≡ s.channels r
    unfolding swapped
    unmoved r j at other =
        channel_put_other q (set_index (pos i) (s.channels q)) s.channels r (λ same.
          other (pos-injective (sym at ∙ sym (ap (λ (k : ℕ). (s.channels k).index) same) ∙ q_last)))

    -- The array after the swap, at `i` and elsewhere.
    swapped_here : get_elem? swapped.pollfds i ≡ some last
    unfolding swapped
    swapped_here =
        get_elem?-take (length s.pollfds - 1) (set s.pollfds i last) i (omega (arith, within))
        ∙ get_elem?-set_self s.pollfds i last within

    swapped_else :
        (j : ℕ) (x : PollFd)
        → get_elem? s.pollfds j ≡ some x
        → j ≢ length s.pollfds - 1
        → i ≢ j
        → get_elem? swapped.pollfds j ≡ some x
    unfolding swapped
    swapped_else j x e inner apart =
        get_elem?-take (length s.pollfds - 1) (set s.pollfds i last) j
          (omega (arith, get_elem?_inside s.pollfds j x e))
        ∙ get_elem?-set_other s.pollfds i j last apart
        ∙ e

    Placed-last : Placed swapped (real_fd last.fd) q
    Placed-last =
        let (j, x, a, b, c, d) = w.entries (real_fd last.fd) q (still (real_fd last.fd) q held).1 in
        (
          i,
          last,
          ap (λ (c : Channel). c.fd) moved ∙ a,
          ap (λ (c : Channel). c.index) moved,
          swapped_here,
          refl,
        )

    swapped-entries : (fd : ℤ) (r : ℕ) → erased fd ≡ some r → Placed swapped fd r
    swapped-entries fd r e =
        let (j, x, a, b, c, d) = w.entries fd r (still fd r e).1 in
        elim (ℕ_discrete j (length s.pollfds - 1)) [
          | yes end ↦
              let its_fd : real_fd last.fd ≡ fd =
                ap (λ (y : PollFd). real_fd y.fd)
                  (some-injective last x (sym at_end ∙ ap (get_elem? s.pollfds) (sym end) ∙ c))
                ∙ d in
              let its_channel : q ≡ r = some-injective q r (sym held ∙ ap erased its_fd ∙ e) in
              subst (λ k. Placed swapped fd k) its_channel
                (subst (λ f. Placed swapped f q) its_fd Placed-last)
          | no other ↦
              let kept : swapped.channels r ≡ s.channels r = unmoved r j b other in
              (
                j,
                x,
                ap (λ (ch : Channel). ch.fd) kept ∙ a,
                ap (λ (ch : Channel). ch.index) kept ∙ b,
                swapped_else j x c other (apart_from fd r e j x c d),
                d,
              )
        ]

    old_entry :
        (j : ℕ) (x : PollFd)
        → get_elem? swapped.pollfds j ≡ some x
        → (j < length s.pollfds - 1) × (get_elem? (set s.pollfds i last) j ≡ some x)
    unfolding swapped
    old_entry j x e = get_elem?-take_inside (length s.pollfds - 1) (set s.pollfds i last) j x e

    swapped-slots :
        (j : ℕ) (x : PollFd)
        → get_elem? swapped.pollfds j ≡ some x
        → (r : ℕ) × (erased (real_fd x.fd) ≡ some r) × ((swapped.channels r).index ≡ pos j)
    swapped-slots j x e = elim (ℕ_discrete i j) [
      | yes same ↦
          let it : x ≡ last =
            some-injective x last
              (sym e ∙ ap (get_elem? swapped.pollfds) (sym same) ∙ swapped_here) in
          (
            q,
            ap (λ (y : PollFd). erased (real_fd y.fd)) it ∙ held,
            ap (λ (c : Channel). c.index) moved ∙ ap pos same,
          )
      | no other ↦
          let (inside, was) = old_entry j x e in
          let (r, h, at) =
            elsewhere j x (sym (get_elem?-set_other s.pollfds i j last other) ∙ was) other in
          (
            r,
            h,
            ap (λ (c : Channel). c.index)
                  (unmoved r j at (λ (end : j ≡ length s.pollfds - 1). absurd (omega arith)))
                ∙ at,
          )
    ]

    swapped-IsWired : IsWired swapped
    unfolding swapped
    swapped-IsWired = record { entries = swapped-entries; slots = swapped-slots }

  pub drop_entry-Dropped : (s' : Poller) × (drop_entry i (without n s) ≡ ok s') × Dropped n s s'
  unfolding drop_entry erased shrunk swapped
  drop_entry-Dropped = elim (ℕ_discrete i (length s.pollfds - 1)) [
    | yes at_end ↦ (
      shrunk,
      rw (eq→== i (length s.pollfds - 1) at_end),
      (
        shrunk-IsWired at_end,
        omega (arith, within, length-take_le (length s.pollfds - 1) s.pollfds (omega arith)),
        refl,
      ),
    )
    | no before ↦
        let (last, at_end) =
          get_elem?_of_lt s.pollfds (length s.pollfds - 1) (omega (arith, within)) in
        let (q, held, q_last) = elsewhere (length s.pollfds - 1) last at_end before in
        (
          swapped last q at_end before held q_last,
          rw (
            ne→==_false i (length s.pollfds - 1) before,
            pollfd_at-ok s.pollfds (length s.pollfds - 1) last at_end,
            end_fd-eq last.fd,
            held,
          ),
          (
            swapped-IsWired last q at_end before held q_last,
            omega (
              arith,
              within,
              length-take_le (length s.pollfds - 1) (set s.pollfds i last)
                  (omega (arith, length-set s.pollfds i last)),
            ),
            refl,
          ),
        )
  ]
