-- ===== src/Poller/Wiring.antt =====
-- net/Poller.cpp: how the map, the array and the channels' indices belong together, and what the
-- operations find in a poller where they do.
use easy_event.Base.{
  ℕ, ◌≡◌, ◌≢◌, sym, ap, ◌∙◌, refl, none, Option, some, arith, get_elem?, ℤ, pos, negsuc, eqb_ℤ,
  eqb_ℤ-refl, eqb_ℤ→eq, ne→eqb_ℤ_false, ◌⊎◌, inl, inr, Bool-cases,
}
use easy_event.Channel.{Channel}
use easy_event.Poller.{Poller, PollFd, map_put, channel_put}

-- The descriptor that an entry of the array stands for; one that is not to be polled is -fd - 1.
abbrev pub real_fd : ℤ → ℤ
real_fd (pos n) = pos n
real_fd (negsuc n) = pos n

-- Channel `p` is in the array at its index, under its descriptor.
abbrev pub Placed : Poller → ℤ → ℕ → Type 0
Placed s fd p =
    (i : ℕ) × (pfd : PollFd) × ((s.channels p).fd ≡ fd)
    × ((s.channels p).index ≡ pos i)
    × (get_elem? s.pollfds i ≡ some pfd)
    × (real_fd pfd.fd ≡ fd)

-- Every channel of the map is placed, and every entry of the array belongs to a channel of the map
-- that knows the entry's index.
pub record IsWired (s : Poller) : Type 0 where
  pub entries : (fd : ℤ) (p : ℕ) → s.channel_map fd ≡ some p → Placed s fd p
  pub slots :
      (i : ℕ) (pfd : PollFd)
      → get_elem? s.pollfds i ≡ some pfd
      → (p : ℕ) × (s.channel_map (real_fd pfd.fd) ≡ some p) × ((s.channels p).index ≡ pos i)

pub map_put-cases :
    (fd : ℤ) (entry : Option ℕ) (m : ℤ → Option ℕ) (key : ℤ) (q : ℕ)
    → map_put fd entry m key ≡ some q
    → ((fd ≡ key) × (entry ≡ some q)) ⊎ ((fd ≢ key) × (m key ≡ some q))
unfolding map_put
map_put-cases fd entry m key q e = elim (Bool-cases (eqb_ℤ fd key)) [
  | inl same ↦ inl (eqb_ℤ→eq fd key same, ground (arith, same))
  | inr other ↦ inr (λ h. ground (arith, h, other, eqb_ℤ-refl key), ground (arith, other))
]

pub map_put_self : (fd : ℤ) (entry : Option ℕ) (m : ℤ → Option ℕ) → map_put fd entry m fd ≡ entry
unfolding map_put
map_put_self fd entry m = rw (eqb_ℤ-refl fd)

pub map_put_other :
    (fd : ℤ) (entry : Option ℕ) (m : ℤ → Option ℕ) (key : ℤ)
    → fd ≢ key
    → map_put fd entry m key ≡ m key
unfolding map_put
map_put_other fd entry m key h = rw (ne→eqb_ℤ_false fd key h)

pub channel_put_self : (p : ℕ) (c : Channel) (h : ℕ → Channel) → channel_put p c h p ≡ c
unfolding channel_put
channel_put_self p c h = ground arith

pub channel_put_other :
    (p : ℕ) (c : Channel) (h : ℕ → Channel) (q : ℕ) → p ≢ q → channel_put p c h q ≡ h q
unfolding channel_put
channel_put_other p c h q n = ground arith

-- A descriptor that comes and goes leaves the map as it was.
pub map_put_undone :
    (fd : ℤ) (entry : Option ℕ) (m : ℤ → Option ℕ)
    → m fd ≡ none
    → (key : ℤ) → map_put fd none (map_put fd entry m) key ≡ m key
unfolding map_put
map_put_undone fd entry m fresh key = elim (Bool-cases (eqb_ℤ fd key)) [
  | inl same ↦ rw same (sym fresh ∙ ap m (eqb_ℤ→eq fd key same))
  | inr other ↦ rw other refl
]
