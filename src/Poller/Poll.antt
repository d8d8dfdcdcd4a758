-- ===== src/Poller/Poll.antt =====
-- net/Poller.cpp, `poll`, against what poll(2) promises of its answer.
use easy_event.Base.{
  pos-injective, ℕ, suc, ◌≡◌, refl, ap, sym, ◌∙◌, false, Option, some, some-injective, arith, List,
  [], ◌∷◌, get_elem?, ℤ, pos, negsuc, is_negative, ok, lt→ltb, zero, false≢true, ltb, ◌⊎◌, inl, inr,
  if◌then◌else◌,
}
use easy_event.Channel.{any_bit}
use easy_event.Poller.{Poller, PollFd, PollAnswer, fill_active_channels, poll}
use easy_event.Poller.Wiring.{IsWired, real_fd}
use easy_event.Poller.Report.{
  count_ready, ready, Known, SameButRevents, Reported, Apart, fill-ready, fill_active_channels-done,
}

-- The documented answer of poll(2): it changes `revents` alone, and reports nothing for a negative
-- descriptor.
abbrev pub Answers : List PollFd → List PollFd → Type 0
Answers [] [] = Unit {0}
Answers [] (b ∷ bs) = ⊥
Answers (a ∷ as') [] = ⊥
Answers (a ∷ as') (b ∷ bs) =
    (b.fd ≡ a.fd)
    × (b.events ≡ a.events)
    × ((is_negative b.fd ≡ false) ⊎ (any_bit b.revents ≡ false))
    × Answers as' bs

real_fd-nonneg : (x : ℤ) → is_negative x ≡ false → real_fd x ≡ x
real_fd-nonneg (pos n) h = refl
real_fd-nonneg (negsuc n) h = absurd (false≢true (sym h))

-- An entry of the answer is one of the question, with the same descriptor; and the other way round.
pub answered_from :
    (as' bs : List PollFd) (i : ℕ) (b : PollFd)
    → Answers as' bs
    → get_elem? bs i ≡ some b
    → (a : PollFd) × (get_elem? as' i ≡ some a) × (b.fd ≡ a.fd) × (b.events ≡ a.events)
answered_from [] [] i b answers e = absurd (ground arith)
answered_from [] (x ∷ bs) i b answers e = absurd answers
answered_from (y ∷ as') [] i b answers e = absurd answers
answered_from (y ∷ as') (x ∷ bs) zero b answers e =
    let one : b ≡ x = sym (some-injective x b e) in
    (
      y,
      refl,
      ap (λ (z : PollFd). z.fd) one ∙ answers.0,
      ap (λ (z : PollFd). z.events) one ∙ answers.1,
    )
answered_from (y ∷ as') (x ∷ bs) (suc i) b answers e = answered_from as' bs i b answers.3 e

asked_for :
    (as' bs : List PollFd) (i : ℕ) (a : PollFd)
    → Answers as' bs
    → get_elem? as' i ≡ some a
    → (b : PollFd) × (get_elem? bs i ≡ some b) × (b.fd ≡ a.fd)
asked_for [] [] i a answers e = absurd (ground arith)
asked_for [] (x ∷ bs) i a answers e = absurd answers
asked_for (y ∷ as') [] i a answers e = absurd answers
asked_for (y ∷ as') (x ∷ bs) zero a answers e =
    (x, refl, answers.0 ∙ ap (λ (z : PollFd). z.fd) (some-injective y a e))
asked_for (y ∷ as') (x ∷ bs) (suc i) a answers e = asked_for as' bs i a answers.3 e

-- The entries of a wired poller are what `fillActiveChannels` relies on.
answered-Known :
    (s : Poller) (as' bs : List PollFd)
    → Answers as' bs
    → ((i : ℕ) (a : PollFd)
        → get_elem? as' i ≡ some a
        → (p : ℕ) × (s.channel_map (real_fd a.fd) ≡ some p) × ((s.channels p).fd ≡ real_fd a.fd))
    → Known s.channel_map (λ q. (s.channels q).fd) bs
answered-Known s [] [] answers slots = tt
answered-Known s [] (b ∷ bs) answers slots = absurd answers
answered-Known s (a ∷ as') [] answers slots = absurd answers
answered-Known s (a ∷ as') (b ∷ bs) (same_fd, _, quiet, rest) slots = (
  elim quiet [
    | inl nonneg ↦
        let (p, mapped, at) = slots 0 a refl in
        let its : real_fd a.fd ≡ b.fd = ap real_fd (sym same_fd) ∙ real_fd-nonneg b.fd nonneg in
        inr (p, ap s.channel_map (sym its) ∙ mapped, at ∙ its)
    | inr nothing ↦ inl nothing
  ],
  answered-Known s as' bs rest (λ i x e. slots (suc i) x e),
)

module _ (s : Poller) (w : IsWired s) (bs : List PollFd) (answers : Answers s.pollfds bs) where
  filled : Poller
  filled = record s { pollfds = bs }

  filled-IsWired : IsWired filled
  unfolding filled
  filled-IsWired = record {
    entries = λ fd p e.
        let (i, a, at, index, there, stands) = w.entries fd p e in
        let (b, there', same) = asked_for s.pollfds bs i a answers there in
        (i, b, at, index, there', ap real_fd same ∙ stands);
    slots = λ i b e.
        let (a, there, same, _) = answered_from s.pollfds bs i b answers e in
        let (p, mapped, index) = w.slots i a there in
        (p, ap (λ (x : ℤ). s.channel_map (real_fd x)) same ∙ mapped, index);
  }

  -- Entries at different places have different channels, and so different descriptors.
  filled-places :
      (i j : ℕ) (b c : PollFd)
      → get_elem? bs i ≡ some b
      → get_elem? bs j ≡ some c
      → b.fd ≡ c.fd
      → i ≡ j
  unfolding filled
  filled-places i j b c e f same =
      let (p, mapped, index) = filled-IsWired.slots i b e in
      let (q, mapped', index') = filled-IsWired.slots j c f in
      let it : p ≡ q =
        some-injective p q
          (sym mapped ∙ ap (λ (x : ℤ). s.channel_map (real_fd x)) same ∙ mapped') in
      pos-injective (sym index ∙ ap (λ (k : ℕ). (s.channels k).index) it ∙ index')

  one_fd : (x y : ℤ) (q : ℕ) → s.channel_map x ≡ some q → s.channel_map y ≡ some q → x ≡ y
  one_fd x y q e f = sym (w.entries x q e).2 ∙ (w.entries y q f).2

  filled-Known : Known s.channel_map (λ q. (s.channels q).fd) bs
  filled-Known = answered-Known s s.pollfds bs answers λ i a e.
      let (p, mapped, index) = w.slots i a e in (p, mapped, (w.entries (real_fd a.fd) p mapped).2)

places-Apart :
    (bs : List PollFd)
    → ((i j : ℕ) (b c : PollFd)
        → get_elem? bs i ≡ some b
        → get_elem? bs j ≡ some c
        → b.fd ≡ c.fd
        → i ≡ j)
    → Apart bs
places-Apart [] h = tt
places-Apart (b ∷ bs) h = (
  λ i c e is_ready same. absurd (omega (arith, h 0 (suc i) b c refl e same)),
  places-Apart bs (λ i j x y e f same. omega (arith, h (suc i) (suc j) x y e f same)),
)

-- What does not read `revents` does not see the difference.
SameButRevents-IsWired : (s s' : Poller) → SameButRevents s s' → IsWired s → IsWired s'
SameButRevents-IsWired s s' same w = record {
  entries = λ fd p e.
      let (i, a, at, index, there, stands) =
        w.entries fd p (ap (λ (m : ℤ → Option ℕ). m fd) (sym same.channel_map) ∙ e) in
      (
        i,
        a,
        same.fds p ∙ at,
        same.indices p ∙ index,
        ap (λ (ps : List PollFd). get_elem? ps i) same.pollfds ∙ there,
        stands,
      );
  slots = λ i b e.
      let (p, mapped, index) =
        w.slots i b (ap (λ (ps : List PollFd). get_elem? ps i) (sym same.pollfds) ∙ e) in
      (
        p,
        ap (λ (m : ℤ → Option ℕ). m (real_fd b.fd)) same.channel_map ∙ mapped,
        same.indices p ∙ index,
      );
}

-- `poll` calls `fillActiveChannels` only for a positive number, which makes no difference.
fill-guarded :
    (bs : List PollFd) (n : ℕ) (s : Poller)
    → (if ltb 0 n then fill_active_channels bs n s else ok ([], s)) ≡ fill_active_channels bs n s
fill-guarded bs zero s = sym (fill_active_channels-done bs s)
fill-guarded bs (suc n) s = rw (lt→ltb 0 (suc n) (omega arith))

-- `poll` on a wired poller, with an answer of poll(2) as documented: no assertion fails, the active
-- channels are those of the ready entries, each once, in the order of the array, and the poller
-- stays wired; each of these channels is told what happened, the others keep their `revents`, nothing
-- else of the channels changes, and the array is the answered one.
pub poll-ready :
    (sys_poll : List PollFd → PollAnswer) (s : Poller)
    → IsWired s
    → Answers s.pollfds (sys_poll s.pollfds).filled
    → (sys_poll s.pollfds).num_events ≡ pos (count_ready (sys_poll s.pollfds).filled)
    → (s' : Poller) × (poll sys_poll s ≡ ok (ready s.channel_map (sys_poll s.pollfds).filled, s'))
      × SameButRevents (record s { pollfds = (sys_poll s.pollfds).filled }) s'
      × Reported s.channel_map (sys_poll s.pollfds).filled s.channels s'.channels
      × IsWired s'
unfolding poll filled
poll-ready sys_poll s w answers number =
    let bs : List PollFd = (sys_poll s.pollfds).filled in
    let (s', did, same, reports) =
      fill-ready s.channel_map (λ q. (s.channels q).fd) bs (filled s w bs answers)
        (one_fd s w bs answers) refl (λ q. refl) (filled-Known s w bs answers)
        (places-Apart bs (filled-places s w bs answers)) in
    (
      s',
      rw number (fill-guarded bs (count_ready bs) (filled s w bs answers) ∙ did),
      same,
      reports,
      SameButRevents-IsWired (filled s w bs answers) s' same (filled-IsWired s w bs answers),
    )
