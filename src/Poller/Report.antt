-- ===== src/Poller/Report.antt =====
-- net/Poller.cpp, `fillActiveChannels`: which channels are active, and what they are told.
use easy_event.Base.{
  ◌≢◌, ℕ, suc, ◌-◌, ◌≡◌, refl, ap, sym, ◌∙◌, true, false, Option, none, some, some-injective, arith,
  List, [], ◌∷◌, get_elem?, ℤ, eqb_ℤ-refl, ok, ◌>>=◌, Bool-cases, lt→ltb, zero, false≢true, ◌⊎◌,
  inl, inr, if◌then◌else◌,
}
use easy_event.Channel.{Channel, Events, any_bit, set_revents}
use easy_event.Poller.{Poller, PollFd, fill_active_channels}
use easy_event.Poller.Request.{Keeps, changed, changed_keeps}
use easy_event.Poller.Wiring.{channel_put_self, channel_put_other}

-- The number that poll(2) returns: the entries for which something happened.
abbrev pub count_ready : List PollFd → ℕ
count_ready [] = 0
count_ready (b ∷ bs) = if any_bit b.revents then suc (count_ready bs) else count_ready bs

abbrev pub prepend : Option ℕ → List ℕ → List ℕ
prepend none ps = ps
prepend (some p) ps = p ∷ ps

-- The channels of those entries, in the order of the array.
abbrev pub ready : (ℤ → Option ℕ) → List PollFd → List ℕ
ready m [] = []
ready m (b ∷ bs) = if any_bit b.revents then prepend (m b.fd) (ready m bs) else ready m bs

-- What `fillActiveChannels` relies on for each ready entry: the map `m` knows a channel, whose
-- descriptor, given by `f`, is the entry's.
abbrev pub Known : (ℤ → Option ℕ) → (ℕ → ℤ) → List PollFd → Type 0
Known m f [] = Unit {0}
Known m f (b ∷ bs) =
    ((any_bit b.revents ≡ false) ⊎ ((p : ℕ) × (m b.fd ≡ some p) × (f p ≡ b.fd))) × Known m f bs

-- Two pollers that differ in what happened on their channels alone.
pub record SameButRevents (s s' : Poller) : Type 0 where
  pub owner_loop : s'.owner_loop ≡ s.owner_loop
  pub pollfds : s'.pollfds ≡ s.pollfds
  pub channel_map : s'.channel_map ≡ s.channel_map
  pub fds : (q : ℕ) → (s'.channels q).fd ≡ (s.channels q).fd
  pub indices : (q : ℕ) → (s'.channels q).index ≡ (s.channels q).index
  pub events : (q : ℕ) → (s'.channels q).events ≡ (s.channels q).events
  pub loop_ptrs : (q : ℕ) → (s'.channels q).loop_ptr ≡ (s.channels q).loop_ptr

-- What happened is told to the channels of the ready entries `bs`, and to no other.
pub record Reported (m : ℤ → Option ℕ) (bs : List PollFd) (before after : ℕ → Channel)
    : Type 0 where
  pub told :
      (i q : ℕ) (b : PollFd)
      → get_elem? bs i ≡ some b
      → any_bit b.revents ≡ true
      → m b.fd ≡ some q
      → (after q).revents ≡ b.revents
  pub kept :
      (q : ℕ)
      → ((i : ℕ) (b : PollFd)
          → get_elem? bs i ≡ some b
          → any_bit b.revents ≡ true
          → m b.fd ≢ some q)
      → (after q).revents ≡ (before q).revents

-- No two ready entries have the same descriptor.
abbrev pub Apart : List PollFd → Type 0
Apart [] = Unit {0}
Apart (b ∷ bs) =
    ((i : ℕ) (c : PollFd) → get_elem? bs i ≡ some c → any_bit c.revents ≡ true → b.fd ≢ c.fd)
    × Apart bs

revents-Keeps : (revt : Events) → Keeps (set_revents revt)
revents-Keeps revt = record { fd = λ c. refl; index = λ c. refl; loop_ptr = λ c. refl }

marked : (p : ℕ) (revt : Events) (s : Poller) → SameButRevents s (changed (set_revents revt) p s)
unfolding changed
marked p revt s = record {
  owner_loop = refl;
  pollfds = refl;
  channel_map = refl;
  fds =
      changed_keeps (set_revents revt) (revents-Keeps revt) p s (λ (c : Channel). c.fd) (λ c. refl);
  indices =
      changed_keeps (set_revents revt) (revents-Keeps revt) p s (λ (c : Channel). c.index)
        (λ c. refl);
  events =
      changed_keeps (set_revents revt) (revents-Keeps revt) p s (λ (c : Channel). c.events)
        (λ c. refl);
  loop_ptrs =
      changed_keeps (set_revents revt) (revents-Keeps revt) p s (λ (c : Channel). c.loop_ptr)
        (λ c. refl);
}

SameButRevents-refl : (s : Poller) → SameButRevents s s
SameButRevents-refl s = record {
  owner_loop = refl;
  pollfds = refl;
  channel_map = refl;
  fds = λ q. refl;
  indices = λ q. refl;
  events = λ q. refl;
  loop_ptrs = λ q. refl;
}

SameButRevents-trans :
    {s t u : Poller} → SameButRevents s t → SameButRevents t u → SameButRevents s u
SameButRevents-trans a b = record {
  owner_loop = b.owner_loop ∙ a.owner_loop;
  pollfds = b.pollfds ∙ a.pollfds;
  channel_map = b.channel_map ∙ a.channel_map;
  fds = λ q. b.fds q ∙ a.fds q;
  indices = λ q. b.indices q ∙ a.indices q;
  events = λ q. b.events q ∙ a.events q;
  loop_ptrs = λ q. b.loop_ptrs q ∙ a.loop_ptrs q;
}

-- One entry, ready or not.
fill_active_channels-ready :
    (b : PollFd) (bs : List PollFd) (n p : ℕ) (s : Poller)
    → any_bit b.revents ≡ true
    → s.channel_map b.fd ≡ some p
    → (s.channels p).fd ≡ b.fd
    → fill_active_channels (b ∷ bs) (suc n) s
      ≡ (fill_active_channels bs n (changed (set_revents b.revents) p s) >>= λ r. ok (p ∷ r.0, r.1))
unfolding fill_active_channels changed
fill_active_channels-ready b bs n p s is_ready mapped at =
    let less : suc n - 1 ≡ n = omega arith in
    rw (lt→ltb 0 (suc n) (omega arith), is_ready, mapped, at, eqb_ℤ-refl b.fd, less)

pub fill_active_channels-done :
    (bs : List PollFd) (s : Poller) → fill_active_channels bs 0 s ≡ ok ([], s)
unfolding fill_active_channels
fill_active_channels-done [] s = refl
fill_active_channels-done (b ∷ bs) s = refl

fill_active_channels-skips :
    (b : PollFd) (bs : List PollFd) (n : ℕ) (s : Poller)
    → any_bit b.revents ≡ false
    → fill_active_channels (b ∷ bs) n s ≡ fill_active_channels bs n s
unfolding fill_active_channels
fill_active_channels-skips b bs zero s not_ready = sym (fill_active_channels-done bs s)
fill_active_channels-skips b bs (suc n) s not_ready = rw (lt→ltb 0 (suc n) (omega arith), not_ready)

Reported-nil : (m : ℤ → Option ℕ) (f : ℕ → Channel) → Reported m [] f f
Reported-nil m f = record { told = λ i q b e. absurd (ground arith); kept = λ q h. refl }

Reported-skips :
    (m : ℤ → Option ℕ) (b : PollFd) (bs : List PollFd) (f g : ℕ → Channel)
    → any_bit b.revents ≡ false
    → Reported m bs f g
    → Reported m (b ∷ bs) f g
Reported-skips m b bs f g not_ready r = record {
  told = told;
  kept = λ q h. r.kept q (λ i c e. h (suc i) c e);
}
  where
    told :
        (i q : ℕ) (c : PollFd)
        → get_elem? (b ∷ bs) i ≡ some c
        → any_bit c.revents ≡ true
        → m c.fd ≡ some q
        → (g q).revents ≡ c.revents
    told zero q c e is_ready mapped = absurd (
        false≢true (
          sym not_ready ∙ ap (λ (x : PollFd). any_bit x.revents) (some-injective b c e) ∙ is_ready))
    told (suc i) q c e is_ready mapped = r.told i q c e is_ready mapped

-- A ready entry in front: its channel is told, and no later entry is for the same channel.
Reported-ready :
    (m : ℤ → Option ℕ) (b : PollFd) (bs : List PollFd) (p : ℕ) (s : Poller) (g : ℕ → Channel)
    → ((x y : ℤ) (q : ℕ) → m x ≡ some q → m y ≡ some q → x ≡ y)
    → any_bit b.revents ≡ true
    → m b.fd ≡ some p
    → Apart (b ∷ bs)
    → Reported m bs (changed (set_revents b.revents) p s).channels g
    → Reported m (b ∷ bs) s.channels g
unfolding changed
Reported-ready m b bs p s g one_fd is_ready mapped apart r = record { told = told; kept = kept }
  where
    told :
        (i q : ℕ) (c : PollFd)
        → get_elem? (b ∷ bs) i ≡ some c
        → any_bit c.revents ≡ true
        → m c.fd ≡ some q
        → (g q).revents ≡ c.revents
    told zero q c e ready_too its =
        let same : b ≡ c = some-injective b c e in
        let here : p ≡ q =
          some-injective p q (sym mapped ∙ ap (λ (x : PollFd). m x.fd) same ∙ its) in
        ap (λ k. (g k).revents) (sym here)
        ∙ r.kept p (λ i x f x_ready x_its. apart.0 i x f x_ready (one_fd b.fd x.fd p mapped x_its))
        ∙ ap (λ (ch : Channel). ch.revents)
            (channel_put_self p (set_revents b.revents (s.channels p)) s.channels)
        ∙ ap (λ (x : PollFd). x.revents) same
    told (suc i) q c e ready_too its = r.told i q c e ready_too its

    kept :
        (q : ℕ)
        → ((i : ℕ) (c : PollFd)
            → get_elem? (b ∷ bs) i ≡ some c
            → any_bit c.revents ≡ true
            → m c.fd ≢ some q)
        → (g q).revents ≡ (s.channels q).revents
    kept q h =
        r.kept q (λ i c e. h (suc i) c e)
        ∙ ap (λ (ch : Channel). ch.revents)
            (channel_put_other p (set_revents b.revents (s.channels p)) s.channels q
              (λ same. h 0 b refl is_ready (mapped ∙ ap some same)))

pub fill-ready :
    (m : ℤ → Option ℕ) (f : ℕ → ℤ) (bs : List PollFd) (s : Poller)
    → ((x y : ℤ) (q : ℕ) → m x ≡ some q → m y ≡ some q → x ≡ y)
    → s.channel_map ≡ m
    → ((q : ℕ) → (s.channels q).fd ≡ f q)
    → Known m f bs
    → Apart bs
    → (s' : Poller) × (fill_active_channels bs (count_ready bs) s ≡ ok (ready m bs, s'))
      × SameButRevents s s'
      × Reported m bs s.channels s'.channels
fill-ready m f [] s one_fd e h k a =
    (s, fill_active_channels-done [] s, SameButRevents-refl s, Reported-nil m s.channels)
fill-ready m f (b ∷ bs) s one_fd e h (found_it, k) a = elim (Bool-cases (any_bit b.revents)) [
  | inl is_ready ↦ elim found_it [
    | inl not_ready ↦ absurd (false≢true (sym not_ready ∙ is_ready))
    | inr (p, mapped, at) ↦
        let (s', did, same, reports) =
          fill-ready m f bs (changed (set_revents b.revents) p s) one_fd
            ((marked p b.revents s).channel_map ∙ e) (λ q. (marked p b.revents s).fds q ∙ h q) k
            a.1 in
        (
          s',
          rw (
            is_ready,
            mapped,
            fill_active_channels-ready b bs (count_ready bs) p s is_ready
                (ap (λ (g : ℤ → Option ℕ). g b.fd) e ∙ mapped) (h p ∙ at),
            did,
          ),
          SameButRevents-trans (marked p b.revents s) same,
          Reported-ready m b bs p s s'.channels one_fd is_ready mapped a reports,
        )
  ]
  | inr not_ready ↦
      let (s', did, same, reports) = fill-ready m f bs s one_fd e h k a.1 in
      (
        s',
        rw not_ready (fill_active_channels-skips b bs (count_ready bs) s not_ready ∙ did),
        same,
        Reported-skips m b bs s.channels s'.channels not_ready reports,
      )
]
