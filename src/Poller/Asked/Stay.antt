-- ===== src/Poller/Asked/Stay.antt =====
-- net/Poller.cpp: changing what a channel waits for, a new channel, and polling keep the array up to date.
use easy_event.Base.{
  ℕ, ◌≡◌, ◌≢◌, refl, sym, ap, ◌∙◌, subst, true, List, Option, none, some, some-injective, ℤ, pos,
  get_elem?, length, ok, ◌⊎◌, inl, inr, ok-injective, arith, get_elem?-set_other,
  get_elem?_last_cases, ℕ_discrete, pos-injective,
}
use easy_event.Channel.{Channel, with_reading, new_channel}
use easy_event.Poller.{Poller, PollFd, PollAnswer, change_events, enable_reading, poll}
use easy_event.Poller.Wiring.{IsWired, real_fd, map_put-cases, channel_put_other}
use easy_event.Poller.Frame.{Spares, change_events-Spares}
use easy_event.Poller.Join.{with_object, enable_reading-joins, joined_entry}
use easy_event.Poller.Renew.{entry_of, renewed}
use easy_event.Poller.Request.{Keeps, changed, changed_here, change_events-ok}
use easy_event.Poller.Poll.{Answers, answered_from, poll-ready}
use easy_event.Poller.Report.{count_ready}
use easy_event.Poller.Asked.{IsAsked}

-- Two channels with one index are one channel.
same_index :
    (s : Poller) (fd fd' : ℤ) (p q i : ℕ)
    → IsWired s
    → s.channel_map fd ≡ some p
    → s.channel_map fd' ≡ some q
    → (s.channels p).index ≡ pos i
    → (s.channels q).index ≡ pos i
    → p ≡ q
same_index s fd fd' p q i w e f at at' =
    let (j, x, _, b, c, d) = w.entries fd p e in
    let (k, y, _, b', c', d') = w.entries fd' q f in
    let same : j ≡ k = pos-injective (sym b ∙ at ∙ sym at' ∙ b') in
    let one : x ≡ y = some-injective x y (sym c ∙ ap (get_elem? s.pollfds) same ∙ c') in
    some-injective p q
      (sym e ∙ ap s.channel_map (sym d ∙ ap (λ (z : PollFd). real_fd z.fd) one ∙ d') ∙ f)

-- A request of a channel that the poller knows.
pub change_events-IsAsked :
    (change : Channel → Channel)
    → Keeps change
    → (p n : ℕ) (s s' : Poller) → IsWired s
    → IsAsked s
    → s.channel_map (pos n) ≡ some p
    → (s.channels p).loop_ptr ≡ s.owner_loop
    → change_events change true p s ≡ ok s'
    → IsWired s' × IsAsked s'
unfolding changed
change_events-IsAsked change k p n s s' w asked known mine e =
    let (i, pfd, at, was, did, wired, there) = change_events-ok change k p s n w known mine in
    let end : Poller = renewed p i pfd (changed change p s) in
    let here : end.channels p ≡ change (s.channels p) = changed_here change k p s in
    let at_end : (end.channels p).index ≡ pos i =
      ap (λ (c : Channel). c.index) here ∙ k.index (s.channels p) ∙ at in
    subst (λ t. IsWired t × IsAsked t) (ok-injective end s' (sym did ∙ e))
      (
        wired,
        λ fd q j x held got stands.
            let (r, held', at') = wired.slots j x got in
            let its : r ≡ q = some-injective r q (sym held' ∙ ap s.channel_map stands ∙ held) in
            let index_q : (end.channels q).index ≡ pos j =
              ap (λ (m : ℕ). (end.channels m).index) (sym its) ∙ at' in
            elim (ℕ_discrete i j) [
              | yes same ↦
                  let one : p ≡ q =
                    same_index end (pos n) fd p q i wired known held at_end
                      (index_q ∙ ap pos (sym same)) in
                  let new : x ≡ entry_of (change (s.channels p)) pfd.fd =
                    some-injective x (entry_of (change (s.channels p)) pfd.fd)
                      (sym got ∙ ap (get_elem? end.pollfds) (sym same) ∙ there) in
                  ap (λ (y : PollFd). y.events) new
                  ∙ ap (λ (c : Channel). c.events) (sym here)
                  ∙ ap (λ (m : ℕ). (end.channels m).events) one
              | no other ↦
                  let apart : p ≢ q = λ same. other (
                    pos-injective
                      (sym at_end ∙ ap (λ (m : ℕ). (end.channels m).index) same ∙ index_q)) in
                  asked fd q j x held
                    (sym
                        (get_elem?-set_other s.pollfds i j (entry_of (end.channels p) pfd.fd) other)
                      ∙ got)
                    stands
                  ∙ ap (λ (c : Channel). c.events)
                      (sym (channel_put_other p (change (s.channels p)) s.channels q apart))
            ],
      )

-- `enableReading` of a new channel.
pub enable_reading-IsAsked :
    (p n : ℕ) (s s' : Poller)
    → IsWired s
    → IsAsked s
    → ((fd : ℤ) → s.channel_map fd ≢ some p)
    → s.channel_map (pos n) ≡ none
    → enable_reading true p (with_object p (new_channel s.owner_loop (pos n)) s) ≡ ok s'
    → IsWired s' × IsAsked s'
unfolding enable_reading
enable_reading-IsAsked p n s s' w asked unused fresh e =
    let (end, did, wired, _, _, reads, array, mapped) = enable_reading-joins p n s w unused fresh in
    let start : Poller = with_object p (new_channel s.owner_loop (pos n)) s in
    let spared : Spares p start end =
      (change_events-Spares with_reading (λ c. refl) true p start).gives end did in
    let its_events : (q : ℕ) → p ≢ q → (end.channels q).events ≡ (s.channels q).events = λ q apart.
      spared.events q apart
      ∙ ap (λ (c : Channel). c.events)
          (channel_put_other p (new_channel s.owner_loop (pos n)) s.channels q apart) in
    subst (λ t. IsWired t × IsAsked t) (ok-injective end s' (sym did ∙ e))
      (
        wired,
        λ fd q j x held got stands.
            let place : (get_elem? s.pollfds j ≡ some x)
                ⊎ ((j ≡ length s.pollfds) × (x ≡ joined_entry n)) =
              get_elem?_last_cases s.pollfds (joined_entry n) j x
                (ap (λ (ps : List PollFd). get_elem? ps j) (sym array) ∙ got) in
            let before : (pos n ≡ fd) × (some p ≡ some q)
                ⊎ (pos n ≢ fd) × (s.channel_map fd ≡ some q) =
              map_put-cases (pos n) (some p) s.channel_map fd q
                (ap (λ (m : ℤ → Option ℕ). m fd) (sym mapped) ∙ held) in
            elim place [
              | inl old ↦ elim before [
                | inl (same, _) ↦
                    let (r, known, _) = w.slots j x old in
                    absurd (ground (arith, known, ap s.channel_map (stands ∙ sym same), fresh))
                | inr (_, was) ↦
                    asked fd q j x was old stands
                    ∙ sym (its_events q (λ same. unused fd (was ∙ ap some (sym same))))
              ]
              | inr (_, new) ↦ elim before [
                | inl (_, one) ↦
                    ap (λ (y : PollFd). y.events) new
                    ∙ sym reads
                    ∙ ap (λ (m : ℕ). (end.channels m).events) (some-injective p q one)
                | inr (other, _) ↦
                    absurd (other (ap (λ (y : PollFd). real_fd y.fd) (sym new) ∙ stands))
              ]
            ],
      )

-- The loop polls.
pub poll-IsAsked :
    (sys_poll : List PollFd → PollAnswer) (active : List ℕ) (s s' : Poller)
    → IsWired s
    → IsAsked s
    → Answers s.pollfds (sys_poll s.pollfds).filled
    → (sys_poll s.pollfds).num_events ≡ pos (count_ready (sys_poll s.pollfds).filled)
    → poll sys_poll s ≡ ok (active, s')
    → IsWired s' × IsAsked s'
poll-IsAsked sys_poll active s s' w asked answers number e =
    let (end, did, same, _, wired) = poll-ready sys_poll s w answers number in
    subst (λ t. IsWired t × IsAsked t)
      (ap (λ (r : List ℕ × Poller). r.1) (ok-injective _ (active, s') (sym did ∙ e)))
      (
        wired,
        λ fd q j x held got stands.
            let (a, was, fd_a, events_a) =
              answered_from s.pollfds (sys_poll s.pollfds).filled j x answers
                (ap (λ (ps : List PollFd). get_elem? ps j) (sym same.pollfds) ∙ got) in
            events_a
            ∙ asked fd q j a (ap (λ (m : ℤ → Option ℕ). m fd) (sym same.channel_map) ∙ held) was
                (ap real_fd (sym fd_a) ∙ stands)
            ∙ sym (same.events q),
      )
