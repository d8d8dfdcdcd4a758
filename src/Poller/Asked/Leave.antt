-- ===== src/Poller/Asked/Leave.antt =====
-- net/Poller.cpp: `removeChannel` keeps the array up to date.
use easy_event.Base.{
  ◌==◌, eqb_ℤ, minus_one_minus, ℕ, ◌≡◌, ◌≢◌, refl, sym, ap, ◌∙◌, subst, true, List, [], ◌∷◌, Option,
  none, some, some-injective, ℤ, pos, get_elem?, set, length, ok, ◌>>=◌, ◌⊎◌, inl, inr,
  ok-injective, zero, suc, Ensures, Ensures-bind, Ensures-after, Ensures-assert, Ensures-if,
  Ensures-result, Ensures-fault, bind-ok, get_elem?-take_inside, ◌-◌,
}
use easy_event.Channel.{Channel, is_none_event, without_all}
use easy_event.Poller.{
  is_found, points_to, index_in, same_events, to_index, Poller, PollFd, pollfd_at, drop_entry,
  remove_channel, loop_remove_channel, disable_all, map_put,
}
use easy_event.Poller.Wiring.{IsWired, map_put-cases}
use easy_event.Poller.Frame.{Spares, change_events-Spares, loop_remove_channel-Spares}
use easy_event.Poller.Remove.{disable_all-remove_channel}
use easy_event.Poller.Request.{off-Keeps}
use easy_event.Poller.Asked.{IsAsked}
use easy_event.Poller.Asked.Stay.{change_events-IsAsked}

-- An entry of `ps` after `set` is the new one, or an old one.
set-entries :
    (ps : List PollFd) (i j : ℕ) (v x : PollFd)
    → get_elem? (set ps i v) j ≡ some x
    → (x ≡ v) ⊎ (get_elem? ps j ≡ some x)
set-entries [] i j v x e = inr e
set-entries (y ∷ ps) zero zero v x e = inl (sym (some-injective v x e))
set-entries (y ∷ ps) zero (suc j) v x e = inr e
set-entries (y ∷ ps) (suc i) zero v x e = inr e
set-entries (y ∷ ps) (suc i) (suc j) v x e = set-entries ps i j v x e

-- Every entry of `qs` is one of `ps`.
abbrev ComeFrom : List PollFd → List PollFd → Type 0
ComeFrom ps qs =
    (j : ℕ) (x : PollFd) → get_elem? qs j ≡ some x → (k : ℕ) × (get_elem? ps k ≡ some x)

pollfd_at-entry :
    (ps : List PollFd) (i : ℕ)
    → Ensures (λ (x : PollFd). get_elem? ps i ≡ some x) (pollfd_at ps (pos i))
unfolding pollfd_at
pollfd_at-entry ps i = by_entry (get_elem? ps i) refl
  where
    by_entry :
        (o : Option PollFd)
        → get_elem? ps i ≡ o
        → Ensures (λ (x : PollFd). get_elem? ps i ≡ some x) (pollfd_at ps (pos i))
    by_entry none e = rw (e, pollfd_at) (Ensures-fault _)
    by_entry (some x) e = rw (e, pollfd_at) (Ensures-result x refl)

drop_entry-ComeFrom :
    (i : ℕ) (s : Poller) → Ensures (λ (s' : Poller). ComeFrom s.pollfds s'.pollfds) (drop_entry i s)
unfolding drop_entry
drop_entry-ComeFrom i s =
    Ensures-if _ _ _
      (Ensures-result _
        (λ j x e. (j, (get_elem?-take_inside (length s.pollfds - 1) s.pollfds j x e).1)))
      (Ensures-bind (λ (last : PollFd). get_elem? s.pollfds (length s.pollfds - 1) ≡ some last) _ _
        (pollfd_at-entry s.pollfds (length s.pollfds - 1))
        λ last at_end. Ensures-after _ _ λ q. Ensures-result _ (λ j x e.
          elim (set-entries s.pollfds i j last x
            (get_elem?-take_inside (length s.pollfds - 1) (set s.pollfds i last) j x e).1) [
              | inl moved ↦ (length s.pollfds - 1, at_end ∙ ap some (sym moved))
              | inr old ↦ (j, old)
            ]))

forgetting-ComeFrom :
    (i : ℕ) (m : ℤ → Option ℕ) (s : Poller)
    → Ensures
        (λ (s' : Poller). ComeFrom s.pollfds s'.pollfds)
        (drop_entry i (record s { channel_map = m }))
forgetting-ComeFrom i m s = drop_entry-ComeFrom i (record s { channel_map = m })

remove_channel-ComeFrom :
    (p : ℕ) (s : Poller)
    → Ensures (λ (s' : Poller). ComeFrom s.pollfds s'.pollfds) (remove_channel true p s)
unfolding remove_channel
remove_channel-ComeFrom p s =
    let ch : Channel = s.channels p in
    let m : ℤ → Option ℕ = map_put ch.fd none s.channel_map in
    Ensures-assert (is_found (s.channel_map ch.fd)) _ (
      Ensures-assert (points_to (s.channel_map ch.fd) p) _ (
        Ensures-assert (is_none_event ch) _ (
          Ensures-assert (index_in ch.index s.pollfds) _ (
            Ensures-after (pollfd_at s.pollfds ch.index) _ λ (pfd : PollFd).
              Ensures-assert (eqb_ℤ pfd.fd (minus_one_minus ch.fd)) _ (
                Ensures-assert (same_events pfd.events ch.events) _
                  (forgetting-ComeFrom (to_index ch.index) m s))))))

loop_remove_channel-ComeFrom :
    (p : ℕ) (s : Poller)
    → Ensures (λ (s' : Poller). ComeFrom s.pollfds s'.pollfds) (loop_remove_channel true p s)
unfolding loop_remove_channel
loop_remove_channel-ComeFrom p s =
    Ensures-assert ((s.channels p).loop_ptr == s.owner_loop) _ (remove_channel-ComeFrom p s)

-- A channel that leaves.
pub leave-IsAsked :
    (p n : ℕ) (s s' : Poller)
    → IsWired s
    → IsAsked s
    → s.channel_map (pos n) ≡ some p
    → (s.channels p).loop_ptr ≡ s.owner_loop
    → (disable_all true p s >>= loop_remove_channel true p) ≡ ok s'
    → IsWired s' × IsAsked s'
unfolding disable_all
leave-IsAsked p n s s' w asked known mine e =
    let (t, off, gone) = bind-ok (disable_all true p s) (loop_remove_channel true p) s' e in
    let (wired_t, asked_t) =
      change_events-IsAsked without_all off-Keeps p n s t w asked known mine off in
    let spared : Spares p t s' = (loop_remove_channel-Spares true p t).gives s' gone in
    let (end, did, (wired, _, forgets)) = disable_all-remove_channel p n s w known mine in
    let same : end ≡ s' = ok-injective end s' (sym did ∙ e) in
    (
      subst IsWired same wired,
      λ fd q j x held got stands.
          let kept : map_put (pos n) none s.channel_map fd ≡ some q =
            ap (λ (m : ℤ → Option ℕ). m fd) (sym forgets ∙ ap (λ (u : Poller). u.channel_map) same)
            ∙ held in
          elim (map_put-cases (pos n) none s.channel_map fd q kept) [
            | inl (_, never) ↦ absurd (cc)
            | inr (other, was) ↦
                let (_, _, fd_p, _, _, _) = w.entries (pos n) p known in
                let (_, _, fd_q, _, _, _) = w.entries fd q was in
                let apart : p ≢ q =
                  λ one. other (sym fd_p ∙ ap (λ (m : ℕ). (s.channels m).fd) one ∙ fd_q) in
                let (k, from) = (loop_remove_channel-ComeFrom p t).gives s' gone j x got in
                let in_t : t.channel_map fd ≡ some q =
                  ((change_events-Spares without_all (λ c. refl) true p s).gives t off).elsewhere fd
                    (λ h. other (sym fd_p ∙ h))
                  ∙ was in
                asked_t fd q k x in_t from stands ∙ sym (spared.events q apart)
          ],
    )
