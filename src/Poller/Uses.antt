-- ===== src/Poller/Uses.antt =====
-- net/Poller.cpp: a request that the poller's assertions let through leaves it wired.
use easy_event.Base.{
  ℕ, ◌≡◌, ◌≢◌, refl, ap, ◌∙◌, Bool, true, false, Option, none, some, pos, ℕ_discrete, fault,
  assertion, Result, Bool-cases, inl, inr, ◌==◌, eqb_ℤ, minus_one_minus, is_negative, ne→==_false,
  Ensures, Ensures-assert, Ensures-after, Ensures-result, Ensures-fault,
}
use easy_event.Channel.{Channel, is_none_event}
use easy_event.Poller.{
  Poller, PollFd, is_found, points_to, index_in, same_events, to_index, pollfd_at, map_put,
  add_channel, renew_channel, update_channel, drop_entry, remove_channel, loop_update_channel,
  loop_remove_channel, change_events,
}
use easy_event.Poller.Add.{added, added-IsWired, update_channel-added}
use easy_event.Poller.Frame.{
  Spares, Spares-trans, Spares-refl, change_events-Spares, loop_remove_channel-Spares,
}
use easy_event.Poller.Renew.{renewed, update_channel-renews}
use easy_event.Poller.Request.{Keeps, changed, changed-IsWired, changed_keeps}
use easy_event.Poller.Swap.{drop_entry-Dropped}
use easy_event.Poller.Wiring.{IsWired}

module _ (p n : ℕ) (s : Poller) (w : IsWired s) (numbered : (s.channels p).fd ≡ pos n) where
  -- The poller does not know the channel, or knows another one under its descriptor.
  refused_new :
      (q : ℕ)
      → s.channel_map (pos n) ≡ some q
      → is_negative (s.channels p).index ≡ true
      → update_channel true p s ≡ fault assertion
  unfolding update_channel add_channel
  refused_new q known neg = rw (neg, numbered, known)

  refused_none :
      s.channel_map (pos n) ≡ none
      → is_negative (s.channels p).index ≡ false
      → update_channel true p s ≡ fault assertion
  unfolding update_channel renew_channel
  refused_none known neg = rw (neg, numbered, known)

  refused_other :
      (q : ℕ)
      → q ≢ p
      → s.channel_map (pos n) ≡ some q
      → is_negative (s.channels p).index ≡ false
      → update_channel true p s ≡ fault assertion
  unfolding update_channel renew_channel
  refused_other q other known neg = rw (neg, numbered, known, ne→==_false q p other)

  refused : {P : Poller → Type 0} {m : Result Poller} → m ≡ fault assertion → Ensures P m
  refused e = rw e (Ensures-fault assertion)

  update_channel-wires : (in_loop : Bool) → Ensures IsWired (update_channel in_loop p s)
  unfolding update_channel
  update_channel-wires false = Ensures-fault assertion
  update_channel-wires true = by_entry (s.channel_map (pos n)) refl
    where
      by_entry :
          (o : Option ℕ) → s.channel_map (pos n) ≡ o → Ensures IsWired (update_channel true p s)
      by_entry none fresh = elim (Bool-cases (is_negative (s.channels p).index)) [
        | inl neg ↦ rw (update_channel-added p n s neg numbered fresh) (
            Ensures-result (added p s)
              (added-IsWired p s w n numbered (ap s.channel_map numbered ∙ fresh)))
        | inr placed ↦ refused (refused_none fresh placed)
      ]
      by_entry (some q) known = elim (ℕ_discrete q p) [
        | yes same ↦
            let (i, pfd, _, _, did, wired, _) =
              update_channel-renews p n s w (known ∙ ap some same) in
            rw did (Ensures-result (renewed p i pfd s) wired)
        | no other ↦ elim (Bool-cases (is_negative (s.channels p).index)) [
          | inl neg ↦ refused (refused_new q known neg)
          | inr placed ↦ refused (refused_other q other known placed)
        ]
      ]

  refused_removal : s.channel_map (pos n) ≡ none → remove_channel true p s ≡ fault assertion
  unfolding remove_channel
  refused_removal known = rw (numbered, known)

  refused_other_removal :
      (q : ℕ) → q ≢ p → s.channel_map (pos n) ≡ some q → remove_channel true p s ≡ fault assertion
  unfolding remove_channel
  refused_other_removal q other known = rw (numbered, known, ne→==_false q p other)

  -- The end of `removeChannel`, which the last of its assertions lets through.
  drops :
      s.channel_map (pos n) ≡ some p
      → Ensures IsWired (
          drop_entry
            (to_index (s.channels p).index)
            (record s { channel_map = map_put (s.channels p).fd none s.channel_map }))
  drops known =
      let (i, pfd, _, indexed, there, stands) = w.entries (pos n) p known in
      let (s', did, (wired, _, _)) = drop_entry-Dropped p n i pfd s w known indexed there stands in
      rw (numbered, indexed, did) (Ensures-result s' wired)

  remove_channel-wires : (in_loop : Bool) → Ensures IsWired (remove_channel in_loop p s)
  unfolding remove_channel
  remove_channel-wires false = Ensures-fault assertion
  remove_channel-wires true = by_entry (s.channel_map (pos n)) refl
    where
      chain : s.channel_map (pos n) ≡ some p → Ensures IsWired (remove_channel true p s)
      chain known =
          let ch : Channel = s.channels p in
          Ensures-assert (is_found (s.channel_map ch.fd)) _ (
            Ensures-assert (points_to (s.channel_map ch.fd) p) _ (
              Ensures-assert (is_none_event ch) _ (
                Ensures-assert (index_in ch.index s.pollfds) _ (
                  Ensures-after (pollfd_at s.pollfds ch.index) _ λ (pfd : PollFd).
                    Ensures-assert (eqb_ℤ pfd.fd (minus_one_minus ch.fd)) _
                      (Ensures-assert (same_events pfd.events ch.events) _ (drops known))))))

      by_entry :
          (o : Option ℕ) → s.channel_map (pos n) ≡ o → Ensures IsWired (remove_channel true p s)
      by_entry none known = refused (refused_removal known)
      by_entry (some q) known = elim (ℕ_discrete q p) [
        | yes same ↦ chain (known ∙ ap some same)
        | no other ↦ refused (refused_other_removal q other known)
      ]

-- Channel `p` has used the poller: it has changed what is its own, and if it has a descriptor and the
-- poller was wired, then the poller is wired.
pub record Uses (p : ℕ) (s s' : Poller) : Type 0 where
  pub spares : Spares p s s'
  pub wires : (n : ℕ) → (s.channels p).fd ≡ pos n → IsWired s → IsWired s'

pub Uses-refl : (p : ℕ) (s : Poller) → Uses p s s
Uses-refl p s = record { spares = Spares-refl p s; wires = λ n h w. w }

pub Uses-trans : (p : ℕ) (s t u : Poller) → Uses p s t → Uses p t u → Uses p s u
Uses-trans p s t u a b = record {
  spares = Spares-trans p s t u a.spares b.spares;
  wires = λ n h w. b.wires n (a.spares.own_fd ∙ h) (a.wires n h w);
}

uses :
    (p : ℕ) (s : Poller) (m : Result Poller)
    → Ensures (Spares p s) m
    → ((n : ℕ) → (s.channels p).fd ≡ pos n → IsWired s → Ensures IsWired m)
    → Ensures (Uses p s) m
uses p s m spares wires = record {
  gives = λ s' e. record { spares = spares.gives s' e; wires = λ n h w. (wires n h w).gives s' e };
}

pub loop_remove_channel-Uses :
    (in_loop : Bool) (p : ℕ) (s : Poller) → Ensures (Uses p s) (loop_remove_channel in_loop p s)
unfolding loop_remove_channel
loop_remove_channel-Uses in_loop p s =
    uses p s _ (loop_remove_channel-Spares in_loop p s) λ n numbered w.
      Ensures-assert ((s.channels p).loop_ptr == s.owner_loop) _
        (Ensures-assert in_loop _ (remove_channel-wires p n s w numbered in_loop))

pub change_events-Uses :
    (change : Channel → Channel)
    → Keeps change
    → (in_loop : Bool) (p : ℕ) (s : Poller) → Ensures (Uses p s) (change_events change in_loop p s)
unfolding change_events loop_update_channel changed
change_events-Uses change k in_loop p s =
    let s₁ : Poller = changed change p s in
    uses p s _ (change_events-Spares change k.fd in_loop p s) λ n numbered w.
      Ensures-assert ((s₁.channels p).loop_ptr == s.owner_loop) _ (
        Ensures-assert in_loop _ (
          update_channel-wires p n s₁ (changed-IsWired change k p s w)
            (changed_keeps change k p s (λ (c : Channel). c.fd) k.fd p ∙ numbered) in_loop))
