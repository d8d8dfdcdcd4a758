-- ===== src/EventLoopThread/Handshake.antt =====
-- net/EventLoopThread.cpp: what `startLoop` waits for, that it does not wait in vain, and what the
-- destructor waits for.
use easy_event.Base.{
  not, ok, fault, assertion, assert, bind-ok, ok-injective, false, ℕ, ◌≡◌, ◌≢◌, ◌⊎◌, inl, inr, refl,
  sym, ap, ◌∙◌, subst, true, Option, none, some, false≢true, arith,
}
use easy_event.Thread
use easy_event.Thread.{new_thread}
use easy_event.EventLoopThread.{
  EventLoopThread, Caller, before, waiting, returned, joining, destroyed, Worker, absent, created,
  made, looping, gone, new_event_loop_thread, is_set, Step, start_thread, make_loop, publish,
  end_loop, end_wait, begin_join, end_join, Reach, here, next,
}

-- What the place of the new thread says of `_loop`.
abbrev Shown : Worker → Option ℕ → ℕ → Type 0
Shown absent loop address = loop ≡ none
Shown created loop address = loop ≡ none
Shown made loop address = loop ≡ none
Shown looping loop address = loop ≡ some address
Shown gone loop address = loop ≡ some address

-- What the place of the caller says of the new thread, and of what it has returned.
abbrev Matches : Caller → Worker → ℕ → Type 0
Matches before worker address = worker ≡ absent
Matches waiting worker address = worker ≢ absent
Matches (returned p) worker address = (p ≡ some address) × ((worker ≡ looping) ⊎ (worker ≡ gone))
Matches joining worker address = (worker ≡ looping) ⊎ (worker ≡ gone)
Matches destroyed worker address = worker ≡ gone

-- What the place of the caller says of the thread's flags.
abbrev Flags : Caller → Thread.Thread → Type 0
Flags before t = t.started ≡ false
Flags waiting t = (t.started ≡ true) × (t.joinable ≡ true)
Flags (returned p) t = (t.started ≡ true) × (t.joinable ≡ true)
Flags joining t = (t.started ≡ true) × (t.joinable ≡ true)
Flags destroyed t = Unit {0}

record IsOrdered (s : EventLoopThread) : Type 0 where
  shown : Shown s.worker s.loop s.address
  matches : Matches s.caller s.worker s.address
  flags : Flags s.caller s.thread

Shown-set :
    (w : Worker) (loop : Option ℕ) (address : ℕ)
    → Shown w loop address
    → is_set loop ≡ true
    → (loop ≡ some address) × ((w ≡ looping) ⊎ (w ≡ gone))
Shown-set absent loop address h set = absurd (false≢true (sym (ap is_set h) ∙ set))
Shown-set created loop address h set = absurd (false≢true (sym (ap is_set h) ∙ set))
Shown-set made loop address h set = absurd (false≢true (sym (ap is_set h) ∙ set))
Shown-set looping loop address h set = (h, inl refl)
Shown-set gone loop address h set = (h, inr refl)

-- A step of the new thread, from `v` to `w`, seen by the caller.
Matches-step :
    (c : Caller) (v w : Worker) (address : ℕ)
    → v ≢ absent
    → w ≢ absent
    → ((v ≡ looping) ⊎ (v ≡ gone) → (w ≡ looping) ⊎ (w ≡ gone))
    → v ≢ gone
    → Matches c v address
    → Matches c w address
Matches-step before v w address there there' on left h = absurd (there h)
Matches-step waiting v w address there there' on left h = there'
Matches-step (returned p) v w address there there' on left h = (h.0, on h.1)
Matches-step joining v w address there there' on left h = on h
Matches-step destroyed v w address there there' on left h = absurd (left h)

-- The flags after `start`, and before `join`.
start-flags :
    (t t' : Thread.Thread) → Thread.start t ≡ ok t' → (t'.started ≡ true) × (t'.joinable ≡ true)
unfolding Thread.start
start-flags t t' did =
    let (_, _, e) =
      bind-ok (assert (not t.started)) (λ _. ok (record t { started = true; joinable = true })) t'
        did in
    let same : record t { started = true; joinable = true } ≡ t' = ok-injective _ t' e in
    (
      sym (ap (λ (x : Thread.Thread). x.started) same),
      sym (ap (λ (x : Thread.Thread). x.joinable) same),
    )

join-ok :
    (t : Thread.Thread)
    → t.started ≡ true
    → t.joinable ≡ true
    → Thread.join t ≡ ok (record t { joined = true; joinable = false })
unfolding Thread.join
join-ok t started joinable = rw (started, joinable)

join_unstarted : (t : Thread.Thread) → t.started ≡ false → Thread.join t ≡ fault assertion
unfolding Thread.join
join_unstarted t unstarted = rw unstarted

Step-IsOrdered : (s t : EventLoopThread) → Step s t → IsOrdered s → IsOrdered t
Step-IsOrdered s _ (start_thread _ t at did) h = record {
  shown = subst (λ w. Shown w s.loop s.address) (rw at at h.matches) h.shown;
  matches = λ e. cc;
  flags = start-flags s.thread t did;
}
Step-IsOrdered s _ (make_loop _ at) h = record {
  shown = rw at at h.shown;
  matches =
      Matches-step s.caller s.worker made s.address (λ e. cc) (λ e. cc) (λ e. absurd (ground arith))
        (λ e. cc) h.matches;
  flags = h.flags;
}
Step-IsOrdered s _ (publish _ at) h = record {
  shown = refl;
  matches =
      Matches-step s.caller s.worker looping s.address (λ e. cc) (λ e. cc) (λ e. inl refl) (λ e. cc)
        h.matches;
  flags = h.flags;
}
Step-IsOrdered s _ (end_loop _ at) h = record {
  shown = rw at at h.shown;
  matches =
      Matches-step s.caller s.worker gone s.address (λ e. cc) (λ e. cc) (λ e. inr refl) (λ e. cc)
        h.matches;
  flags = h.flags;
}
Step-IsOrdered s _ (end_wait _ at set) h = record {
  shown = h.shown;
  matches = Shown-set s.worker s.loop s.address h.shown set;
  flags = rw at at h.flags;
}
Step-IsOrdered s _ (begin_join _ p at) h = record {
  shown = h.shown;
  matches = (subst (λ c. Matches c s.worker s.address) at h.matches).1;
  flags = subst (λ c. Flags c s.thread) at h.flags;
}
Step-IsOrdered s _ (end_join _ t at over did) h = record {
  shown = h.shown;
  matches = over;
  flags = tt;
}

Reach-IsOrdered : (s t : EventLoopThread) → Reach s t → IsOrdered s → IsOrdered t
Reach-IsOrdered s _ here h = h
Reach-IsOrdered s t (next {t = u} r step) h = Step-IsOrdered u t step (Reach-IsOrdered s u r h)

-- The next step of a pair of threads of which one waits.
waiting-steps :
    (s : EventLoopThread) (w : Worker)
    → s.worker ≡ w
    → s.caller ≡ waiting
    → IsOrdered s
    → (t : EventLoopThread) × Step s t
waiting-steps s absent e at h = absurd (rw at at h.matches e)
waiting-steps s created e at h = (_, make_loop s e)
waiting-steps s made e at h = (_, publish s e)
waiting-steps s looping e at h = (_, end_wait s at (ap is_set (rw e at h.shown)))
waiting-steps s gone e at h = (_, end_wait s at (ap is_set (rw e at h.shown)))

-- The next step of a pair of threads of which one joins.
joining-steps :
    (s : EventLoopThread)
    → s.caller ≡ joining
    → (s.worker ≡ looping) ⊎ (s.worker ≡ gone)
    → IsOrdered s
    → (t : EventLoopThread) × Step s t
joining-steps s at (inl runs) h = (_, end_loop s runs)
joining-steps s at (inr over) h =
    let (started, joinable) = subst (λ c. Flags c s.thread) at h.flags in
    (_, end_join s _ at over (join-ok s.thread started joinable))

-- While the loop runs, the destructor's thread makes no step.
only-loop :
    (s t : EventLoopThread) → Step s t → s.caller ≡ joining → s.worker ≡ looping → t.worker ≡ gone
only-loop s _ (start_thread _ t at did) joins runs = absurd (cc)
only-loop s _ (make_loop _ at) joins runs = absurd (cc)
only-loop s _ (publish _ at) joins runs = absurd (cc)
only-loop s _ (end_loop _ at) joins runs = refl
only-loop s _ (end_wait _ at set) joins runs = absurd (cc)
only-loop s _ (begin_join _ p at) joins runs = absurd (cc)
only-loop s _ (end_join _ t at over did) joins runs = absurd (cc)

-- However the caller of `startLoop` and the new thread interleave. What `startLoop` returns is never
-- null but the address of the new thread's loop, after that loop has been made, and while the caller
-- waits, one of the two can always make a step, so the wait does not block both. The destructor stops
-- the program if `startLoop` was never called. After `startLoop` it meets no failing assertion and comes
-- back only when the loop has ended; while the loop runs, the loop's end is the only step that there is.
pub Reach-handshake :
    (num_created address : ℕ) (s : EventLoopThread)
    → Reach (new_event_loop_thread num_created address) s
    → ((p : Option ℕ)
        → s.caller ≡ returned p
        → (p ≡ some s.address) × ((s.worker ≡ looping) ⊎ (s.worker ≡ gone)))
      × (s.caller ≡ waiting → (t : EventLoopThread) × Step s t)
      × (s.caller ≡ before → Thread.join s.thread ≡ fault assertion)
      × (s.caller ≡ joining
          → ((t : EventLoopThread) × Step s t)
            × ((t : EventLoopThread) → Step s t → s.worker ≡ looping → t.worker ≡ gone))
      × (s.caller ≡ destroyed → s.worker ≡ gone)
unfolding new_event_loop_thread new_thread
Reach-handshake num_created address s r =
    let h =
      Reach-IsOrdered (new_event_loop_thread num_created address) s r
        (record { shown = refl; matches = refl; flags = refl }) in
    (
      λ p at. rw at at h.matches,
      λ at. waiting-steps s s.worker refl at h,
      λ at. join_unstarted s.thread (subst (λ c. Flags c s.thread) at h.flags),
      λ at. (
        joining-steps s at (subst (λ c. Matches c s.worker s.address) at h.matches) h,
        λ t step runs. only-loop s t step at runs,
      ),
      λ at. subst (λ c. Matches c s.worker s.address) at h.matches,
    )
