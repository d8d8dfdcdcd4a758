-- ===== src/EventLoop/Wake.antt =====
-- net/EventLoop.cpp: when the wait in `poll` ends, in any order of the steps of `Threads`.
use easy_event.Base.{
  ok-injective, eq→==, false≢true, ℕ, ◌+◌, ◌-◌, ◌<◌, ◌≡◌, ◌≢◌, ◌⊎◌, inl, inr, refl, sym, ◌∙◌, subst,
  Bool, true, false, [], ◌∷◌, Option, some, ok, arith,
}
use easy_event.EventLoop.{EventLoop, new_loop, queue_in_loop, quit_loop, push_functor}
use easy_event.EventLoop.Queue.{wakeup-inv, queue_in_loop-calling}
use easy_event.EventLoop.Threads.{
  Phase, outside, polling, handling, marked, calling, checking, Shared, Step, push, tell_quit, wake,
  poll_returns, read_wakeup, queue_own, quit_own, queue_early, quit_early, start, mark, swap,
  finish, poll_again, leave, Reach, here, next,
}

module _ {F : Type 0} (eventfd_write eventfd_read : ℕ → Option ℕ) where
  -- Something will end the wait in `poll`: the counter is not zero, or a thread is about to write.
  abbrev pub WillWake : Shared F → Type 0
  WillWake s = (0 < s.loop.wakeup_count) ⊎ (0 < s.writers)

  -- What holds in each phase of a loop in which no wake-up is lost.
  abbrev Noticed : Bool → ℕ → EventLoop F → Type 0
  Noticed early writers l =
      (early ≡ true) ⊎ (l.pending_functors ≡ []) ⊎ (0 < l.wakeup_count) ⊎ (0 < writers)

  abbrev Told : ℕ → EventLoop F → Type 0
  Told writers l = (l.quit ≡ false) ⊎ (0 < l.wakeup_count) ⊎ (0 < writers)

  abbrev Awake : Phase → Bool → ℕ → EventLoop F → Type 0
  Awake outside early writers l = Noticed early writers l
  Awake polling early writers l = Noticed early writers l × Told writers l
  Awake handling early writers l = Unit {0}
  Awake marked early writers l = l.calling_pending_functors ≡ true
  Awake calling early writers l = (l.calling_pending_functors ≡ true) × Noticed early writers l
  Awake checking early writers l = Noticed early writers l

  Awake-push :
      (p : Phase) (b : Bool) (n : ℕ) (cb : F) (l : EventLoop F)
      → Awake p b n l
      → Awake p b (n + 1) (push_functor cb l)
  Awake-push outside b n cb l a = inr (inr (inr (omega arith)))
  Awake-push polling b n cb l a = (inr (inr (inr (omega arith))), inr (inr (omega arith)))
  Awake-push handling b n cb l a = tt
  Awake-push marked b n cb l a = a
  Awake-push calling b n cb l a = (a.0, inr (inr (inr (omega arith))))
  Awake-push checking b n cb l a = inr (inr (inr (omega arith)))

  Awake-tell :
      (p : Phase) (b : Bool) (n : ℕ) (l : EventLoop F)
      → Awake p b n l
      → Awake p b (n + 1) (record l { quit = true })
  Awake-tell outside b n l a = inr (inr (inr (omega arith)))
  Awake-tell polling b n l a = (inr (inr (inr (omega arith))), inr (inr (omega arith)))
  Awake-tell handling b n l a = tt
  Awake-tell marked b n l a = a
  Awake-tell calling b n l a = (a.0, inr (inr (inr (omega arith))))
  Awake-tell checking b n l a = inr (inr (inr (omega arith)))

  Awake-wake :
      (p : Phase) (b : Bool) (n m k : ℕ) (l : EventLoop F)
      → 0 < m
      → Awake p b n l
      → Awake p b k (record l { wakeup_count = m })
  Awake-wake outside b n m k l h a = inr (inr (inl h))
  Awake-wake polling b n m k l h a = (inr (inr (inl h)), inr (inl h))
  Awake-wake handling b n m k l h a = tt
  Awake-wake marked b n m k l h a = a
  Awake-wake calling b n m k l h a = (a.0, inr (inr (inl h)))
  Awake-wake checking b n m k l h a = inr (inr (inl h))

  Awake-queue :
      (p : Phase) (b : Bool) (n : ℕ) (cb : F) (l l' : EventLoop F)
      → ((k m : ℕ) → eventfd_write k ≡ some m → 0 < m)
      → (p ≡ handling) ⊎ (p ≡ calling)
      → queue_in_loop eventfd_write l.thread_id cb l ≡ ok l'
      → Awake p b n l
      → Awake p b n l'
  Awake-queue outside b n cb l l' writes at did a = absurd (ground arith)
  Awake-queue polling b n cb l l' writes at did a = absurd (ground arith)
  Awake-queue handling b n cb l l' writes at did a = tt
  Awake-queue marked b n cb l l' writes at did a = absurd (ground arith)
  Awake-queue calling b n cb l l' writes at did a =
      let (m, wrote, end) =
        wakeup-inv eventfd_write (push_functor cb l) l'
          (sym (queue_in_loop-calling eventfd_write l.thread_id cb l a.0) ∙ did) in
      subst (Awake calling b n) end (a.0, inr (inr (inl (writes l.wakeup_count m wrote))))
  Awake-queue checking b n cb l l' writes at did a = absurd (ground arith)

  -- In its own thread `quitLoop` sets `_quit` only.
  quit_own-sets :
      (l l' : EventLoop F)
      → quit_loop eventfd_write l.thread_id l ≡ ok l'
      → record l { quit = true } ≡ l'
  unfolding quit_loop
  quit_own-sets l l' did =
      let sets : quit_loop eventfd_write l.thread_id l ≡ ok (record l { quit = true }) =
        rw (eq→== l.thread_id l.thread_id refl) in
      ok-injective (record l { quit = true }) l' (sym sets ∙ did)

  Awake-quit :
      (p : Phase) (b : Bool) (n : ℕ) (l : EventLoop F)
      → (p ≡ outside) ⊎ (p ≡ handling) ⊎ (p ≡ calling)
      → Awake p b n l
      → Awake p b n (record l { quit = true })
  Awake-quit outside b n l at a = a
  Awake-quit polling b n l at a = absurd (ground arith)
  Awake-quit handling b n l at a = tt
  Awake-quit marked b n l at a = absurd (ground arith)
  Awake-quit calling b n l at a = a
  Awake-quit checking b n l at a = absurd (ground arith)

  Step-Awake :
      ((k m : ℕ) → eventfd_write k ≡ some m → 0 < m)
      → (s t : Shared F) → Step eventfd_write eventfd_read s t
      → Awake s.phase s.early s.writers s.loop
      → Awake t.phase t.early t.writers t.loop
  Step-Awake writes s _ (push _ cb) a = Awake-push s.phase s.early s.writers cb s.loop a
  Step-Awake writes s _ (tell_quit _) a = Awake-tell s.phase s.early s.writers s.loop a
  Step-Awake writes s _ (quit_own _ l at did) a =
      subst (Awake s.phase s.early s.writers) (quit_own-sets s.loop l did)
        (Awake-quit s.phase s.early s.writers s.loop (inr at) a)
  Step-Awake writes s _ (queue_early _ cb l at did) a =
      subst (λ p. Awake p true s.writers l) (sym at) (inl refl)
  Step-Awake writes s _ (quit_early _ l at did) a =
      subst (Awake s.phase s.early s.writers) (quit_own-sets s.loop l did)
        (Awake-quit s.phase s.early s.writers s.loop (inl at) a)
  Step-Awake writes s _ (start _ at idle) a = rw at at a
  Step-Awake writes s _ (poll_again _ at going) a = (rw at at a, inl going)
  Step-Awake writes s _ (leave _ at over) a = rw at at a
  Step-Awake writes s _ (wake _ l waits did) a =
      let (m, wrote, end) = wakeup-inv eventfd_write s.loop l did in
      subst (Awake s.phase s.early (s.writers - 1)) end (
        Awake-wake s.phase s.early s.writers m (s.writers - 1) s.loop
          (writes s.loop.wakeup_count m wrote) a)
  Step-Awake writes s _ (poll_returns _ at) a = tt
  Step-Awake writes s _ (read_wakeup _ l at did) a =
      subst (λ p. Awake p s.early s.writers l) (sym at) tt
  Step-Awake writes s _ (queue_own _ cb l at did) a =
      Awake-queue s.phase s.early s.writers cb s.loop l writes at did a
  Step-Awake writes s _ (mark _ at) a = refl
  Step-Awake writes s _ (swap _ at) a = (rw at at a, inr (inl refl))
  Step-Awake writes s _ (finish _ at) a = (rw at at a).1

  Reach-Awake :
      ((k m : ℕ) → eventfd_write k ≡ some m → 0 < m)
      → (s t : Shared F) → Reach eventfd_write eventfd_read s t
      → Awake s.phase s.early s.writers s.loop
      → Awake t.phase t.early t.writers t.loop
  Reach-Awake writes s _ here a = a
  Reach-Awake writes s t (next {t = u} r step) a =
      Step-Awake writes u t step (Reach-Awake writes s u r a)

  -- A new object of a loop.
  abbrev pub made : ℕ → Shared F
  made thread = record { phase = outside; writers = 0; early = false; loop = new_loop thread }

  -- No wake-up is lost, however the threads interleave, from the constructor on and over any number of
  -- `startLoop`s, but those for functors that the loop's own thread queued outside `startLoop`: whenever
  -- the loop is in `poll` while a functor is pending, and none of those is, or although it was told to
  -- quit since it was started, the eventfd's counter is not zero, so that `poll` returns, or another
  -- thread has still to write to it. A write is taken to leave a counter that is not zero.
  pub Reach-notices :
      ((k m : ℕ) → eventfd_write k ≡ some m → 0 < m)
      → (thread : ℕ) (s : Shared F) → Reach eventfd_write eventfd_read (made thread) s
      → s.phase ≡ polling
      → ((s.early ≡ false) × (s.loop.pending_functors ≢ [])) ⊎ (s.loop.quit ≡ true)
      → WillWake s
  unfolding new_loop
  Reach-notices writes thread s r at why =
      let (noticed, told) =
        subst (λ p. Awake p s.early s.writers s.loop) at
          (Reach-Awake writes (made thread) s r (inr (inl refl))) in
      elim why [
        | inl (late, some_left) ↦ elim noticed [
          | inl soon ↦ absurd (false≢true (sym late ∙ soon))
          | inr (inl nothing) ↦ absurd (some_left nothing)
          | inr (inr woken) ↦ woken
        ]
        | inr quit ↦ elim told [
          | inl going ↦ absurd (false≢true (sym going ∙ quit))
          | inr woken ↦ woken
        ]
      ]

  -- Those are lost: if the loop's own thread queues a functor and then calls `startLoop`, the threads can
  -- come to where the loop is in `poll`, the functor is pending, the eventfd's counter is zero, and no
  -- other thread has anything to write.
  pub queue_early-sleeps :
      (thread : ℕ) (cb : F)
      → (s : Shared F) × Reach eventfd_write eventfd_read (made thread) s
        × (s.phase ≡ polling)
        × (s.loop.pending_functors ≡ cb ∷ [])
        × (s.loop.wakeup_count ≡ 0)
        × (s.writers ≡ 0)
  unfolding new_loop queue_in_loop
  queue_early-sleeps thread cb = (
    record {
      phase = polling;
      writers = 0;
      early = true;
      loop = record (push_functor cb (new_loop thread)) { looping = true };
    },
    next
        (next
          (next here (
            queue_early _ cb (push_functor cb (new_loop thread)) refl
              (rw (eq→== thread thread refl) refl)))
          (start _ refl refl))
        (poll_again _ refl refl),
    refl,
    refl,
    refl,
    refl,
  )
