-- ===== src/EventLoop/Queue.antt =====
-- net/EventLoop.cpp: `queueInLoop` and `doPendingFunctors`.
use easy_event.Base.{
  sym, ap, Ensures, Ensures-if, Ensures-result, eq→==, ◌>>=◌, ◌≢◌, Result, ne→==_false, refl, true,
  ok-injective, or_true, fault, assertion, none, ℕ, ◌≡◌, not, ◌||◌, ◌==◌, [], ◌∷◌, ◌++◌, Option,
  some, ok, Bool-cases, inl, inr, if◌then◌else◌,
}
use easy_event.EventLoop.{push_functor, EventLoop, queue_in_loop, run_in_loop, wakeup}

wakeup-ok :
    {F : Type 0} (eventfd_write : ℕ → Option ℕ) (l : EventLoop F) (woken : ℕ)
    → eventfd_write l.wakeup_count ≡ some woken
    → wakeup eventfd_write l ≡ ok (record l { wakeup_count = woken })
unfolding wakeup
wakeup-ok eventfd_write l woken e = rw (wakeup, e)

-- What `queueInLoop` makes of the loop, where the eventfd's counter becomes `woken`.
abbrev pub queued : {F : Type 0} → ℕ → F → ℕ → EventLoop F → EventLoop F
queued current cb woken l = record l {
  pending_functors = l.pending_functors ++ cb ∷ [];
  wakeup_count =
      if not (l.thread_id == current) || l.calling_pending_functors then woken else l.wakeup_count;
}

-- With an eventfd that takes the write, `queueInLoop` puts the functor last, changes nothing else
-- but the counter, and writes to the eventfd if the caller is another thread or if the loop is
-- running its functors.
pub queue_in_loop-queues :
    {F : Type 0} (eventfd_write : ℕ → Option ℕ) (current : ℕ) (cb : F) (l : EventLoop F) (woken : ℕ)
    → eventfd_write l.wakeup_count ≡ some woken
    → queue_in_loop eventfd_write current cb l ≡ ok (queued current cb woken l)
unfolding queue_in_loop
queue_in_loop-queues eventfd_write current cb l woken e =
    elim (Bool-cases (not (l.thread_id == current) || l.calling_pending_functors)) [
      | inl wakes ↦ rw (
        wakes,
        wakeup-ok eventfd_write (record l { pending_functors = l.pending_functors ++ cb ∷ [] })
            woken e,
      )
      | inr stays ↦ rw stays
    ]

-- What a call of `wakeup` that does not stop the program has done.
pub wakeup-inv :
    {F : Type 0} (eventfd_write : ℕ → Option ℕ) (l l' : EventLoop F)
    → wakeup eventfd_write l ≡ ok l'
    → (m : ℕ) × (eventfd_write l.wakeup_count ≡ some m) × (record l { wakeup_count = m } ≡ l')
unfolding wakeup
wakeup-inv {F} eventfd_write l l' e = by_answer (eventfd_write l.wakeup_count) refl e
  where
    by_answer :
        (o : Option ℕ)
        → eventfd_write l.wakeup_count ≡ o
        → elim o [ none ↦ fault assertion | some n ↦ ok (record l { wakeup_count = n }) ] ≡ ok l'
        → (m : ℕ) × (eventfd_write l.wakeup_count ≡ some m) × (record l { wakeup_count = m } ≡ l')
    by_answer none a did = absurd (cc)
    by_answer (some m) a did = (m, a, ok-injective (record l { wakeup_count = m }) l' did)

-- While the loop runs its functors, its own thread wakes it up as well.
pub queue_in_loop-calling :
    {F : Type 0} (eventfd_write : ℕ → Option ℕ) (current : ℕ) (cb : F) (l : EventLoop F)
    → l.calling_pending_functors ≡ true
    → queue_in_loop eventfd_write current cb l ≡ wakeup eventfd_write (push_functor cb l)
unfolding queue_in_loop
queue_in_loop-calling eventfd_write current cb l e = rw (e, or_true (not (l.thread_id == current)))

-- In the loop's thread, `runInLoop` runs.
pub run_in_loop-here :
    {F W : Type 0} (loop : W → EventLoop F) (set_loop : EventLoop F → W → W)
    (run : F → W → Result W) (eventfd_write : ℕ → Option ℕ) (current : ℕ) (cb : F) (w : W)
    → (loop w).thread_id ≡ current
    → run_in_loop loop set_loop run eventfd_write current cb w ≡ run cb w
unfolding run_in_loop
run_in_loop-here loop set_loop run eventfd_write current cb w here =
    rw (eq→== (loop w).thread_id current here)

-- In another thread than the loop's, `runInLoop` queues.
pub run_in_loop-elsewhere :
    {F W : Type 0} (loop : W → EventLoop F) (set_loop : EventLoop F → W → W)
    (run : F → W → Result W) (eventfd_write : ℕ → Option ℕ) (current : ℕ) (cb : F) (w : W)
    (woken : ℕ)
    → (loop w).thread_id ≢ current
    → eventfd_write (loop w).wakeup_count ≡ some woken
    → run_in_loop loop set_loop run eventfd_write current cb w
      ≡ ok (set_loop (queued current cb woken (loop w)) w)
unfolding run_in_loop
run_in_loop-elsewhere loop set_loop run eventfd_write current cb w woken there e = rw (
  queue_in_loop-queues eventfd_write current cb (loop w) woken e,
  ne→==_false (loop w).thread_id current there,
)

-- The loop keeps its thread.
pub queue_in_loop-thread :
    {F : Type 0} (eventfd_write : ℕ → Option ℕ) (current : ℕ) (cb : F) (l : EventLoop F)
    → Ensures
        (λ (l' : EventLoop F). l'.thread_id ≡ l.thread_id)
        (queue_in_loop eventfd_write current cb l)
unfolding queue_in_loop
queue_in_loop-thread eventfd_write current cb l =
    Ensures-if _ _ _
      (record {
        gives = λ l' e.
            let (m, wrote, end) = wakeup-inv eventfd_write (push_functor cb l) l' e in
            ap (λ (x : EventLoop _). x.thread_id) (sym end);
      })
      (Ensures-result (push_functor cb l) refl)

-- What the functor ensures at once, and what queueing it does, `runInLoop` does.
pub run_in_loop-Ensures :
    {F W : Type 0} {P : W → Type 0} (loop : W → EventLoop F) (set_loop : EventLoop F → W → W)
    (run : F → W → Result W) (eventfd_write : ℕ → Option ℕ) (current : ℕ) (cb : F) (w : W)
    → Ensures P (run cb w)
    → Ensures P (do l ← queue_in_loop eventfd_write current cb (loop w); ok (set_loop l w))
    → Ensures P (run_in_loop loop set_loop run eventfd_write current cb w)
unfolding run_in_loop
run_in_loop-Ensures loop set_loop run eventfd_write current cb w now later =
    Ensures-if _ _ _ now later
