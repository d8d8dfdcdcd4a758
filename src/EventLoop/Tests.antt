-- ===== src/EventLoop/Tests.antt =====
-- Functors that are numbers: 1 queues 0, and 0 does nothing.
use easy_event.Base.{
  inl, ◌<◌, ◌↔◌, ◌>>=◌, arith, inr, Option, ap, length, ℕ, zero, suc, ◌≡◌, refl, sym, append-nil,
  true, false, List, [], ◌∷◌, ◌++◌, Option, some, Result, ok,
}
use easy_event.EventLoop.Cycle.{Turns, started, stopped, start_loop_iff, start_loop-forgets_quit}
use easy_event.EventLoop.Threads.{
  Shared, polling, start, poll_returns, mark, swap, queue_own, finish, poll_again, Reach, here,
  next,
}
use easy_event.EventLoop.Wake.{WillWake, made, Reach-notices, queue_early-sleeps}
use easy_event.EventLoop.{
  while_running, turn, handle_each, new_loop, quit_loop, start_loop, EventLoop, queue_in_loop,
  run_each, do_pending_functors,
}
use easy_event.EventLoop.Queue.{queue_in_loop-queues, queued}
use easy_event.EventLoop.Rounds.{do_pending_functors-rounds}

abbrev idle_loop : EventLoop ℕ
idle_loop = record {
  looping = true;
  quit = false;
  calling_pending_functors = false;
  thread_id = 1;
  wakeup_count = 0;
  pending_functors = 1 ∷ 0 ∷ 1 ∷ [];
}

abbrev eventfd : ℕ → Option ℕ
eventfd k = some (suc k)

abbrev run : ℕ → EventLoop ℕ → Result (EventLoop ℕ)
run zero l = ok l
run (suc n) l = queue_in_loop eventfd 1 0 l

abbrev children : ℕ → List ℕ
children zero = []
children (suc n) = 0 ∷ []

runs :
    (f : ℕ) (l : EventLoop ℕ)
    → (l' : EventLoop ℕ) × (run f l ≡ ok l')
      × (l'.pending_functors ≡ l.pending_functors ++ children f)
runs zero l = (l, refl, sym (append-nil l.pending_functors))
runs (suc n) l = (
  queued 1 0 (suc l.wakeup_count) l,
  queue_in_loop-queues eventfd 1 0 l (suc l.wakeup_count) refl,
  refl,
)

do_pending_functors-rounds_example :
    (l' done : EventLoop ℕ) × (do_pending_functors (λ l. l) (λ l w. l) run idle_loop ≡ ok l')
    × (run_each
          (λ l. l)
          (λ l w. l)
          run
          (1 ∷ 0 ∷ 1 ∷ [])
          (record idle_loop { calling_pending_functors = true; pending_functors = [] })
        ≡ ok done)
    × (l' ≡ record done { calling_pending_functors = false })
    × (l'.pending_functors ≡ 0 ∷ 0 ∷ [])
    × (l'.calling_pending_functors ≡ false)
do_pending_functors-rounds_example =
    do_pending_functors-rounds (λ l. l) (λ l w. l) run children (λ l w. refl) runs idle_loop

-- A functor that makes the loop quit, and a `poll` that finds nothing.
abbrev run_quit : ℕ → EventLoop ℕ → Result (EventLoop ℕ)
run_quit f l = ok (record l { quit = true })

abbrev no_channels : EventLoop ℕ → Result (List ℕ × EventLoop ℕ)
no_channels l = ok ([], l)

abbrev no_event : ℕ → EventLoop ℕ → Result (EventLoop ℕ)
no_event p l = ok l

abbrev resting : EventLoop ℕ
resting = record idle_loop { looping = false }

abbrev ended : EventLoop ℕ
ended = record resting { quit = true; pending_functors = [] }

start_loop_iff_example :
    (start_loop (λ l. l) (λ l w. l) run_quit no_channels no_event 2 1 resting ≡ ok ended) ↔ (
      (k : ℕ) × (done : EventLoop ℕ) × (k < 2)
      × Turns
          (λ l. l)
          (λ l w. l)
          run_quit
          no_channels
          no_event
          k
          (started (λ l. l) (λ l w. l) run_quit no_channels no_event resting)
          done
      × (ended ≡ stopped (λ l. l) (λ l w. l) run_quit no_channels no_event done))
start_loop_iff_example =
    start_loop_iff (λ l. l) (λ l w. l) run_quit no_channels no_event 2 1 resting ended refl refl

start_loop-forgets_quit_example :
    (quit_loop eventfd 1 resting >>= λ l.
    start_loop (λ l. l) (λ l w. l) run_quit no_channels no_event 2 1 l)
    ≡ start_loop (λ l. l) (λ l w. l) run_quit no_channels no_event 2 1 resting
start_loop-forgets_quit_example =
    start_loop-forgets_quit (λ l. l) (λ l w. l) run_quit no_channels no_event eventfd 2 1 resting
      (λ l v. refl) (λ l m v. refl) refl refl

-- It runs one turn, which takes the three pending functors.
start_loop-runs :
    start_loop (λ l. l) (λ l w. l) run_quit no_channels no_event 2 1 resting ≡ ok ended
unfolding start_loop while_running turn handle_each do_pending_functors run_each
start_loop-runs = refl

-- The loop's own thread queues the functor 7 while the loop runs its functors, and goes on to `poll`.
abbrev in_phase : EventLoop ℕ → Shared ℕ
in_phase l = record { phase = polling; writers = 0; early = false; loop = l }

abbrev requeued : Shared ℕ
requeued =
    in_phase (record (new_loop 1) { looping = true; pending_functors = 7 ∷ []; wakeup_count = 1 })

requeued-reached : Reach eventfd eventfd (made eventfd eventfd 1) requeued
unfolding new_loop
requeued-reached =
    next
      (next
        (next
          (next
            (next
              (next (next (next here (start _ refl refl)) (poll_again _ refl refl))
                (poll_returns _ refl))
              (mark _ refl))
            (swap _ refl))
          (queue_own _ 7 _ (inr refl) (queue_in_loop-queues eventfd 1 7 _ 1 refl)))
        (finish _ refl))
      (poll_again _ refl refl)

eventfd-counts : (k m : ℕ) → eventfd k ≡ some m → 0 < m
eventfd-counts k m e = ground arith

Reach-notices_example : WillWake eventfd eventfd requeued
Reach-notices_example =
    Reach-notices eventfd eventfd eventfd-counts 1 requeued requeued-reached refl
      (inl (refl, λ e. absurd (omega (arith, ap (λ (xs : List ℕ). length xs) e))))

queue_early-sleeps_example :
    (s : Shared ℕ) × Reach eventfd eventfd (made eventfd eventfd 1) s
    × (s.phase ≡ polling)
    × (s.loop.pending_functors ≡ 7 ∷ [])
    × (s.loop.wakeup_count ≡ 0)
    × (s.writers ≡ 0)
queue_early-sleeps_example = queue_early-sleeps eventfd eventfd 1 7
