-- ===== src/EventLoop.antt =====
-- net/EventLoop.h and net/EventLoop.cpp: what a loop queues for later and how it is woken up. Its
-- requests to the poller are in `Poller`.
pub mod Queue
pub mod Rounds
pub mod Cycle
pub mod Threads
pub mod Wake
mod Tests
use easy_event.Base.{
  ℕ, zero, suc, ◌>>◌, assert, exhausted, Bool, true, false, not, ◌||◌, List, [], ◌∷◌, ◌++◌, Option,
  none, some, ◌==◌, if◌then◌else◌, Result, ok, fault, ◌>>=◌, assertion,
}

-- The members, with the value of the counter behind `_wakeupFd`; `F` is the type of functors.
pub record EventLoop (F : Type 0) : Type 0 where
  pub looping : Bool
  pub quit : Bool
  pub calling_pending_functors : Bool
  pub thread_id : ℕ
  pub wakeup_count : ℕ
  pub pending_functors : List F

-- `Thread::getCurrentThreadId()` is an argument.
abbrev pub is_in_loop_thread : {F : Type 0} → ℕ → EventLoop F → Bool
is_in_loop_thread current l = l.thread_id == current

-- The constructor, in the thread `current`.
pub new_loop : {F : Type 0} → ℕ → EventLoop F
new_loop current = record {
  looping = false;
  quit = false;
  calling_pending_functors = false;
  thread_id = current;
  wakeup_count = 0;
  pending_functors = [];
}

-- `write` to the eventfd gives the counter's new value, or nothing where it fails.
pub wakeup : {F : Type 0} → (ℕ → Option ℕ) → EventLoop F → Result (EventLoop F)
wakeup eventfd_write l = elim (eventfd_write l.wakeup_count) [
  | none ↦ fault assertion
  | some n ↦ ok (record l { wakeup_count = n })
]

-- `read` of the eventfd, likewise.
pub handle_read : {F : Type 0} → (ℕ → Option ℕ) → EventLoop F → Result (EventLoop F)
handle_read eventfd_read l = elim (eventfd_read l.wakeup_count) [
  | none ↦ fault assertion
  | some n ↦ ok (record l { wakeup_count = n })
]

pub quit_loop : {F : Type 0} → (ℕ → Option ℕ) → ℕ → EventLoop F → Result (EventLoop F)
quit_loop eventfd_write current l =
    let told = record l { quit = true } in
    if is_in_loop_thread current l then ok told else wakeup eventfd_write told

-- What `queueInLoop` does under the lock.
abbrev pub push_functor : {F : Type 0} → F → EventLoop F → EventLoop F
push_functor cb l = record l { pending_functors = l.pending_functors ++ cb ∷ [] }

pub queue_in_loop : {F : Type 0} → (ℕ → Option ℕ) → ℕ → F → EventLoop F → Result (EventLoop F)
queue_in_loop eventfd_write current cb l =
    let queued = push_functor cb l in
    if not (is_in_loop_thread current l) || l.calling_pending_functors
    then wakeup eventfd_write queued
    else ok queued

-- The three changes that `doPendingFunctors` makes: it sets the mark, swaps the vectors under the
-- lock, and clears the mark.
abbrev pub set_calling : {F : Type 0} → Bool → EventLoop F → EventLoop F
set_calling calling l = record l { calling_pending_functors = calling }

abbrev pub swap_functors : {F : Type 0} → EventLoop F → EventLoop F
swap_functors l = record l { pending_functors = [] }

-- The loop inside the state `W` of a program whose functors `run` runs.
module _ {F W : Type 0} (loop : W → EventLoop F) (set_loop : EventLoop F → W → W)
    (run : F → W → Result W) where
  pub run_in_loop : (ℕ → Option ℕ) → ℕ → F → W → Result W
  run_in_loop eventfd_write current cb w =
      if is_in_loop_thread current (loop w)
      then run cb w
      else do l ← queue_in_loop eventfd_write current cb (loop w); ok (set_loop l w)

  pub run_each : List F → W → Result W
  run_each [] w = ok w
  run_each (cb ∷ rest) w = do w₁ ← run cb w; run_each rest w₁

  pub do_pending_functors : W → Result W
  do_pending_functors w = do
    let functors = (loop w).pending_functors
    let swapped = set_loop (swap_functors (set_calling true (loop w))) w
    done ← run_each functors swapped
    ok (set_loop (set_calling false (loop done)) done)

  -- `poll` gives the active channels, and `handle_event` is their method.
  module _ (poll : W → Result (List ℕ × W)) (handle_event : ℕ → W → Result W) where
    unfoldable pub handle_each : List ℕ → W → Result W
    handle_each [] w = ok w
    handle_each (p ∷ rest) w = do w₁ ← handle_event p w; handle_each rest w₁

    -- One turn of `startLoop`.
    unfoldable pub turn : W → Result W
    turn w = do
      (active, polled) ← poll w
      handled ← handle_each active polled
      do_pending_functors handled

    -- `while(!_quit)`: the number bounds the turns, of which there may be no end.
    pub while_running : ℕ → W → Result W
    while_running zero w = fault exhausted
    while_running (suc fuel) w =
        let next = turn w >>= while_running fuel in if (loop w).quit then ok w else next

    pub start_loop : ℕ → ℕ → W → Result W
    start_loop fuel current w = do
      assert (not (loop w).looping)
      assert (is_in_loop_thread current (loop w))
      let started = set_loop (record (loop w) { looping = true; quit = false }) w
      done ← while_running fuel started
      ok (set_loop (record (loop done) { looping = false }) done)
