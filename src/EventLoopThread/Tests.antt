-- ===== src/EventLoopThread/Tests.antt =====
-- A run in which the caller gets the loop, at address 9, and the loop ends afterwards.
use easy_event.Base.{ℕ, ◌≡◌, ◌⊎◌, refl, Option, some, true, false, ok, fault, assertion}
use easy_event.Thread
use easy_event.Thread.{new_thread}
use easy_event.EventLoopThread.{
  EventLoopThread, before, waiting, returned, joining, destroyed, begin_join, looping, gone,
  new_event_loop_thread, Step, start_thread, make_loop, publish, end_wait, end_loop, Reach, here,
  next,
}
use easy_event.EventLoopThread.Handshake.{Reach-handshake}

abbrev running : Thread.Thread
running = record { started = true; joined = false; joinable = true }

-- The object is being destroyed when the loop is gone.
abbrev late : EventLoopThread
late = record {
  loop = some 9;
  exiting = true;
  thread = running;
  address = 9;
  caller = joining;
  worker = gone;
}

start-new_thread : Thread.start (new_thread 0).0 ≡ ok running
unfolding new_thread Thread.start
start-new_thread = refl

late-reached : Reach (new_event_loop_thread 0 9) late
unfolding new_event_loop_thread
late-reached =
    next
      (next
        (next
          (next (next (next here (start_thread _ running refl start-new_thread)) (make_loop _ refl))
            (publish _ refl))
          (end_wait _ refl refl))
        (end_loop _ refl))
      (begin_join _ (some 9) refl)

Reach-handshake_example :
    ((p : Option ℕ)
      → late.caller ≡ returned p
      → (p ≡ some 9) × ((late.worker ≡ looping) ⊎ (late.worker ≡ gone)))
    × (late.caller ≡ waiting → (t : EventLoopThread) × Step late t)
    × (late.caller ≡ before → Thread.join late.thread ≡ fault assertion)
    × (late.caller ≡ joining
        → ((t : EventLoopThread) × Step late t)
          × ((t : EventLoopThread) → Step late t → late.worker ≡ looping → t.worker ≡ gone))
    × (late.caller ≡ destroyed → late.worker ≡ gone)
Reach-handshake_example = Reach-handshake 0 9 late late-reached
