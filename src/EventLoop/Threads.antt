-- ===== src/EventLoop/Threads.antt =====
-- net/EventLoop.cpp, `queueInLoop`, `quitLoop`, `wakeup`, `handleRead`, `doPendingFunctors` and the test
-- of `startLoop` as the steps of the loop's thread and of other threads, which interleave.
use easy_event.Base.{ℕ, ◌+◌, ◌-◌, ◌<◌, ◌≡◌, ◌⊎◌, Bool, true, false, Option, ok}
use easy_event.EventLoop.{
  EventLoop, wakeup, handle_read, queue_in_loop, quit_loop, push_functor, set_calling,
  swap_functors,
}

-- Where the loop's thread is: outside `startLoop`, as behind the constructor; in `startLoop` in `poll`;
-- behind it, among the calls of `handleEvent`; in `doPendingFunctors` before the swap, and after it; and
-- at the test of `_quit`.
pub data Phase : Type 0 where
  outside polling handling marked calling checking : Phase

-- `writers` other threads have left the lock of `queueInLoop`, or have set `_quit`, and have still to
-- call `wakeup`. `early` is no member: it says that the loop's own thread has queued functors outside
-- `startLoop` that are still pending.
pub record Shared (F : Type 0) : Type 0 where
  pub phase : Phase
  pub writers : ℕ
  pub early : Bool
  pub loop : EventLoop F

module _ {F : Type 0} (eventfd_write eventfd_read : ℕ → Option ℕ) where
  -- The steps that the code lets the threads make, in any order.
  pub data Step : Shared F → Shared F → Type 0 where
    -- another thread in `queueInLoop`, under the lock and then behind it
    push :
        (s : Shared F) (cb : F)
        → Step s (record s { writers = s.writers + 1; loop = push_functor cb s.loop })
    -- another thread in `quitLoop`
    tell_quit :
        (s : Shared F)
        → Step s (record s { writers = s.writers + 1; loop = record s.loop { quit = true } })
    wake :
        (s : Shared F) (l : EventLoop F)
        → 0 < s.writers
        → wakeup eventfd_write s.loop ≡ ok l
        → Step s (record s { writers = s.writers - 1; loop = l })
    -- the loop's thread outside `startLoop`, and its start, which goes to the test of `_quit`
    queue_early :
        (s : Shared F) (cb : F) (l : EventLoop F)
        → s.phase ≡ outside
        → queue_in_loop eventfd_write s.loop.thread_id cb s.loop ≡ ok l
        → Step s (record s { early = true; loop = l })
    quit_early :
        (s : Shared F) (l : EventLoop F)
        → s.phase ≡ outside
        → quit_loop eventfd_write s.loop.thread_id s.loop ≡ ok l
        → Step s (record s { loop = l })
    start :
        (s : Shared F)
        → s.phase ≡ outside
        → s.loop.looping ≡ false
        → Step s
            (record s { phase = checking; loop = record s.loop { looping = true; quit = false } })
    -- the loop's thread in `startLoop`
    poll_returns : (s : Shared F) → s.phase ≡ polling → Step s (record s { phase = handling })
    read_wakeup :
        (s : Shared F) (l : EventLoop F)
        → s.phase ≡ handling
        → handle_read eventfd_read s.loop ≡ ok l
        → Step s (record s { loop = l })
    queue_own :
        (s : Shared F) (cb : F) (l : EventLoop F)
        → (s.phase ≡ handling) ⊎ (s.phase ≡ calling)
        → queue_in_loop eventfd_write s.loop.thread_id cb s.loop ≡ ok l
        → Step s (record s { loop = l })
    quit_own :
        (s : Shared F) (l : EventLoop F)
        → (s.phase ≡ handling) ⊎ (s.phase ≡ calling)
        → quit_loop eventfd_write s.loop.thread_id s.loop ≡ ok l
        → Step s (record s { loop = l })
    mark :
        (s : Shared F)
        → s.phase ≡ handling
        → Step s (record s { phase = marked; loop = set_calling true s.loop })
    swap :
        (s : Shared F)
        → s.phase ≡ marked
        → Step s (record s { phase = calling; early = false; loop = swap_functors s.loop })
    finish :
        (s : Shared F)
        → s.phase ≡ calling
        → Step s (record s { phase = checking; loop = set_calling false s.loop })
    poll_again :
        (s : Shared F)
        → s.phase ≡ checking
        → s.loop.quit ≡ false
        → Step s (record s { phase = polling })
    leave :
        (s : Shared F)
        → s.phase ≡ checking
        → s.loop.quit ≡ true
        → Step s (record s { phase = outside; loop = record s.loop { looping = false } })

  pub data Reach (s : Shared F) : Shared F → Type 0 where
    here : Reach s s
    next : {t u : Shared F} → Reach s t → Step t u → Reach s u
