-- ===== src/EventLoopThread.antt =====
-- net/EventLoopThread.h and net/EventLoopThread.cpp: a thread with a loop of its own, and the caller of
-- `startLoop` who waits for that loop. The two threads' steps interleave.
pub mod Handshake
mod Tests
use easy_event.Base.{ℕ, Bool, true, false, Option, none, some, Result, ok, ◌≡◌}
use easy_event.Thread
use easy_event.Thread.{new_thread}

-- Where the caller is: before `startLoop`, in `wait`, behind it with what `startLoop` returns, in `join`
-- of the destructor, or behind that.
pub data Caller : Type 0 where
  before : Caller
  waiting : Caller
  returned : Option ℕ → Caller
  joining : Caller
  destroyed : Caller

-- Where the new thread is in `threadFunc`: not there; at its start; with its loop made; with `_loop`
-- set, in `startLoop` of the loop; at its end, with the loop destroyed.
pub data Worker : Type 0 where
  absent created made looping gone : Worker

-- The members, and where the two threads are. `address` is where the new thread makes its loop.
pub record EventLoopThread : Type 0 where
  pub loop : Option ℕ
  pub exiting : Bool
  pub thread : Thread.Thread
  pub address : ℕ
  pub caller : Caller
  pub worker : Worker

-- The constructor; `num_created` counts threads.
pub new_event_loop_thread : ℕ → ℕ → EventLoopThread
new_event_loop_thread num_created address = record {
  loop = none;
  exiting = false;
  thread = (new_thread num_created).0;
  address = address;
  caller = before;
  worker = absent;
}

abbrev is_set : Option ℕ → Bool
is_set none = false
is_set (some p) = true

-- The steps of `startLoop`, of the destructor after it, and of `threadFunc`. The wait ends when `_loop`
-- is not null, and the join when the new thread has ended.
pub data Step : EventLoopThread → EventLoopThread → Type 0 where
  start_thread :
      (s : EventLoopThread) (t : Thread.Thread)
      → s.caller ≡ before
      → Thread.start s.thread ≡ ok t
      → Step s (record s { thread = t; caller = waiting; worker = created })
  make_loop : (s : EventLoopThread) → s.worker ≡ created → Step s (record s { worker = made })
  publish :
      (s : EventLoopThread)
      → s.worker ≡ made
      → Step s (record s { loop = some s.address; worker = looping })
  end_loop : (s : EventLoopThread) → s.worker ≡ looping → Step s (record s { worker = gone })
  end_wait :
      (s : EventLoopThread)
      → s.caller ≡ waiting
      → is_set s.loop ≡ true
      → Step s (record s { caller = returned s.loop })
  begin_join :
      (s : EventLoopThread) (p : Option ℕ)
      → s.caller ≡ returned p
      → Step s (record s { exiting = true; caller = joining })
  end_join :
      (s : EventLoopThread) (t : Thread.Thread)
      → s.caller ≡ joining
      → s.worker ≡ gone
      → Thread.join s.thread ≡ ok t
      → Step s (record s { thread = t; caller = destroyed })

pub data Reach (s : EventLoopThread) : EventLoopThread → Type 0 where
  here : Reach s s
  next : {t u : EventLoopThread} → Reach s t → Step t u → Reach s u
