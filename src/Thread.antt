-- ===== src/Thread.antt =====
-- base/Thread.h and base/Thread.cpp: a thread that is started at most once. The function that it runs
-- is not part of the state; `joinable` is what the `std::thread` inside answers.
use easy_event.Base.{
  ℕ, ◌+◌, Bool, true, false, not, ◌&&◌, if◌then◌else◌, Result, ok, fault, aborted, ◌>>◌, assert,
}

pub record Thread : Type 0 where
  pub started : Bool
  pub joined : Bool
  pub joinable : Bool

-- The constructor, which counts the threads.
unfoldable pub new_thread : ℕ → Thread × ℕ
new_thread num_created =
    (record { started = false; joined = false; joinable = false }, num_created + 1)

unfoldable pub start : Thread → Result Thread
start t = do assert (not t.started); ok (record t { started = true; joinable = true })

-- `join` comes back when the thread has ended, and its `std::thread` is not joinable any more.
unfoldable pub join : Thread → Result Thread
join t = do assert t.started; assert t.joinable; ok (record t { joined = true; joinable = false })

-- The destructor, with that of `std::thread`, which stops the program if it is joinable.
pub destroy : Thread → Result (Unit {0})
destroy t =
    let left = if t.started && not t.joined then false else t.joinable in
    if left then fault aborted else ok tt
