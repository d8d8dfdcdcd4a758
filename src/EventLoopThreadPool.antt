-- ===== src/EventLoopThreadPool.antt =====
-- net/EventLoopThreadPool.h and net/EventLoopThreadPool.cpp: the loops among which a server deals
-- out its connections. What `EventLoopThread::startLoop` returns is an argument.
pub mod Turns
mod Tests
use easy_event.Base.{
  ℕ, zero, suc, ◌+◌, Bool, true, false, not, List, [], ◌∷◌, ◌++◌, Option, none, some, leb,
  if◌then◌else◌, length, get_elem?, ℤ, pos, negsuc, Result, ok, fault, ◌>>=◌, ◌>>◌, assert,
  undefined,
}

-- A loop is a number, as every object that is pointed to.
pub record EventLoopThreadPool : Type 0 where
  pub base_loop : ℕ
  pub started : Bool
  pub num_threads : ℤ
  pub next : ℕ
  pub loops : List ℕ

-- The constructor.
abbrev pub new_pool : ℕ → EventLoopThreadPool
new_pool base = record {
  base_loop = base;
  started = false;
  num_threads = pos 0;
  next = 0;
  loops = [];
}

abbrev pub set_thread_num : ℤ → EventLoopThreadPool → EventLoopThreadPool
set_thread_num num s = record s { num_threads = num }

-- How often `for(int i = 0; i < n; ++i)` runs.
abbrev pub to_count : ℤ → ℕ
to_count (pos n) = n
to_count (negsuc n) = 0

-- The loops of `count` threads, of which the first is the thread number `i`.
pub start_loops : (ℕ → ℕ) → ℕ → ℕ → List ℕ
start_loops start_loop i zero = []
start_loops start_loop i (suc count) = start_loop i ∷ start_loops start_loop (suc i) count

pub start : (ℕ → ℕ) → Bool → EventLoopThreadPool → Result EventLoopThreadPool
start start_loop in_loop s = do
  assert (not s.started)
  assert in_loop
  ok (record s {
    started = true;
    loops = s.loops ++ start_loops start_loop 0 (to_count s.num_threads);
  })

-- `_loops[_next++]`, undefined out of range.
pub loop_at : List ℕ → ℕ → Result ℕ
loop_at loops i = elim (get_elem? loops i) [ none ↦ fault undefined | some loop ↦ ok loop ]

abbrev pub is_nil : List ℕ → Bool
is_nil [] = true
is_nil (x ∷ xs) = false

pub get_next_loop : Bool → EventLoopThreadPool → Result (ℕ × EventLoopThreadPool)
get_next_loop in_loop s =
    let turn = do
      loop ← loop_at s.loops s.next
      let next = s.next + 1
      ok (loop, record s { next = if leb (length s.loops) next then 0 else next })
    in do assert in_loop; if is_nil s.loops then ok (s.base_loop, s) else turn
