-- ===== src/EventLoopThreadPool/Tests.antt =====
-- Two threads, whose loops are 20 and 21.
use easy_event.Base.{ℕ, ◌+◌, ◌%◌, ◌<◌, ◌≡◌, true, List, some, get_elem?, pos, ok, ◌>>=◌, arith}
use easy_event.EventLoopThreadPool.{EventLoopThreadPool, new_pool, set_thread_num, start}
use easy_event.EventLoopThreadPool.Turns.{take_turns, start-round}

start-round_example :
    (given : List ℕ) × (s' : EventLoopThreadPool) × ((start
          (λ i. 20 + i)
          true
          (set_thread_num (pos 2) (new_pool 3))
        >>= take_turns 3)
      ≡ ok (given, s'))
    × ((i : ℕ) → i < 3 → get_elem? given i ≡ some (20 + i % 2))
start-round_example = start-round (λ i. 20 + i) 3 2 3 (omega arith)
