-- ===== src/EventLoopThreadPool/Turns.antt =====
-- net/EventLoopThreadPool.cpp: the loops take turns.
use native.Mathlib.Nat.{mod-eq_of_lt, mod-eq-sub-mod}
use easy_event.Base.{
  ◌⊎◌, ℕ, zero, suc, ◌+◌, ◌%◌, ◌<◌, ◌≡◌, refl, sym, ap, ap₂, ◌∙◌, true, false, List, [], ◌∷◌, some,
  arith, length, get_elem?, get_elem?_of_lt, pos, ok, Result, ◌>>=◌, le→leb, leb, lt→leb_false,
  le_or_lt, inl, inr, if◌then◌else◌,
}
use easy_event.EventLoopThreadPool.{
  EventLoopThreadPool, new_pool, set_thread_num, start_loops, start, loop_at, get_next_loop, is_nil,
}

-- What so many calls of `getNextLoop` return, in the loop's thread.
pub take_turns : ℕ → EventLoopThreadPool → Result (List ℕ × EventLoopThreadPool)
take_turns zero s = ok ([], s)
take_turns (suc k) s = do
  (loop, s₁) ← get_next_loop true s
  (rest, s₂) ← take_turns k s₁
  ok (loop ∷ rest, s₂)

-- The turn after `i` of `n`.
abbrev turn_after : ℕ → ℕ → ℕ
turn_after n i = if leb n (i + 1) then 0 else i + 1

turn_after-mod : (n i j : ℕ) → i < n → (turn_after n i + j) % n ≡ (i + suc j) % n
turn_after-mod n i j h = elim (le_or_lt n (i + 1)) [
  | inl last ↦
      rw (le→leb n (i + 1) last)
        (sym (mod-eq-sub-mod {n = i + suc j} {m = n} (omega arith) ∙ ap (λ k. k % n) (omega arith)))
  | inr before ↦ rw (lt→leb_false n (i + 1) before) (ap (λ k. k % n) (omega arith))
]

is_nil-not : (xs : List ℕ) (i x : ℕ) → get_elem? xs i ≡ some x → is_nil xs ≡ false
is_nil-not [] i x e = absurd (ground arith)
is_nil-not (y ∷ ys) i x e = refl

loop_at-ok :
    (loops : List ℕ) (i loop : ℕ) → get_elem? loops i ≡ some loop → loop_at loops i ≡ ok loop
unfolding loop_at
loop_at-ok loops i loop e = rw (loop_at, e)

get_next_loop-turn :
    (s : EventLoopThreadPool) (loop : ℕ)
    → get_elem? s.loops s.next ≡ some loop
    → get_next_loop true s ≡ ok (loop, record s { next = turn_after (length s.loops) s.next })
unfolding get_next_loop
get_next_loop-turn s loop e =
    rw (is_nil-not s.loops s.next loop e, loop_at-ok s.loops s.next loop e)

turn_after-lt : (n i : ℕ) → i < n → turn_after n i < n
turn_after-lt n i h = ground arith

-- One call before others.
turns_cons :
    (loop : ℕ) (rest loops : List ℕ) (k next : ℕ)
    → next < length loops
    → get_elem? loops next ≡ some loop
    → ((i : ℕ)
        → i < k
        → get_elem? rest i ≡ get_elem? loops ((turn_after (length loops) next + i) % length loops))
    → (i : ℕ) → i < suc k
    → get_elem? (loop ∷ rest) i ≡ get_elem? loops ((next + i) % length loops)
turns_cons loop rest loops k next h at turns zero inside =
    let first : next ≡ (next + 0) % length loops =
      omega (arith, mod-eq_of_lt {n = next + 0} {m = length loops} (omega arith)) in
    sym at ∙ ap (get_elem? loops) first
turns_cons loop rest loops k next h at turns (suc i) inside =
    turns i (omega arith) ∙ ap (get_elem? loops) (turn_after-mod (length loops) next i h)

-- With loops of its own and the next one among them, the pool serves every call of `getNextLoop`,
-- and the calls go through the loops in turn, from the next one on and round the end.
pub take_turns-round :
    (k : ℕ) (s : EventLoopThreadPool)
    → s.next < length s.loops
    → (given : List ℕ) × (s' : EventLoopThreadPool) × (take_turns k s ≡ ok (given, s'))
      × (length given ≡ k)
      × ((i : ℕ) → i < k → get_elem? given i ≡ get_elem? s.loops ((s.next + i) % length s.loops))
unfolding take_turns
take_turns-round zero s h = ([], s, refl, refl, λ i none_left. absurd (omega arith))
take_turns-round (suc k) s h =
    let (loop, at) = get_elem?_of_lt s.loops s.next h in
    let s₁ : EventLoopThreadPool = record s { next = turn_after (length s.loops) s.next } in
    let (rest, s', did, size, turns) =
      take_turns-round k s₁ (turn_after-lt (length s.loops) s.next h) in
    (
      loop ∷ rest,
      s',
      rw (get_next_loop-turn s loop at, did),
      omega arith,
      turns_cons loop rest s.loops k s.next h at turns,
    )

length-start_loops : (start_loop : ℕ → ℕ) (i n : ℕ) → length (start_loops start_loop i n) ≡ n
unfolding start_loops
length-start_loops start_loop i zero = refl
length-start_loops start_loop i (suc n) = omega (arith, length-start_loops start_loop (suc i) n)

get_elem?-start_loops :
    (start_loop : ℕ → ℕ) (i n j : ℕ)
    → j < n
    → get_elem? (start_loops start_loop i n) j ≡ some (start_loop (i + j))
unfolding start_loops
get_elem?-start_loops start_loop i zero j h = absurd (omega arith)
get_elem?-start_loops start_loop i (suc n) zero h = ap (λ m. some (start_loop m)) (omega arith)
get_elem?-start_loops start_loop i (suc n) (suc j) h =
    get_elem?-start_loops start_loop (suc i) n j (omega arith)
    ∙ ap (λ m. some (start_loop m)) (omega arith)

-- A pool for `n` threads, `n` not zero, that is started in the base loop's thread: the calls of
-- `getNextLoop` that follow are served with the loops of the threads 0, 1, ..., n - 1 in turn.
pub start-round :
    (start_loop : ℕ → ℕ) (base n k : ℕ)
    → 0 < n
    → (given : List ℕ) × (s' : EventLoopThreadPool) × ((start start_loop true
            (set_thread_num (pos n) (new_pool base))
          >>= take_turns k)
        ≡ ok (given, s'))
      × ((i : ℕ) → i < k → get_elem? given i ≡ some (start_loop (i % n)))
unfolding start
start-round start_loop base n k h =
    let s : EventLoopThreadPool = record (set_thread_num (pos n) (new_pool base)) {
      started = true;
      loops = start_loops start_loop 0 n;
    } in
    let size : length s.loops ≡ n = length-start_loops start_loop 0 n in
    let (given, s', did, _, turns) = take_turns-round k s (omega (arith, size)) in
    (
      given,
      s',
      did,
      λ i inside.
          turns i inside
          ∙ ap₂ (λ a b. get_elem? s.loops (a % b)) (omega arith) size
          ∙ get_elem?-start_loops start_loop 0 n (i % n) (omega arith)
          ∙ ap (λ m. some (start_loop m)) (omega arith),
    )

-- Without loops of its own the pool serves a call with the base loop.
pub get_next_loop-base :
    (s : EventLoopThreadPool) → s.loops ≡ [] → get_next_loop true s ≡ ok (s.base_loop, s)
unfolding get_next_loop
get_next_loop-base s none_own = rw none_own

-- A pool whose next loop, if it has loops of its own, is one of them.
abbrev pub Serves : EventLoopThreadPool → Type 0
Serves s = (s.loops ≡ []) ⊎ (s.next < length s.loops)

pub get_next_loop-Serves :
    (s : EventLoopThreadPool)
    → Serves s
    → (loop : ℕ) × (s' : EventLoopThreadPool) × (get_next_loop true s ≡ ok (loop, s')) × Serves s'
get_next_loop-Serves s (inl none_own) =
    (s.base_loop, s, get_next_loop-base s none_own, inl none_own)
get_next_loop-Serves s (inr h) =
    let (loop, at) = get_elem?_of_lt s.loops s.next h in
    (
      loop,
      record s { next = turn_after (length s.loops) s.next },
      get_next_loop-turn s loop at,
      inr (turn_after-lt (length s.loops) s.next h),
    )
