-- ===== src/EventLoop/Cycle.antt =====
-- net/EventLoop.cpp, `startLoop` and `quitLoop`: when the loop ends.
use easy_event.Base.{
  bind-ok, ok-injective, ℕ, zero, suc, ◌<◌, ◌≡◌, ◌↔◌, sym, ap, ◌∙◌, subst, true, false, List,
  Option, Result, ok, ◌>>=◌, arith, Bool-cases, inl, inr, eq→==,
}
use easy_event.EventLoop.{EventLoop, quit_loop, turn, while_running, start_loop}

module _ {F W : Type 0} (loop : W → EventLoop F) (set_loop : EventLoop F → W → W)
    (run : F → W → Result W) (poll : W → Result (List ℕ × W))
    (handle_event : ℕ → W → Result W) where
  -- So many turns, each begun while `_quit` is not set, after the last of which it is.
  pub data Turns : ℕ → W → W → Type 0 where
    over : (w : W) → (loop w).quit ≡ true → Turns 0 w w
    once :
        {k : ℕ} {w' : W} (w w₁ : W)
        → (loop w).quit ≡ false
        → turn loop set_loop run poll handle_event w ≡ ok w₁
        → Turns k w₁ w'
        → Turns (suc k) w w'

  Turns→while_running :
      (fuel k : ℕ) (w w' : W)
      → Turns k w w'
      → k < fuel
      → while_running loop set_loop run poll handle_event fuel w ≡ ok w'
  unfolding while_running
  Turns→while_running zero k w w' ts h = absurd (omega arith)
  Turns→while_running (suc fuel) _ w w' (over _ e) h = rw e
  Turns→while_running (suc fuel) (suc k) w w' (once _ w₁ e did ts) h =
      rw (e, did) (Turns→while_running fuel k w₁ w' ts (omega arith))

  while_running→Turns :
      (fuel : ℕ) (w w' : W)
      → while_running loop set_loop run poll handle_event fuel w ≡ ok w'
      → (k : ℕ) × (k < fuel) × Turns k w w'
  unfolding while_running
  while_running→Turns zero w w' e = absurd (cc)
  while_running→Turns (suc fuel) w w' e = elim (Bool-cases (loop w).quit) [
    | inl quits ↦ (
      0,
      omega arith,
      subst (λ v. Turns 0 w v) (ok-injective w w' (rw quits at e)) (over w quits),
    )
    | inr going ↦
        let (w₁, did, rest) =
          bind-ok (turn loop set_loop run poll handle_event w)
            (while_running loop set_loop run poll handle_event fuel) w' (rw going at e) in
        let (k, few, ts) = while_running→Turns fuel w₁ w' rest in
        (suc k, omega (arith, few), once w w₁ going did ts)
  ]

  abbrev pub started : W → W
  started w = set_loop (record (loop w) { looping = true; quit = false }) w

  abbrev pub stopped : W → W
  stopped w = set_loop (record (loop w) { looping = false }) w

  -- `startLoop` of a loop that is not running, in its thread: it returns exactly if there is a last
  -- turn, after which `_quit` is set for the first time; what it returns is the state then, no longer
  -- marked as looping. More fuel than turns is enough, and less gives no result.
  pub start_loop_iff :
      (fuel current : ℕ) (w w' : W)
      → (loop w).looping ≡ false
      → (loop w).thread_id ≡ current
      → (start_loop loop set_loop run poll handle_event fuel current w ≡ ok w')
        ↔ ((k : ℕ) × (done : W) × (k < fuel) × Turns k (started w) done × (w' ≡ stopped done))
  unfolding start_loop
  start_loop_iff fuel current w w' fresh here =
      let begins : start_loop loop set_loop run poll handle_event fuel current w ≡ (
          while_running loop set_loop run poll handle_event fuel (started w) >>= λ done.
          ok (stopped done)) =
        rw (fresh, eq→== (loop w).thread_id current here) in
      (
        λ e.
            let (done, did, end) =
              bind-ok (while_running loop set_loop run poll handle_event fuel (started w))
                (λ done. ok (stopped done)) w' (sym begins ∙ e) in
            let (k, few, ts) = while_running→Turns fuel (started w) done did in
            (k, done, few, ts, sym (ok-injective (stopped done) w' end)),
        λ (k, done, few, ts, end).
            begins ∙ rw (Turns→while_running fuel k (started w) done ts few) (ap ok (sym end)),
      )

  -- A loop that its own thread tells to quit before `startLoop` starts all the same: `startLoop` does
  -- what it does without the `quitLoop`, whatever the eventfd does.
  pub start_loop-forgets_quit :
      (eventfd_write : ℕ → Option ℕ) (fuel current : ℕ) (w : W)
      → ((l : EventLoop F) (v : W) → loop (set_loop l v) ≡ l)
      → ((l m : EventLoop F) (v : W) → set_loop m (set_loop l v) ≡ set_loop m v)
      → (loop w).looping ≡ false
      → (loop w).thread_id ≡ current
      → (quit_loop eventfd_write current (loop w) >>= λ l.
          start_loop loop set_loop run poll handle_event fuel current (set_loop l w))
        ≡ start_loop loop set_loop run poll handle_event fuel current w
  unfolding start_loop quit_loop
  start_loop-forgets_quit eventfd_write fuel current w get_set set_set fresh here =
      let told : EventLoop F = record (loop w) { quit = true } in
      rw (
        eq→== (loop w).thread_id current here,
        get_set told w,
        set_set told (record (loop w) { looping = true; quit = false }) w,
        fresh,
        eq→== (loop w).thread_id current here,
      )
