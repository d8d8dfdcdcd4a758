-- ===== src/Channel/Dispatch.antt =====
-- net/Channel.cpp, `handleEvent`: which callbacks an event calls, and in which order.
use easy_event.Base.{
  some, ◌≡◌, refl, ap, ◌∙◌, Bool, true, false, not, ◌&&◌, ◌||◌, List, [], ◌∷◌, Result, ok, fault,
  ◌>>=◌,
}
use easy_event.Channel.{
  write_event, hang_up, readable, Channel, Events, Callbacks, handle_event, call_if, at_time,
}

pub data Callback : Type 0 where
  on_close on_error on_read on_write : Callback

abbrev pub when : Bool → Callback → List Callback → List Callback
when true c cs = c ∷ cs
when false c cs = cs

-- The callbacks that are due for `revents`, in order: the peer hung up and nothing is left to read;
-- an error; something to read; room to write.
abbrev pub due : Events → List Callback
due r = when (r.pollhup && not r.pollin) on_close (
    when (r.pollerr || r.pollnval) on_error
      (when (r.pollin || r.pollpri || r.pollrdhup) on_read (when r.pollout on_write [])))

module _ {T W : Type 0} (cb : Callbacks T W) (t : T) where
  -- One callback, which does nothing if it was never set.
  abbrev pub invoke : Callback → W → Result W
  invoke on_close w = call_if true cb.close_callback w
  invoke on_error w = call_if true cb.error_callback w
  invoke on_read w = call_if true (at_time cb.read_callback t) w
  invoke on_write w = call_if true cb.write_callback w

  -- Callbacks one after another, until one stops the program.
  pub invoke_all : List Callback → W → Result W
  invoke_all [] w = ok w
  invoke_all (c ∷ cs) w = invoke c w >>= invoke_all cs

-- No callback changes what poll(2) reported for the channel.
abbrev pub LeavesRevents : {T W : Type 0} → (W → Channel) → Callbacks T W → T → Type 0
LeavesRevents {W} channel cb t =
    (c : Callback) (w w' : W) → invoke cb t c w ≡ ok w' → (channel w').revents ≡ (channel w).revents

-- Two ways to go on after `m` that agree on what it returns.
go_on :
    {W : Type 0} (m : Result W) (k l : W → Result W)
    → ((w : W) → m ≡ ok w → k w ≡ l w)
    → (m >>= k) ≡ (m >>= l)
go_on (fault why) k l h = refl
go_on (ok w) k l h = h w refl

regroup :
    {W : Type 0} (m : Result W) (k l : W → Result W) → (m >>= λ w. k w >>= l) ≡ ((m >>= k) >>= l)
regroup (fault why) k l = refl
regroup (ok w) k l = refl

module _ {T W : Type 0} (channel : W → Channel) (cb : Callbacks T W) (t : T) (end : W → Result W)
    (leaves : LeavesRevents channel cb t) (r : Events) where
  -- `k` goes on as the callbacks `cs` do, wherever `revents` is `r`.
  abbrev GoesOn : List Callback → (W → Result W) → Type 0
  GoesOn cs k = (w : W) → (channel w).revents ≡ r → k w ≡ (invoke_all cb t cs w >>= end)

  -- One test with its callback in front.
  stage :
      (test : Events → Bool) (c : Callback) (cs : List Callback) (call : Bool → W → Result W)
      (k : W → Result W)
      → ((w : W) → call true w ≡ invoke cb t c w)
      → ((w : W) → call false w ≡ ok w)
      → GoesOn cs k
      → GoesOn (when (test r) c cs) (λ w. call (test (channel w).revents) w >>= k)
  unfolding invoke_all
  stage test c cs call k called skipped next w h =
      ap (λ (x : Events). call (test x) w >>= k) h ∙ by_test (test r)
    where
      by_test : (b : Bool) → (call b w >>= k) ≡ (invoke_all cb t (when b c cs) w >>= end)
      by_test true =
          ap (λ (m : Result W). m >>= k) (called w)
          ∙ go_on (invoke cb t c w) k (λ w'. invoke_all cb t cs w' >>= end)
              (λ w' e. next w' (leaves c w w' e ∙ h))
          ∙ regroup (invoke cb t c w) (invoke_all cb t cs) end
      by_test false = ap (λ (m : Result W). m >>= k) (skipped w) ∙ next w h

  whole : GoesOn (due r) (λ w₀. do
    w₁ ←
        call_if
          ((channel w₀).revents.pollhup && not (channel w₀).revents.pollin)
          cb.close_callback
          w₀
    w₂ ←
        call_if ((channel w₁).revents.pollerr || (channel w₁).revents.pollnval) cb.error_callback w₁
    w₃ ←
        call_if
          ((channel w₂).revents.pollin
            || (channel w₂).revents.pollpri
            || (channel w₂).revents.pollrdhup)
          (at_time cb.read_callback t)
          w₂
    w₄ ← call_if (channel w₃).revents.pollout cb.write_callback w₃
    end w₄)
  unfolding invoke_all
  whole =
      stage (λ x. x.pollhup && not x.pollin) on_close _ (λ b. call_if b cb.close_callback) _
        (λ w. refl) (λ w. refl)
        (stage (λ x. x.pollerr || x.pollnval) on_error _ (λ b. call_if b cb.error_callback) _
          (λ w. refl) (λ w. refl)
          (stage (λ x. x.pollin || x.pollpri || x.pollrdhup) on_read _
            (λ b. call_if b (at_time cb.read_callback t)) _ (λ w. refl) (λ w. refl)
            (stage (λ x. x.pollout) on_write [] (λ b. call_if b cb.write_callback) end (λ w. refl)
              (λ w. refl) (λ w h. refl))))

-- `handleEvent` sets the handling flag, calls exactly the callbacks that are due, in the order of
-- `due`, and clears the flag; if one of them stops the program, nothing after it is called. This is
-- for callbacks that leave the channel's `revents` alone, as setting the flag does.
pub handle_event-due :
    {T W : Type 0} (channel : W → Channel) (set_handling : Bool → W → W) (cb : Callbacks T W)
    (t : T) (w : W)
    → LeavesRevents channel cb t
    → (channel (set_handling true w)).revents ≡ (channel w).revents
    → handle_event channel set_handling cb t w ≡ (
        invoke_all cb t (due (channel w).revents) (set_handling true w) >>= λ w'.
        ok (set_handling false w'))
unfolding handle_event
handle_event-due channel set_handling cb t w leaves flag =
    whole channel cb t (λ w'. ok (set_handling false w')) leaves (channel w).revents
      (set_handling true w) flag

-- A channel on which only room to write was reported: its write callback alone is called.
pub handle_event-writable :
    {T W : Type 0} (channel : W → Channel) (set_handling : Bool → W → W) (cb : Callbacks T W)
    (t : T) (callback : W → Result W) (w : W)
    → cb.write_callback ≡ some callback
    → (channel (set_handling true w)).revents ≡ write_event
    → handle_event channel set_handling cb t w
      ≡ (callback (set_handling true w) >>= λ w'. ok (set_handling false w'))
unfolding handle_event
handle_event-writable channel set_handling cb t callback w set r = rw (r, r, r, r, set)

-- A channel on which only a hang-up was reported: its close callback alone is called, if that leaves
-- `revents` as it is.
pub handle_event-hung_up :
    {T W : Type 0} (channel : W → Channel) (set_handling : Bool → W → W) (cb : Callbacks T W)
    (t : T) (callback : W → Result W) (w w' : W)
    → cb.close_callback ≡ some callback
    → (channel (set_handling true w)).revents ≡ hang_up
    → callback (set_handling true w) ≡ ok w'
    → (channel w').revents ≡ hang_up
    → handle_event channel set_handling cb t w ≡ ok (set_handling false w')
unfolding handle_event
handle_event-hung_up channel set_handling cb t callback w w' set r did r' =
    rw (r, set, did, r', r', r')

-- A channel on which only something to read was reported: its read callback alone is called, likewise.
pub handle_event-readable :
    {T W : Type 0} (channel : W → Channel) (set_handling : Bool → W → W) (cb : Callbacks T W)
    (t : T) (callback : T → W → Result W) (w w' : W)
    → cb.read_callback ≡ some callback
    → (channel (set_handling true w)).revents ≡ readable
    → callback t (set_handling true w) ≡ ok w'
    → (channel w').revents ≡ readable
    → handle_event channel set_handling cb t w ≡ ok (set_handling false w')
unfolding handle_event
handle_event-readable channel set_handling cb t callback w w' set r did r' =
    rw (r, r, r, set, did, r')
