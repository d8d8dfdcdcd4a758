-- ===== src/Channel/Frame.antt =====
-- net/Channel.cpp, `handleEvent`: what all callbacks leave alone, it leaves alone.
use easy_event.Base.{
  not, ◌&&◌, ◌||◌, Bool, true, false, Result, ok, ◌>>=◌, Ensures, Ensures-bind, Ensures-result,
  Ensures-weaken,
}
use easy_event.Channel.{Channel, Events, Callbacks, handle_event, call_if, at_time}
use easy_event.Channel.Dispatch.{Callback, on_close, on_error, on_read, on_write, invoke}

module _ {W : Type 0} (R : W → W → Type 0) (stays : (w : W) → R w w)
    (goes_on : (u v w : W) → R u v → R v w → R u w) where
  -- One step after another.
  pub Ensures-then :
      (w : W) (m : Result W) (k : W → Result W)
      → Ensures (R w) m
      → ((v : W) → Ensures (R v) (k v))
      → Ensures (R w) (m >>= k)
  Ensures-then w m k h next =
      Ensures-bind (R w) m k h (λ v r. Ensures-weaken (λ x. goes_on w v x r) (next v))

  skip_or :
      (b : Bool) (call : Bool → W → Result W) (w : W)
      → ((v : W) → Ensures (R v) (call true v))
      → ((v : W) → Ensures (R v) (call false v))
      → Ensures (R w) (call b w)
  skip_or true call w h k = h w
  skip_or false call w h k = k w

  -- `handleEvent` relates what it is called with and what it returns, if every callback does, and
  -- setting the flag.
  pub handle_event-Ensures :
      {T : Type 0} (channel : W → Channel) (set_handling : Bool → W → W) (cb : Callbacks T W)
      (t : T)
      → ((b : Bool) (w : W) → R w (set_handling b w))
      → ((c : Callback) (w : W) → Ensures (R w) (invoke cb t c w))
      → (w : W) → Ensures (R w) (handle_event channel set_handling cb t w)
  unfolding handle_event
  handle_event-Ensures channel set_handling cb t flag calls w =
      let r : W → Events = λ v. (channel v).revents in
      let w₀ : W = set_handling true w in
      let skips : (v : W) → Ensures (R v) (ok v) = λ v. Ensures-result v (stays v) in
      Ensures-weaken (λ x. goes_on w w₀ x (flag true w))
        (Ensures-then w₀ _ _
          (skip_or ((r w₀).pollhup && not (r w₀).pollin) (λ b. call_if b cb.close_callback) w₀
            (calls on_close) skips)
          λ w₁.
            Ensures-then w₁ _ _
              (skip_or ((r w₁).pollerr || (r w₁).pollnval) (λ b. call_if b cb.error_callback) w₁
                (calls on_error) skips)
              λ w₂.
                Ensures-then w₂ _ _
                  (skip_or ((r w₂).pollin || (r w₂).pollpri || (r w₂).pollrdhup)
                    (λ b. call_if b (at_time cb.read_callback t)) w₂ (calls on_read) skips)
                  λ w₃.
                    Ensures-then w₃ _ _
                      (skip_or (r w₃).pollout (λ b. call_if b cb.write_callback) w₃ (calls on_write)
                        skips)
                      λ w₄. Ensures-result (set_handling false w₄) (flag false w₄))
