-- ===== src/TcpConnection/Liveness.antt =====
-- net/TcpConnection.cpp, `handleWrite` as often as the channel waits for POLLOUT.
use easy_event.Base.{
  ℕ, zero, suc, ◌<◌, ◌≤◌, ◌≡◌, ◌≢◌, refl, sym, ap, ◌∙◌, true, false, List, [], ◌++◌, Result, ok,
  ◌>>=◌, length, length-append, le_or_lt, inl, inr, nil_of_length, append-nil, arith, if◌then◌else◌,
}
use easy_event.Buffer.Contents.{contents}
use easy_event.Channel.{is_writing}
use easy_event.TcpConnection.{TcpConnection, Os, Callbacks, channel_of, handle_write}
use easy_event.TcpConnection.Sound.{IsSound, Wakes}
use easy_event.TcpConnection.Rest.{stream}
use easy_event.TcpConnection.Drain.{TakesSome, handle_write-stream}

-- Up to so many calls of `handleWrite`, each while the channel waits for POLLOUT.
pub write_out : {T : Type 0} → Os → Callbacks T → ℕ → ℕ → TcpConnection → Result TcpConnection
write_out os cb current zero c = ok c
write_out os cb current (suc times) c =
    let more = handle_write os cb current c >>= write_out os cb current times in
    if is_writing (channel_of c) then more else ok c

nonempty : (xs : List ℕ) → 0 < length xs → xs ≢ []
nonempty xs h e = absurd (omega (arith, ap (λ (ys : List ℕ). length ys) e))

-- Everything that a sound connection has still to send goes out: if write(2) takes a part each time,
-- shutdown(2) succeeds and the buffer is not full, then at most as many calls of `handleWrite` as there
-- are bytes left empty the output buffer; the peer has got all of it in order, and the channel does not
-- wait for POLLOUT any more.
pub write_out-sends :
    {T : Type 0} (os : Os) (cb : Callbacks T) (current n times : ℕ) (c : TcpConnection)
    → Wakes os
    → TakesSome os
    → os.shutdown_succeeds ≡ true
    → IsSound current n c
    → c.output_buffer.is_full ≡ false
    → length (contents c.output_buffer) ≤ times
    → (c' : TcpConnection) × (write_out os cb current times c ≡ ok c')
      × (contents c'.output_buffer ≡ [])
      × (c'.wire ≡ stream c)
      × (is_writing (channel_of c') ≡ false)
      × IsSound current n c'
unfolding write_out
write_out-sends os cb current n zero c wakes takes shuts s not_full few =
    let empty : contents c.output_buffer ≡ [] =
      nil_of_length (contents c.output_buffer) (omega arith) in
    (c, refl, empty, sym (ap (λ xs. c.wire ++ xs) empty ∙ append-nil c.wire), s.idle empty, s)
write_out-sends os cb current n (suc times) c wakes takes shuts s not_full few =
    elim (le_or_lt (length (contents c.output_buffer)) 0) [
      | inl none_left ↦
          let empty : contents c.output_buffer ≡ [] =
            nil_of_length (contents c.output_buffer) (omega arith) in
          (
            c,
            rw (s.idle empty),
            empty,
            sym (ap (λ xs. c.wire ++ xs) empty ∙ append-nil c.wire),
            s.idle empty,
            s,
          )
      | inr some_left ↦
          let left : contents c.output_buffer ≢ [] =
            nonempty (contents c.output_buffer) some_left in
          let (c₁, did, same, more, room, s₁) =
            handle_write-stream os cb current n c wakes takes shuts s left not_full in
          let fewer : length (contents c₁.output_buffer) ≤ times = omega (
            arith,
            few,
            more,
            ap (λ (xs : List ℕ). length xs) same,
            length-append c.wire (contents c.output_buffer),
            length-append c₁.wire (contents c₁.output_buffer),
          ) in
          let (c', rest, empty, all, off, s') =
            write_out-sends os cb current n times c₁ wakes takes shuts s₁ room fewer in
          (c', rw (s.busy left, did) rest, empty, all ∙ same, off, s')
    ]
