-- ===== src/TcpConnection/Stream.antt =====
-- net/TcpConnection.cpp, `sendInLoop`: the peer gets the bytes that were sent, in their order; what it
-- has not got yet is in the output buffer.
use easy_event.Base.{
  ℕ, ◌≤◌, ◌≡◌, refl, ap, sym, ◌∙◌, false, List, [], ◌++◌, ok, Bool-cases, inl, inr, eq→==, length,
  take, drop, arith, lt→ltb, le→ltb_false, append_assoc, append-nil, le_or_lt, nil_of_length,
  take_all, take-append-drop, false≢true, ap₂,
}
use easy_event.Buffer.{readable_bytes, WriteOutcome, wrote, write_error}
use easy_event.Buffer.Contents.{contents, counts_lem}
use easy_event.Channel.{is_writing}
use easy_event.EventLoop.{EventLoop}
use easy_event.TcpConnection.{
  TcpConnection, Functor, Os, Callbacks, channel_of, write_now, send_in_loop,
}
use easy_event.TcpConnection.Sound.{IsSound, Wakes, queue_write_complete-ok}
use easy_event.TcpConnection.Rest.{stream, Steady, HasRoom, append-longer, inside, keep_rest-keeps}

-- How write(2) answers for `len` bytes: it takes some of them, or would have to wait.
abbrev pub Answered : ℕ → ℕ → WriteOutcome → Type 0
Answered ewouldblock len (wrote k) = k ≤ len
Answered ewouldblock len (write_error errno) = errno ≡ ewouldblock

-- The same connection with its socket and its loop further on.
IsSound-moved :
    (current n : ℕ) (c : TcpConnection) (wire : List ℕ) (l : EventLoop Functor)
    → l.thread_id ≡ c.loop.thread_id
    → IsSound current n c
    → IsSound current n (record c { wire = wire; loop = l })
IsSound-moved current n c wire l same s = record {
  here = same ∙ s.here;
  valid = s.valid;
  wired = s.wired;
  known = s.known;
  mine = s.mine;
  idle = s.idle;
  busy = s.busy;
}

-- The direct write takes a first part of the message, and queues at most the callback.
write_now-takes :
    {T : Type 0} (os : Os) (cb : Callbacks T)
    → Wakes os
    → (current : ℕ) (message : List ℕ) (c : TcpConnection) (o : WriteOutcome) → os.write message ≡ o
    → Answered os.ewouldblock (length message) o
    → (k : ℕ) × (wire : List ℕ) × (l : EventLoop Functor) × (write_now os cb current message c
        ≡ ok (k, record c { wire = wire; loop = l }))
      × (wire ≡ c.wire ++ take k message)
      × (l.thread_id ≡ c.loop.thread_id)
unfolding write_now
write_now-takes os cb wakes current message c (wrote k) e within =
    elim (le_or_lt (length message) k) [
      | inl whole ↦
          let (l, did, same) =
            queue_write_complete-ok os cb wakes current
              (record c { wire = c.wire ++ take k message }) in
          (
            k,
            c.wire ++ take k message,
            l,
            rw (write_now, e, le→ltb_false k (length message) whole, did),
            refl,
            same,
          )
      | inr part ↦ (
        k,
        c.wire ++ take k message,
        c.loop,
        rw (write_now, e, lt→ltb k (length message) part),
        refl,
        refl,
      )
    ]
write_now-takes os cb wakes current message c (write_error errno) e waits = (
  0,
  c.wire,
  c.loop,
  rw (write_now, e, eq→== errno os.ewouldblock waits),
  sym (append-nil c.wire),
  refl,
)

not_writing→empty :
    (current n : ℕ) (c : TcpConnection)
    → IsSound current n c
    → is_writing (channel_of c) ≡ false
    → contents c.output_buffer ≡ []
not_writing→empty current n c s off = elim (le_or_lt (length (contents c.output_buffer)) 0) [
  | inl none_left ↦ nil_of_length (contents c.output_buffer) (omega arith)
  | inr left ↦
      absurd (false≢true (sym off ∙ s.busy (append-longer [] (contents c.output_buffer) left)))
]

pieces : (w b m : List ℕ) (k : ℕ) → b ≡ [] → (w ++ take k m) ++ (b ++ drop k m) ≡ (w ++ b) ++ m
pieces w b m k none_left =
    rw (none_left, append-nil w)
      (append_assoc w (take k m) (drop k m) ∙ ap (λ (xs : List ℕ). w ++ xs) (take-append-drop k m))

all_sent : (w b m w' : List ℕ) → b ≡ [] → w' ≡ w ++ m → w' ++ b ≡ (w ++ b) ++ m
all_sent w b m w' none_left sent = rw (none_left, append-nil w, append-nil w') sent

-- `sendInLoop` in the loop's thread, for a sound connection whose output buffer has room wherever
-- the write stops, and whose eventfd takes every write, when write(2) takes a part of the message or would have to wait: no assertion
-- fails, the message comes last in what was sent and what is still to be sent, together, the state and
-- the writing end stay as they were, and the connection stays sound: its channel waits for POLLOUT
-- exactly while something is left.
pub send_in_loop-stream :
    {T : Type 0} (os : Os) (cb : Callbacks T) (current n : ℕ) (message : List ℕ) (c : TcpConnection)
    → Wakes os
    → Answered os.ewouldblock (length message) (os.write message)
    → IsSound current n c
    → HasRoom message c
    → (c' : TcpConnection) × (send_in_loop os cb current message c ≡ ok c')
      × (stream c' ≡ stream c ++ message)
      × Steady c c'
      × IsSound current n c'
unfolding send_in_loop
send_in_loop-stream os cb current n message c wakes answer s room =
    elim (Bool-cases (is_writing (channel_of c))) [
      | inl writing ↦ elim (le_or_lt (length message) 0) [
        | inl nothing ↦ (
          c,
          rw (inside current n c s, writing, le→ltb_false 0 (length message) nothing),
          sym (append-nil (stream c))
              ∙ ap (λ (xs : List ℕ). stream c ++ xs) (sym (nil_of_length message (omega arith))),
          (refl, refl),
          s,
        )
        | inr something ↦
            let (c', did, wire, left, steady, s') =
              keep_rest-keeps current n 0 message c s room something in
            (
              c',
              rw (inside current n c s, writing, lt→ltb 0 (length message) something) did,
              ap₂ (λ (w b : List ℕ). w ++ b) wire left
                  ∙ sym (append_assoc c.wire (contents c.output_buffer) message),
              steady,
              s',
            )
      ]
      | inr off ↦
          let empty : contents c.output_buffer ≡ [] = not_writing→empty current n c s off in
          let (k, wire, l, did, w, same) =
            write_now-takes os cb wakes current message c (os.write message) refl answer in
          let c₁ : TcpConnection = record c { wire = wire; loop = l } in
          let s₁ : IsSound current n c₁ = IsSound-moved current n c wire l same s in
          let unread : readable_bytes c.output_buffer ≡ 0 =
            (counts_lem c.output_buffer s.valid).0 ∙ ap (λ (xs : List ℕ). length xs) empty in
          elim (le_or_lt (length message) k) [
            | inl whole ↦ (
              c₁,
              rw (inside current n c s, off, unread, did, le→ltb_false k (length message) whole),
              all_sent c.wire (contents c.output_buffer) message wire empty
                  (w ∙ ap (λ (xs : List ℕ). c.wire ++ xs) (take_all k message whole)),
              (refl, refl),
              s₁,
            )
            | inr part ↦
                let (c', kept, wire', left, steady, s') =
                  keep_rest-keeps current n k message c₁ s₁ room part in
                (
                  c',
                  rw (inside current n c s, off, unread, did, lt→ltb k (length message) part) kept,
                  ap₂ (λ (x b : List ℕ). x ++ b) (wire' ∙ w) left
                      ∙ pieces c.wire (contents c.output_buffer) message k empty,
                  steady,
                  s',
                )
          ]
    ]
