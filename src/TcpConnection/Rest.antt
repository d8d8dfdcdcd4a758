-- ===== src/TcpConnection/Rest.antt =====
-- net/TcpConnection.cpp, the end of `sendInLoop`: what was not written goes to the output buffer.
use easy_event.Base.{
  or_true, ℕ, ◌+◌, ◌-◌, ◌<◌, ◌≤◌, ◌≡◌, ◌≢◌, refl, ap, sym, ◌∙◌, true, ◌==◌, List, [], ◌++◌, ok,
  Bool-cases, inl, inr, eq→==, length, take, drop, length-append, length-drop, take-length,
  sub_size, sub_size_lem, max_size, arith,
}
use easy_event.Buffer.Contents.{contents, count}
use easy_event.Buffer.Grow.{Appends, append-contents}
use easy_event.Channel.{Channel, is_writing, with_writing}
use easy_event.Poller.{enable_writing}
use easy_event.TcpConnection.{TcpConnection, channel_of, keep_rest}
use easy_event.TcpConnection.Sound.{IsSound, writing-Keeps, change_events-asked}

-- What was sent and what is still to be sent, together.
abbrev pub stream : TcpConnection → List ℕ
stream c = c.wire ++ contents c.output_buffer

-- Neither the state nor the writing end has changed.
abbrev pub Steady : TcpConnection → TcpConnection → Type 0
Steady c c' = (c'.state ≡ c.state) × (c'.write_shut ≡ c.write_shut)

-- Wherever the direct write stops, `append` has room for the rest of the message.
abbrev pub HasRoom : List ℕ → TcpConnection → Type 0
HasRoom message c =
    (count c.output_buffer + length message ≤ max_size)
    × ((k : ℕ) → k < length message → Appends (length message - k) c.output_buffer)

pub append-longer : (xs ys : List ℕ) → 0 < length ys → xs ++ ys ≢ []
append-longer xs ys h e =
    absurd (omega (arith, length-append xs ys, ap (λ (l : List ℕ). length l) e))

take-rest : (k : ℕ) (xs : List ℕ) → take (length xs - k) (drop k xs) ≡ drop k xs
take-rest k xs = ap (λ m. take m (drop k xs)) (sym (length-drop k xs)) ∙ take-length (drop k xs)

pub inside :
    (current n : ℕ) (c : TcpConnection) → IsSound current n c → (c.loop.thread_id == current) ≡ true
inside current n c s = eq→== c.loop.thread_id current s.here

-- What is left of the message after `k` bytes goes behind the content of the output buffer.
pub keep_rest-keeps :
    (current n k : ℕ) (message : List ℕ) (c : TcpConnection)
    → IsSound current n c
    → HasRoom message c
    → k < length message
    → (c' : TcpConnection) × (keep_rest current message k c ≡ ok c')
      × (c'.wire ≡ c.wire)
      × (contents c'.output_buffer ≡ contents c.output_buffer ++ drop k message)
      × Steady c c'
      × IsSound current n c'
unfolding keep_rest enable_writing
keep_rest-keeps current n k message c s room short =
    let (out, did, v, grown, _) =
      append-contents (drop k message) (length message - k) c.output_buffer s.valid
        (omega (arith, length-drop k message)) (omega (arith, room.0)) (room.1 k short) in
    let holds : contents out ≡ contents c.output_buffer ++ drop k message =
      grown ∙ ap (λ (xs : List ℕ). contents c.output_buffer ++ xs) (take-rest k message) in
    let some_left : contents out ≢ [] = λ e.
      append-longer (contents c.output_buffer) (drop k message)
        (omega (arith, length-drop k message, short)) (sym holds ∙ e) in
    let rest : sub_size (length message) k ≡ length message - k =
      sub_size_lem (length message) k (omega arith) (omega (arith, room.0)) in
    elim (Bool-cases (is_writing (channel_of c))) [
      | inl writing ↦ (
        record c { output_buffer = out },
        rw (rest, did, writing),
        refl,
        holds,
        (refl, refl),
        record {
          here = s.here;
          valid = v;
          wired = s.wired;
          known = s.known;
          mine = s.mine;
          idle = λ e. absurd (some_left e);
          busy = λ _. writing;
        },
      )
      | inr not_writing ↦
          let (p, asked, w, known, mine, now) =
            change_events-asked with_writing writing-Keeps c.channel n c.poller s.wired s.known
              s.mine in
          let writes : is_writing (p.channels c.channel) ≡ true =
            ap (λ (ch : Channel). is_writing ch) now ∙ or_true (channel_of c).events.pollout in
          (
            record c { output_buffer = out; poller = p },
            rw (rest, did, not_writing, inside current n c s, asked),
            refl,
            holds,
            (refl, refl),
            record {
              here = s.here;
              valid = v;
              wired = w;
              known = known;
              mine = mine;
              idle = λ e. absurd (some_left e);
              busy = λ _. writes;
            },
          )
    ]
