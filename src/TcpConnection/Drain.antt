-- ===== src/TcpConnection/Drain.antt =====
-- net/TcpConnection.cpp, `handleWrite`: the output buffer goes out to the peer.
use easy_event.Base.{
  and_false, ℕ, ◌<◌, ◌≤◌, ◌≡◌, ◌≢◌, refl, ap, ap₂, sym, ◌∙◌, Bool, true, false, List, [], ◌++◌, ok,
  fault, assertion, Bool-cases, inl, inr, ne→==_false, if◌then◌else◌, length, take, drop,
  length-append, arith, append_assoc, le_or_lt, nil_of_length, take-append-drop, length-take_le,
  take-append_le,
}
use easy_event.Buffer.{Buffer, write_fd, WriteOutcome, wrote, write_error, write_count, minus_one}
use easy_event.Buffer.Contents
use easy_event.Buffer.Contents.{contents, counts_lem, length-contents, count-le}
use easy_event.Buffer.Read.{retrieve-drops, retrieve-refuses, retrieve-not_full}
use easy_event.Buffer.Transfer.{write_fd-prefix}
use easy_event.Channel.{Channel, is_writing, without_writing}
use easy_event.Poller.{disable_writing}
use easy_event.TcpConnection.{
  TcpConnection, Os, Callbacks, channel_of, shut_down_in_loop, drained, write_more, handle_write,
  is_disconnecting,
}
use easy_event.TcpConnection.Sound.{
  IsSound, Wakes, not_writing-Keeps, change_events-asked, queue_write_complete-ok,
}
use easy_event.TcpConnection.Rest.{stream, inside}

-- write(2) takes at least one byte of what it is given, and no more than that.
abbrev pub TakesSome : Os → Type 0
TakesSome os =
    (chunk : List ℕ)
    → 0 < length chunk
    → (k : ℕ) × (os.write chunk ≡ wrote k) × (0 < k) × (k ≤ length chunk)

-- Everything has been sent: the channel stops to wait for POLLOUT, and a connection that is being
-- shut down is shut for writing.
module _ {T : Type 0} (os : Os) (cb : Callbacks T) (wakes : Wakes os) (current n : ℕ)
    (c : TcpConnection) (s : IsSound current n c) (wire : List ℕ) (out : Buffer)
    (v : Contents.IsValid out) (empty : contents out ≡ []) where
  sent : TcpConnection
  sent = record c { wire = wire; output_buffer = out }

  drained-ok :
      os.shutdown_succeeds ≡ true
      → (c' : TcpConnection) × (drained os cb current sent ≡ ok c')
        × (c'.wire ≡ wire)
        × (c'.output_buffer ≡ out)
        × (c'.write_shut ≡ (if is_disconnecting c.state then true else c.write_shut))
        × IsSound current n c'
  unfolding sent drained shut_down_in_loop disable_writing
  drained-ok shuts =
      let (p, asked, w, known, mine, now) =
        change_events-asked without_writing not_writing-Keeps c.channel n c.poller s.wired s.known
          s.mine in
      let off : is_writing (p.channels c.channel) ≡ false =
        ap (λ (ch : Channel). is_writing ch) now ∙ and_false (channel_of c).events.pollout in
      let (l, did, same) =
        queue_write_complete-ok os cb wakes current (record sent { poller = p }) in
      let sound : (shut : Bool)
          → IsSound current n (record sent { poller = p; loop = l; write_shut = shut }) =
        λ shut. record {
          here = same ∙ s.here;
          valid = v;
          wired = w;
          known = known;
          mine = mine;
          idle = λ _. off;
          busy = λ left. absurd (left empty);
        } in
      elim (Bool-cases (is_disconnecting c.state)) [
        | inl leaving ↦ (
          record sent { poller = p; loop = l; write_shut = true },
          rw (
            inside current n c s,
            asked,
            did,
            leaving,
            inside current n (record sent { poller = p; loop = l }) (sound c.write_shut),
            off,
            shuts,
          ),
          refl,
          refl,
          rw leaving,
          sound true,
        )
        | inr staying ↦ (
          record sent { poller = p; loop = l },
          rw (inside current n c s, asked, did, staying),
          refl,
          refl,
          rw staying,
          sound c.write_shut,
        )
      ]

resent :
    (w chunk rest : List ℕ) (k : ℕ)
    → k ≤ length chunk
    → (w ++ take k chunk) ++ drop k (chunk ++ rest) ≡ w ++ (chunk ++ rest)
resent w chunk rest k within =
    append_assoc w (take k chunk) (drop k (chunk ++ rest))
    ∙ ap (λ (xs : List ℕ). w ++ (xs ++ drop k (chunk ++ rest)))
        (sym (take-append_le k chunk rest within))
    ∙ ap (λ (xs : List ℕ). w ++ xs) (take-append-drop k (chunk ++ rest))

longer :
    (w chunk : List ℕ) (k : ℕ) → 0 < k → k ≤ length chunk → length w < length (w ++ take k chunk)
longer w chunk k took within =
    omega (arith, length-append w (take k chunk), length-take_le k chunk within)

-- `handleWrite` in the loop's thread, for a sound connection with something to send whose output
-- buffer is not full, when write(2) takes a part and shutdown(2) succeeds: no assertion fails, what
-- was sent and what is still to be sent stay the same together while more has been sent, and the
-- connection stays sound, so the channel stops to wait for POLLOUT exactly when nothing is left. The
-- buffer does not become full.
pub handle_write-stream :
    {T : Type 0} (os : Os) (cb : Callbacks T) (current n : ℕ) (c : TcpConnection)
    → Wakes os
    → TakesSome os
    → os.shutdown_succeeds ≡ true
    → IsSound current n c
    → contents c.output_buffer ≢ []
    → c.output_buffer.is_full ≡ false
    → (c' : TcpConnection) × (handle_write os cb current c ≡ ok c')
      × (stream c' ≡ stream c)
      × (length c.wire < length c'.wire)
      × (c'.output_buffer.is_full ≡ false)
      × IsSound current n c'
unfolding handle_write write_more sent
handle_write-stream os cb current n c wakes takes shuts s left not_full =
    let (chunk, rest, read, hands, split, some_bytes) =
      write_fd-prefix os.write c.output_buffer s.valid left in
    let (k, e, took, within) = takes chunk some_bytes in
    let inner : k ≤ length (contents c.output_buffer) =
      omega (arith, length-append chunk rest, ap (λ (xs : List ℕ). length xs) split) in
    let (out, did, v, dropped) = retrieve-drops k c.output_buffer s.valid inner (inl not_full) in
    let room : out.is_full ≡ false = retrieve-not_full k c.output_buffer out not_full did in
    let moved : (c.wire ++ take k chunk) ++ contents out ≡ stream c =
      ap (λ (xs : List ℕ). (c.wire ++ take k chunk) ++ xs) (dropped ∙ ap (drop k) split)
      ∙ resent c.wire chunk rest k within
      ∙ ap (λ (xs : List ℕ). c.wire ++ xs) (sym split) in
    let hands_k : write_fd os.write c.output_buffer ≡ ok k =
      hands ∙ ap (λ (o : WriteOutcome). ok (write_count o)) e in
    let more : length c.wire < length (c.wire ++ take k chunk) =
      longer c.wire chunk k took within in
    elim (le_or_lt (length (contents out)) 0) [
      | inl nothing ↦
          let empty : contents out ≡ [] = nil_of_length (contents out) (omega arith) in
          let (c', drains, wire, same, _, sound) =
            drained-ok os cb wakes current n c s (c.wire ++ take k chunk) out v empty shuts in
          (
            c',
            rw
                (
                  inside current n c s,
                  s.busy left,
                  hands_k,
                  read,
                  e,
                  ne→==_false k 0 (λ zero_bytes. absurd (omega arith)),
                  did,
                  (counts_lem out v).0,
                  empty,
                )
                drains,
            ap₂ (λ (w : List ℕ) (b : Buffer). w ++ contents b) wire same ∙ moved,
            omega (arith, more, ap (λ (xs : List ℕ). length xs) wire),
            ap (λ (b : Buffer). b.is_full) same ∙ room,
            sound,
          )
      | inr something ↦ (
        record c { wire = c.wire ++ take k chunk; output_buffer = out },
        rw (
          inside current n c s,
          s.busy left,
          hands_k,
          read,
          e,
          ne→==_false k 0 (λ zero_bytes. absurd (omega arith)),
          did,
          (counts_lem out v).0,
          ne→==_false (length (contents out)) 0 (λ none_left. absurd (omega arith)),
        ),
        moved,
        more,
        room,
        record {
          here = s.here;
          valid = v;
          wired = s.wired;
          known = s.known;
          mine = s.mine;
          idle = λ none_left. absurd (omega (arith, ap (λ (xs : List ℕ). length xs) none_left));
          busy = λ _. s.busy left;
        },
      )
    ]

-- When write(2) fails on a sound connection with something to send, `handleWrite` stops at the
-- assertion of `retrieve`, not in the branch for errors: the count of -1 is a `size_t` there.
pub handle_write_error :
    {T : Type 0} (os : Os) (cb : Callbacks T) (current n errno : ℕ) (c : TcpConnection)
    → ((chunk : List ℕ) → os.write chunk ≡ write_error errno)
    → IsSound current n c
    → contents c.output_buffer ≢ []
    → handle_write os cb current c ≡ fault assertion
unfolding handle_write write_more
handle_write_error os cb current n errno c fails s left =
    let (chunk, rest, read, hands, split, some_bytes) =
      write_fd-prefix os.write c.output_buffer s.valid left in
    let hands_all : write_fd os.write c.output_buffer ≡ ok minus_one =
      hands ∙ ap (λ (o : WriteOutcome). ok (write_count o)) (fails chunk) in
    rw (
      inside current n c s,
      s.busy left,
      hands_all,
      read,
      retrieve-refuses minus_one c.output_buffer s.valid (
          omega (
            arith,
            length-contents c.output_buffer s.valid,
            count-le c.output_buffer s.valid,
            s.valid.within_max,
          )),
    )
