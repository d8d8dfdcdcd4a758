-- ===== src/Buffer/Wrap.antt =====
-- base/Buffer.h, `writeAfterEnd` where the new bytes go round the end of the vector: the second
-- `std::copy` is given `data + secondPart` for its end, in place of `data + len`.
use easy_event.Base.{
  ℕ, ◌+◌, ◌-◌, ◌≤◌, ◌<◌, ◌≡◌, sym, ◌∙◌, ap, ap₂, List, ◌++◌, arith, length, take, drop, length-drop,
  length-take_le, append_assoc, append-nil, add_size_lem, sub_size_lem, ok, fault, ◌>>=◌, undefined,
  lt→leb_false, splice, take-append_add, take-append_le, take-take, take_split, nil_of_length,
}
use easy_event.Buffer.{Buffer, advance, write_after_end, append, has_written, copy_range}
use easy_event.Buffer.Contents.{
  IsValid, contents, count, count_full, count_straight, count_wrapped, layout,
}
use easy_event.Buffer.Window.{
  ring, ring_around, length-splice, drop-splice_after, drop-splice_before,
}
use easy_event.Buffer.Read.{advance-around, contents_straight}
use easy_event.Buffer.Write.{copy_range-ok}
use easy_event.Buffer.Room.{append_nested-room}

-- There is room for the bytes, and they do not all fit before the end of the vector.
pub record GoesRound (len : ℕ) (b : Buffer) : Type 0 where
  pub room : count b + len ≤ length b.buffer
  pub past_end : length b.buffer < b.end_index + len

abbrev pub first_part : Buffer → ℕ
first_part b = length b.buffer - b.end_index

-- The second part is the rest; of that, this many bytes are copied.
abbrev pub copied : ℕ → Buffer → ℕ
copied len b = len - first_part b - first_part b

module _ (bytes : List ℕ) (len : ℕ) (b : Buffer) (v : IsValid b) (enough : len ≤ length bytes)
    (g : GoesRound len b) where
  -- The vector after the first `std::copy`.
  front : Buffer
  front = record b { buffer = splice b.buffer b.end_index (take (first_part b) bytes) }

  length-first : length (take (first_part b) bytes) ≡ first_part b
  length-first = length-take_le (first_part b) bytes (omega (arith, g.past_end, g.room))

  length-front : length front.buffer ≡ length b.buffer
  unfolding front
  length-front =
      length-splice b.buffer b.end_index (take (first_part b) bytes) (omega (arith, length-first))

  write_after_end_two : write_after_end bytes len b ≡ (
      copy_range bytes (first_part b) (len - first_part b) 0 front >>= λ written.
      ok (has_written len written))
  unfolding write_after_end front
  write_after_end_two = rw (
    add_size_lem b.end_index len (omega (arith, g.room)),
    lt→leb_false (b.end_index + len) (length b.buffer) g.past_end,
    sub_size_lem (length b.buffer) b.end_index (omega arith) (omega arith),
    sub_size_lem len (first_part b) (omega (arith, g.past_end, g.room)) (omega (arith, g.room)),
    copy_range-ok bytes 0 (first_part b) (first_part b) b.end_index b (omega arith)
        (omega (arith, g.past_end, g.room)) (omega arith),
  )

  -- A second part shorter than the first: the range ends before it starts.
  write_after_end_reversed :
      len - first_part b < first_part b → write_after_end bytes len b ≡ fault undefined
  unfolding copy_range
  write_after_end_reversed h =
      rw (write_after_end_two, lt→leb_false (first_part b) (len - first_part b) h)

  module _ (h : first_part b ≤ len - first_part b) where
    second : List ℕ
    second = take (copied len b) (drop (first_part b) bytes)

    length-second : length second ≡ copied len b
    unfolding second
    length-second =
        length-take_le (copied len b) (drop (first_part b) bytes)
          (omega (arith, length-drop (first_part b) bytes))

    both_halves : take (first_part b) bytes ++ second ≡ take (len - first_part b) bytes
    unfolding second
    both_halves =
        sym (take_split (first_part b) (copied len b) (len - first_part b) bytes (omega arith))

    -- The vector after both.
    back : Buffer
    back = record front { buffer = splice front.buffer 0 second }

    length-back : length back.buffer ≡ length b.buffer
    unfolding back
    length-back =
        length-splice front.buffer 0 second
          (omega (arith, length-second, length-front, g.room, v.end_in))
        ∙ length-front

    write_after_end_both : write_after_end bytes len b ≡ ok (has_written len back)
    unfolding back second
    write_after_end_both = rw (
      write_after_end_two,
      copy_range-ok bytes (first_part b) (copied len b) (len - first_part b) 0 front (omega arith)
          (omega arith) (omega (arith, length-front, g.room, v.end_in)),
    )

    straight_before : b.start_index + count b ≡ b.end_index
    straight_before = omega (arith, layout b v, g.room, g.past_end, v.start_in)

    end-back : (has_written len back).end_index ≡ b.end_index + len - length b.buffer
    unfolding has_written front back
    end-back =
        ap (λ (n : ℕ). advance n b.end_index len) length-back
        ∙ advance-around (length b.buffer) b.end_index len (omega (arith, g.past_end)) v.end_in
            (omega (arith, g.room)) v.within_max

    wrapped-IsValid : IsValid (has_written len back)
    unfolding has_written back front
    wrapped-IsValid =
        ground (arith, end-back, length-back, straight_before, count_full b, g.room, g.past_end)

    count-wrapped : count (has_written len back) ≡ count b + len
    unfolding has_written back front
    count-wrapped = ground (
      arith,
      end-back,
      length-back,
      straight_before,
      count_full b,
      count_full (has_written len back),
      count_straight (has_written len back) wrapped-IsValid,
      count_wrapped (has_written len back) wrapped-IsValid,
      g.room,
      g.past_end,
    )

    drop-back : drop b.start_index back.buffer ≡ contents b ++ take (first_part b) bytes
    unfolding back front
    drop-back =
        drop-splice_after front.buffer 0 second
          (omega (arith, length-second, length-front, g.room, v.end_in)) b.start_index
          (omega (arith, length-second, straight_before, g.room))
          (omega (arith, length-front, v.start_in))
        ∙ drop-splice_before b.buffer b.end_index (take (first_part b) bytes)
            (omega (arith, length-first)) b.start_index (omega (arith, straight_before))
        ∙ ap₂ ◌++◌
            (ap (λ (n : ℕ). take n (drop b.start_index b.buffer)) (omega (arith, straight_before))
              ∙ sym (contents_straight b v (omega (arith, straight_before))))
            (ap (λ (ys : List ℕ). take (first_part b) bytes ++ ys)
                (nil_of_length (drop (b.end_index + length (take (first_part b) bytes)) b.buffer) (
                  omega (
                    arith,
                    length-first,
                    length-drop (b.end_index + length (take (first_part b) bytes)) b.buffer,
                  )))
              ∙ append-nil (take (first_part b) bytes))

    stale-back :
        take (first_part b) (drop (0 + length second) front.buffer)
        ≡ take (first_part b) (drop (copied len b) b.buffer)
    unfolding front
    stale-back =
        ap (λ (n : ℕ). take (first_part b) (drop n front.buffer)) (omega (arith, length-second))
        ∙ ap (λ (ys : List ℕ). take (first_part b) ys)
            (drop-splice_before b.buffer b.end_index (take (first_part b) bytes)
              (omega (arith, length-first)) (copied len b) (omega (arith, g.room)))
        ∙ take-append_le (first_part b)
            (take (b.end_index - copied len b) (drop (copied len b) b.buffer))
            (take (first_part b) bytes
              ++ drop (b.end_index + length (take (first_part b) bytes)) b.buffer)
            (omega (
              arith,
              g.room,
              length-drop (copied len b) b.buffer,
              length-take_le (b.end_index - copied len b) (drop (copied len b) b.buffer),
            ))
        ∙ take-take (first_part b) (b.end_index - copied len b) (drop (copied len b) b.buffer)
            (omega (arith, g.room))

    take-back :
        take (len - first_part b) back.buffer
        ≡ second ++ take (first_part b) (drop (copied len b) b.buffer)
    unfolding back front
    take-back =
        take-append_add (len - first_part b) (first_part b) second
          (drop (0 + length second) front.buffer) (omega (arith, length-second))
        ∙ ap (λ (ys : List ℕ). second ++ ys) stale-back

    ring_back :
        ring back.buffer b.start_index (count b + len)
        ≡ contents b
          ++ (take (len - first_part b) bytes ++ take (first_part b) (drop (copied len b) b.buffer))
    ring_back =
        ring_around back.buffer b.start_index (count b + len) (len - first_part b)
          (omega (arith, length-back)) (omega (arith, length-back, straight_before, g.past_end))
          (omega (arith, length-back, g.room))
        ∙ ap₂ ◌++◌ drop-back take-back
        ∙ append_assoc (contents b) (take (first_part b) bytes)
            (second ++ take (first_part b) (drop (copied len b) b.buffer))
        ∙ ap (λ (ys : List ℕ). contents b ++ ys)
            (sym (
                append_assoc (take (first_part b) bytes) second
                  (take (first_part b) (drop (copied len b) b.buffer)))
              ∙ ap (λ (ys : List ℕ). ys ++ take (first_part b) (drop (copied len b) b.buffer))
                  both_halves)

    contents-wrapped :
        contents (has_written len back)
        ≡ contents b
          ++ (take (len - first_part b) bytes ++ take (first_part b) (drop (copied len b) b.buffer))
    unfolding contents has_written back front
    contents-wrapped = rw count-wrapped ring_back

-- `append` of bytes for which there is room, but which go round the end of the vector, has
-- undefined behaviour if fewer bytes fall behind the end than before it.
pub append_reversed :
    (bytes : List ℕ) (len : ℕ) (b : Buffer)
    → IsValid b
    → len ≤ length bytes
    → GoesRound len b
    → len - first_part b < first_part b
    → append bytes len b ≡ fault undefined
unfolding append
append_reversed bytes len b v enough g h =
    append_nested-room 1 bytes len b v g.room ∙ write_after_end_reversed bytes len b v enough g h

-- `append` of bytes for which there is room in a well-formed buffer, but which go round the end of the
-- vector, and of which no more fall before the end than behind it, succeeds, but the last bytes of the new
-- content, as many as fell before the end, are whatever the front of the vector held: they are never copied.
pub append_loses :
    (bytes : List ℕ) (len : ℕ) (b : Buffer)
    → IsValid b
    → len ≤ length bytes
    → GoesRound len b
    → first_part b ≤ len - first_part b
    → (b' : Buffer) × (append bytes len b ≡ ok b')
      × (contents b'
          ≡ contents b
            ++ (take (len - first_part b) bytes
                ++ take (first_part b) (drop (copied len b) b.buffer)))
unfolding append
append_loses bytes len b v enough g h = (
  has_written len (back bytes len b v enough g h),
  append_nested-room 1 bytes len b v g.room ∙ write_after_end_both bytes len b v enough g h,
  contents-wrapped bytes len b v enough g h,
)
