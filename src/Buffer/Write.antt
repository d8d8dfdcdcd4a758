-- ===== src/Buffer/Write.antt =====
-- base/Buffer.h, the writing side: `writeAfterEnd` and `hasWritten` where the new bytes fit between
-- the end index and the end of the vector.
use easy_event.Base.{
  ℕ, ◌+◌, ◌-◌, ◌≤◌, ◌<◌, ◌≡◌, sym, ◌∙◌, ap, ap₂, refl, inl, inr, List, ◌++◌, arith, length, take,
  drop, length-take_le, append_assoc, add_size_lem, ok, le→leb, splice, take_two,
}
use easy_event.Buffer.{Buffer, write_after_end, has_written, copy_range}
use easy_event.Buffer.Contents.{
  IsValid, contents, count, count_straight, count_wrapped, count_full, layout, length-contents,
}
use easy_event.Buffer.Window.{
  ring, ring_straight, ring_around, length-splice, take-splice, drop-splice_after,
  drop-splice_before,
}
use easy_event.Buffer.Read.{advance-within, advance-around, contents_straight, contents_around}

-- Moving the end index on by `len` bytes that end within the vector.
module _ (len : ℕ) (b : Buffer) (v : IsValid b) (room : count b + len ≤ length b.buffer)
    (straight : b.end_index + len ≤ length b.buffer) where
  has_written_end :
      (b.end_index + len < length b.buffer → (has_written len b).end_index ≡ b.end_index + len)
      × (b.end_index + len ≡ length b.buffer → (has_written len b).end_index ≡ 0)
  unfolding has_written
  has_written_end = ground (
    arith,
    advance-within (length b.buffer) b.end_index len,
    advance-around (length b.buffer) b.end_index len,
  )

  pub has_written-IsValid : IsValid (has_written len b)
  unfolding has_written
  has_written-IsValid = ground (arith, has_written_end, count_full b)

  pub count-has_written : count (has_written len b) ≡ count b + len
  unfolding has_written
  count-has_written = ground (
    arith,
    has_written_end,
    layout b v,
    count_full b,
    count_full (has_written len b),
    count_straight (has_written len b) has_written-IsValid,
    count_wrapped (has_written len b) has_written-IsValid,
  )

-- `xs` written over the vector at the end index, before the end index moves.
abbrev pub placed : List ℕ → Buffer → Buffer
placed xs b = record b { buffer = splice b.buffer b.end_index xs }

abbrev pub appended : List ℕ → Buffer → Buffer
appended xs b = has_written (length xs) (placed xs b)

pub start-appended : (xs : List ℕ) (b : Buffer) → (appended xs b).start_index ≡ b.start_index
unfolding has_written
start-appended xs b = refl

module _ (xs : List ℕ) (b : Buffer) (v : IsValid b) (room : count b + length xs ≤ length b.buffer)
    (straight : b.end_index + length xs ≤ length b.buffer) where
  pub same_size : length (placed xs b).buffer ≡ length b.buffer
  same_size = length-splice b.buffer b.end_index xs straight

  placed-IsValid : IsValid (placed xs b)
  placed-IsValid = record {
    nonempty = rw same_size v.nonempty;
    within_max = rw same_size v.within_max;
    start_in = rw same_size v.start_in;
    end_in = rw same_size v.end_in;
    full_meets = v.full_meets;
  }

  count-placed : count (placed xs b) ≡ count b
  unfolding count
  count-placed = rw same_size

  pub appended-IsValid : IsValid (appended xs b)
  appended-IsValid =
      has_written-IsValid (length xs) (placed xs b) placed-IsValid
        (rw (count-placed, same_size) room) (rw same_size straight)

  pub count-appended : count (appended xs b) ≡ count b + length xs
  count-appended =
      count-has_written (length xs) (placed xs b) placed-IsValid (rw (count-placed, same_size) room)
        (rw same_size straight)
      ∙ ap (λ (n : ℕ). n + length xs) count-placed

  -- The end index of the result, while it stays short of the end of the vector.
  pub end-appended :
      b.end_index + length xs < length b.buffer
      → (appended xs b).end_index ≡ b.end_index + length xs
  end-appended h =
      (has_written_end (length xs) (placed xs b) placed-IsValid (rw (count-placed, same_size) room)
          (rw same_size straight)).0
        (rw same_size h)

  ring_appended :
      ring (splice b.buffer b.end_index xs) b.start_index (count b + length xs) ≡ contents b ++ xs
  ring_appended = elim (layout b v) [
    | inl one ↦
        ring_straight (splice b.buffer b.end_index xs) b.start_index (count b + length xs)
          (omega (arith, same_size))
        ∙ ap (λ (ys : List ℕ). take (count b + length xs) ys)
            (drop-splice_before b.buffer b.end_index xs straight b.start_index (omega arith))
        ∙ ap
            (λ (ys : List ℕ).
              take (count b + length xs) (ys ++ (xs ++ drop (b.end_index + length xs) b.buffer)))
            (ap (λ (n : ℕ). take n (drop b.start_index b.buffer)) (omega arith)
              ∙ sym (contents_straight b v (omega arith)))
        ∙ take_two (count b + length xs) (contents b) xs (drop (b.end_index + length xs) b.buffer)
            (omega (arith, length-contents b v))
    | inr two ↦
        ring_around (splice b.buffer b.end_index xs) b.start_index (count b + length xs)
          (b.end_index + length xs) (omega (arith, same_size)) (omega (arith, same_size))
          (omega (arith, same_size))
        ∙ ap₂ ◌++◌
            (drop-splice_after b.buffer b.end_index xs straight b.start_index (omega arith)
              (omega arith))
            (take-splice b.buffer b.end_index xs straight (b.end_index + length xs) refl)
        ∙ sym (append_assoc (drop b.start_index b.buffer) (take b.end_index b.buffer) xs)
        ∙ ap (λ (ys : List ℕ). ys ++ xs) (sym (contents_around b v two))
  ]

  pub contents-appended : contents (appended xs b) ≡ contents b ++ xs
  unfolding contents has_written
  contents-appended = rw count-appended ring_appended

pub copy_range-ok :
    (bytes : List ℕ) (from n to at : ℕ) (b : Buffer)
    → from + n ≡ to
    → to ≤ length bytes
    → at + n ≤ length b.buffer
    → copy_range bytes from to at b
      ≡ ok (record b { buffer = splice b.buffer at (take n (drop from bytes)) })
unfolding copy_range
copy_range-ok bytes from n to at b e h k =
    let n-eq : to - from ≡ n = omega arith in
    rw (
      n-eq,
      le→leb from to (omega arith),
      le→leb to (length bytes) h,
      le→leb (at + n) (length b.buffer) k,
    )

-- `writeAfterEnd` of `len` bytes, where there is room and they end within the vector.
pub write_after_end_straight :
    (bytes : List ℕ) (len : ℕ) (b : Buffer)
    → IsValid b
    → len ≤ length bytes
    → b.end_index + len ≤ length b.buffer
    → write_after_end bytes len b ≡ ok (appended (take len bytes) b)
unfolding write_after_end
write_after_end_straight bytes len b v enough straight = rw (
  add_size_lem b.end_index len (omega arith),
  le→leb (b.end_index + len) (length b.buffer) straight,
  copy_range-ok bytes 0 len len b.end_index b (omega arith) enough straight,
  length-take_le len bytes enough,
)
