-- ===== src/Buffer/Size.antt =====
-- base/Buffer.h, `append`: how large the vector becomes.
use easy_event.Base.{
  ℕ, ◌+◌, ◌≤◌, ◌≡◌, ◌∙◌, List, if◌then◌else◌, ltb, arith, length, take, length-take_le, inl, inr,
  ok, lt→ltb, le→ltb_false, le_or_lt, max_size,
}
use easy_event.Buffer.{Buffer, append, has_written}
use easy_event.Buffer.Contents.{IsValid, count}
use easy_event.Buffer.Write.{appended, same_size}
use easy_event.Buffer.Room.{grown, grown-IsValid, count-grown, size-grown, end-grown}
use easy_event.Buffer.Grow.{Appends, append_nested-direct, append_nested-grows}

-- The larger of two sizes.
abbrev larger : ℕ → ℕ → ℕ
larger a b = if ltb a b then b else a

-- `append` where it is right never lets the vector grow beyond what the content needs: afterwards the
-- vector is as long as it was or as long as the content is now, whichever is more, and in no case
-- past the largest size.
pub append-size :
    (bytes : List ℕ) (len : ℕ) (b : Buffer)
    → IsValid b
    → len ≤ length bytes
    → count b + len ≤ max_size
    → Appends len b
    → (b' : Buffer) × (append bytes len b ≡ ok b')
      × (length b'.buffer ≡ larger (length b.buffer) (count b + len))
      × (length b'.buffer ≤ max_size)
unfolding append has_written
append-size bytes len b v enough within how = elim (le_or_lt (count b + len) (length b.buffer)) [
  | inl room ↦
      let size : length (appended xs b).buffer ≡ length b.buffer =
        same_size xs b v (omega (arith, e)) (omega (arith, e)) in
      (
        appended xs b,
        append_nested-direct bytes len b v enough within 1 room (omega arith),
        rw (le→ltb_false (length b.buffer) (count b + len) room) size,
        omega (arith, size, v.within_max),
      )
  | inr short ↦
      let size : length (appended xs (grown len b)).buffer ≡ count b + len =
        same_size xs (grown len b) (grown-IsValid len b v short within)
          (omega (arith, e, count-grown len b v short within, size-grown len b v short within))
          (omega (arith, e, end-grown len b v short within, size-grown len b v short within))
        ∙ size-grown len b v short within in
      (
        appended xs (grown len b),
        append_nested-grows bytes len b v enough within 0 short,
        rw (lt→ltb (length b.buffer) (count b + len) short) size,
        omega (arith, size),
      )
]
  where
    xs : List ℕ
    xs = take len bytes

    e : length xs ≡ len
    e = length-take_le len bytes enough
