-- ===== src/Buffer/Grow.antt =====
-- base/Buffer.h, `append`: it puts the bytes behind the content, and the calls nest no deeper than
-- two.
use easy_event.Base.{
  ℕ, suc, ◌+◌, ◌≤◌, ◌<◌, ◌≡◌, ◌⊎◌, sym, ◌∙◌, ap, inl, inr, refl, List, ◌++◌, arith, length, take,
  length-take_le, ok, fault, lt→ltb, le_or_lt, max_size, length_error, ◌≢◌, Result, ◌>>=◌, Bool,
  true, false, exhausted, require, leb, add_size, sub_size, Bool-cases,
}
use easy_event.Buffer.{
  Buffer, append, append_nested, make_space, resize, writable_bytes, copy_range, write_after_end,
  buffer_size,
}
use easy_event.Buffer.Contents.{IsValid, contents, count, writable_bytes-eq}
use easy_event.Buffer.Read.{retrieve_as_string-ok}
use easy_event.Buffer.Write.{
  appended, start-appended, appended-IsValid, contents-appended, write_after_end_straight,
}
use easy_event.Buffer.Room.{
  append_nested-room, grown, new_size-eq, grown-IsValid, count-grown, contents-grown, size-grown,
  end-grown, make_space-ok, start-grown,
}

-- A vector past the largest size is refused with `std::length_error`, which stops the program.
make_space_too_long :
    (depth len : ℕ) (b : Buffer)
    → IsValid b
    → max_size < count b + len
    → len ≤ max_size
    → make_space (append_nested depth) len b ≡ fault length_error
unfolding make_space resize
make_space_too_long depth len b v beyond small = rw (
  retrieve_as_string-ok b v,
  new_size-eq len b v small (omega (arith, v.within_max)),
  lt→ltb max_size (count b + len) beyond,
)

append_nested_too_long :
    (depth : ℕ) (bytes : List ℕ) (len : ℕ) (b : Buffer)
    → IsValid b
    → max_size < count b + len
    → len ≤ max_size
    → append_nested (suc depth) bytes len b ≡ fault length_error
unfolding append_nested
append_nested_too_long depth bytes len b v beyond small = rw (
  lt→ltb (writable_bytes b) len (omega (arith, writable_bytes-eq b v, v.within_max)),
  make_space_too_long depth len b v beyond small,
)

-- Where `append` is right: the bytes do not have to go round the end of the vector, or the vector
-- has to grow.
abbrev pub Appends : ℕ → Buffer → Type 0
Appends len b = (b.end_index + len ≤ length b.buffer) ⊎ (length b.buffer < count b + len)

module _ (bytes : List ℕ) (len : ℕ) (b : Buffer) (v : IsValid b) (enough : len ≤ length bytes)
    (within : count b + len ≤ max_size) where
  -- The two ways that `append` takes.
  pub append_nested-direct :
      (depth : ℕ)
      → count b + len ≤ length b.buffer
      → b.end_index + len ≤ length b.buffer
      → append_nested (suc depth) bytes len b ≡ ok (appended (take len bytes) b)
  append_nested-direct depth room straight =
      append_nested-room depth bytes len b v room
      ∙ write_after_end_straight bytes len b v enough straight

  pub append_nested-grows :
      (depth : ℕ)
      → length b.buffer < count b + len
      → append_nested (suc (suc depth)) bytes len b ≡ ok (appended (take len bytes) (grown len b))
  unfolding append_nested
  append_nested-grows depth short =
      rw
        (
          lt→ltb (writable_bytes b) len (omega (arith, writable_bytes-eq b v)),
          make_space-ok len b v short within depth,
        )
        (write_after_end_straight bytes len (grown len b) (grown-IsValid len b v short within)
          enough (omega (arith, end-grown len b v short within, size-grown len b v short within)))

-- `append` of `len` bytes to a well-formed buffer succeeds, keeps it well-formed and puts exactly
-- those bytes behind the content, provided the sum is within the largest size and either the bytes
-- fit between the end index and the end of the vector or the vector has to grow. The start index
-- stays where it was or goes to the front.
pub append-contents :
    (bytes : List ℕ) (len : ℕ) (b : Buffer)
    → IsValid b
    → len ≤ length bytes
    → count b + len ≤ max_size
    → Appends len b
    → (b' : Buffer) × (append bytes len b ≡ ok b')
      × IsValid b'
      × (contents b' ≡ contents b ++ take len bytes)
      × ((b'.start_index ≡ b.start_index) ⊎ (b'.start_index ≡ 0))
unfolding append
append-contents bytes len b v enough within how =
    elim (le_or_lt (count b + len) (length b.buffer)) [
      | inl room ↦ (
        appended xs b,
        append_nested-direct bytes len b v enough within 1 room (omega arith),
        appended-IsValid xs b v (omega (arith, e)) (omega (arith, e)),
        contents-appended xs b v (omega (arith, e)) (omega (arith, e)),
        inl (start-appended xs b),
      )
      | inr short ↦
          let room : count (grown len b) + length xs ≤ length (grown len b).buffer =
            omega (arith, e, count-grown len b v short within, size-grown len b v short within) in
          let straight : (grown len b).end_index + length xs ≤ length (grown len b).buffer =
            omega (arith, e, end-grown len b v short within, size-grown len b v short within) in
          (
            appended xs (grown len b),
            append_nested-grows bytes len b v enough within 0 short,
            appended-IsValid xs (grown len b) (grown-IsValid len b v short within) room straight,
            contents-appended xs (grown len b) (grown-IsValid len b v short within) room straight
                ∙ ap (λ (ys : List ℕ). ys ++ xs) (contents-grown len b v short within),
            inr (start-appended xs (grown len b) ∙ start-grown len b),
          )
    ]
  where
    xs : List ℕ
    xs = take len bytes

    e : length xs ≡ len
    e = length-take_le len bytes enough

given-finishes : {X : Type 0} (m : Result X) (x : X) → m ≡ ok x → m ≢ fault exhausted
given-finishes m x h = λ e. absurd (cc)

refused-finishes : {X : Type 0} (m : Result X) → m ≡ fault length_error → m ≢ fault exhausted
refused-finishes m h = λ e. absurd (cc)

-- Neither step runs out, so their chain does not.
bind-finishes :
    {X Y : Type 0} (m : Result X) (k : X → Result Y)
    → m ≢ fault exhausted
    → ((x : X) → k x ≢ fault exhausted)
    → (m >>= k) ≢ fault exhausted
bind-finishes (ok x) k h each = each x
bind-finishes (fault why) k h each = λ e. h (cc)

require-finishes : (b : Bool) → require b ≢ fault exhausted
require-finishes true = λ e. absurd (cc)
require-finishes false = λ e. absurd (cc)

copy_range-finishes :
    (bytes : List ℕ) (from to at : ℕ) (b : Buffer) → copy_range bytes from to at b ≢ fault exhausted
unfolding copy_range
copy_range-finishes bytes from to at b =
    bind-finishes (require _) _ (require-finishes _) λ _. given-finishes _ _ refl

write_after_end-finishes :
    (bytes : List ℕ) (len : ℕ) (b : Buffer) → write_after_end bytes len b ≢ fault exhausted
unfolding write_after_end
write_after_end-finishes bytes len b =
    elim (Bool-cases (leb (add_size b.end_index len) (buffer_size b))) [
      | inl straight ↦ rw straight (
          bind-finishes (copy_range bytes 0 len b.end_index b) _
            (copy_range-finishes bytes 0 len b.end_index b) λ _. given-finishes _ _ refl)
      | inr round ↦ rw round (
          bind-finishes _ _
            (bind-finishes (copy_range bytes 0 (sub_size (buffer_size b) b.end_index) b.end_index b)
              _ (copy_range-finishes bytes 0 (sub_size (buffer_size b) b.end_index) b.end_index b)
              λ once. copy_range-finishes bytes _ _ 0 once)
            λ _. given-finishes _ _ refl)
    ]

-- Two levels of calls are enough on a well-formed buffer, for as many bytes as there are and as a vector
-- may have: `append` does not run out of the two levels of its model, and with more it gives the same.
pub append_nested-depth :
    (depth : ℕ) (bytes : List ℕ) (len : ℕ) (b : Buffer)
    → IsValid b
    → len ≤ max_size
    → len ≤ length bytes
    → (append bytes len b ≢ fault exhausted)
      × (append_nested (suc (suc depth)) bytes len b ≡ append bytes len b)
unfolding append
append_nested-depth depth bytes len b v small enough =
    elim (le_or_lt (count b + len) (length b.buffer)) [
      | inl room ↦
          let direct : append_nested 2 bytes len b ≡ write_after_end bytes len b =
            append_nested-room 1 bytes len b v room in
          (
            λ e. write_after_end-finishes bytes len b (sym direct ∙ e),
            append_nested-room (suc depth) bytes len b v room ∙ sym direct,
          )
      | inr short ↦ elim (le_or_lt (count b + len) max_size) [
        | inl within ↦
            let grows = append_nested-grows bytes len b v enough within in
            (given-finishes _ _ (grows 0 short), grows depth short ∙ sym (grows 0 short))
        | inr beyond ↦ (
          refused-finishes _ (append_nested_too_long 1 bytes len b v beyond small),
          append_nested_too_long (suc depth) bytes len b v beyond small
              ∙ sym (append_nested_too_long 1 bytes len b v beyond small),
        )
      ]
    ]
