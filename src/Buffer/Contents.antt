-- ===== src/Buffer/Contents.antt =====
-- base/Buffer.h: what a buffer stands for, the sequence of bytes that it holds, and when its
-- members fit together. The counts of `Buffer` against it.
use native.Mathlib.Nat.{mod-eq_of_lt, mod-eq-sub-mod}
use easy_event.Base.{
  ℕ, ◌+◌, ◌-◌, ◌%◌, ◌≤◌, ◌<◌, ◌≡◌, ◌⊎◌, true, false, List, [], ◌++◌, arith, if◌then◌else◌, length,
  take, drop, length-append, length-drop, nil_of_length, ap, length-take_le, max_size, sub_size_lem,
  ◌↔◌,
}
use easy_event.Buffer.{Buffer, buffer_size, readable_bytes, writable_bytes, is_empty}

pub record IsValid (b : Buffer) : Type 0 where
  pub nonempty : 0 < length b.buffer
  pub within_max : length b.buffer ≤ max_size
  pub start_in : b.start_index < length b.buffer
  pub end_in : b.end_index < length b.buffer
  pub full_meets : (b.is_full ≡ false) ⊎ (b.start_index ≡ b.end_index)

-- How many bytes the ring holds, and which: those from the start on, in the vector read twice over.
unfoldable pub count : Buffer → ℕ
count b =
    if b.is_full
    then length b.buffer
    else (b.end_index + length b.buffer - b.start_index) % length b.buffer

unfoldable pub contents : Buffer → List ℕ
unfolding count
contents b = take (count b) (drop b.start_index (b.buffer ++ b.buffer))

-- The way from `i` round to `j` in a ring of `n`.
around_past : (i j n : ℕ) → i ≤ j → j < n → (j + n - i) % n ≡ j - i
around_past i j n h k = omega (
  arith,
  mod-eq-sub-mod {n = j + n - i} {m = n} (omega arith),
  mod-eq_of_lt {n = j + n - i - n} {m = n} (omega arith),
)

around_before : (i j n : ℕ) → j < i → i < n → (j + n - i) % n ≡ j + n - i
around_before i j n h k = mod-eq_of_lt (omega arith)

pub count-le : (b : Buffer) → IsValid b → count b ≤ length b.buffer
unfolding count
count-le b v = ground arith

pub length-contents : (b : Buffer) → IsValid b → length (contents b) ≡ count b
unfolding contents
length-contents b v = length-take_le (count b) (drop b.start_index (b.buffer ++ b.buffer)) (
    omega (
      arith,
      count-le b v,
      length-drop b.start_index (b.buffer ++ b.buffer),
      length-append b.buffer b.buffer,
    ))

pub count_straight :
    (b : Buffer)
    → IsValid b
    → b.is_full ≡ false
    → b.start_index ≤ b.end_index
    → count b + b.start_index ≡ b.end_index
unfolding count
count_straight b v f h =
    rw (f, around_past b.start_index b.end_index (length b.buffer) h v.end_in) (omega arith)

pub count_wrapped :
    (b : Buffer)
    → IsValid b
    → b.is_full ≡ false
    → b.end_index < b.start_index
    → count b + b.start_index ≡ b.end_index + length b.buffer
unfolding count
count_wrapped b v f h =
    rw (f, around_before b.start_index b.end_index (length b.buffer) h v.start_in) (omega arith)

pub count_full : (b : Buffer) → b.is_full ≡ true → count b ≡ length b.buffer
unfolding count
count_full b f = ground arith

-- The bytes held end at the end index, or go round to it.
pub layout :
    (b : Buffer)
    → IsValid b
    → (b.start_index + count b ≡ b.end_index)
      ⊎ (b.start_index + count b ≡ length b.buffer + b.end_index)
layout b v = ground (arith, count_full b, count_straight b v, count_wrapped b v)

pub readable_bytes-eq-count : (b : Buffer) → IsValid b → readable_bytes b ≡ count b
unfolding readable_bytes
readable_bytes-eq-count b v = ground (
  arith,
  count_full b,
  count_straight b v,
  count_wrapped b v,
  sub_size_lem b.end_index b.start_index,
  sub_size_lem b.start_index b.end_index,
  sub_size_lem (length b.buffer) (b.start_index - b.end_index),
)

pub writable_bytes-eq : (b : Buffer) → IsValid b → writable_bytes b + count b ≡ length b.buffer
unfolding writable_bytes
writable_bytes-eq b v = ground (
  arith,
  readable_bytes-eq-count b v,
  count-le b v,
  sub_size_lem (length b.buffer) (readable_bytes b),
)

-- On a well-formed buffer `readableBytes` is the number of bytes held, `writableBytes` the rest of
-- the vector, and `isEmpty` holds exactly when no byte is held.
pub counts_lem :
    (b : Buffer)
    → IsValid b
    → (readable_bytes b ≡ length (contents b))
      × (writable_bytes b + length (contents b) ≡ buffer_size b)
      × ((is_empty b ≡ true) ↔ (contents b ≡ []))
unfolding is_empty
counts_lem b v = (
  omega (arith, readable_bytes-eq-count b v, length-contents b v),
  omega (arith, writable_bytes-eq b v, length-contents b v),
  (
    λ e. nil_of_length (contents b) (ground (arith, length-contents b v, count_straight b v)),
    λ e. ground (
      arith,
      ap (λ (xs : List ℕ). length xs) e,
      length-contents b v,
      count_full b,
      count_straight b v,
      count_wrapped b v,
    ),
  ),
)
