-- ===== src/Buffer/Transfer.antt =====
-- base/Buffer.h against the system calls: the constructor, `readFd`, and `writeFd` with the
-- `retrieve` that follows it.
use easy_event.Base.{
  ℕ, ◌+◌, ◌-◌, ◌≤◌, ◌<◌, ◌≡◌, ◌≢◌, inl, inr, refl, sym, ◌∙◌, ap, false, arith, length, ok, lt→ltb,
  le→ltb_false, drop, take, List, [], ◌++◌, some, none, max_size, length-drop, take-length,
  sub_size_lem, take_all, add_size, sub_size, append-nil, Bool-cases, le_or_lt, nil_of_length,
  Result,
}
use easy_event.Buffer.{
  Buffer, new_buffer, readable_bytes, writable_bytes, is_empty, write_chunk, write_fd, read_fd,
  ReadFd, ReadOutcome, got, read_error, WriteOutcome, write_count, minus_one, extrabuf_size,
}
use easy_event.Buffer.Contents.{
  IsValid, contents, count, count-le, readable_bytes-eq-count, length-contents, counts_lem, layout,
}
use easy_event.Buffer.Read.{bytes_at-ok, contents_straight, contents_around}
use easy_event.Buffer.Grow.{Appends, append-contents}

-- The constructor's assertions hold, and it makes a well-formed buffer that holds nothing.
pub new_buffer-IsValid : (b : Buffer) × (new_buffer ≡ ok b) × IsValid b × (contents b ≡ [])
unfolding new_buffer readable_bytes writable_bytes contents count add_size sub_size
new_buffer-IsValid = (_, refl, omega arith, refl)

write_chunk_one :
    (b : Buffer)
    → IsValid b
    → b.start_index + count b ≡ b.end_index
    → 0 < count b
    → write_chunk b ≡ ok (contents b)
unfolding write_chunk
write_chunk_one b v h p = rw (
  lt→ltb b.start_index b.end_index (omega arith),
  readable_bytes-eq-count b v,
  bytes_at-ok b b.start_index (count b) (omega arith),
  contents_straight b v (omega arith),
)

write_chunk_two :
    (b : Buffer)
    → IsValid b
    → b.start_index + count b ≡ length b.buffer + b.end_index
    → write_chunk b ≡ ok (drop b.start_index b.buffer)
unfolding write_chunk
write_chunk_two b v h = rw (
  le→ltb_false b.start_index b.end_index (omega (arith, count-le b v)),
  sub_size_lem (length b.buffer) b.start_index (omega arith) (omega arith),
  bytes_at-ok b b.start_index (length b.buffer - b.start_index) (omega arith),
  take_all (length b.buffer - b.start_index) (drop b.start_index b.buffer)
      (omega (arith, length-drop b.start_index b.buffer)),
)

is_empty-not : (b : Buffer) → IsValid b → contents b ≢ [] → is_empty b ≡ false
is_empty-not b v h = elim (Bool-cases (is_empty b)) [
  | inl e ↦ absurd (h ((counts_lem b v).2.0 e))
  | inr e ↦ e
]

-- What `writeFd` hands to `write`, on a well-formed buffer that is not empty, is a nonempty first
-- part of the content; nothing is read out of range.
pub write_fd-prefix :
    (write : List ℕ → WriteOutcome) (b : Buffer)
    → IsValid b
    → contents b ≢ []
    → (chunk rest : List ℕ) × (write_chunk b ≡ ok chunk)
      × (write_fd write b ≡ ok (write_count (write chunk)))
      × (contents b ≡ chunk ++ rest)
      × (0 < length chunk)
unfolding write_fd
write_fd-prefix write b v h = elim (layout b v) [
  | inl one ↦ (
    contents b,
    [],
    write_chunk_one b v one count-pos,
    rw (is_empty-not b v h, write_chunk_one b v one count-pos),
    sym (append-nil (contents b)),
    omega (arith, length-contents b v, count-pos),
  )
  | inr two ↦ (
    drop b.start_index b.buffer,
    take b.end_index b.buffer,
    write_chunk_two b v two,
    rw (is_empty-not b v h, write_chunk_two b v two),
    contents_around b v two,
    omega (arith, length-drop b.start_index b.buffer),
  )
]
  where
    count-pos : 0 < count b
    count-pos = elim (le_or_lt (count b) 0) [
      | inl e ↦ absurd (h (nil_of_length (contents b) (omega (arith, length-contents b v))))
      | inr p ↦ p
    ]

-- What `append` can take of a `read`.
abbrev pub Accepts : ReadOutcome → Buffer → Type 0
Accepts (got bytes) b = (count b + length bytes ≤ max_size) × Appends (length bytes) b
Accepts (read_error errno) b = Unit {0}

-- What `readFd` makes of each outcome of the `read`.
abbrev pub ReadPost : ReadOutcome → Buffer → Result ReadFd → Type 0
ReadPost (got bytes) b out =
    (r : ReadFd) × (out ≡ ok r)
    × (r.count ≡ length bytes)
    × (r.saved_errno ≡ none)
    × IsValid r.after
    × (contents r.after ≡ contents b ++ bytes)
ReadPost (read_error errno) b out =
    out ≡ ok (record { count = minus_one; saved_errno = some errno; after = b })

read_fd-cases :
    (o : ReadOutcome) (read : ℕ → ReadOutcome) (b : Buffer)
    → read extrabuf_size ≡ o
    → IsValid b
    → Accepts o b
    → ReadPost o b (read_fd read b)
unfolding read_fd
read_fd-cases (got bytes) read b e v a =
    let (b', did, v', c, _) = append-contents bytes (length bytes) b v (omega arith) a.0 a.1 in
    (
      record { count = length bytes; saved_errno = none; after = b' },
      rw (e, read_fd, did),
      refl,
      refl,
      v',
      c ∙ ap (λ (xs : List ℕ). contents b ++ xs) (take-length bytes),
    )
read_fd-cases (read_error errno) read b e v a = rw (e, read_fd)

-- `readFd` with a well-formed buffer: if `read` stores bytes that, with the content, are within the largest
-- size, and either do not go round the end of the vector or make it grow, they are put behind the content,
-- the buffer stays well-formed, and their number is returned; a failed `read` leaves the buffer as it was,
-- reports `errno` and returns -1 as a `size_t`.
pub read_fd-ReadPost :
    (read : ℕ → ReadOutcome) (b : Buffer)
    → IsValid b
    → Accepts (read extrabuf_size) b
    → ReadPost (read extrabuf_size) b (read_fd read b)
read_fd-ReadPost read b = read_fd-cases (read extrabuf_size) read b refl
