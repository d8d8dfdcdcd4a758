-- ===== src/Buffer.antt =====
-- base/Buffer.h: the growing ring of bytes that holds what a connection has received or has still
-- to send. The system calls `read` and `write` enter as arguments.
pub mod Contents
pub mod Window
pub mod Read
pub mod Write
pub mod Room
pub mod Grow
pub mod Size
pub mod Wrap
pub mod Stale
pub mod Transfer
pub mod Fifo
mod Tests
use easy_event.Base.{
  ℕ, zero, suc, ◌+◌, ◌-◌, ◌≡◌, Bool, true, false, not, ◌&&◌, List, [], ◌∷◌, ◌++◌, Option, none,
  some, ltb, leb, ◌==◌, if◌then◌else◌, length, take, drop, replicate, splice, max_size, size_mod,
  add_size, sub_size, Result, ok, fault, ◌>>=◌, ◌>>◌, assert, require, length_error, exhausted,
}

-- The members of the class. Bytes are only moved, so a byte is any number.
pub record Buffer : Type 0 where
  pub buffer : List ℕ
  pub start_index : ℕ
  pub end_index : ℕ
  pub is_full : Bool

abbrev pub initial_size : ℕ
initial_size = 10

abbrev pub buffer_size : Buffer → ℕ
buffer_size b = length b.buffer

pub readable_bytes : Buffer → ℕ
readable_bytes b =
    if b.is_full
    then buffer_size b
    else if leb b.start_index b.end_index
    then sub_size b.end_index b.start_index
    else sub_size (buffer_size b) (sub_size b.start_index b.end_index)

pub writable_bytes : Buffer → ℕ
writable_bytes b = sub_size (buffer_size b) (readable_bytes b)

pub bytes_after_end : Buffer → ℕ
bytes_after_end b =
    if b.is_full
    then 0
    else if ltb b.end_index b.start_index
    then sub_size b.start_index b.end_index
    else sub_size (buffer_size b) b.end_index

pub is_empty : Buffer → Bool
is_empty b = b.start_index == b.end_index && not b.is_full

-- The constructor, with its two assertions.
pub new_buffer : Result Buffer
new_buffer =
    let b : Buffer = record {
      buffer = replicate initial_size 0;
      start_index = 0;
      end_index = 0;
      is_full = false;
    } in
    do assert (readable_bytes b == 0); assert (writable_bytes b == initial_size); ok b

-- An index moved on by `len`, as `retrieve` moves `_startIndex` and `hasWritten` `_endIndex`.
pub advance : ℕ → ℕ → ℕ → ℕ
advance size i len =
    if ltb (add_size i len) size then add_size i len else sub_size (add_size i len) size

-- What `retrieve` makes of the members.
pub retrieved : ℕ → Buffer → Buffer
retrieved len b =
    let start = advance (buffer_size b) b.start_index len in
    record b {
      start_index = start;
      is_full = if ltb 0 len && start == b.end_index then false else b.is_full;
    }

pub retrieve : ℕ → Buffer → Result Buffer
retrieve len b = do assert (leb len (readable_bytes b)); ok (retrieved len b)

pub retrieve_all : Buffer → Buffer
retrieve_all b = record b { start_index = 0; end_index = 0; is_full = false }

-- `std::string(begin() + from, n)`, undefined past the end of the vector.
pub bytes_at : Buffer → ℕ → ℕ → Result (List ℕ)
bytes_at b from n = do require (leb (from + n) (buffer_size b)); ok (take n (drop from b.buffer))

-- The two parts of a content that goes round the end of the vector.
pub both_parts : Buffer → Result (List ℕ)
both_parts b = do
  first ← bytes_at b b.start_index (sub_size (buffer_size b) b.start_index)
  second ← bytes_at b 0 b.end_index
  ok (first ++ second)

pub retrieve_as_string : Buffer → Result (List ℕ × Buffer)
retrieve_as_string b = do
  str ←
      if ltb b.start_index b.end_index
      then bytes_at b b.start_index (readable_bytes b)
      else if ltb b.end_index b.start_index
      then both_parts b
      else if b.is_full
      then both_parts b
      else ok []
  ok (str, retrieve_all b)

pub has_written : ℕ → Buffer → Buffer
has_written len b =
    let end = advance (buffer_size b) b.end_index len in
    record b {
      end_index = end;
      is_full = if ltb 0 len && end == b.start_index then true else b.is_full;
    }

-- `std::copy(data + from, data + to, begin() + at)`: a range whose end lies before its start, or
-- that leaves `data` or the vector, is undefined.
pub copy_range : List ℕ → ℕ → ℕ → ℕ → Buffer → Result Buffer
copy_range bytes from to at b = do
  require (leb from to && leb to (length bytes) && leb (at + (to - from)) (buffer_size b))
  ok (record b { buffer = splice b.buffer at (take (to - from) (drop from bytes)) })

-- `bytes` are the bytes that can be read from the pointer `data` on.
pub write_after_end : List ℕ → ℕ → Buffer → Result Buffer
write_after_end bytes len b =
    let first_part = sub_size (buffer_size b) b.end_index in
    let second_part = sub_size len first_part in
    do
      written ←
          if leb (add_size b.end_index len) (buffer_size b)
          then copy_range bytes 0 len b.end_index b
          else do
            once ← copy_range bytes 0 first_part b.end_index b
            copy_range bytes first_part second_part 0 once
      ok (has_written len written)

-- `_buffer.resize(n)`: bytes that are new are zero, and a size that no vector has is refused.
pub resize : ℕ → Buffer → Result Buffer
resize n b =
    if ltb max_size n
    then fault length_error
    else ok (record b { buffer = take n b.buffer ++ replicate (n - buffer_size b) 0 })

-- `makeSpace`, which calls `append` back: the call is the first argument.
pub make_space : (List ℕ → ℕ → Buffer → Result Buffer) → ℕ → Buffer → Result Buffer
make_space append_call len b = do
  let readable = readable_bytes b
  let new_size = add_size (buffer_size b) (sub_size len (writable_bytes b))
  (content, emptied) ← retrieve_as_string b
  resized ← resize new_size emptied
  filled ← append_call content (length content) resized
  assert (readable == readable_bytes filled)
  ok filled

-- `append(const char*, size_t)` calls `makeSpace`, which calls `append`: the number bounds how deep
-- the calls nest.
pub append_nested : ℕ → List ℕ → ℕ → Buffer → Result Buffer
append_nested zero bytes len b = fault exhausted
append_nested (suc depth) bytes len b = do
  roomy ← if ltb (writable_bytes b) len then make_space (append_nested depth) len b else ok b
  write_after_end bytes len roomy

-- Two levels are enough: `Grow.append_nested-depth`.
pub append : List ℕ → ℕ → Buffer → Result Buffer
append = append_nested 2

-- `append(const std::string&)`
pub append_string : List ℕ → Buffer → Result Buffer
append_string str = append str (length str)

-- What the system call `read` did, with the bytes it stored, and what `write` did.
pub data ReadOutcome : Type 0 where
  got : List ℕ → ReadOutcome
  read_error : ℕ → ReadOutcome

pub data WriteOutcome : Type 0 where
  wrote : ℕ → WriteOutcome
  write_error : ℕ → WriteOutcome

-- The results of both calls as a `size_t`: -1 is the largest value.
abbrev pub minus_one : ℕ
minus_one = size_mod - 1

abbrev pub write_count : WriteOutcome → ℕ
write_count (wrote n) = n
write_count (write_error e) = minus_one

-- The size of `extrabuf`, which `read` is asked to fill.
abbrev pub extrabuf_size : ℕ
extrabuf_size = 65535

-- The returned count, `*savedErrno` where it is set, and the buffer.
pub record ReadFd : Type 0 where
  pub count : ℕ
  pub saved_errno : Option ℕ
  pub after : Buffer

pub read_fd : (ℕ → ReadOutcome) → Buffer → Result ReadFd
read_fd read b = elim (read extrabuf_size) [
  | got bytes ↦ do
    filled ← append bytes (length bytes) b
    ok (record { count = length bytes; saved_errno = none; after = filled })
  | read_error errno ↦ ok (record { count = minus_one; saved_errno = some errno; after = b })
]

-- The bytes handed to `write`: the content up to the end of the vector.
pub write_chunk : Buffer → Result (List ℕ)
write_chunk b =
    if ltb b.start_index b.end_index
    then bytes_at b b.start_index (readable_bytes b)
    else bytes_at b b.start_index (sub_size (buffer_size b) b.start_index)

pub write_fd : (List ℕ → WriteOutcome) → Buffer → Result ℕ
write_fd write b = do
  assert (not (is_empty b))
  chunk ← write_chunk b
  ok (write_count (write chunk))
