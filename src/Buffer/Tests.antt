-- ===== src/Buffer/Tests.antt =====
-- Runs of base/Buffer.h, and the theorems about it at concrete buffers.
use easy_event.Base.{
  ℕ, ◌<◌, ◌≤◌, ◌≡◌, ◌≢◌, ◌⊎◌, inl, inr, refl, true, false, List, [], ◌∷◌, ◌++◌, arith, length, ok,
  fault, undefined, exhausted, add_size, sub_size, max_size, ◌>>=◌,
}
use easy_event.Buffer.{
  Buffer, readable_bytes, writable_bytes, retrieve, retrieve_all, retrieve_as_string, append,
  append_nested, write_chunk, write_fd, read_fd, ReadOutcome, got, WriteOutcome, wrote, write_count,
  bytes_at, both_parts, advance, write_after_end, copy_range, has_written, make_space, resize,
  bytes_after_end,
}
use easy_event.Buffer.Contents.{IsValid, contents, count}
use easy_event.Buffer.Grow.{append-contents, append_nested-depth}
use easy_event.Buffer.Size.{append-size}
use easy_event.Buffer.Wrap.{append_reversed, append_loses}
use easy_event.Buffer.Stale.{retrieve_leaves_full, write_chunk_stale}
use easy_event.Buffer.Transfer.{write_fd-prefix, read_fd-ReadPost, ReadPost}
use easy_event.Buffer.Fifo.{Op, put, take_string, clear, run-Refines, Refines}

-- Two bytes, 7 and 8, inside four.
abbrev inside : Buffer
inside = record { buffer = 9 ∷ 7 ∷ 8 ∷ 6 ∷ []; start_index = 1; end_index = 3; is_full = false }

-- Nothing, with both indices in the middle.
abbrev middle : Buffer
middle = record { buffer = 1 ∷ 2 ∷ 3 ∷ 4 ∷ []; start_index = 2; end_index = 2; is_full = false }

-- One byte, 3, so that three more go round the end.
abbrev late : Buffer
late = record { buffer = 1 ∷ 2 ∷ 3 ∷ 4 ∷ []; start_index = 2; end_index = 3; is_full = false }

-- Four bytes, 3, 4, 1 and 2.
abbrev full : Buffer
full = record { buffer = 1 ∷ 2 ∷ 3 ∷ 4 ∷ []; start_index = 2; end_index = 2; is_full = true }

-- Two bytes at the front of four.
abbrev front : Buffer
front = record { buffer = 5 ∷ 6 ∷ 0 ∷ 0 ∷ []; start_index = 0; end_index = 2; is_full = false }

abbrev script : List Op
script = put (1 ∷ 2 ∷ 3 ∷ []) ∷ take_string ∷ put (4 ∷ []) ∷ clear ∷ take_string ∷ []

full-IsValid : IsValid full
full-IsValid = omega arith

inside-IsValid : IsValid inside
inside-IsValid = ground arith

late-IsValid : IsValid late
late-IsValid = ground arith

front-IsValid : IsValid front
front-IsValid = ground arith

contents-full : contents full ≡ 3 ∷ 4 ∷ 1 ∷ 2 ∷ []
unfolding contents count
contents-full = refl

bytes_after_end-inside : (bytes_after_end inside ≡ 1) × (bytes_after_end full ≡ 0)
unfolding bytes_after_end sub_size
bytes_after_end-inside = (refl, refl)

-- A run of `append` that grows the vector, and one of `retrieveAsString`.
append-runs :
    append (1 ∷ 2 ∷ 3 ∷ []) 3 inside
    ≡ ok
        (record { buffer = 7 ∷ 8 ∷ 1 ∷ 2 ∷ 3 ∷ []; start_index = 0; end_index = 0; is_full = true })
unfolding append append_nested writable_bytes readable_bytes make_space retrieve_as_string bytes_at
    retrieve_all resize write_after_end copy_range has_written advance add_size sub_size
append-runs = refl

retrieve_as_string-runs : retrieve_as_string full ≡ ok (3 ∷ 4 ∷ 1 ∷ 2 ∷ [], retrieve_all full)
unfolding retrieve_as_string both_parts bytes_at sub_size
retrieve_as_string-runs = refl

append-contents_example :
    (b' : Buffer) × (append (1 ∷ 2 ∷ 3 ∷ []) 3 inside ≡ ok b')
    × IsValid b'
    × (contents b' ≡ contents inside ++ 1 ∷ 2 ∷ 3 ∷ [])
    × ((b'.start_index ≡ 1) ⊎ (b'.start_index ≡ 0))
unfolding count
append-contents_example =
    append-contents (1 ∷ 2 ∷ 3 ∷ []) 3 inside inside-IsValid (omega arith) (omega arith)
      (inr (omega arith))

append-size_example :
    (b' : Buffer) × (append (1 ∷ 2 ∷ 3 ∷ []) 3 inside ≡ ok b')
    × (length b'.buffer ≡ 5)
    × (length b'.buffer ≤ max_size)
unfolding count
append-size_example =
    append-size (1 ∷ 2 ∷ 3 ∷ []) 3 inside inside-IsValid (omega arith) (omega arith)
      (inr (omega arith))

append_nested-depth_example :
    (append (1 ∷ 2 ∷ 3 ∷ []) 3 full ≢ fault exhausted)
    × (append_nested 7 (1 ∷ 2 ∷ 3 ∷ []) 3 full ≡ append (1 ∷ 2 ∷ 3 ∷ []) 3 full)
append_nested-depth_example =
    append_nested-depth 5 (1 ∷ 2 ∷ 3 ∷ []) 3 full full-IsValid (omega arith) (omega arith)

append_reversed_example : append (5 ∷ 6 ∷ 7 ∷ []) 3 middle ≡ fault undefined
unfolding count
append_reversed_example =
    append_reversed (5 ∷ 6 ∷ 7 ∷ []) 3 middle (omega arith) (omega arith) (omega arith)
      (omega arith)

-- Of 5, 6 and 7 the last is lost: the content reads 3, 5, 6, 2.
append_loses_example :
    (b' : Buffer) × (append (5 ∷ 6 ∷ 7 ∷ []) 3 late ≡ ok b')
    × (contents b' ≡ contents late ++ (5 ∷ 6 ∷ [] ++ 2 ∷ []))
unfolding count
append_loses_example =
    append_loses (5 ∷ 6 ∷ 7 ∷ []) 3 late late-IsValid (omega arith) (omega arith) (omega arith)

retrieve_leaves_full_example :
    (b' : Buffer) × (retrieve 3 full ≡ ok b')
    × (readable_bytes b' ≡ 4)
    × (b'.is_full ≡ true)
    × (b'.start_index ≢ b'.end_index)
retrieve_leaves_full_example =
    retrieve_leaves_full 3 full full-IsValid
      (record { full = refl; some_bytes = omega arith; not_all = omega arith })

write_chunk_stale_example : (retrieve 3 full >>= write_chunk) ≡ fault undefined
write_chunk_stale_example =
    write_chunk_stale 3 full full-IsValid
      (record { full = refl; some_bytes = omega arith; not_all = omega arith }) (omega arith)

-- A `write` that takes one byte of what it is given.
abbrev one_byte : List ℕ → WriteOutcome
one_byte chunk = wrote 1

full-nonempty : contents full ≢ []
unfolding contents count
full-nonempty e = cc

write_fd-prefix_example :
    (chunk rest : List ℕ) × (write_chunk full ≡ ok chunk)
    × (write_fd one_byte full ≡ ok (write_count (one_byte chunk)))
    × (contents full ≡ chunk ++ rest)
    × (0 < length chunk)
write_fd-prefix_example = write_fd-prefix one_byte full full-IsValid full-nonempty

abbrev read_two : ℕ → ReadOutcome
read_two n = got (1 ∷ 2 ∷ [])

read_fd-ReadPost_example : ReadPost (got (1 ∷ 2 ∷ [])) front (read_fd read_two front)
unfolding count
read_fd-ReadPost_example =
    read_fd-ReadPost read_two front front-IsValid (omega arith, inl (omega arith))

run-Refines_example : Refines script front (contents front)
unfolding contents count
run-Refines_example = run-Refines script front front-IsValid refl (omega arith)
