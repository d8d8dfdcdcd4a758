-- ===== src/Buffer/Fifo.antt =====
-- base/Buffer.h as its reading clients use it: whole strings are appended, and the content is taken
-- or dropped whole. So used, a buffer is a queue of bytes.
use easy_event.Base.{
  ℕ, ◌+◌, ◌≤◌, ◌≡◌, refl, sym, ◌∙◌, ap, ap₂, arith, length, Result, ok, ◌>>=◌, List, [], ◌∷◌, ◌++◌,
  max_size, take-length, le_or_lt, length-append,
}
use easy_event.Buffer.{Buffer, append_string, retrieve_all, retrieve_as_string}
use easy_event.Buffer.Contents.{IsValid, contents, count, layout, length-contents}
use easy_event.Buffer.Read.{retrieve_as_string-ok, retrieve_all-IsValid, contents-retrieve_all}
use easy_event.Buffer.Grow.{Appends, append-contents}

pub data Op : Type 0 where
  put : List ℕ → Op
  take_string : Op
  clear : Op

-- The strings that the calls return, in order, and the buffer after them.
pub run : List Op → Buffer → Result (List (List ℕ) × Buffer)
run [] b = ok ([], b)
run (put bytes ∷ ops) b = append_string bytes b >>= run ops
run (take_string ∷ ops) b = do
  (str, b') ← retrieve_as_string b
  (strs, end) ← run ops b'
  ok (str ∷ strs, end)
run (clear ∷ ops) b = run ops (retrieve_all b)

-- The same calls on a queue of bytes.
pub queue_run : List Op → List ℕ → List (List ℕ) × List ℕ
queue_run [] q = ([], q)
queue_run (put bytes ∷ ops) q = queue_run ops (q ++ bytes)
queue_run (take_string ∷ ops) q = let (strs, end) = queue_run ops [] in (q ∷ strs, end)
queue_run (clear ∷ ops) q = queue_run ops []

-- The bytes that are put in all.
abbrev pub total : List Op → ℕ
total [] = 0
total (put bytes ∷ ops) = length bytes + total ops
total (take_string ∷ ops) = total ops
total (clear ∷ ops) = total ops

-- With the start index at the front, nothing appended goes round the end.
Appends-front : (len : ℕ) (b : Buffer) → IsValid b → b.start_index ≡ 0 → Appends len b
Appends-front len b v s = ground (arith, layout b v, le_or_lt (count b + len) (length b.buffer))

-- What running `ops` on `b` does, where a queue would start from `q`.
abbrev pub Refines : List Op → Buffer → List ℕ → Type 0
Refines ops b q =
    (b' : Buffer) × (run ops b ≡ ok ((queue_run ops q).0, b'))
    × IsValid b'
    × (contents b' ≡ (queue_run ops q).1)

module _ (b : Buffer) (v : IsValid b) where
  start-retrieve_all : (retrieve_all b).start_index ≡ 0
  unfolding retrieve_all
  start-retrieve_all = refl

run_from :
    (ops : List Op) (b : Buffer) (q : List ℕ)
    → contents b ≡ q
    → IsValid b
    → b.start_index ≡ 0
    → length q + total ops ≤ max_size
    → Refines ops b q
unfolding run queue_run append_string
run_from [] b q e v s h = (b, refl, v, e)
run_from (put bytes ∷ ops) b q e v s h =
    let held : count b ≡ length q = sym (length-contents b v) ∙ ap (λ (xs : List ℕ). length xs) e in
    let (b', did, v', c, start) =
      append-contents bytes (length bytes) b v (omega arith) (omega (arith, held))
        (Appends-front (length bytes) b v s) in
    rw did (
      run_from ops b' (q ++ bytes) (c ∙ ap₂ ◌++◌ e (take-length bytes)) v' (omega (arith, start))
        (omega (arith, length-append q bytes)))
run_from (take_string ∷ ops) b q e v s h =
    let (b', did, v', c) =
      run_from ops (retrieve_all b) [] (contents-retrieve_all b v) (retrieve_all-IsValid b v)
        (start-retrieve_all b v) (omega arith) in
    (b', rw (retrieve_as_string-ok b v, did, e), v', c)
run_from (clear ∷ ops) b q e v s h =
    run_from ops (retrieve_all b) [] (contents-retrieve_all b v) (retrieve_all-IsValid b v)
      (start-retrieve_all b v) (omega arith)

-- From a well-formed buffer whose start index is 0, every sequence of these calls succeeds, returns
-- the strings that a queue of bytes returns, and leaves the queue's content in a well-formed
-- buffer, as long as the bytes held and put stay within the largest size of a vector.
pub run-Refines :
    (ops : List Op) (b : Buffer)
    → IsValid b
    → b.start_index ≡ 0
    → length (contents b) + total ops ≤ max_size
    → Refines ops b (contents b)
run-Refines ops b = run_from ops b (contents b) refl
