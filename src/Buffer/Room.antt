-- ===== src/Buffer/Room.antt =====
-- base/Buffer.h, `makeSpace`: the vector that has grown to hold just what it must.
use easy_event.Base.{
  ℕ, suc, ◌+◌, ◌-◌, ◌≤◌, ◌<◌, ◌≡◌, ◌∙◌, ap, refl, List, ◌++◌, false, arith, length, length-append,
  add_size_lem, sub_size_lem, sub_size, nil_of_length, ok, le→ltb_false, eq→==, take-length,
  take_all, replicate, max_size, add_size, length-replicate,
}
use easy_event.Buffer.{
  Buffer, has_written, write_after_end, append_nested, make_space, resize, writable_bytes,
  readable_bytes, retrieve_all,
}
use easy_event.Buffer.Contents.{
  IsValid, contents, count, count_straight, count-le, length-contents, readable_bytes-eq-count,
  writable_bytes-eq,
}
use easy_event.Buffer.Read.{retrieve_as_string-ok}
use easy_event.Buffer.Write.{
  appended, start-appended, appended-IsValid, count-appended, contents-appended,
  write_after_end_straight, end-appended, same_size,
}

-- An empty buffer over the vector of `b` grown to `n` bytes.
pub emptied : ℕ → Buffer → Buffer
emptied n b = record {
  buffer = b.buffer ++ replicate (n - length b.buffer) 0;
  start_index = 0;
  end_index = 0;
  is_full = false;
}

resize-ok :
    (n : ℕ) (b : Buffer)
    → length b.buffer ≤ n
    → n ≤ max_size
    → resize n (retrieve_all b) ≡ ok (emptied n b)
unfolding resize emptied retrieve_all
resize-ok n b h k = rw (le→ltb_false max_size n k, take_all n b.buffer h)

module _ (n : ℕ) (b : Buffer) (v : IsValid b) (h : length b.buffer ≤ n) (k : n ≤ max_size) where
  length-emptied : length (emptied n b).buffer ≡ n
  unfolding emptied
  length-emptied = omega (
    arith,
    length-append b.buffer (replicate (n - length b.buffer) 0),
    length-replicate {A = ℕ} (n - length b.buffer) 0,
  )

  emptied-IsValid : IsValid (emptied n b)
  unfolding emptied
  emptied-IsValid = let e : length (emptied n b).buffer ≡ n = length-emptied in ground (arith, e)

  count-emptied : count (emptied n b) ≡ 0
  unfolding emptied
  count-emptied = omega (arith, count_straight (emptied n b) emptied-IsValid refl (omega arith))

-- With room for the bytes, `append` writes them at once.
pub append_nested-room :
    (depth : ℕ) (bytes : List ℕ) (len : ℕ) (b : Buffer)
    → IsValid b
    → count b + len ≤ length b.buffer
    → append_nested (suc depth) bytes len b ≡ write_after_end bytes len b
unfolding append_nested
append_nested-room depth bytes len b v room =
    rw (le→ltb_false (writable_bytes b) len (omega (arith, writable_bytes-eq b v)))

-- The vector after `makeSpace`: the content at its front, and room for just `len` bytes.
pub grown : ℕ → Buffer → Buffer
grown len b = appended (contents b) (emptied (count b + len) b)

pub new_size-eq :
    (len : ℕ) (b : Buffer)
    → IsValid b
    → len ≤ max_size
    → length b.buffer < count b + len
    → add_size (length b.buffer) (sub_size len (writable_bytes b)) ≡ count b + len
new_size-eq len b v small short =
    rw (sub_size_lem len (writable_bytes b) (omega (arith, writable_bytes-eq b v)) (omega arith)) (
      add_size_lem (length b.buffer) (len - writable_bytes b)
        (omega (arith, writable_bytes-eq b v, count-le b v))
      ∙ omega (arith, writable_bytes-eq b v))

module _ (len : ℕ) (b : Buffer) (v : IsValid b) (short : length b.buffer < count b + len)
    (within : count b + len ≤ max_size) where
  blank-IsValid : IsValid (emptied (count b + len) b)
  blank-IsValid = emptied-IsValid (count b + len) b v (omega arith) within

  blank-count : count (emptied (count b + len) b) ≡ 0
  blank-count = count-emptied (count b + len) b v (omega arith) within

  blank-size : length (emptied (count b + len) b).buffer ≡ count b + len
  blank-size = length-emptied (count b + len) b v (omega arith) within

  blank-end : (emptied (count b + len) b).end_index ≡ 0
  unfolding emptied
  blank-end = refl

  blank-room :
      count (emptied (count b + len) b) + length (contents b)
      ≤ length (emptied (count b + len) b).buffer
  blank-room = omega (arith, blank-count, blank-size, length-contents b v)

  blank-straight :
      (emptied (count b + len) b).end_index + length (contents b)
      ≤ length (emptied (count b + len) b).buffer
  blank-straight = omega (arith, blank-end, blank-size, length-contents b v)

  pub grown-IsValid : IsValid (grown len b)
  unfolding grown
  grown-IsValid =
      appended-IsValid (contents b) (emptied (count b + len) b) blank-IsValid blank-room
        blank-straight

  pub count-grown : count (grown len b) ≡ count b
  unfolding grown
  count-grown = omega (
    arith,
    count-appended (contents b) (emptied (count b + len) b) blank-IsValid blank-room blank-straight,
    blank-count,
    length-contents b v,
  )

  pub contents-grown : contents (grown len b) ≡ contents b
  unfolding grown
  contents-grown =
      contents-appended (contents b) (emptied (count b + len) b) blank-IsValid blank-room
        blank-straight
      ∙ ap (λ (ys : List ℕ). ys ++ contents b)
          (nil_of_length (contents (emptied (count b + len) b))
            (omega (arith, length-contents (emptied (count b + len) b) blank-IsValid, blank-count)))

  pub size-grown : length (grown len b).buffer ≡ count b + len
  unfolding grown has_written
  size-grown =
      same_size (contents b) (emptied (count b + len) b) blank-IsValid blank-room blank-straight
      ∙ blank-size

  pub end-grown : (grown len b).end_index ≡ count b
  unfolding grown
  end-grown =
      let e : (appended (contents b) (emptied (count b + len) b)).end_index
          ≡ (emptied (count b + len) b).end_index + length (contents b) =
        end-appended (contents b) (emptied (count b + len) b) blank-IsValid blank-room
          blank-straight
          (omega (arith, blank-end, blank-size, length-contents b v, count-le b v)) in
      e ∙ omega (arith, blank-end, length-contents b v)

  fill :
      write_after_end (contents b) (length (contents b)) (emptied (count b + len) b)
      ≡ ok (grown len b)
  unfolding grown
  fill =
      write_after_end_straight (contents b) (length (contents b)) (emptied (count b + len) b)
        blank-IsValid (omega arith) blank-straight
      ∙ ap (λ (xs : List ℕ). ok (appended xs (emptied (count b + len) b)))
          (take-length (contents b))

  pub make_space-ok : (depth : ℕ) → make_space (append_nested (suc depth)) len b ≡ ok (grown len b)
  unfolding make_space
  make_space-ok depth = rw (
    retrieve_as_string-ok b v,
    new_size-eq len b v (omega arith) short,
    resize-ok (count b + len) b (omega arith) within,
    append_nested-room depth (contents b) (length (contents b)) (emptied (count b + len) b)
        blank-IsValid blank-room,
    fill,
    eq→== (readable_bytes b) (readable_bytes (grown len b)) (
        omega (
          arith,
          readable_bytes-eq-count b v,
          readable_bytes-eq-count (grown len b) grown-IsValid,
          count-grown,
        )),
  )

pub start-grown : (len : ℕ) (b : Buffer) → (grown len b).start_index ≡ 0
unfolding grown emptied
start-grown len b = start-appended (contents b) (emptied (count b + len) b)
