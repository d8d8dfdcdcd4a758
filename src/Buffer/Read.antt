-- ===== src/Buffer/Read.antt =====
-- base/Buffer.h, the reading side: `retrieve`, `retrieveAll`, `retrieveAsString`, and the bytes that
-- `writeFd` hands to the system.
use easy_event.Base.{
  true, bind-ok, ok-injective, assert, ap, ◌∙◌, Bool, ltb, leb, ◌&&◌, ◌==◌, if◌then◌else◌, ℕ, ◌+◌,
  ◌-◌, ◌≤◌, ◌<◌, ◌≡◌, ◌⊎◌, sym, refl, inl, inr, [], ◌++◌, false, arith, length, take, drop,
  length-drop, nil_of_length, take_all, add_size_lem, max_size, sub_size_lem, ok, fault, assertion,
  lt→leb_false, le→leb, lt→ltb, le→ltb_false, le_or_lt,
}
use easy_event.Buffer.{
  readable_bytes, buffer_size, Buffer, retrieve, retrieved, retrieve_all, retrieve_as_string,
  bytes_at, both_parts, advance,
}
use easy_event.Buffer.Contents.{
  IsValid, contents, count, count_straight, count_wrapped, count_full, count-le, length-contents,
  readable_bytes-eq-count,
}
use easy_event.Buffer.Window.{ring_straight, ring_around, drop-ring, ring_again}

pub retrieve_all-IsValid : (b : Buffer) → IsValid b → IsValid (retrieve_all b)
unfolding retrieve_all
retrieve_all-IsValid b v = ground arith

pub contents-retrieve_all : (b : Buffer) → IsValid b → contents (retrieve_all b) ≡ []
unfolding retrieve_all
contents-retrieve_all b v = nil_of_length (contents (retrieve_all b)) (
    omega (
      arith,
      length-contents (retrieve_all b) (retrieve_all-IsValid b v),
      count_straight (retrieve_all b) (retrieve_all-IsValid b v) refl (omega arith),
    ))

pub bytes_at-ok :
    (b : Buffer) (from n : ℕ)
    → from + n ≤ length b.buffer
    → bytes_at b from n ≡ ok (take n (drop from b.buffer))
unfolding bytes_at
bytes_at-ok b from n h = rw (le→leb (from + n) (length b.buffer) h)

-- The content in one part, and in two.
pub contents_straight :
    (b : Buffer)
    → IsValid b
    → b.start_index + count b ≤ length b.buffer
    → contents b ≡ take (count b) (drop b.start_index b.buffer)
unfolding contents
contents_straight b v h = ring_straight b.buffer b.start_index (count b) h

pub contents_around :
    (b : Buffer)
    → IsValid b
    → b.start_index + count b ≡ length b.buffer + b.end_index
    → contents b ≡ drop b.start_index b.buffer ++ take b.end_index b.buffer
unfolding contents
contents_around b v h =
    ring_around b.buffer b.start_index (count b) b.end_index (omega arith) h (omega arith)

-- The two parts are the whole content where it goes round the end.
both_parts-ok :
    (b : Buffer)
    → IsValid b
    → b.start_index + count b ≡ length b.buffer + b.end_index
    → both_parts b ≡ ok (contents b)
unfolding both_parts
both_parts-ok b v h = rw (
  sub_size_lem (length b.buffer) b.start_index (omega arith) (omega arith),
  bytes_at-ok b b.start_index (length b.buffer - b.start_index) (omega arith),
  bytes_at-ok b 0 b.end_index (omega arith),
  contents_around b v h,
  take_all (length b.buffer - b.start_index) (drop b.start_index b.buffer)
      (omega (arith, length-drop b.start_index b.buffer)),
)

-- `retrieveAsString` on a well-formed buffer returns exactly the bytes held, in order, and empties
-- the buffer; it reads nothing out of range.
pub retrieve_as_string-ok :
    (b : Buffer) → IsValid b → retrieve_as_string b ≡ ok (contents b, retrieve_all b)
unfolding retrieve_as_string
retrieve_as_string-ok b v = ground (
  arith,
  both_parts-ok b v,
  bytes_at-ok b b.start_index (count b),
  contents_straight b v,
  readable_bytes-eq-count b v,
  count_straight b v,
  count_wrapped b v,
  count_full b,
  length-contents b v,
  nil_of_length (contents b),
)

pub advance-within :
    (size i len : ℕ) → i + len < size → size ≤ max_size → advance size i len ≡ i + len
unfolding advance
advance-within size i len h k = rw (add_size_lem i len (omega arith), lt→ltb (i + len) size h)

pub advance-around :
    (size i len : ℕ)
    → size ≤ i + len
    → i < size
    → len ≤ size
    → size ≤ max_size
    → advance size i len ≡ i + len - size
unfolding advance
advance-around size i len h k l m =
    rw (add_size_lem i len (omega arith), le→ltb_false (i + len) size h)
      (sub_size_lem (i + len) size h (omega arith))

-- Where `retrieve` is right: on a buffer that is not marked full, or for all its bytes.
abbrev pub Takes : ℕ → Buffer → Type 0
Takes len b = (len ≤ count b) × ((b.is_full ≡ false) ⊎ (len ≡ count b))

module _ (len : ℕ) (b : Buffer) (v : IsValid b) (t : Takes len b) where
  retrieved_members :
      (b.start_index + len < length b.buffer → (retrieved len b).start_index ≡ b.start_index + len)
      × (length b.buffer ≤ b.start_index + len
          → (retrieved len b).start_index ≡ b.start_index + len - length b.buffer)
      × ((retrieved len b).is_full ≡ false)
  unfolding retrieved
  retrieved_members = ground (
    arith,
    advance-within (length b.buffer) b.start_index len,
    advance-around (length b.buffer) b.start_index len,
    count-le b v,
    count_full b,
  )

  pub retrieved-IsValid : IsValid (retrieved len b)
  unfolding retrieved
  retrieved-IsValid = ground (arith, retrieved_members, count-le b v)

  pub count-retrieved : count (retrieved len b) ≡ count b - len
  unfolding retrieved
  count-retrieved = ground (
    arith,
    retrieved_members,
    count-le b v,
    count_full b,
    count_straight b v,
    count_wrapped b v,
    count_straight (retrieved len b) retrieved-IsValid,
    count_wrapped (retrieved len b) retrieved-IsValid,
  )

  pub contents-retrieved : contents (retrieved len b) ≡ drop len (contents b)
  unfolding contents retrieved
  contents-retrieved =
      rw (count-retrieved, drop-ring b.buffer b.start_index (count b) len t.0)
        (elim (le_or_lt (length b.buffer) (b.start_index + len)) [
          | inl past ↦
              rw
                (advance-around (length b.buffer) b.start_index len past v.start_in
                  (omega (arith, t.0, count-le b v)) v.within_max)
                (sym (
                  ring_again b.buffer (b.start_index + len - length b.buffer) (b.start_index + len)
                    (count b - len) (omega arith) (omega (arith, t.0, count-le b v))))
          | inr inside ↦ rw (advance-within (length b.buffer) b.start_index len inside v.within_max)
        ])

-- `retrieve` of no more than is held drops exactly that many bytes from the front and leaves a
-- well-formed buffer, on a buffer that is not marked full, or when it takes all there is.
pub retrieve-drops :
    (len : ℕ) (b : Buffer)
    → IsValid b
    → len ≤ length (contents b)
    → (b.is_full ≡ false) ⊎ (len ≡ length (contents b))
    → (b' : Buffer) × (retrieve len b ≡ ok b') × IsValid b' × (contents b' ≡ drop len (contents b))
unfolding retrieve
retrieve-drops len b v h f =
    let takes : Takes len b = rw (← length-contents b v) (h, f) in
    (
      retrieved len b,
      rw (readable_bytes-eq-count b v, le→leb len (count b) takes.0),
      retrieved-IsValid len b v takes,
      contents-retrieved len b v takes,
    )

-- A buffer that is not full does not become full by `retrieve`.
pub retrieve-not_full :
    (len : ℕ) (b b' : Buffer) → b.is_full ≡ false → retrieve len b ≡ ok b' → b'.is_full ≡ false
unfolding retrieve retrieved
retrieve-not_full len b b' h e =
    let (_, _, done) =
      bind-ok (assert (leb len (readable_bytes b))) (λ _. ok (retrieved len b)) b' e in
    sym (ap (λ (x : Buffer). x.is_full) (ok-injective (retrieved len b) b' done))
    ∙ by_test (ltb 0 len && advance (buffer_size b) b.start_index len == b.end_index)
  where
    by_test : (t : Bool) → (if t then false else b.is_full) ≡ false
    by_test true = refl
    by_test false = h

-- `retrieve` of more than is held stops at its assertion.
pub retrieve-refuses :
    (len : ℕ) (b : Buffer)
    → IsValid b
    → length (contents b) < len
    → retrieve len b ≡ fault assertion
unfolding retrieve
retrieve-refuses len b v h =
    rw (readable_bytes-eq-count b v, lt→leb_false len (count b) (rw (length-contents b v) at h))
