-- ===== src/Buffer/Stale.antt =====
-- base/Buffer.h, `retrieve` of a part of a full buffer: `_isFull` stays set, so the members no
-- longer fit together, and what reads them next goes wrong.
use easy_event.Base.{
  ℕ, ◌+◌, ◌-◌, ◌<◌, ◌≡◌, ◌≢◌, true, arith, length, ok, fault, undefined, ◌>>=◌, le→leb,
  lt→leb_false, lt→ltb,
}
use easy_event.Buffer.{Buffer, retrieve, retrieved, readable_bytes, write_chunk, bytes_at}
use easy_event.Buffer.Contents.{IsValid, count, count_full, readable_bytes-eq-count}
use easy_event.Buffer.Read.{advance-around, advance-within}

bytes_at-out :
    (b : Buffer) (from n : ℕ) → length b.buffer < from + n → bytes_at b from n ≡ fault undefined
unfolding bytes_at
bytes_at-out b from n h = rw (lt→leb_false (from + n) (length b.buffer) h)

-- A full buffer from which some but not all bytes are taken.
pub record TakesSome (len : ℕ) (b : Buffer) : Type 0 where
  pub full : b.is_full ≡ true
  pub some_bytes : 0 < len
  pub not_all : len < length b.buffer

module _ (len : ℕ) (b : Buffer) (v : IsValid b) (p : TakesSome len b) where
  stale_members :
      ((retrieved len b).is_full ≡ true)
      × ((retrieved len b).start_index ≢ (retrieved len b).end_index)
      × (length b.buffer < b.start_index + len
          → (retrieved len b).start_index ≡ b.start_index + len - length b.buffer)
  unfolding retrieved
  stale_members = ground (
    arith,
    p.full,
    p.some_bytes,
    p.not_all,
    advance-within (length b.buffer) b.start_index len,
    advance-around (length b.buffer) b.start_index len,
  )

  retrieve-stale : retrieve len b ≡ ok (retrieved len b)
  unfolding retrieve
  retrieve-stale = rw (
    readable_bytes-eq-count b v,
    le→leb len (count b) (omega (arith, count_full b p.full, p.not_all)),
  )

  readable-stale : readable_bytes (retrieved len b) ≡ length b.buffer
  unfolding readable_bytes retrieved
  readable-stale = ground (arith, p.full, stale_members)

  -- The bytes taken reach past the end of the vector.
  stale_past :
      length b.buffer < b.start_index + len
      → ((retrieved len b).start_index < (retrieved len b).end_index)
        × (length (retrieved len b).buffer < (retrieved len b).start_index + length b.buffer)
  unfolding retrieved
  stale_past h = ground (arith, h, p.full, stale_members)

-- `retrieve` of some but not all bytes of a full buffer leaves `readableBytes` at the size of the
-- vector, as if nothing had been taken, with the flag set and the indices apart.
pub retrieve_leaves_full :
    (len : ℕ) (b : Buffer)
    → IsValid b
    → TakesSome len b
    → (b' : Buffer) × (retrieve len b ≡ ok b')
      × (readable_bytes b' ≡ length b.buffer)
      × (b'.is_full ≡ true)
      × (b'.start_index ≢ b'.end_index)
retrieve_leaves_full len b v p = (
  retrieved len b,
  retrieve-stale len b v p,
  readable-stale len b v p,
  (stale_members len b v p).0,
  (stale_members len b v p).1,
)

-- If the bytes taken reach past the end of the vector, the `writeFd` that follows reads out of range.
pub write_chunk_stale :
    (len : ℕ) (b : Buffer)
    → IsValid b
    → TakesSome len b
    → length b.buffer < b.start_index + len
    → (retrieve len b >>= write_chunk) ≡ fault undefined
unfolding write_chunk
write_chunk_stale len b v p h = rw (
  retrieve-stale len b v p,
  lt→ltb (retrieved len b).start_index (retrieved len b).end_index (stale_past len b v p h).0,
  readable-stale len b v p,
  bytes_at-out (retrieved len b) (retrieved len b).start_index (length b.buffer)
      (stale_past len b v p h).1,
)
