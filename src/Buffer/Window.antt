-- ===== src/Buffer/Window.antt =====
-- A vector read round its end, as `base/Buffer.h` reads it: the bytes from an index on, in one part
-- or in two, and what a write over a part of the vector does to them.
use easy_event.Base.{
  ℕ, ◌+◌, ◌-◌, ◌≤◌, ◌≡◌, sym, ◌∙◌, ap, List, ◌++◌, arith, length, take, drop, splice, length-append,
  length-drop, length-take_le, take-append_le, take-append_add, drop-append_le, drop-append_add,
  drop-take, drop-drop, take_two,
}

module _ (st : List ℕ) where
  -- `n` bytes from index `s` on, round the end.
  abbrev pub ring : ℕ → ℕ → List ℕ
  ring s n = take n (drop s (st ++ st))

  pub ring_straight : (s n : ℕ) → s + n ≤ length st → ring s n ≡ take n (drop s st)
  ring_straight s n h =
      rw (drop-append_le s st st (omega arith))
        (take-append_le n (drop s st) st (omega (arith, length-drop s st)))

  pub ring_around :
      (s n k : ℕ)
      → s ≤ length st
      → s + n ≡ length st + k
      → k ≤ length st
      → ring s n ≡ drop s st ++ take k st
  ring_around s n k h e l =
      rw (drop-append_le s st st h)
        (take-append_add n k (drop s st) st (omega (arith, length-drop s st)))

  pub drop-ring :
      (s n len : ℕ) → len ≤ n → drop len (ring s n) ≡ take (n - len) (drop (s + len) (st ++ st))
  drop-ring s n len h =
      drop-take len (n - len) n (drop s (st ++ st)) (omega arith)
      ∙ ap (λ (ys : List ℕ). take (n - len) ys) (drop-drop len s (s + len) (st ++ st) (omega arith))

  -- Past the end, the reading starts again at the front.
  pub ring_again : (s t n : ℕ) → t ≡ length st + s → s + n ≤ length st → ring t n ≡ ring s n
  ring_again s t n e h =
      ap (λ (ys : List ℕ). take n ys) (drop-append_add t s st st e) ∙ sym (ring_straight s n h)

  -- What a write of `xs` at `i` leaves in the vector.
  module _ (i : ℕ) (xs : List ℕ) (fits : i + length xs ≤ length st) where
    pub length-splice : length (splice st i xs) ≡ length st
    length-splice = omega (
      arith,
      length-append (take i st) (xs ++ drop (i + length xs) st),
      length-append xs (drop (i + length xs) st),
      length-take_le i st (omega arith),
      length-drop (i + length xs) st,
    )

    pub take-splice : (n : ℕ) → n ≡ i + length xs → take n (splice st i xs) ≡ take i st ++ xs
    take-splice n e =
        take_two n (take i st) xs (drop (i + length xs) st)
          (omega (arith, length-take_le i st (omega arith)))

    pub drop-splice_after :
        (s : ℕ) → i + length xs ≤ s → s ≤ length st → drop s (splice st i xs) ≡ drop s st
    drop-splice_after s h l =
        drop-append_add s (s - i) (take i st) (xs ++ drop (i + length xs) st)
          (omega (arith, length-take_le i st (omega arith)))
        ∙ drop-append_add (s - i) (s - i - length xs) xs (drop (i + length xs) st) (omega arith)
        ∙ drop-drop (s - i - length xs) (i + length xs) s st (omega arith)

    pub drop-splice_before :
        (s : ℕ)
        → s ≤ i
        → drop s (splice st i xs) ≡ take (i - s) (drop s st) ++ (xs ++ drop (i + length xs) st)
    drop-splice_before s h =
        drop-append_le s (take i st) (xs ++ drop (i + length xs) st)
          (omega (arith, length-take_le i st (omega arith)))
        ∙ ap (λ (ys : List ℕ). ys ++ (xs ++ drop (i + length xs) st))
            (drop-take s (i - s) i st (omega arith))
