-- ===== src/Base/Lists.antt =====
-- Lists measured and indexed by native numbers, under the library's names, and writing a block of
-- items over a part of a list.
use Prim.Native.Nat.{ℕ, zero, suc, ◌+◌, ◌-◌, ◌≤◌, ◌<◌}
use mathlib.Core.Path.{◌≡◌, refl, ap, ◌∙◌, sym}
use mathlib.Core.Logic.{◌≢◌, ◌⊎◌, inl, inr}
use easy_event.Base.Tests.{le_or_lt}
use mathlib.Core.List.{List, [], ◌∷◌, ◌++◌}
use mathlib.Core.Option.{Option, none, some}
use native.Mathlib.Omega.{arith}

module _ {ℓ} {A : Type ℓ} where
  abbrev pub length : List A → ℕ
  length [] = 0
  length (x ∷ xs) = suc (length xs)

  abbrev pub get_elem? : List A → ℕ → Option A
  get_elem? [] i = none
  get_elem? (x ∷ xs) zero = some x
  get_elem? (x ∷ xs) (suc i) = get_elem? xs i

  -- A write out of bounds changes nothing.
  abbrev pub set : List A → ℕ → A → List A
  set [] i v = []
  set (x ∷ xs) zero v = v ∷ xs
  set (x ∷ xs) (suc i) v = x ∷ set xs i v

  abbrev pub take : ℕ → List A → List A
  take zero xs = []
  take (suc n) [] = []
  take (suc n) (x ∷ xs) = x ∷ take n xs

  abbrev pub drop : ℕ → List A → List A
  drop zero xs = xs
  drop (suc n) [] = []
  drop (suc n) (x ∷ xs) = drop n xs

  abbrev pub replicate : ℕ → A → List A
  replicate zero a = []
  replicate (suc n) a = a ∷ replicate n a

module _ {ℓ} {A : Type ℓ} where
  pub length-append : (xs ys : List A) → length (xs ++ ys) ≡ length xs + length ys
  length-append [] ys = omega arith
  length-append (x ∷ xs) ys = omega (arith, length-append xs ys)

  pub nil_of_length : (xs : List A) → length xs ≡ 0 → xs ≡ []
  nil_of_length [] h = refl
  nil_of_length (x ∷ xs) h = absurd (omega arith)

  pub length-replicate : (n : ℕ) (a : A) → length (replicate n a) ≡ n
  length-replicate zero a = refl
  length-replicate (suc n) a = ap suc (length-replicate n a)

  pub length-take_le : (n : ℕ) (xs : List A) → n ≤ length xs → length (take n xs) ≡ n
  length-take_le zero xs h = refl
  length-take_le (suc n) [] h = absurd (omega arith)
  length-take_le (suc n) (x ∷ xs) h = ap suc (length-take_le n xs (omega arith))

  pub length-drop : (n : ℕ) (xs : List A) → length (drop n xs) ≡ length xs - n
  length-drop zero xs = omega arith
  length-drop (suc n) [] = omega arith
  length-drop (suc n) (x ∷ xs) = omega (arith, length-drop n xs)

  pub length-set : (xs : List A) (i : ℕ) (v : A) → length (set xs i v) ≡ length xs
  length-set [] i v = refl
  length-set (x ∷ xs) zero v = refl
  length-set (x ∷ xs) (suc i) v = ap suc (length-set xs i v)

  pub take-length : (xs : List A) → take (length xs) xs ≡ xs
  take-length [] = refl
  take-length (x ∷ xs) = ap (λ ys. x ∷ ys) (take-length xs)

  pub take_all : (n : ℕ) (xs : List A) → length xs ≤ n → take n xs ≡ xs
  take_all zero [] h = refl
  take_all zero (x ∷ xs) h = absurd (omega arith)
  take_all (suc n) [] h = refl
  take_all (suc n) (x ∷ xs) h = ap (λ ys. x ∷ ys) (take_all n xs (omega arith))

  pub take-append-drop : (n : ℕ) (xs : List A) → take n xs ++ drop n xs ≡ xs
  take-append-drop zero xs = refl
  take-append-drop (suc n) [] = refl
  take-append-drop (suc n) (x ∷ xs) = rw (take-append-drop n xs)

  pub take-append_le : (n : ℕ) (xs ys : List A) → n ≤ length xs → take n (xs ++ ys) ≡ take n xs
  take-append_le zero xs ys h = refl
  take-append_le (suc n) [] ys h = absurd (omega arith)
  take-append_le (suc n) (x ∷ xs) ys h = ap (λ zs. x ∷ zs) (take-append_le n xs ys (omega arith))

  -- `n` is the length plus `k`.
  pub take-append_add :
      (n k : ℕ) (xs ys : List A) → n ≡ length xs + k → take n (xs ++ ys) ≡ xs ++ take k ys
  take-append_add n k [] ys h = ap (λ m. take m ys) (omega arith)
  take-append_add zero k (x ∷ xs) ys h = absurd (omega arith)
  take-append_add (suc n) k (x ∷ xs) ys h =
      ap (λ zs. x ∷ zs) (take-append_add n k xs ys (omega arith))

  pub take-take : (n m : ℕ) (xs : List A) → n ≤ m → take n (take m xs) ≡ take n xs
  take-take zero m xs h = refl
  take-take (suc n) zero xs h = absurd (omega arith)
  take-take (suc n) (suc m) [] h = refl
  take-take (suc n) (suc m) (x ∷ xs) h = ap (λ ys. x ∷ ys) (take-take n m xs (omega arith))

  pub take_split :
      (n m k : ℕ) (xs : List A) → k ≡ n + m → take k xs ≡ take n xs ++ take m (drop n xs)
  take_split zero m k xs h = ap (λ j. take j xs) (omega arith)
  take_split (suc n) m zero xs h = absurd (omega arith)
  take_split (suc n) zero (suc k) [] h = refl
  take_split (suc n) (suc m) (suc k) [] h = refl
  take_split (suc n) m (suc k) (x ∷ xs) h = ap (λ ys. x ∷ ys) (take_split n m k xs (omega arith))

  pub take_two :
      (n : ℕ) (xs ys zs : List A) → n ≡ length xs + length ys → take n (xs ++ (ys ++ zs)) ≡ xs ++ ys
  take_two n xs ys zs h =
      take-append_add n (length ys) xs (ys ++ zs) h
      ∙ ap (λ ws. xs ++ ws) (take-append_le (length ys) ys zs (omega arith) ∙ take-length ys)

  pub drop-append_le :
      (n : ℕ) (xs ys : List A) → n ≤ length xs → drop n (xs ++ ys) ≡ drop n xs ++ ys
  drop-append_le zero xs ys h = refl
  drop-append_le (suc n) [] ys h = absurd (omega arith)
  drop-append_le (suc n) (x ∷ xs) ys h = drop-append_le n xs ys (omega arith)

  pub drop-append_add :
      (n k : ℕ) (xs ys : List A) → n ≡ length xs + k → drop n (xs ++ ys) ≡ drop k ys
  drop-append_add n k [] ys h = ap (λ m. drop m ys) (omega arith)
  drop-append_add zero k (x ∷ xs) ys h = absurd (omega arith)
  drop-append_add (suc n) k (x ∷ xs) ys h = drop-append_add n k xs ys (omega arith)

  pub drop-drop : (n m k : ℕ) (xs : List A) → k ≡ m + n → drop n (drop m xs) ≡ drop k xs
  drop-drop n zero k xs h = ap (λ j. drop j xs) (omega arith)
  drop-drop zero (suc m) zero [] h = refl
  drop-drop zero (suc m) (suc k) [] h = refl
  drop-drop (suc n) (suc m) zero [] h = absurd (omega arith)
  drop-drop (suc n) (suc m) (suc k) [] h = refl
  drop-drop n (suc m) zero (x ∷ xs) h = absurd (omega arith)
  drop-drop n (suc m) (suc k) (x ∷ xs) h = drop-drop n m k xs (omega arith)

  pub drop-take : (s n e : ℕ) (xs : List A) → e ≡ s + n → drop s (take e xs) ≡ take n (drop s xs)
  drop-take zero n e xs h = ap (λ m. take m xs) (omega arith)
  drop-take (suc s) n zero xs h = absurd (omega arith)
  drop-take (suc s) zero (suc e) [] h = refl
  drop-take (suc s) (suc n) (suc e) [] h = refl
  drop-take (suc s) n (suc e) (x ∷ xs) h = drop-take s n e xs (omega arith)

  -- `xs` written over `st` from index `i` on.
  abbrev pub splice : List A → ℕ → List A → List A
  splice st i xs = take i st ++ (xs ++ drop (i + length xs) st)

module _ {ℓ} {A : Type ℓ} where
  pub get_elem?_inside : (xs : List A) (i : ℕ) (x : A) → get_elem? xs i ≡ some x → i < length xs
  get_elem?_inside [] i x h = absurd (ground arith)
  get_elem?_inside (y ∷ ys) zero x h = omega arith
  get_elem?_inside (y ∷ ys) (suc i) x h = omega (arith, get_elem?_inside ys i x h)

  pub get_elem?_of_lt : (xs : List A) (i : ℕ) → i < length xs → (x : A) × (get_elem? xs i ≡ some x)
  get_elem?_of_lt [] i h = absurd (omega arith)
  get_elem?_of_lt (y ∷ ys) zero h = (y, refl)
  get_elem?_of_lt (y ∷ ys) (suc i) h = get_elem?_of_lt ys i (omega arith)

  pub get_elem?-append_left :
      (xs ys : List A) (i : ℕ) → i < length xs → get_elem? (xs ++ ys) i ≡ get_elem? xs i
  get_elem?-append_left [] ys i h = absurd (omega arith)
  get_elem?-append_left (x ∷ xs) ys zero h = refl
  get_elem?-append_left (x ∷ xs) ys (suc i) h = get_elem?-append_left xs ys i (omega arith)

  pub get_elem?-append_last :
      (xs : List A) (x : A) (i : ℕ) → i ≡ length xs → get_elem? (xs ++ x ∷ []) i ≡ some x
  get_elem?-append_last [] x zero h = refl
  get_elem?-append_last [] x (suc i) h = absurd (omega arith)
  get_elem?-append_last (y ∷ ys) x zero h = absurd (omega arith)
  get_elem?-append_last (y ∷ ys) x (suc i) h = get_elem?-append_last ys x i (omega arith)

  -- An item of a list with one more at the end is an old one or that one.
  pub get_elem?_last_cases :
      (xs : List A) (x : A) (i : ℕ) (y : A)
      → get_elem? (xs ++ x ∷ []) i ≡ some y
      → (get_elem? xs i ≡ some y) ⊎ ((i ≡ length xs) × (y ≡ x))
  get_elem?_last_cases xs x i y h = elim (le_or_lt (length xs) i) [
    | inl past ↦
        let last : i ≡ length xs =
          omega (arith, get_elem?_inside (xs ++ x ∷ []) i y h, length-append xs (x ∷ [])) in
        inr (last, ground (arith, get_elem?-append_last xs x i last))
    | inr inside ↦ inl (sym (get_elem?-append_left xs (x ∷ []) i inside) ∙ h)
  ]

  pub get_elem?-set_self :
      (xs : List A) (i : ℕ) (v : A) → i < length xs → get_elem? (set xs i v) i ≡ some v
  get_elem?-set_self [] i v h = absurd (omega arith)
  get_elem?-set_self (x ∷ xs) zero v h = refl
  get_elem?-set_self (x ∷ xs) (suc i) v h = get_elem?-set_self xs i v (omega arith)

  pub get_elem?-set_other :
      (xs : List A) (i j : ℕ) (v : A) → i ≢ j → get_elem? (set xs i v) j ≡ get_elem? xs j
  get_elem?-set_other [] i j v h = refl
  get_elem?-set_other (x ∷ xs) zero zero v h = absurd (h refl)
  get_elem?-set_other (x ∷ xs) zero (suc j) v h = refl
  get_elem?-set_other (x ∷ xs) (suc i) zero v h = refl
  get_elem?-set_other (x ∷ xs) (suc i) (suc j) v h =
      get_elem?-set_other xs i j v (λ e. h (ap suc e))

  pub get_elem?-take :
      (n : ℕ) (xs : List A) (i : ℕ) → i < n → get_elem? (take n xs) i ≡ get_elem? xs i
  get_elem?-take zero xs i h = absurd (omega arith)
  get_elem?-take (suc n) [] i h = refl
  get_elem?-take (suc n) (x ∷ xs) zero h = refl
  get_elem?-take (suc n) (x ∷ xs) (suc i) h = get_elem?-take n xs i (omega arith)

  pub get_elem?-take_inside :
      (n : ℕ) (xs : List A) (i : ℕ) (x : A)
      → get_elem? (take n xs) i ≡ some x
      → (i < n) × (get_elem? xs i ≡ some x)
  get_elem?-take_inside zero xs i x h = absurd (ground arith)
  get_elem?-take_inside (suc n) [] i x h = absurd (ground arith)
  get_elem?-take_inside (suc n) (y ∷ ys) zero x h = (omega arith, h)
  get_elem?-take_inside (suc n) (y ∷ ys) (suc i) x h =
      let (a, b) = get_elem?-take_inside n ys i x h in (omega arith, b)
