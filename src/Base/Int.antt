-- ===== src/Base/Int.antt =====
-- `int` values that can be negative: descriptors, the encoded descriptors of poll(2), indices.
use Prim.Native.Nat.{ℕ, compare, Ordering}
use mathlib.Core.Path.{◌≡◌, refl}
use mathlib.Core.Logic.{◌≢◌}
use mathlib.Core.Bool.{Bool, true, false}
use native.Mathlib.Omega.{arith}

-- `negsuc n` is -(n + 1).
pub data ℤ : Type 0 where
  pos : ℕ → ℤ
  negsuc : ℕ → ℤ

-- -x - 1
abbrev pub minus_one_minus : ℤ → ℤ
minus_one_minus (pos n) = negsuc n
minus_one_minus (negsuc n) = pos n

abbrev pub is_negative : ℤ → Bool
is_negative (pos n) = false
is_negative (negsuc n) = true

abbrev same : ℕ → ℕ → Bool
same a b = elim (compare a b) [ Ordering.eq ↦ true | _ ↦ false ]

abbrev pub eqb_ℤ : ℤ → ℤ → Bool
eqb_ℤ (pos a) (pos b) = same a b
eqb_ℤ (negsuc a) (negsuc b) = same a b
eqb_ℤ (pos a) (negsuc b) = false
eqb_ℤ (negsuc a) (pos b) = false

pub eqb_ℤ-refl : (a : ℤ) → eqb_ℤ a a ≡ true
eqb_ℤ-refl (pos a) = ground arith
eqb_ℤ-refl (negsuc a) = ground arith

pub eqb_ℤ→eq : (a b : ℤ) → eqb_ℤ a b ≡ true → a ≡ b
eqb_ℤ→eq (pos a) (pos b) h = ground arith
eqb_ℤ→eq (negsuc a) (negsuc b) h = ground arith
eqb_ℤ→eq (pos a) (negsuc b) h = cc
eqb_ℤ→eq (negsuc a) (pos b) h = cc

pub ne→eqb_ℤ_false : (a b : ℤ) → a ≢ b → eqb_ℤ a b ≡ false
ne→eqb_ℤ_false (pos a) (pos b) h = ground arith
ne→eqb_ℤ_false (negsuc a) (negsuc b) h = ground arith
ne→eqb_ℤ_false (pos a) (negsuc b) h = refl
ne→eqb_ℤ_false (negsuc a) (pos b) h = refl

pub pos-injective : {a b : ℕ} → pos a ≡ pos b → a ≡ b
pos-injective h = ground arith
