-- ===== src/Base/Fault.antt =====
-- Code that can stop: the build is a debug build (CMakeLists.txt), so a failed `assert` ends the
-- program, as `abort` and an exception that nothing catches do. `undefined` is C++'s undefined
-- behaviour, such as an access out of range; `exhausted` says that a model ran out of its fuel.
use mathlib.Core.Path.{◌≡◌, refl, subst}
use easy_event.Base.Tests.{if◌then◌else◌}
use mathlib.Core.Bool.{Bool, true, false}

pub data Fault : Type 0 where
  assertion : Fault
  length_error : Fault
  undefined : Fault
  aborted : Fault
  exhausted : Fault

pub data Result {ℓ} (X : Type ℓ) : Type ℓ where
  fault : Fault → Result X
  ok : X → Result X

-- What comes after a fault is not run.
infixl 5 ◌>>=◌
abbrev pub ◌>>=◌ {ℓ κ} : {X : Type ℓ} {Y : Type κ} → Result X → (X → Result Y) → Result Y
fault why >>= next = fault why
ok x >>= next = next x

infixl 5 ◌>>◌
abbrev pub ◌>>◌ {κ} : {Y : Type κ} → Result (Unit {0}) → Result Y → Result Y
first >> next = first >>= λ _. next

-- `assert(b)`
abbrev pub assert : Bool → Result (Unit {0})
assert true = ok tt
assert false = fault assertion

-- An access that is undefined unless `b`.
abbrev pub require : Bool → Result (Unit {0})
require true = ok tt
require false = fault undefined

pub ok-injective : {X : Type 0} (x y : X) → ok x ≡ ok y → x ≡ y
ok-injective x y e = cc

-- A chain of two steps that gives a value has one between them.
pub bind-ok :
    {X Y : Type 0} (m : Result X) (k : X → Result Y) (y : Y)
    → (m >>= k) ≡ ok y
    → (x : X) × (m ≡ ok x) × (k x ≡ ok y)
bind-ok (ok x) k y e = (x, refl, e)
bind-ok (fault why) k y e = absurd (cc)

-- Nothing is done after `m`.
pub bind_unit : {X : Type 0} (m : Result X) → (m >>= λ x. ok x) ≡ m
bind_unit (ok x) = refl
bind_unit (fault why) = refl

-- `P` holds of the result, if there is one.
pub record Ensures {X : Type 0} (P : X → Type 0) (m : Result X) : Type 0 where
  pub gives : (x : X) → m ≡ ok x → P x

module _ {X : Type 0} {P : X → Type 0} where
  pub Ensures-result : (x : X) → P x → Ensures P (ok x)
  Ensures-result x h = record { gives = λ y e. subst P (ok-injective x y e) h }

  pub Ensures-fault : (why : Fault) → Ensures P (fault why)
  Ensures-fault why = record { gives = λ y e. absurd (cc) }

  pub Ensures-if :
      (b : Bool) (m n : Result X) → Ensures P m → Ensures P n → Ensures P (if b then m else n)
  Ensures-if true m n h k = h
  Ensures-if false m n h k = k

  pub Ensures-assert : (b : Bool) (m : Result X) → Ensures P m → Ensures P (assert b >> m)
  Ensures-assert true m h = h
  Ensures-assert false m h = Ensures-fault assertion

module _ {X Y : Type 0} {P : Y → Type 0} where
  -- Where nothing is known of the first step, and where something is.
  pub Ensures-after :
      (m : Result X) (k : X → Result Y) → ((x : X) → Ensures P (k x)) → Ensures P (m >>= k)
  Ensures-after (fault why) k next = Ensures-fault why
  Ensures-after (ok x) k next = next x

  pub Ensures-bind :
      (Q : X → Type 0) (m : Result X) (k : X → Result Y)
      → Ensures Q m
      → ((x : X) → Q x → Ensures P (k x))
      → Ensures P (m >>= k)
  Ensures-bind Q (fault why) k h next = Ensures-fault why
  Ensures-bind Q (ok x) k h next = next x (h.gives x refl)

pub Ensures-weaken :
    {X : Type 0} {P Q : X → Type 0} {m : Result X}
    → ((x : X) → Q x → P x)
    → Ensures Q m
    → Ensures P m
Ensures-weaken imp h = record { gives = λ x e. imp x (h.gives x e) }
