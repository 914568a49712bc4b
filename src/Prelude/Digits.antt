-- ===== src/Prelude/Digits.antt =====
-- The lowest digit of the native bit operations, which the libraries define by a recursion on
-- binary digits with fuel.
use Prim.Native.Nat.{ℕ, zero, suc, ◌+◌, ◌*◌, ◌/◌, ◌%◌, ◌≤◌, digits, bitwise}
use mathlib.Core.Path.{◌≡◌, refl}
use native.Mathlib.Omega.{arith}

module _ (rest : ℕ → ℕ) (op : ℕ → ℕ → ℕ) where
  -- Any fuel that bounds the first operand gives the same digits.
  enough_fuel : (f g a b : ℕ) → a ≤ f → a ≤ g → digits rest op f a b ≡ digits rest op g a b
  enough_fuel zero zero a b p q = refl
  enough_fuel zero (suc g) zero b p q = refl
  enough_fuel zero (suc g) (suc a) b p q = absurd (omega arith)
  enough_fuel (suc f) zero zero b p q = refl
  enough_fuel (suc f) zero (suc a) b p q = absurd (omega arith)
  enough_fuel (suc f) (suc g) zero b p q = refl
  enough_fuel (suc f) (suc g) (suc a) b p q =
      rw (enough_fuel f g (suc a / 2) (b / 2) (omega arith) (omega arith))

  pub bitwise_step :
      (a b : ℕ)
      → bitwise rest op (suc a) b ≡ bitwise rest op (suc a / 2) (b / 2) * 2 + op (suc a % 2) (b % 2)
  bitwise_step a b =
      omega (arith, enough_fuel a (suc a / 2) (suc a / 2) (b / 2) (omega arith) (omega arith))
