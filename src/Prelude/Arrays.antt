-- ===== src/Prelude/Arrays.antt =====
-- A C array is a function from its indices. What lies outside the array's bounds is never read by
-- the code; the modules state the bounds where they matter.
use Prim.Native.Nat.{ℕ, zero, suc, ◌+◌, ◌<◌}
use mathlib.Core.Path.{◌≡◌, refl}
use mathlib.Core.Logic.{◌≢◌}
use native.Mathlib.Omega.{arith}
use native.Mathlib.Decide.{ℕ_discrete}
use my_microkernel.Prelude.Tests.{◌==◌, if◌then◌else◌}

module _ {ℓ} {A : Type ℓ} where
  -- `a[i] = v`
  abbrev pub update : (ℕ → A) → ℕ → A → ℕ → A
  update a i v j = if i == j then v else a j

  pub update_self : (a : ℕ → A) (i : ℕ) (v : A) → update a i v i ≡ v
  update_self a i v = ground arith

  pub update_ne : (a : ℕ → A) (i j : ℕ) (v : A) → i ≢ j → update a i v j ≡ a j
  update_ne a i j v ne = ground arith

-- The sum of `f i` over i < n.
unfoldable pub sum_below : ℕ → (ℕ → ℕ) → ℕ
sum_below zero f = 0
sum_below (suc n) f = sum_below n f + f n

pub sum_below-eq :
    (n : ℕ) (f g : ℕ → ℕ) → ((i : ℕ) → i < n → f i ≡ g i) → sum_below n f ≡ sum_below n g
unfolding sum_below
sum_below-eq zero f g h = refl
sum_below-eq (suc n) f g h =
    omega (arith, h n (omega arith), sum_below-eq n f g (λ i p. h i (omega arith)))

-- Changing one term changes the sum by the difference.
pub sum_below-change :
    (n k : ℕ) (f g : ℕ → ℕ)
    → k < n
    → ((i : ℕ) → i ≢ k → f i ≡ g i)
    → sum_below n f + g k ≡ sum_below n g + f k
unfolding sum_below
sum_below-change zero k f g h e = absurd (omega arith)
sum_below-change (suc n) k f g h e = elim (ℕ_discrete k n) [
  | yes p ↦ rw p (omega (arith, sum_below-eq n f g (λ i q. e i (omega arith))))
  | no p ↦ omega (arith, sum_below-change n k f g (omega arith) e, e n (omega arith))
]
