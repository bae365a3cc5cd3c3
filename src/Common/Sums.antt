-- ===== src/Common/Sums.antt =====
-- Finite sums over addresses, under a write.
use Prim.Native.Nat.{ℕ, zero, suc, ◌+◌, ◌≤◌, ◌<◌}
use mathlib.Core.Path.{◌≡◌, refl}
use native.Mathlib.Omega.{arith}
use native.Mathlib.Decide.{dec_lt}
use native.Mathlib.Numerals.{add-one}
use ntlinux.Common.Lists.{update}

unfoldable pub sum_below : ℕ → (ℕ → ℕ) → ℕ
sum_below zero f = 0
sum_below (suc n) f = sum_below n f + f n

module _ {ℓ} {A : Type ℓ} (c : A → ℕ) where
  -- A write at or above the bound leaves the sum alone.
  pub sum_below-update_above :
      (n : ℕ) (f : ℕ → A) (i : ℕ) (v : A)
      → n ≤ i
      → sum_below n (λ j. c (update f i v j)) ≡ sum_below n (λ j. c (f j))
  unfolding sum_below
  sum_below-update_above zero f i v h = refl
  sum_below-update_above (suc n) f i v h =
      ground (arith, sum_below-update_above n f i v (omega arith))

  -- A write below the bound exchanges one summand.
  pub sum_below-update :
      (n : ℕ) (f : ℕ → A) (i : ℕ) (v : A)
      → i < n
      → sum_below n (λ j. c (update f i v j)) + c (f i) ≡ sum_below n (λ j. c (f j)) + c v
  unfolding sum_below
  sum_below-update zero f i v h = elim h [ ]
  sum_below-update (suc n) f i v h = elim (dec_lt i n) [
    | yes p ↦ ground (arith, sum_below-update n f i v p)
    | no p ↦
        let e : n ≡ i = omega arith in
        rw e (ground (arith, sum_below-update_above i f i v (omega arith)))
  ]

  -- One more address, written at the same time.
  pub sum_below-extend :
      (n : ℕ) (f : ℕ → A) (v : A)
      → sum_below (n + 1) (λ j. c (update f n v j)) ≡ sum_below n (λ j. c (f j)) + c v
  unfolding sum_below
  sum_below-extend n f v = rw add-one (ground (arith, sum_below-update_above n f n v (omega arith)))
