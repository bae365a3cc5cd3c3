-- ===== src/Common/Distinct.antt =====
-- Lists of numbers without repetition, and the pigeonhole principle.
use Prim.Native.Nat.{ℕ, zero, suc, ◌<◌, ◌≤◌}
use mathlib.Core.Path.{◌≡◌, refl}
use mathlib.Core.Bool.{false}
use mathlib.Core.List.{List, [], ◌∷◌, ◌++◌}
use native.Mathlib.Omega.{arith}
use ntlinux.Common.Tests.{◌==◌}
use ntlinux.Common.Lists.{All, length, update, update-elim}
use ntlinux.Common.Sums.{sum_below, sum_below-update}

abbrev pub IsDistinct : List ℕ → Type 0
IsDistinct [] = Unit {0}
IsDistinct (x ∷ xs) = All (λ y. (y == x) ≡ false) xs × IsDistinct xs

-- 1 at each element of the list.
abbrev marks : List ℕ → ℕ → ℕ
marks [] = λ j. 0
marks (x ∷ xs) = update (marks xs) x 1

marks-other : (x : ℕ) (xs : List ℕ) → All (λ y. (y == x) ≡ false) xs → marks xs x ≡ 0
marks-other x [] h = refl
marks-other x (y ∷ ys) h = rw h.0 (marks-other x ys h.1)

marks_le : (xs : List ℕ) (j : ℕ) → marks xs j ≤ 1
marks_le [] j = omega arith
marks_le (x ∷ xs) j = update-elim (λ k. k ≤ 1) (marks xs) x 1 (omega arith) (marks_le xs) j

sum_below_le : (n : ℕ) (f : ℕ → ℕ) → ((j : ℕ) → f j ≤ 1) → sum_below n f ≤ n
unfolding sum_below
sum_below_le zero f h = omega arith
sum_below_le (suc n) f h = omega (arith, sum_below_le n f h, h n)

pub sum_below_zero : (n : ℕ) → sum_below n (λ j. 0) ≡ 0
unfolding sum_below
sum_below_zero zero = refl
sum_below_zero (suc n) = omega (arith, sum_below_zero n)

length-marks :
    (n : ℕ) (xs : List ℕ) → All (λ x. x < n) xs → IsDistinct xs → length xs ≡ sum_below n (marks xs)
length-marks n [] l d = omega (arith, sum_below_zero n)
length-marks n (x ∷ xs) l d = omega (
  arith,
  length-marks n xs l.1 d.1,
  sum_below-update (λ k. k) n (marks xs) x 1 l.0,
  marks-other x xs d.0,
)

-- There are at most `n` different numbers below `n`.
pub pigeonhole : (n : ℕ) (xs : List ℕ) → All (λ x. x < n) xs → IsDistinct xs → length xs ≤ n
pigeonhole n xs l d = omega (arith, length-marks n xs l d, sum_below_le n (marks xs) (marks_le xs))

pub All-append {ℓ κ} :
    {A : Type ℓ} (P : A → Type κ) (xs : List A) (x : A) → All P xs → P x → All P (xs ++ x ∷ [])
All-append P [] x h p = (p, tt)
All-append P (y ∷ ys) x h p = (h.0, All-append P ys x h.1 p)

pub All-map {ℓ κ μ} :
    {A : Type ℓ} (P : A → Type κ) (Q : A → Type μ)
    → ((x : A) → P x → Q x)
    → (xs : List A) → All P xs
    → All Q xs
All-map P Q f [] h = tt
All-map P Q f (x ∷ xs) h = (f x h.0, All-map P Q f xs h.1)

pub IsDistinct-append :
    (xs : List ℕ) (x : ℕ)
    → All (λ y. (y == x) ≡ false) xs
    → IsDistinct xs
    → IsDistinct (xs ++ x ∷ [])
IsDistinct-append [] x h d = (tt, tt)
IsDistinct-append (y ∷ ys) x h d = (
  All-append (λ z. (z == y) ≡ false) ys x d.0 (ground (arith, h.0)),
  IsDistinct-append ys x h.1 d.1,
)
