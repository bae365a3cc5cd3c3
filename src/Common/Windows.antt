-- ===== src/Common/Windows.antt =====
-- A ring of 64 elements with free-running counters, read as a list. `next` is the step of a counter.
use Prim.Native.Nat.{ℕ, zero, suc, ◌+◌, ◌-◌, ◌%◌, ◌<◌}
use mathlib.Core.Path.{◌≡◌, refl, ap, ap₂}
use mathlib.Core.Logic.{◌≢◌}
use mathlib.Core.Bool.{false}
use mathlib.Core.Option.{Option, none, some}
use mathlib.Core.List.{List, [], ◌∷◌, ◌++◌}
use native.Mathlib.Omega.{arith}
use ntlinux.Common.Tests.{◌==◌}
use ntlinux.Common.Lists.{length, update}

module _ {ℓ} {A : Type ℓ} (next : ℕ → ℕ) where
  -- The `n` elements from counter `t` on.
  abbrev pub window : (ℕ → A) → ℕ → ℕ → List A
  window slots t zero = []
  window slots t (suc n) = slots (t % 64) ∷ window slots (next t) n

  pub length-window : (slots : ℕ → A) (t n : ℕ) → length (window slots t n) ≡ n
  length-window slots t zero = refl
  length-window slots t (suc n) = ap suc (length-window slots (next t) n)

  -- A write just behind a window of fewer than 64 elements extends it.
  pub window-update :
      (next-mod : (t : ℕ) → next t % 64 ≡ (t + 1) % 64) (slots : ℕ → A) (t n i : ℕ) (x : A)
      → n < 64
      → i ≡ (t + n) % 64
      → window (update slots i x) t (suc n) ≡ window slots t n ++ x ∷ []
  window-update next-mod slots t zero i x h e = ground arith
  window-update next-mod slots t (suc n) i x h e =
      let ne : (i == t % 64) ≡ false = ground arith in
      let m = next-mod t in
      rw ne (
        ap₂ ◌∷◌ refl (window-update next-mod slots (next t) n i x (omega arith) (omega (arith, m))))

  -- `window` matches on `suc`, the code compares the counters.
  pub window-cons :
      (slots : ℕ → A) (t n : ℕ)
      → n ≢ 0
      → window slots t n ≡ slots (t % 64) ∷ window slots (next t) (n - 1)
  window-cons slots t zero h = absurd (h refl)
  window-cons slots t (suc n) h = ap (λ k. window slots t (suc k)) (omega arith)

-- What a queue does when it is popped: nothing if it is empty, else it gives up its first element.
abbrev pub Popped {ℓ} : {A : Type ℓ} → List A → Option A → List A → Type ℓ
Popped xs none ys = (xs ≡ []) × (ys ≡ [])
Popped xs (some x) ys = xs ≡ x ∷ ys
