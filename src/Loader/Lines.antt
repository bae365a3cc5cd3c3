-- ===== src/Loader/Lines.antt =====
-- ntloader/ntloader.c: the loops over the lines of a file.
use ntlinux.Common.{
  ℕ, zero, suc, ◌+◌, ◌≤◌, ◌<◌, ◌≡◌, ◌≢◌, refl, ap, List, [], ◌∷◌, ◌++◌, All, false, ◌==◌, length,
  arith, length-append,
}
use ntlinux.Ntbridge.Ring.Fill.{fold}
use ntlinux.Loader.{fgets, until, clean, line_loop}

-- A line that fits a buffer of 256 bytes with its newline and its end, and has no byte that ends it.
abbrev pub IsLine : List ℕ → Type 0
IsLine l = (length l ≤ 254) × All (λ c. (c ≢ 0) × (c ≢ 10)) l

abbrev pub unlines : List (List ℕ) → List ℕ
unlines [] = []
unlines (l ∷ ls) = l ++ 10 ∷ unlines ls

pub fgets-line :
    (n : ℕ) (l rest : List ℕ)
    → length l < n
    → All (λ c. (c ≢ 0) × (c ≢ 10)) l
    → fgets n (l ++ 10 ∷ rest) ≡ (l ++ 10 ∷ [], rest)
unfolding fgets
fgets-line zero l rest h v = absurd (omega (arith, h))
fgets-line (suc n) [] rest h v = refl
fgets-line (suc n) (c ∷ cs) rest h v =
    let e : (c == 10) ≡ false = ground (arith, v.0) in
    rw (e, fgets-line n cs rest (omega (arith, h)) v.1) refl

pub until-line : (l : List ℕ) → All (λ c. (c ≢ 0) × (c ≢ 10)) l → clean (l ++ 10 ∷ []) ≡ l
until-line [] v = refl
until-line (c ∷ cs) v =
    let e : (c == 0) ≡ false = ground (arith, v.0) in
    let f : (c == 10) ≡ false = ground (arith, v.0) in rw (e, f) (ap (◌∷◌ c) (until-line cs v.1))

-- On a text of such lines, with as much fuel as it has bytes, the loop handles the lines in order.
pub line_loop-fold {ℓ} :
    {S : Type ℓ} (handle : List ℕ → S → S) (fuel : ℕ) (ls : List (List ℕ)) (s : S)
    → All IsLine ls
    → length (unlines ls) ≤ fuel
    → line_loop handle fuel (unlines ls) s ≡ fold (λ l. handle (l ++ 10 ∷ [])) ls s
unfolding line_loop
line_loop-fold handle zero [] s v h = refl
line_loop-fold handle (suc fuel) [] s v h = refl
line_loop-fold handle zero (l ∷ ls) s v h =
    absurd (omega (arith, h, length-append l (10 ∷ unlines ls)))
line_loop-fold handle (suc fuel) ([] ∷ ls) s v h =
    rw (fgets-line 255 [] (unlines ls) (omega arith) tt)
      (line_loop-fold handle fuel ls (handle (10 ∷ []) s) v.1 (omega (arith, h)))
line_loop-fold handle (suc fuel) ((c ∷ cs) ∷ ls) s v h =
    rw (fgets-line 255 (c ∷ cs) (unlines ls) (omega (arith, v.0.0)) v.0.1) (
      line_loop-fold handle fuel ls (handle (c ∷ cs ++ 10 ∷ []) s) v.1
        (omega (arith, h, length-append cs (10 ∷ unlines ls))))

-- What the loop reads of a file, whatever is in it.
pub fgets-splits :
    (n : ℕ) (file : List ℕ)
    → let (line, rest) = fgets n file in length line + length rest ≡ length file
unfolding fgets
fgets-splits zero file = omega arith
fgets-splits (suc n) [] = omega arith
fgets-splits (suc n) (c ∷ cs) = let h = fgets-splits n cs in ground arith

pub until-shortens : (c : ℕ) (xs : List ℕ) → length (until c xs) ≤ length xs
until-shortens c [] = omega arith
until-shortens c (x ∷ xs) = let h = until-shortens c xs in ground arith
