-- ===== src/Ntbridge/Ring/Fill.antt =====
-- What the loops over a ring of ntbridge_protocol.h do to what the ring holds.
use ntlinux.Common.{
  append_nil, append_assoc, ℕ, zero, suc, ◌+◌, ◌-◌, ◌<◌, ◌≡◌, refl, sym, ap, ◌∙◌, List, [], ◌∷◌,
  ◌++◌, Bool, true, false, arith, take, length, ltb, if◌then◌else◌, Option-cases, Bool-cases, inl,
  inr,
}
use ntlinux.Ntbridge.Ring.{Ring, try_push, try_pop}
use ntlinux.Ntbridge.Ring.Refine.{
  contents, IsRing, try_push-refines, try_pop-refines, try_pop-none, try_pop-some,
}
use ntlinux.Common.Windows.{length-window}
use ntlinux.Ntbridge.Ring.{sub_u64, next_u64}
use ntlinux.Ntbridge.Ring.Loops.{drain, push_all, rounds, pop_loop}

-- A counter that counts a success.
pub counted : (d : Bool) (n : ℕ) → (if d then n + 1 else n) ≡ n + (if d then 1 else 0)
counted true n = refl
counted false n = omega arith

module _ {ℓ} {A : Type ℓ} where
  pub length-snoc : (xs : List A) (x : A) → length (xs ++ x ∷ []) ≡ suc (length xs)
  length-snoc [] x = refl
  length-snoc (y ∷ ys) x = ap suc (length-snoc ys x)

  -- A queue of 64 places with as many of `xs` behind `ys` as fit.
  abbrev pub fill : List A → List A → List A
  fill ys xs = ys ++ take (64 - length ys) xs

  pub take_nil : (n : ℕ) → take {A = A} n [] ≡ []
  take_nil zero = refl
  take_nil (suc n) = refl

  pub fill_nil : (ys : List A) → fill ys [] ≡ ys
  fill_nil ys = rw (take_nil (64 - length ys)) (append_nil ys)

  pub fill-cons :
      (ys : List A) (x : A) (xs : List A)
      → fill ys (x ∷ xs) ≡ fill (if ltb (length ys) 64 then ys ++ x ∷ [] else ys) xs
  fill-cons ys x xs = elim (Bool-cases (ltb (length ys) 64)) [
    | inl lt ↦
        let e : 64 - length ys ≡ suc (64 - length (ys ++ x ∷ [])) =
          ground (arith, length-snoc ys x) in
        rw (lt, e) (sym (append_assoc ys (x ∷ []) (take (64 - length (ys ++ x ∷ [])) xs)))
    | inr ge ↦ let e : 64 - length ys ≡ 0 = ground arith in rw (ge, e) refl
  ]

  -- How long the ring is after a push that was accepted, or refused.
  pub pushed_length :
      (x : A) {r : Ring A} (d : Bool)
      → IsRing r
      → (try_push x r).0 ≡ d
      → length (contents (try_push x r).1) ≡ length (contents r) + (if d then 1 else 0)
  pushed_length x {r} d v e =
      let p = try_push-refines x v in
      ap length (p.1 ∙ ap (λ b. if b then contents r ++ x ∷ [] else contents r) e) ∙ grown d
    where
      grown :
          (b : Bool)
          → length (if b then contents r ++ x ∷ [] else contents r)
            ≡ length (contents r) + (if b then 1 else 0)
      grown true = omega (arith, length-snoc (contents r) x)
      grown false = omega arith

  -- Pushing one by one appends what fits, in order, and counts it.
  pub push_all-fills :
      (xs : List A) {r : Ring A}
      → IsRing r
      → let (n, t) = push_all xs r in
        (contents t ≡ fill (contents r) xs)
        × (length (contents t) ≡ length (contents r) + n)
        × IsRing t
  unfolding push_all
  push_all-fills [] {r} v = (sym (fill_nil (contents r)), omega arith, v)
  push_all-fills (x ∷ xs) {r} v =
      let p = try_push-refines x v in
      let h = push_all-fills xs p.2 in
      let e = p.1 ∙ ap (λ d. if d then contents r ++ x ∷ [] else contents r) p.0 in
      (
        h.0 ∙ ap (λ c. fill c xs) e ∙ sym (fill-cons (contents r) x xs),
        omega (
          arith,
          h.1,
          pushed_length x (try_push x r).0 v refl,
          counted (try_push x r).0 (push_all xs (try_push x r).1).0,
        ),
        h.2,
      )

  -- The loop takes everything, in order, and ends at the empty ring.
  pub drain-empties :
      (fuel : ℕ) {r : Ring A}
      → IsRing r
      → length (contents r) < fuel
      → let (xs, t) = drain fuel r in (xs ≡ contents r) × (contents t ≡ []) × IsRing t
  unfolding drain
  drain-empties zero v lt = absurd (omega arith)
  drain-empties (suc fuel) {r} v lt =
      let p = try_pop-refines v in
      elim (Option-cases (try_pop r).0) [
        | inl e ↦ let q = try_pop-none v e in rw (e, drain) (sym q.0, q.1, p.1)
        | inr (x, e) ↦
            let q : contents r ≡ x ∷ contents (try_pop r).1 = try_pop-some x v e in
            let h = drain-empties fuel p.1 (omega (arith, ap length q)) in
            rw (e, drain) (ap (◌∷◌ x) h.0 ∙ sym q, h.1, h.2)
      ]

  pub rounds_enough : (r : Ring A) → length (contents r) < rounds r
  rounds_enough r = omega (arith, length-window next_u64 r.slots r.tail (sub_u64 r.head r.tail))

-- `handle` on each element, oldest first.
abbrev pub fold {ℓ κ} : {A : Type ℓ} {S : Type κ} → (A → S → S) → List A → S → S
fold handle [] s = s
fold handle (x ∷ xs) s = fold handle xs (handle x s)

-- The loop handles everything, in order, and ends at the empty ring.
pub pop_loop-fold {ℓ κ} :
    {A : Type ℓ} {S : Type κ} (handle : A → S → S) (fuel : ℕ) {r : Ring A} (s : S)
    → IsRing r
    → length (contents r) < fuel
    → let (t, s') = pop_loop handle fuel r s in
      (s' ≡ fold handle (contents r) s) × (contents t ≡ []) × IsRing t
unfolding pop_loop
pop_loop-fold handle zero s v lt = absurd (omega arith)
pop_loop-fold handle (suc fuel) {r} s v lt =
    let p = try_pop-refines v in
    elim (Option-cases (try_pop r).0) [
      | inl e ↦ let q = try_pop-none v e in rw (e, pop_loop, q.0) (refl, q.1, p.1)
      | inr (x, e) ↦
          let q : contents r ≡ x ∷ contents (try_pop r).1 = try_pop-some x v e in
          let h = pop_loop-fold handle fuel (handle x s) p.1 (omega (arith, ap length q)) in
          rw (e, pop_loop, q) h
    ]
