-- ===== src/Ntbridge/Ring/Refine.antt =====
-- driver/ntbridge/protocol/ntbridge_protocol.h: the ring as a queue.
use ntlinux.Common.{
  ℕ, suc, ◌+◌, ◌-◌, ◌%◌, ◌^◌, ◌≤◌, ◌<◌, ◌≡◌, ◌≢◌, refl, sym, ◌∙◌, ap, ◌==◌, leb, ltb, List, [], ◌∷◌,
  ◌++◌, arith, if◌then◌else◌, length, Bool-cases, inl, inr, none, some,
}
use mathlib.Core.Path.{subst}
use ntlinux.Common.Windows.{window, length-window, window-update, window-cons, Popped}
use ntlinux.Ntbridge.Ring.{Ring, ring_capacity, sub_u64, next_u64, try_push, try_pop}

-- What the ring holds, oldest first.
abbrev pub contents {ℓ} : {A : Type ℓ} → Ring A → List A
contents r = window next_u64 r.slots r.tail (sub_u64 r.head r.tail)

next_u64_mod : (t : ℕ) → next_u64 t % 64 ≡ (t + 1) % 64
next_u64_mod t = omega arith

-- Counters in range, and at most 64 elements.
pub record IsRing {ℓ} {A : Type ℓ} (r : Ring A) : Type 0 where
  pub head_lt : r.head < 2 ^ 64
  pub tail_lt : r.tail < 2 ^ 64
  pub fits : sub_u64 r.head r.tail ≤ ring_capacity

-- Counter arithmetic, as the code does it modulo 2^64.
size_push :
    (h t : ℕ)
    → h < 2 ^ 64
    → t < 2 ^ 64
    → sub_u64 h t < ring_capacity
    → (sub_u64 (next_u64 h) t ≡ suc (sub_u64 h t))
      × (h % ring_capacity ≡ (t + sub_u64 h t) % ring_capacity)
size_push h t a b c = (omega arith, omega arith)

size_pop :
    (h t : ℕ)
    → h < 2 ^ 64
    → t < 2 ^ 64
    → t ≢ h
    → (sub_u64 h t ≢ 0) × (sub_u64 h (next_u64 t) ≡ sub_u64 h t - 1)
size_pop h t a b c = (omega arith, omega arith)

module _ {ℓ} {A : Type ℓ} where
  -- On a well-formed ring `try_push` accepts exactly when fewer than 64 elements are held; it then
  -- appends the element, and otherwise changes nothing. The ring stays well formed, also where
  -- `head` wraps.
  pub try_push-refines :
      {r : Ring A} (x : A)
      → IsRing r
      → let (done, t) = try_push x r in
        (done ≡ ltb (length (contents r)) ring_capacity)
        × (contents t ≡ (if done then contents r ++ x ∷ [] else contents r))
        × IsRing t
  unfolding try_push
  try_push-refines {r} x v = elim (Bool-cases (leb ring_capacity n)) [
    | inl full ↦ rw (full, length-window next_u64 r.slots r.tail n) (ground arith, refl, v)
    | inr room ↦
        let lt : n < ring_capacity = ground arith in
        let e = size_push r.head r.tail v.head_lt v.tail_lt lt in
        rw (room, length-window next_u64 r.slots r.tail n)
          (
            ground arith,
            rw e.0 (
                window-update next_u64 next_u64_mod r.slots r.tail n (r.head % ring_capacity) x lt
                  e.1),
            record { head_lt = omega arith; tail_lt = v.tail_lt; fits = omega (arith, e.0) },
          )
  ]
    where
      n : ℕ
      n = sub_u64 r.head r.tail

  -- On a well-formed ring `try_pop` fails exactly on the empty one, and otherwise gives the oldest
  -- element and keeps the others in order. The ring stays well formed, also where `tail` wraps.
  pub try_pop-refines :
      {r : Ring A}
      → IsRing r
      → let (out, t) = try_pop r in Popped (contents r) out (contents t) × IsRing t
  unfolding try_pop
  try_pop-refines {r} v = elim (Bool-cases (r.tail == r.head)) [
    | inl e ↦
        let z : sub_u64 r.head r.tail ≡ 0 = ground arith in
        let w = ap (window next_u64 r.slots r.tail) z in rw e ((w, w), v)
    | inr ne ↦
        let c = size_pop r.head r.tail v.head_lt v.tail_lt (ground arith) in
        rw ne (
          window-cons next_u64 r.slots r.tail (sub_u64 r.head r.tail) c.0
              ∙ ap
                  (λ n.
                    r.slots (r.tail % ring_capacity) ∷ window next_u64 r.slots (next_u64 r.tail) n)
                  (sym c.1),
          record { head_lt = v.head_lt; tail_lt = omega arith; fits = omega (arith, c.1) },
        )
  ]

  -- What a pop that found nothing, or an element, says of the ring.
  pub try_pop-none :
      {r : Ring A}
      → IsRing r
      → (try_pop r).0 ≡ none
      → (contents r ≡ []) × (contents (try_pop r).1 ≡ [])
  try_pop-none {r} v e =
      subst (λ o. Popped (contents r) o (contents (try_pop r).1)) e (try_pop-refines v).0

  pub try_pop-some :
      {r : Ring A} (x : A)
      → IsRing r
      → (try_pop r).0 ≡ some x
      → contents r ≡ x ∷ contents (try_pop r).1
  try_pop-some {r} x v e =
      subst (λ o. Popped (contents r) o (contents (try_pop r).1)) e (try_pop-refines v).0
