-- ===== src/Ntbridge/Ring/Loops.antt =====
-- The loops over a ring of ntbridge_protocol.h that its users run: `while (try_pop)`, and pushing one
-- element after the other.
use ntlinux.Common.{ℕ, zero, suc, ◌+◌, List, [], ◌∷◌, none, some, if◌then◌else◌}
use ntlinux.Ntbridge.Ring.{Ring, sub_u64, try_push, try_pop}

module _ {ℓ} {A : Type ℓ} where
  -- `while (try_pop)`: what was taken, in order, and the ring after it.
  unfoldable pub drain : ℕ → Ring A → List A × Ring A
  drain zero r = ([], r)
  drain (suc fuel) r =
      let (out, r') = try_pop r in
      let (rest, t) = drain fuel r' in elim out [ none ↦ ([], r') | some x ↦ (x ∷ rest, t) ]

  -- Elements pushed one by one, those that find the ring full dropped: how many went in.
  unfoldable pub push_all : List A → Ring A → ℕ × Ring A
  push_all [] r = (0, r)
  push_all (x ∷ xs) r =
      let (done, r') = try_push x r in
      let (n, t) = push_all xs r' in ((if done then n + 1 else n), t)

-- Enough rounds to see the ring empty.
abbrev pub rounds {ℓ} : {A : Type ℓ} → Ring A → ℕ
rounds r = suc (sub_u64 r.head r.tail)

-- `while (try_pop)`, each element handled on a state that the ring is no part of.
unfoldable pub pop_loop {ℓ κ} :
    {A : Type ℓ} {S : Type κ} → (A → S → S) → ℕ → Ring A → S → Ring A × S
pop_loop handle zero r s = (r, s)
pop_loop handle (suc fuel) r s =
    let (out, r') = try_pop r in
    elim out [ none ↦ (r', s) | some x ↦ pop_loop handle fuel r' (handle x s) ]
