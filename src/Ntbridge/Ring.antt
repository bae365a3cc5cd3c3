-- ===== src/Ntbridge/Ring.antt =====
-- driver/ntbridge/protocol/ntbridge_protocol.h: the ring that each of its macros declares, for any
-- element type. The counters run free modulo 2^64; the builtins order memory, and each call is one
-- step here.
pub mod Refine
pub mod Loops
pub mod Fill
use ntlinux.Common.{
  ℕ, ◌+◌, ◌-◌, ◌%◌, ◌^◌, Option, none, some, Bool, true, false, ◌==◌, leb, if◌then◌else◌, update,
}

abbrev pub ring_capacity : ℕ
ring_capacity = 64

pub record Ring {ℓ} (A : Type ℓ) : Type ℓ where
  pub head : ℕ
  pub tail : ℕ
  pub slots : ℕ → A

-- `head - tail` and `counter + 1` on uint64_t
abbrev pub sub_u64 : ℕ → ℕ → ℕ
sub_u64 a b = (a + 2 ^ 64 - b) % 2 ^ 64

abbrev pub next_u64 : ℕ → ℕ
next_u64 a = (a + 1) % 2 ^ 64

module _ {ℓ} {A : Type ℓ} where
  -- false: the ring is full.
  unfoldable pub try_push : A → Ring A → Bool × Ring A
  try_push item r = if leb ring_capacity (sub_u64 r.head r.tail) then (false, r) else (
    true,
    record r { slots = update r.slots (r.head % ring_capacity) item; head = next_u64 r.head },
  )

  -- none: the ring is empty.
  unfoldable pub try_pop : Ring A → Option A × Ring A
  try_pop r =
      if r.tail == r.head
      then (none, r)
      else (some (r.slots (r.tail % ring_capacity)), record r { tail = next_u64 r.tail })
