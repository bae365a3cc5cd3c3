-- ===== src/Client/Queue.antt =====
-- ntabi/lib/libntabi.c and ntd/ntd.c: the submission ring between `submit` and the daemon's inner
-- loop, as a queue of slots.
pub mod Room
pub mod Turns
use ntlinux.Common.{
  ℕ, zero, suc, ◌+◌, ◌-◌, ◌%◌, ◌^◌, ◌≤◌, ◌<◌, ◌≡◌, ◌≢◌, refl, sym, ◌∙◌, ap, Option, none, some,
  true, false, ◌==◌, List, [], ◌∷◌, ◌++◌, arith, update, update_self, All, Bool-cases, inl, inr,
}
use mathlib.Core.Path.{subst}
use ntlinux.Common.Windows.{window, length-window, window-update, window-cons, Popped}
use ntlinux.Common.Distinct.{IsDistinct, pigeonhole, All-append, All-map, IsDistinct-append}
use ntlinux.Ntabi.{Shm, Slot, Request}
use ntlinux.Ntd.Dispatch.{next_index}
use ntlinux.Client.Submit.{first_free, claim, claim_found, submit, finish}

abbrev pub next_u32 : ℕ → ℕ
next_u32 a = (a + 1) % 2 ^ 32

abbrev pub sub_u32 : ℕ → ℕ → ℕ
sub_u32 a b = (a + 2 ^ 32 - b) % 2 ^ 32

pub next_u32_mod : (t : ℕ) → next_u32 t % 64 ≡ (t + 1) % 64
next_u32_mod t = omega arith

-- The slots on the ring, oldest first.
abbrev pub pending : Shm → List ℕ
pending shm = window next_u32 shm.ring shm.ring_head (sub_u32 shm.ring_tail shm.ring_head)

-- Counters in range; the slots on the ring are slots, in use, and each there once.
pub record IsQueue (shm : Shm) : Type 0 where
  pub head_lt : shm.ring_head < 2 ^ 32
  pub tail_lt : shm.ring_tail < 2 ^ 32
  pub slots_lt : All (λ i. i < 64) (pending shm)
  pub used : All (λ i. (shm.slots i).in_use ≡ true) (pending shm)
  pub distinct : IsDistinct (pending shm)

-- Counter arithmetic, as the code does it modulo 2^32.
pub size_push :
    (h t : ℕ)
    → h < 2 ^ 32
    → t < 2 ^ 32
    → sub_u32 h t < 64
    → (sub_u32 (next_u32 h) t ≡ suc (sub_u32 h t)) × (h % 64 ≡ (t + sub_u32 h t) % 64)
size_push h t a b c = (omega arith, omega arith)

pub size_pop :
    (h t : ℕ)
    → h < 2 ^ 32
    → t < 2 ^ 32
    → t ≢ h
    → (sub_u32 h t ≢ 0) × (sub_u32 h (next_u32 t) ≡ sub_u32 h t - 1)
size_pop h t a b c = (omega arith, omega arith)
