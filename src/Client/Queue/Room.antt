-- ===== src/Client/Queue/Room.antt =====
-- ntabi/lib/libntabi.c, `submit`: the search for a free slot and the room on the ring.
use ntlinux.Common.{
  ℕ, zero, suc, ◌+◌, ◌%◌, ◌≤◌, ◌<◌, ◌≡◌, ◌≢◌, sym, ◌∙◌, ap, Option, none, some, true, false, ◌==◌,
  List, [], ◌∷◌, ◌++◌, arith, update, update_self, All, Bool-cases, inl, inr,
}
use mathlib.Core.Path.{subst}
use ntlinux.Common.Windows.{length-window, window-update}
use ntlinux.Common.Distinct.{IsDistinct, pigeonhole, All-append, All-map, IsDistinct-append}
use ntlinux.Ntabi.{Shm, Slot, Request}
use ntlinux.Client.Submit.{first_free, claim}
use ntlinux.Client.Queue.{IsQueue, pending, next_u32, sub_u32, next_u32_mod, size_push}

-- What `first_free` finds is free, and where it finds nothing all slots are in use.
abbrev pub Found : (ℕ → Slot) → ℕ → ℕ → Option ℕ → Type 0
Found slots i n none = (j : ℕ) → i ≤ j → j < i + n → (slots j).in_use ≡ true
Found slots i n (some k) = (i ≤ k) × (k < i + n) × ((slots k).in_use ≡ false)

pub first_free-Found : (slots : ℕ → Slot) (i n : ℕ) → Found slots i n (first_free slots i n)
unfolding first_free
first_free-Found slots i zero = λ j a b. absurd (omega arith)
first_free-Found slots i (suc n) = elim (Bool-cases (slots i).in_use) [
  | inl u ↦ rw u (grow (first_free slots (i + 1) n) u (first_free-Found slots (i + 1) n))
  | inr f ↦ rw f (omega arith, omega arith, f)
]
  where
    grow :
        (r : Option ℕ) → (slots i).in_use ≡ true → Found slots (i + 1) n r → Found slots i (suc n) r
    grow none u h = λ j a b. elim (Bool-cases (i == j)) [
      | inl e ↦ let q : i ≡ j = ground arith in ap (λ k. (slots k).in_use) (sym q) ∙ u
      | inr e ↦ h j (ground arith) (omega arith)
    ]
    grow (some k) u h = (omega (arith, h.0), omega (arith, h.1), h.2)

-- A slot that is not in use is not on the ring.
pub free-other :
    (slots : ℕ → Slot) (i : ℕ)
    → (slots i).in_use ≡ false
    → (xs : List ℕ) → All (λ j. (slots j).in_use ≡ true) xs
    → All (λ j. (j == i) ≡ false) xs
free-other slots i f =
    All-map (λ j. (slots j).in_use ≡ true) (λ j. (j == i) ≡ false)
      (λ j u. elim (Bool-cases (j == i)) [
        | inl e ↦
            let q : j ≡ i = ground arith in
            absurd (true≢false (sym u ∙ ap (λ k. (slots k).in_use) q ∙ f))
        | inr e ↦ e
      ])
  where
    true≢false : true ≢ false
    true≢false e = cc e

-- Filling a slot of which the ring holds nothing keeps the slots on the ring in use.
pub used-update :
    (slots : ℕ → Slot) (i : ℕ) (v : Slot) (xs : List ℕ)
    → All (λ j. (j == i) ≡ false) xs
    → All (λ j. (slots j).in_use ≡ true) xs
    → All (λ j. (update slots i v j).in_use ≡ true) xs
used-update slots i v [] o h = tt
used-update slots i v (x ∷ xs) o h =
    let ne : (i == x) ≡ false = ground (arith, o.0) in (rw ne h.0, used-update slots i v xs o.1 h.1)

-- While a slot is free the ring has room for it.
has_room :
    {shm : Shm} (i : ℕ)
    → i < 64
    → (shm.slots i).in_use ≡ false
    → IsQueue shm
    → sub_u32 shm.ring_tail shm.ring_head < 64
has_room {shm} i l f v =
    let p =
      pigeonhole 64 (i ∷ pending shm) (l, v.slots_lt)
        (free-other shm.slots i f (pending shm) v.used, v.distinct) in
    let e = length-window next_u32 shm.ring shm.ring_head (sub_u32 shm.ring_tail shm.ring_head) in
    omega (arith, p, e)

pub pending-claim :
    {shm : Shm} (pid tid : ℕ) (req : Request) (i : ℕ)
    → i < 64
    → (shm.slots i).in_use ≡ false
    → IsQueue shm
    → pending (claim pid tid req i shm) ≡ pending shm ++ i ∷ []
unfolding claim
pending-claim {shm} pid tid req i l f v =
    let e = size_push shm.ring_tail shm.ring_head v.tail_lt v.head_lt (has_room i l f v) in
    rw e.0 (
      window-update next_u32 next_u32_mod shm.ring shm.ring_head
        (sub_u32 shm.ring_tail shm.ring_head) (shm.ring_tail % 64) i (has_room i l f v) e.1)

pub claim-IsQueue :
    {shm : Shm} (pid tid : ℕ) (req : Request) (i : ℕ)
    → i < 64
    → (shm.slots i).in_use ≡ false
    → IsQueue shm
    → IsQueue (claim pid tid req i shm)
unfolding claim
claim-IsQueue {shm} pid tid req i l f v =
    let e = sym (pending-claim pid tid req i l f v) in
    let o = free-other shm.slots i f (pending shm) v.used in
    record {
      head_lt = v.head_lt;
      tail_lt = omega arith;
      slots_lt =
          subst (λ xs. All (λ j. j < 64) xs) e
            (All-append (λ j. j < 64) (pending shm) i v.slots_lt l);
      used =
          subst (λ xs. All (λ j. ((claim pid tid req i shm).slots j).in_use ≡ true) xs) e
            (All-append (λ j. ((claim pid tid req i shm).slots j).in_use ≡ true) (pending shm) i
              (used-update shm.slots i _ (pending shm) o v.used)
              (ap (λ s. s.in_use) (update_self shm.slots i _)));
      distinct = subst IsDistinct e (IsDistinct-append (pending shm) i o v.distinct);
    }
