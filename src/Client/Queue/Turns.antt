-- ===== src/Client/Queue/Turns.antt =====
-- ntabi/lib/libntabi.c and ntd/ntd.c: the turns of a slot. A client puts it on the ring, the daemon
-- takes it off, and the client frees it.
use ntlinux.Common.{
  ℕ, ◌%◌, ◌<◌, ◌≡◌, refl, sym, ◌∙◌, ap, Option, none, some, true, false, ◌==◌, [], ◌∷◌, ◌++◌, arith,
  update, update_self, All, Bool-cases, inl, inr,
}
use mathlib.Core.Path.{subst}
use ntlinux.Common.Windows.{window, window-cons, Popped}
use ntlinux.Common.Distinct.{IsDistinct}
use ntlinux.Ntabi.{Shm, Request}
use ntlinux.Ntd.Dispatch.{next_index}
use ntlinux.Client.Submit.{first_free, claim, claim_found, submit, finish}
use ntlinux.Client.Queue.{IsQueue, pending, next_u32, sub_u32, size_pop}
use ntlinux.Client.Queue.Room.{Found, first_free-Found, used-update, pending-claim, claim-IsQueue}

-- What `submit` does with the slot that it takes, if any.
abbrev pub Submitted : ℕ → ℕ → Request → Shm → Option ℕ → Shm → Type 0
Submitted pid tid req shm none t = ((j : ℕ) → (shm.slots (j % 64)).in_use ≡ true) × (t ≡ shm)
Submitted pid tid req shm (some i) t =
    (i < 64)
    × ((shm.slots i).in_use ≡ false)
    × ((t.slots i).req ≡ req)
    × ((t.slots i).client_pid ≡ pid)
    × ((t.slots i).client_tid ≡ tid)
    × (t.slots ≡ update shm.slots i (t.slots i))
    × (pending t ≡ pending shm ++ i ∷ [])

claim-Submitted :
    {shm : Shm} (pid tid : ℕ) (req : Request) (i : ℕ)
    → i < 64
    → (shm.slots i).in_use ≡ false
    → IsQueue shm
    → Submitted pid tid req shm (some i) (claim pid tid req i shm)
unfolding claim
claim-Submitted {shm} pid tid req i l f v =
    let e = update_self shm.slots i _ in
    (
      l,
      f,
      ap (λ s. s.req) e,
      ap (λ s. s.client_pid) e,
      ap (λ s. s.client_tid) e,
      ap (update shm.slots i) (sym e),
      pending-claim pid tid req i l f v,
    )

-- On a well-formed segment `submit` refuses only when all 64 slots are in use, and then changes
-- nothing; otherwise it takes a free slot, writes the request and its sender into it, and queues it
-- behind the slots on the ring, of which none is overwritten. The segment stays well formed, also
-- where the ring's counter wraps.
pub submit-queues :
    {shm : Shm} (pid tid : ℕ) (req : Request)
    → IsQueue shm
    → let (i, t) = submit pid tid req shm in Submitted pid tid req shm i t × IsQueue t
unfolding submit claim_found
submit-queues {shm} pid tid req v =
    done (first_free shm.slots 0 64) (first_free-Found shm.slots 0 64)
  where
    done :
        (r : Option ℕ)
        → Found shm.slots 0 64 r
        → let (i, t) = claim_found pid tid req shm r in Submitted pid tid req shm i t × IsQueue t
    done none h = (((λ j. h (j % 64) (omega arith) (omega arith)), refl), v)
    done (some i) h = (
      claim-Submitted pid tid req i (omega (arith, h.1)) h.2 v,
      claim-IsQueue pid tid req i (omega (arith, h.1)) h.2 v,
    )

-- On a well-formed segment the inner loop takes the slot that was queued first, and finds none only
-- on the empty ring; it changes no slot, and the segment stays well formed.
pub next_index-queues :
    {shm : Shm}
    → IsQueue shm
    → let (i, t) = next_index shm in
      Popped (pending shm) i (pending t) × (t.slots ≡ shm.slots) × IsQueue t
unfolding next_index
next_index-queues {shm} v = elim (Bool-cases (shm.ring_head == shm.ring_tail)) [
  | inl e ↦
      let z : sub_u32 shm.ring_tail shm.ring_head ≡ 0 = ground arith in
      let w = ap (window next_u32 shm.ring shm.ring_head) z in rw e ((w, w), refl, v)
  | inr ne ↦
      let c = size_pop shm.ring_tail shm.ring_head v.tail_lt v.head_lt (ground arith) in
      let p =
        window-cons next_u32 shm.ring shm.ring_head (sub_u32 shm.ring_tail shm.ring_head) c.0
        ∙ ap
            (λ n.
              shm.ring (shm.ring_head % 64) ∷ window next_u32 shm.ring (next_u32 shm.ring_head) n)
            (sym c.1) in
      rw ne (
        p,
        refl,
        record {
          head_lt = omega arith;
          tail_lt = v.tail_lt;
          slots_lt = (subst (λ xs. All (λ j. j < 64) xs) p v.slots_lt).1;
          used = (subst (λ xs. All (λ j. (shm.slots j).in_use ≡ true) xs) p v.used).1;
          distinct = (subst IsDistinct p v.distinct).1;
        },
      )
]

-- On a well-formed segment, the end of `submit` for a slot that is not on the ring: the client gets
-- the response that the slot holds, the slot is free for the next request, the ring and every other
-- slot are as before, and the segment stays well formed.
pub finish-frees :
    {shm : Shm} (i : ℕ)
    → All (λ j. (j == i) ≡ false) (pending shm)
    → IsQueue shm
    → let (resp, t) = finish i shm in
      (resp ≡ (shm.slots i).resp)
      × ((t.slots i).in_use ≡ false)
      × (t.slots ≡ update shm.slots i (t.slots i))
      × (pending t ≡ pending shm)
      × IsQueue t
unfolding finish
finish-frees {shm} i o v = (
  refl,
  ap (λ s. s.in_use) (update_self shm.slots i _),
  ap (update shm.slots i) (sym (update_self shm.slots i _)),
  refl,
  record {
    head_lt = v.head_lt;
    tail_lt = v.tail_lt;
    slots_lt = v.slots_lt;
    used = used-update shm.slots i _ (pending shm) o v.used;
    distinct = v.distinct;
  },
)
