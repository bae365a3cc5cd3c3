-- ===== src/Client/Submit.antt =====
-- ntabi/lib/libntabi.c, `submit`, on the shared segment. What runs under `alloc_lock` is one step.
use ntlinux.Common.{
  ℕ, zero, suc, ◌+◌, ◌-◌, ◌%◌, ◌^◌, Option, none, some, Bool, true, false, ◌==◌, ◌&&◌, update,
  if◌then◌else◌,
}
use ntlinux.Ntabi.{Shm, Slot, Request, Response, max_slots}
use ntlinux.Ntd.Start.{zero_response}

-- The tests of `ntabi_connect` on the mapped segment: NTABI_MAGIC and NTABI_PROTOCOL_VERSION.
unfoldable pub accepts : Shm → Bool
accepts shm = shm.magic == 0x4e544142 && shm.protocol_version == 3

-- The first slot that is not in use, of `n` slots from `i` on.
unfoldable pub first_free : (ℕ → Slot) → ℕ → ℕ → Option ℕ
first_free slots i zero = none
first_free slots i (suc n) =
    let rest = first_free slots (i + 1) n in if (slots i).in_use then rest else some i

-- The free slot is filled, its index goes on the ring, and the doorbell is posted.
unfoldable pub claim : ℕ → ℕ → Request → ℕ → Shm → Shm
claim pid tid req i shm = record shm {
  slots = update shm.slots i (record (shm.slots i) {
    in_use = true;
    client_pid = pid;
    client_tid = tid;
    req = req;
    resp = zero_response;
  });
  ring = update shm.ring (shm.ring_tail % max_slots) i;
  ring_tail = (shm.ring_tail + 1) % 2 ^ 32;
  doorbell = shm.doorbell + 1;
}

-- The two ends of the search: no slot, and slot `i`.
unfoldable pub claim_found : ℕ → ℕ → Request → Shm → Option ℕ → Option ℕ × Shm
claim_found pid tid req shm none = (none, shm)
claim_found pid tid req shm (some i) = (some i, claim pid tid req i shm)

-- `submit` up to where it blocks. none: LIMIT_REACHED.
unfoldable pub submit : ℕ → ℕ → Request → Shm → Option ℕ × Shm
submit pid tid req shm = claim_found pid tid req shm (first_free shm.slots 0 max_slots)

-- `submit` from where `sem_wait` has taken the post of slot `i`: the response, and the slot is free.
unfoldable pub finish : ℕ → Shm → Response × Shm
finish i shm =
    let slot = shm.slots i in
    (
      slot.resp,
      record shm {
        slots = update shm.slots i (record slot { ready = slot.ready - 1; in_use = false });
      },
    )
