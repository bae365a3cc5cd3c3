-- ===== src/Tests/Clients.antt =====
-- libntabi on the segment that ntd makes: submissions, and two processes that name one event.
use ntlinux.Common.{pos, ◌≡◌, refl, [], ◌∷◌, some, true, false, arith, update}
use ntlinux.Common.Windows.{Popped}
use ntlinux.Ntabi.{Shm, success}
use ntlinux.Ntd.Handles.{find_handle}
use ntlinux.Ntd.Objects.{find_by_name, find_object}
use ntlinux.Ntd.Dispatch.{next_index}
use ntlinux.Ntd.Start.{create_shm, zero_request, zero_slot, initial}
use ntlinux.Client.Submit.{accepts, first_free, claim_found, submit, finish}
use ntlinux.Client.Queue.{IsQueue, pending}
use ntlinux.Client.Queue.Turns.{Submitted, submit-queues, next_index-queues, finish-frees}
use ntlinux.Client.Calls.{ntabi_create_event, ntabi_open_event}
use ntlinux.Client.Served.{served_by}
use ntlinux.Client.Names.{create_event-open_event}
use ntlinux.Tests.Daemon.{still, ask, new_event}

-- A client connects to the segment that ntd makes.
accepts-create_shm : accepts create_shm ≡ true
unfolding accepts create_shm
accepts-create_shm = refl

-- Slot 0 waits for its answer, slot 1 is on the ring, and the counter is about to wrap.
abbrev busy : Shm
busy = record {
  magic = 0x4e544142;
  protocol_version = 3;
  doorbell = 1;
  ring = λ p. 1;
  ring_head = 4294967295;
  ring_tail = 0;
  slots = update (update (λ i. zero_slot) 0 (ask 7 new_event)) 1 (ask 8 new_event);
}

busy-IsQueue : IsQueue busy
busy-IsQueue = record {
  head_lt = omega arith;
  tail_lt = omega arith;
  slots_lt = (omega arith, tt);
  used = (refl, tt);
  distinct = (tt, tt);
}

-- The third submission takes slot 2 and goes behind slot 1.
submit-busy : (submit 9 9 zero_request busy).0 ≡ some 2
unfolding submit claim_found first_free
submit-busy = refl

submit-queues_example :
    let (i, t) = submit 9 9 zero_request busy in Submitted 9 9 zero_request busy i t × IsQueue t
submit-queues_example = submit-queues 9 9 zero_request busy-IsQueue

next_index-queues_example :
    let (i, t) = next_index busy in
    Popped (pending busy) i (pending t) × (t.slots ≡ busy.slots) × IsQueue t
next_index-queues_example = next_index-queues busy-IsQueue

finish-frees_example :
    let (resp, t) = finish 0 busy in
    (resp ≡ (busy.slots 0).resp)
    × ((t.slots 0).in_use ≡ false)
    × (t.slots ≡ update busy.slots 0 (t.slots 0))
    × (pending t ≡ pending busy)
    × IsQueue t
finish-frees_example = finish-frees {shm = busy} 0 (refl, tt) busy-IsQueue

create_event-open_event_example :
    let (a, s1) =
      ntabi_create_event (served_by still 0 7 7) (some (101 ∷ 102 ∷ [])) false true initial in
    let (b, s2) = ntabi_open_event (served_by still 1 8 8) (some (101 ∷ 102 ∷ [])) s1 in
    (a.0 ≡ success)
    × (b.0 ≡ success)
    × (find_handle 7 (pos a.1) s2.handles ≡ some initial.next_object_id)
    × (find_handle 8 (pos b.1) s2.handles ≡ some initial.next_object_id)
unfolding find_by_name find_object initial
create_event-open_event_example =
    create_event-open_event still still 0 1 7 8 7 8 101 (102 ∷ []) (102 ∷ []) false true initial tt
      refl refl
