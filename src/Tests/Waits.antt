-- ===== src/Tests/Waits.antt =====
-- A daemon with a semaphore at address 1, a completion port at 2 and a thread at 3.
use ntlinux.Common.{
  ℕ, pos, negsuc, ◌+◌, ◌≡◌, refl, List, [], ◌∷◌, none, true, false, arith, update, ◌==◌, All,
}
use ntlinux.Ntabi.{Request, success, user_apc, Apc, Packet}
use ntlinux.Ntd.State.{Ntd, NtObject, Waiter, semaphore, completion, thread, slot_at}
use ntlinux.Ntd.Objects.{blank, find_object, find_thread_object}
use ntlinux.Ntd.Waiters.{object_available, consume}
use ntlinux.Ntd.Multiwaits.{all_available, take_single}
use ntlinux.Ntd.Sync.{release_semaphore, bad_release}
use ntlinux.Ntd.Waits.{handle_wait_single, wait_on_objects}
use ntlinux.Ntd.Ports.{deliver_packet, remove_packet, no_packet}
use ntlinux.Ntd.Start.{initial, zero_request}
use ntlinux.Ntd.Answers.Tally.{waits_in}
use ntlinux.Ntd.Handles.{find_handle}
use ntlinux.Ntd.Tasks.{handle_queue_apc}
use ntlinux.Ntd.Order.{IsAnswered, release_semaphore-oldest_first}
use ntlinux.Ntd.Delivery.{remove-deliver_fifo, wait_single-queue_apc}
use ntlinux.Ntd.Selection.{
  wait_any-first_wins, stripped, wait_all-takes_nothing, wait_all-takes_each_once,
}
use ntlinux.Ntd.Limits.{bad_release-limit}
use ntlinux.Tests.Daemon.{still}

abbrev waiter : ℕ → Waiter
waiter i = record { slot_idx = i; multiwait = none; deadline = none }

abbrev sema : ℕ → List Waiter → NtObject
sema c ws = record (blank semaphore []) { count = pos c; max_count = pos 9; waiters = ws }

abbrev call : ℕ → Apc
call n = record { routine = n; arg1 = 0; arg2 = 0; arg3 = 0 }

abbrev first_packet : Packet
first_packet = record { key = pos 1; bytes = pos 10; overlapped = 0 }

abbrev port : NtObject
port = record (blank completion []) { queue = first_packet ∷ [] }

abbrev caller : NtObject
caller = record (blank thread []) { target_pid = 0; target_tid = 0; apcs = call 1 ∷ call 2 ∷ [] }

abbrev place : ℕ → NtObject → Ntd
place c o = record initial {
  objects = 1 ∷ 2 ∷ 3 ∷ [];
  object_at = update (update (update initial.object_at 3 caller) 2 port) 1 o;
  next_object_id = 4;
}

-- Three waiters of slots 4, 5 and 6, and a count of 0: a release of 2 wakes 4 and 5.
abbrev crowded : Ntd
crowded = place 0 (sema 0 (waiter 4 ∷ waiter 5 ∷ waiter 6 ∷ []))

release_semaphore-oldest_first_example :
    let t = release_semaphore 1 (pos 2) crowded in
    ((t.object_at 1).count ≡ pos 0)
    × ((t.object_at 1).waiters ≡ waiter 6 ∷ [])
    × All (IsAnswered t) (waiter 4 ∷ waiter 5 ∷ [])
    × ((k : ℕ)
        → (slot_at t k).ready ≡ (slot_at crowded k).ready + waits_in k (waiter 4 ∷ waiter 5 ∷ []))
release_semaphore-oldest_first_example =
    release_semaphore-oldest_first 1 0 2 crowded refl refl (omega arith) (refl, (refl, (refl, tt)))

remove-deliver_fifo_example :
    let t = remove_packet still zero_request 2 0 (deliver_packet 2 no_packet crowded) in
    ((slot_at t 0).resp.status ≡ success)
    × ((slot_at t 0).resp.packet ≡ first_packet)
    × ((t.object_at 2).queue ≡ no_packet ∷ [])
unfolding take_single
remove-deliver_fifo_example =
    remove-deliver_fifo still zero_request 2 0 no_packet first_packet (no_packet ∷ []) crowded refl
      refl

abbrev alert : Request
alert = record zero_request { alertable = true; handle = pos 1 }

-- A handle of process 9 to the thread.
abbrev sent : Request
sent = record zero_request { handle = pos 1; apc = call 3 }

abbrev alerted : Ntd
alerted = record crowded { handles = record { owner_pid = 9; local_handle = 1; object = 3 } ∷ [] }

wait_single-queue_apc_example :
    let u = handle_queue_apc sent 1 9 alerted in
    let t = handle_wait_single still alert 0 0 u in
    ((slot_at u 1).resp.status ≡ success)
    × ((slot_at t 0).resp.status ≡ user_apc)
    × ((slot_at t 0).resp.apc ≡ call 1)
    × ((k : ℕ)
        → t.object_at k
          ≡ update alerted.object_at 3 (record caller { apcs = call 2 ∷ call 3 ∷ [] }) k)
unfolding initial find_thread_object find_object find_handle
wait_single-queue_apc_example =
    wait_single-queue_apc still alert sent 0 1 0 9 3 (call 1) (call 2 ∷ call 3 ∷ []) alerted refl
      refl refl refl refl

-- The semaphore has no unit, the port has a packet.
wait_any-first_wins_example :
    let t = wait_on_objects still zero_request (1 ∷ 2 ∷ 3 ∷ []) 0 7 crowded in
    ((slot_at t 0).resp.status ≡ success)
    × ((slot_at t 0).resp.satisfied_index ≡ pos 1)
    × (t.object_at ≡ update crowded.object_at 2 (consume (crowded.object_at 2) 7))
unfolding object_available
wait_any-first_wins_example =
    wait_any-first_wins still zero_request (1 ∷ []) (3 ∷ []) 0 7 2 crowded refl (refl, tt) refl

abbrev both : Request
both = record zero_request { wait_all = true }

wait_all-takes_nothing_example :
    stripped ((wait_on_objects still both (2 ∷ 1 ∷ []) 0 7 crowded).object_at 2)
    ≡ stripped (crowded.object_at 2)
unfolding all_available object_available
wait_all-takes_nothing_example =
    wait_all-takes_nothing still both (2 ∷ 1 ∷ []) 0 7 crowded refl refl 2

abbrev single : Ntd
single = place 1 (sema 1 [])

wait_all-takes_each_once_example :
    let t = wait_on_objects still both (1 ∷ 2 ∷ []) 0 7 single in
    ((slot_at t 0).resp.status ≡ success)
    × ((slot_at t 0).resp.satisfied_index ≡ negsuc 0)
    × All (λ j. t.object_at j ≡ consume (single.object_at j) 7) (1 ∷ 2 ∷ [])
    × ((j : ℕ) → All (λ x. (x == j) ≡ false) (1 ∷ 2 ∷ []) → t.object_at j ≡ single.object_at j)
unfolding all_available object_available
wait_all-takes_each_once_example =
    wait_all-takes_each_once still both (1 ∷ 2 ∷ []) 0 7 single refl refl ((refl, tt), (tt, tt))

abbrev flood : Request
flood = record zero_request { release_count = pos 2147483647 }

-- 1 + 2147483647 is no int, and the guard lets it through.
bad_release-limit_example : bad_release flood (sema 1 []) ≡ false
bad_release-limit_example =
    bad_release-limit flood (sema 1 []) 1 2147483646 9 refl refl refl (omega arith) (omega arith)
