-- ===== src/Tests/Daemon.antt =====
-- Two clients of ntd: process 7 in slot 0 and process 8 in slot 1, with an event and its waits.
use ntlinux.Ntd.Counts.{references, links}
use ntlinux.Ntd.Calm.{neglected}
use ntlinux.Ntd.Calm.Runs.{run-neglected}
use ntlinux.Ntd.Counts.References.{run-references}
use ntlinux.Common.{
  ◌≤◌, ◌⊎◌, ℕ, ℤ, pos, negsuc, ◌<◌, ◌^◌, ◌≡◌, inl, inr, refl, List, [], ◌∷◌, none, some, true,
  false, arith, if◌then◌else◌,
}
use ntlinux.Ntabi.{create_event, open_event, wait_single, set_event, Request, Slot, success}
use ntlinux.Ntd.State.{event, thread, Ntd, Env, Timespec, HandleEntry, slot_at}
use ntlinux.Ntd.Handles.{
  register_handle, alloc_local_handle, max_handle, find_handle, remove_handle_entry,
}
use ntlinux.Ntd.Dispatch.{process_request, dispatch}
use ntlinux.Ntd.Start.{
  initial, zero_request, zero_slot, Event, submits, serves, fill_slot, step, run,
}
use ntlinux.Ntd.Timeouts.{deadline_from_timeout, timespec_past}
use ntlinux.Ntd.Complete.{complete}
use ntlinux.Ntd.Objects.{blank, same_type, find_by_name, find_object, create_object}
use ntlinux.Ntd.Sync.{
  answer, name_taken, create_with, handle_create_event, handle_open_typed, give_handle,
  set_event as signal, handle_set_event, with_object,
}
use ntlinux.Ntd.Waits.{handle_wait_single, wait_on_handle}
use ntlinux.Ntd.Waiters.{object_available, consume, consume_object, add_waiter}
use ntlinux.Ntd.Multiwaits.{
  satisfy_one_waiter, wake_with, take_single, multiwaits_of, notify_multiwaiters, try_all,
}
use ntlinux.Ntd.Isolation.{IsTable, same_key, register_handle-fresh, remove_handle_entry-isolated}
use ntlinux.Ntd.Deadlines.{timespec_past-deadline}

abbrev pub still : Env
still = record {
  clock = λ n. record { tv_sec = 5; tv_nsec = 999000000 };
  pidfd_open = λ pid. none;
  poll_in = λ fd. false;
  task_exists = λ pid tid. true;
  shm_open = λ n. true;
  ftruncate = λ n size. true;
}

abbrev pub ask : ℕ → Request → Slot
ask pid req = record zero_slot { in_use = true; client_pid = pid; client_tid = pid; req = req }

abbrev pub new_event : Request
new_event = record zero_request { opcode = create_event; name = 101 ∷ [] }

abbrev same_event : Request
same_event = record zero_request { opcode = open_event; name = 101 ∷ [] }

abbrev wait_forever : Request
wait_forever = record zero_request { opcode = wait_single; handle = pos 1; timeout_ms = negsuc 0 }

abbrev signal_it : Request
signal_it = record zero_request { opcode = set_event; handle = pos 1 }

-- Process 7 makes the event and waits; process 8 opens it and sets it.
abbrev script : List Event
script =
    submits 0 (ask 7 new_event)
    ∷ serves still 0
    ∷ submits 0 (ask 7 wait_forever)
    ∷ serves still 0
    ∷ submits 1 (ask 8 same_event)
    ∷ serves still 1
    ∷ submits 1 (ask 8 signal_it)
    ∷ serves still 1
    ∷ []

-- Both requests of both slots have been answered, the wait by the set.
script_answers :
    let t = run script initial in
    ((slot_at t 0).ready ≡ 2) × ((slot_at t 1).ready ≡ 2) × ((slot_at t 0).resp.status ≡ success)
unfolding run step initial fill_slot process_request dispatch handle_create_event name_taken
    find_by_name find_object create_with create_object register_handle alloc_local_handle max_handle
    complete handle_wait_single wait_on_handle find_handle object_available add_waiter
    handle_open_typed give_handle handle_set_event with_object signal satisfy_one_waiter take_single
    wake_with consume_object consume answer notify_multiwaiters multiwaits_of try_all
script_answers = (refl, refl, refl)

-- A signaled event with a waiter of its own would be neglected.
neglected_event :
    neglected (record (blank event (101 ∷ [])) {
      signaled = true;
      waiters = record { slot_idx = 0; multiwait = none; deadline = none } ∷ [];
    })
    ≡ true
unfolding object_available
neglected_event = refl

run-neglected_example : neglected ((run script initial).object_at 1) ≡ false
run-neglected_example = run-neglected script 1

run-references_example :
    let t = run script initial in
    let n = references 1 t.handles in
    ((t.object_at 1).refcount ≡ n)
    × ((links 1 t.objects ≡ 0) × (n ≡ 0)
        ⊎ (links 1 t.objects ≡ 1) × ((1 ≤ n) ⊎ (same_type (t.object_at 1).type thread ≡ true)))
run-references_example = run-references 1 script

-- Process 7 has handles 1 and 2, process 8 has a handle 1 of its own.
abbrev table : List HandleEntry
table =
    record { owner_pid = 7; local_handle = 2; object = 4 }
    ∷ record { owner_pid = 8; local_handle = 1; object = 5 }
    ∷ record { owner_pid = 7; local_handle = 1; object = 3 }
    ∷ []

table-IsTable : IsTable table
unfolding find_handle
table-IsTable = (omega arith, refl, (omega arith, refl, (omega arith, refl, tt)))

abbrev with_table : Ntd
with_table = record initial { handles = table }

register_handle-fresh_example :
    let (h, t) = register_handle 7 5 with_table in
    (0 < h)
    × (h < 2 ^ 31)
    × (find_handle 7 (pos h) table ≡ none)
    × ((q : ℕ) (j : ℤ)
        → find_handle q j t.handles
          ≡ (if same_key 7 (pos h) q j then some 5 else find_handle q j table))
    × IsTable t.handles
register_handle-fresh_example =
    register_handle-fresh 7 5 with_table table-IsTable
      (inr (omega arith), (inl (ground arith), (inr (omega arith), tt)))

remove_handle_entry-isolated_example :
    let (o, rest) = remove_handle_entry 7 (pos 1) table in
    (o ≡ find_handle 7 (pos 1) table)
    × ((q : ℕ) (j : ℤ)
        → find_handle q j rest ≡ (if same_key 7 (pos 1) q j then none else find_handle q j table))
    × IsTable rest
remove_handle_entry-isolated_example = remove_handle_entry-isolated 7 (pos 1) table table-IsTable

abbrev before : Timespec
before = record { tv_sec = 5; tv_nsec = 999000000 }

abbrev after : Timespec
after = record { tv_sec = 6; tv_nsec = 1000000 }

-- 2 milliseconds, across the second.
timespec_past-deadline_example : timespec_past after (deadline_from_timeout before 2) ≡ true
timespec_past-deadline_example = timespec_past-deadline before after 2 (omega arith) (omega arith)
