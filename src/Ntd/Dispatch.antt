-- ===== src/Ntd/Dispatch.antt =====
-- ntd/ntd.c: the dispatch of a request by its opcode, the turns of the main loop, and the end.
use ntlinux.Common.{ℕ, ◌+◌, ◌%◌, ◌^◌, List, [], ◌∷◌, Option, none, some, ◌==◌, if◌then◌else◌}
use ntlinux.Ntabi.{
  Opcode, op_none, create_event, open_event, create_mutant, open_mutant, create_semaphore,
  open_semaphore, set_event, reset_event, release_mutant, release_semaphore, wait_single,
  close_handle, wait_multiple, create_section, open_section, create_completion, open_completion,
  post_completion, remove_completion, open_process, open_thread, queue_apc, suspend_thread,
  resume_thread, Request, Shm, invalid_parameter, max_slots,
}
use ntlinux.Ntd.State.{Ntd, Env, event, mutant, semaphore, completion, slot_at, client_pid_of}
use ntlinux.Ntd.Objects.{free_object}
use ntlinux.Ntd.Sync.{
  answer, handle_create_event, handle_open_typed, handle_set_event, handle_reset_event,
  handle_create_mutant, handle_release_mutant, handle_create_semaphore, handle_release_semaphore,
}
use ntlinux.Ntd.Waits.{handle_wait_single, handle_wait_multiple}
use ntlinux.Ntd.Close.{handle_close_handle, expire_timeouts}
use ntlinux.Ntd.Ports.{
  handle_create_section, handle_open_section, handle_create_completion, handle_post_completion,
  handle_remove_completion,
}
use ntlinux.Ntd.Tasks.{
  handle_open_process, handle_open_thread, handle_queue_apc, handle_suspend_thread,
  handle_resume_thread, check_process_exits, check_thread_exits,
}

-- The `switch` of `process_request`.
unfoldable pub dispatch : Opcode → Env → Request → ℕ → ℕ → Ntd → Ntd
dispatch create_event env req i pid s = handle_create_event req i pid s
dispatch open_event env req i pid s = handle_open_typed event req i pid s
dispatch set_event env req i pid s = handle_set_event req i pid s
dispatch reset_event env req i pid s = handle_reset_event req i pid s
dispatch create_mutant env req i pid s = handle_create_mutant req i pid s
dispatch open_mutant env req i pid s = handle_open_typed mutant req i pid s
dispatch release_mutant env req i pid s = handle_release_mutant req i pid s
dispatch create_semaphore env req i pid s = handle_create_semaphore req i pid s
dispatch open_semaphore env req i pid s = handle_open_typed semaphore req i pid s
dispatch release_semaphore env req i pid s = handle_release_semaphore req i pid s
dispatch wait_single env req i pid s = handle_wait_single env req i pid s
dispatch wait_multiple env req i pid s = handle_wait_multiple env req i pid s
dispatch close_handle env req i pid s = handle_close_handle req i pid s
dispatch create_section env req i pid s = handle_create_section env req i pid s
dispatch open_section env req i pid s = handle_open_section req i pid s
dispatch create_completion env req i pid s = handle_create_completion req i pid s
dispatch open_completion env req i pid s = handle_open_typed completion req i pid s
dispatch post_completion env req i pid s = handle_post_completion req i pid s
dispatch remove_completion env req i pid s = handle_remove_completion env req i pid s
dispatch open_process env req i pid s = handle_open_process env req i pid s
dispatch open_thread env req i pid s = handle_open_thread env req i pid s
dispatch queue_apc env req i pid s = handle_queue_apc req i pid s
dispatch suspend_thread env req i pid s = handle_suspend_thread req i pid s
dispatch resume_thread env req i pid s = handle_resume_thread req i pid s
dispatch op_none env req i pid s = answer s i invalid_parameter

unfoldable pub process_request : Env → ℕ → Ntd → Ntd
process_request env i s =
    let req = (slot_at s i).req in dispatch req.opcode env req i (client_pid_of s i) s

-- The index that the inner loop takes from the ring under the lock; none: the ring is empty.
unfoldable pub next_index : Shm → Option ℕ × Shm
next_index shm =
    let head = shm.ring_head in
    if head == shm.ring_tail
    then (none, shm)
    else (some (shm.ring (head % max_slots)), record shm { ring_head = (head + 1) % 2 ^ 32 })

-- One round of the inner loop.
unfoldable pub drain_one : Env → Ntd → Ntd
drain_one env s =
    let (i, shm) = next_index s.shm in
    elim i [ none ↦ s | some k ↦ process_request env k (record s { shm = shm }) ]

-- The part of a tick behind the inner loop.
unfoldable pub sweep : Env → Ntd → Ntd
sweep env s = check_thread_exits env (check_process_exits env (expire_timeouts env s))

-- `while (g_objects) free_object(g_objects)` over the objects there are at shutdown.
unfoldable pub free_all : List ℕ → Ntd → Ntd
free_all [] s = s
free_all (id ∷ ids) s = free_all ids (free_object id s)

unfoldable pub shutdown : Ntd → Ntd
shutdown s = free_all s.objects s
