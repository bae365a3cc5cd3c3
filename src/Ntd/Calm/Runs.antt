-- ===== src/Ntd/Calm/Runs.antt =====
-- ntd/ntd.c: no step of the daemon leaves a waiter at an object that it could have.
use ntlinux.Common.{ℕ, ◌≡◌, refl, List, [], ◌∷◌, false}
use ntlinux.Ntabi.{
  Opcode, op_none, create_event, open_event, create_mutant, open_mutant, create_semaphore,
  open_semaphore, set_event, reset_event, release_mutant, release_semaphore, wait_single,
  close_handle, wait_multiple, create_section, open_section, create_completion, open_completion,
  post_completion, remove_completion, open_process, open_thread, queue_apc, suspend_thread,
  resume_thread, Request, Slot, invalid_parameter,
}
use ntlinux.Ntd.State.{Ntd, Env, event, mutant, semaphore, completion, slot_at, client_pid_of}
use ntlinux.Ntd.Dispatch.{dispatch, process_request, sweep}
use ntlinux.Ntd.Start.{Event, submits, serves, sweeps, fill_slot, step, run, initial}
use ntlinux.Ntd.Waiters.{object_available}
use ntlinux.Ntd.Calm.{neglected, Calm}
use ntlinux.Ntd.Calm.Waking.{answer-Calm}
use ntlinux.Ntd.Calm.Scans.{close_handle-Calm, expire_timeouts-Calm}
use ntlinux.Ntd.Calm.Polls.{check_process_exits-Calm, check_thread_exits-Calm}
use ntlinux.Ntd.Calm.Handlers.{
  set_event_request-Calm, reset_event-Calm, release_mutant_request-Calm,
  release_semaphore_request-Calm, queue_apc-Calm, suspend_thread-Calm, resume_thread-Calm,
  post_completion-Calm,
}
use ntlinux.Ntd.Calm.Waits.{remove_completion-Calm, wait_multiple-Calm}
use ntlinux.Ntd.Calm.Requests.{
  create_event-Calm, create_mutant-Calm, create_semaphore-Calm, create_completion-Calm,
  open_typed-Calm, open_section-Calm, create_section-Calm, open_process-Calm, open_thread-Calm,
  wait_single-Calm,
}

dispatch-Calm :
    (op : Opcode) (env : Env) (req : Request) (i pid : ℕ) (s : Ntd)
    → Calm s
    → Calm (dispatch op env req i pid s)
unfolding dispatch
dispatch-Calm create_event env req i pid s v = create_event-Calm req i pid s v
dispatch-Calm open_event env req i pid s v = open_typed-Calm req i pid s v event
dispatch-Calm set_event env req i pid s v = set_event_request-Calm req i pid s v
dispatch-Calm reset_event env req i pid s v = reset_event-Calm req i pid s v
dispatch-Calm create_mutant env req i pid s v = create_mutant-Calm req i pid s v
dispatch-Calm open_mutant env req i pid s v = open_typed-Calm req i pid s v mutant
dispatch-Calm release_mutant env req i pid s v = release_mutant_request-Calm req i pid s v
dispatch-Calm create_semaphore env req i pid s v = create_semaphore-Calm req i pid s v
dispatch-Calm open_semaphore env req i pid s v = open_typed-Calm req i pid s v semaphore
dispatch-Calm release_semaphore env req i pid s v = release_semaphore_request-Calm req i pid s v
dispatch-Calm wait_single env req i pid s v = wait_single-Calm req i pid s v env
dispatch-Calm wait_multiple env req i pid s v = wait_multiple-Calm env req i pid s v
dispatch-Calm close_handle env req i pid s v = close_handle-Calm req i pid s v
dispatch-Calm create_section env req i pid s v = create_section-Calm req i pid s v env
dispatch-Calm open_section env req i pid s v = open_section-Calm req i pid s v
dispatch-Calm create_completion env req i pid s v = create_completion-Calm req i pid s v
dispatch-Calm open_completion env req i pid s v = open_typed-Calm req i pid s v completion
dispatch-Calm post_completion env req i pid s v = post_completion-Calm req i pid s v
dispatch-Calm remove_completion env req i pid s v = remove_completion-Calm env req i pid s v
dispatch-Calm open_process env req i pid s v = open_process-Calm req i pid s v env
dispatch-Calm open_thread env req i pid s v = open_thread-Calm req i pid s v env
dispatch-Calm queue_apc env req i pid s v = queue_apc-Calm req i pid s v
dispatch-Calm suspend_thread env req i pid s v = suspend_thread-Calm req i pid s v
dispatch-Calm resume_thread env req i pid s v = resume_thread-Calm req i pid s v
dispatch-Calm op_none env req i pid s v = answer-Calm s i invalid_parameter v

sweep-Calm : (env : Env) (s : Ntd) → Calm s → Calm (sweep env s)
unfolding sweep
sweep-Calm env s v =
    check_thread_exits-Calm env _ (check_process_exits-Calm env _ (expire_timeouts-Calm env s v))

fill_slot-Calm : (i : ℕ) (slot : Slot) (s : Ntd) → Calm s → Calm (fill_slot i slot s)
unfolding fill_slot
fill_slot-Calm i slot s v = v

run-Calm : (es : List Event) (s : Ntd) → Calm s → Calm (run es s)
unfolding run step process_request
run-Calm [] s v = v
run-Calm (submits i slot ∷ es) s v = run-Calm es _ (fill_slot-Calm i slot s v)
run-Calm (serves env i ∷ es) s v =
    run-Calm es _ (dispatch-Calm (slot_at s i).req.opcode env _ i (client_pid_of s i) s v)
run-Calm (sweeps env ∷ es) s v = run-Calm es _ (sweep-Calm env s v)

initial-Calm : Calm initial
unfolding initial object_available
initial-Calm k = refl

-- However clients fill slots and the daemon serves and sweeps, from its start on: no object but a
-- semaphore is available while somebody waits for it alone.
pub run-neglected : (es : List Event) (k : ℕ) → neglected ((run es initial).object_at k) ≡ false
run-neglected es k = run-Calm es initial initial-Calm k
