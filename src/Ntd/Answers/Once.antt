-- ===== src/Ntd/Answers/Once.antt =====
-- ntd/ntd.c: the answers of a request, of a sweep and of a run.
use ntlinux.Common.{ℕ, ◌+◌, ◌≡◌, refl, List, [], ◌∷◌, arith}
use ntlinux.Ntabi.{
  Opcode, op_none, create_event, open_event, create_mutant, open_mutant, create_semaphore,
  open_semaphore, set_event, reset_event, release_mutant, release_semaphore, wait_single,
  close_handle, wait_multiple, create_section, open_section, create_completion, open_completion,
  post_completion, remove_completion, open_process, open_thread, queue_apc, suspend_thread,
  resume_thread, Request,
}
use ntlinux.Ntd.State.{Ntd, Env, event, mutant, semaphore, completion, slot_at}
use ntlinux.Ntd.Dispatch.{dispatch, process_request, sweep}
use ntlinux.Ntd.Start.{initial, Event, submits, serves, sweeps}
use ntlinux.Ntd.Answers.Tally.{hit, open_waits, tally, IsValid, Keeps, Moves-trans}
use ntlinux.Ntd.Answers.Writes.{answer-Moves}
use ntlinux.Ntd.Answers.Scans.{expire_timeouts-Keeps}
use ntlinux.Ntd.Answers.Sync.{
  Answers, create_event-Answers, create_mutant-Answers, create_semaphore-Answers,
  open_typed-Answers, set_event-Answers, reset_event-Answers, release_mutant-Answers,
  release_semaphore-Answers,
}
use ntlinux.Ntd.Answers.Waits.{wait_single-Answers, wait_multiple-Answers}
use ntlinux.Ntd.Answers.Close.{close_handle-Answers}
use ntlinux.Ntd.Answers.Ports.{
  create_section-Answers, open_section-Answers, create_completion-Answers, post_completion-Answers,
  remove_completion-Answers,
}
use ntlinux.Ntd.Answers.Tasks.{
  open_process-Answers, open_thread-Answers, queue_apc-Answers, suspend_thread-Answers,
  resume_thread-Answers, check_process_exits-Keeps, check_thread_exits-Keeps,
}

dispatch-Answers :
    {s : Ntd} (op : Opcode) (env : Env) (k : ℕ) (req : Request) (i pid : ℕ)
    → IsValid s
    → Answers k i s (dispatch op env req i pid s)
unfolding dispatch
dispatch-Answers create_event env k req i pid v = create_event-Answers k req i pid v
dispatch-Answers open_event env k req i pid v = open_typed-Answers k req i pid v event
dispatch-Answers set_event env k req i pid v = set_event-Answers k req i pid v
dispatch-Answers reset_event env k req i pid v = reset_event-Answers k req i pid v
dispatch-Answers create_mutant env k req i pid v = create_mutant-Answers k req i pid v
dispatch-Answers open_mutant env k req i pid v = open_typed-Answers k req i pid v mutant
dispatch-Answers release_mutant env k req i pid v = release_mutant-Answers k req i pid v
dispatch-Answers create_semaphore env k req i pid v = create_semaphore-Answers k req i pid v
dispatch-Answers open_semaphore env k req i pid v = open_typed-Answers k req i pid v semaphore
dispatch-Answers release_semaphore env k req i pid v = release_semaphore-Answers k req i pid v
dispatch-Answers wait_single env k req i pid v = wait_single-Answers env k req i pid v
dispatch-Answers wait_multiple env k req i pid v = wait_multiple-Answers env k req i pid v
dispatch-Answers close_handle env k req i pid v = close_handle-Answers k req i pid v
dispatch-Answers create_section env k req i pid v = create_section-Answers k req i pid v env
dispatch-Answers open_section env k req i pid v = open_section-Answers k req i pid v
dispatch-Answers create_completion env k req i pid v = create_completion-Answers k req i pid v
dispatch-Answers open_completion env k req i pid v = open_typed-Answers k req i pid v completion
dispatch-Answers post_completion env k req i pid v = post_completion-Answers k req i pid v
dispatch-Answers remove_completion env k req i pid v = remove_completion-Answers k req i pid v env
dispatch-Answers open_process env k req i pid v = open_process-Answers k req i pid v env
dispatch-Answers open_thread env k req i pid v = open_thread-Answers k req i pid v env
dispatch-Answers queue_apc env k req i pid v = queue_apc-Answers k req i pid v
dispatch-Answers suspend_thread env k req i pid v = suspend_thread-Answers k req i pid v
dispatch-Answers resume_thread env k req i pid v = resume_thread-Answers k req i pid v
dispatch-Answers op_none env k req i pid v = answer-Moves k i _ v

process_request-Answers :
    {s : Ntd} (env : Env) (k i : ℕ) → IsValid s → Answers k i s (process_request env i s)
unfolding process_request
process_request-Answers {s} env k i v = dispatch-Answers (slot_at s i).req.opcode env k _ i _ v

sweep-Keeps : {s : Ntd} (env : Env) (k : ℕ) → IsValid s → Keeps k s (sweep env s)
unfolding sweep
sweep-Keeps env k v =
    let a = expire_timeouts-Keeps env k v in
    let b = check_process_exits-Keeps env k a.valid in
    Moves-trans a (Moves-trans b (check_thread_exits-Keeps env k b.valid))

-- In a state whose tables hold only addresses that were allocated, processing the request of slot
-- `i`, whatever its opcode and outcome, adds exactly one to the posts of slot `i` and its open
-- waits together, and nothing to those of any other slot; no address that was never allocated gets
-- into a table.
pub process_request_once :
    {s : Ntd} (env : Env) (k i : ℕ)
    → IsValid s
    → let t = process_request env i s in
      ((slot_at t k).ready + open_waits k t ≡ (slot_at s k).ready + open_waits k s + hit k i)
      × IsValid t
unfolding tally
process_request_once env k i v =
    let a = process_request-Answers env k i v in (omega (arith, a.balance), a.valid)

-- In a state whose tables hold only addresses that were allocated, a sweep (deadlines, then exited
-- processes, then exited threads) posts slot `k` exactly as often as it ends an open wait of slot
-- `k`, and keeps the tables valid.
pub sweep_once :
    {s : Ntd} (env : Env) (k : ℕ)
    → IsValid s
    → let t = sweep env s in
      ((slot_at t k).ready + open_waits k t ≡ (slot_at s k).ready + open_waits k s) × IsValid t
unfolding tally
sweep_once env k v = let a = sweep-Keeps env k v in (omega (arith, a.balance), a.valid)

-- How often slot `k` is served.
unfoldable pub served : ℕ → List Event → ℕ
served k [] = 0
served k (submits i slot ∷ es) = served k es
served k (serves env i ∷ es) = hit k i + served k es
served k (sweeps env ∷ es) = served k es

pub initial-IsValid : IsValid initial
unfolding initial
initial-IsValid = record {
  handles_lt = tt;
  objects_lt = tt;
  waiters_lt = λ id. tt;
  freed_done = λ m. refl;
}
