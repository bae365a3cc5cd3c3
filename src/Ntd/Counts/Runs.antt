-- ===== src/Ntd/Counts/Runs.antt =====
-- ntd/ntd.c: over a run of the daemon, reference counts are the handles there are.
use ntlinux.Common.{ℕ, ◌≡◌, refl, ◌∙◌, List, [], ◌∷◌}
use ntlinux.Ntabi.{
  Opcode, op_none, create_event, open_event, create_mutant, open_mutant, create_semaphore,
  open_semaphore, set_event, reset_event, release_mutant, release_semaphore, wait_single,
  close_handle, wait_multiple, create_section, open_section, create_completion, open_completion,
  post_completion, remove_completion, open_process, open_thread, queue_apc, suspend_thread,
  resume_thread, Request, Slot, invalid_parameter,
}
use ntlinux.Ntd.State.{Ntd, Env, event, mutant, semaphore, completion, slot_at, client_pid_of}
use ntlinux.Ntd.Dispatch.{dispatch, process_request, sweep}
use ntlinux.Ntd.Start.{Event, submits, serves, sweeps, fill_slot, step, run}
use ntlinux.Ntd.Counts.{Book, Rules, book}
use ntlinux.Ntd.Counts.Keeping.{
  set_event_request-book, reset_event-book, release_mutant_request-book,
  release_semaphore_request-book, queue_apc-book, suspend_thread-book, resume_thread-book,
}
use ntlinux.Ntd.Counts.Waits.{post_completion-book, remove_completion-book, wait_multiple-book}
use ntlinux.Ntd.Counts.Polls.{check_process_exits-book, check_thread_exits-book}
use ntlinux.Ntd.Counts.Closing.{close_handle-keeps, expire_timeouts-book}
use ntlinux.Ntd.Counts.Handlers.{
  Holds, answer-keeps, create_event-keeps, create_mutant-keeps, create_semaphore-keeps,
  create_completion-keeps, open_typed-keeps,
}
use ntlinux.Ntd.Counts.Sections.{open_section-keeps, create_section-keeps}
use ntlinux.Ntd.Counts.Tasks.{kept-keeps, open_process-keeps, open_thread-keeps, wait_single-keeps}

module _ (k : ℕ) (P : Book → Type 0) (rules : Rules k P) where
  dispatch-keeps :
      (op : Opcode) (env : Env) (req : Request) (i pid : ℕ) (s : Ntd)
      → Holds k P s
      → Holds k P (dispatch op env req i pid s)
  unfolding dispatch
  dispatch-keeps create_event env req i pid s v = create_event-keeps k P rules req i pid s v
  dispatch-keeps open_event env req i pid s v = open_typed-keeps k P rules event req i pid s v
  dispatch-keeps set_event env req i pid s v =
      kept-keeps k P rules s _ (set_event_request-book k req i pid s) v
  dispatch-keeps reset_event env req i pid s v =
      kept-keeps k P rules s _ (reset_event-book k req i pid s) v
  dispatch-keeps create_mutant env req i pid s v = create_mutant-keeps k P rules req i pid s v
  dispatch-keeps open_mutant env req i pid s v = open_typed-keeps k P rules mutant req i pid s v
  dispatch-keeps release_mutant env req i pid s v =
      kept-keeps k P rules s _ (release_mutant_request-book k req i pid s) v
  dispatch-keeps create_semaphore env req i pid s v = create_semaphore-keeps k P rules req i pid s v
  dispatch-keeps open_semaphore env req i pid s v =
      open_typed-keeps k P rules semaphore req i pid s v
  dispatch-keeps release_semaphore env req i pid s v =
      kept-keeps k P rules s _ (release_semaphore_request-book k req i pid s) v
  dispatch-keeps wait_single env req i pid s v = wait_single-keeps k P rules env req i pid s v
  dispatch-keeps wait_multiple env req i pid s v =
      kept-keeps k P rules s _ (wait_multiple-book k env req i pid s) v
  dispatch-keeps close_handle env req i pid s v = close_handle-keeps k P rules req i pid s v
  dispatch-keeps create_section env req i pid s v = create_section-keeps k P rules env req i pid s v
  dispatch-keeps open_section env req i pid s v = open_section-keeps k P rules req i pid s v
  dispatch-keeps create_completion env req i pid s v =
      create_completion-keeps k P rules req i pid s v
  dispatch-keeps open_completion env req i pid s v =
      open_typed-keeps k P rules completion req i pid s v
  dispatch-keeps post_completion env req i pid s v =
      kept-keeps k P rules s _ (post_completion-book k req i pid s) v
  dispatch-keeps remove_completion env req i pid s v =
      kept-keeps k P rules s _ (remove_completion-book k env req i pid s) v
  dispatch-keeps open_process env req i pid s v = open_process-keeps k P rules env req i pid s v
  dispatch-keeps open_thread env req i pid s v = open_thread-keeps k P rules env req i pid s v
  dispatch-keeps queue_apc env req i pid s v =
      kept-keeps k P rules s _ (queue_apc-book k req i pid s) v
  dispatch-keeps suspend_thread env req i pid s v =
      kept-keeps k P rules s _ (suspend_thread-book k req i pid s) v
  dispatch-keeps resume_thread env req i pid s v =
      kept-keeps k P rules s _ (resume_thread-book k req i pid s) v
  dispatch-keeps op_none env req i pid s v = answer-keeps k P rules i invalid_parameter s v

  sweep-book : (env : Env) (s : Ntd) → book k (sweep env s) ≡ book k s
  unfolding sweep
  sweep-book env s =
      check_thread_exits-book k env _
      ∙ check_process_exits-book k env _
      ∙ expire_timeouts-book k env s

  fill_slot-book : (i : ℕ) (slot : Slot) (s : Ntd) → book k (fill_slot i slot s) ≡ book k s
  unfolding book fill_slot
  fill_slot-book i slot s = refl

  -- What the rules keep, every run keeps.
  pub run-keeps : (es : List Event) (s : Ntd) → Holds k P s → Holds k P (run es s)
  unfolding run step process_request
  run-keeps [] s v = v
  run-keeps (submits i slot ∷ es) s v =
      run-keeps es _ (kept-keeps k P rules s _ (fill_slot-book i slot s) v)
  run-keeps (serves env i ∷ es) s v =
      run-keeps es _ (dispatch-keeps (slot_at s i).req.opcode env _ i (client_pid_of s i) s v)
  run-keeps (sweeps env ∷ es) s v = run-keeps es _ (kept-keeps k P rules s _ (sweep-book env s) v)
