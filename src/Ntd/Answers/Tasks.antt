-- ===== src/Ntd/Answers/Tasks.antt =====
-- The answers of the handlers of Process and Thread objects in ntd.c, and the two polls.
use ntlinux.Common.{
  ℕ, ℤ, pos, ◌<◌, refl, Option, none, some, Bool, true, List, [], ◌∷◌, ◌&&◌, ◌==◌, All, All-lt_mono,
  if-elim, Option-cases, inl, inr,
}
use ntlinux.Ntabi.{Request, Status, success, thread_not_found, process_not_found}
use ntlinux.Ntd.State.{Ntd, NtObject, Env, process, thread}
use ntlinux.Ntd.Complete.{complete_suspend}
use ntlinux.Ntd.Objects.{create_object, find_object, find_thread_object, same_type}
use ntlinux.Ntd.Sync.{answer, give_handle}
use ntlinux.Ntd.Tasks.{
  new_process, handle_open_process, announce, check_process, check_processes, check_process_exits,
  handle_open_thread, check_thread, check_threads, check_thread_exits, handle_queue_apc,
  handle_suspend_thread, handle_resume_thread,
}
use ntlinux.Ntd.Answers.Tally.{IsValid, Keeps, Keeps-refl, Moves-trans, Moves-rest, post-Moves}
use ntlinux.Ntd.Answers.Writes.{
  answer-Moves, put_fields-Keeps, create_object-Keeps, find_object-lt, find_thread_object-lt,
  with_object-elim,
}
use ntlinux.Ntd.Answers.Waking.{notify_multiwaiters-Keeps}
use ntlinux.Ntd.Answers.Scans.{wake_all-Keeps}
use ntlinux.Ntd.Answers.Sync.{Answers, then_answers, next-create_object, give_handle-Answers}
use ntlinux.Ntd.Answers.Waits.{find_or_create_Finds}

announce-Keeps :
    {s : Ntd} (k id : ℕ) → IsValid s → id < s.next_object_id → Keeps k s (announce id s)
unfolding announce
announce-Keeps k id v lt =
    let a = wake_all-Keeps k id v lt in Moves-trans a (notify_multiwaiters-Keeps k id a.valid)

check_process-Keeps :
    {s : Ntd} (env : Env) (k id : ℕ)
    → IsValid s
    → id < s.next_object_id
    → Keeps k s (check_process env id s)
unfolding check_process
check_process-Keeps {s} env k id v lt =
    let a = put_fields-Keeps k id (record (s.object_at id) { process_exited = true }) refl v in
    if-elim (Keeps k s) _ (Moves-trans a (announce-Keeps k id a.valid lt)) (Keeps-refl k v)

check_thread-Keeps :
    {s : Ntd} (env : Env) (k id : ℕ)
    → IsValid s
    → id < s.next_object_id
    → Keeps k s (check_thread env id s)
unfolding check_thread
check_thread-Keeps {s} env k id v lt =
    let a = put_fields-Keeps k id (record (s.object_at id) { thread_exited = true }) refl v in
    if-elim (Keeps k s) _ (Moves-trans a (announce-Keeps k id a.valid lt)) (Keeps-refl k v)

check_processes-Keeps :
    (env : Env) (k : ℕ) (ids : List ℕ) {s : Ntd}
    → IsValid s
    → All (λ i. i < s.next_object_id) ids
    → Keeps k s (check_processes env ids s)
unfolding check_processes
check_processes-Keeps env k [] v h = Keeps-refl k v
check_processes-Keeps env k (id ∷ ids) v h =
    let a = check_process-Keeps env k id v h.0 in
    Moves-trans a (check_processes-Keeps env k ids a.valid (All-lt_mono ids a.more_objects h.1))

check_threads-Keeps :
    (env : Env) (k : ℕ) (ids : List ℕ) {s : Ntd}
    → IsValid s
    → All (λ i. i < s.next_object_id) ids
    → Keeps k s (check_threads env ids s)
unfolding check_threads
check_threads-Keeps env k [] v h = Keeps-refl k v
check_threads-Keeps env k (id ∷ ids) v h =
    let a = check_thread-Keeps env k id v h.0 in
    Moves-trans a (check_threads-Keeps env k ids a.valid (All-lt_mono ids a.more_objects h.1))

pub check_process_exits-Keeps :
    {s : Ntd} (env : Env) (k : ℕ) → IsValid s → Keeps k s (check_process_exits env s)
unfolding check_process_exits
check_process_exits-Keeps {s} env k v = check_processes-Keeps env k s.objects v v.objects_lt

pub check_thread_exits-Keeps :
    {s : Ntd} (env : Env) (k : ℕ) → IsValid s → Keeps k s (check_thread_exits env s)
unfolding check_thread_exits
check_thread_exits-Keeps {s} env k v = check_threads-Keeps env k s.objects v v.objects_lt

complete_suspend_moves :
    {s : Ntd} (k i : ℕ) (st : Status) (n : ℤ)
    → IsValid s
    → Answers k i s (complete_suspend s i st n)
unfolding complete_suspend
complete_suspend_moves k i st n v = post-Moves k i _ v

module _ (k : ℕ) (req : Request) (i pid : ℕ) {s : Ntd} (v : IsValid s) where
  new_process-Answers :
      (env : Env) (target fd : ℕ)
      → let (id, s') = new_process env target fd s in Answers k i s (give_handle id i pid s')
  unfolding new_process
  new_process-Answers env target fd =
      let id = (create_object process [] s).0 in
      let a = create_object-Keeps k process [] v in
      let b = put_fields-Keeps k id _ refl a.valid in
      let c = Moves-rest _ _ _ (fd ∷ s.pidfds) (Moves-trans a b) in
      then_answers c (give_handle-Answers k id i pid c.valid (next-create_object process [] s))

  pub open_process-Answers : (env : Env) → Answers k i s (handle_open_process env req i pid s)
  unfolding handle_open_process
  open_process-Answers env = elim (Option-cases (find_object p s.object_at s.objects)) [
    | inr (id, e) ↦
        rw (e, handle_open_process)
          (give_handle-Answers k id i pid v
            (find_object-lt p s.object_at s.next_object_id s.objects v.objects_lt e))
    | inl e ↦ rw (e, handle_open_process) (go (env.pidfd_open req.target_pid))
  ]
    where
      p : NtObject → Bool
      p = λ o. same_type o.type process && o.target_pid == req.target_pid

      go :
          (r : Option ℕ)
          → Answers k i s (elim r [
            | none ↦ answer s i process_not_found
            | some fd ↦
                let (id, s') = new_process env req.target_pid fd s in give_handle id i pid s'
          ])
      go none = answer-Moves k i process_not_found v
      go (some fd) = new_process-Answers env req.target_pid fd

  pub open_thread-Answers : (env : Env) → Answers k i s (handle_open_thread env req i pid s)
  unfolding handle_open_thread
  open_thread-Answers env =
      elim (Option-cases (find_thread_object s req.target_pid req.target_tid)) [
        | inr (id, e) ↦
            rw (e, handle_open_thread)
              (give_handle-Answers k id i pid v
                (find_thread_object-lt req.target_pid req.target_tid v e))
        | inl e ↦
            let f = find_or_create_Finds k req.target_pid req.target_tid v in
            rw (e, handle_open_thread)
              (if-elim (Answers k i s) (env.task_exists req.target_pid req.target_tid)
                (then_answers f.keeps (give_handle-Answers k _ i pid f.keeps.valid f.found))
                (answer-Moves k i thread_not_found v))
      ]

  pub queue_apc-Answers : Answers k i s (handle_queue_apc req i pid s)
  unfolding handle_queue_apc
  queue_apc-Answers =
      with_object-elim (Answers k i s) pid req thread v (λ st. answer-Moves k i st v)
        λ id lt.
          let a = put_fields-Keeps k id _ refl v in
          then_answers a (answer-Moves k i success a.valid)

  pub suspend_thread-Answers : Answers k i s (handle_suspend_thread req i pid s)
  unfolding handle_suspend_thread
  suspend_thread-Answers =
      with_object-elim (Answers k i s) pid req thread v
        (λ st. complete_suspend_moves k i st (pos 0) v)
        λ id lt.
          let a = put_fields-Keeps k id _ refl v in
          then_answers a (complete_suspend_moves k i success _ a.valid)

  pub resume_thread-Answers : Answers k i s (handle_resume_thread req i pid s)
  unfolding handle_resume_thread
  resume_thread-Answers =
      with_object-elim (Answers k i s) pid req thread v
        (λ st. complete_suspend_moves k i st (pos 0) v)
        λ id lt.
          let a = put_fields-Keeps k id _ refl v in
          then_answers a (complete_suspend_moves k i success _ a.valid)
