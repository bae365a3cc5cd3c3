-- ===== src/Ntd/Tasks.antt =====
-- ntd/ntd.c: the request handlers of Process and Thread objects, APC queues among them, and the
-- polls for exited processes and threads.
use ntlinux.Common.{
  ℕ, ℤ, pos, negsuc, List, [], ◌∷◌, ◌++◌, Option, none, some, Bool, true, false, not, ◌&&◌, ◌==◌,
  ltb_ℤ, add_i32, if◌then◌else◌,
}
use ntlinux.Ntabi.{Request, success, process_not_found, thread_not_found}
use ntlinux.Ntd.State.{Ntd, Env, process, thread, put_object}
use ntlinux.Ntd.Complete.{complete_suspend}
use ntlinux.Ntd.Objects.{
  create_object, find_object, find_thread_object, find_or_create_thread_object, same_type,
}
use ntlinux.Ntd.Multiwaits.{notify_multiwaiters, wake_all_waiters_success}
use ntlinux.Ntd.Sync.{answer, with_object, give_handle}

-- Whether `poll` finds the process of a pidfd gone.
abbrev pub exited : Env → Option ℕ → Bool
exited env none = false
exited env (some fd) = env.poll_in fd

unfoldable pub new_process : Env → ℕ → ℕ → Ntd → ℕ × Ntd
new_process env target fd s =
    let (id, s1) = create_object process [] s in
    let o = s1.object_at id in
    (
      id,
      record (put_object s1 id (record o {
        target_pid = target;
        pidfd = some fd;
        process_exited = exited env (some fd);
      })) { pidfds = fd ∷ s.pidfds },
    )

unfoldable pub handle_open_process : Env → Request → ℕ → ℕ → Ntd → Ntd
handle_open_process env req i pid s =
    elim (find_object (λ o. same_type o.type process && o.target_pid == req.target_pid) s.object_at
      s.objects) [
        | some id ↦ give_handle id i pid s
        | none ↦ elim (env.pidfd_open req.target_pid) [
          | none ↦ answer s i process_not_found
          | some fd ↦ let (id, s') = new_process env req.target_pid fd s in give_handle id i pid s'
        ]
      ]

-- The waiters of an object that has become available for good.
unfoldable pub announce : ℕ → Ntd → Ntd
announce id s = notify_multiwaiters id (wake_all_waiters_success id s)

unfoldable pub check_process : Env → ℕ → Ntd → Ntd
check_process env id s =
    let o = s.object_at id in
    if same_type o.type process && not o.process_exited && exited env o.pidfd
    then announce id (put_object s id (record o { process_exited = true }))
    else s

unfoldable pub check_processes : Env → List ℕ → Ntd → Ntd
check_processes env [] s = s
check_processes env (id ∷ ids) s = check_processes env ids (check_process env id s)

unfoldable pub check_process_exits : Env → Ntd → Ntd
check_process_exits env s = check_processes env s.objects s

unfoldable pub handle_open_thread : Env → Request → ℕ → ℕ → Ntd → Ntd
handle_open_thread env req i pid s = elim (find_thread_object s req.target_pid req.target_tid) [
  | some id ↦ give_handle id i pid s
  | none ↦
      if env.task_exists req.target_pid req.target_tid
      then (let (id, s') = find_or_create_thread_object req.target_pid req.target_tid s in
          give_handle id i pid s')
      else answer s i thread_not_found
]

unfoldable pub check_thread : Env → ℕ → Ntd → Ntd
check_thread env id s =
    let o = s.object_at id in
    if same_type o.type thread
      && not o.thread_exited
      && not (env.task_exists o.target_pid o.target_tid)
    then announce id (put_object s id (record o { thread_exited = true }))
    else s

unfoldable pub check_threads : Env → List ℕ → Ntd → Ntd
check_threads env [] s = s
check_threads env (id ∷ ids) s = check_threads env ids (check_thread env id s)

unfoldable pub check_thread_exits : Env → Ntd → Ntd
check_thread_exits env s = check_threads env s.objects s

-- The APC joins the queue, and nobody is woken.
unfoldable pub handle_queue_apc : Request → ℕ → ℕ → Ntd → Ntd
handle_queue_apc req i pid s = with_object s pid req thread (answer s i) λ id.
    let o = s.object_at id in
    answer (put_object s id (record o { apcs = o.apcs ++ req.apc ∷ [] })) i success

unfoldable pub handle_suspend_thread : Request → ℕ → ℕ → Ntd → Ntd
handle_suspend_thread req i pid s =
    with_object s pid req thread (λ st. complete_suspend s i st (pos 0))
      λ id.
        let o = s.object_at id in
        complete_suspend
          (put_object s id (record o { suspend_count = add_i32 o.suspend_count (pos 1) })) i success
          o.suspend_count

abbrev pub resumed : ℤ → ℤ
resumed n = if ltb_ℤ (pos 0) n then add_i32 n (negsuc 0) else n

unfoldable pub handle_resume_thread : Request → ℕ → ℕ → Ntd → Ntd
handle_resume_thread req i pid s =
    with_object s pid req thread (λ st. complete_suspend s i st (pos 0))
      λ id.
        let o = s.object_at id in
        complete_suspend (put_object s id (record o { suspend_count = resumed o.suspend_count })) i
          success o.suspend_count
