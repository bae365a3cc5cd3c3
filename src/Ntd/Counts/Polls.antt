-- ===== src/Ntd/Counts/Polls.antt =====
-- ntd/ntd.c: polling processes and threads for their end changes no link, handle or reference count.
use ntlinux.Common.{ℕ, ◌≡◌, refl, ◌∙◌, List, [], ◌∷◌, Bool, Bool-cases, inl, inr, not, ◌&&◌}
use ntlinux.Ntd.State.{Ntd, NtObject, Env, process, thread}
use ntlinux.Ntd.Objects.{same_type}
use ntlinux.Ntd.Tasks.{
  announce, exited, check_process, check_processes, check_process_exits, check_thread,
  check_threads, check_thread_exits,
}
use ntlinux.Ntd.Counts.{book, put_object-book}
use ntlinux.Ntd.Counts.Waking.{notify-book, wake_all-book}

module _ (k : ℕ) where
  announce-book : (id : ℕ) (s : Ntd) → book k (announce id s) ≡ book k s
  unfolding announce
  announce-book id s = notify-book k id _ ∙ wake_all-book k id s

  check_process-book : (env : Env) (id : ℕ) (s : Ntd) → book k (check_process env id s) ≡ book k s
  unfolding check_process
  check_process-book env id s = elim (Bool-cases (due (s.object_at id))) [
    | inl e ↦ rw e (announce-book id _ ∙ put_object-book k s id _ refl refl)
    | inr e ↦ rw e refl
  ]
    where
      due : NtObject → Bool
      due o = same_type o.type process && not o.process_exited && exited env o.pidfd

  check_processes-book :
      (env : Env) (ids : List ℕ) (s : Ntd) → book k (check_processes env ids s) ≡ book k s
  unfolding check_processes
  check_processes-book env [] s = refl
  check_processes-book env (id ∷ ids) s =
      check_processes-book env ids _ ∙ check_process-book env id s

  pub check_process_exits-book :
      (env : Env) (s : Ntd) → book k (check_process_exits env s) ≡ book k s
  unfolding check_process_exits
  check_process_exits-book env s = check_processes-book env s.objects s

  check_thread-book : (env : Env) (id : ℕ) (s : Ntd) → book k (check_thread env id s) ≡ book k s
  unfolding check_thread
  check_thread-book env id s = elim (Bool-cases (due (s.object_at id))) [
    | inl e ↦ rw e (announce-book id _ ∙ put_object-book k s id _ refl refl)
    | inr e ↦ rw e refl
  ]
    where
      due : NtObject → Bool
      due o =
          same_type o.type thread
          && not o.thread_exited
          && not (env.task_exists o.target_pid o.target_tid)

  check_threads-book :
      (env : Env) (ids : List ℕ) (s : Ntd) → book k (check_threads env ids s) ≡ book k s
  unfolding check_threads
  check_threads-book env [] s = refl
  check_threads-book env (id ∷ ids) s = check_threads-book env ids _ ∙ check_thread-book env id s

  pub check_thread_exits-book : (env : Env) (s : Ntd) → book k (check_thread_exits env s) ≡ book k s
  unfolding check_thread_exits
  check_thread_exits-book env s = check_threads-book env s.objects s
