-- ===== src/Ntd/Calm/Polls.antt =====
-- ntd/ntd.c: polling processes and threads for their end leaves nobody at one that has ended.
use ntlinux.Common.{ℕ, List, [], ◌∷◌, true}
use ntlinux.Ntd.State.{Ntd, NtObject, Env, put_object}
use ntlinux.Ntd.Tasks.{
  check_process, check_processes, check_process_exits, check_thread, check_threads,
  check_thread_exits,
}
use ntlinux.Ntd.Calm.{Calm}
use ntlinux.Ntd.Calm.Waking.{if-Calm}
use ntlinux.Ntd.Calm.Signals.{announce-Calm, written-CalmBut}

check_process-Calm : (env : Env) (id : ℕ) (s : Ntd) → Calm s → Calm (check_process env id s)
unfolding check_process
check_process-Calm env id s v =
    if-Calm _ _ s (λ e. announce-Calm (put_object s id o) id (written-CalmBut s id o v)) (λ e. v)
  where
    o : NtObject
    o = record (s.object_at id) { process_exited = true }

check_processes-Calm :
    (env : Env) (ids : List ℕ) (s : Ntd) → Calm s → Calm (check_processes env ids s)
unfolding check_processes
check_processes-Calm env [] s v = v
check_processes-Calm env (id ∷ ids) s v =
    check_processes-Calm env ids _ (check_process-Calm env id s v)

pub check_process_exits-Calm : (env : Env) (s : Ntd) → Calm s → Calm (check_process_exits env s)
unfolding check_process_exits
check_process_exits-Calm env s v = check_processes-Calm env s.objects s v

check_thread-Calm : (env : Env) (id : ℕ) (s : Ntd) → Calm s → Calm (check_thread env id s)
unfolding check_thread
check_thread-Calm env id s v =
    if-Calm _ _ s (λ e. announce-Calm (put_object s id o) id (written-CalmBut s id o v)) (λ e. v)
  where
    o : NtObject
    o = record (s.object_at id) { thread_exited = true }

check_threads-Calm : (env : Env) (ids : List ℕ) (s : Ntd) → Calm s → Calm (check_threads env ids s)
unfolding check_threads
check_threads-Calm env [] s v = v
check_threads-Calm env (id ∷ ids) s v = check_threads-Calm env ids _ (check_thread-Calm env id s v)

pub check_thread_exits-Calm : (env : Env) (s : Ntd) → Calm s → Calm (check_thread_exits env s)
unfolding check_thread_exits
check_thread_exits-Calm env s v = check_threads-Calm env s.objects s v
