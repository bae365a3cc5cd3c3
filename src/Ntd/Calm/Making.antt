-- ===== src/Ntd/Calm/Making.antt =====
-- ntd/ntd.c: nobody waits for a new object, and a handle more changes nothing for those who wait.
use ntlinux.Common.{
  ℤ, ℕ, pos, ◌+◌, ◌≡◌, refl, ap, ◌∙◌, List, [], Option, none, some, Option-cases, inl, inr,
  update_self,
}
use ntlinux.Ntabi.{Request, Status, success, internal_error}
use ntlinux.Ntd.State.{Ntd, NtObject, ObjType, Env, section, process, thread, put_object, post}
use ntlinux.Ntd.Complete.{complete_section}
use ntlinux.Ntd.Handles.{register_handle}
use ntlinux.Ntd.Objects.{find_thread_object, find_or_create_thread_object, create_object, blank}
use ntlinux.Ntd.Sync.{create_with, give_handle}
use ntlinux.Ntd.Ports.{new_section, give_section, back_section, section_answer}
use ntlinux.Ntd.Tasks.{exited, new_process}
use ntlinux.Ntd.Calm.{has_single, Calm, put-Calm, unwaited-neglected, refcount-neglected}
use ntlinux.Ntd.Calm.Waking.{complete-Calm, if-Calm}
use ntlinux.Ntd.Calm.Scans.{free_object-Calm}

create_object-Calm :
    (type : ObjType) (name : List ℕ) (s : Ntd) → Calm s → Calm (create_object type name s).1
unfolding create_object
create_object-Calm type name s v =
    put-Calm s s.next_object_id (blank type name) v (unwaited-neglected (blank type name) refl)

-- The fields that a handler gives to a new object are not its waiters.
filled-Calm :
    (type : ObjType) (name : List ℕ) (s : Ntd) (f : NtObject → NtObject)
    → ((o : NtObject) → (f o).waiters ≡ o.waiters)
    → Calm s
    → (let t = (create_object type name s).1 in
        Calm (put_object t s.next_object_id (f (t.object_at s.next_object_id))))
unfolding create_object
filled-Calm type name s f h v =
    put-Calm (create_object type name s).1 s.next_object_id (f o) (create_object-Calm type name s v)
      (unwaited-neglected (f o) (
        ap has_single
          (h o ∙ ap (λ x. x.waiters) (update_self s.object_at s.next_object_id (blank type name)))))
  where
    o : NtObject
    o = (create_object type name s).1.object_at s.next_object_id

register-Calm : (pid id : ℕ) (s : Ntd) → Calm s → Calm (register_handle pid id s).1
unfolding register_handle
register-Calm pid id s v =
    put-Calm s id _ v (refcount-neglected (s.object_at id) ((s.object_at id).refcount + 1) (v id))

pub give_handle-Calm : (id i pid : ℕ) (s : Ntd) → Calm s → Calm (give_handle id i pid s)
unfolding give_handle
give_handle-Calm id i pid s v = complete-Calm _ i success _ (pos 0) (register-Calm pid id s v)

pub create_with-Calm :
    (type : ObjType) (init : NtObject → NtObject) (req : Request) (i pid : ℕ) (s : Ntd)
    → ((o : NtObject) → (init o).waiters ≡ o.waiters)
    → Calm s
    → Calm (create_with type init req i pid s)
unfolding create_with create_object
create_with-Calm type init req i pid s h v =
    complete-Calm _ i success _ (pos 0)
      (register-Calm pid s.next_object_id _ (filled-Calm type req.name s init h v))

complete_section-Calm :
    (s : Ntd) (i : ℕ) (st : Status) (h : ℕ) (n : ℤ) (name : Option ℕ)
    → Calm s
    → Calm (complete_section s i st h n name)
unfolding complete_section post
complete_section-Calm s i st h n name v = v

pub give_section-Calm : (id i pid : ℕ) (s : Ntd) → Calm s → Calm (give_section id i pid s)
unfolding give_section
give_section-Calm id i pid s v =
    complete_section-Calm (register_handle pid id s).1 i success _ _ _ (register-Calm pid id s v)

pub section_answer-Calm : (s : Ntd) (i : ℕ) (st : Status) → Calm s → Calm (section_answer s i st)
section_answer-Calm s i st v = complete_section-Calm s i st 0 (pos 0) none v

pub back_section-Calm :
    (env : Env) (req : Request) (n id i pid : ℕ) (s : Ntd)
    → Calm s
    → Calm (back_section env req n id i pid s)
unfolding back_section
back_section-Calm env req n id i pid s v =
    if-Calm (env.shm_open n) _ _
      (λ o.
        if-Calm (env.ftruncate n req.section_size) _ _ (λ f. give_section-Calm id i pid _ v)
          λ f. section_answer-Calm _ i internal_error (free_object-Calm id _ v))
      λ o. section_answer-Calm _ i internal_error (free_object-Calm id s v)

pub new_section-Calm : (req : Request) (s : Ntd) → Calm s → Calm (new_section req s).1
unfolding new_section create_object
new_section-Calm req s v =
    filled-Calm section req.name s
      (λ o. record o { section_size = req.section_size; shm_name = some s.next_section_id })
      (λ o. refl) v

pub new_process-Calm :
    (env : Env) (target fd : ℕ) (s : Ntd) → Calm s → Calm (new_process env target fd s).1
unfolding new_process create_object
new_process-Calm env target fd s v =
    filled-Calm process [] s
      (λ o. record o {
        target_pid = target;
        pidfd = some fd;
        process_exited = exited env (some fd);
      })
      (λ o. refl) v

pub find_or_create_thread-Calm :
    (pid tid : ℕ) (s : Ntd) → Calm s → Calm (find_or_create_thread_object pid tid s).1
unfolding find_or_create_thread_object create_object
find_or_create_thread-Calm pid tid s v = elim (Option-cases (find_thread_object s pid tid)) [
  | inl n ↦
      rw (find_or_create_thread_object, n)
        (filled-Calm thread [] s (λ o. record o { target_pid = pid; target_tid = tid }) (λ o. refl)
          v)
  | inr (id, n) ↦ rw (find_or_create_thread_object, n) v
]
