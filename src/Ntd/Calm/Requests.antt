-- ===== src/Ntd/Calm/Requests.antt =====
-- ntd/ntd.c: the handlers that make and open objects, and WAIT_SINGLE, leave nobody at an object that
-- is available.
use ntlinux.Common.{
  ℕ, pos, refl, Bool, arith, Option-cases, List-cases, inl, inr, ◌&&◌, ◌==◌, leb_ℤ,
}
use ntlinux.Ntabi.{
  Request, Status, object_name_not_found, object_name_collision, object_type_mismatch,
  invalid_parameter, process_not_found, thread_not_found,
}
use ntlinux.Ntd.State.{Ntd, NtObject, ObjType, Env, section, process, slot_at, post}
use ntlinux.Ntd.Complete.{complete_apc}
use ntlinux.Ntd.Objects.{
  same_type, find_object, find_by_name, find_thread_object, find_or_create_thread_object,
}
use ntlinux.Ntd.Sync.{
  answer, name_taken, handle_open_typed, handle_create_event, handle_create_mutant,
  handle_create_semaphore, bad_counts,
}
use ntlinux.Ntd.Waits.{handle_wait_single}
use ntlinux.Ntd.Ports.{
  new_section, handle_create_section, handle_open_section, handle_create_completion,
}
use ntlinux.Ntd.Tasks.{new_process, handle_open_process, handle_open_thread}
use ntlinux.Ntd.Calm.{Calm, put-Calm, thread-neglected}
use ntlinux.Ntd.Calm.Waking.{answer-Calm, if-Calm}
use ntlinux.Ntd.Calm.Waits.{wait_on_handle-Calm}
use ntlinux.Ntd.Calm.Making.{
  back_section-Calm, create_with-Calm, find_or_create_thread-Calm, give_handle-Calm,
  give_section-Calm, new_process-Calm, new_section-Calm, section_answer-Calm,
}

module _ (req : Request) (i pid : ℕ) (s : Ntd) (v : Calm s) where
  refused : (st : Status) → Calm (answer s i st)
  refused st = answer-Calm s i st v

  pub create_event-Calm : Calm (handle_create_event req i pid s)
  unfolding handle_create_event
  create_event-Calm =
      if-Calm (name_taken s req) _ _ (λ t. refused object_name_collision)
        λ t. create_with-Calm _ _ req i pid s (λ o. refl) v

  pub create_mutant-Calm : Calm (handle_create_mutant req i pid s)
  unfolding handle_create_mutant
  create_mutant-Calm =
      if-Calm (name_taken s req) _ _ (λ t. refused object_name_collision)
        λ t. create_with-Calm _ _ req i pid s (λ o. ground arith) v

  pub create_semaphore-Calm : Calm (handle_create_semaphore req i pid s)
  unfolding handle_create_semaphore
  create_semaphore-Calm =
      if-Calm (bad_counts req) _ _ (λ b. refused invalid_parameter)
        λ b.
          if-Calm (name_taken s req) _ _ (λ t. refused object_name_collision)
            λ t. create_with-Calm _ _ req i pid s (λ o. refl) v

  pub create_completion-Calm : Calm (handle_create_completion req i pid s)
  unfolding handle_create_completion
  create_completion-Calm =
      if-Calm (name_taken s req) _ _ (λ t. refused object_name_collision)
        λ t. create_with-Calm _ _ req i pid s (λ o. refl) v

  pub open_typed-Calm : (type : ObjType) → Calm (handle_open_typed type req i pid s)
  unfolding handle_open_typed
  open_typed-Calm type = elim (Option-cases (find_by_name s req.name)) [
    | inl n ↦ rw (handle_open_typed, n) (refused object_name_not_found)
    | inr (id, n) ↦
        rw (handle_open_typed, n)
          (if-Calm (same_type (s.object_at id).type type) _ _ (λ t. give_handle-Calm id i pid s v)
            λ t. refused object_type_mismatch)
  ]

  pub open_section-Calm : Calm (handle_open_section req i pid s)
  unfolding handle_open_section
  open_section-Calm = elim (Option-cases (find_by_name s req.name)) [
    | inl n ↦ rw (handle_open_section, n) (section_answer-Calm s i object_name_not_found v)
    | inr (id, n) ↦
        rw (handle_open_section, n)
          (if-Calm (same_type (s.object_at id).type section) _ _
            (λ t. give_section-Calm id i pid s v)
            λ t. section_answer-Calm s i object_type_mismatch v)
  ]

  pub create_section-Calm : (env : Env) → Calm (handle_create_section env req i pid s)
  unfolding handle_create_section
  create_section-Calm env =
      if-Calm (leb_ℤ req.section_size (pos 0)) _ _
        (λ b. section_answer-Calm s i invalid_parameter v)
        λ b.
          if-Calm (name_taken s req) _ _ (λ t. section_answer-Calm s i object_name_collision v)
            λ t.
              back_section-Calm env req s.next_section_id (new_section req s).0 i pid
                (new_section req s).1 (new_section-Calm req s v)

  pub open_process-Calm : (env : Env) → Calm (handle_open_process env req i pid s)
  unfolding handle_open_process
  open_process-Calm env = elim (Option-cases (find_object is_it s.object_at s.objects)) [
    | inr (id, n) ↦ rw (handle_open_process, n) (give_handle-Calm id i pid s v)
    | inl n ↦ elim (Option-cases (env.pidfd_open req.target_pid)) [
      | inl f ↦ rw (handle_open_process, n, f) (refused process_not_found)
      | inr (fd, f) ↦
          rw (handle_open_process, n, f)
            (give_handle-Calm _ i pid (new_process env req.target_pid fd s).1
              (new_process-Calm env req.target_pid fd s v))
    ]
  ]
    where
      is_it : NtObject → Bool
      is_it o = same_type o.type process && o.target_pid == req.target_pid

  pub open_thread-Calm : (env : Env) → Calm (handle_open_thread env req i pid s)
  unfolding handle_open_thread
  open_thread-Calm env = elim (Option-cases (find_thread_object s req.target_pid req.target_tid)) [
    | inr (id, n) ↦ rw (handle_open_thread, n) (give_handle-Calm id i pid s v)
    | inl n ↦
        rw (handle_open_thread, n)
          (if-Calm (env.task_exists req.target_pid req.target_tid) _ _
            (λ t.
              give_handle-Calm _ i pid _
                (find_or_create_thread-Calm req.target_pid req.target_tid s v))
            λ t. refused thread_not_found)
  ]

  pub wait_single-Calm : (env : Env) → Calm (handle_wait_single env req i pid s)
  unfolding handle_wait_single complete_apc post
  wait_single-Calm env =
      if-Calm req.alertable _ _
        (λ a. elim (List-cases (s1.object_at self).apcs) [
          | inl n ↦ rw n (wait_on_handle-Calm env req i pid s1 w)
          | inr (x, rest, n) ↦ rw n (
              put-Calm s1 self _ w (
                thread-neglected (s1.object_at self) rest (s1.object_at self).suspend_count
                  (w self)))
        ])
        λ a. wait_on_handle-Calm env req i pid s v
    where
      self : ℕ
      self = (find_or_create_thread_object pid (slot_at s i).client_tid s).0

      s1 : Ntd
      s1 = (find_or_create_thread_object pid (slot_at s i).client_tid s).1

      w : Calm s1
      w = find_or_create_thread-Calm pid (slot_at s i).client_tid s v
