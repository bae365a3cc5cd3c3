-- ===== src/Ntd/Calm/Handlers.antt =====
-- ntd/ntd.c: the handlers on a handle that is already there and the waits leave nobody at an object
-- that is available.
use ntlinux.Common.{ℕ, ℤ, pos, ◌≡◌, refl, false, Bool-cases, Option-cases, inl, inr}
use ntlinux.Ntabi.{
  Request, Status, Packet, success, invalid_handle, invalid_parameter, object_type_mismatch,
}
use ntlinux.Ntd.State.{Ntd, ObjType, event, mutant, semaphore, completion, thread, post}
use ntlinux.Ntd.Complete.{complete_io, complete_suspend}
use ntlinux.Ntd.Handles.{find_handle}
use ntlinux.Ntd.Objects.{same_type}
use ntlinux.Ntd.Waiters.{object_available}
use ntlinux.Ntd.Sync.{
  with_object, answer, handle_set_event, handle_reset_event, handle_release_mutant,
  release_semaphore, handle_release_semaphore, bad_release,
}
use ntlinux.Ntd.Ports.{handle_post_completion}
use ntlinux.Ntd.Tasks.{handle_queue_apc, handle_suspend_thread, handle_resume_thread}
use ntlinux.Ntd.Calm.{Calm, put-Calm, same_type_eq, unavailable-neglected, thread-neglected}
use ntlinux.Ntd.Calm.Waking.{complete-Calm, answer-Calm, notify-Calm, if-Calm}
use ntlinux.Ntd.Calm.Signals.{
  set_event-Calm, release_mutant-Calm, release_semaphore-Calm, deliver_packet-Calm,
}

pub complete_io-Calm :
    (s : Ntd) (i : ℕ) (st : Status) (p : Packet) → Calm s → Calm (complete_io s i st p)
unfolding complete_io post
complete_io-Calm s i st p v = v

complete_suspend-Calm :
    (s : Ntd) (i : ℕ) (st : Status) (n : ℤ) → Calm s → Calm (complete_suspend s i st n)
unfolding complete_suspend post
complete_suspend-Calm s i st n v = v

pub with_object-Calm :
    (s : Ntd) (pid : ℕ) (req : Request) (type : ObjType) (fail : Status → Ntd) (found : ℕ → Ntd)
    → ((st : Status) → Calm (fail st))
    → ((id : ℕ) → (s.object_at id).type ≡ type → Calm (found id))
    → Calm (with_object s pid req type fail found)
unfolding with_object
with_object-Calm s pid req type fail found f g =
    elim (Option-cases (find_handle pid req.handle s.handles)) [
      | inl n ↦ rw (with_object, n) (f invalid_handle)
      | inr (id, n) ↦ elim (Bool-cases (same_type (s.object_at id).type type)) [
        | inl t ↦ rw (with_object, n, t) (g id (same_type_eq _ type t))
        | inr t ↦ rw (with_object, n, t) (f object_type_mismatch)
      ]
    ]

module _ (req : Request) (i pid : ℕ) (s : Ntd) (v : Calm s) where
  answered : (st : Status) → Calm (answer s i st)
  answered st = answer-Calm s i st v

  pub set_event_request-Calm : Calm (handle_set_event req i pid s)
  unfolding handle_set_event
  set_event_request-Calm =
      with_object-Calm s pid req event _ _ answered
        λ id e. answer-Calm _ i success (set_event-Calm s id v e)

  pub reset_event-Calm : Calm (handle_reset_event req i pid s)
  unfolding handle_reset_event object_available
  reset_event-Calm = with_object-Calm s pid req event _ _ answered λ id e. answer-Calm _ i success (
      put-Calm s id (record (s.object_at id) { signaled = false }) v
        (unavailable-neglected (record (s.object_at id) { signaled = false }) (rw e refl)))

  pub release_mutant_request-Calm : Calm (handle_release_mutant req i pid s)
  unfolding handle_release_mutant
  release_mutant_request-Calm = with_object-Calm s pid req mutant _ _ answered λ id e.
      if-Calm (s.object_at id).owned _ _
        (λ o. answer-Calm _ i success (release_mutant-Calm s id v e))
        (λ o. answered invalid_parameter)

  pub release_semaphore_request-Calm : Calm (handle_release_semaphore req i pid s)
  unfolding handle_release_semaphore
  release_semaphore_request-Calm = with_object-Calm s pid req semaphore _ _ answered λ id e.
      if-Calm (bad_release req (s.object_at id)) _ _ (λ b. answered invalid_parameter)
        λ b.
          complete-Calm (release_semaphore id req.release_count s) i success 0 _
            (release_semaphore-Calm s id req.release_count v e)

  pub queue_apc-Calm : Calm (handle_queue_apc req i pid s)
  unfolding handle_queue_apc
  queue_apc-Calm = with_object-Calm s pid req thread _ _ answered λ id e. answer-Calm _ i success (
      put-Calm s id _ v (thread-neglected (s.object_at id) _ (s.object_at id).suspend_count (v id)))

  pub suspend_thread-Calm : Calm (handle_suspend_thread req i pid s)
  unfolding handle_suspend_thread
  suspend_thread-Calm =
      with_object-Calm s pid req thread _ _ (λ st. complete_suspend-Calm s i st (pos 0) v)
        λ id e.
          complete_suspend-Calm _ i success _
            (put-Calm s id _ v (thread-neglected (s.object_at id) (s.object_at id).apcs _ (v id)))

  pub resume_thread-Calm : Calm (handle_resume_thread req i pid s)
  unfolding handle_resume_thread
  resume_thread-Calm =
      with_object-Calm s pid req thread _ _ (λ st. complete_suspend-Calm s i st (pos 0) v)
        λ id e.
          complete_suspend-Calm _ i success _
            (put-Calm s id _ v (thread-neglected (s.object_at id) (s.object_at id).apcs _ (v id)))

  pub post_completion-Calm : Calm (handle_post_completion req i pid s)
  unfolding handle_post_completion
  post_completion-Calm =
      with_object-Calm s pid req completion _ _ answered
        λ id e. answer-Calm _ i success (notify-Calm id _ (deliver_packet-Calm s id req.packet v))
