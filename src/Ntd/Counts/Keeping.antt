-- ===== src/Ntd/Counts/Keeping.antt =====
-- ntd/ntd.c: the handlers on a handle that is already there, the waits and the polls change no link,
-- handle or reference count.
use ntlinux.Common.{ℕ, ℤ, pos, ◌≡◌, refl, ◌∙◌, Bool-cases, Option-cases, inl, inr, length, ◌+◌}
use ntlinux.Ntabi.{
  Request, Status, Packet, Apc, success, invalid_handle, invalid_parameter, object_type_mismatch,
}
use ntlinux.Ntd.State.{Ntd, ObjType}
use ntlinux.Ntd.Complete.{complete_io, complete_suspend, complete_apc}
use ntlinux.Ntd.Handles.{find_handle}
use ntlinux.Ntd.Objects.{same_type}
use ntlinux.Ntd.Sync.{
  with_object, set_event, handle_set_event, handle_reset_event, release_mutant,
  handle_release_mutant, release_semaphore, handle_release_semaphore, bad_release,
}
use ntlinux.Ntd.Tasks.{handle_queue_apc, handle_suspend_thread, handle_resume_thread}
use ntlinux.Ntd.Counts.{book, put_object-book, post-book}
use ntlinux.Ntd.Counts.Waking.{
  complete-book, answer-book, notify-book, satisfy_one-book, satisfy_waiters-book, wake_all-book,
}

module _ (k : ℕ) where
  pub complete_io-book :
      (s : Ntd) (i : ℕ) (st : Status) (p : Packet) → book k (complete_io s i st p) ≡ book k s
  unfolding complete_io
  complete_io-book s i st p = post-book k s i _

  complete_suspend-book :
      (s : Ntd) (i : ℕ) (st : Status) (n : ℤ) → book k (complete_suspend s i st n) ≡ book k s
  unfolding complete_suspend
  complete_suspend-book s i st n = post-book k s i _

  pub complete_apc-book :
      (s : Ntd) (i : ℕ) (st : Status) (a : Apc) → book k (complete_apc s i st a) ≡ book k s
  unfolding complete_apc
  complete_apc-book s i st a = post-book k s i _

  pub with_object-book :
      (s : Ntd) (pid : ℕ) (req : Request) (type : ObjType) (fail : Status → Ntd) (found : ℕ → Ntd)
      → ((st : Status) → book k (fail st) ≡ book k s)
      → ((id : ℕ) → book k (found id) ≡ book k s)
      → book k (with_object s pid req type fail found) ≡ book k s
  unfolding with_object
  with_object-book s pid req type fail found f g =
      elim (Option-cases (find_handle pid req.handle s.handles)) [
        | inl n ↦ rw (with_object, n) (f invalid_handle)
        | inr (id, n) ↦ elim (Bool-cases (same_type (s.object_at id).type type)) [
          | inl t ↦ rw (with_object, n, t) (g id)
          | inr t ↦ rw (with_object, n, t) (f object_type_mismatch)
        ]
      ]

  set_event-book : (id : ℕ) (s : Ntd) → book k (set_event id s) ≡ book k s
  unfolding set_event
  set_event-book id s = elim (Bool-cases (s.object_at id).manual_reset) [
    | inl e ↦ rw e (notify-book k id _ ∙ wake_all-book k id _ ∙ put_object-book k s id _ refl refl)
    | inr e ↦
        rw e (notify-book k id _ ∙ satisfy_one-book k id _ ∙ put_object-book k s id _ refl refl)
  ]

  release_mutant-book : (id : ℕ) (s : Ntd) → book k (release_mutant id s) ≡ book k s
  unfolding release_mutant
  release_mutant-book id s =
      notify-book k id _ ∙ satisfy_one-book k id _ ∙ put_object-book k s id _ refl refl

  release_semaphore-book : (id : ℕ) (n : ℤ) (s : Ntd) → book k (release_semaphore id n s) ≡ book k s
  unfolding release_semaphore
  release_semaphore-book id n s =
      notify-book k id _
      ∙ satisfy_waiters-book k (length (s.object_at id).waiters + 1) id _
      ∙ put_object-book k s id _ refl refl

  module _ (req : Request) (i pid : ℕ) (s : Ntd) where
    pub set_event_request-book : book k (handle_set_event req i pid s) ≡ book k s
    unfolding handle_set_event
    set_event_request-book =
        with_object-book s pid req _ _ _ (answer-book k s i)
          λ id. answer-book k _ i success ∙ set_event-book id s

    pub reset_event-book : book k (handle_reset_event req i pid s) ≡ book k s
    unfolding handle_reset_event
    reset_event-book =
        with_object-book s pid req _ _ _ (answer-book k s i)
          λ id. answer-book k _ i success ∙ put_object-book k s id _ refl refl

    pub release_mutant_request-book : book k (handle_release_mutant req i pid s) ≡ book k s
    unfolding handle_release_mutant
    release_mutant_request-book = with_object-book s pid req _ _ _ (answer-book k s i) λ id.
        elim (Bool-cases (s.object_at id).owned) [
          | inl e ↦ rw e (answer-book k _ i success ∙ release_mutant-book id s)
          | inr e ↦ rw e (answer-book k s i invalid_parameter)
        ]

    pub release_semaphore_request-book : book k (handle_release_semaphore req i pid s) ≡ book k s
    unfolding handle_release_semaphore
    release_semaphore_request-book = with_object-book s pid req _ _ _ (answer-book k s i) λ id.
        elim (Bool-cases (bad_release req (s.object_at id))) [
          | inl e ↦ rw e (answer-book k s i invalid_parameter)
          | inr e ↦ rw e (complete-book k _ i success 0 _ ∙ release_semaphore-book id _ s)
        ]

    pub queue_apc-book : book k (handle_queue_apc req i pid s) ≡ book k s
    unfolding handle_queue_apc
    queue_apc-book =
        with_object-book s pid req _ _ _ (answer-book k s i)
          λ id. answer-book k _ i success ∙ put_object-book k s id _ refl refl

    pub suspend_thread-book : book k (handle_suspend_thread req i pid s) ≡ book k s
    unfolding handle_suspend_thread
    suspend_thread-book =
        with_object-book s pid req _ _ _ (λ st. complete_suspend-book s i st (pos 0))
          λ id. complete_suspend-book _ i success _ ∙ put_object-book k s id _ refl refl

    pub resume_thread-book : book k (handle_resume_thread req i pid s) ≡ book k s
    unfolding handle_resume_thread
    resume_thread-book =
        with_object-book s pid req _ _ _ (λ st. complete_suspend-book s i st (pos 0))
          λ id. complete_suspend-book _ i success _ ∙ put_object-book k s id _ refl refl
