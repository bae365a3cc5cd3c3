-- ===== src/Ntd/Counts/Tasks.antt =====
-- ntd/ntd.c: the handlers that open processes and threads, and the alertable wait, keep the reference
-- counts true.
use ntlinux.Common.{
  ℕ, ◌≤◌, ◌≡◌, refl, ◌∙◌, none, some, Bool, true, false, arith, Bool-cases, Option-cases,
  List-cases, inl, inr, ◌&&◌, ◌==◌, if◌then◌else◌,
}
use ntlinux.Ntabi.{Request, process_not_found, thread_not_found, user_apc}
use ntlinux.Ntd.State.{Ntd, NtObject, Env, process, thread, slot_at}
use ntlinux.Ntd.Objects.{
  same_type, find_object, find_thread_object, find_or_create_thread_object, create_object,
}
use ntlinux.Ntd.Waits.{handle_wait_single}
use ntlinux.Ntd.Tasks.{new_process, handle_open_process, handle_open_thread}
use ntlinux.Ntd.Counts.{book, links, linked, Book, Rules, put_object-book}
use ntlinux.Ntd.Counts.Keeping.{complete_apc-book}
use ntlinux.Ntd.Counts.Waits.{wait_on_handle-book}
use ntlinux.Ntd.Counts.Handlers.{
  find_object-links, Holds, answer-keeps, give_handle-keeps, give_new-keeps,
}

module _ (k : ℕ) (P : Book → Type 0) (rules : Rules k P) where
  new_process-book :
      (env : Env) (target fd : ℕ) (s : Ntd)
      → book k (new_process env target fd s).1 ≡ linked k process (book k s)
  unfolding new_process book linked create_object
  new_process-book env target fd s = ground arith

  pub open_process-keeps :
      (env : Env) (req : Request) (i pid : ℕ) (s : Ntd)
      → Holds k P s
      → Holds k P (handle_open_process env req i pid s)
  unfolding handle_open_process new_process create_object
  open_process-keeps env req i pid s v =
      elim (Option-cases (find_object is_it s.object_at s.objects)) [
        | inr (id, n) ↦
            rw (handle_open_process, n)
              (give_handle-keeps k P rules id i pid s v
                (find_object-links is_it s.object_at s.objects id n))
        | inl n ↦ elim (Option-cases (env.pidfd_open req.target_pid)) [
          | inl f ↦ rw (handle_open_process, n, f) (answer-keeps k P rules i process_not_found s v)
          | inr (fd, f) ↦
              rw (handle_open_process, n, f)
                (give_new-keeps k P rules i pid process s _ v
                  (new_process-book env req.target_pid fd s))
        ]
      ]
    where
      is_it : NtObject → Bool
      is_it o = same_type o.type process && o.target_pid == req.target_pid

  find_thread-links :
      (s : Ntd) (pid tid id : ℕ) → find_thread_object s pid tid ≡ some id → 1 ≤ links id s.objects
  unfolding find_thread_object
  find_thread-links s pid tid id e = find_object-links _ s.object_at s.objects id e

  new_thread-book :
      (pid tid : ℕ) (s : Ntd)
      → find_thread_object s pid tid ≡ none
      → book k (find_or_create_thread_object pid tid s).1 ≡ linked k thread (book k s)
  unfolding find_or_create_thread_object create_object book linked
  new_thread-book pid tid s n = rw (find_or_create_thread_object, n) (ground arith)

  new_thread_id :
      (s : Ntd) (pid tid : ℕ)
      → find_thread_object s pid tid ≡ none
      → (find_or_create_thread_object pid tid s).0 ≡ s.next_object_id
  unfolding find_or_create_thread_object create_object
  new_thread_id s pid tid n = rw (find_or_create_thread_object, n) refl

  find_or_create_thread-keeps :
      (pid tid : ℕ) (s : Ntd) → Holds k P s → Holds k P (find_or_create_thread_object pid tid s).1
  unfolding find_or_create_thread_object
  find_or_create_thread-keeps pid tid s v = elim (Option-cases (find_thread_object s pid tid)) [
    | inl n ↦ rw (new_thread-book pid tid s n) (rules.thread_made _ v)
    | inr (id, n) ↦ rw (find_or_create_thread_object, n) v
  ]

  pub open_thread-keeps :
      (env : Env) (req : Request) (i pid : ℕ) (s : Ntd)
      → Holds k P s
      → Holds k P (handle_open_thread env req i pid s)
  unfolding handle_open_thread
  open_thread-keeps env req i pid s v =
      elim (Option-cases (find_thread_object s req.target_pid req.target_tid)) [
        | inr (id, n) ↦
            rw (handle_open_thread, n)
              (give_handle-keeps k P rules id i pid s v (find_thread-links s _ _ id n))
        | inl n ↦ elim (Bool-cases (env.task_exists req.target_pid req.target_tid)) [
          | inl t ↦
              rw (handle_open_thread, n, t, new_thread_id s req.target_pid req.target_tid n)
                (give_new-keeps k P rules i pid thread s _ v
                  (new_thread-book req.target_pid req.target_tid s n))
          | inr t ↦ rw (handle_open_thread, n, t) (answer-keeps k P rules i thread_not_found s v)
        ]
      ]

  pub kept-keeps : (s t : Ntd) → book k t ≡ book k s → Holds k P s → Holds k P t
  kept-keeps s t e v = rw e v

  if-keeps : (b : Bool) (s t : Ntd) → Holds k P s → Holds k P t → Holds k P (if b then s else t)
  if-keeps true s t v w = v
  if-keeps false s t v w = w

  pub wait_single-keeps :
      (env : Env) (req : Request) (i pid : ℕ) (s : Ntd)
      → Holds k P s
      → Holds k P (handle_wait_single env req i pid s)
  unfolding handle_wait_single
  wait_single-keeps env req i pid s v =
      if-keeps req.alertable _ _
        (elim (List-cases (s1.object_at self).apcs) [
          | inl n ↦ rw n (rw (wait_on_handle-book k env req i pid s1) w)
          | inr (x, rest, n) ↦ rw n (
              kept-keeps s1 _
                (complete_apc-book k _ i user_apc x ∙ put_object-book k s1 self _ refl refl) w)
        ])
        (rw (wait_on_handle-book k env req i pid s) v)
    where
      self : ℕ
      self = (find_or_create_thread_object pid (slot_at s i).client_tid s).0

      s1 : Ntd
      s1 = (find_or_create_thread_object pid (slot_at s i).client_tid s).1

      w : Holds k P s1
      w = find_or_create_thread-keeps pid (slot_at s i).client_tid s v
