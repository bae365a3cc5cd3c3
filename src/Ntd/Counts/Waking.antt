-- ===== src/Ntd/Counts/Waking.antt =====
-- ntd/ntd.c: answering, waking and registering waits change no link, handle or reference count.
use ntlinux.Common.{
  ℕ, zero, suc, ℤ, pos, negsuc, ◌≡◌, refl, ◌∙◌, List, [], ◌∷◌, Option, arith, Bool-cases,
  Option-cases, inl, inr, take,
}
use ntlinux.Ntabi.{Status, success, max_slots}
use ntlinux.Ntd.State.{
  Ntd, NtObject, Waiter, Multiwait, Env, ObjType, event, mutant, semaphore, section, completion,
  process, thread,
}
use ntlinux.Ntd.Complete.{complete, complete_wait_multiple}
use ntlinux.Ntd.Waiters.{
  is_single, add_waiter, remove_waiter_for_multiwait, consume, consume_object, type_consume,
  object_available,
}
use ntlinux.Ntd.Multiwaits.{
  consume_all, remove_all_for, free_multiwait, set_completed, finish_multiwait,
  try_satisfy_multiwait, try_all, notify_multiwaiters, wake_with, satisfy_one_waiter,
  satisfy_waiters, wake_scan, wake_all_waiters_success, all_available, first_available, take_single,
  multiwaits_of,
}
use ntlinux.Ntd.Sync.{answer}
use ntlinux.Ntd.Counts.{book, put_object-book, post-book, put_multiwait-book}

module _ (k : ℕ) where
  pub complete-book :
      (s : Ntd) (i : ℕ) (st : Status) (h : ℕ) (p : ℤ) → book k (complete s i st h p) ≡ book k s
  unfolding complete
  complete-book s i st h p = post-book k s i _

  pub answer-book : (s : Ntd) (i : ℕ) (st : Status) → book k (answer s i st) ≡ book k s
  unfolding answer
  answer-book s i st = complete-book s i st 0 (pos 0)

  pub complete_wait_multiple-book :
      (s : Ntd) (i : ℕ) (st : Status) (n : ℤ) → book k (complete_wait_multiple s i st n) ≡ book k s
  unfolding complete_wait_multiple
  complete_wait_multiple-book s i st n = post-book k s i _

  pub add_waiter-book :
      (env : Env) (id i : ℕ) (mw : Option ℕ) (t : ℤ) (s : Ntd)
      → book k (add_waiter env id i mw t s) ≡ book k s
  unfolding add_waiter book
  add_waiter-book env id i mw (pos n) s = ground arith
  add_waiter-book env id i mw (negsuc n) s = ground arith

  pub remove_waiter-book :
      (id m : ℕ) (s : Ntd) → book k (remove_waiter_for_multiwait id m s) ≡ book k s
  unfolding remove_waiter_for_multiwait
  remove_waiter-book id m s = put_object-book k s id _ refl refl

  remove_all_for-book :
      (m : ℕ) (ids : List ℕ) (s : Ntd) → book k (remove_all_for m ids s) ≡ book k s
  unfolding remove_all_for
  remove_all_for-book m [] s = refl
  remove_all_for-book m (id ∷ ids) s = remove_all_for-book m ids _ ∙ remove_waiter-book id m s

  pub free_multiwait-book : (m : ℕ) (s : Ntd) → book k (free_multiwait m s) ≡ book k s
  unfolding free_multiwait
  free_multiwait-book m s = put_multiwait-book k s m _

  pub set_completed-book : (m : ℕ) (s : Ntd) → book k (set_completed m s) ≡ book k s
  unfolding set_completed
  set_completed-book m s = put_multiwait-book k s m _

  consumed_kind :
      (t : ObjType) (o : NtObject) (pid : ℕ)
      → ((type_consume t o pid).refcount ≡ o.refcount) × ((type_consume t o pid).type ≡ o.type)
  consumed_kind event o pid = ground arith
  consumed_kind mutant o pid = (refl, refl)
  consumed_kind semaphore o pid = (refl, refl)
  consumed_kind section o pid = (refl, refl)
  consumed_kind completion o pid = (refl, refl)
  consumed_kind process o pid = (refl, refl)
  consumed_kind thread o pid = (refl, refl)

  pub consume_object-book : (id pid : ℕ) (s : Ntd) → book k (consume_object id pid s) ≡ book k s
  unfolding consume_object consume
  consume_object-book id pid s =
      let (e, f) = consumed_kind (s.object_at id).type (s.object_at id) pid in
      put_object-book k s id _ e f

  pub consume_all-book :
      (ids : List ℕ) (pid : ℕ) (s : Ntd) → book k (consume_all ids pid s) ≡ book k s
  unfolding consume_all
  consume_all-book [] pid s = refl
  consume_all-book (id ∷ ids) pid s = consume_all-book ids pid _ ∙ consume_object-book id pid s

  finish_multiwait-book : (m : ℕ) (n : ℤ) (s : Ntd) → book k (finish_multiwait m n s) ≡ book k s
  unfolding finish_multiwait
  finish_multiwait-book m n s =
      free_multiwait-book m _
      ∙ remove_all_for-book m (s.multiwait_at m).objects _
      ∙ complete_wait_multiple-book _ _ success n
      ∙ set_completed-book m s

  try_satisfy-book : (m : ℕ) (s : Ntd) → book k (try_satisfy_multiwait m s) ≡ book k s
  unfolding try_satisfy_multiwait
  try_satisfy-book m s = elim (Bool-cases mw.completed) [
    | inl done ↦ rw done refl
    | inr fresh ↦ elim (Bool-cases mw.wait_all) [
      | inl all ↦ elim (Bool-cases (all_available s.object_at mw.objects)) [
        | inl e ↦ rw (fresh, all, e) (finish_multiwait-book m _ _ ∙ consume_all-book mw.objects _ s)
        | inr e ↦ rw (fresh, all, e) refl
      ]
      | inr any ↦ elim (Option-cases (first_available s.object_at mw.objects 0)) [
        | inl e ↦ rw (fresh, any, e) refl
        | inr ((n, id), e) ↦
            rw (fresh, any, e) (finish_multiwait-book m _ _ ∙ consume_object-book id _ s)
      ]
    ]
  ]
    where
      mw : Multiwait
      mw = s.multiwait_at m

  try_all-book : (ms : List ℕ) (s : Ntd) → book k (try_all ms s) ≡ book k s
  unfolding try_all
  try_all-book [] s = refl
  try_all-book (m ∷ ms) s = try_all-book ms _ ∙ try_satisfy-book m s

  pub notify-book : (id : ℕ) (s : Ntd) → book k (notify_multiwaiters id s) ≡ book k s
  unfolding notify_multiwaiters
  notify-book id s = try_all-book (take max_slots (multiwaits_of (s.object_at id).waiters)) s

  wake_with-book :
      (id : ℕ) (w : Waiter) (rest : List Waiter) (s : Ntd)
      → book k (wake_with id w rest s) ≡ book k s
  unfolding wake_with
  wake_with-book id w rest s =
      complete-book _ w.slot_idx success 0 (pos 0)
      ∙ consume_object-book id _ _
      ∙ put_object-book k s id _ refl refl

  pub satisfy_one-book : (id : ℕ) (s : Ntd) → book k (satisfy_one_waiter id s).1 ≡ book k s
  unfolding satisfy_one_waiter
  satisfy_one-book id s = elim (Bool-cases (object_available (s.object_at id))) [
    | inl e ↦ elim (Option-cases (take_single (s.object_at id).waiters)) [
      | inl n ↦ rw (e, n) refl
      | inr ((w, rest), n) ↦ rw (e, n) (wake_with-book id w rest s)
    ]
    | inr e ↦ rw e refl
  ]

  pub satisfy_waiters-book : (fuel id : ℕ) (s : Ntd) → book k (satisfy_waiters fuel id s) ≡ book k s
  unfolding satisfy_waiters
  satisfy_waiters-book zero id s = refl
  satisfy_waiters-book (suc fuel) id s = elim (Bool-cases (satisfy_one_waiter id s).0) [
    | inl e ↦ rw (satisfy_waiters, e) (satisfy_waiters-book fuel id _ ∙ satisfy_one-book id s)
    | inr e ↦ rw (satisfy_waiters, e) (satisfy_one-book id s)
  ]

  wake_scan-book : (ws : List Waiter) (s : Ntd) → book k (wake_scan ws s).1 ≡ book k s
  unfolding wake_scan
  wake_scan-book [] s = refl
  wake_scan-book (w ∷ ws) s = elim (Bool-cases (is_single w.multiwait)) [
    | inl e ↦ rw e (wake_scan-book ws _ ∙ complete-book s w.slot_idx success 0 (pos 0))
    | inr e ↦ rw e (wake_scan-book ws s)
  ]

  pub wake_all-book : (id : ℕ) (s : Ntd) → book k (wake_all_waiters_success id s) ≡ book k s
  unfolding wake_all_waiters_success
  wake_all-book id s =
      let ws = (s.object_at id).waiters in
      put_object-book k (wake_scan ws s).1 id _ refl refl ∙ wake_scan-book ws s
