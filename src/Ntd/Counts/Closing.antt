-- ===== src/Ntd/Counts/Closing.antt =====
-- ntd/ntd.c: closing a handle gives one reference back, and the last one takes the object off the
-- list; expired waiters take nothing.
use ntlinux.Common.{
  ℕ, negsuc, ◌+◌, ◌-◌, ◌≡◌, refl, ap, ◌∙◌, if◌then◌else◌, List, [], ◌∷◌, Option, none, some, ◌==◌,
  ==_iff, arith, Bool-cases, Option-cases, inl, inr, ℤ,
}
use ntlinux.Ntabi.{timeout, invalid_handle, Request}
use ntlinux.Ntd.State.{Ntd, Waiter, Env, Timespec, HandleEntry, put_object}
use ntlinux.Ntd.Handles.{remove_handle_entry, is_entry}
use ntlinux.Ntd.Objects.{free_object}
use ntlinux.Ntd.Close.{
  time_out_multiwait, remove_from_others, fail_waiter, fail_waiters, drop_object, release_reference,
  handle_close_handle, is_expired, read_clock, expire_waiter, expire_scan, expire_object,
  expire_objects, expire_timeouts,
}
use ntlinux.Ntd.Answers.Tally.{hit}
use ntlinux.Ntd.Counts.{Book, book, put_object-book, references, Rules, unlinked, less_one}
use ntlinux.Ntd.Counts.Waking.{
  answer-book, complete_wait_multiple-book, set_completed-book, free_multiwait-book,
  remove_waiter-book,
}

module _ (k : ℕ) where
  time_out-book : (m : ℕ) (s : Ntd) → book k (time_out_multiwait m s) ≡ book k s
  unfolding time_out_multiwait
  time_out-book m s = elim (Bool-cases (s.multiwait_at m).completed) [
    | inl e ↦ rw e refl
    | inr e ↦ rw e (complete_wait_multiple-book k _ _ timeout (negsuc 0) ∙ set_completed-book k m s)
  ]

  remove_from_others-book :
      (id m : ℕ) (ids : List ℕ) (s : Ntd) → book k (remove_from_others id m ids s) ≡ book k s
  unfolding remove_from_others
  remove_from_others-book id m [] s = refl
  remove_from_others-book id m (j ∷ js) s = elim (Bool-cases (j == id)) [
    | inl e ↦ rw e (remove_from_others-book id m js s)
    | inr e ↦ rw e (remove_from_others-book id m js _ ∙ remove_waiter-book k j m s)
  ]

  fail_waiter-book : (id : ℕ) (w : Waiter) (s : Ntd) → book k (fail_waiter id w s) ≡ book k s
  unfolding fail_waiter
  fail_waiter-book id w s = elim (Option-cases w.multiwait) [
    | inl e ↦ rw e (answer-book k s w.slot_idx timeout)
    | inr (m, e) ↦ rw e (
        free_multiwait-book k m _
        ∙ remove_from_others-book id m (s.multiwait_at m).objects _
        ∙ time_out-book m s)
  ]

  fail_waiters-book :
      (id : ℕ) (ws : List Waiter) (s : Ntd) → book k (fail_waiters id ws s) ≡ book k s
  unfolding fail_waiters
  fail_waiters-book id [] s = refl
  fail_waiters-book id (w ∷ ws) s = fail_waiters-book id ws _ ∙ fail_waiter-book id w s

  expire_waiter-book : (w : Waiter) (s : Ntd) → book k (expire_waiter w s) ≡ book k s
  unfolding expire_waiter
  expire_waiter-book w s = elim (Option-cases w.multiwait) [
    | inl e ↦ rw e (answer-book k s w.slot_idx timeout)
    | inr (m, e) ↦ rw e (time_out-book m s)
  ]

  read_clock-book : (d : Option Timespec) (s : Ntd) → book k (read_clock d s) ≡ book k s
  unfolding book
  read_clock-book none s = refl
  read_clock-book (some d) s = refl

  expire_scan-book :
      (env : Env) (ws : List Waiter) (s : Ntd) → book k (expire_scan env ws s).1 ≡ book k s
  unfolding expire_scan
  expire_scan-book env [] s = refl
  expire_scan-book env (w ∷ ws) s = elim (Bool-cases (is_expired env s w.deadline)) [
    | inl e ↦
        rw e (expire_scan-book env ws _ ∙ expire_waiter-book w _ ∙ read_clock-book w.deadline s)
    | inr e ↦ rw e (expire_scan-book env ws _ ∙ read_clock-book w.deadline s)
  ]

  expire_object-book : (env : Env) (id : ℕ) (s : Ntd) → book k (expire_object env id s) ≡ book k s
  unfolding expire_object
  expire_object-book env id s =
      let ws = (s.object_at id).waiters in
      put_object-book k (expire_scan env ws s).1 id _ refl refl ∙ expire_scan-book env ws s

  expire_objects-book :
      (env : Env) (ids : List ℕ) (s : Ntd) → book k (expire_objects env ids s) ≡ book k s
  unfolding expire_objects
  expire_objects-book env [] s = refl
  expire_objects-book env (id ∷ ids) s = expire_objects-book env ids _ ∙ expire_object-book env id s

  pub expire_timeouts-book : (env : Env) (s : Ntd) → book k (expire_timeouts env s) ≡ book k s
  unfolding expire_timeouts
  expire_timeouts-book env s = expire_objects-book env s.objects s

pub free_object-book : (k id : ℕ) (s : Ntd) → book k (free_object id s) ≡ unlinked id (book k s)
unfolding book free_object unlinked
free_object-book k id s = refl

drop_object-book : (k id : ℕ) (s : Ntd) → book k (drop_object id s) ≡ unlinked id (book k s)
unfolding drop_object
drop_object-book k id s =
    let ws = (s.object_at id).waiters in
    free_object-book k id _
    ∙ ap (unlinked id)
        (put_object-book k (fail_waiters id ws s) id _ refl refl ∙ fail_waiters-book k id ws s)

give_back : ℕ → List HandleEntry → Ntd → Ntd
give_back id rest s =
    put_object (record s { handles = rest }) id
      (record (s.object_at id) { refcount = (s.object_at id).refcount - 1 })

give_back-book :
    (k id : ℕ) (rest : List HandleEntry) (s : Ntd)
    → book k (give_back id rest s) ≡ less_one k id rest (book k s)
unfolding book less_one give_back
give_back-book k id rest s = ground arith

release_reference-book :
    (k id : ℕ) (rest : List HandleEntry) (s : Ntd)
    → book k (release_reference id (record s { handles = rest })) ≡ (
        let b = less_one k id rest (book k s) in
        if (s.object_at id).refcount - 1 == 0 then unlinked id b else b)
unfolding release_reference give_back
release_reference-book k id rest s = elim (Bool-cases ((s.object_at id).refcount - 1 == 0)) [
  | inl e ↦ rw e (drop_object-book k id _ ∙ ap (unlinked id) (give_back-book k id rest s))
  | inr e ↦ rw e (give_back-book k id rest s)
]

references-remove :
    (k pid : ℕ) (h : ℤ) (hs : List HandleEntry) (id : ℕ)
    → (remove_handle_entry pid h hs).0 ≡ some id
    → references k hs ≡ hit k id + references k (remove_handle_entry pid h hs).1
unfolding references remove_handle_entry
references-remove k pid h [] id e = cc
references-remove k pid h (x ∷ hs) id e = elim (Bool-cases (is_entry pid h x)) [
  | inl t ↦ ground (arith, t)
  | inr t ↦ ground (arith, t, references-remove k pid h hs id)
]

module _ (k : ℕ) (P : Book → Type 0) (rules : Rules k P) where
  -- A reference given back, with the entry that held it.
  release-keeps :
      (id : ℕ) (rest : List HandleEntry) (s : Ntd)
      → P (book k s)
      → references k s.handles ≡ hit k id + references k rest
      → P (book k (release_reference id (record s { handles = rest })))
  unfolding book
  release-keeps id rest s v e =
      rw (release_reference-book k id rest s) elim (Bool-cases (id == k)) [
        | inl h ↦
            rules.closed (book k s) id _ rest e
              (inr (ap (λ j. (s.object_at j).refcount) ((==_iff id k).0 h))) v
        | inr h ↦ rules.closed (book k s) id _ rest e (inl h) v
      ]

  pub close_handle-keeps :
      (req : Request) (i pid : ℕ) (s : Ntd)
      → P (book k s)
      → P (book k (handle_close_handle req i pid s))
  unfolding handle_close_handle
  close_handle-keeps req i pid s v =
      elim (Option-cases (remove_handle_entry pid req.handle s.handles).0) [
        | inl n ↦ rw (handle_close_handle, n) (rw (answer-book k s i invalid_handle) v)
        | inr (id, n) ↦
            rw (handle_close_handle, n, answer-book)
              (release-keeps id _ s v (references-remove k pid req.handle s.handles id n))
      ]
