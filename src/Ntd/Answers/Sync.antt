-- ===== src/Ntd/Answers/Sync.antt =====
-- The answers of the handlers of Event, Mutant, Semaphore and of the waits in ntd.c.
use ntlinux.Common.{
  ℕ, ℤ, ◌+◌, ◌<◌, ◌≡◌, refl, Bool, true, false, List, arith, if◌then◌else◌, if-elim, Option-cases,
  Bool-cases, inl, inr, length, add_i32,
}
use ntlinux.Ntabi.{Request, success, object_name_collision}
use ntlinux.Ntd.State.{Ntd, NtObject, ObjType, event, mutant, semaphore}
use ntlinux.Ntd.Objects.{create_object, find_by_name, same_type}
use ntlinux.Ntd.Sync.{
  answer, create_with, give_handle, handle_create_event, handle_open_typed, set_event,
  handle_set_event, handle_reset_event, handle_create_mutant, release_mutant, handle_release_mutant,
  handle_create_semaphore, release_semaphore, handle_release_semaphore,
}
use ntlinux.Ntd.Answers.Tally.{hit, IsValid, Moves, Keeps, Moves-trans, Moves-cancel}
use ntlinux.Ntd.Answers.Writes.{
  answer-Moves, complete-Moves, put_fields-Keeps, create_object-Keeps, register_handle-Keeps,
  find_by_name-lt, with_object-elim,
}
use ntlinux.Ntd.Answers.Waking.{satisfy_one-Keeps, satisfy_waiters-Keeps, notify_multiwaiters-Keeps}
use ntlinux.Ntd.Answers.Scans.{wake_all-Keeps}

-- A handler answers its slot once: from `s` to `t` the tally of `k` gains one if `i` is `k`.
abbrev pub Answers : ℕ → ℕ → Ntd → Ntd → Type 0
Answers k i s t = Moves k (hit k i) 0 s t

-- Work that keeps the tally, then an answer.
pub then_answers : {k g : ℕ} {s t u : Ntd} → Keeps k s t → Moves k g 0 t u → Moves k g 0 s u
then_answers a b = Moves-cancel (Moves-trans a b) (omega arith)

pub give_handle-Answers :
    {s : Ntd} (k id i pid : ℕ)
    → IsValid s
    → id < s.next_object_id
    → Answers k i s (give_handle id i pid s)
unfolding give_handle
give_handle-Answers k id i pid v lt =
    let a = register_handle-Keeps k pid id v lt in
    then_answers a (complete-Moves k i success _ _ a.valid)

pub next-create_object :
    (type : ObjType) (name : List ℕ) (s : Ntd)
    → (create_object type name s).0 < (create_object type name s).1.next_object_id
unfolding create_object
next-create_object type name s = omega arith

pub create_with-Answers :
    {s : Ntd} (k : ℕ) (type : ObjType) (init : NtObject → NtObject) (req : Request) (i pid : ℕ)
    → ((o : NtObject) → (init o).waiters ≡ o.waiters)
    → IsValid s
    → Answers k i s (create_with type init req i pid s)
unfolding create_with
create_with-Answers {s} k type init req i pid h v =
    let id = (create_object type req.name s).0 in
    let s1 = (create_object type req.name s).1 in
    let a = create_object-Keeps k type req.name v in
    let b = put_fields-Keeps k id (init (s1.object_at id)) (h (s1.object_at id)) a.valid in
    let c = register_handle-Keeps k pid id b.valid (next-create_object type req.name s) in
    then_answers (Moves-trans (Moves-trans a b) c) (complete-Moves k i success _ _ c.valid)

-- The create handlers share their guard.
pub unless_taken :
    {s : Ntd} (k i : ℕ) (b : Bool) {t : Ntd}
    → IsValid s
    → Answers k i s t
    → Answers k i s (if b then answer s i object_name_collision else t)
unless_taken k i true v h = answer-Moves k i _ v
unless_taken k i false v h = h

module _ (k : ℕ) (req : Request) (i pid : ℕ) {s : Ntd} (v : IsValid s) where
  pub create_event-Answers : Answers k i s (handle_create_event req i pid s)
  unfolding handle_create_event
  create_event-Answers =
      unless_taken k i _ v (create_with-Answers k event _ req i pid (λ o. refl) v)

  pub create_mutant-Answers : Answers k i s (handle_create_mutant req i pid s)
  unfolding handle_create_mutant
  create_mutant-Answers =
      unless_taken k i _ v (create_with-Answers k mutant _ req i pid (λ o. ground arith) v)

  pub create_semaphore-Answers : Answers k i s (handle_create_semaphore req i pid s)
  unfolding handle_create_semaphore
  create_semaphore-Answers =
      if-elim (Answers k i s) _ (answer-Moves k i _ v)
        (unless_taken k i _ v (create_with-Answers k semaphore _ req i pid (λ o. refl) v))

  pub open_typed-Answers : (type : ObjType) → Answers k i s (handle_open_typed type req i pid s)
  unfolding handle_open_typed
  open_typed-Answers type = elim (Option-cases (find_by_name s req.name)) [
    | inl e ↦ rw (e, handle_open_typed) (answer-Moves k i _ v)
    | inr (id, e) ↦ elim (Bool-cases (same_type (s.object_at id).type type)) [
      | inl t ↦
          rw (e, handle_open_typed, t)
            (give_handle-Answers k id i pid v (find_by_name-lt req.name v e))
      | inr t ↦ rw (e, handle_open_typed, t) (answer-Moves k i _ v)
    ]
  ]

  set_event-Keeps : (id : ℕ) → id < s.next_object_id → Keeps k s (set_event id s)
  unfolding set_event
  set_event-Keeps id lt =
      let a = put_fields-Keeps k id (record (s.object_at id) { signaled = true }) refl v in
      let b =
        if-elim (Keeps k _) (s.object_at id).manual_reset (wake_all-Keeps k id a.valid lt)
          (satisfy_one-Keeps k id a.valid lt) in
      Moves-trans a (Moves-trans b (notify_multiwaiters-Keeps k id b.valid))

  pub set_event-Answers : Answers k i s (handle_set_event req i pid s)
  unfolding handle_set_event
  set_event-Answers =
      with_object-elim (Answers k i s) pid req event v (λ st. answer-Moves k i st v)
        λ id lt. let a = set_event-Keeps id lt in then_answers a (answer-Moves k i success a.valid)

  pub reset_event-Answers : Answers k i s (handle_reset_event req i pid s)
  unfolding handle_reset_event
  reset_event-Answers =
      with_object-elim (Answers k i s) pid req event v (λ st. answer-Moves k i st v)
        λ id lt.
          let a = put_fields-Keeps k id (record (s.object_at id) { signaled = false }) refl v in
          then_answers a (answer-Moves k i success a.valid)

  release_mutant-Keeps : (id : ℕ) → id < s.next_object_id → Keeps k s (release_mutant id s)
  unfolding release_mutant
  release_mutant-Keeps id lt =
      let a = put_fields-Keeps k id (record (s.object_at id) { owned = false }) refl v in
      let b = satisfy_one-Keeps k id a.valid lt in
      Moves-trans a (Moves-trans b (notify_multiwaiters-Keeps k id b.valid))

  pub release_mutant-Answers : Answers k i s (handle_release_mutant req i pid s)
  unfolding handle_release_mutant
  release_mutant-Answers =
      with_object-elim (Answers k i s) pid req mutant v (λ st. answer-Moves k i st v)
        λ id lt.
          let a = release_mutant-Keeps id lt in
          if-elim (Answers k i s) _ (then_answers a (answer-Moves k i success a.valid))
            (answer-Moves k i _ v)

  release_semaphore-Keeps :
      (id : ℕ) (n : ℤ) → id < s.next_object_id → Keeps k s (release_semaphore id n s)
  unfolding release_semaphore
  release_semaphore-Keeps id n lt =
      let o = s.object_at id in
      let a = put_fields-Keeps k id (record o { count = add_i32 o.count n }) refl v in
      let b = satisfy_waiters-Keeps k (length o.waiters + 1) id a.valid lt in
      Moves-trans a (Moves-trans b (notify_multiwaiters-Keeps k id b.valid))

  pub release_semaphore-Answers : Answers k i s (handle_release_semaphore req i pid s)
  unfolding handle_release_semaphore
  release_semaphore-Answers =
      with_object-elim (Answers k i s) pid req semaphore v (λ st. answer-Moves k i st v)
        λ id lt.
          let a = release_semaphore-Keeps id req.release_count lt in
          if-elim (Answers k i s) _ (answer-Moves k i _ v)
            (then_answers a (complete-Moves k i success _ _ a.valid))
