-- ===== src/Ntd/Answers/Waits.antt =====
-- ntd/ntd.c: the answers of WAIT_SINGLE and WAIT_MULTIPLE.
use ntlinux.Common.{
  ℕ, ℤ, pos, negsuc, ◌+◌, ◌<◌, refl, Option, none, some, false, List, [], ◌∷◌, arith, All,
  All-lt_mono, if-elim, update-elim, Option-cases, inl, inr, take, pos_part,
}
use ntlinux.Common.Sums.{sum_below-extend}
use ntlinux.Ntabi.{Request, Apc, success, timeout, user_apc, invalid_handle}
use ntlinux.Ntd.State.{Ntd, Multiwait, Env, thread, section, put_object, put_multiwait, slot_at}
use ntlinux.Ntd.Complete.{complete_apc, complete_wait_multiple}
use ntlinux.Ntd.Handles.{find_handle}
use ntlinux.Ntd.Objects.{create_object, find_thread_object, find_or_create_thread_object, same_type}
use ntlinux.Ntd.Waiters.{consume_object}
use ntlinux.Ntd.Multiwaits.{first_available}
use ntlinux.Ntd.Waits.{
  wait_on_handle, handle_wait_single, resolve_handles, add_waiters, register_multiwait, wait_later,
  wait_on_objects, handle_wait_multiple,
}
use ntlinux.Ntd.Answers.Tally.{
  tally, hit, wait_of, IsValid, IsDone, Moves, Keeps, Keeps-refl, Moves-trans, Moves-cancel,
  post-Moves,
}
use ntlinux.Ntd.Answers.Writes.{
  answer-Moves, complete_wait_multiple-Moves, put_fields-Keeps, consume_object-Keeps,
  create_object-Keeps, find_handle-lt, find_thread_object-lt,
}
use ntlinux.Ntd.Answers.Registering.{add_waiter-Moves, consume_all-Keeps}
use ntlinux.Ntd.Answers.Scans.{IsRegistered-mono}
use ntlinux.Ntd.Answers.Sync.{Answers, then_answers, next-create_object}

-- The thread object that is found or made is an allocated one, and nothing is answered.
pub record Finds (k : ℕ) (s : Ntd) (r : ℕ × Ntd) : Type 0 where
  pub keeps : Keeps k s r.1
  pub found : r.0 < r.1.next_object_id

pub find_or_create_Finds :
    {s : Ntd} (k pid tid : ℕ) → IsValid s → Finds k s (find_or_create_thread_object pid tid s)
unfolding find_or_create_thread_object
find_or_create_Finds {s} k pid tid v = elim (Option-cases (find_thread_object s pid tid)) [
  | inl e ↦
      let a = create_object-Keeps k thread [] v in
      let b = put_fields-Keeps k (create_object thread [] s).0 _ refl a.valid in
      rw (e, find_or_create_thread_object)
        (record { keeps = Moves-trans a b; found = next-create_object thread [] s })
  | inr (id, e) ↦
      rw (e, find_or_create_thread_object)
        (record { keeps = Keeps-refl k v; found = find_thread_object-lt pid tid v e })
]

-- The objects that handles resolve to are allocated.
abbrev Resolved : ℕ → Option (List ℕ) → Type 0
Resolved n none = Unit {0}
Resolved n (some ids) = All (λ id. id < n) ids

complete_apc-Moves :
    {s : Ntd} (k i : ℕ) (a : Apc) → IsValid s → Moves k (hit k i) 0 s (complete_apc s i user_apc a)
unfolding complete_apc
complete_apc-Moves k i a v = post-Moves k i _ v

module _ (env : Env) (k : ℕ) (req : Request) (i pid : ℕ) where
  wait_on_handle-Answers : {s : Ntd} → IsValid s → Answers k i s (wait_on_handle env req i pid s)
  unfolding wait_on_handle
  wait_on_handle-Answers {s} v = elim (Option-cases (find_handle pid req.handle s.handles)) [
    | inl e ↦ rw (e, wait_on_handle) (answer-Moves k i _ v)
    | inr (id, e) ↦
        let lt = find_handle-lt pid s.next_object_id req.handle s.handles v.handles_lt e in
        let a = consume_object-Keeps k id pid v in
        rw (e, wait_on_handle)
          (if-elim (Answers k i s) _ (answer-Moves k i _ v) (
            if-elim (Answers k i s) _ (then_answers a (answer-Moves k i success a.valid)) (
              if-elim (Answers k i s) _ (answer-Moves k i timeout v)
                (add_waiter-Moves env k id i none req.timeout_ms v lt tt))))
  ]

  pub wait_single-Answers :
      {s : Ntd} → IsValid s → Answers k i s (handle_wait_single env req i pid s)
  unfolding handle_wait_single
  wait_single-Answers {s} v =
      if-elim (Answers k i s) req.alertable (alerted (s1.object_at self).apcs)
        (wait_on_handle-Answers v)
    where
      tid : ℕ
      tid = (slot_at s i).client_tid

      self : ℕ
      self = (find_or_create_thread_object pid tid s).0

      s1 : Ntd
      s1 = (find_or_create_thread_object pid tid s).1

      f : Finds k s (find_or_create_thread_object pid tid s)
      f = find_or_create_Finds k pid tid v

      alerted :
          (apcs : List Apc)
          → Answers k i s (elim apcs [
            | [] ↦ wait_on_handle env req i pid s1
            | a ∷ rest ↦
                complete_apc
                  (put_object s1 self (record (s1.object_at self) { apcs = rest }))
                  i
                  user_apc
                  a
          ])
      alerted [] = then_answers f.keeps (wait_on_handle-Answers f.keeps.valid)
      alerted (a ∷ rest) =
          let b =
            put_fields-Keeps k self (record (s1.object_at self) { apcs = rest }) refl
              f.keeps.valid in
          then_answers (Moves-trans f.keeps b) (complete_apc-Moves k i a b.valid)

  resolve_handles-Resolved :
      (hs : List ℤ) {s : Ntd} → IsValid s → Resolved s.next_object_id (resolve_handles pid hs s)
  unfolding resolve_handles
  resolve_handles-Resolved [] v = tt
  resolve_handles-Resolved (h ∷ hs) {s} v = elim (Option-cases (find_handle pid h s.handles)) [
    | inl e ↦ rw (e, resolve_handles) tt
    | inr (id, e) ↦
        rw (e, resolve_handles)
          (if-elim (Resolved s.next_object_id) (same_type (s.object_at id).type section) {x = none}
            tt
            (go id (find_handle-lt pid s.next_object_id h s.handles v.handles_lt e)
              (resolve_handles pid hs s) (resolve_handles-Resolved hs v)))
  ]
    where
      go :
          (id : ℕ)
          → id < s.next_object_id
          → (r : Option (List ℕ)) → Resolved s.next_object_id r
          → Resolved s.next_object_id (elim r [ none ↦ none | some ids ↦ some (id ∷ ids) ])
      go id lt none h' = tt
      go id lt (some ids) h' = (lt, h')

  add_waiters-Keeps :
      (ids : List ℕ) (m : ℕ) (t : ℤ) {s : Ntd}
      → IsValid s
      → All (λ id. id < s.next_object_id) ids
      → m < s.next_multiwait
      → Keeps k s (add_waiters env ids i m t s)
  unfolding add_waiters
  add_waiters-Keeps [] m t v h lt = Keeps-refl k v
  add_waiters-Keeps (id ∷ ids) m t v h lt =
      let a = add_waiter-Moves env k id i (some m) t v h.0 lt in
      Moves-trans a (
        add_waiters-Keeps ids m t a.valid (All-lt_mono ids a.more_objects h.1)
          (omega (arith, a.more_waits)))

  new_multiwait-Moves :
      {s : Ntd} (mw : Multiwait)
      → IsValid s
      → IsDone mw
      → Moves k
          (wait_of k mw)
          0
          s
          (record (put_multiwait s s.next_multiwait mw) { next_multiwait = s.next_multiwait + 1 })
  unfolding tally
  new_multiwait-Moves {s} mw v d = record {
    valid = record {
      handles_lt = v.handles_lt;
      objects_lt = v.objects_lt;
      waiters_lt = λ id. IsRegistered-mono (s.object_at id).waiters (omega arith) (v.waiters_lt id);
      freed_done = update-elim IsDone s.multiwait_at s.next_multiwait mw d v.freed_done;
    };
    more_objects = omega arith;
    more_waits = omega arith;
    balance = omega (arith, sum_below-extend (wait_of k) s.next_multiwait s.multiwait_at mw);
  }

  wait_later-Answers :
      {s : Ntd} (ids : List ℕ)
      → IsValid s
      → All (λ id. id < s.next_object_id) ids
      → Answers k i s (wait_later env req ids i s)
  unfolding wait_later register_multiwait
  wait_later-Answers {s} ids v h =
      let mw : Multiwait = record {
        slot_idx = i;
        wait_all = req.wait_all;
        handles = take (pos_part req.handle_count) req.handles;
        objects = ids;
        completed = false;
        freed = false;
      } in
      let a = new_multiwait-Moves mw v refl in
      if-elim (Answers k i s) _ (complete_wait_multiple-Moves k i timeout (negsuc 0) v) (
        Moves-cancel
          (Moves-trans a
            (add_waiters-Keeps ids s.next_multiwait req.timeout_ms a.valid h (omega arith)))
          (omega arith))

  wait_on_objects-Answers :
      {s : Ntd} (ids : List ℕ)
      → IsValid s
      → All (λ id. id < s.next_object_id) ids
      → Answers k i s (wait_on_objects env req ids i pid s)
  unfolding wait_on_objects
  wait_on_objects-Answers {s} ids v h =
      let a = consume_all-Keeps k pid ids v in
      if-elim (Answers k i s) req.wait_all
        (if-elim (Answers k i s) _
          (then_answers a (complete_wait_multiple-Moves k i success (negsuc 0) a.valid))
          (wait_later-Answers ids v h))
        (wait_any (first_available s.object_at ids 0))
    where
      wait_any :
          (r : Option (ℕ × ℕ))
          → Answers k i s (elim r [
            | none ↦ wait_later env req ids i s
            | some (n, id) ↦ complete_wait_multiple (consume_object id pid s) i success (pos n)
          ])
      wait_any none = wait_later-Answers ids v h
      wait_any (some (n, id)) =
          let a = consume_object-Keeps k id pid v in
          then_answers a (complete_wait_multiple-Moves k i success (pos n) a.valid)

  pub wait_multiple-Answers :
      {s : Ntd} → IsValid s → Answers k i s (handle_wait_multiple env req i pid s)
  unfolding handle_wait_multiple
  wait_multiple-Answers {s} v =
      if-elim (Answers k i s) _ (complete_wait_multiple-Moves k i _ (negsuc 0) v)
        (go (resolve_handles pid hs s) (resolve_handles-Resolved hs v))
    where
      hs : List ℤ
      hs = take (pos_part req.handle_count) req.handles

      go :
          (r : Option (List ℕ))
          → Resolved s.next_object_id r
          → Answers k i s (elim r [
            | none ↦ complete_wait_multiple s i invalid_handle (negsuc 0)
            | some ids ↦ wait_on_objects env req ids i pid s
          ])
      go none h = complete_wait_multiple-Moves k i invalid_handle (negsuc 0) v
      go (some ids) h = wait_on_objects-Answers ids v h
