-- ===== src/Ntd/Answers/Close.antt =====
-- ntd/ntd.c: the answers of CLOSE_HANDLE, those to waits on an object that goes away among them.
use ntlinux.Common.{
  ℕ, ℤ, ◌+◌, ◌-◌, ◌<◌, ◌≡◌, refl, ap, ◌∙◌, Option, none, some, ◌&&◌, ◌==◌, List, [], ◌∷◌, arith,
  All, if-elim, Bool-cases, inl, inr,
}
use ntlinux.Ntabi.{Request, success, timeout, invalid_handle}
use ntlinux.Ntd.State.{Ntd, Waiter, HandleEntry, put_waiters}
use ntlinux.Ntd.Handles.{remove_handle_entry, is_entry}
use ntlinux.Ntd.Objects.{free_object, unlink}
use ntlinux.Ntd.Waiters.{is_single, remove_waiter_for_multiwait}
use ntlinux.Ntd.Multiwaits.{free_multiwait}
use ntlinux.Ntd.Sync.{answer}
use ntlinux.Ntd.Complete.{complete}
use ntlinux.Ntd.Close.{
  time_out_multiwait, remove_from_others, fail_waiter, fail_waiters, drop_object, release_reference,
  handle_close_handle,
}
use ntlinux.Ntd.Answers.Tally.{
  tally, one_if, waits_in, waits_at, Below, IsRegistered, IsValid, Moves, Keeps, Keeps-refl,
  Moves-trans, Moves-cancel, put_object-Moves,
}
use ntlinux.Ntd.Answers.Writes.{answer-Moves, put_fields-Keeps}
use ntlinux.Ntd.Answers.Registering.{remove_waiter-Keeps, free_multiwait-Keeps}
use ntlinux.Ntd.Answers.Scans.{
  time_out-completed, time_out-Keeps, object_at-time_out, IsRegistered-mono,
}
use ntlinux.Ntd.Answers.Sync.{Answers, then_answers}

remove_from_others-Keeps :
    (k id m : ℕ) (ids : List ℕ) {s : Ntd} → IsValid s → Keeps k s (remove_from_others id m ids s)
unfolding remove_from_others
remove_from_others-Keeps k id m [] v = Keeps-refl k v
remove_from_others-Keeps k id m (j ∷ ids) v =
    let a = if-elim (Keeps k _) (j == id) (Keeps-refl k v) (remove_waiter-Keeps k j m v) in
    Moves-trans a (remove_from_others-Keeps k id m ids a.valid)

-- The object that goes away keeps its list while the others are cleaned.
object_at-remove_from_others :
    (id m : ℕ) (ids : List ℕ) (s : Ntd)
    → (remove_from_others id m ids s).object_at id ≡ s.object_at id
unfolding remove_from_others remove_waiter_for_multiwait
object_at-remove_from_others id m [] s = refl
object_at-remove_from_others id m (j ∷ ids) s =
    object_at-remove_from_others id m ids _
    ∙ elim (Bool-cases (j == id)) [ inl e ↦ rw e refl | inr e ↦ rw e (rw e refl) ]

multiwait_at-remove_from_others :
    (id m : ℕ) (ids : List ℕ) (s : Ntd)
    → (remove_from_others id m ids s).multiwait_at ≡ s.multiwait_at
unfolding remove_from_others remove_waiter_for_multiwait
multiwait_at-remove_from_others id m [] s = refl
multiwait_at-remove_from_others id m (j ∷ ids) s =
    multiwait_at-remove_from_others id m ids _
    ∙ elim (Bool-cases (j == id)) [ inl e ↦ rw e refl | inr e ↦ rw e refl ]

fail_waiter-Moves :
    {s : Ntd} (k id : ℕ) (w : Waiter)
    → IsValid s
    → IsRegistered s.next_multiwait w
    → Moves k (waits_in k (w ∷ [])) 0 s (fail_waiter id w s)
unfolding fail_waiter
fail_waiter-Moves {s} k id w v h = go w.multiwait h
  where
    go :
        (o : Option ℕ)
        → Below s.next_multiwait o
        → Moves k (one_if (is_single o && w.slot_idx == k) + 0) 0 s (elim o [
          | none ↦ answer s w.slot_idx timeout
          | some m ↦
              free_multiwait m
                (remove_from_others id m (s.multiwait_at m).objects (time_out_multiwait m s))
        ])
    go none b = Moves-cancel (answer-Moves k w.slot_idx timeout v) (omega arith)
    go (some m) b =
        let a = time_out-Keeps k m v b in
        let c = remove_from_others-Keeps k id m (s.multiwait_at m).objects a.valid in
        Moves-trans a (
          Moves-trans c (
            free_multiwait-Keeps k m c.valid (omega (arith, a.more_waits, c.more_waits)) (
              ap (λ at. (at m).completed)
                (multiwait_at-remove_from_others id m (s.multiwait_at m).objects
                  (time_out_multiwait m s))
              ∙ time_out-completed m s)))

object_at-fail_waiter :
    (id : ℕ) (w : Waiter) (s : Ntd) → (fail_waiter id w s).object_at id ≡ s.object_at id
unfolding fail_waiter free_multiwait answer complete
object_at-fail_waiter id w s = go w.multiwait
  where
    go :
        (o : Option ℕ)
        → let t : Ntd = elim o [
          | none ↦ answer s w.slot_idx timeout
          | some m ↦
              free_multiwait m
                (remove_from_others id m (s.multiwait_at m).objects (time_out_multiwait m s))
        ] in
          t.object_at id ≡ s.object_at id
    go none = refl
    go (some m) =
        object_at-remove_from_others id m (s.multiwait_at m).objects (time_out_multiwait m s)
        ∙ ap (λ f. f id) (object_at-time_out m s)

fail_waiters-Moves :
    (k id : ℕ) (ws : List Waiter) {s : Ntd}
    → IsValid s
    → All (IsRegistered s.next_multiwait) ws
    → Moves k (waits_in k ws) 0 s (fail_waiters id ws s)
unfolding fail_waiters
fail_waiters-Moves k id [] v h = Keeps-refl k v
fail_waiters-Moves k id (w ∷ ws) v h =
    let a = fail_waiter-Moves k id w v h.0 in
    Moves-cancel
      (Moves-trans a (fail_waiters-Moves k id ws a.valid (IsRegistered-mono ws a.more_waits h.1)))
      (omega arith)

object_at-fail_waiters :
    (id : ℕ) (ws : List Waiter) (s : Ntd) → (fail_waiters id ws s).object_at id ≡ s.object_at id
unfolding fail_waiters
object_at-fail_waiters id [] s = refl
object_at-fail_waiters id (w ∷ ws) s =
    object_at-fail_waiters id ws (fail_waiter id w s) ∙ object_at-fail_waiter id w s

unlink-lt : (n x : ℕ) (xs : List ℕ) → All (λ i. i < n) xs → All (λ i. i < n) (unlink x xs)
unfolding unlink
unlink-lt n x [] h = tt
unlink-lt n x (y ∷ ys) h = if-elim (All (λ i. i < n)) (y == x) h.1 (h.0, unlink-lt n x ys h.1)

-- The memory of a freed object is never an open wait's.
pub free_object-Keeps : {s : Ntd} (k id : ℕ) → IsValid s → Keeps k s (free_object id s)
unfolding free_object tally
free_object-Keeps {s} k id v = record {
  valid = record {
    handles_lt = v.handles_lt;
    objects_lt = unlink-lt s.next_object_id id s.objects v.objects_lt;
    waiters_lt = v.waiters_lt;
    freed_done = v.freed_done;
  };
  more_objects = omega arith;
  more_waits = omega arith;
  balance = omega arith;
}

drop_object-Keeps :
    {s : Ntd} (k id : ℕ) → IsValid s → id < s.next_object_id → Keeps k s (drop_object id s)
unfolding drop_object
drop_object-Keeps {s} k id v lt =
    let ws = (s.object_at id).waiters in
    let t = fail_waiters id ws s in
    let a = fail_waiters-Moves k id ws v (v.waiters_lt id) in
    let e : waits_at k (t.object_at id) ≡ waits_in k ws =
      ap (waits_at k) (object_at-fail_waiters id ws s) in
    let b =
      put_object-Moves k id (record (t.object_at id) { waiters = [] }) a.valid
        (omega (arith, a.more_objects)) tt in
    let c : Keeps k s (put_waiters t id []) = Moves-cancel (Moves-trans a b) (omega arith) in
    Moves-trans c (free_object-Keeps k id c.valid)

release_reference-Keeps :
    {s : Ntd} (k id : ℕ) → IsValid s → id < s.next_object_id → Keeps k s (release_reference id s)
unfolding release_reference
release_reference-Keeps {s} k id v lt =
    let o = s.object_at id in
    let a = put_fields-Keeps k id (record o { refcount = o.refcount - 1 }) refl v in
    if-elim (Keeps k s) _ (Moves-trans a (drop_object-Keeps k id a.valid lt)) a

-- The table without an entry, and the object of that entry.
abbrev Removed : ℕ → Option ℕ × List HandleEntry → Type 0
Removed n (none, hs) = All (λ e. e.object < n) hs
Removed n (some id, hs) = (id < n) × All (λ e. e.object < n) hs

remove_handle_entry-Removed :
    (pid n : ℕ) (h : ℤ) (hs : List HandleEntry)
    → All (λ e. e.object < n) hs
    → Removed n (remove_handle_entry pid h hs)
unfolding remove_handle_entry
remove_handle_entry-Removed pid n h [] v = tt
remove_handle_entry-Removed pid n h (e ∷ es) v =
    if-elim (Removed n) (is_entry pid h e) (v.0, v.1)
      (go (remove_handle_entry pid h es) (remove_handle_entry-Removed pid n h es v.1))
  where
    go : (r : Option ℕ × List HandleEntry) → Removed n r → Removed n (r.0, e ∷ r.1)
    go (none, hs) c = (v.0, c)
    go (some id, hs) c = (c.0, (v.0, c.1))

drop_entry-Keeps :
    {s : Ntd} (k : ℕ) (hs : List HandleEntry)
    → IsValid s
    → All (λ e. e.object < s.next_object_id) hs
    → Keeps k s (record s { handles = hs })
unfolding tally
drop_entry-Keeps k hs v h = record {
  valid = record {
    handles_lt = h;
    objects_lt = v.objects_lt;
    waiters_lt = v.waiters_lt;
    freed_done = v.freed_done;
  };
  more_objects = omega arith;
  more_waits = omega arith;
  balance = omega arith;
}

pub close_handle-Answers :
    {s : Ntd} (k : ℕ) (req : Request) (i pid : ℕ)
    → IsValid s
    → Answers k i s (handle_close_handle req i pid s)
unfolding handle_close_handle
close_handle-Answers {s} k req i pid v =
    go (remove_handle_entry pid req.handle s.handles)
      (remove_handle_entry-Removed pid s.next_object_id req.handle s.handles v.handles_lt)
  where
    go :
        (r : Option ℕ × List HandleEntry)
        → Removed s.next_object_id r
        → Answers k i s (elim r.0 [
          | none ↦ answer s i invalid_handle
          | some id ↦ answer (release_reference id (record s { handles = r.1 })) i success
        ])
    go (none, hs) c = answer-Moves k i invalid_handle v
    go (some id, hs) c =
        let a = drop_entry-Keeps k hs v c.1 in
        let b = release_reference-Keeps k id a.valid c.0 in
        then_answers (Moves-trans a b) (answer-Moves k i success b.valid)
