-- ===== src/Ntd/Answers/Writes.antt =====
-- The tally under the writes that several handlers of ntd.c share.
use ntlinux.Common.{
  ℕ, ℤ, ◌+◌, ◌≤◌, ◌<◌, ◌≡◌, refl, ap, some, Bool, List, [], ◌∷◌, arith, All, All-lt_mono,
  update-elim, Option-cases, Bool-cases, inl, inr, bytes_eq,
}
use native.Mathlib.Decide.{dec_lt}
use ntlinux.Common.Sums.{sum_below, sum_below-extend}
use ntlinux.Ntabi.{Request, Status}
use ntlinux.Ntd.State.{Ntd, NtObject, HandleEntry, ObjType, put_object}
use ntlinux.Ntd.Complete.{complete, complete_wait_multiple}
use ntlinux.Ntd.Handles.{find_handle, register_handle}
use ntlinux.Ntd.Objects.{
  create_object, find_object, find_by_name, blank, same_type, find_thread_object,
}
use ntlinux.Ntd.Waiters.{consume, consume_object}
use ntlinux.Ntd.Sync.{answer, with_object}
use ntlinux.Ntd.Answers.Tally.{
  tally, hit, waits_in, waits_at, IsRegistered, IsValid, Moves, Keeps, Moves-cancel, post-Moves,
  put_object-Moves, put_object_above,
}

pub answer-Moves :
    {s : Ntd} (k i : ℕ) (st : Status) → IsValid s → Moves k (hit k i) 0 s (answer s i st)
unfolding answer complete
answer-Moves k i st v = post-Moves k i _ v

pub complete-Moves :
    {s : Ntd} (k i : ℕ) (st : Status) (h : ℕ) (n : ℤ)
    → IsValid s
    → Moves k (hit k i) 0 s (complete s i st h n)
unfolding complete
complete-Moves k i st h n v = post-Moves k i _ v

pub complete_wait_multiple-Moves :
    {s : Ntd} (k i : ℕ) (st : Status) (n : ℤ)
    → IsValid s
    → Moves k (hit k i) 0 s (complete_wait_multiple s i st n)
unfolding complete_wait_multiple
complete_wait_multiple-Moves k i st n v = post-Moves k i _ v

-- A write to an object that leaves the number of its waits alone.
pub put_object-Keeps :
    {s : Ntd} (k id : ℕ) (o : NtObject)
    → waits_at k o ≡ waits_at k (s.object_at id)
    → All (IsRegistered s.next_multiwait) o.waiters
    → IsValid s
    → Keeps k s (put_object s id o)
put_object-Keeps {s} k id o e h v = elim (dec_lt id s.next_object_id) [
  | yes lt ↦ Moves-cancel (put_object-Moves k id o v lt h) (omega arith)
  | no ge ↦ put_object_above k id o v (omega arith) h
]

-- The same for a write that does not touch the waiters.
pub put_fields-Keeps :
    {s : Ntd} (k id : ℕ) (o : NtObject)
    → o.waiters ≡ (s.object_at id).waiters
    → IsValid s
    → Keeps k s (put_object s id o)
put_fields-Keeps {s} k id o e v =
    put_object-Keeps k id o (ap (waits_in k) e) (rw e (v.waiters_lt id)) v

pub consume_object-Keeps :
    {s : Ntd} (k id pid : ℕ) → IsValid s → Keeps k s (consume_object id pid s)
unfolding consume_object consume
consume_object-Keeps {s} k id pid v = put_fields-Keeps k id _ (ground arith) v

pub find_handle-lt :
    (pid n : ℕ) (h : ℤ) (hs : List HandleEntry) {id : ℕ}
    → All (λ e. e.object < n) hs
    → find_handle pid h hs ≡ some id
    → id < n
unfolding find_handle
find_handle-lt pid n h [] v e = cc
find_handle-lt pid n h (x ∷ xs) {id} v e = ground (arith, find_handle-lt pid n h xs {id = id} v.1)

pub find_object-lt :
    (p : NtObject → Bool) (at : ℕ → NtObject) (n : ℕ) (ids : List ℕ) {id : ℕ}
    → All (λ i. i < n) ids
    → find_object p at ids ≡ some id
    → id < n
unfolding find_object
find_object-lt p at n [] v e = cc
find_object-lt p at n (x ∷ xs) {id} v e = ground (arith, find_object-lt p at n xs {id = id} v.1)

pub find_by_name-lt :
    {s : Ntd} (name : List ℕ) {id : ℕ}
    → IsValid s
    → find_by_name s name ≡ some id
    → id < s.next_object_id
unfolding find_by_name
find_by_name-lt {s} name {id} v e = ground (
  arith,
  find_object-lt (λ o. bytes_eq o.name name) s.object_at s.next_object_id s.objects {id = id}
      v.objects_lt,
)

pub find_thread_object-lt :
    {s : Ntd} (pid tid : ℕ) {id : ℕ}
    → IsValid s
    → find_thread_object s pid tid ≡ some id
    → id < s.next_object_id
unfolding find_thread_object
find_thread_object-lt {s} pid tid v e =
    find_object-lt _ s.object_at s.next_object_id s.objects v.objects_lt e

-- To prove something of a handler that works on a handle: the refusals, and the object found.
pub with_object-elim {ℓ} :
    (P : Ntd → Type ℓ) {s : Ntd} (pid : ℕ) (req : Request) (type : ObjType) {fail : Status → Ntd}
    {found : ℕ → Ntd}
    → IsValid s
    → ((st : Status) → P (fail st))
    → ((id : ℕ) → id < s.next_object_id → P (found id))
    → P (with_object s pid req type fail found)
unfolding with_object
with_object-elim P {s} pid req type v failed works =
    elim (Option-cases (find_handle pid req.handle s.handles)) [
      | inl e ↦ rw (e, with_object) (failed _)
      | inr (id, e) ↦ elim (Bool-cases (same_type (s.object_at id).type type)) [
        | inl t ↦
            rw (e, with_object, t)
              (works id (find_handle-lt pid _ req.handle s.handles v.handles_lt e))
        | inr t ↦ rw (e, with_object, t) (failed _)
      ]
    ]

handles_mono :
    {m n : ℕ} (hs : List HandleEntry)
    → m ≤ n
    → All (λ e. e.object < m) hs
    → All (λ e. e.object < n) hs
handles_mono [] h v = tt
handles_mono (x ∷ xs) h v = (omega arith, handles_mono xs h v.1)

pub create_object-Keeps :
    {s : Ntd} (k : ℕ) (type : ObjType) (name : List ℕ)
    → IsValid s
    → Keeps k s (create_object type name s).1
unfolding create_object tally sum_below
create_object-Keeps {s} k type name v = record {
  valid = record {
    handles_lt = handles_mono s.handles (omega arith) v.handles_lt;
    objects_lt = (omega arith, All-lt_mono s.objects (omega arith) v.objects_lt);
    waiters_lt =
        update-elim (λ x. All (IsRegistered s.next_multiwait) x.waiters) s.object_at
          s.next_object_id (blank type name) tt v.waiters_lt;
    freed_done = v.freed_done;
  };
  more_objects = omega arith;
  more_waits = omega arith;
  balance =
      ground (arith, sum_below-extend (waits_at k) s.next_object_id s.object_at (blank type name));
}

pub register_handle-Keeps :
    {s : Ntd} (k pid id : ℕ)
    → IsValid s
    → id < s.next_object_id
    → Keeps k s (register_handle pid id s).1
unfolding register_handle tally
register_handle-Keeps {s} k pid id v lt =
    let o = s.object_at id in
    let m = put_fields-Keeps k id (record o { refcount = o.refcount + 1 }) refl v in
    record {
      valid = record {
        handles_lt = (lt, v.handles_lt);
        objects_lt = v.objects_lt;
        waiters_lt = m.valid.waiters_lt;
        freed_done = v.freed_done;
      };
      more_objects = omega arith;
      more_waits = omega arith;
      balance = m.balance;
    }
