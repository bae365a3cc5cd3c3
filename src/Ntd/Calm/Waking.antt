-- ===== src/Ntd/Calm/Waking.antt =====
-- ntd/ntd.c: answering, registering and trying waits on several objects neglects nobody.
use ntlinux.Common.{
  ℕ, ℤ, pos, negsuc, ◌≡◌, refl, List, [], ◌∷◌, ◌++◌, Option, Bool, true, false, arith, Bool-cases,
  Option-cases, inl, inr, take, ◌⊎◌, if◌then◌else◌,
}
use ntlinux.Ntabi.{Status, success, max_slots}
use ntlinux.Ntd.State.{Ntd, NtObject, Waiter, Env, Multiwait, post, put_waiters}
use ntlinux.Ntd.Complete.{complete, complete_wait_multiple}
use ntlinux.Ntd.Waiters.{
  is_single, object_available, consume_object, add_waiter, remove_waiter_for_multiwait,
}
use ntlinux.Ntd.Multiwaits.{
  all_available, first_available, consume_all, remove_all_for, free_multiwait, set_completed,
  finish_multiwait, try_satisfy_multiwait, multiwaits_of, try_all, notify_multiwaiters,
}
use ntlinux.Ntd.Sync.{answer}
use ntlinux.Ntd.Calm.{
  Calm, put-Calm, fewer-neglected, consume-neglected, taken-neglected, has_single-remove_first_for,
  has_single-append,
}

pub complete-Calm :
    (s : Ntd) (i : ℕ) (st : Status) (h : ℕ) (p : ℤ) → Calm s → Calm (complete s i st h p)
unfolding complete post
complete-Calm s i st h p v = v

pub answer-Calm : (s : Ntd) (i : ℕ) (st : Status) → Calm s → Calm (answer s i st)
unfolding answer
answer-Calm s i st v = complete-Calm s i st 0 (pos 0) v

pub complete_wait_multiple-Calm :
    (s : Ntd) (i : ℕ) (st : Status) (n : ℤ) → Calm s → Calm (complete_wait_multiple s i st n)
unfolding complete_wait_multiple post
complete_wait_multiple-Calm s i st n v = v

-- Whoever joins the list of an object waits for others too, or finds the object taken.
push-Calm :
    (s : Ntd) (id : ℕ) (w : Waiter)
    → Calm s
    → (is_single w.multiwait ≡ false) ⊎ (object_available (s.object_at id) ≡ false)
    → Calm (put_waiters s id ((s.object_at id).waiters ++ w ∷ []))
push-Calm s id w v h = put-Calm s id _ v (elim h [
  | inl e ↦
      fewer-neglected o _ (v id) (let a = has_single-append o.waiters w in ground (arith, a, e))
  | inr e ↦ taken-neglected o _ e
])
  where
    o : NtObject
    o = s.object_at id

pub add_waiter-Calm :
    (env : Env) (id i : ℕ) (mw : Option ℕ) (t : ℤ) (s : Ntd)
    → Calm s
    → (is_single mw ≡ false) ⊎ (object_available (s.object_at id) ≡ false)
    → Calm (add_waiter env id i mw t s)
unfolding add_waiter
add_waiter-Calm env id i mw (pos n) s v h = push-Calm s id _ v h
add_waiter-Calm env id i mw (negsuc n) s v h = push-Calm s id _ v h

pub remove_waiter-Calm : (id m : ℕ) (s : Ntd) → Calm s → Calm (remove_waiter_for_multiwait id m s)
unfolding remove_waiter_for_multiwait
remove_waiter-Calm id m s v =
    let o = s.object_at id in
    put-Calm s id _ v
      (fewer-neglected o _ (v id) (ground (arith, has_single-remove_first_for m o.waiters)))

remove_all_for-Calm : (m : ℕ) (ids : List ℕ) (s : Ntd) → Calm s → Calm (remove_all_for m ids s)
unfolding remove_all_for
remove_all_for-Calm m [] s v = v
remove_all_for-Calm m (id ∷ ids) s v = remove_all_for-Calm m ids _ (remove_waiter-Calm id m s v)

pub free_multiwait-Calm : (m : ℕ) (s : Ntd) → Calm s → Calm (free_multiwait m s)
unfolding free_multiwait
free_multiwait-Calm m s v = v

pub set_completed-Calm : (m : ℕ) (s : Ntd) → Calm s → Calm (set_completed m s)
unfolding set_completed
set_completed-Calm m s v = v

pub consume_object-Calm : (id pid : ℕ) (s : Ntd) → Calm s → Calm (consume_object id pid s)
unfolding consume_object
consume_object-Calm id pid s v = put-Calm s id _ v (consume-neglected (s.object_at id) pid (v id))

pub consume_all-Calm : (ids : List ℕ) (pid : ℕ) (s : Ntd) → Calm s → Calm (consume_all ids pid s)
unfolding consume_all
consume_all-Calm [] pid s v = v
consume_all-Calm (id ∷ ids) pid s v = consume_all-Calm ids pid _ (consume_object-Calm id pid s v)

finish_multiwait-Calm : (m : ℕ) (n : ℤ) (s : Ntd) → Calm s → Calm (finish_multiwait m n s)
unfolding finish_multiwait
finish_multiwait-Calm m n s v = free_multiwait-Calm m _ (
    remove_all_for-Calm m (s.multiwait_at m).objects _
      (complete_wait_multiple-Calm (set_completed m s) _ success n (set_completed-Calm m s v)))

-- Either branch of a test, in what the test says.
pub if-Calm :
    (b : Bool) (s t : Ntd) → (b ≡ true → Calm s) → (b ≡ false → Calm t) → Calm (if b then s else t)
if-Calm true s t v w = v refl
if-Calm false s t v w = w refl

try_satisfy-Calm : (m : ℕ) (s : Ntd) → Calm s → Calm (try_satisfy_multiwait m s)
unfolding try_satisfy_multiwait
try_satisfy-Calm m s v = elim (Bool-cases mw.completed) [
  | inl done ↦ rw done v
  | inr fresh ↦ elim (Bool-cases mw.wait_all) [
    | inl all ↦ elim (Bool-cases (all_available s.object_at mw.objects)) [
      | inl e ↦
          rw (fresh, all, e)
            (finish_multiwait-Calm m (negsuc 0) _ (consume_all-Calm mw.objects _ s v))
      | inr e ↦ rw (fresh, all, e) v
    ]
    | inr any ↦ elim (Option-cases (first_available s.object_at mw.objects 0)) [
      | inl e ↦ rw (fresh, any, e) v
      | inr ((n, id), e) ↦
          rw (fresh, any, e) (finish_multiwait-Calm m (pos n) _ (consume_object-Calm id _ s v))
    ]
  ]
]
  where
    mw : Multiwait
    mw = s.multiwait_at m

try_all-Calm : (ms : List ℕ) (s : Ntd) → Calm s → Calm (try_all ms s)
unfolding try_all
try_all-Calm [] s v = v
try_all-Calm (m ∷ ms) s v = try_all-Calm ms _ (try_satisfy-Calm m s v)

pub notify-Calm : (id : ℕ) (s : Ntd) → Calm s → Calm (notify_multiwaiters id s)
unfolding notify_multiwaiters
notify-Calm id s v = try_all-Calm (take max_slots (multiwaits_of (s.object_at id).waiters)) s v
