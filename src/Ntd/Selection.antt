-- ===== src/Ntd/Selection.antt =====
-- ntd/ntd.c, WAIT_MULTIPLE: which objects a wait takes, and which one ends it.
use ntlinux.Common.{
  ℕ, ℤ, pos, negsuc, ◌+◌, ◌≡◌, refl, ap, ◌∙◌, Option, none, some, true, false, ◌==◌, List, [], ◌∷◌,
  ◌++◌, arith, update_self, update_ne, update, length, All, Bool-cases, inl, inr, eq_ℤ,
}
use ntlinux.Common.Distinct.{IsDistinct}
use ntlinux.Ntabi.{Request, success}
use ntlinux.Ntd.State.{Ntd, NtObject, Waiter, Env, put_waiters, slot_at}
use ntlinux.Ntd.Complete.{complete_wait_multiple}
use ntlinux.Ntd.Waiters.{object_available, consume, consume_object, add_waiter}
use ntlinux.Ntd.Multiwaits.{all_available, first_available, consume_all}
use ntlinux.Ntd.Waits.{add_waiters, register_multiwait, wait_later, wait_on_objects}

first_available-append :
    (at : ℕ → NtObject) (xs : List ℕ) (id : ℕ) (ys : List ℕ) (n : ℕ)
    → All (λ x. object_available (at x) ≡ false) xs
    → object_available (at id) ≡ true
    → first_available at (xs ++ id ∷ ys) n ≡ some (n + length xs, id)
unfolding first_available
first_available-append at [] id ys n h a = rw a (ground arith)
first_available-append at (x ∷ xs) id ys n h a =
    rw (h.0, first_available-append at xs id ys (n + 1) h.1 a) (ground arith)

complete_wait_multiple_lem :
    (s : Ntd) (i : ℕ) (n : ℤ)
    → let t = complete_wait_multiple s i success n in
      ((slot_at t i).resp.status ≡ success) × ((slot_at t i).resp.satisfied_index ≡ n)
unfolding complete_wait_multiple
complete_wait_multiple_lem s i n = ground arith

wait_any-takes :
    (env : Env) (req : Request) (ids : List ℕ) (i pid n id : ℕ) (s : Ntd)
    → req.wait_all ≡ false
    → first_available s.object_at ids 0 ≡ some (n, id)
    → wait_on_objects env req ids i pid s
      ≡ complete_wait_multiple (consume_object id pid s) i success (pos n)
unfolding wait_on_objects
wait_any-takes env req ids i pid n id s h e =
    let body : Option (ℕ × ℕ) → Ntd = λ r. elim r [
      | none ↦ wait_later env req ids i s
      | some (k, j) ↦ complete_wait_multiple (consume_object j pid s) i success (pos k)
    ] in
    rw h (ap body e)

-- A wait-any at which the objects `xs` before `id` are not available and `id` is: the answer is
-- SUCCESS with the index of `id`, so the first available handle wins; `id` is consumed once for the
-- calling process, and no other object changes.
pub wait_any-first_wins :
    (env : Env) (req : Request) (xs ys : List ℕ) (i pid id : ℕ) (s : Ntd)
    → req.wait_all ≡ false
    → All (λ x. object_available (s.object_at x) ≡ false) xs
    → object_available (s.object_at id) ≡ true
    → let t = wait_on_objects env req (xs ++ id ∷ ys) i pid s in
      ((slot_at t i).resp.status ≡ success)
      × ((slot_at t i).resp.satisfied_index ≡ pos (length xs))
      × (t.object_at ≡ update s.object_at id (consume (s.object_at id) pid))
unfolding complete_wait_multiple consume_object
wait_any-first_wins env req xs ys i pid id s h un av =
    let e : first_available s.object_at (xs ++ id ∷ ys) 0 ≡ some (length xs, id) =
      first_available-append s.object_at xs id ys 0 un av ∙ ground arith in
    let l = complete_wait_multiple_lem (consume_object id pid s) i (pos (length xs)) in
    rw (wait_any-takes env req (xs ++ id ∷ ys) i pid (length xs) id s h e) (l.0, l.1, refl)

-- An object but for its waiters.
abbrev pub stripped : NtObject → NtObject
stripped o = record o { waiters = [] }

put_stripped :
    (id : ℕ) (ws : List Waiter) (s : Ntd) (j : ℕ)
    → stripped ((put_waiters s id ws).object_at j) ≡ stripped (s.object_at j)
put_stripped id ws s j = elim (Bool-cases (id == j)) [
  | inl e ↦ let p : id ≡ j = ground arith in rw (e, p) refl
  | inr e ↦ rw e refl
]

add_waiter-stripped :
    (env : Env) (id i : ℕ) (mw : Option ℕ) (t : ℤ) (s : Ntd) (j : ℕ)
    → stripped ((add_waiter env id i mw t s).object_at j) ≡ stripped (s.object_at j)
unfolding add_waiter
add_waiter-stripped env id i mw (pos n) s j = put_stripped id _ s j
add_waiter-stripped env id i mw (negsuc n) s j = put_stripped id _ s j

add_waiters-stripped :
    (env : Env) (ids : List ℕ) (i m : ℕ) (t : ℤ) (s : Ntd) (j : ℕ)
    → stripped ((add_waiters env ids i m t s).object_at j) ≡ stripped (s.object_at j)
unfolding add_waiters
add_waiters-stripped env [] i m t s j = refl
add_waiters-stripped env (id ∷ ids) i m t s j =
    add_waiters-stripped env ids i m t (add_waiter env id i (some m) t s) j
    ∙ add_waiter-stripped env id i (some m) t s j

-- A wait-all at which some object is not available takes nothing: no object changes but in its list
-- of waiters.
pub wait_all-takes_nothing :
    (env : Env) (req : Request) (ids : List ℕ) (i pid : ℕ) (s : Ntd)
    → req.wait_all ≡ true
    → all_available s.object_at ids ≡ false
    → (j : ℕ)
    → stripped ((wait_on_objects env req ids i pid s).object_at j) ≡ stripped (s.object_at j)
unfolding wait_on_objects wait_later register_multiwait complete_wait_multiple
wait_all-takes_nothing env req ids i pid s h e j = elim (Bool-cases (eq_ℤ req.timeout_ms (pos 0))) [
  | inl z ↦ rw (h, e, z) refl
  | inr z ↦ rw (h, e, z) (add_waiters-stripped env ids i s.next_multiwait req.timeout_ms _ j)
]

consume_all-other :
    (ids : List ℕ) (pid : ℕ) (s : Ntd) (j : ℕ)
    → All (λ x. (x == j) ≡ false) ids
    → (consume_all ids pid s).object_at j ≡ s.object_at j
unfolding consume_all consume_object
consume_all-other [] pid s j h = refl
consume_all-other (id ∷ ids) pid s j h =
    consume_all-other ids pid (consume_object id pid s) j h.1
    ∙ update_ne s.object_at id (consume (s.object_at id) pid) j h.0

All-other :
    (id pid : ℕ) (s : Ntd) (f : ℕ → NtObject) (ys : List ℕ)
    → All (λ y. (y == id) ≡ false) ys
    → All (λ j. f j ≡ consume ((consume_object id pid s).object_at j) pid) ys
    → All (λ j. f j ≡ consume (s.object_at j) pid) ys
unfolding consume_object
All-other id pid s f [] d h = tt
All-other id pid s f (y ∷ ys) d h =
    let ne : (id == y) ≡ false = ground (arith, d.0) in
    (
      h.0 ∙ ap (λ o. consume o pid) (update_ne s.object_at id (consume (s.object_at id) pid) y ne),
      All-other id pid s f ys d.1 h.1,
    )

consume_all-each :
    (ids : List ℕ) (pid : ℕ) (s : Ntd)
    → IsDistinct ids
    → All (λ j. (consume_all ids pid s).object_at j ≡ consume (s.object_at j) pid) ids
unfolding consume_all consume_object
consume_all-each [] pid s d = tt
consume_all-each (id ∷ ids) pid s d = (
  consume_all-other ids pid (consume_object id pid s) id d.0
      ∙ update_self s.object_at id (consume (s.object_at id) pid),
  All-other id pid s _ ids d.0 (consume_all-each ids pid (consume_object id pid s) d.1),
)

-- A wait-all at which every object is available, none named twice: the answer is SUCCESS with index
-- -1, each of the objects is consumed exactly once for the calling process, and no other changes.
pub wait_all-takes_each_once :
    (env : Env) (req : Request) (ids : List ℕ) (i pid : ℕ) (s : Ntd)
    → req.wait_all ≡ true
    → all_available s.object_at ids ≡ true
    → IsDistinct ids
    → let t = wait_on_objects env req ids i pid s in
      ((slot_at t i).resp.status ≡ success)
      × ((slot_at t i).resp.satisfied_index ≡ negsuc 0)
      × All (λ j. t.object_at j ≡ consume (s.object_at j) pid) ids
      × ((j : ℕ) → All (λ x. (x == j) ≡ false) ids → t.object_at j ≡ s.object_at j)
unfolding wait_on_objects complete_wait_multiple
wait_all-takes_each_once env req ids i pid s h e d =
    let l = complete_wait_multiple_lem (consume_all ids pid s) i (negsuc 0) in
    rw (h, e) (l.0, l.1, consume_all-each ids pid s d, λ j o. consume_all-other ids pid s j o)
