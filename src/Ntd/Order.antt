-- ===== src/Ntd/Order.antt =====
-- ntd/ntd.c: who is served first among the waiters of a semaphore.
use ntlinux.Common.{
  ℕ, zero, suc, pos, ◌+◌, ◌-◌, ◌<◌, ◌^◌, ◌≡◌, ◌⊎◌, refl, ap, ◌∙◌, none, some, Bool, true, false,
  not, ◌==◌, List, [], ◌∷◌, drop, take, length, arith, add_i32, add_i32-exact, All, Bool-cases, inl,
  inr, update_self,
}
use ntlinux.Ntd.State.{
  Ntd, NtObject, Waiter, semaphore, put_object, put_waiters, client_pid_of, slot_at,
}
use ntlinux.Ntabi.{success}
use ntlinux.Ntd.Answers.Tally.{waits_in}
use ntlinux.Ntd.Complete.{complete}
use ntlinux.Ntd.Waiters.{object_available, consume, consume_object}
use ntlinux.Ntd.Multiwaits.{
  take_single, wake_with, satisfy_one_waiter, satisfy_waiters, multiwaits_of, try_all,
  notify_multiwaiters,
}
use ntlinux.Ntd.Sync.{release_semaphore}

abbrev pub IsSingle : Waiter → Type 0
IsSingle w = w.multiwait ≡ none

abbrev pub IsAnswered : Ntd → Waiter → Type 0
IsAnswered s w = (slot_at s w.slot_idx).resp.status ≡ success

-- A semaphore with a count and a list of waiters.
pub record Sema (id c : ℕ) (ws : List Waiter) (s : Ntd) : Type 0 where
  pub type : (s.object_at id).type ≡ semaphore
  pub count : (s.object_at id).count ≡ pos c
  pub waiters : (s.object_at id).waiters ≡ ws

-- The woken waiter's object, the slot of its client left aside.
object_at-wake_with :
    (id : ℕ) (w : Waiter) (ws : List Waiter) (s : Ntd)
    → (wake_with id w ws s).object_at id
      ≡ consume (record (s.object_at id) { waiters = ws }) (client_pid_of s w.slot_idx)
unfolding wake_with complete consume_object
object_at-wake_with id w ws s =
    update_self ((put_waiters s id ws).object_at) id _
    ∙ ap (λ o. consume o (client_pid_of s w.slot_idx))
        (update_self s.object_at id (record (s.object_at id) { waiters = ws }))

consume_semaphore :
    (o : NtObject) (pid c : ℕ)
    → suc c < 2 ^ 31
    → o.type ≡ semaphore
    → o.count ≡ pos (suc c)
    → ((consume o pid).type ≡ semaphore)
      × ((consume o pid).count ≡ pos c)
      × ((consume o pid).waiters ≡ o.waiters)
unfolding consume add_i32
consume_semaphore o pid c h t e = ground arith

wake_with-Sema :
    {id c : ℕ} {w : Waiter} {ws : List Waiter} {s : Ntd}
    → suc c < 2 ^ 31
    → Sema id (suc c) (w ∷ ws) s
    → Sema id c ws (wake_with id w ws s)
wake_with-Sema {id} {c} {w} {ws} {s} h m =
    let e = object_at-wake_with id w ws s in
    let p =
      consume_semaphore (record (s.object_at id) { waiters = ws }) (client_pid_of s w.slot_idx) c h
        m.type m.count in
    record {
      type = ap (λ o. o.type) e ∙ p.0;
      count = ap (λ o. o.count) e ∙ p.1;
      waiters = ap (λ o. o.waiters) e ∙ p.2;
    }

available-Sema :
    {id c : ℕ} {ws : List Waiter} {s : Ntd}
    → Sema id c ws s
    → object_available (s.object_at id) ≡ not (c == 0)
unfolding object_available
available-Sema m = ground arith

take_single-cons :
    (w : Waiter) (ws : List Waiter) → IsSingle w → take_single (w ∷ ws) ≡ some (w, ws)
unfolding take_single
take_single-cons w ws h = rw h refl

nothing_single : take_single [] ≡ none
unfolding take_single
nothing_single = refl

satisfy_one-idle :
    (id : ℕ) (s : Ntd)
    → (object_available (s.object_at id) ≡ false) ⊎ (take_single (s.object_at id).waiters ≡ none)
    → satisfy_one_waiter id s ≡ (false, s)
unfolding satisfy_one_waiter
satisfy_one-idle id s (inl e) = rw e refl
satisfy_one-idle id s (inr e) = elim (Bool-cases (object_available (s.object_at id))) [
  | inl a ↦ rw (a, e) refl
  | inr a ↦ rw a refl
]

satisfy_one-wakes :
    (id : ℕ) (w : Waiter) (rest : List Waiter) (s : Ntd)
    → object_available (s.object_at id) ≡ true
    → take_single (s.object_at id).waiters ≡ some (w, rest)
    → satisfy_one_waiter id s ≡ (true, wake_with id w rest s)
unfolding satisfy_one_waiter
satisfy_one-wakes id w rest s a e = rw (a, e) refl

-- One round of the loop, once it is known what `satisfy_one_waiter` does.
satisfy_waiters-round :
    (fuel id : ℕ) (s : Ntd) {r : Bool × Ntd}
    → satisfy_one_waiter id s ≡ r
    → satisfy_waiters (suc fuel) id s
      ≡ elim r.0 [ true ↦ satisfy_waiters fuel id r.1 | false ↦ r.1 ]
unfolding satisfy_waiters
satisfy_waiters-round fuel id s p =
    let body : Bool × Ntd → Ntd =
      λ r. elim r.0 [ true ↦ satisfy_waiters fuel id r.1 | false ↦ r.1 ] in
    ap body p

-- From `s` to `t` the waiters `ws` are answered SUCCESS, each by one post of its slot, and no other
-- slot is posted.
record Woken (ws : List Waiter) (s t : Ntd) : Type 0 where
  posts : (k : ℕ) → (slot_at t k).ready ≡ (slot_at s k).ready + waits_in k ws
  answered : All (IsAnswered t) ws
  kept : (k : ℕ) → (slot_at s k).resp.status ≡ success → (slot_at t k).resp.status ≡ success

Woken-none : (s : Ntd) → Woken [] s s
Woken-none s = record { posts = λ k. omega arith; answered = tt; kept = λ k e. e }

wake_with-Woken :
    (id : ℕ) (w : Waiter) (rest : List Waiter) (s : Ntd)
    → IsSingle w
    → Woken (w ∷ []) s (wake_with id w rest s)
unfolding wake_with complete consume_object
wake_with-Woken id w rest s h = record {
  posts = λ k. rw h (ground arith);
  answered = (ground arith, tt);
  kept = λ k e. ground (arith, e);
}

Woken-then :
    (w : Waiter) (ws : List Waiter) {s t u : Ntd}
    → Woken (w ∷ []) s t
    → Woken ws t u
    → Woken (w ∷ ws) s u
Woken-then w ws a b = record {
  posts = λ k. omega (arith, a.posts k, b.posts k);
  answered = (b.kept w.slot_idx a.answered.0, b.answered);
  kept = λ k e. b.kept k (a.kept k e);
}

satisfy_waiters-Woken :
    (fuel : ℕ) (c : ℕ) (ws : List Waiter) {id : ℕ} {s : Ntd}
    → c < 2 ^ 31
    → length ws < fuel
    → All IsSingle ws
    → Sema id c ws s
    → Woken (take c ws) s (satisfy_waiters fuel id s)
satisfy_waiters-Woken zero c ws h lt si m = elim lt [ ]
satisfy_waiters-Woken (suc f) zero ws {id} {s} h lt si m =
    rw (satisfy_waiters-round f id s (satisfy_one-idle id s (inl (available-Sema m))))
      (Woken-none s)
satisfy_waiters-Woken (suc f) (suc c) [] {id} {s} h lt si m =
    rw (satisfy_waiters-round f id s (satisfy_one-idle id s (inr (rw m.waiters nothing_single))))
      (Woken-none s)
satisfy_waiters-Woken (suc f) (suc c) (w ∷ ws) {id} {s} h lt si m =
    let t : take_single (s.object_at id).waiters ≡ some (w, ws) =
      ap take_single m.waiters ∙ take_single-cons w ws si.0 in
    rw
      (satisfy_waiters-round f id s
        (satisfy_one-wakes id w ws s (available-Sema m ∙ ground arith) t))
      (Woken-then w (take c ws) (wake_with-Woken id w ws s si.0)
        (satisfy_waiters-Woken f c ws (omega arith) (omega arith) si.1 (wake_with-Sema h m)))

-- The loop wakes the oldest waiters, one for each unit of the count.
satisfy_waiters-Sema :
    (fuel : ℕ) (c : ℕ) (ws : List Waiter) {id : ℕ} {s : Ntd}
    → c < 2 ^ 31
    → length ws < fuel
    → All IsSingle ws
    → Sema id c ws s
    → Sema id (c - length ws) (drop c ws) (satisfy_waiters fuel id s)
satisfy_waiters-Sema zero c ws h lt si m = elim lt [ ]
satisfy_waiters-Sema (suc f) zero ws {id} {s} h lt si m =
    let e : 0 - length ws ≡ 0 = omega arith in
    rw (e, satisfy_waiters-round f id s (satisfy_one-idle id s (inl (available-Sema m)))) m
satisfy_waiters-Sema (suc f) (suc c) [] {id} {s} h lt si m =
    let e : suc c - 0 ≡ suc c = omega arith in
    rw (e, satisfy_waiters-round f id s (satisfy_one-idle id s (inr (rw m.waiters nothing_single))))
      m
satisfy_waiters-Sema (suc f) (suc c) (w ∷ ws) {id} {s} h lt si m =
    let e : suc c - suc (length ws) ≡ c - length ws = omega arith in
    let t : take_single (s.object_at id).waiters ≡ some (w, ws) =
      ap take_single m.waiters ∙ take_single-cons w ws si.0 in
    rw
      (
        e,
        satisfy_waiters-round f id s
            (satisfy_one-wakes id w ws s (available-Sema m ∙ ground arith) t),
      )
      (satisfy_waiters-Sema f c ws (omega arith) (omega arith) si.1 (wake_with-Sema h m))

multiwaits_of-single : (ws : List Waiter) → All IsSingle ws → multiwaits_of ws ≡ []
unfolding multiwaits_of
multiwaits_of-single [] h = refl
multiwaits_of-single (w ∷ ws) h = rw (h.0, multiwaits_of-single ws h.1) refl

All-drop : (n : ℕ) (ws : List Waiter) → All IsSingle ws → All IsSingle (drop n ws)
All-drop zero ws h = h
All-drop (suc n) [] h = tt
All-drop (suc n) (w ∷ ws) h = All-drop n ws h.1

-- Releasing `n` units of a semaphore with count `c` that only single-object waits wait on, within the
-- range of int, wakes the oldest waiters, one for each unit that there is, as long as there are any:
-- each of these has its slot answered SUCCESS, and every slot is posted as often as it is among them.
-- Those left are the later ones in their order, and the count that is left is what nobody took.
pub release_semaphore-oldest_first :
    (id c n : ℕ) (s : Ntd)
    → (s.object_at id).type ≡ semaphore
    → (s.object_at id).count ≡ pos c
    → c + n < 2 ^ 31
    → All IsSingle (s.object_at id).waiters
    → let t = release_semaphore id (pos n) s in
      let ws = (s.object_at id).waiters in
      ((t.object_at id).count ≡ pos (c + n - length ws))
      × ((t.object_at id).waiters ≡ drop (c + n) ws)
      × All (IsAnswered t) (take (c + n) ws)
      × ((k : ℕ) → (slot_at t k).ready ≡ (slot_at s k).ready + waits_in k (take (c + n) ws))
unfolding release_semaphore notify_multiwaiters try_all
release_semaphore-oldest_first id c n s t e h si =
    let ws = (s.object_at id).waiters in
    let o = record (s.object_at id) { count = add_i32 (s.object_at id).count (pos n) } in
    let u = update_self s.object_at id o in
    let m : Sema id (c + n) ws (put_object s id o) = record {
      type = ap (λ x. x.type) u ∙ t;
      count = ap (λ x. x.count) u ∙ rw e (add_i32-exact c n h);
      waiters = ap (λ x. x.waiters) u;
    } in
    let l = satisfy_waiters-Sema (length ws + 1) (c + n) ws h (omega arith) si m in
    let none_left = ap multiwaits_of l.waiters ∙ multiwaits_of-single _ (All-drop (c + n) ws si) in
    let a = satisfy_waiters-Woken (length ws + 1) (c + n) ws h (omega arith) si m in
    rw none_left (l.count, l.waiters, a.answered, a.posts)
