-- ===== src/Ntd/Calm.antt =====
-- ntd/ntd.c: objects that are available while somebody waits for them alone, which no step may leave
-- behind, and what single writes to an object do to that.
pub mod Waking
pub mod Signals
pub mod Scans
pub mod Polls
pub mod Handlers
pub mod Waits
pub mod Making
pub mod Requests
pub mod Runs
use ntlinux.Common.{
  ℕ, ℤ, ◌≡◌, refl, List, [], ◌∷◌, ◌++◌, Option, none, some, Bool, true, false, not, ◌&&◌, ◌||◌,
  ◌==◌, ◌⊎◌, inl, inr, arith, Bool-cases, Option-cases, update, update-elim, update_self, ==_iff,
}
use ntlinux.Ntd.State.{
  Ntd, NtObject, Waiter, ObjType, event, mutant, semaphore, section, completion, process, thread,
  put_object,
}
use ntlinux.Ntd.Objects.{same_type}
use ntlinux.Ntabi.{Apc, Packet}
use ntlinux.Ntd.Waiters.{
  is_single, is_for, object_available, type_available, consume, type_consume, remove_first_for,
}
use ntlinux.Ntd.Multiwaits.{take_single}

-- Whether a list has a waiter for its object alone.
abbrev pub has_single : List Waiter → Bool
has_single [] = false
has_single (w ∷ ws) = is_single w.multiwait || has_single ws

-- Whether somebody waits alone for an object that is available. Semaphores are left out: their counts
-- are machine integers, which a decrement at the least one makes positive.
abbrev pub neglected : NtObject → Bool
neglected o = not (same_type o.type semaphore) && (object_available o && has_single o.waiters)

abbrev pub Calm : Ntd → Type 0
Calm s = (k : ℕ) → neglected (s.object_at k) ≡ false

-- The same for all objects but one.
abbrev pub CalmBut : ℕ → Ntd → Type 0
CalmBut id s = (k : ℕ) → ((id == k) ≡ true) ⊎ (neglected (s.object_at k) ≡ false)

pub put-Calm :
    (s : Ntd) (id : ℕ) (o : NtObject) → Calm s → neglected o ≡ false → Calm (put_object s id o)
put-Calm s id o v h = update-elim (λ p. neglected p ≡ false) s.object_at id o h v

pub put-CalmBut : (s : Ntd) (id : ℕ) (o : NtObject) → CalmBut id s → CalmBut id (put_object s id o)
put-CalmBut s id o v k = elim (v k) [
  | inl h ↦ inl h
  | inr h ↦ elim (Bool-cases (id == k)) [ inl e ↦ inl e | inr e ↦ inr (rw e h) ]
]

pub put_last-Calm :
    (s : Ntd) (id : ℕ) (o : NtObject)
    → CalmBut id s
    → neglected o ≡ false
    → Calm (put_object s id o)
put_last-Calm s id o v h k = elim (Bool-cases (id == k)) [
  | inl e ↦ rw e h
  | inr e ↦ rw e (elim (v k) [ inl h ↦ absurd (cc (e, h)) | inr h ↦ h ])
]

pub last-Calm : (s : Ntd) (id : ℕ) → CalmBut id s → neglected (s.object_at id) ≡ false → Calm s
last-Calm s id v h k = elim (v k) [ inl e ↦ rw⁻¹ ((==_iff id k).0 e) h | inr e ↦ e ]

pub unavailable-neglected : (o : NtObject) → object_available o ≡ false → neglected o ≡ false
unavailable-neglected o h = ground (arith, h)

pub unwaited-neglected : (o : NtObject) → has_single o.waiters ≡ false → neglected o ≡ false
unwaited-neglected o h = ground (arith, h)

type_available-waiters :
    (t : ObjType) (o : NtObject) (ws : List Waiter)
    → type_available t (record o { waiters = ws }) ≡ type_available t o
type_available-waiters event o ws = refl
type_available-waiters mutant o ws = refl
type_available-waiters semaphore o ws = refl
type_available-waiters section o ws = refl
type_available-waiters completion o ws = refl
type_available-waiters process o ws = refl
type_available-waiters thread o ws = refl

-- Another list of waiters, with nobody alone in it who was not there.
pub fewer-neglected :
    (o : NtObject) (ws : List Waiter)
    → neglected o ≡ false
    → (has_single ws ≡ false) ⊎ (has_single o.waiters ≡ true)
    → neglected (record o { waiters = ws }) ≡ false
unfolding object_available
fewer-neglected o ws v h = let e = type_available-waiters o.type o ws in ground (arith, v, h, e)

pub taken-neglected :
    (o : NtObject) (ws : List Waiter)
    → object_available o ≡ false
    → neglected (record o { waiters = ws }) ≡ false
unfolding object_available
taken-neglected o ws h = let e = type_available-waiters o.type o ws in ground (arith, h, e)

type_available-refcount :
    (t : ObjType) (o : NtObject) (n : ℕ)
    → type_available t (record o { refcount = n }) ≡ type_available t o
type_available-refcount event o n = refl
type_available-refcount mutant o n = refl
type_available-refcount semaphore o n = refl
type_available-refcount section o n = refl
type_available-refcount completion o n = refl
type_available-refcount process o n = refl
type_available-refcount thread o n = refl

pub refcount-neglected :
    (o : NtObject) (n : ℕ) → neglected o ≡ false → neglected (record o { refcount = n }) ≡ false
unfolding object_available
refcount-neglected o n v = rw (type_available-refcount o.type o n) v

type_available-thread :
    (t : ObjType) (o : NtObject) (xs : List Apc) (n : ℤ)
    → type_available t (record o { apcs = xs; suspend_count = n }) ≡ type_available t o
type_available-thread event o xs n = refl
type_available-thread mutant o xs n = refl
type_available-thread semaphore o xs n = refl
type_available-thread section o xs n = refl
type_available-thread completion o xs n = refl
type_available-thread process o xs n = refl
type_available-thread thread o xs n = refl

pub thread-neglected :
    (o : NtObject) (xs : List Apc) (n : ℤ)
    → neglected o ≡ false
    → neglected (record o { apcs = xs; suspend_count = n }) ≡ false
unfolding object_available
thread-neglected o xs n v = rw (type_available-thread o.type o xs n) v

-- A port whose queue is shorter by its head.
pub queue-neglected :
    (o : NtObject) (p : Packet) (rest : List Packet)
    → o.type ≡ completion
    → o.queue ≡ p ∷ rest
    → neglected o ≡ false
    → neglected (record o { queue = rest }) ≡ false
unfolding object_available
queue-neglected o p rest e q v = unwaited-neglected (record o { queue = rest }) (rw (e, q) at v)

consumed :
    (t : ObjType) (o : NtObject) (pid : ℕ)
    → ((type_consume t o pid).type ≡ o.type)
      × ((type_consume t o pid).waiters ≡ o.waiters)
      × ((same_type t semaphore ≡ true)
          ⊎ ((type_available t (type_consume t o pid) && not (type_available t o)) ≡ false))
consumed event o pid = ground arith
consumed mutant o pid = (refl, refl, inr refl)
consumed semaphore o pid = (refl, refl, inl refl)
consumed section o pid = (refl, refl, inr refl)
consumed completion o pid = (refl, refl, inr (ground arith))
consumed process o pid = (refl, refl, inr (ground arith))
consumed thread o pid = (refl, refl, inr (ground arith))

-- Consuming makes nothing available.
pub consume-neglected :
    (o : NtObject) (pid : ℕ) → neglected o ≡ false → neglected (consume o pid) ≡ false
unfolding consume object_available
consume-neglected o pid v =
    let (a, b, c) = consumed o.type o pid in rw (a, b) (ground (arith, v, c))

pub has_single-remove_first_for :
    (m : ℕ) (ws : List Waiter) → has_single (remove_first_for m ws) ≡ has_single ws
unfolding remove_first_for
has_single-remove_first_for m [] = refl
has_single-remove_first_for m (w ∷ ws) = ground (arith, has_single-remove_first_for m ws)

pub has_single-append :
    (ws : List Waiter) (w : Waiter)
    → has_single (ws ++ w ∷ []) ≡ (has_single ws || is_single w.multiwait)
has_single-append [] w = ground arith
has_single-append (x ∷ ws) w = ground (arith, has_single-append ws w)

pub take_single-none : (ws : List Waiter) → take_single ws ≡ none → has_single ws ≡ false
unfolding take_single
take_single-none [] e = refl
take_single-none (w ∷ ws) e = elim (Bool-cases (is_single w.multiwait)) [
  | inl t ↦ absurd (cc (rw t at e))
  | inr t ↦ elim (Option-cases (take_single ws)) [
    | inl n ↦ rw t (take_single-none ws n)
    | inr (r, n) ↦ absurd (cc (rw (t, n) at e))
  ]
]

pub take_single-some :
    (ws : List Waiter) (w : Waiter) (rest : List Waiter)
    → take_single ws ≡ some (w, rest)
    → has_single ws ≡ true
unfolding take_single
take_single-some [] w rest e = cc
take_single-some (x ∷ ws) w rest e = elim (Bool-cases (is_single x.multiwait)) [
  | inl t ↦ rw t refl
  | inr t ↦ elim (Option-cases (take_single ws)) [
    | inl n ↦ absurd (cc (rw (t, n) at e))
    | inr (r, n) ↦ rw t (take_single-some ws r.0 r.1 n)
  ]
]

pub same_type_eq : (a b : ObjType) → same_type a b ≡ true → a ≡ b
same_type_eq event event h = refl
same_type_eq mutant mutant h = refl
same_type_eq semaphore semaphore h = refl
same_type_eq section section h = refl
same_type_eq completion completion h = refl
same_type_eq process process h = refl
same_type_eq thread thread h = refl
same_type_eq a b h = cc
