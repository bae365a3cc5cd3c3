-- ===== src/Ntd/Answers/Waking.antt =====
-- The tally under the tries of multi-waits and the waking of waiters in ntd.c.
use ntlinux.Common.{
  ℕ, zero, suc, ℤ, pos, ◌+◌, ◌<◌, ◌≡◌, refl, Option, none, some, Bool, true, false, List, [], ◌∷◌,
  arith, if◌then◌else◌, All, All-lt_mono, Option-cases, Bool-cases, inl, inr, take,
}
use ntlinux.Ntabi.{success, max_slots}
use ntlinux.Ntd.State.{Ntd, Waiter, Multiwait, client_pid_of}
use ntlinux.Ntd.Waiters.{is_single, consume_object, object_available}
use ntlinux.Ntd.Multiwaits.{
  all_available, first_available, consume_all, finish_multiwait, try_satisfy_multiwait,
  multiwaits_of, try_all, notify_multiwaiters, take_single, wake_with, satisfy_one_waiter,
  satisfy_waiters,
}
use ntlinux.Ntd.Answers.Tally.{
  hit, waits_in, Below, IsRegistered, IsValid, Keeps, Keeps-refl, Moves-trans, Moves-cancel,
  put_object-Moves,
}
use ntlinux.Ntd.Answers.Writes.{complete-Moves, consume_object-Keeps}
use ntlinux.Ntd.Answers.Registering.{
  consume_all-Keeps, finish_multiwait-Keeps, multiwait_at-consume_all,
}

finish_all-Keeps :
    {s : Ntd} (k m pid : ℕ) (n : ℤ) (ids : List ℕ)
    → IsValid s
    → m < s.next_multiwait
    → (s.multiwait_at m).completed ≡ false
    → Keeps k s (finish_multiwait m n (consume_all ids pid s))
finish_all-Keeps {s} k m pid n ids v lt e =
    let a = consume_all-Keeps k pid ids v in
    Moves-trans a (
      finish_multiwait-Keeps k m n a.valid (omega arith)
        (rw (multiwait_at-consume_all ids pid s) e))

finish_one-Keeps :
    {s : Ntd} (k m pid : ℕ) (n : ℤ) (id : ℕ)
    → IsValid s
    → m < s.next_multiwait
    → (s.multiwait_at m).completed ≡ false
    → Keeps k s (finish_multiwait m n (consume_object id pid s))
unfolding consume_all
finish_one-Keeps k m pid n id v lt e = finish_all-Keeps k m pid n (id ∷ []) v lt e

-- Trying a multi-wait posts at most the answer that it still owes.
try_satisfy-Keeps :
    {s : Ntd} (k m : ℕ) → IsValid s → m < s.next_multiwait → Keeps k s (try_satisfy_multiwait m s)
unfolding try_satisfy_multiwait
try_satisfy-Keeps {s} k m v lt = elim (Bool-cases mw.completed) [
  | inl done ↦ rw done (Keeps-refl k v)
  | inr fresh ↦ elim (Bool-cases mw.wait_all) [
    | inl all ↦ elim (Bool-cases (all_available s.object_at mw.objects)) [
      | inl e ↦ rw (fresh, all, e) (finish_all-Keeps k m _ _ mw.objects v lt fresh)
      | inr e ↦ rw (fresh, all, e) (Keeps-refl k v)
    ]
    | inr any ↦ elim (Option-cases (first_available s.object_at mw.objects 0)) [
      | inl e ↦ rw (fresh, any, e) (Keeps-refl k v)
      | inr ((n, id), e) ↦ rw (fresh, any, e) (finish_one-Keeps k m _ _ id v lt fresh)
    ]
  ]
]
  where
    mw : Multiwait
    mw = s.multiwait_at m

try_all-Keeps :
    (k : ℕ) (ms : List ℕ) {s : Ntd}
    → IsValid s
    → All (λ m. m < s.next_multiwait) ms
    → Keeps k s (try_all ms s)
unfolding try_all
try_all-Keeps k [] v h = Keeps-refl k v
try_all-Keeps k (m ∷ ms) v h =
    let a = try_satisfy-Keeps k m v h.0 in
    Moves-trans a (try_all-Keeps k ms a.valid (All-lt_mono ms a.more_waits h.1))

multiwaits_of-lt :
    (n : ℕ) (ws : List Waiter) → All (IsRegistered n) ws → All (λ m. m < n) (multiwaits_of ws)
unfolding multiwaits_of
multiwaits_of-lt n [] h = tt
multiwaits_of-lt n (w ∷ ws) h = go w.multiwait h.0 (multiwaits_of-lt n ws h.1)
  where
    go :
        (m : Option ℕ)
        → Below n m
        → All (λ i. i < n) (multiwaits_of ws)
        → All (λ i. i < n) (elim m [ none ↦ multiwaits_of ws | some i ↦ i ∷ multiwaits_of ws ])
    go none b rest = rest
    go (some i) b rest = (b, rest)

All-take {ℓ κ} : {A : Type ℓ} (P : A → Type κ) (n : ℕ) (xs : List A) → All P xs → All P (take n xs)
All-take P zero xs h = tt
All-take P (suc n) [] h = tt
All-take P (suc n) (x ∷ xs) h = (h.0, All-take P n xs h.1)

pub notify_multiwaiters-Keeps :
    {s : Ntd} (k id : ℕ) → IsValid s → Keeps k s (notify_multiwaiters id s)
unfolding notify_multiwaiters
notify_multiwaiters-Keeps {s} k id v =
    try_all-Keeps k _ v
      (All-take _ max_slots _ (multiwaits_of-lt _ (s.object_at id).waiters (v.waiters_lt id)))

-- What `take_single` makes of a list: the waiter that it takes is one open wait of its slot.
abbrev pub Taken : ℕ → ℕ → List Waiter → Option (Waiter × List Waiter) → Type 0
Taken k n ws none = Unit {0}
Taken k n ws (some (w, rest)) =
    (waits_in k ws ≡ hit k w.slot_idx + waits_in k rest) × All (IsRegistered n) rest

pub take_single-Taken :
    (k n : ℕ) (ws : List Waiter) → All (IsRegistered n) ws → Taken k n ws (take_single ws)
unfolding take_single
take_single-Taken k n [] h = tt
take_single-Taken k n (x ∷ ws) h =
    go (is_single x.multiwait) (take_single ws) refl (take_single-Taken k n ws h.1)
  where
    go :
        (b : Bool) (r : Option (Waiter × List Waiter))
        → is_single x.multiwait ≡ b
        → Taken k n ws r
        → Taken k n
            (x ∷ ws)
            (if b then some (x, ws) else elim r [ none ↦ none | some (v, vs) ↦ some (v, x ∷ vs) ])
    go true r e t = (rw e refl, h.1)
    go false none e t = tt
    go false (some (v, vs)) e t = (rw e (omega arith), (h.0, t.1))

-- A single waiter leaves the list and is answered.
pub wake_with-Keeps :
    {s : Ntd} (k id : ℕ) (w : Waiter) (rest : List Waiter)
    → IsValid s
    → id < s.next_object_id
    → Taken k s.next_multiwait (s.object_at id).waiters (some (w, rest))
    → Keeps k s (wake_with id w rest s)
unfolding wake_with
wake_with-Keeps {s} k id w rest v lt t =
    let a = put_object-Moves k id (record (s.object_at id) { waiters = rest }) v lt t.1 in
    let b = consume_object-Keeps k id (client_pid_of s w.slot_idx) a.valid in
    let c = complete-Moves k w.slot_idx success 0 (pos 0) b.valid in
    Moves-cancel (Moves-trans (Moves-trans a b) c) (omega (arith, t.0))

pub satisfy_one-Keeps :
    {s : Ntd} (k id : ℕ) → IsValid s → id < s.next_object_id → Keeps k s (satisfy_one_waiter id s).1
unfolding satisfy_one_waiter
satisfy_one-Keeps {s} k id v lt = elim (Bool-cases (object_available (s.object_at id))) [
  | inl e ↦ rw e (go (take_single ws) (take_single-Taken k s.next_multiwait ws (v.waiters_lt id)))
  | inr e ↦ rw e (Keeps-refl k v)
]
  where
    ws : List Waiter
    ws = (s.object_at id).waiters

    go :
        (r : Option (Waiter × List Waiter))
        → Taken k s.next_multiwait ws r
        → Keeps k s (
            let p : Bool × Ntd = elim r [
              | none ↦ (false, s)
              | some (w, rest) ↦ (true, wake_with id w rest s)
            ] in
            p.1)
    go none t = Keeps-refl k v
    go (some (w, rest)) t = wake_with-Keeps k id w rest v lt t

pub satisfy_waiters-Keeps :
    (k fuel id : ℕ) {s : Ntd}
    → IsValid s
    → id < s.next_object_id
    → Keeps k s (satisfy_waiters fuel id s)
unfolding satisfy_waiters
satisfy_waiters-Keeps k zero id v lt = Keeps-refl k v
satisfy_waiters-Keeps k (suc fuel) id {s} v lt =
    let a = satisfy_one-Keeps k id v lt in
    go (satisfy_one_waiter id s).0
      (Moves-trans a (satisfy_waiters-Keeps k fuel id a.valid (omega arith))) a
  where
    go :
        (b : Bool)
        → Keeps k s (satisfy_waiters fuel id (satisfy_one_waiter id s).1)
        → Keeps k s (satisfy_one_waiter id s).1
        → Keeps k s (elim b [
          | true ↦ satisfy_waiters fuel id (satisfy_one_waiter id s).1
          | false ↦ (satisfy_one_waiter id s).1
        ])
    go true more last = more
    go false more last = last
