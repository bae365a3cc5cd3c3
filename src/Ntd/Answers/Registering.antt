-- ===== src/Ntd/Answers/Registering.antt =====
-- The tally under the registering and the clearing of waits in ntd.c.
use ntlinux.Common.{
  ℕ, ℤ, pos, negsuc, ◌+◌, ◌<◌, ◌≡◌, refl, ap, ◌∙◌, update_self, true, Option, false, ◌&&◌, ◌==◌,
  List, [], ◌∷◌, ◌++◌, arith, All, Bool-cases, inl, inr,
}
use ntlinux.Ntabi.{success}
use ntlinux.Ntd.State.{Ntd, Waiter, Env, put_waiters}
use ntlinux.Ntd.Complete.{complete_wait_multiple}
use ntlinux.Ntd.Waiters.{
  is_single, is_for, consume_object, add_waiter, remove_first_for, remove_waiter_for_multiwait,
}
use ntlinux.Ntd.Multiwaits.{
  consume_all, remove_all_for, free_multiwait, set_completed, finish_multiwait,
}
use ntlinux.Ntd.Answers.Tally.{
  hit, one_if, waits_in, Below, IsRegistered, IsValid, Moves, Keeps, Keeps-refl, Moves-trans,
  Moves-cancel, Moves-rest, put_object-Moves, put_multiwait-Moves,
}
use ntlinux.Ntd.Answers.Writes.{
  complete_wait_multiple-Moves, put_object-Keeps, consume_object-Keeps,
}

waits_in-append :
    (k : ℕ) (ws : List Waiter) (w : Waiter)
    → waits_in k (ws ++ w ∷ []) ≡ waits_in k ws + one_if (is_single w.multiwait && w.slot_idx == k)
waits_in-append k [] w = omega arith
waits_in-append k (x ∷ ws) w = omega (arith, waits_in-append k ws w)

IsRegistered-append :
    (n : ℕ) (ws : List Waiter) (w : Waiter)
    → All (IsRegistered n) ws
    → IsRegistered n w
    → All (IsRegistered n) (ws ++ w ∷ [])
IsRegistered-append n [] w h hw = (hw, tt)
IsRegistered-append n (x ∷ ws) w h hw = (h.0, IsRegistered-append n ws w h.1 hw)

push_waiter-Moves :
    {s : Ntd} (k id : ℕ) (w : Waiter)
    → IsValid s
    → id < s.next_object_id
    → IsRegistered s.next_multiwait w
    → Moves k
        (one_if (is_single w.multiwait && w.slot_idx == k))
        0
        s
        (put_waiters s id ((s.object_at id).waiters ++ w ∷ []))
push_waiter-Moves {s} k id w v lt h =
    Moves-cancel
      (put_object-Moves k id _ v lt
        (IsRegistered-append _ (s.object_at id).waiters w (v.waiters_lt id) h))
      (omega (arith, waits_in-append k (s.object_at id).waiters w))

-- A registration is an open wait, if it is not for a multi-wait.
pub add_waiter-Moves :
    {s : Ntd} (env : Env) (k id i : ℕ) (mw : Option ℕ) (t : ℤ)
    → IsValid s
    → id < s.next_object_id
    → Below s.next_multiwait mw
    → Moves k (one_if (is_single mw && i == k)) 0 s (add_waiter env id i mw t s)
unfolding add_waiter
add_waiter-Moves {s} env k id i mw (pos n) v lt h =
    Moves-rest _ s.next_section_id s.segments s.pidfds (push_waiter-Moves k id _ v lt h)
add_waiter-Moves env k id i mw (negsuc n) v lt h = push_waiter-Moves k id _ v lt h

waits_in-remove_first_for :
    (k m : ℕ) (ws : List Waiter) → waits_in k (remove_first_for m ws) ≡ waits_in k ws
unfolding remove_first_for
waits_in-remove_first_for k m [] = refl
waits_in-remove_first_for k m (w ∷ ws) = ground (arith, waits_in-remove_first_for k m ws)

remove_first_for-IsRegistered :
    (n m : ℕ) (ws : List Waiter)
    → All (IsRegistered n) ws
    → All (IsRegistered n) (remove_first_for m ws)
unfolding remove_first_for
remove_first_for-IsRegistered n m [] h = tt
remove_first_for-IsRegistered n m (w ∷ ws) h = elim (Bool-cases (is_for m w.multiwait)) [
  | inl e ↦ rw e h.1
  | inr e ↦ rw e (h.0, remove_first_for-IsRegistered n m ws h.1)
]

pub remove_waiter-Keeps :
    {s : Ntd} (k id m : ℕ) → IsValid s → Keeps k s (remove_waiter_for_multiwait id m s)
unfolding remove_waiter_for_multiwait
remove_waiter-Keeps {s} k id m v =
    put_object-Keeps k id _ (waits_in-remove_first_for k m (s.object_at id).waiters)
      (remove_first_for-IsRegistered _ m (s.object_at id).waiters (v.waiters_lt id)) v

remove_all_for-Keeps :
    (k m : ℕ) (ids : List ℕ) {s : Ntd} → IsValid s → Keeps k s (remove_all_for m ids s)
unfolding remove_all_for
remove_all_for-Keeps k m [] v = Keeps-refl k v
remove_all_for-Keeps k m (id ∷ ids) v =
    let a = remove_waiter-Keeps k id m v in Moves-trans a (remove_all_for-Keeps k m ids a.valid)

pub free_multiwait-Keeps :
    {s : Ntd} (k m : ℕ)
    → IsValid s
    → m < s.next_multiwait
    → (s.multiwait_at m).completed ≡ true
    → Keeps k s (free_multiwait m s)
unfolding free_multiwait
free_multiwait-Keeps {s} k m v lt e = Moves-cancel (put_multiwait-Moves k m _ v lt e) (omega arith)

-- Completing an open multi-wait takes one wait away.
pub set_completed-Moves :
    {s : Ntd} (k m : ℕ)
    → IsValid s
    → m < s.next_multiwait
    → (s.multiwait_at m).completed ≡ false
    → Moves k 0 (hit k (s.multiwait_at m).slot_idx) s (set_completed m s)
unfolding set_completed
set_completed-Moves {s} k m v lt e =
    Moves-cancel (put_multiwait-Moves k m _ v lt (ground arith)) (rw e (omega arith))

multiwait_at-remove_all_for :
    (m : ℕ) (ids : List ℕ) (s : Ntd) → (remove_all_for m ids s).multiwait_at ≡ s.multiwait_at
unfolding remove_all_for remove_waiter_for_multiwait
multiwait_at-remove_all_for m [] s = refl
multiwait_at-remove_all_for m (id ∷ ids) s = multiwait_at-remove_all_for m ids _

answered :
    (m : ℕ) (n : ℤ) (s : Ntd)
    → ((remove_all_for m (s.multiwait_at m).objects (
          complete_wait_multiple
            (set_completed m s)
            (s.multiwait_at m).slot_idx
            success
            n)).multiwait_at
        m).completed
      ≡ true
unfolding complete_wait_multiple set_completed
answered m n s =
    ap (λ at. (at m).completed) (multiwait_at-remove_all_for m (s.multiwait_at m).objects _)
    ∙ ap (λ x. x.completed) (update_self s.multiwait_at m _)

pub finish_multiwait-Keeps :
    {s : Ntd} (k m : ℕ) (n : ℤ)
    → IsValid s
    → m < s.next_multiwait
    → (s.multiwait_at m).completed ≡ false
    → Keeps k s (finish_multiwait m n s)
unfolding finish_multiwait
finish_multiwait-Keeps {s} k m n v lt e =
    let a = set_completed-Moves k m v lt e in
    let b = complete_wait_multiple-Moves k (s.multiwait_at m).slot_idx success n a.valid in
    let c = remove_all_for-Keeps k m (s.multiwait_at m).objects b.valid in
    let d = free_multiwait-Keeps k m c.valid (omega arith) (answered m n s) in
    Moves-cancel (Moves-trans (Moves-trans a b) (Moves-trans c d)) (omega arith)

pub multiwait_at-consume_all :
    (ids : List ℕ) (pid : ℕ) (s : Ntd) → (consume_all ids pid s).multiwait_at ≡ s.multiwait_at
unfolding consume_all consume_object
multiwait_at-consume_all [] pid s = refl
multiwait_at-consume_all (id ∷ ids) pid s = multiwait_at-consume_all ids pid _

pub consume_all-Keeps :
    (k pid : ℕ) (ids : List ℕ) {s : Ntd} → IsValid s → Keeps k s (consume_all ids pid s)
unfolding consume_all
consume_all-Keeps k pid [] v = Keeps-refl k v
consume_all-Keeps k pid (id ∷ ids) v =
    let a = consume_object-Keeps k id pid v in Moves-trans a (consume_all-Keeps k pid ids a.valid)
