-- ===== src/Ntd/Answers/Scans.antt =====
-- The tally under the scans of ntd.c that walk a waiter list, answer some of its waiters and keep
-- the others, and under the answers TIMEOUT of a sweep or a close.
use ntlinux.Common.{
  ℕ, pos, negsuc, ◌+◌, ◌≤◌, ◌<◌, ◌≡◌, refl, ap, ◌∙◌, true, update_self, Option, none, some, ◌&&◌,
  ◌==◌, List, [], ◌∷◌, arith, All, All-lt_mono, Bool-cases, inl, inr,
}
use ntlinux.Ntabi.{success, timeout}
use ntlinux.Ntd.State.{Ntd, Waiter, Env, Timespec, put_waiters}
use ntlinux.Ntd.Complete.{complete, complete_wait_multiple}
use ntlinux.Ntd.Waiters.{is_single}
use ntlinux.Ntd.Multiwaits.{set_completed, wake_scan, wake_all_waiters_success}
use ntlinux.Ntd.Sync.{answer}
use ntlinux.Ntd.Close.{
  time_out_multiwait, expire_waiter, is_expired, read_clock, expire_scan, expire_object,
  expire_objects, expire_timeouts,
}
use ntlinux.Ntd.Answers.Tally.{
  one_if, waits_in, waits_at, Below, IsRegistered, IsValid, Moves, Keeps, Keeps-refl, Moves-trans,
  Moves-cancel, Moves-rest, put_object-Moves,
}
use ntlinux.Ntd.Answers.Writes.{complete-Moves, complete_wait_multiple-Moves, answer-Moves}
use ntlinux.Ntd.Answers.Registering.{set_completed-Moves}

Below-mono : {m n : ℕ} (o : Option ℕ) → m ≤ n → Below m o → Below n o
Below-mono none h b = tt
Below-mono (some i) h b = omega arith

-- The result of a scan of the list `ws`: what it kept, and the state with the others answered.
record Scanned (k : ℕ) (ws : List Waiter) (s : Ntd) (r : List Waiter × Ntd) : Type 0 where
  moves : Moves k (waits_in k ws) (waits_in k r.0) s r.1
  kept : All (IsRegistered r.1.next_multiwait) r.0
  same : r.1.object_at ≡ s.object_at

-- Storing what a scan of an object's own list has kept ends its account.
scan-Keeps :
    {s : Ntd} (k id : ℕ) (r : List Waiter × Ntd)
    → id < s.next_object_id
    → Scanned k (s.object_at id).waiters s r
    → Keeps k s (put_waiters r.1 id r.0)
scan-Keeps {s} k id r lt c =
    let o = r.1.object_at id in
    let e : waits_at k o ≡ waits_at k (s.object_at id) = ap (λ f. waits_at k (f id)) c.same in
    let a =
      put_object-Moves k id (record o { waiters = r.0 }) c.moves.valid
        (omega (arith, c.moves.more_objects)) c.kept in
    Moves-cancel (Moves-trans c.moves a) (omega arith)

-- The head of the list has been answered on the way from `s` to `s1`.
scan_answered :
    {k : ℕ} {s s1 : Ntd} (w : Waiter) {ws : List Waiter} {r : List Waiter × Ntd}
    → Moves k (waits_in k (w ∷ [])) 0 s s1
    → s1.object_at ≡ s.object_at
    → Scanned k ws s1 r
    → Scanned k (w ∷ ws) s r
scan_answered w a e c = record {
  moves = Moves-cancel (Moves-trans a c.moves) (omega arith);
  kept = c.kept;
  same = c.same ∙ e;
}

-- The head of the list stays, and nothing is answered on the way from `s` to `s1`.
scan_kept :
    {k : ℕ} {s s1 : Ntd} (w : Waiter) {ws : List Waiter} {r : List Waiter × Ntd}
    → Keeps k s s1
    → s1.object_at ≡ s.object_at
    → IsRegistered s.next_multiwait w
    → Scanned k ws s1 r
    → Scanned k (w ∷ ws) s (w ∷ r.0, r.1)
scan_kept w a e h c = record {
  moves = Moves-cancel (Moves-trans a c.moves) (omega arith);
  kept = (Below-mono w.multiwait (omega (arith, a.more_waits, c.moves.more_waits)) h, c.kept);
  same = c.same ∙ e;
}

wake_scan-Scanned :
    (k : ℕ) (ws : List Waiter) {s : Ntd}
    → IsValid s
    → All (IsRegistered s.next_multiwait) ws
    → Scanned k ws s (wake_scan ws s)
unfolding wake_scan complete
wake_scan-Scanned k [] v h = record { moves = Keeps-refl k v; kept = tt; same = refl }
wake_scan-Scanned k (w ∷ ws) {s} v h = elim (Bool-cases (is_single w.multiwait)) [
  | inl e ↦
      let a = complete-Moves k w.slot_idx success 0 (pos 0) v in
      rw e (
        scan_answered w (Moves-cancel a (rw e (omega arith))) refl
          (wake_scan-Scanned k ws a.valid h.1))
  | inr e ↦ rw e (scan_kept w (Keeps-refl k v) refl h.0 (wake_scan-Scanned k ws v h.1))
]

pub wake_all-Keeps :
    {s : Ntd} (k id : ℕ)
    → IsValid s
    → id < s.next_object_id
    → Keeps k s (wake_all_waiters_success id s)
unfolding wake_all_waiters_success
wake_all-Keeps {s} k id v lt =
    scan-Keeps k id _ lt (wake_scan-Scanned k (s.object_at id).waiters v (v.waiters_lt id))

-- A multi-wait is timed out at most once.
pub time_out-Keeps :
    {s : Ntd} (k m : ℕ) → IsValid s → m < s.next_multiwait → Keeps k s (time_out_multiwait m s)
unfolding time_out_multiwait
time_out-Keeps {s} k m v lt = elim (Bool-cases (s.multiwait_at m).completed) [
  | inl e ↦ rw e (Keeps-refl k v)
  | inr e ↦
      let a = set_completed-Moves k m v lt e in
      let b =
        complete_wait_multiple-Moves k (s.multiwait_at m).slot_idx timeout (negsuc 0) a.valid in
      rw e (Moves-cancel (Moves-trans a b) (omega arith))
]

pub time_out-completed :
    (m : ℕ) (s : Ntd) → ((time_out_multiwait m s).multiwait_at m).completed ≡ true
unfolding time_out_multiwait complete_wait_multiple set_completed
time_out-completed m s = elim (Bool-cases (s.multiwait_at m).completed) [
  | inl e ↦ rw e e
  | inr e ↦ rw e (ap (λ x. x.completed) (update_self s.multiwait_at m _))
]

pub object_at-time_out : (m : ℕ) (s : Ntd) → (time_out_multiwait m s).object_at ≡ s.object_at
unfolding time_out_multiwait complete_wait_multiple set_completed
object_at-time_out m s = elim (Bool-cases (s.multiwait_at m).completed) [
  | inl e ↦ rw e refl
  | inr e ↦ rw e refl
]

-- An expired waiter is answered: by its own slot, or by its multi-wait's.
expire_waiter-Moves :
    {s : Ntd} (k : ℕ) (w : Waiter)
    → IsValid s
    → IsRegistered s.next_multiwait w
    → Moves k (waits_in k (w ∷ [])) 0 s (expire_waiter w s)
unfolding expire_waiter
expire_waiter-Moves {s} k w v h = go w.multiwait h
  where
    go :
        (m : Option ℕ)
        → Below s.next_multiwait m
        → Moves k
            (one_if (is_single m && w.slot_idx == k) + 0)
            0
            s
            (elim m [ none ↦ answer s w.slot_idx timeout | some i ↦ time_out_multiwait i s ])
    go none b = Moves-cancel (answer-Moves k w.slot_idx timeout v) (omega arith)
    go (some i) b = time_out-Keeps k i v b

object_at-expire_waiter : (w : Waiter) (s : Ntd) → (expire_waiter w s).object_at ≡ s.object_at
unfolding expire_waiter answer complete
object_at-expire_waiter w s = go w.multiwait
  where
    go :
        (m : Option ℕ)
        → let t : Ntd = elim m [
          | none ↦ answer s w.slot_idx timeout
          | some i ↦ time_out_multiwait i s
        ] in
          t.object_at ≡ s.object_at
    go none = refl
    go (some i) = object_at-time_out i s

read_clock-Keeps : {s : Ntd} (k : ℕ) (d : Option Timespec) → IsValid s → Keeps k s (read_clock d s)
read_clock-Keeps k none v = Keeps-refl k v
read_clock-Keeps {s} k (some d) v =
    Moves-rest (s.ticks + 1) s.next_section_id s.segments s.pidfds (Keeps-refl k v)

object_at-read_clock : (d : Option Timespec) (s : Ntd) → (read_clock d s).object_at ≡ s.object_at
object_at-read_clock none s = refl
object_at-read_clock (some d) s = refl

pub IsRegistered-mono :
    {m n : ℕ} (ws : List Waiter) → m ≤ n → All (IsRegistered m) ws → All (IsRegistered n) ws
IsRegistered-mono [] h v = tt
IsRegistered-mono (w ∷ ws) h v = (Below-mono w.multiwait h v.0, IsRegistered-mono ws h v.1)

expire_scan-Scanned :
    (env : Env) (k : ℕ) (ws : List Waiter) {s : Ntd}
    → IsValid s
    → All (IsRegistered s.next_multiwait) ws
    → Scanned k ws s (expire_scan env ws s)
unfolding expire_scan
expire_scan-Scanned env k [] v h = record { moves = Keeps-refl k v; kept = tt; same = refl }
expire_scan-Scanned env k (w ∷ ws) {s} v h = elim (Bool-cases (is_expired env s w.deadline)) [
  | inl e ↦
      let b = expire_waiter-Moves k w a.valid (Below-mono w.multiwait a.more_waits h.0) in
      rw e (
        scan_answered w (Moves-cancel (Moves-trans a b) (omega arith))
          (object_at-expire_waiter w s1 ∙ object_at-read_clock w.deadline s)
          (expire_scan-Scanned env k ws b.valid
            (IsRegistered-mono ws (omega (arith, a.more_waits, b.more_waits)) h.1)))
  | inr e ↦ rw e (
      scan_kept w a (object_at-read_clock w.deadline s) h.0
        (expire_scan-Scanned env k ws a.valid (IsRegistered-mono ws a.more_waits h.1)))
]
  where
    s1 : Ntd
    s1 = read_clock w.deadline s

    a : Keeps k s s1
    a = read_clock-Keeps k w.deadline v

expire_object-Keeps :
    {s : Ntd} (env : Env) (k id : ℕ)
    → IsValid s
    → id < s.next_object_id
    → Keeps k s (expire_object env id s)
unfolding expire_object
expire_object-Keeps {s} env k id v lt =
    scan-Keeps k id _ lt (expire_scan-Scanned env k (s.object_at id).waiters v (v.waiters_lt id))

expire_objects-Keeps :
    (env : Env) (k : ℕ) (ids : List ℕ) {s : Ntd}
    → IsValid s
    → All (λ i. i < s.next_object_id) ids
    → Keeps k s (expire_objects env ids s)
unfolding expire_objects
expire_objects-Keeps env k [] v h = Keeps-refl k v
expire_objects-Keeps env k (id ∷ ids) v h =
    let a = expire_object-Keeps env k id v h.0 in
    Moves-trans a (expire_objects-Keeps env k ids a.valid (All-lt_mono ids a.more_objects h.1))

-- The sweep of deadlines answers a wait exactly when it ends it.
pub expire_timeouts-Keeps :
    {s : Ntd} (env : Env) (k : ℕ) → IsValid s → Keeps k s (expire_timeouts env s)
unfolding expire_timeouts
expire_timeouts-Keeps {s} env k v = expire_objects-Keeps env k s.objects v v.objects_lt
