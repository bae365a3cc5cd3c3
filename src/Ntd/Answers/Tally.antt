-- ===== src/Ntd/Answers/Tally.antt =====
-- The answers of the daemon: how often a slot's semaphore was posted, and how many waits of that
-- slot are still open. Every step of ntd.c is described by what it adds and what it takes away.
use ntlinux.Common.{
  ℕ, ◌+◌, ◌≤◌, ◌<◌, ◌≡◌, Option, none, some, Bool, not, ◌&&◌, ◌||◌, true, ◌==◌, List, [], ◌∷◌,
  arith, if◌then◌else◌, All, update-elim,
}
use ntlinux.Common.Sums.{sum_below, sum_below-update, sum_below-update_above}
use ntlinux.Ntabi.{Response}
use ntlinux.Ntd.State.{Ntd, NtObject, Waiter, Multiwait, post, put_object, put_multiwait, slot_at}
use ntlinux.Ntd.Waiters.{is_single}

abbrev pub one_if : Bool → ℕ
one_if b = if b then 1 else 0

-- Whether slot `i` is slot `k`, as a number.
abbrev pub hit : ℕ → ℕ → ℕ
hit k i = one_if (i == k)

-- The waits of slot `k` on one object, and whether a multi-wait is an open wait of slot `k`.
abbrev pub waits_in : ℕ → List Waiter → ℕ
waits_in k [] = 0
waits_in k (w ∷ ws) = one_if (is_single w.multiwait && w.slot_idx == k) + waits_in k ws

abbrev pub wait_of : ℕ → Multiwait → ℕ
wait_of k mw = one_if (not mw.completed && mw.slot_idx == k)

abbrev pub waits_at : ℕ → NtObject → ℕ
waits_at k o = waits_in k o.waiters

-- The open waits of slot `k`.
unfoldable pub open_waits : ℕ → Ntd → ℕ
open_waits k s =
    sum_below s.next_object_id (λ id. waits_at k (s.object_at id))
    + sum_below s.next_multiwait (λ m. wait_of k (s.multiwait_at m))

-- Posts of slot `k` and its open waits.
unfoldable pub tally : ℕ → Ntd → ℕ
unfolding open_waits
tally k s = (slot_at s k).ready + open_waits k s

abbrev pub Below : ℕ → Option ℕ → Type 0
Below n none = Unit {0}
Below n (some m) = m < n

abbrev pub IsRegistered : ℕ → Waiter → Type 0
IsRegistered n w = Below n w.multiwait

-- A multi-wait is freed only after it was answered.
abbrev pub IsDone : Multiwait → Type 0
IsDone mw = (not mw.freed || mw.completed) ≡ true

-- No handle, list or waiter names an address that was never allocated, and no multi-wait is freed
-- that is still to be answered.
pub record IsValid (s : Ntd) : Type 0 where
  pub handles_lt : All (λ e. e.object < s.next_object_id) s.handles
  pub objects_lt : All (λ id. id < s.next_object_id) s.objects
  pub waiters_lt : (id : ℕ) → All (IsRegistered s.next_multiwait) (s.object_at id).waiters
  pub freed_done : (m : ℕ) → IsDone (s.multiwait_at m)

-- From `s` to `t` the tally of slot `k` gains `gain` and loses `loss`, and addresses only grow.
pub record Moves (k gain loss : ℕ) (s t : Ntd) : Type 0 where
  pub valid : IsValid t
  pub more_objects : s.next_object_id ≤ t.next_object_id
  pub more_waits : s.next_multiwait ≤ t.next_multiwait
  pub balance : tally k t + loss ≡ tally k s + gain

abbrev pub Keeps : ℕ → Ntd → Ntd → Type 0
Keeps k s t = Moves k 0 0 s t

pub Keeps-refl : {s : Ntd} (k : ℕ) → IsValid s → Keeps k s s
Keeps-refl k v = record {
  valid = v;
  more_objects = omega arith;
  more_waits = omega arith;
  balance = omega arith;
}

pub Moves-trans :
    {k g l g' l' : ℕ} {s t u : Ntd}
    → Moves k g l s t
    → Moves k g' l' t u
    → Moves k (g + g') (l + l') s u
Moves-trans a b = record {
  valid = b.valid;
  more_objects = omega arith;
  more_waits = omega arith;
  balance = omega arith;
}

-- Equal gain and loss cancel.
pub Moves-cancel :
    {k g l g' l' : ℕ} {s t : Ntd} → Moves k g l s t → g + l' ≡ g' + l → Moves k g' l' s t
Moves-cancel a e = record {
  valid = a.valid;
  more_objects = a.more_objects;
  more_waits = a.more_waits;
  balance = omega arith;
}

-- An answer adds one post.
pub post-Moves : {s : Ntd} (k i : ℕ) (r : Response) → IsValid s → Moves k (hit k i) 0 s (post s i r)
unfolding post tally
post-Moves {s} k i r v = record {
  valid = record {
    handles_lt = v.handles_lt;
    objects_lt = v.objects_lt;
    waiters_lt = v.waiters_lt;
    freed_done = v.freed_done;
  };
  more_objects = omega arith;
  more_waits = omega arith;
  balance = ground arith;
}

-- A write to an object exchanges its waits.
pub put_object-Moves :
    {s : Ntd} (k id : ℕ) (o : NtObject)
    → IsValid s
    → id < s.next_object_id
    → All (IsRegistered s.next_multiwait) o.waiters
    → Moves k (waits_at k o) (waits_at k (s.object_at id)) s (put_object s id o)
unfolding tally
put_object-Moves {s} k id o v lt h = record {
  valid = record {
    handles_lt = v.handles_lt;
    objects_lt = v.objects_lt;
    waiters_lt =
        update-elim (λ x. All (IsRegistered s.next_multiwait) x.waiters) s.object_at id o h
          v.waiters_lt;
    freed_done = v.freed_done;
  };
  more_objects = omega arith;
  more_waits = omega arith;
  balance = omega (arith, sum_below-update (waits_at k) s.next_object_id s.object_at id o lt);
}

-- A write to an address that was never allocated changes no sum.
pub put_object_above :
    {s : Ntd} (k id : ℕ) (o : NtObject)
    → IsValid s
    → s.next_object_id ≤ id
    → All (IsRegistered s.next_multiwait) o.waiters
    → Keeps k s (put_object s id o)
unfolding tally
put_object_above {s} k id o v ge h = record {
  valid = record {
    handles_lt = v.handles_lt;
    objects_lt = v.objects_lt;
    waiters_lt =
        update-elim (λ x. All (IsRegistered s.next_multiwait) x.waiters) s.object_at id o h
          v.waiters_lt;
    freed_done = v.freed_done;
  };
  more_objects = omega arith;
  more_waits = omega arith;
  balance = omega (arith, sum_below-update_above (waits_at k) s.next_object_id s.object_at id o ge);
}

-- A write to a multi-wait exchanges its wait.
pub put_multiwait-Moves :
    {s : Ntd} (k m : ℕ) (mw : Multiwait)
    → IsValid s
    → m < s.next_multiwait
    → IsDone mw
    → Moves k (wait_of k mw) (wait_of k (s.multiwait_at m)) s (put_multiwait s m mw)
unfolding tally
put_multiwait-Moves {s} k m mw v lt d = record {
  valid = record {
    handles_lt = v.handles_lt;
    objects_lt = v.objects_lt;
    waiters_lt = v.waiters_lt;
    freed_done = update-elim IsDone s.multiwait_at m mw d v.freed_done;
  };
  more_objects = omega arith;
  more_waits = omega arith;
  balance = omega (arith, sum_below-update (wait_of k) s.next_multiwait s.multiwait_at m mw lt);
}

-- What the clock, the section ids and the operating system's resources are does not matter.
pub Moves-rest :
    {k g l : ℕ} {s t : Ntd} (ticks n : ℕ) (segments pidfds : List ℕ)
    → Moves k g l s t
    → Moves k g l s
        (record t { ticks = ticks; next_section_id = n; segments = segments; pidfds = pidfds })
unfolding tally
Moves-rest ticks n segments pidfds m = record {
  valid = record {
    handles_lt = m.valid.handles_lt;
    objects_lt = m.valid.objects_lt;
    waiters_lt = m.valid.waiters_lt;
    freed_done = m.valid.freed_done;
  };
  more_objects = m.more_objects;
  more_waits = m.more_waits;
  balance = m.balance;
}
