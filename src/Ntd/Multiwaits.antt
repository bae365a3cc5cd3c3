-- ===== src/Ntd/Multiwaits.antt =====
-- ntd/ntd.c: satisfying waits, those on several objects and those on one.
use ntlinux.Common.{
  ℕ, zero, suc, ℤ, pos, negsuc, ◌+◌, List, [], ◌∷◌, Option, none, some, Bool, true, false, ◌&&◌,
  take, if◌then◌else◌,
}
use ntlinux.Ntabi.{success, max_slots}
use ntlinux.Ntd.State.{Ntd, NtObject, Waiter, put_multiwait, put_waiters, client_pid_of}
use ntlinux.Ntd.Complete.{complete, complete_wait_multiple}
use ntlinux.Ntd.Waiters.{is_single, remove_waiter_for_multiwait, object_available, consume_object}

unfoldable pub all_available : (ℕ → NtObject) → List ℕ → Bool
all_available at [] = true
all_available at (id ∷ ids) = object_available (at id) && all_available at ids

-- The first available object with its index, counted from `i`.
unfoldable pub first_available : (ℕ → NtObject) → List ℕ → ℕ → Option (ℕ × ℕ)
first_available at [] i = none
first_available at (id ∷ ids) i =
    if object_available (at id) then some (i, id) else first_available at ids (i + 1)

unfoldable pub consume_all : List ℕ → ℕ → Ntd → Ntd
consume_all [] pid s = s
consume_all (id ∷ ids) pid s = consume_all ids pid (consume_object id pid s)

unfoldable pub remove_all_for : ℕ → List ℕ → Ntd → Ntd
remove_all_for m [] s = s
remove_all_for m (id ∷ ids) s = remove_all_for m ids (remove_waiter_for_multiwait id m s)

unfoldable pub free_multiwait : ℕ → Ntd → Ntd
free_multiwait m s = put_multiwait s m (record (s.multiwait_at m) { freed = true })

unfoldable pub set_completed : ℕ → Ntd → Ntd
set_completed m s = put_multiwait s m (record (s.multiwait_at m) { completed = true })

-- The second half of `try_satisfy_multiwait`: the answer, and the clean-up.
unfoldable pub finish_multiwait : ℕ → ℤ → Ntd → Ntd
finish_multiwait m satisfied_idx s =
    let mw = s.multiwait_at m in
    free_multiwait m (
      remove_all_for m mw.objects
        (complete_wait_multiple (set_completed m s) mw.slot_idx success satisfied_idx))

unfoldable pub try_satisfy_multiwait : ℕ → Ntd → Ntd
try_satisfy_multiwait m s =
    let mw = s.multiwait_at m in
    let pid = client_pid_of s mw.slot_idx in
    if mw.completed
    then s
    else if mw.wait_all
    then (if all_available s.object_at mw.objects
        then finish_multiwait m (negsuc 0) (consume_all mw.objects pid s)
        else s)
    else elim (first_available s.object_at mw.objects 0) [
      | none ↦ s
      | some (i, id) ↦ finish_multiwait m (pos i) (consume_object id pid s)
    ]

-- The multi-waits of a waiter list.
unfoldable pub multiwaits_of : List Waiter → List ℕ
multiwaits_of [] = []
multiwaits_of (w ∷ ws) =
    let rest = multiwaits_of ws in elim w.multiwait [ none ↦ rest | some m ↦ m ∷ rest ]

unfoldable pub try_all : List ℕ → Ntd → Ntd
try_all [] s = s
try_all (m ∷ ms) s = try_all ms (try_satisfy_multiwait m s)

-- A snapshot of the list's multi-waits, at most 64, is tried in order.
unfoldable pub notify_multiwaiters : ℕ → Ntd → Ntd
notify_multiwaiters id s = try_all (take max_slots (multiwaits_of (s.object_at id).waiters)) s

-- The first waiter that belongs to no multi-wait, and the list without it.
unfoldable pub take_single : List Waiter → Option (Waiter × List Waiter)
take_single [] = none
take_single (w ∷ ws) =
    let rest = take_single ws in
    if is_single w.multiwait
    then some (w, ws)
    else elim rest [ none ↦ none | some (v, vs) ↦ some (v, w ∷ vs) ]

-- The waiter `w` has left the list: it takes what it waited for and is answered.
unfoldable pub wake_with : ℕ → Waiter → List Waiter → Ntd → Ntd
wake_with id w rest s =
    complete (consume_object id (client_pid_of s w.slot_idx) (put_waiters s id rest)) w.slot_idx
      success 0 (pos 0)

-- Whether a waiter was woken. A list with no waiter has no single one.
unfoldable pub satisfy_one_waiter : ℕ → Ntd → Bool × Ntd
satisfy_one_waiter id s =
    let o = s.object_at id in
    if object_available o
    then elim (take_single o.waiters) [
      | none ↦ (false, s)
      | some (w, rest) ↦ (true, wake_with id w rest s)
    ]
    else (false, s)

-- `while (satisfy_one_waiter(o))`
unfoldable pub satisfy_waiters : ℕ → ℕ → Ntd → Ntd
satisfy_waiters zero id s = s
satisfy_waiters (suc fuel) id s =
    let (woke, s') = satisfy_one_waiter id s in
    elim woke [ true ↦ satisfy_waiters fuel id s' | false ↦ s' ]

-- The waiters that stay, and the state with the others answered.
unfoldable pub wake_scan : List Waiter → Ntd → List Waiter × Ntd
wake_scan [] s = ([], s)
wake_scan (w ∷ ws) s =
    let (kept, s') =
      wake_scan ws (if is_single w.multiwait then complete s w.slot_idx success 0 (pos 0) else s) in
    (if is_single w.multiwait then kept else w ∷ kept, s')

unfoldable pub wake_all_waiters_success : ℕ → Ntd → Ntd
wake_all_waiters_success id s =
    let (kept, s') = wake_scan (s.object_at id).waiters s in put_waiters s' id kept
