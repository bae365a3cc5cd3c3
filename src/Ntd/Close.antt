-- ===== src/Ntd/Close.antt =====
-- ntd/ntd.c: CLOSE_HANDLE, and the sweep of waiters whose deadline has passed.
use ntlinux.Common.{
  ℕ, negsuc, ◌+◌, ◌-◌, List, [], ◌∷◌, Option, none, some, Bool, false, ◌==◌, if◌then◌else◌,
}
use ntlinux.Ntabi.{Request, success, timeout, invalid_handle}
use ntlinux.Ntd.State.{Ntd, Env, Waiter, Timespec, put_object, put_waiters}
use ntlinux.Ntd.Complete.{complete_wait_multiple}
use ntlinux.Ntd.Handles.{remove_handle_entry}
use ntlinux.Ntd.Objects.{free_object}
use ntlinux.Ntd.Timeouts.{timespec_past}
use ntlinux.Ntd.Waiters.{remove_waiter_for_multiwait}
use ntlinux.Ntd.Multiwaits.{free_multiwait, set_completed}
use ntlinux.Ntd.Sync.{answer}

-- The answer TIMEOUT to a multi-wait, once.
unfoldable pub time_out_multiwait : ℕ → Ntd → Ntd
time_out_multiwait m s =
    let mw = s.multiwait_at m in
    if mw.completed
    then s
    else complete_wait_multiple (set_completed m s) mw.slot_idx timeout (negsuc 0)

-- The registrations of `m` go, but for those with the object at `id`.
unfoldable pub remove_from_others : ℕ → ℕ → List ℕ → Ntd → Ntd
remove_from_others id m [] s = s
remove_from_others id m (k ∷ ks) s =
    remove_from_others id m ks (if k == id then s else remove_waiter_for_multiwait k m s)

-- What becomes of a waiter of the object at `id` when that object goes.
unfoldable pub fail_waiter : ℕ → Waiter → Ntd → Ntd
fail_waiter id w s = elim w.multiwait [
  | none ↦ answer s w.slot_idx timeout
  | some m ↦
      free_multiwait m (remove_from_others id m (s.multiwait_at m).objects (time_out_multiwait m s))
]

unfoldable pub fail_waiters : ℕ → List Waiter → Ntd → Ntd
fail_waiters id [] s = s
fail_waiters id (w ∷ ws) s = fail_waiters id ws (fail_waiter id w s)

-- The last handle of the object is gone.
unfoldable pub drop_object : ℕ → Ntd → Ntd
drop_object id s = free_object id (put_waiters (fail_waiters id (s.object_at id).waiters s) id [])

-- `refcount` counts handles, so it is at least 1 before the decrement.
unfoldable pub release_reference : ℕ → Ntd → Ntd
release_reference id s =
    let o = s.object_at id in
    let s1 = put_object s id (record o { refcount = o.refcount - 1 }) in
    if o.refcount - 1 == 0 then drop_object id s1 else s1

unfoldable pub handle_close_handle : Request → ℕ → ℕ → Ntd → Ntd
handle_close_handle req i pid s =
    let (o, rest) = remove_handle_entry pid req.handle s.handles in
    elim o [
      | none ↦ answer s i invalid_handle
      | some id ↦ answer (release_reference id (record s { handles = rest })) i success
    ]

-- Whether the waiter is expired, at the next reading of the clock.
unfoldable pub is_expired : Env → Ntd → Option Timespec → Bool
is_expired env s none = false
is_expired env s (some d) = timespec_past (env.clock s.ticks) d

abbrev pub read_clock : Option Timespec → Ntd → Ntd
read_clock none s = s
read_clock (some d) s = record s { ticks = s.ticks + 1 }

unfoldable pub expire_waiter : Waiter → Ntd → Ntd
expire_waiter w s = elim w.multiwait [
  | none ↦ answer s w.slot_idx timeout
  | some m ↦ time_out_multiwait m s
]

-- The waiters that stay, and the state with the expired ones answered.
unfoldable pub expire_scan : Env → List Waiter → Ntd → List Waiter × Ntd
expire_scan env [] s = ([], s)
expire_scan env (w ∷ ws) s =
    let past = is_expired env s w.deadline in
    let s1 = read_clock w.deadline s in
    let (kept, s2) = expire_scan env ws (if past then expire_waiter w s1 else s1) in
    (if past then kept else w ∷ kept, s2)

unfoldable pub expire_object : Env → ℕ → Ntd → Ntd
expire_object env id s =
    let (kept, s') = expire_scan env (s.object_at id).waiters s in put_waiters s' id kept

unfoldable pub expire_objects : Env → List ℕ → Ntd → Ntd
expire_objects env [] s = s
expire_objects env (id ∷ ids) s = expire_objects env ids (expire_object env id s)

unfoldable pub expire_timeouts : Env → Ntd → Ntd
expire_timeouts env s = expire_objects env s.objects s
