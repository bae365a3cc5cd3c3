-- ===== src/Ntd/Waiters.antt =====
-- ntd/ntd.c: waiter lists, and whether an object is available and what a wait takes from it.
use ntlinux.Common.{
  ℕ, ℤ, pos, negsuc, ◌+◌, List, [], ◌∷◌, ◌++◌, Option, none, some, Bool, true, false, not, ◌==◌,
  ltb_ℤ, add_i32, if◌then◌else◌,
}
use ntlinux.Ntabi.{Packet}
use ntlinux.Ntd.State.{
  Ntd, NtObject, Waiter, Env, ObjType, event, mutant, semaphore, section, completion, process,
  thread, put_object, put_waiters,
}
use ntlinux.Ntd.Timeouts.{deadline_from_timeout}

-- A waiter at the end of the list. A negative timeout sets no deadline and reads no clock.
unfoldable pub add_waiter : Env → ℕ → ℕ → Option ℕ → ℤ → Ntd → Ntd
add_waiter env id slot_idx mw (pos timeout_ms) s =
    let w : Waiter = record {
      slot_idx = slot_idx;
      multiwait = mw;
      deadline = some (deadline_from_timeout (env.clock s.ticks) timeout_ms);
    } in
    record (put_waiters s id ((s.object_at id).waiters ++ w ∷ [])) { ticks = s.ticks + 1 }
add_waiter env id slot_idx mw (negsuc n) s =
    let w : Waiter = record { slot_idx = slot_idx; multiwait = mw; deadline = none } in
    put_waiters s id ((s.object_at id).waiters ++ w ∷ [])

-- The registration of multi-wait `m`.
abbrev pub is_for : ℕ → Option ℕ → Bool
is_for m none = false
is_for m (some k) = k == m

abbrev pub is_single : Option ℕ → Bool
is_single none = true
is_single (some k) = false

-- The list without the first waiter of multi-wait `m`.
unfoldable pub remove_first_for : ℕ → List Waiter → List Waiter
remove_first_for m [] = []
remove_first_for m (w ∷ ws) = if is_for m w.multiwait then ws else w ∷ remove_first_for m ws

unfoldable pub remove_waiter_for_multiwait : ℕ → ℕ → Ntd → Ntd
remove_waiter_for_multiwait id m s = put_waiters s id (remove_first_for m (s.object_at id).waiters)

abbrev pub has_packet : List Packet → Bool
has_packet [] = false
has_packet (p ∷ ps) = true

abbrev pub type_available : ObjType → NtObject → Bool
type_available event o = o.signaled
type_available mutant o = not o.owned
type_available semaphore o = ltb_ℤ (pos 0) o.count
type_available process o = o.process_exited
type_available thread o = o.thread_exited
type_available section o = false
type_available completion o = has_packet o.queue

unfoldable pub object_available : NtObject → Bool
object_available o = type_available o.type o

abbrev pub type_consume : ObjType → NtObject → ℕ → NtObject
type_consume event o pid = if o.manual_reset then o else record o { signaled = false }
type_consume mutant o pid = record o { owned = true; owner_pid = pid }
type_consume semaphore o pid = record o { count = add_i32 o.count (negsuc 0) }
type_consume process o pid = o
type_consume thread o pid = o
type_consume section o pid = o
type_consume completion o pid = o

unfoldable pub consume : NtObject → ℕ → NtObject
consume o pid = type_consume o.type o pid

unfoldable pub consume_object : ℕ → ℕ → Ntd → Ntd
consume_object id pid s = put_object s id (consume (s.object_at id) pid)
