-- ===== src/Ntd/State.antt =====
-- ntd/ntd.c: the daemon's data types and global state.
-- A pointer is an address: objects and multi-waits stand in memory that is a function from
-- addresses, and an address is never used again. An object's address is its `id`. A linked list is
-- the list of what it links: `g_objects` is the list of the addresses of its objects.
use ntlinux.Common.{ℕ, ℤ, Bool, List, Option, ◌+◌, update}
use ntlinux.Ntabi.{Apc, Packet, Shm, Slot, Response}

-- `obj_type_t`
pub data ObjType : Type 0 where
  event mutant semaphore section completion process thread : ObjType

-- `struct timespec`
pub record Timespec : Type 0 where
  pub tv_sec : ℕ
  pub tv_nsec : ℕ

-- `multiwait_t`. `objects` has `handle_count` entries; `pending_refs` is written and never read.
-- `freed` records the call of `free`.
pub record Multiwait : Type 0 where
  pub slot_idx : ℕ
  pub wait_all : Bool
  pub handles : List ℤ
  pub objects : List ℕ
  pub completed : Bool
  pub freed : Bool

-- `waiter_t`. The deadline is there if `has_deadline` is set.
pub record Waiter : Type 0 where
  pub slot_idx : ℕ
  pub multiwait : Option ℕ
  pub deadline : Option Timespec

-- `nt_object_t`
pub record NtObject : Type 0 where
  pub type : ObjType
  pub name : List ℕ
  pub refcount : ℕ
  pub signaled : Bool
  pub manual_reset : Bool
  pub owned : Bool
  pub owner_pid : ℕ
  pub count : ℤ
  pub max_count : ℤ
  pub section_size : ℤ
  pub shm_name : Option ℕ
  pub queue : List Packet
  pub target_pid : ℕ
  pub pidfd : Option ℕ
  pub process_exited : Bool
  pub target_tid : ℕ
  pub thread_exited : Bool
  pub suspend_count : ℤ
  pub apcs : List Apc
  pub waiters : List Waiter

-- `handle_entry_t`. A local handle is at least 1.
pub record HandleEntry : Type 0 where
  pub owner_pid : ℕ
  pub local_handle : ℕ
  pub object : ℕ

-- The globals. `ticks` counts the readings of the monotonic clock, `segments` and `pidfds` are the
-- POSIX shm names and descriptors that ntd has opened and not given back to the operating system.
pub record Ntd : Type 0 where
  pub shm : Shm
  pub objects : List ℕ
  pub object_at : ℕ → NtObject
  pub handles : List HandleEntry
  pub next_object_id : ℕ
  pub next_section_id : ℕ
  pub multiwait_at : ℕ → Multiwait
  pub next_multiwait : ℕ
  pub ticks : ℕ
  pub segments : List ℕ
  pub pidfds : List ℕ

-- What the operating system answers while a request is processed: the n-th reading of
-- CLOCK_MONOTONIC, `pidfd_open`, `poll` for POLLIN, `access` of /proc/<pid>/task/<tid>, and whether
-- `shm_open` with O_EXCL and `ftruncate` succeed.
pub record Env : Type 0 where
  pub clock : ℕ → Timespec
  pub pidfd_open : ℕ → Option ℕ
  pub poll_in : ℕ → Bool
  pub task_exists : ℕ → ℕ → Bool
  pub shm_open : ℕ → Bool
  pub ftruncate : ℕ → ℤ → Bool

-- Writing a field through a pointer.
abbrev pub put_object : Ntd → ℕ → NtObject → Ntd
put_object s id o = record s { object_at = update s.object_at id o }

abbrev pub put_multiwait : Ntd → ℕ → Multiwait → Ntd
put_multiwait s m mw = record s { multiwait_at = update s.multiwait_at m mw }

abbrev pub put_waiters : Ntd → ℕ → List Waiter → Ntd
put_waiters s id ws = put_object s id (record (s.object_at id) { waiters = ws })

abbrev pub slot_at : Ntd → ℕ → Slot
slot_at s i = s.shm.slots i

abbrev pub client_pid_of : Ntd → ℕ → ℕ
client_pid_of s i = (s.shm.slots i).client_pid

-- A response is stored in its slot, and the slot's semaphore is posted.
unfoldable pub post : Ntd → ℕ → Response → Ntd
post s i r = record s {
  shm = record s.shm {
    slots =
        update s.shm.slots i
          (record (s.shm.slots i) { resp = r; ready = (s.shm.slots i).ready + 1 });
  };
}
