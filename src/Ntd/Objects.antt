-- ===== src/Ntd/Objects.antt =====
-- ntd/ntd.c: the object table, thread objects included.
use ntlinux.Common.{
  ℕ, pos, ◌+◌, ◌-◌, List, [], ◌∷◌, Option, none, some, Bool, true, false, ◌&&◌, ◌==◌, bytes_eq,
  take, if◌then◌else◌, update,
}
use ntlinux.Ntabi.{max_name}
use ntlinux.Ntd.State.{
  Ntd, NtObject, ObjType, event, mutant, semaphore, section, completion, process, thread,
  put_object,
}

abbrev pub same_type : ObjType → ObjType → Bool
same_type event event = true
same_type mutant mutant = true
same_type semaphore semaphore = true
same_type section section = true
same_type completion completion = true
same_type process process = true
same_type thread thread = true
same_type _ _ = false

abbrev pub is_empty : List ℕ → Bool
is_empty [] = true
is_empty (c ∷ cs) = false

-- The first object of the list that passes a test.
unfoldable pub find_object : (NtObject → Bool) → (ℕ → NtObject) → List ℕ → Option ℕ
find_object p at [] = none
find_object p at (id ∷ ids) = if p (at id) then some id else find_object p at ids

unfoldable pub find_by_name : Ntd → List ℕ → Option ℕ
find_by_name s name =
    if is_empty name then none else find_object (λ o. bytes_eq o.name name) s.object_at s.objects

-- What `calloc` and `create_object` make of a new object.
abbrev pub blank : ObjType → List ℕ → NtObject
blank type name = record {
  type = type;
  name = take (max_name - 1) name;
  refcount = 0;
  signaled = false;
  manual_reset = false;
  owned = false;
  owner_pid = 0;
  count = pos 0;
  max_count = pos 0;
  section_size = pos 0;
  shm_name = none;
  queue = [];
  target_pid = 0;
  pidfd = none;
  process_exited = false;
  target_tid = 0;
  thread_exited = false;
  suspend_count = pos 0;
  apcs = [];
  waiters = [];
}

unfoldable pub create_object : ObjType → List ℕ → Ntd → ℕ × Ntd
create_object type name s = (
  s.next_object_id,
  record s {
    objects = s.next_object_id ∷ s.objects;
    object_at = update s.object_at s.next_object_id (blank type name);
    next_object_id = s.next_object_id + 1;
  },
)

-- Unlinking the first occurrence.
unfoldable pub unlink : ℕ → List ℕ → List ℕ
unlink x [] = []
unlink x (y ∷ ys) = if y == x then ys else y ∷ unlink x ys

abbrev pub unlink_some : Option ℕ → List ℕ → List ℕ
unlink_some none xs = xs
unlink_some (some x) xs = unlink x xs

-- The packets and APCs that the object still queues are freed with it.
unfoldable pub free_object : ℕ → Ntd → Ntd
free_object id s =
    let o = s.object_at id in
    record s {
      objects = unlink id s.objects;
      segments = if same_type o.type section then unlink_some o.shm_name s.segments else s.segments;
      pidfds = if same_type o.type process then unlink_some o.pidfd s.pidfds else s.pidfds;
    }

unfoldable pub find_thread_object : Ntd → ℕ → ℕ → Option ℕ
find_thread_object s pid tid =
    find_object (λ o. same_type o.type thread && o.target_pid == pid && o.target_tid == tid)
      s.object_at s.objects

unfoldable pub find_or_create_thread_object : ℕ → ℕ → Ntd → ℕ × Ntd
find_or_create_thread_object pid tid s = elim (find_thread_object s pid tid) [
  | some id ↦ (id, s)
  | none ↦
      let (id, s') = create_object thread [] s in
      (id, put_object s' id (record (s'.object_at id) { target_pid = pid; target_tid = tid }))
]
