-- ===== src/Ntd/Sync.antt =====
-- ntd/ntd.c: the request handlers of Event, Mutant and Semaphore.
use ntlinux.Common.{
  ℕ, ℤ, pos, ◌+◌, none, some, Bool, true, false, ◌||◌, leb_ℤ, ltb_ℤ, add_i32, length, if◌then◌else◌,
}
use ntlinux.Ntabi.{
  Request, Status, success, invalid_handle, object_name_not_found, object_name_collision,
  object_type_mismatch, invalid_parameter,
}
use ntlinux.Ntd.State.{Ntd, NtObject, ObjType, event, mutant, semaphore, put_object}
use ntlinux.Ntd.Complete.{complete}
use ntlinux.Ntd.Handles.{find_handle, register_handle}
use ntlinux.Ntd.Objects.{find_by_name, create_object, same_type}
use ntlinux.Ntd.Multiwaits.{
  notify_multiwaiters, satisfy_one_waiter, satisfy_waiters, wake_all_waiters_success,
}

-- An answer that carries a status only.
unfoldable pub answer : Ntd → ℕ → Status → Ntd
answer s i status = complete s i status 0 (pos 0)

-- The opening lines of the handlers that work on a handle of one type: the two refusals, or the
-- rest of the handler at the object.
unfoldable pub with_object : Ntd → ℕ → Request → ObjType → (Status → Ntd) → (ℕ → Ntd) → Ntd
with_object s pid req type fail found = elim (find_handle pid req.handle s.handles) [
  | none ↦ fail invalid_handle
  | some id ↦ if same_type (s.object_at id).type type then found id else fail object_type_mismatch
]

-- Whether a name is given and taken: the guard of the create handlers.
unfoldable pub name_taken : Ntd → Request → Bool
name_taken s req = elim (find_by_name s req.name) [ none ↦ false | some id ↦ true ]

-- The new object gets its fields, a handle of `pid`, and the request its answer.
unfoldable pub create_with : ObjType → (NtObject → NtObject) → Request → ℕ → ℕ → Ntd → Ntd
create_with type init req i pid s =
    let (id, s1) = create_object type req.name s in
    let (h, s2) = register_handle pid id (put_object s1 id (init (s1.object_at id))) in
    complete s2 i success h (pos 0)

unfoldable pub handle_create_event : Request → ℕ → ℕ → Ntd → Ntd
handle_create_event req i pid s =
    if name_taken s req
    then answer s i object_name_collision
    else create_with event
        (λ o. record o { manual_reset = req.manual_reset; signaled = req.initial_state }) req i pid
        s

-- A handle of `pid` to the object at `id`, as the answer.
unfoldable pub give_handle : ℕ → ℕ → ℕ → Ntd → Ntd
give_handle id i pid s = let (h, s') = register_handle pid id s in complete s' i success h (pos 0)

unfoldable pub handle_open_typed : ObjType → Request → ℕ → ℕ → Ntd → Ntd
handle_open_typed type req i pid s = elim (find_by_name s req.name) [
  | none ↦ answer s i object_name_not_found
  | some id ↦
      if same_type (s.object_at id).type type
      then give_handle id i pid s
      else answer s i object_type_mismatch
]

unfoldable pub set_event : ℕ → Ntd → Ntd
set_event id s =
    let s1 = put_object s id (record (s.object_at id) { signaled = true }) in
    notify_multiwaiters id (
      if (s.object_at id).manual_reset
      then wake_all_waiters_success id s1
      else (satisfy_one_waiter id s1).1)

unfoldable pub handle_set_event : Request → ℕ → ℕ → Ntd → Ntd
handle_set_event req i pid s =
    with_object s pid req event (answer s i) (λ id. answer (set_event id s) i success)

unfoldable pub handle_reset_event : Request → ℕ → ℕ → Ntd → Ntd
handle_reset_event req i pid s =
    with_object s pid req event (answer s i)
      (λ id. answer (put_object s id (record (s.object_at id) { signaled = false })) i success)

unfoldable pub handle_create_mutant : Request → ℕ → ℕ → Ntd → Ntd
handle_create_mutant req i pid s =
    if name_taken s req
    then answer s i object_name_collision
    else create_with mutant
        (λ o. if req.initial_state then record o { owned = true; owner_pid = pid } else o) req i pid
        s

unfoldable pub release_mutant : ℕ → Ntd → Ntd
release_mutant id s =
    let s1 = put_object s id (record (s.object_at id) { owned = false }) in
    notify_multiwaiters id (satisfy_one_waiter id s1).1

-- The owner is not asked for: any process with a handle releases the mutant.
unfoldable pub handle_release_mutant : Request → ℕ → ℕ → Ntd → Ntd
handle_release_mutant req i pid s = with_object s pid req mutant (answer s i) λ id.
    if (s.object_at id).owned
    then answer (release_mutant id s) i success
    else answer s i invalid_parameter

abbrev pub bad_counts : Request → Bool
bad_counts req =
    leb_ℤ req.max_count (pos 0)
    || (ltb_ℤ req.initial_count (pos 0) || ltb_ℤ req.max_count req.initial_count)

unfoldable pub handle_create_semaphore : Request → ℕ → ℕ → Ntd → Ntd
handle_create_semaphore req i pid s =
    if bad_counts req
    then answer s i invalid_parameter
    else if name_taken s req
    then answer s i object_name_collision
    else create_with semaphore
        (λ o. record o { count = req.initial_count; max_count = req.max_count }) req i pid s

abbrev pub bad_release : Request → NtObject → Bool
bad_release req o =
    leb_ℤ req.release_count (pos 0) || ltb_ℤ o.max_count (add_i32 o.count req.release_count)

-- The loop ends by its test: each round that wakes a waiter shortens the list.
unfoldable pub release_semaphore : ℕ → ℤ → Ntd → Ntd
release_semaphore id n s =
    let o = s.object_at id in
    let s1 = put_object s id (record o { count = add_i32 o.count n }) in
    notify_multiwaiters id (satisfy_waiters (length o.waiters + 1) id s1)

unfoldable pub handle_release_semaphore : Request → ℕ → ℕ → Ntd → Ntd
handle_release_semaphore req i pid s = with_object s pid req semaphore (answer s i) λ id.
    if bad_release req (s.object_at id)
    then answer s i invalid_parameter
    else complete (release_semaphore id req.release_count s) i success 0 (s.object_at id).count
