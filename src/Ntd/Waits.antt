-- ===== src/Ntd/Waits.antt =====
-- ntd/ntd.c: WAIT_SINGLE with its alertable form, and WAIT_MULTIPLE.
use ntlinux.Common.{
  ℕ, ℤ, pos, negsuc, pos_part, ◌+◌, List, [], ◌∷◌, Option, none, some, false, ◌||◌, leb_ℤ, ltb_ℤ,
  eq_ℤ, take, if◌then◌else◌,
}
use ntlinux.Ntabi.{
  Request, success, timeout, invalid_handle, object_type_mismatch, invalid_parameter, user_apc,
  max_wait_handles,
}
use ntlinux.Ntd.State.{Ntd, Env, Multiwait, section, put_object, put_multiwait, slot_at}
use ntlinux.Ntd.Complete.{complete_apc, complete_wait_multiple}
use ntlinux.Ntd.Handles.{find_handle}
use ntlinux.Ntd.Objects.{find_or_create_thread_object, same_type}
use ntlinux.Ntd.Waiters.{add_waiter, object_available, consume_object}
use ntlinux.Ntd.Multiwaits.{all_available, first_available, consume_all}
use ntlinux.Ntd.Sync.{answer}

-- The wait on the object that the handle names.
unfoldable pub wait_on_handle : Env → Request → ℕ → ℕ → Ntd → Ntd
wait_on_handle env req i pid s = elim (find_handle pid req.handle s.handles) [
  | none ↦ answer s i invalid_handle
  | some id ↦
      if same_type (s.object_at id).type section
      then answer s i object_type_mismatch
      else if object_available (s.object_at id)
      then answer (consume_object id pid s) i success
      else if eq_ℤ req.timeout_ms (pos 0)
      then answer s i timeout
      else add_waiter env id i none req.timeout_ms s
]

-- An alertable wait first looks at the APCs of the calling thread's own object, which it makes if
-- there is none.
unfoldable pub handle_wait_single : Env → Request → ℕ → ℕ → Ntd → Ntd
handle_wait_single env req i pid s =
    if req.alertable
    then (let (self, s1) = find_or_create_thread_object pid (slot_at s i).client_tid s in
        elim (s1.object_at self).apcs [
          | [] ↦ wait_on_handle env req i pid s1
          | a ∷ rest ↦
              complete_apc (put_object s1 self (record (s1.object_at self) { apcs = rest })) i
                user_apc a
        ])
    else wait_on_handle env req i pid s

-- The objects of the handles; none if one is not valid, or is a section.
unfoldable pub resolve_handles : ℕ → List ℤ → Ntd → Option (List ℕ)
resolve_handles pid [] s = some []
resolve_handles pid (h ∷ hs) s =
    let rest = resolve_handles pid hs s in
    elim (find_handle pid h s.handles) [
      | none ↦ none
      | some id ↦
          if same_type (s.object_at id).type section
          then none
          else elim rest [ none ↦ none | some ids ↦ some (id ∷ ids) ]
    ]

unfoldable pub add_waiters : Env → List ℕ → ℕ → ℕ → ℤ → Ntd → Ntd
add_waiters env [] i m timeout_ms s = s
add_waiters env (id ∷ ids) i m timeout_ms s =
    add_waiters env ids i m timeout_ms (add_waiter env id i (some m) timeout_ms s)

-- The last lines: a `multiwait_t` that no early exit has freed, registered with each object.
unfoldable pub register_multiwait : Env → Request → List ℕ → ℕ → Ntd → Ntd
register_multiwait env req ids i s =
    let m = s.next_multiwait in
    let mw : Multiwait = record {
      slot_idx = i;
      wait_all = req.wait_all;
      handles = take (pos_part req.handle_count) req.handles;
      objects = ids;
      completed = false;
      freed = false;
    } in
    add_waiters env ids i m req.timeout_ms
      (record (put_multiwait s m mw) { next_multiwait = m + 1 })

-- The part behind the immediate tries.
unfoldable pub wait_later : Env → Request → List ℕ → ℕ → Ntd → Ntd
wait_later env req ids i s =
    if eq_ℤ req.timeout_ms (pos 0)
    then complete_wait_multiple s i timeout (negsuc 0)
    else register_multiwait env req ids i s

unfoldable pub wait_on_objects : Env → Request → List ℕ → ℕ → ℕ → Ntd → Ntd
wait_on_objects env req ids i pid s =
    if req.wait_all
    then (if all_available s.object_at ids
        then complete_wait_multiple (consume_all ids pid s) i success (negsuc 0)
        else wait_later env req ids i s)
    else elim (first_available s.object_at ids 0) [
      | none ↦ wait_later env req ids i s
      | some (k, id) ↦ complete_wait_multiple (consume_object id pid s) i success (pos k)
    ]

unfoldable pub handle_wait_multiple : Env → Request → ℕ → ℕ → Ntd → Ntd
handle_wait_multiple env req i pid s =
    if leb_ℤ req.handle_count (pos 0) || ltb_ℤ (pos max_wait_handles) req.handle_count
    then complete_wait_multiple s i invalid_parameter (negsuc 0)
    else elim (resolve_handles pid (take (pos_part req.handle_count) req.handles) s) [
      | none ↦ complete_wait_multiple s i invalid_handle (negsuc 0)
      | some ids ↦ wait_on_objects env req ids i pid s
    ]
