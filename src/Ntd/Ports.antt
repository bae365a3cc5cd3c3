-- ===== src/Ntd/Ports.antt =====
-- ntd/ntd.c: the request handlers of Section and I/O Completion.
use ntlinux.Common.{ℕ, pos, ◌+◌, [], ◌∷◌, ◌++◌, none, some, leb_ℤ, eq_ℤ, if◌then◌else◌}
use ntlinux.Ntabi.{
  Request, Status, Packet, success, timeout, object_name_not_found, object_name_collision,
  object_type_mismatch, invalid_parameter, internal_error,
}
use ntlinux.Ntd.State.{Ntd, Env, section, completion, put_object, put_waiters}
use ntlinux.Ntd.Complete.{complete_section, complete_io}
use ntlinux.Ntd.Handles.{register_handle}
use ntlinux.Ntd.Objects.{find_by_name, create_object, free_object, unlink, same_type}
use ntlinux.Ntd.Waiters.{add_waiter}
use ntlinux.Ntd.Multiwaits.{take_single, notify_multiwaiters}
use ntlinux.Ntd.Sync.{answer, with_object, name_taken, create_with}

abbrev pub section_answer : Ntd → ℕ → Status → Ntd
section_answer s i status = complete_section s i status 0 (pos 0) none

-- The new section object with its name, not backed yet.
unfoldable pub new_section : Request → Ntd → ℕ × Ntd
new_section req s =
    let (id, s1) = create_object section req.name s in
    let o = s1.object_at id in
    (
      id,
      record (put_object s1 id
          (record o { section_size = req.section_size; shm_name = some s.next_section_id })) {
            next_section_id = s.next_section_id + 1;
          },
    )

-- The handle and the answer of a section that exists.
unfoldable pub give_section : ℕ → ℕ → ℕ → Ntd → Ntd
give_section id i pid s =
    let (h, s1) = register_handle pid id s in
    let o = s1.object_at id in complete_section s1 i success h o.section_size o.shm_name

-- `shm_open` makes the segment `n`; a failed `ftruncate` unlinks it, and `free_object` unlinks the
-- name once more.
unfoldable pub back_section : Env → Request → ℕ → ℕ → ℕ → ℕ → Ntd → Ntd
back_section env req n id i pid s =
    if env.shm_open n
    then (let s1 = record s { segments = n ∷ s.segments } in
        if env.ftruncate n req.section_size
        then give_section id i pid s1
        else section_answer (free_object id (record s1 { segments = unlink n s1.segments })) i
            internal_error)
    else section_answer (free_object id s) i internal_error

unfoldable pub handle_create_section : Env → Request → ℕ → ℕ → Ntd → Ntd
handle_create_section env req i pid s =
    if leb_ℤ req.section_size (pos 0)
    then section_answer s i invalid_parameter
    else if name_taken s req
    then section_answer s i object_name_collision
    else (let (id, s1) = new_section req s in back_section env req s.next_section_id id i pid s1)

unfoldable pub handle_open_section : Request → ℕ → ℕ → Ntd → Ntd
handle_open_section req i pid s = elim (find_by_name s req.name) [
  | none ↦ section_answer s i object_name_not_found
  | some id ↦
      if same_type (s.object_at id).type section
      then give_section id i pid s
      else section_answer s i object_type_mismatch
]

unfoldable pub handle_create_completion : Request → ℕ → ℕ → Ntd → Ntd
handle_create_completion req i pid s =
    if name_taken s req
    then answer s i object_name_collision
    else create_with completion (λ o. o) req i pid s

-- Hand-off to the oldest single waiter, else the packet joins the queue.
unfoldable pub deliver_packet : ℕ → Packet → Ntd → Ntd
deliver_packet id p s =
    let o = s.object_at id in
    elim (take_single o.waiters) [
      | none ↦ put_object s id (record o { queue = o.queue ++ p ∷ [] })
      | some (w, rest) ↦ complete_io (put_waiters s id rest) w.slot_idx success p
    ]

unfoldable pub handle_post_completion : Request → ℕ → ℕ → Ntd → Ntd
handle_post_completion req i pid s =
    with_object s pid req completion (answer s i)
      λ id. answer (notify_multiwaiters id (deliver_packet id req.packet s)) i success

abbrev pub no_packet : Packet
no_packet = record { key = pos 0; bytes = pos 0; overlapped = 0 }

unfoldable pub remove_packet : Env → Request → ℕ → ℕ → Ntd → Ntd
remove_packet env req id i s = elim (s.object_at id).queue [
  | p ∷ rest ↦ complete_io (put_object s id (record (s.object_at id) { queue = rest })) i success p
  | [] ↦
      if eq_ℤ req.timeout_ms (pos 0)
      then complete_io s i timeout no_packet
      else add_waiter env id i none req.timeout_ms s
]

unfoldable pub handle_remove_completion : Env → Request → ℕ → ℕ → Ntd → Ntd
handle_remove_completion env req i pid s =
    with_object s pid req completion (λ st. complete_io s i st no_packet)
      λ id. remove_packet env req id i s
