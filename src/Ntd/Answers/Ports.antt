-- ===== src/Ntd/Answers/Ports.antt =====
-- The answers of the handlers of Section and I/O Completion in ntd.c.
use ntlinux.Common.{
  ℕ, ℤ, pos, ◌+◌, ◌<◌, refl, Option, none, some, List, [], ◌∷◌, ◌++◌, arith, if◌then◌else◌, if-elim,
  Option-cases, inl, inr, leb_ℤ, eq_ℤ,
}
use ntlinux.Ntabi.{Request, Status, Packet, success, timeout, internal_error}
use ntlinux.Ntd.State.{Ntd, Waiter, Env, section, completion, put_object, put_waiters}
use ntlinux.Ntd.Complete.{complete_section, complete_io}
use ntlinux.Ntd.Objects.{create_object, find_by_name, same_type}
use ntlinux.Ntd.Waiters.{add_waiter}
use ntlinux.Ntd.Multiwaits.{take_single}
use ntlinux.Ntd.Sync.{name_taken}
use ntlinux.Ntd.Ports.{
  new_section, give_section, back_section, handle_create_section, handle_open_section,
  handle_create_completion, deliver_packet, handle_post_completion, no_packet, remove_packet,
  handle_remove_completion,
}
use ntlinux.Ntd.Answers.Tally.{
  IsValid, Keeps, Keeps-refl, Moves-trans, Moves-cancel, Moves-rest, post-Moves, put_object-Moves,
}
use ntlinux.Ntd.Answers.Writes.{
  answer-Moves, put_fields-Keeps, create_object-Keeps, register_handle-Keeps, find_by_name-lt,
  with_object-elim,
}
use ntlinux.Ntd.Answers.Waking.{Taken, take_single-Taken, notify_multiwaiters-Keeps}
use ntlinux.Ntd.Answers.Registering.{add_waiter-Moves}
use ntlinux.Ntd.Answers.Sync.{
  Answers, then_answers, next-create_object, create_with-Answers, unless_taken,
}
use ntlinux.Ntd.Answers.Close.{free_object-Keeps}

complete_section_moves :
    {s : Ntd} (k i : ℕ) (st : Status) (h : ℕ) (size : ℤ) (name : Option ℕ)
    → IsValid s
    → Answers k i s (complete_section s i st h size name)
unfolding complete_section
complete_section_moves k i st h size name v = post-Moves k i _ v

complete_io_moves :
    {s : Ntd} (k i : ℕ) (st : Status) (p : Packet)
    → IsValid s
    → Answers k i s (complete_io s i st p)
unfolding complete_io
complete_io_moves k i st p v = post-Moves k i _ v

give_section-Answers :
    {s : Ntd} (k id i pid : ℕ)
    → IsValid s
    → id < s.next_object_id
    → Answers k i s (give_section id i pid s)
unfolding give_section
give_section-Answers k id i pid v lt =
    let a = register_handle-Keeps k pid id v lt in
    then_answers a (complete_section_moves k i success _ _ _ a.valid)

back_section-Answers :
    {s : Ntd} (env : Env) (k : ℕ) (req : Request) (n id i pid : ℕ)
    → IsValid s
    → id < s.next_object_id
    → Answers k i s (back_section env req n id i pid s)
unfolding back_section
back_section-Answers {s} env k req n id i pid v lt =
    let keep =
      λ (segs : List ℕ). Moves-rest s.ticks s.next_section_id segs s.pidfds (Keeps-refl k v) in
    let failed = λ (segs : List ℕ).
      let a = keep segs in
      let b = free_object-Keeps k id a.valid in
      then_answers (Moves-trans a b)
        (complete_section_moves k i internal_error 0 (pos 0) none b.valid) in
    if-elim (Answers k i s) (env.shm_open n)
      (if-elim (Answers k i s) (env.ftruncate n req.section_size)
        (then_answers (keep _) (give_section-Answers k id i pid (keep _).valid lt)) (failed _))
      (failed s.segments)

module _ (k : ℕ) (req : Request) (i pid : ℕ) {s : Ntd} (v : IsValid s) where
  pub create_section-Answers : (env : Env) → Answers k i s (handle_create_section env req i pid s)
  unfolding handle_create_section new_section
  create_section-Answers env =
      let id = (create_object section req.name s).0 in
      let a = create_object-Keeps k section req.name v in
      let b = put_fields-Keeps k id _ refl a.valid in
      let c = Moves-rest _ (s.next_section_id + 1) _ _ (Moves-trans a b) in
      if-elim (Answers k i s) (leb_ℤ req.section_size (pos 0))
        (complete_section_moves k i _ 0 (pos 0) none v)
        (if-elim (Answers k i s) (name_taken s req) (complete_section_moves k i _ 0 (pos 0) none v)
          (then_answers c (
            back_section-Answers env k req s.next_section_id id i pid c.valid
              (next-create_object section req.name s))))

  pub open_section-Answers : Answers k i s (handle_open_section req i pid s)
  unfolding handle_open_section
  open_section-Answers = elim (Option-cases (find_by_name s req.name)) [
    | inl e ↦ rw (e, handle_open_section) (complete_section_moves k i _ 0 (pos 0) none v)
    | inr (id, e) ↦
        rw (e, handle_open_section)
          (if-elim (Answers k i s) (same_type (s.object_at id).type section)
            (give_section-Answers k id i pid v (find_by_name-lt req.name v e))
            (complete_section_moves k i _ 0 (pos 0) none v))
  ]

  pub create_completion-Answers : Answers k i s (handle_create_completion req i pid s)
  unfolding handle_create_completion
  create_completion-Answers =
      unless_taken k i _ v (create_with-Answers k completion _ req i pid (λ o. refl) v)

  deliver_packet-Keeps :
      (id : ℕ) (p : Packet) → id < s.next_object_id → Keeps k s (deliver_packet id p s)
  unfolding deliver_packet
  deliver_packet-Keeps id p lt =
      go (take_single ws) (take_single-Taken k s.next_multiwait ws (v.waiters_lt id))
    where
      ws : List Waiter
      ws = (s.object_at id).waiters

      go :
          (r : Option (Waiter × List Waiter))
          → Taken k s.next_multiwait ws r
          → Keeps k s (elim r [
            | none ↦
                put_object s id
                  (record (s.object_at id) { queue = (s.object_at id).queue ++ p ∷ [] })
            | some (w, rest) ↦ complete_io (put_waiters s id rest) w.slot_idx success p
          ])
      go none t = put_fields-Keeps k id _ refl v
      go (some (w, rest)) t =
          let a = put_object-Moves k id (record (s.object_at id) { waiters = rest }) v lt t.1 in
          Moves-cancel (Moves-trans a (complete_io_moves k w.slot_idx success p a.valid))
            (omega (arith, t.0))

  pub post_completion-Answers : Answers k i s (handle_post_completion req i pid s)
  unfolding handle_post_completion
  post_completion-Answers =
      with_object-elim (Answers k i s) pid req completion v (λ st. answer-Moves k i st v)
        λ id lt.
          let a = deliver_packet-Keeps id req.packet lt in
          let b = notify_multiwaiters-Keeps k id a.valid in
          then_answers (Moves-trans a b) (answer-Moves k i success b.valid)

  remove_packet-Answers :
      (env : Env) (id : ℕ) → id < s.next_object_id → Answers k i s (remove_packet env req id i s)
  unfolding remove_packet
  remove_packet-Answers env id lt = go (s.object_at id).queue
    where
      go :
          (q : List Packet)
          → Answers k i s (elim q [
            | p ∷ rest ↦
                complete_io (put_object s id (record (s.object_at id) { queue = rest })) i success p
            | [] ↦
                if eq_ℤ req.timeout_ms (pos 0)
                then complete_io s i timeout no_packet
                else add_waiter env id i none req.timeout_ms s
          ])
      go (p ∷ rest) =
          let a = put_fields-Keeps k id (record (s.object_at id) { queue = rest }) refl v in
          then_answers a (complete_io_moves k i success p a.valid)
      go [] =
          if-elim (Answers k i s) _ (complete_io_moves k i timeout no_packet v)
            (add_waiter-Moves env k id i none req.timeout_ms v lt tt)

  pub remove_completion-Answers :
      (env : Env) → Answers k i s (handle_remove_completion env req i pid s)
  unfolding handle_remove_completion
  remove_completion-Answers env =
      with_object-elim (Answers k i s) pid req completion v
        (λ st. complete_io_moves k i st no_packet v) λ id lt. remove_packet-Answers env id lt
