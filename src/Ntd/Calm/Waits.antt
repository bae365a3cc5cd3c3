-- ===== src/Ntd/Calm/Waits.antt =====
-- ntd/ntd.c: the waits leave nobody at an object that is available: who may have it takes it at once.
use ntlinux.Common.{
  ℕ, ℤ, pos, negsuc, ◌≡◌, refl, List, [], ◌∷◌, none, some, false, Bool-cases, Option-cases,
  List-cases, inl, inr, ◌||◌, leb_ℤ, ltb_ℤ, eq_ℤ, pos_part, take,
}
use ntlinux.Ntabi.{
  Request, success, timeout, invalid_handle, invalid_parameter, object_type_mismatch,
  max_wait_handles,
}
use ntlinux.Ntd.State.{Ntd, NtObject, Env, section, completion, put_object}
use ntlinux.Ntd.Handles.{find_handle}
use ntlinux.Ntd.Objects.{same_type}
use ntlinux.Ntd.Waiters.{object_available}
use ntlinux.Ntd.Multiwaits.{all_available, first_available}
use ntlinux.Ntd.Waits.{
  wait_on_handle, resolve_handles, add_waiters, register_multiwait, wait_later, wait_on_objects,
  handle_wait_multiple,
}
use ntlinux.Ntd.Ports.{remove_packet, handle_remove_completion, no_packet}
use ntlinux.Ntd.Calm.{Calm, put-Calm, queue-neglected}
use ntlinux.Ntd.Calm.Waking.{
  answer-Calm, complete_wait_multiple-Calm, add_waiter-Calm, consume_object-Calm, consume_all-Calm,
  if-Calm,
}
use ntlinux.Ntd.Calm.Handlers.{complete_io-Calm, with_object-Calm}

port_available : (o : NtObject) → o.type ≡ completion → o.queue ≡ [] → object_available o ≡ false
unfolding object_available
port_available o e q = rw (e, q) refl

remove_packet-Calm :
    (env : Env) (req : Request) (id i : ℕ) (s : Ntd)
    → Calm s
    → (s.object_at id).type ≡ completion
    → Calm (remove_packet env req id i s)
unfolding remove_packet
remove_packet-Calm env req id i s v t = elim (List-cases o.queue) [
  | inl e ↦
      rw (remove_packet, e)
        (if-Calm (eq_ℤ req.timeout_ms (pos 0)) _ _ (λ z. complete_io-Calm s i timeout no_packet v)
          λ z. add_waiter-Calm env id i none req.timeout_ms s v (inr (port_available o t e)))
  | inr (p, rest, e) ↦
      rw (remove_packet, e)
        (complete_io-Calm (put_object s id (record o { queue = rest })) i success p
          (put-Calm s id (record o { queue = rest }) v (queue-neglected o p rest t e (v id))))
]
  where
    o : NtObject
    o = s.object_at id

pub remove_completion-Calm :
    (env : Env) (req : Request) (i pid : ℕ) (s : Ntd)
    → Calm s
    → Calm (handle_remove_completion env req i pid s)
unfolding handle_remove_completion
remove_completion-Calm env req i pid s v =
    with_object-Calm s pid req completion _ _ (λ st. complete_io-Calm s i st no_packet v)
      λ id e. remove_packet-Calm env req id i s v e

pub wait_on_handle-Calm :
    (env : Env) (req : Request) (i pid : ℕ) (s : Ntd)
    → Calm s
    → Calm (wait_on_handle env req i pid s)
unfolding wait_on_handle
wait_on_handle-Calm env req i pid s v = elim (Option-cases (find_handle pid req.handle s.handles)) [
  | inl n ↦ rw (wait_on_handle, n) (answer-Calm s i invalid_handle v)
  | inr (id, n) ↦
      rw (wait_on_handle, n)
        (if-Calm (same_type (s.object_at id).type section) _ _
          (λ t. answer-Calm s i object_type_mismatch v)
          λ t.
            if-Calm (object_available (s.object_at id)) _ _
              (λ a. answer-Calm _ i success (consume_object-Calm id pid s v))
              λ a.
                if-Calm (eq_ℤ req.timeout_ms (pos 0)) _ _ (λ z. answer-Calm s i timeout v)
                  λ z. add_waiter-Calm env id i none req.timeout_ms s v (inr a))
]

add_waiters-Calm :
    (env : Env) (ids : List ℕ) (i m : ℕ) (t : ℤ) (s : Ntd)
    → Calm s
    → Calm (add_waiters env ids i m t s)
unfolding add_waiters
add_waiters-Calm env [] i m t s v = v
add_waiters-Calm env (id ∷ ids) i m t s v =
    add_waiters-Calm env ids i m t _ (add_waiter-Calm env id i (some m) t s v (inl refl))

wait_later-Calm :
    (env : Env) (req : Request) (ids : List ℕ) (i : ℕ) (s : Ntd)
    → Calm s
    → Calm (wait_later env req ids i s)
unfolding wait_later register_multiwait
wait_later-Calm env req ids i s v =
    if-Calm (eq_ℤ req.timeout_ms (pos 0)) _ _
      (λ e. complete_wait_multiple-Calm s i timeout (negsuc 0) v)
      λ e. add_waiters-Calm env ids i s.next_multiwait req.timeout_ms _ v

wait_on_objects-Calm :
    (env : Env) (req : Request) (ids : List ℕ) (i pid : ℕ) (s : Ntd)
    → Calm s
    → Calm (wait_on_objects env req ids i pid s)
unfolding wait_on_objects
wait_on_objects-Calm env req ids i pid s v =
    if-Calm req.wait_all _ _
      (λ all.
        if-Calm (all_available s.object_at ids) _ _
          (λ a. complete_wait_multiple-Calm _ i success (negsuc 0) (consume_all-Calm ids pid s v))
          λ a. wait_later-Calm env req ids i s v)
      λ any. elim (Option-cases (first_available s.object_at ids 0)) [
        | inl a ↦ rw a (wait_later-Calm env req ids i s v)
        | inr ((n, id), a) ↦
            rw a (complete_wait_multiple-Calm _ i success (pos n) (consume_object-Calm id pid s v))
      ]

pub wait_multiple-Calm :
    (env : Env) (req : Request) (i pid : ℕ) (s : Ntd)
    → Calm s
    → Calm (handle_wait_multiple env req i pid s)
unfolding handle_wait_multiple
wait_multiple-Calm env req i pid s v =
    elim (Bool-cases
      (leb_ℤ req.handle_count (pos 0) || ltb_ℤ (pos max_wait_handles) req.handle_count)) [
        | inl b ↦ rw b (complete_wait_multiple-Calm s i invalid_parameter (negsuc 0) v)
        | inr b ↦
            elim (Option-cases
              (resolve_handles pid (take (pos_part req.handle_count) req.handles) s)) [
                | inl r ↦ rw (b, r) (complete_wait_multiple-Calm s i invalid_handle (negsuc 0) v)
                | inr (ids, r) ↦ rw (b, r) (wait_on_objects-Calm env req ids i pid s v)
              ]
      ]
