-- ===== src/Ntd/Counts/Waits.antt =====
-- ntd/ntd.c: packets of completion ports, and the waits, change no link, handle or reference count.
use ntlinux.Common.{
  if◌then◌else◌, true, false, List-cases, ℕ, ℤ, pos, negsuc, ◌≡◌, refl, ◌∙◌, List, [], ◌∷◌, none,
  some, Bool, Bool-cases, Option-cases, inl, inr, ◌||◌, leb_ℤ, ltb_ℤ, eq_ℤ, pos_part, take,
}
use ntlinux.Ntabi.{
  Request, Packet, success, timeout, invalid_handle, invalid_parameter, object_type_mismatch,
  max_wait_handles,
}
use ntlinux.Ntd.State.{Ntd, Env, section, put_multiwait, Multiwait}
use ntlinux.Ntd.Handles.{find_handle}
use ntlinux.Ntd.Objects.{same_type}
use ntlinux.Ntd.Waiters.{object_available}
use ntlinux.Ntd.Multiwaits.{all_available, first_available, take_single}
use ntlinux.Ntd.Waits.{
  wait_on_handle, resolve_handles, add_waiters, register_multiwait, wait_later, wait_on_objects,
  handle_wait_multiple,
}
use ntlinux.Ntd.Ports.{
  deliver_packet, handle_post_completion, remove_packet, handle_remove_completion, no_packet,
}
use ntlinux.Ntd.Counts.{book, put_object-book}
use ntlinux.Ntd.Counts.Waking.{
  answer-book, complete_wait_multiple-book, add_waiter-book, consume_object-book, consume_all-book,
  notify-book,
}
use ntlinux.Ntd.Counts.Keeping.{complete_io-book, with_object-book}

module _ (k : ℕ) where
  deliver_packet-book : (id : ℕ) (p : Packet) (s : Ntd) → book k (deliver_packet id p s) ≡ book k s
  unfolding deliver_packet
  deliver_packet-book id p s = elim (Option-cases (take_single (s.object_at id).waiters)) [
    | inl e ↦ rw (deliver_packet, e) (put_object-book k s id _ refl refl)
    | inr ((w, rest), e) ↦
        rw (deliver_packet, e)
          (complete_io-book k _ w.slot_idx success p ∙ put_object-book k s id _ refl refl)
  ]

  if-book :
      (b : Bool) (x y s : Ntd)
      → book k x ≡ book k s
      → book k y ≡ book k s
      → book k (if b then x else y) ≡ book k s
  if-book true x y s e f = e
  if-book false x y s e f = f

  remove_packet-book :
      (env : Env) (req : Request) (id i : ℕ) (s : Ntd)
      → book k (remove_packet env req id i s) ≡ book k s
  unfolding remove_packet
  remove_packet-book env req id i s = elim (List-cases (s.object_at id).queue) [
    | inl e ↦ elim (Bool-cases (eq_ℤ req.timeout_ms (pos 0))) [
      | inl t ↦ rw (remove_packet, e, t) (complete_io-book k s i timeout no_packet)
      | inr t ↦ rw (remove_packet, e, t) (add_waiter-book k env id i none req.timeout_ms s)
    ]
    | inr (p, rest, e) ↦
        rw (remove_packet, e)
          (complete_io-book k _ i success p ∙ put_object-book k s id _ refl refl)
  ]

  pub post_completion-book :
      (req : Request) (i pid : ℕ) (s : Ntd) → book k (handle_post_completion req i pid s) ≡ book k s
  unfolding handle_post_completion
  post_completion-book req i pid s =
      with_object-book k s pid req _ _ _ (answer-book k s i)
        λ id. answer-book k _ i success ∙ notify-book k id _ ∙ deliver_packet-book id req.packet s

  pub remove_completion-book :
      (env : Env) (req : Request) (i pid : ℕ) (s : Ntd)
      → book k (handle_remove_completion env req i pid s) ≡ book k s
  unfolding handle_remove_completion
  remove_completion-book env req i pid s =
      with_object-book k s pid req _ _ _ (λ st. complete_io-book k s i st no_packet)
        λ id. remove_packet-book env req id i s

  pub wait_on_handle-book :
      (env : Env) (req : Request) (i pid : ℕ) (s : Ntd)
      → book k (wait_on_handle env req i pid s) ≡ book k s
  unfolding wait_on_handle
  wait_on_handle-book env req i pid s = elim (Option-cases (find_handle pid req.handle s.handles)) [
    | inl n ↦ rw (wait_on_handle, n) (answer-book k s i invalid_handle)
    | inr (id, n) ↦ elim (Bool-cases (same_type (s.object_at id).type section)) [
      | inl t ↦ rw (wait_on_handle, n, t) (answer-book k s i object_type_mismatch)
      | inr t ↦ elim (Bool-cases (object_available (s.object_at id))) [
        | inl a ↦
            rw (wait_on_handle, n, t, a)
              (answer-book k _ i success ∙ consume_object-book k id pid s)
        | inr a ↦ elim (Bool-cases (eq_ℤ req.timeout_ms (pos 0))) [
          | inl z ↦ rw (wait_on_handle, n, t, a, z) (answer-book k s i timeout)
          | inr z ↦
              rw (wait_on_handle, n, t, a, z) (add_waiter-book k env id i none req.timeout_ms s)
        ]
      ]
    ]
  ]

  add_waiters-book :
      (env : Env) (ids : List ℕ) (i m : ℕ) (t : ℤ) (s : Ntd)
      → book k (add_waiters env ids i m t s) ≡ book k s
  unfolding add_waiters
  add_waiters-book env [] i m t s = refl
  add_waiters-book env (id ∷ ids) i m t s =
      add_waiters-book env ids i m t _ ∙ add_waiter-book k env id i (some m) t s

  put_next-book :
      (s : Ntd) (m n : ℕ) (mw : Multiwait)
      → book k (record (put_multiwait s m mw) { next_multiwait = n }) ≡ book k s
  unfolding book
  put_next-book s m n mw = refl

  wait_later-book :
      (env : Env) (req : Request) (ids : List ℕ) (i : ℕ) (s : Ntd)
      → book k (wait_later env req ids i s) ≡ book k s
  unfolding wait_later register_multiwait
  wait_later-book env req ids i s = elim (Bool-cases (eq_ℤ req.timeout_ms (pos 0))) [
    | inl e ↦ rw e (complete_wait_multiple-book k s i timeout (negsuc 0))
    | inr e ↦ rw e (
        add_waiters-book env ids i s.next_multiwait req.timeout_ms _
        ∙ put_next-book s s.next_multiwait _ _)
  ]

  wait_on_objects-book :
      (env : Env) (req : Request) (ids : List ℕ) (i pid : ℕ) (s : Ntd)
      → book k (wait_on_objects env req ids i pid s) ≡ book k s
  unfolding wait_on_objects
  wait_on_objects-book env req ids i pid s =
      if-book req.wait_all _ _ s
        (if-book (all_available s.object_at ids) _ _ s
          (complete_wait_multiple-book k _ i success (negsuc 0) ∙ consume_all-book k ids pid s)
          (wait_later-book env req ids i s))
        (elim (Option-cases (first_available s.object_at ids 0)) [
          | inl a ↦ rw a (wait_later-book env req ids i s)
          | inr ((n, id), a) ↦
              rw a
                (complete_wait_multiple-book k _ i success (pos n) ∙ consume_object-book k id pid s)
        ])

  pub wait_multiple-book :
      (env : Env) (req : Request) (i pid : ℕ) (s : Ntd)
      → book k (handle_wait_multiple env req i pid s) ≡ book k s
  unfolding handle_wait_multiple
  wait_multiple-book env req i pid s =
      elim (Bool-cases
        (leb_ℤ req.handle_count (pos 0) || ltb_ℤ (pos max_wait_handles) req.handle_count)) [
          | inl b ↦ rw b (complete_wait_multiple-book k s i invalid_parameter (negsuc 0))
          | inr b ↦
              elim (Option-cases
                (resolve_handles pid (take (pos_part req.handle_count) req.handles) s)) [
                  | inl r ↦ rw (b, r) (complete_wait_multiple-book k s i invalid_handle (negsuc 0))
                  | inr (ids, r) ↦ rw (b, r) (wait_on_objects-book env req ids i pid s)
                ]
        ]
