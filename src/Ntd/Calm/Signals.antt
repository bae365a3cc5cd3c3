-- ===== src/Ntd/Calm/Signals.antt =====
-- ntd/ntd.c: an object that becomes available is offered to those who wait for it alone.
use ntlinux.Common.{
  ℕ, zero, suc, ℤ, pos, ◌≡◌, refl, ap, ◌∙◌, List, [], ◌∷◌, true, false, Bool-cases, Option-cases,
  inl, inr, update, update_self,
}
use ntlinux.Ntabi.{success, Packet}
use ntlinux.Ntd.State.{
  Ntd, NtObject, Waiter, event, mutant, semaphore, put_object, put_waiters, post, client_pid_of,
}
use ntlinux.Ntd.Complete.{complete, complete_io}
use ntlinux.Ntd.Waiters.{is_single, object_available, consume, consume_object}
use ntlinux.Ntd.Multiwaits.{
  take_single, wake_with, satisfy_one_waiter, satisfy_waiters, wake_scan, wake_all_waiters_success,
}
use ntlinux.Ntd.Sync.{set_event, release_mutant, release_semaphore}
use ntlinux.Ntd.Ports.{deliver_packet}
use ntlinux.Ntd.Tasks.{announce}
use ntlinux.Ntd.Calm.{
  has_single, Calm, CalmBut, put-Calm, put-CalmBut, put_last-Calm, last-Calm, unavailable-neglected,
  unwaited-neglected, fewer-neglected, take_single-none, take_single-some,
}
use ntlinux.Ntd.Calm.Waking.{complete-Calm, notify-Calm, consume_object-Calm, if-Calm}

-- An object that nobody can take once a waiter has taken it.
abbrev Takes : NtObject → Type 0
Takes o =
    (ws : List Waiter) (pid : ℕ)
    → object_available (consume (record o { waiters = ws }) pid) ≡ false

wake_with-Calm :
    (id : ℕ) (w : Waiter) (rest : List Waiter) (s : Ntd)
    → CalmBut id s
    → Takes (s.object_at id)
    → Calm (wake_with id w rest s)
unfolding wake_with consume_object
wake_with-Calm id w rest s v h =
    complete-Calm (consume_object id pid s1) w.slot_idx success 0 (pos 0) (
      put_last-Calm s1 id (consume (s1.object_at id) pid) (put-CalmBut s id o v) (
        unavailable-neglected (consume (s1.object_at id) pid)
          (ap (λ x. object_available (consume x pid)) (update_self s.object_at id o) ∙ h rest pid)))
  where
    pid : ℕ
    pid = client_pid_of s w.slot_idx

    o : NtObject
    o = record (s.object_at id) { waiters = rest }

    s1 : Ntd
    s1 = put_waiters s id rest

-- One is woken, or none waits alone: either way the object is not neglected.
satisfy_one-Calm :
    (id : ℕ) (s : Ntd) → CalmBut id s → Takes (s.object_at id) → Calm (satisfy_one_waiter id s).1
unfolding satisfy_one_waiter
satisfy_one-Calm id s v h = elim (Bool-cases (object_available (s.object_at id))) [
  | inl e ↦ elim (Option-cases (take_single (s.object_at id).waiters)) [
    | inl n ↦ rw (e, n) (last-Calm s id v (unwaited-neglected _ (take_single-none _ n)))
    | inr ((w, rest), n) ↦ rw (e, n) (wake_with-Calm id w rest s v h)
  ]
  | inr e ↦ rw e (last-Calm s id v (unavailable-neglected _ e))
]

object_at-wake_scan : (ws : List Waiter) (s : Ntd) → (wake_scan ws s).1.object_at ≡ s.object_at
unfolding wake_scan complete post
object_at-wake_scan [] s = refl
object_at-wake_scan (w ∷ ws) s = elim (Bool-cases (is_single w.multiwait)) [
  | inl e ↦ rw e (object_at-wake_scan ws _)
  | inr e ↦ rw e (object_at-wake_scan ws s)
]

wake_scan-single : (ws : List Waiter) (s : Ntd) → has_single (wake_scan ws s).0 ≡ false
unfolding wake_scan
wake_scan-single [] s = refl
wake_scan-single (w ∷ ws) s = elim (Bool-cases (is_single w.multiwait)) [
  | inl e ↦ rw e (wake_scan-single ws _)
  | inr e ↦ rw (e, e) (wake_scan-single ws s)
]

pub wake_all-Calm : (id : ℕ) (s : Ntd) → CalmBut id s → Calm (wake_all_waiters_success id s)
unfolding wake_all_waiters_success
wake_all-Calm id s v =
    let ws = (s.object_at id).waiters in
    put_last-Calm (wake_scan ws s).1 id _ (rw (object_at-wake_scan ws s) v)
      (unwaited-neglected _ (wake_scan-single ws s))

pub written-CalmBut : (s : Ntd) (id : ℕ) (o : NtObject) → Calm s → CalmBut id (put_object s id o)
written-CalmBut s id o v = put-CalmBut s id o (λ k. inr (v k))

event-Takes : (o : NtObject) → o.type ≡ event → o.manual_reset ≡ false → Takes o
unfolding object_available consume
event-Takes o e m ws pid = rw (e, m) refl

mutant-Takes : (o : NtObject) → o.type ≡ mutant → Takes o
unfolding object_available consume
mutant-Takes o e ws pid = rw e refl

pub set_event-Calm :
    (s : Ntd) (id : ℕ) → Calm s → (s.object_at id).type ≡ event → Calm (set_event id s)
unfolding set_event
set_event-Calm s id v e = notify-Calm id _ (
    if-Calm (s.object_at id).manual_reset _ _ (λ m. wake_all-Calm id (put_object s id o) but)
      λ m. satisfy_one-Calm id (put_object s id o) but (
        event-Takes ((put_object s id o).object_at id) (ap (λ x. x.type) self ∙ e)
          (ap (λ x. x.manual_reset) self ∙ m)))
  where
    o : NtObject
    o = record (s.object_at id) { signaled = true }

    self : update s.object_at id o id ≡ o
    self = update_self s.object_at id o

    but : CalmBut id (put_object s id o)
    but = written-CalmBut s id o v

pub release_mutant-Calm :
    (s : Ntd) (id : ℕ) → Calm s → (s.object_at id).type ≡ mutant → Calm (release_mutant id s)
unfolding release_mutant
release_mutant-Calm s id v e = notify-Calm id _ (
    satisfy_one-Calm id (put_object s id o) (written-CalmBut s id o v) (
      mutant-Takes ((put_object s id o).object_at id)
        (ap (λ x. x.type) (update_self s.object_at id o) ∙ e)))
  where
    o : NtObject
    o = record (s.object_at id) { owned = false }

satisfy_one-keeps : (id : ℕ) (s : Ntd) → Calm s → Calm (satisfy_one_waiter id s).1
unfolding satisfy_one_waiter wake_with
satisfy_one-keeps id s v = elim (Bool-cases (object_available o)) [
  | inl e ↦ elim (Option-cases (take_single o.waiters)) [
    | inl n ↦ rw (e, n) v
    | inr ((w, rest), n) ↦
        rw (e, n)
          (complete-Calm _ w.slot_idx success 0 (pos 0) (
            consume_object-Calm id _ _ (
              put-Calm s id _ v
                (fewer-neglected o rest (v id) (inr (take_single-some _ w rest n))))))
  ]
  | inr e ↦ rw e v
]
  where
    o : NtObject
    o = s.object_at id

satisfy_waiters-keeps : (fuel id : ℕ) (s : Ntd) → Calm s → Calm (satisfy_waiters fuel id s)
unfolding satisfy_waiters
satisfy_waiters-keeps zero id s v = v
satisfy_waiters-keeps (suc fuel) id s v = elim (Bool-cases (satisfy_one_waiter id s).0) [
  | inl e ↦ rw (satisfy_waiters, e) (satisfy_waiters-keeps fuel id _ (satisfy_one-keeps id s v))
  | inr e ↦ rw (satisfy_waiters, e) (satisfy_one-keeps id s v)
]

pub release_semaphore-Calm :
    (s : Ntd) (id : ℕ) (n : ℤ)
    → Calm s
    → (s.object_at id).type ≡ semaphore
    → Calm (release_semaphore id n s)
unfolding release_semaphore
release_semaphore-Calm s id n v e =
    notify-Calm id _ (satisfy_waiters-keeps _ id _ (put-Calm s id _ v (rw e refl)))

pub announce-Calm : (s : Ntd) (id : ℕ) → CalmBut id s → Calm (announce id s)
unfolding announce
announce-Calm s id v = notify-Calm id _ (wake_all-Calm id s v)

pub deliver_packet-Calm : (s : Ntd) (id : ℕ) (p : Packet) → Calm s → Calm (deliver_packet id p s)
unfolding deliver_packet complete_io post
deliver_packet-Calm s id p v = elim (Option-cases (take_single o.waiters)) [
  | inl n ↦
      rw (deliver_packet, n)
        (put-Calm s id _ v (unwaited-neglected _ (take_single-none o.waiters n)))
  | inr ((w, rest), n) ↦
      rw (deliver_packet, n)
        (put-Calm s id _ v
          (fewer-neglected o rest (v id) (inr (take_single-some o.waiters w rest n))))
]
  where
    o : NtObject
    o = s.object_at id
