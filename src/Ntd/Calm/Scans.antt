-- ===== src/Ntd/Calm/Scans.antt =====
-- ntd/ntd.c: closing, expiring and polling leave nobody at an object that is available.
use ntlinux.Common.{
  ℕ, negsuc, ◌-◌, ◌≡◌, refl, ◌∙◌, List, [], ◌∷◌, Option, none, some, true, false, ◌==◌, arith,
  Bool-cases, Option-cases, inl, inr, ◌⊎◌,
}
use ntlinux.Ntabi.{timeout, success, invalid_handle, Request}
use ntlinux.Ntd.State.{Ntd, NtObject, Waiter, Env, Timespec, put_object, post}
use ntlinux.Ntd.Complete.{complete, complete_wait_multiple}
use ntlinux.Ntd.Sync.{answer}
use ntlinux.Ntd.Handles.{remove_handle_entry}
use ntlinux.Ntd.Objects.{free_object}
use ntlinux.Ntd.Close.{
  time_out_multiwait, remove_from_others, fail_waiter, fail_waiters, drop_object, release_reference,
  handle_close_handle, is_expired, read_clock, expire_waiter, expire_scan, expire_object,
  expire_objects, expire_timeouts,
}
use ntlinux.Ntd.Multiwaits.{set_completed}
use ntlinux.Ntd.Calm.{
  has_single, Calm, put-Calm, fewer-neglected, unwaited-neglected, refcount-neglected,
}
use ntlinux.Ntd.Calm.Waking.{
  answer-Calm, complete_wait_multiple-Calm, set_completed-Calm, free_multiwait-Calm,
  remove_waiter-Calm,
}

time_out-Calm : (m : ℕ) (s : Ntd) → Calm s → Calm (time_out_multiwait m s)
unfolding time_out_multiwait
time_out-Calm m s v = elim (Bool-cases (s.multiwait_at m).completed) [
  | inl e ↦ rw e v
  | inr e ↦ rw e (
      complete_wait_multiple-Calm (set_completed m s) _ timeout (negsuc 0)
        (set_completed-Calm m s v))
]

remove_from_others-Calm :
    (id m : ℕ) (ids : List ℕ) (s : Ntd) → Calm s → Calm (remove_from_others id m ids s)
unfolding remove_from_others
remove_from_others-Calm id m [] s v = v
remove_from_others-Calm id m (j ∷ js) s v = elim (Bool-cases (j == id)) [
  | inl e ↦ rw (remove_from_others, e) (remove_from_others-Calm id m js s v)
  | inr e ↦
      rw (remove_from_others, e) (remove_from_others-Calm id m js _ (remove_waiter-Calm j m s v))
]

fail_waiter-Calm : (id : ℕ) (w : Waiter) (s : Ntd) → Calm s → Calm (fail_waiter id w s)
unfolding fail_waiter
fail_waiter-Calm id w s v = elim (Option-cases w.multiwait) [
  | inl e ↦ rw e (answer-Calm s w.slot_idx timeout v)
  | inr (m, e) ↦ rw e (
      free_multiwait-Calm m _
        (remove_from_others-Calm id m (s.multiwait_at m).objects _ (time_out-Calm m s v)))
]

fail_waiters-Calm : (id : ℕ) (ws : List Waiter) (s : Ntd) → Calm s → Calm (fail_waiters id ws s)
unfolding fail_waiters
fail_waiters-Calm id [] s v = v
fail_waiters-Calm id (w ∷ ws) s v = fail_waiters-Calm id ws _ (fail_waiter-Calm id w s v)

pub free_object-Calm : (id : ℕ) (s : Ntd) → Calm s → Calm (free_object id s)
unfolding free_object
free_object-Calm id s v = v

drop_object-Calm : (id : ℕ) (s : Ntd) → Calm s → Calm (drop_object id s)
unfolding drop_object
drop_object-Calm id s v =
    let t = fail_waiters id (s.object_at id).waiters s in
    let o = record (t.object_at id) { waiters = [] } in
    free_object-Calm id (put_object t id o) (
      put-Calm t id o (fail_waiters-Calm id (s.object_at id).waiters s v)
        (unwaited-neglected o refl))

release_reference-Calm : (id : ℕ) (s : Ntd) → Calm s → Calm (release_reference id s)
unfolding release_reference
release_reference-Calm id s v = elim (Bool-cases ((s.object_at id).refcount - 1 == 0)) [
  | inl e ↦ rw e (drop_object-Calm id _ less)
  | inr e ↦ rw e less
]
  where
    o : NtObject
    o = s.object_at id

    less : Calm (put_object s id (record o { refcount = o.refcount - 1 }))
    less = put-Calm s id _ v (refcount-neglected o (o.refcount - 1) (v id))

pub close_handle-Calm :
    (req : Request) (i pid : ℕ) (s : Ntd) → Calm s → Calm (handle_close_handle req i pid s)
unfolding handle_close_handle
close_handle-Calm req i pid s v =
    elim (Option-cases (remove_handle_entry pid req.handle s.handles).0) [
      | inl n ↦ rw (handle_close_handle, n) (answer-Calm s i invalid_handle v)
      | inr (id, n) ↦
          rw (handle_close_handle, n)
            (answer-Calm _ i success (release_reference-Calm id (record s { handles = _ }) v))
    ]

time_out-objects : (m : ℕ) (s : Ntd) → (time_out_multiwait m s).object_at ≡ s.object_at
unfolding time_out_multiwait complete_wait_multiple set_completed post
time_out-objects m s = elim (Bool-cases (s.multiwait_at m).completed) [
  | inl e ↦ rw e refl
  | inr e ↦ rw e refl
]

expire_waiter-objects : (w : Waiter) (s : Ntd) → (expire_waiter w s).object_at ≡ s.object_at
unfolding expire_waiter answer complete post
expire_waiter-objects w s = elim (Option-cases w.multiwait) [
  | inl e ↦ rw e refl
  | inr (m, e) ↦ rw e (time_out-objects m s)
]

read_clock-objects : (d : Option Timespec) (s : Ntd) → (read_clock d s).object_at ≡ s.object_at
read_clock-objects none s = refl
read_clock-objects (some d) s = refl

expire_scan-objects :
    (env : Env) (ws : List Waiter) (s : Ntd) → (expire_scan env ws s).1.object_at ≡ s.object_at
unfolding expire_scan
expire_scan-objects env [] s = refl
expire_scan-objects env (w ∷ ws) s = elim (Bool-cases (is_expired env s w.deadline)) [
  | inl e ↦
      rw e
        (expire_scan-objects env ws _ ∙ expire_waiter-objects w _ ∙ read_clock-objects w.deadline s)
  | inr e ↦ rw e (expire_scan-objects env ws _ ∙ read_clock-objects w.deadline s)
]

-- Nobody joins the list.
expire_scan-single :
    (env : Env) (ws : List Waiter) (s : Ntd)
    → (has_single (expire_scan env ws s).0 ≡ false) ⊎ (has_single ws ≡ true)
unfolding expire_scan
expire_scan-single env [] s = inl refl
expire_scan-single env (w ∷ ws) s = elim (Bool-cases (is_expired env s w.deadline)) [
  | inl e ↦
      let h = expire_scan-single env ws (expire_waiter w (read_clock w.deadline s)) in
      rw e (ground (arith, h))
  | inr e ↦ let h = expire_scan-single env ws (read_clock w.deadline s) in rw e (ground (arith, h))
]

expire_object-Calm : (env : Env) (id : ℕ) (s : Ntd) → Calm s → Calm (expire_object env id s)
unfolding expire_object
expire_object-Calm env id s v = put-Calm t id _ (rw same v) (
    fewer-neglected (t.object_at id) (expire_scan env ws s).0 (rw same (v id))
      (rw same (expire_scan-single env ws s)))
  where
    ws : List Waiter
    ws = (s.object_at id).waiters

    t : Ntd
    t = (expire_scan env ws s).1

    same : t.object_at ≡ s.object_at
    same = expire_scan-objects env ws s

expire_objects-Calm :
    (env : Env) (ids : List ℕ) (s : Ntd) → Calm s → Calm (expire_objects env ids s)
unfolding expire_objects
expire_objects-Calm env [] s v = v
expire_objects-Calm env (id ∷ ids) s v =
    expire_objects-Calm env ids _ (expire_object-Calm env id s v)

pub expire_timeouts-Calm : (env : Env) (s : Ntd) → Calm s → Calm (expire_timeouts env s)
unfolding expire_timeouts
expire_timeouts-Calm env s v = expire_objects-Calm env s.objects s v
