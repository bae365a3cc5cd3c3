-- ===== src/Ntd/Limits.antt =====
-- ntd/ntd.c, counts: the guard of ReleaseSemaphore and what a wait takes from a semaphore.
use ntlinux.Common.{
  ℕ, suc, pos, negsuc, ◌+◌, ◌<◌, ◌^◌, ◌≡◌, ap, ◌∙◌, true, false, [], ◌∷◌, arith, ltb, add_i32,
  update_self, if◌then◌else◌,
}
use ntlinux.Ntabi.{Request}
use ntlinux.Ntd.State.{Ntd, NtObject, Env, semaphore}
use ntlinux.Ntd.Sync.{bad_release}
use ntlinux.Ntd.Complete.{complete_wait_multiple}
use ntlinux.Ntd.Waiters.{object_available, consume, consume_object}
use ntlinux.Ntd.Multiwaits.{all_available, consume_all}
use ntlinux.Ntd.Waits.{wait_on_objects}

-- For a positive count `n` to release, the guard of ReleaseSemaphore refuses exactly the sums above
-- the maximum as long as the sum is an int; where the sum overflows, it refuses nothing, and so lets
-- a release through that it should refuse.
pub bad_release-limit :
    (req : Request) (o : NtObject) (c n m : ℕ)
    → req.release_count ≡ pos (suc n)
    → o.count ≡ pos c
    → o.max_count ≡ pos m
    → c < 2 ^ 31
    → suc n < 2 ^ 31
    → bad_release req o ≡ (if ltb (c + suc n) (2 ^ 31) then ltb m (c + suc n) else false)
unfolding add_i32
bad_release-limit req o c n m r e f h k = rw (r, e, f) (ground arith)

take_two :
    (o : NtObject) (pid : ℕ)
    → o.type ≡ semaphore
    → o.count ≡ pos 1
    → (object_available o ≡ true) × ((consume (consume o pid) pid).count ≡ negsuc 0)
unfolding consume add_i32 object_available
take_two o pid t e = ground arith

-- A wait-all that names a semaphore of count 1 by two handles is satisfied, and leaves the count
-- at -1.
pub wait_all-duplicate_underflows :
    (env : Env) (req : Request) (id i pid : ℕ) (s : Ntd)
    → req.wait_all ≡ true
    → (s.object_at id).type ≡ semaphore
    → (s.object_at id).count ≡ pos 1
    → ((wait_on_objects env req (id ∷ id ∷ []) i pid s).object_at id).count ≡ negsuc 0
unfolding wait_on_objects complete_wait_multiple all_available consume_all consume_object
wait_all-duplicate_underflows env req id i pid s h t e =
    let p = take_two (s.object_at id) pid t e in
    let s1 = consume_object id pid s in
    rw (h, p.0)
      (ap (λ o. o.count)
          (update_self s1.object_at id (consume (s1.object_at id) pid)
            ∙ ap (λ o. consume o pid) (update_self s.object_at id (consume (s.object_at id) pid)))
        ∙ p.1)
