-- ===== src/Ntd/Delivery.antt =====
-- ntd/ntd.c, packets and APCs: what a post or a queued APC meets at the next remove or alertable wait.
use ntlinux.Common.{
  Bool, ◌&&◌, ◌==◌, ==_iff, Bool-cases, inl, inr, ℕ, ◌≡◌, refl, ap, ◌∙◌, none, some, true, List, [],
  ◌∷◌, ◌++◌, arith, update_self, update,
}
use ntlinux.Ntabi.{Request, Status, Packet, Apc, success, user_apc}
use ntlinux.Ntd.State.{Ntd, NtObject, thread, Env, put_object, slot_at}
use ntlinux.Ntd.Complete.{complete, complete_io, complete_apc}
use ntlinux.Ntd.Objects.{find_object, same_type, find_thread_object, find_or_create_thread_object}
use ntlinux.Ntd.Handles.{find_handle}
use ntlinux.Ntd.Sync.{answer, with_object}
use ntlinux.Ntd.Tasks.{handle_queue_apc}
use ntlinux.Ntd.Multiwaits.{take_single}
use ntlinux.Ntd.Ports.{deliver_packet, remove_packet}
use ntlinux.Ntd.Waits.{wait_on_handle, handle_wait_single}

complete_io_lem :
    (s : Ntd) (i : ℕ) (st : Status) (p : Packet)
    → let t = complete_io s i st p in
      ((slot_at t i).resp.status ≡ st) × ((slot_at t i).resp.packet ≡ p)
unfolding complete_io
complete_io_lem s i st p = ground arith

complete_apc_lem :
    (s : Ntd) (i : ℕ) (st : Status) (a : Apc)
    → let t = complete_apc s i st a in
      ((slot_at t i).resp.status ≡ st) × ((slot_at t i).resp.apc ≡ a)
unfolding complete_apc
complete_apc_lem s i st a = ground arith

remove_packet-oldest :
    (env : Env) (req : Request) (id i : ℕ) (q : Packet) (rest : List Packet) (s : Ntd)
    → (s.object_at id).queue ≡ q ∷ rest
    → remove_packet env req id i s
      ≡ complete_io (put_object s id (record (s.object_at id) { queue = rest })) i success q
unfolding remove_packet
remove_packet-oldest env req id i q rest s e = rw (e, remove_packet) refl

deliver_packet-queues :
    (id : ℕ) (p : Packet) (s : Ntd)
    → take_single (s.object_at id).waiters ≡ none
    → deliver_packet id p s
      ≡ put_object s id (record (s.object_at id) { queue = (s.object_at id).queue ++ p ∷ [] })
unfolding deliver_packet
deliver_packet-queues id p s h = rw (h, deliver_packet) refl

-- A packet that finds no waiter is queued behind the others: a remove from slot `i` then answers
-- SUCCESS with the oldest packet and leaves the rest in order, whatever the timeout.
pub remove-deliver_fifo :
    (env : Env) (req : Request) (id i : ℕ) (p q : Packet) (rest : List Packet) (s : Ntd)
    → take_single (s.object_at id).waiters ≡ none
    → (s.object_at id).queue ++ p ∷ [] ≡ q ∷ rest
    → let t = remove_packet env req id i (deliver_packet id p s) in
      ((slot_at t i).resp.status ≡ success)
      × ((slot_at t i).resp.packet ≡ q)
      × ((t.object_at id).queue ≡ rest)
unfolding complete_io
remove-deliver_fifo env req id i p q rest s h e =
    let o = record (s.object_at id) { queue = (s.object_at id).queue ++ p ∷ [] } in
    let s1 = put_object s id o in
    let c = ap (λ x. x.queue) (update_self s.object_at id o) ∙ e in
    let o2 = record (s1.object_at id) { queue = rest } in
    let l = complete_io_lem (put_object s1 id o2) i success q in
    rw (deliver_packet-queues id p s h, remove_packet-oldest env req id i q rest s1 c)
      (l.0, l.1, ap (λ x. x.queue) (update_self s1.object_at id o2))

wait_single-delivers :
    (env : Env) (req : Request) (i pid self : ℕ) (a : Apc) (rest : List Apc) (s : Ntd)
    → req.alertable ≡ true
    → find_or_create_thread_object pid (slot_at s i).client_tid s ≡ (self, s)
    → (s.object_at self).apcs ≡ a ∷ rest
    → handle_wait_single env req i pid s
      ≡ complete_apc (put_object s self (record (s.object_at self) { apcs = rest })) i user_apc a
unfolding handle_wait_single
wait_single-delivers env req i pid self a rest s h f e =
    let body : ℕ × Ntd → Ntd = λ r. elim (r.1.object_at r.0).apcs [
      | [] ↦ wait_on_handle env req i pid r.1
      | b ∷ bs ↦
          complete_apc (put_object r.1 r.0 (record (r.1.object_at r.0) { apcs = bs })) i user_apc b
    ] in
    rw h (ap body f ∙ taken (s.object_at self).apcs e)
  where
    taken :
        (apcs : List Apc)
        → apcs ≡ a ∷ rest
        → elim apcs [
          | [] ↦ wait_on_handle env req i pid s
          | b ∷ bs ↦
              complete_apc
                (put_object s self (record (s.object_at self) { apcs = bs }))
                i
                user_apc
                b
        ]
          ≡ complete_apc
              (put_object s self (record (s.object_at self) { apcs = rest }))
              i
              user_apc
              a
    taken apcs p = rw p refl

find_or_create-found :
    (pid tid self : ℕ) (s : Ntd)
    → find_thread_object s pid tid ≡ some self
    → find_or_create_thread_object pid tid s ≡ (self, s)
unfolding find_or_create_thread_object
find_or_create-found pid tid self s e = rw (e, find_or_create_thread_object) refl

-- The oldest APC leaves the queue, and no object but the thread's changes.
alertable-oldest_first :
    (env : Env) (req : Request) (i pid self : ℕ) (a : Apc) (rest : List Apc) (s : Ntd)
    → req.alertable ≡ true
    → find_thread_object s pid (slot_at s i).client_tid ≡ some self
    → (s.object_at self).apcs ≡ a ∷ rest
    → let t = handle_wait_single env req i pid s in
      ((slot_at t i).resp.status ≡ user_apc)
      × ((slot_at t i).resp.apc ≡ a)
      × (t.object_at ≡ update s.object_at self (record (s.object_at self) { apcs = rest }))
unfolding complete_apc
alertable-oldest_first env req i pid self a rest s h f e =
    let o = record (s.object_at self) { apcs = rest } in
    let l = complete_apc_lem (put_object s self o) i user_apc a in
    let g = find_or_create-found pid (slot_at s i).client_tid self s f in
    rw (wait_single-delivers env req i pid self a rest s h g e) (l.0, l.1, refl)

find_object-same :
    (p : NtObject → Bool) (at at' : ℕ → NtObject) (ids : List ℕ)
    → ((k : ℕ) → p (at' k) ≡ p (at k))
    → find_object p at' ids ≡ find_object p at ids
unfolding find_object
find_object-same p at at' [] h = refl
find_object-same p at at' (id ∷ ids) h = rw (h id, find_object-same p at at' ids h) refl

-- The queue of a thread has nothing to do with which thread it is.
find_thread_object-apcs :
    (s : Ntd) (id pid tid : ℕ) (apcs : List Apc)
    → find_thread_object (put_object s id (record (s.object_at id) { apcs = apcs })) pid tid
      ≡ find_thread_object s pid tid
unfolding find_thread_object
find_thread_object-apcs s id pid tid apcs =
    find_object-same is_it s.object_at (update s.object_at id o) s.objects λ k.
      elim (Bool-cases (id == k)) [
        | inl e ↦ ap is_it (written k e) ∙ ap (λ j. is_it (s.object_at j)) ((==_iff id k).0 e)
        | inr e ↦ rw e refl
      ]
  where
    o : NtObject
    o = record (s.object_at id) { apcs = apcs }

    written : (k : ℕ) → (id == k) ≡ true → update s.object_at id o k ≡ o
    written k e = rw e refl

    is_it : NtObject → Bool
    is_it x = same_type x.type thread && x.target_pid == pid && x.target_tid == tid

queue_apc-queues :
    (req : Request) (j pid id : ℕ) (s : Ntd)
    → find_handle pid req.handle s.handles ≡ some id
    → (s.object_at id).type ≡ thread
    → handle_queue_apc req j pid s
      ≡ answer
          (put_object s id
            (record (s.object_at id) { apcs = (s.object_at id).apcs ++ req.apc ∷ [] }))
          j
          success
unfolding handle_queue_apc with_object
queue_apc-queues req j pid id s h e = rw (handle_queue_apc, with_object, h, e) refl

answer-client_tid :
    (s : Ntd) (j : ℕ) (st : Status) (i : ℕ)
    → (slot_at (answer s j st) i).client_tid ≡ (slot_at s i).client_tid
unfolding answer complete
answer-client_tid s j st i = ground arith

answer-status : (s : Ntd) (j : ℕ) (st : Status) → (slot_at (answer s j st) j).resp.status ≡ st
unfolding answer complete
answer-status s j st = ground arith

update-again :
    (at : ℕ → NtObject) (id : ℕ) (o : NtObject) (apcs : List Apc) (k : ℕ)
    → update (update at id o) id (record (update at id o id) { apcs = apcs }) k
      ≡ update at id (record o { apcs = apcs }) k
update-again at id o apcs k = elim (Bool-cases (id == k)) [
  | inl e ↦ rw e (ap requeued (update_self at id o))
  | inr e ↦ rw e refl
]
  where
    requeued : NtObject → NtObject
    requeued x = record x { apcs = apcs }

-- QUEUE_APC from slot `j` by a handle to a thread, and then an alertable wait of that thread from slot
-- `i`: the first is answered SUCCESS; the second is answered USER_APC with the oldest APC, which is the
-- new one only if none was queued before, and the others stay queued in their order. No object but
-- the thread's changes, and in that only the queue.
pub wait_single-queue_apc :
    (env : Env) (req sent : Request) (i j pid sender self : ℕ) (a : Apc) (rest : List Apc) (s : Ntd)
    → req.alertable ≡ true
    → find_thread_object s pid (slot_at s i).client_tid ≡ some self
    → (s.object_at self).type ≡ thread
    → find_handle sender sent.handle s.handles ≡ some self
    → (s.object_at self).apcs ++ sent.apc ∷ [] ≡ a ∷ rest
    → let u = handle_queue_apc sent j sender s in
      let t = handle_wait_single env req i pid u in
      ((slot_at u j).resp.status ≡ success)
      × ((slot_at t i).resp.status ≡ user_apc)
      × ((slot_at t i).resp.apc ≡ a)
      × ((k : ℕ)
          → t.object_at k ≡ update s.object_at self (record (s.object_at self) { apcs = rest }) k)
unfolding answer complete find_thread_object
wait_single-queue_apc env req sent i j pid sender self a rest s h f ty g e =
    let o = record (s.object_at self) { apcs = (s.object_at self).apcs ++ sent.apc ∷ [] } in
    let s1 = put_object s self o in
    let u = answer s1 j success in
    let tid = answer-client_tid s1 j success i in
    let found : find_thread_object u pid (slot_at u i).client_tid ≡ some self =
      ap (find_thread_object u pid) tid
      ∙ find_thread_object-apcs s self pid (slot_at s i).client_tid o.apcs
      ∙ f in
    let queue = ap (λ x. x.apcs) (update_self s.object_at self o) ∙ e in
    let l = alertable-oldest_first env req i pid self a rest u h found queue in
    rw (queue_apc-queues sent j sender self s g ty) (
      answer-status s1 j success,
      l.0,
      l.1,
      λ k. ap (λ at. at k) l.2 ∙ update-again s.object_at self o rest k,
    )
