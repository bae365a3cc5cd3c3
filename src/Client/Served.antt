-- ===== src/Client/Served.antt =====
-- ntabi/lib/libntabi.c on ntd/ntd.c: a call that the daemon answers at once, and what creating and
-- opening an event leave in the daemon's tables.
use ntlinux.Common.{
  ℕ, zero, suc, ◌≡◌, refl, sym, ◌∙◌, ap, none, some, Bool, true, false, ◌==◌, List, [], ◌∷◌, arith,
  take, update_self, bytes_eq,
}
use mathlib.Core.Path.{subst}
use ntlinux.Ntabi.{Request, Response, Status, Slot, success, open_event, create_event}
use ntlinux.Ntd.State.{Ntd, NtObject, Env, event, slot_at, post}
use ntlinux.Ntd.Complete.{complete}
use ntlinux.Ntd.Handles.{register_handle, alloc_local_handle}
use ntlinux.Ntd.Objects.{create_object, find_by_name, find_object, same_type, blank}
use ntlinux.Ntd.Sync.{create_with, give_handle, handle_create_event, handle_open_typed, name_taken}
use ntlinux.Ntd.Dispatch.{process_request, dispatch}
use ntlinux.Ntd.Start.{zero_slot, fill_slot}

-- `submit` through slot `i`, where the daemon serves the slot next and answers at once.
unfoldable pub served_by : Env → ℕ → ℕ → ℕ → Request → Ntd → (Status × Response) × Ntd
served_by env i pid tid req s =
    let t = process_request env i (
      fill_slot i
        (record zero_slot { in_use = true; client_pid = pid; client_tid = tid; req = req }) s) in
    let resp = (slot_at t i).resp in ((resp.status, resp), t)

-- The answer in slot `i`: a new handle of `pid` to the object `id`.
pub record Given (i pid id : ℕ) (s t : Ntd) : Type 0 where
  pub status : (slot_at t i).resp.status ≡ success
  pub handle : (slot_at t i).resp.handle ≡ alloc_local_handle pid s.handles
  pub handles : t.handles ≡ (register_handle pid id s).1.handles

give_handle-Given : (id i pid : ℕ) (s : Ntd) → Given i pid id s (give_handle id i pid s)
unfolding give_handle complete post register_handle
give_handle-Given id i pid s = record {
  status = ap (λ x. x.resp.status) (update_self s.shm.slots i _);
  handle = ap (λ x. x.resp.handle) (update_self s.shm.slots i _);
  handles = refl;
}

create_with-Given :
    (type : _) (init : NtObject → NtObject) (req : Request) (i pid : ℕ) (s : Ntd)
    → Given i pid s.next_object_id s (create_with type init req i pid s)
unfolding create_with complete post register_handle create_object
create_with-Given type init req i pid s = record {
  status = ap (λ x. x.resp.status) (update_self s.shm.slots i _);
  handle = ap (λ x. x.resp.handle) (update_self s.shm.slots i _);
  handles = refl;
}

create_with-objects :
    (manual initial : Bool) (req : Request) (i pid : ℕ) (s : Ntd)
    → (create_with event
        (λ o. record o { manual_reset = manual; signaled = initial })
        req
        i
        pid
        s).objects
      ≡ s.next_object_id ∷ s.objects
unfolding create_with complete post register_handle create_object
create_with-objects manual initial req i pid s = refl

bytes_eq_refl : (xs : List ℕ) → bytes_eq xs xs ≡ true
bytes_eq_refl [] = refl
bytes_eq_refl (x ∷ xs) = let e : (x == x) ≡ true = ground arith in rw e (bytes_eq_refl xs)

pub take_idem : (n : ℕ) (xs : List ℕ) → take n (take n xs) ≡ take n xs
take_idem zero xs = refl
take_idem (suc n) [] = refl
take_idem (suc n) (x ∷ xs) = ap (◌∷◌ x) (take_idem n xs)

-- The event that a creation makes, with its first handle.
create_event-object :
    (manual initial : Bool) (req : Request) (i pid : ℕ) (s : Ntd)
    → let t =
        create_with event
          (λ o. record o { manual_reset = manual; signaled = initial })
          req
          i
          pid
          s in
      t.object_at s.next_object_id
      ≡ record (blank event req.name) { manual_reset = manual; signaled = initial; refcount = 1 }
unfolding create_with complete post register_handle create_object
create_event-object manual initial req i pid s =
    let e : (s.next_object_id == s.next_object_id) ≡ true = ground arith in rw e refl

-- The newest object is found first under its name, if that fits the object.
pub find_by_name-newest :
    (s : Ntd) (id c : ℕ) (cs ids : List ℕ)
    → s.objects ≡ id ∷ ids
    → (s.object_at id).name ≡ c ∷ cs
    → find_by_name s (c ∷ cs) ≡ some id
unfolding find_by_name find_object
find_by_name-newest s id c cs ids e n = rw (e, n, bytes_eq_refl (c ∷ cs)) refl

-- The slot as `submit` leaves it.
abbrev pub filled : ℕ → ℕ → Request → Slot
filled pid tid req = record zero_slot {
  in_use = true;
  client_pid = pid;
  client_tid = tid;
  req = req;
}

process_request-filled :
    (env : Env) (i pid tid : ℕ) (req : Request) (s : Ntd)
    → process_request env i (fill_slot i (filled pid tid req) s)
      ≡ dispatch req.opcode env req i pid (fill_slot i (filled pid tid req) s)
unfolding process_request fill_slot
process_request-filled env i pid tid req s =
    ap (λ x. dispatch x.req.opcode env x.req i x.client_pid (fill_slot i (filled pid tid req) s))
      (update_self s.shm.slots i _)

-- What the creation of an event leaves for others to find.
pub record Made (i pid : ℕ) (bytes : List ℕ) (s t : Ntd) : Type 0 where
  pub given : Given i pid s.next_object_id s t
  pub objects : t.objects ≡ s.next_object_id ∷ s.objects
  pub type : (t.object_at s.next_object_id).type ≡ event
  pub name : (t.object_at s.next_object_id).name ≡ take 127 bytes

create_with-Made :
    (manual initial : Bool) (req : Request) (i pid : ℕ) (s : Ntd)
    → Made i pid req.name s (
        create_with event (λ o. record o { manual_reset = manual; signaled = initial }) req i pid s)
create_with-Made manual initial req i pid s =
    let e = create_event-object manual initial req i pid s in
    record {
      given = create_with-Given event _ req i pid s;
      objects = create_with-objects manual initial req i pid s;
      type = ap (λ o. o.type) e;
      name = ap (λ o. o.name) e;
    }

handle_create_event-fresh :
    (req : Request) (i pid : ℕ) (s : Ntd)
    → find_by_name s req.name ≡ none
    → Made i pid req.name s (handle_create_event req i pid s)
unfolding handle_create_event name_taken
handle_create_event-fresh req i pid s e =
    let n : name_taken s req ≡ false = rw (e, name_taken) refl in
    rw (n, handle_create_event) (create_with-Made req.manual_reset req.initial_state req i pid s)

handle_open_typed-found :
    (req : Request) (i pid id : ℕ) (s : Ntd)
    → find_by_name s req.name ≡ some id
    → (s.object_at id).type ≡ event
    → Given i pid id s (handle_open_typed event req i pid s)
unfolding handle_open_typed
handle_open_typed-found req i pid id s e t =
    let b : same_type (s.object_at id).type event ≡ true = ap (λ y. same_type y event) t in
    rw (e, handle_open_typed, b) (give_handle-Given id i pid s)

pub created :
    (env : Env) (i pid tid : ℕ) (req : Request) (s : Ntd)
    → req.opcode ≡ create_event
    → find_by_name s req.name ≡ none
    → Made i pid req.name s (process_request env i (fill_slot i (filled pid tid req) s))
unfolding dispatch fill_slot find_by_name register_handle
created env i pid tid req s o e =
    let m = handle_create_event-fresh req i pid (fill_slot i (filled pid tid req) s) e in
    let p =
      process_request-filled env i pid tid req s
      ∙ ap (λ op. dispatch op env req i pid (fill_slot i (filled pid tid req) s)) o in
    subst (Made i pid req.name s) (sym p) record {
      given = record {
        status = m.given.status;
        handle = m.given.handle;
        handles = m.given.handles;
      };
      objects = m.objects;
      type = m.type;
      name = m.name;
    }

pub opened :
    (env : Env) (i pid tid id : ℕ) (req : Request) (s : Ntd)
    → req.opcode ≡ open_event
    → find_by_name s req.name ≡ some id
    → (s.object_at id).type ≡ event
    → Given i pid id s (process_request env i (fill_slot i (filled pid tid req) s))
unfolding dispatch fill_slot find_by_name register_handle
opened env i pid tid id req s o e t =
    let m = handle_open_typed-found req i pid id (fill_slot i (filled pid tid req) s) e t in
    let p =
      process_request-filled env i pid tid req s
      ∙ ap (λ op. dispatch op env req i pid (fill_slot i (filled pid tid req) s)) o in
    subst (Given i pid id s) (sym p)
      record { status = m.status; handle = m.handle; handles = m.handles }
