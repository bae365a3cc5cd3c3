-- ===== src/Client/Names.antt =====
-- ntabi/lib/libntabi.c on ntd/ntd.c: what two processes get that name the same event.
use ntlinux.Common.{ℕ, pos, ◌≡◌, refl, sym, ◌∙◌, ap, none, some, Bool, List, ◌∷◌, arith, take}
use mathlib.Core.Path.{subst}
use ntlinux.Ntabi.{Request, success, open_event, create_event}
use ntlinux.Ntd.State.{Ntd, HandleEntry, Env}
use ntlinux.Ntd.Handles.{register_handle, alloc_local_handle, find_handle}
use ntlinux.Ntd.Objects.{find_by_name}
use ntlinux.Ntd.Dispatch.{process_request}
use ntlinux.Ntd.Start.{fill_slot}
use ntlinux.Ntd.Isolation.{IsTable}
use ntlinux.Client.Calls.{fill_name, named, ntabi_create_event, ntabi_open_event}
use ntlinux.Client.Served.{served_by, filled, take_idem, find_by_name-newest, created, opened}

-- Two handles to one object, given to any two processes, name it both.
both_given :
    (pid qid id : ℕ) (s : Ntd) (h k : ℕ) (t u : List HandleEntry)
    → IsTable s.handles
    → h ≡ alloc_local_handle pid s.handles
    → t ≡ (register_handle pid id s).1.handles
    → k ≡ alloc_local_handle qid t
    → u ≡ (record { owner_pid = qid; local_handle = k; object = id }) ∷ t
    → (find_handle pid (pos h) u ≡ some id) × (find_handle qid (pos k) u ≡ some id)
unfolding find_handle register_handle
both_given pid qid id s h k t u v a b c d = rw (d, b, a) (ground arith, ground arith)

-- Where the handle table has each key once, a process that creates an event under a new name that
-- is not empty, and one that then opens a name with the same first 127 bytes, both get SUCCESS, and
-- their handles name the same object, the one that was created.
pub create_event-open_event :
    (env env' : Env) (i j pid qid tid tid' c : ℕ) (cs cs' : List ℕ) (initial manual : Bool)
    (s : Ntd)
    → IsTable s.handles
    → take 126 cs ≡ take 126 cs'
    → find_by_name s (c ∷ take 126 cs) ≡ none
    → let (a, s1) = ntabi_create_event (served_by env i pid tid) (some (c ∷ cs)) initial manual s in
      let (b, s2) = ntabi_open_event (served_by env' j qid tid') (some (c ∷ cs')) s1 in
      (a.0 ≡ success)
      × (b.0 ≡ success)
      × (find_handle pid (pos a.1) s2.handles ≡ some s.next_object_id)
      × (find_handle qid (pos b.1) s2.handles ≡ some s.next_object_id)
unfolding ntabi_create_event ntabi_open_event served_by fill_name register_handle
create_event-open_event env env' i j pid qid tid tid' c cs cs' initial manual s v e fresh =
    let req : Request = record (named create_event (some (c ∷ cs))) {
      initial_state = initial;
      manual_reset = manual;
    } in
    let t = process_request env i (fill_slot i (filled pid tid req) s) in
    let m = created env i pid tid req s refl fresh in
    let n =
      find_by_name-newest t s.next_object_id c (take 126 cs) s.objects m.objects
        (m.name ∙ take_idem 127 (c ∷ cs)) in
    let n' = subst (λ xs. find_by_name t (c ∷ xs) ≡ some s.next_object_id) e n in
    let g =
      opened env' j qid tid' s.next_object_id (named open_event (some (c ∷ cs'))) t refl n'
        m.type in
    let b =
      both_given pid qid s.next_object_id s _ _ _ _ v m.given.handle m.given.handles g.handle (
        g.handles
        ∙ ap
            (λ k.
              record { owner_pid = qid; local_handle = k; object = s.next_object_id } ∷ t.handles)
            (sym g.handle)) in
    (m.given.status, g.status, b.0, b.1)
