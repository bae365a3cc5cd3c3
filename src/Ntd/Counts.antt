-- ===== src/Ntd/Counts.antt =====
-- ntd/ntd.c: what the object list, the handle table and the reference counts hold, and the steps of
-- the daemon that leave these alone.
pub mod Waking
pub mod Keeping
pub mod Waits
pub mod Polls
pub mod Handlers
pub mod Sections
pub mod Tasks
pub mod Closing
pub mod Runs
pub mod References
use ntlinux.Common.{
  ◌-◌, ==_iff, ◌⊎◌, inl, inr, ◌<◌, ◌≤◌, Option, none, some, Option-cases, Bool-cases, Bool, true,
  if◌then◌else◌, ℤ, pos, ℕ, ◌+◌, ◌≡◌, refl, List, [], ◌∷◌, Bool, true, false, ◌==◌, arith,
  if◌then◌else◌, update-elim,
}
use ntlinux.Ntabi.{Response}
use ntlinux.Ntd.Answers.Tally.{hit}
use ntlinux.Ntd.Handles.{register_handle, remove_handle_entry, is_entry}
use ntlinux.Ntd.Objects.{same_type, create_object, find_object, unlink, free_object}
use ntlinux.Ntd.State.{
  thread, Ntd, NtObject, ObjType, HandleEntry, Multiwait, post, put_object, put_multiwait,
}

-- How many entries of the table name the object at `k`, and how often it is linked.
unfoldable pub references : ℕ → List HandleEntry → ℕ
references k [] = 0
references k (e ∷ es) = hit k e.object + references k es

unfoldable pub links : ℕ → List ℕ → ℕ
links k [] = 0
links k (id ∷ ids) = hit k id + links k ids

-- What the book-keeping of the object at `k` reads of a state.
pub record Book : Type 0 where
  pub objects : List ℕ
  pub handles : List HandleEntry
  pub next_object_id : ℕ
  pub refcount : ℕ
  pub type : ObjType

unfoldable pub book : ℕ → Ntd → Book
book k s = record {
  objects = s.objects;
  handles = s.handles;
  next_object_id = s.next_object_id;
  refcount = (s.object_at k).refcount;
  type = (s.object_at k).type;
}

pub put_object-book :
    (k : ℕ) (s : Ntd) (id : ℕ) (o : NtObject)
    → o.refcount ≡ (s.object_at id).refcount
    → o.type ≡ (s.object_at id).type
    → book k (put_object s id o) ≡ book k s
unfolding book
put_object-book k s id o e f = ground (arith, e, f)

pub post-book : (k : ℕ) (s : Ntd) (i : ℕ) (r : Response) → book k (post s i r) ≡ book k s
unfolding book post
post-book k s i r = refl

pub put_multiwait-book :
    (k : ℕ) (s : Ntd) (m : ℕ) (mw : Multiwait) → book k (put_multiwait s m mw) ≡ book k s
unfolding book
put_multiwait-book k s m mw = refl

-- The book after `create_object`, and after `register_handle` of the entry `e`.
unfoldable pub linked : ℕ → ObjType → Book → Book
linked k type b = record b {
  objects = b.next_object_id ∷ b.objects;
  next_object_id = b.next_object_id + 1;
  refcount = if b.next_object_id == k then 0 else b.refcount;
  type = if b.next_object_id == k then type else b.type;
}

unfoldable pub given : ℕ → HandleEntry → Book → Book
given k e b = record b { handles = e ∷ b.handles; refcount = b.refcount + hit k e.object }

pub create_object-book :
    (k : ℕ) (type : ObjType) (name : List ℕ) (s : Ntd)
    → book k (create_object type name s).1 ≡ linked k type (book k s)
unfolding book create_object linked
create_object-book k type name s = ground arith

pub register_handle-book :
    (k pid id : ℕ) (s : Ntd)
    → book k (register_handle pid id s).1
      ≡ given k
          (record { owner_pid = pid; local_handle = (register_handle pid id s).0; object = id })
          (book k s)
unfolding book register_handle given
register_handle-book k pid id s = ground arith

-- The book without its object, once that is freed.
unfoldable pub unlinked : ℕ → Book → Book
unlinked id b = record b { objects = unlink id b.objects }

-- The book when a handle is gone and its reference given back.
unfoldable pub less_one : ℕ → ℕ → List HandleEntry → Book → Book
less_one k id rest b = record b { handles = rest; refcount = b.refcount - hit k id }

-- What closing leaves of the book, if the object of the handle has `n` references.
abbrev pub released : ℕ → ℕ → ℕ → List HandleEntry → Book → Book
released k id n rest b =
    if n - 1 == 0 then unlinked id (less_one k id rest b) else less_one k id rest b

-- What holds of the book of `k` and is kept by each way to change it: a thread object is made, another
-- object is made with its first handle, a handle is given to an object of the list, an object is freed
-- that has no handle yet, and a handle is closed.
pub record Rules (k : ℕ) (P : Book → Type 0) : Type 0 where
  pub thread_made : (b : Book) → P b → P (linked k thread b)
  pub object_made :
      (b : Book) (type : ObjType) (e : HandleEntry)
      → e.object ≡ b.next_object_id
      → P b
      → P (given k e (linked k type b))
  pub handle_given :
      (b : Book) (e : HandleEntry) → 1 ≤ links e.object b.objects → P b → P (given k e b)
  pub freed : (b : Book) (type : ObjType) → P b → P (unlinked b.next_object_id (linked k type b))
  pub closed :
      (b : Book) (id n : ℕ) (rest : List HandleEntry)
      → references k b.handles ≡ hit k id + references k rest
      → ((id == k) ≡ false) ⊎ (n ≡ b.refcount)
      → P b
      → P (released k id n rest b)
