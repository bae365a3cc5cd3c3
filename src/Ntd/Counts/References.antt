-- ===== src/Ntd/Counts/References.antt =====
-- ntd/ntd.c: over a run of the daemon, reference counts are the handles there are.
use ntlinux.Common.{
  ℕ, ◌+◌, ◌-◌, ◌<◌, ◌≤◌, ◌≡◌, refl, List, [], ◌∷◌, true, false, ◌==◌, ==_iff, ◌⊎◌, inl, inr, arith,
  Bool-cases,
}
use mathlib.Core.Path.{subst, sym}
use ntlinux.Ntd.State.{HandleEntry, ObjType, thread}
use ntlinux.Ntd.Objects.{same_type, unlink}
use ntlinux.Ntd.Start.{initial, Event, run}
use ntlinux.Ntd.Answers.Tally.{hit}
use ntlinux.Ntd.Counts.{
  Book, book, references, links, linked, given, unlinked, less_one, released, Rules,
}
use ntlinux.Ntd.Counts.Runs.{run-keeps}

-- An object is in the list once as long as an entry names it, or if it is a thread; its reference
-- count is the number of entries that name it.
pub record IsCounted (k : ℕ) (b : Book) : Type 0 where
  pub counted : b.refcount ≡ references k b.handles
  pub held :
      (links k b.objects ≡ 0) × (b.refcount ≡ 0)
      ⊎ (links k b.objects ≡ 1) × ((1 ≤ b.refcount) ⊎ (same_type b.type thread ≡ true))
  pub fresh : (k < b.next_object_id) ⊎ (links k b.objects ≡ 0)

module _ (k : ℕ) {b : Book} (v : IsCounted k b) where
  pub linked_thread-IsCounted : IsCounted k (linked k thread b)
  unfolding linked references links
  linked_thread-IsCounted = record {
    counted = ground (arith, v.counted, v.held, v.fresh);
    held = ground (arith, v.held, v.fresh);
    fresh = ground (arith, v.fresh);
  }

  pub new-IsCounted :
      (type : ObjType) (e : HandleEntry)
      → e.object ≡ b.next_object_id
      → IsCounted k (given k e (linked k type b))
  unfolding linked given references links
  new-IsCounted type e n = record {
    counted = ground (arith, v.counted, v.held, v.fresh);
    held = ground (arith, v.held, v.fresh);
    fresh = ground (arith, v.fresh);
  }

  pub given-IsCounted : (e : HandleEntry) → 1 ≤ links e.object b.objects → IsCounted k (given k e b)
  unfolding given references links
  given-IsCounted e l = record {
    counted = ground (arith, v.counted);
    held = elim (Bool-cases (e.object == k)) [
      | inl h ↦ ground (arith, v.held, (==_iff e.object k).0 h)
      | inr h ↦ rw h (ground (arith, v.held))
    ];
    fresh = v.fresh;
  }

-- An object that has no handle yet is unlinked again.
unlink_new-IsCounted :
    (k : ℕ) (type : ObjType) {b : Book}
    → IsCounted k b
    → IsCounted k (unlinked b.next_object_id (linked k type b))
unfolding unlinked linked links unlink
unlink_new-IsCounted k type v = record {
  counted = ground (arith, v.counted, v.held, v.fresh);
  held = ground (arith, v.held, v.fresh);
  fresh = ground (arith, v.fresh);
}

links-unlink_self : (k : ℕ) (ids : List ℕ) → links k (unlink k ids) ≡ links k ids - 1
unfolding links unlink
links-unlink_self k [] = refl
links-unlink_self k (id ∷ ids) = ground (arith, links-unlink_self k ids)

links-unlink_other :
    (k id : ℕ) (ids : List ℕ) → (id == k) ≡ false → links k (unlink id ids) ≡ links k ids
unfolding links unlink
links-unlink_other k id [] h = refl
links-unlink_other k id (j ∷ js) h = ground (arith, links-unlink_other k id js h)

-- The last entry of the object at `k` goes, or one of several.
last-IsCounted :
    (k : ℕ) (rest : List HandleEntry) {b : Book}
    → IsCounted k b
    → references k b.handles ≡ 1 + references k rest
    → (b.refcount - 1 == 0) ≡ true
    → IsCounted k (unlinked k (less_one k k rest b))
unfolding unlinked less_one
last-IsCounted k rest {b} v e z =
    let z' = (==_iff _ 0).0 z in
    record {
      counted = ground (arith, v.counted, e, z');
      held = inl (ground (arith, links-unlink_self k b.objects, v.held), ground (arith, z'));
      fresh = ground (arith, links-unlink_self k b.objects, v.fresh);
    }

one_of-IsCounted :
    (k : ℕ) (rest : List HandleEntry) {b : Book}
    → IsCounted k b
    → references k b.handles ≡ 1 + references k rest
    → (b.refcount - 1 == 0) ≡ false
    → IsCounted k (less_one k k rest b)
unfolding less_one
one_of-IsCounted k rest v e z = record {
  counted = ground (arith, v.counted, e);
  held = ground (arith, v.held, z);
  fresh = v.fresh;
}

other-IsCounted :
    (k id : ℕ) (rest : List HandleEntry) {b : Book}
    → IsCounted k b
    → references k b.handles ≡ references k rest
    → (id == k) ≡ false
    → IsCounted k (less_one k id rest b) × IsCounted k (unlinked id (less_one k id rest b))
unfolding less_one unlinked
other-IsCounted k id rest {b} v e h = (
  record {
    counted = ground (arith, v.counted, e, h);
    held = ground (arith, v.held, h);
    fresh = v.fresh;
  },
  record {
    counted = ground (arith, v.counted, e, h);
    held = ground (arith, v.held, h, links-unlink_other k id b.objects h);
    fresh = ground (arith, v.fresh, links-unlink_other k id b.objects h);
  },
)

released_same :
    (k : ℕ) (rest : List HandleEntry) {b : Book}
    → IsCounted k b
    → references k b.handles ≡ 1 + references k rest
    → IsCounted k (released k k b.refcount rest b)
released_same k rest {b} v e = elim (Bool-cases (b.refcount - 1 == 0)) [
  | inl z ↦ rw z (last-IsCounted k rest v e z)
  | inr z ↦ rw z (one_of-IsCounted k rest v e z)
]

released_other :
    (k id n : ℕ) (rest : List HandleEntry) {b : Book}
    → IsCounted k b
    → references k b.handles ≡ references k rest
    → (id == k) ≡ false
    → IsCounted k (released k id n rest b)
released_other k id n rest v e h = elim (Bool-cases (n - 1 == 0)) [
  | inl z ↦ rw z (other-IsCounted k id rest v e h).1
  | inr z ↦ rw z (other-IsCounted k id rest v e h).0
]

IsCounted-closed :
    (k : ℕ) (b : Book) (id n : ℕ) (rest : List HandleEntry)
    → references k b.handles ≡ hit k id + references k rest
    → ((id == k) ≡ false) ⊎ (n ≡ b.refcount)
    → IsCounted k b
    → IsCounted k (released k id n rest b)
IsCounted-closed k b id n rest e c v = elim (Bool-cases (id == k)) [
  | inr h ↦ released_other k id n rest v (ground (arith, e, h)) h
  | inl h ↦
      let i = (==_iff id k).0 h in
      let m : n ≡ b.refcount = ground (arith, c, h) in
      subst (λ j. IsCounted k (released k j n rest b)) (sym i)
        (subst (λ r. IsCounted k (released k k r rest b)) (sym m)
          (released_same k rest v (ground (arith, e, h))))
]

IsCounted-Rules : (k : ℕ) → Rules k (IsCounted k)
IsCounted-Rules k = record {
  thread_made = λ b v. linked_thread-IsCounted k v;
  object_made = λ b type e n v. new-IsCounted k v type e n;
  handle_given = λ b e l v. given-IsCounted k v e l;
  freed = λ b type v. unlink_new-IsCounted k type v;
  closed = IsCounted-closed k;
}

initial-IsCounted : (k : ℕ) → IsCounted k (book k initial)
unfolding book initial references links
initial-IsCounted k = record { counted = refl; held = inl (refl, refl); fresh = inr refl }

-- However clients fill slots and the daemon serves and sweeps, from its start on: the reference
-- count of an object is the number of entries of the handle table that name it, whatever was closed,
-- refused or failed on the way. An object is in the list of objects exactly once as long as an entry
-- names it. One that no entry names is not in the list, but for a thread, which is there once at most.
pub run-references :
    (k : ℕ) (es : List Event)
    → let t = run es initial in
      let n = references k t.handles in
      ((t.object_at k).refcount ≡ n)
      × ((links k t.objects ≡ 0) × (n ≡ 0)
          ⊎ (links k t.objects ≡ 1) × ((1 ≤ n) ⊎ (same_type (t.object_at k).type thread ≡ true)))
unfolding book
run-references k es =
    let v = run-keeps k (IsCounted k) (IsCounted-Rules k) es initial (initial-IsCounted k) in
    ground (arith, v.counted, v.held)
