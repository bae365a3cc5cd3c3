-- ===== src/Ntd/Counts/Handlers.antt =====
-- ntd/ntd.c: the handlers that make objects and give handles keep the reference counts true.
use ntlinux.Common.{
  bytes_eq, ℕ, ◌≤◌, ◌≡◌, refl, ◌∙◌, List, [], ◌∷◌, some, Bool, arith, Bool-cases, Option-cases, inl,
  inr,
}
use ntlinux.Ntabi.{
  Request, Status, object_name_not_found, object_name_collision, object_type_mismatch,
  invalid_parameter,
}
use ntlinux.Ntd.State.{Ntd, NtObject, ObjType, put_object}
use ntlinux.Ntd.Handles.{register_handle}
use ntlinux.Ntd.Objects.{same_type, is_empty, find_object, find_by_name, create_object}
use ntlinux.Ntd.Sync.{
  answer, name_taken, create_with, give_handle, handle_open_typed, handle_create_event,
  handle_create_mutant, handle_create_semaphore, bad_counts,
}
use ntlinux.Ntd.Ports.{handle_create_completion}
use ntlinux.Ntd.Counts.{
  book, links, linked, Book, Rules, put_object-book, create_object-book, register_handle-book,
}
use ntlinux.Ntd.Counts.Waking.{answer-book, complete-book}

-- An object that a search finds is in the list.
pub find_object-links :
    (p : NtObject → Bool) (at : ℕ → NtObject) (ids : List ℕ) (id : ℕ)
    → find_object p at ids ≡ some id
    → 1 ≤ links id ids
unfolding find_object links
find_object-links p at [] id e = cc
find_object-links p at (j ∷ js) id e = elim (Bool-cases (p (at j))) [
  | inl t ↦ ground (arith, e, t)
  | inr t ↦ ground (arith, find_object-links p at js id, e, t)
]

pub find_by_name-links :
    (s : Ntd) (name : List ℕ) (id : ℕ) → find_by_name s name ≡ some id → 1 ≤ links id s.objects
unfolding find_by_name
find_by_name-links s name id e = elim (Bool-cases (is_empty name)) [
  | inl t ↦ ground (arith, e, t)
  | inr t ↦ find_object-links (λ o. bytes_eq o.name name) s.object_at s.objects id (rw t at e)
]

-- What the book-keeping of `k` says of a state.
abbrev pub Holds : ℕ → (Book → Type 0) → Ntd → Type 0
Holds k P s = P (book k s)

module _ (k : ℕ) (P : Book → Type 0) (rules : Rules k P) where
  -- A handle to an object of the list, and one to the object that was just made.
  pub register-keeps :
      (pid id : ℕ) (s : Ntd)
      → Holds k P s
      → 1 ≤ links id s.objects
      → Holds k P (register_handle pid id s).1
  unfolding book
  register-keeps pid id s v l = rw (register_handle-book k pid id s) (rules.handle_given _ _ l v)

  pub register_new-keeps :
      (pid : ℕ) (type : ObjType) (s t : Ntd)
      → Holds k P s
      → book k t ≡ linked k type (book k s)
      → Holds k P (register_handle pid s.next_object_id t).1
  unfolding book
  register_new-keeps pid type s t v e =
      rw (register_handle-book k pid s.next_object_id t)
        (rw e (rules.object_made (book k s) type _ refl v))

  pub answer-keeps : (i : ℕ) (st : Status) (s : Ntd) → Holds k P s → Holds k P (answer s i st)
  answer-keeps i st s v = rw (answer-book k s i st) v

  pub give_handle-keeps :
      (id i pid : ℕ) (s : Ntd)
      → Holds k P s
      → 1 ≤ links id s.objects
      → Holds k P (give_handle id i pid s)
  unfolding give_handle
  give_handle-keeps id i pid s v l = rw complete-book (register-keeps pid id s v l)

  pub give_new-keeps :
      (i pid : ℕ) (type : ObjType) (s t : Ntd)
      → Holds k P s
      → book k t ≡ linked k type (book k s)
      → Holds k P (give_handle s.next_object_id i pid t)
  unfolding give_handle
  give_new-keeps i pid type s t v e = rw complete-book (register_new-keeps pid type s t v e)

  -- Initial fields that are not the book's leave a new object as it is.
  create_with-keeps :
      (type : ObjType) (init : NtObject → NtObject) (req : Request) (i pid : ℕ) (s : Ntd)
      → ((o : NtObject) → ((init o).refcount ≡ o.refcount) × ((init o).type ≡ o.type))
      → Holds k P s
      → Holds k P (create_with type init req i pid s)
  unfolding create_with create_object
  create_with-keeps type init req i pid s h v =
      let (id, s1) = create_object type req.name s in
      let (e, f) = h (s1.object_at id) in
      rw complete-book (
        register_new-keeps pid type s (put_object s1 id (init (s1.object_at id))) v
          (put_object-book k s1 id _ e f ∙ create_object-book k type req.name s))

  pub create_event-keeps :
      (req : Request) (i pid : ℕ) (s : Ntd)
      → Holds k P s
      → Holds k P (handle_create_event req i pid s)
  unfolding handle_create_event
  create_event-keeps req i pid s v = elim (Bool-cases (name_taken s req)) [
    | inl t ↦ rw t (answer-keeps i object_name_collision s v)
    | inr t ↦ rw t (create_with-keeps _ _ req i pid s (λ o. (refl, refl)) v)
  ]

  pub create_mutant-keeps :
      (req : Request) (i pid : ℕ) (s : Ntd)
      → Holds k P s
      → Holds k P (handle_create_mutant req i pid s)
  unfolding handle_create_mutant
  create_mutant-keeps req i pid s v = elim (Bool-cases (name_taken s req)) [
    | inl t ↦ rw t (answer-keeps i object_name_collision s v)
    | inr t ↦ rw t (create_with-keeps _ _ req i pid s (λ o. ground arith) v)
  ]

  pub create_semaphore-keeps :
      (req : Request) (i pid : ℕ) (s : Ntd)
      → Holds k P s
      → Holds k P (handle_create_semaphore req i pid s)
  unfolding handle_create_semaphore
  create_semaphore-keeps req i pid s v = elim (Bool-cases (bad_counts req)) [
    | inl b ↦ rw b (answer-keeps i invalid_parameter s v)
    | inr b ↦ elim (Bool-cases (name_taken s req)) [
      | inl t ↦ rw (b, t) (answer-keeps i object_name_collision s v)
      | inr t ↦ rw (b, t) (create_with-keeps _ _ req i pid s (λ o. (refl, refl)) v)
    ]
  ]

  pub create_completion-keeps :
      (req : Request) (i pid : ℕ) (s : Ntd)
      → Holds k P s
      → Holds k P (handle_create_completion req i pid s)
  unfolding handle_create_completion
  create_completion-keeps req i pid s v = elim (Bool-cases (name_taken s req)) [
    | inl t ↦ rw t (answer-keeps i object_name_collision s v)
    | inr t ↦ rw t (create_with-keeps _ _ req i pid s (λ o. (refl, refl)) v)
  ]

  pub open_typed-keeps :
      (type : ObjType) (req : Request) (i pid : ℕ) (s : Ntd)
      → Holds k P s
      → Holds k P (handle_open_typed type req i pid s)
  unfolding handle_open_typed
  open_typed-keeps type req i pid s v = elim (Option-cases (find_by_name s req.name)) [
    | inl n ↦ rw (handle_open_typed, n) (answer-keeps i object_name_not_found s v)
    | inr (id, n) ↦ elim (Bool-cases (same_type (s.object_at id).type type)) [
      | inl t ↦
          rw (handle_open_typed, n, t)
            (give_handle-keeps id i pid s v (find_by_name-links s req.name id n))
      | inr t ↦ rw (handle_open_typed, n, t) (answer-keeps i object_type_mismatch s v)
    ]
  ]
