-- ===== src/Ntd/Isolation.antt =====
-- ntd/ntd.c, the handle table: giving a handle and taking it back, seen from every other handle.
use ntlinux.Common.{
  ℕ, ℤ, pos, negsuc, ◌+◌, ◌≤◌, ◌<◌, ◌^◌, ◌≡◌, ◌≢◌, ◌⊎◌, refl, List, [], ◌∷◌, none, some, Bool, true,
  ◌&&◌, ◌==◌, ltb, eq_ℤ, arith, if◌then◌else◌, Bool-cases, inl, inr,
}
use ntlinux.Ntd.State.{Ntd, HandleEntry}
use ntlinux.Ntd.Handles.{
  max_handle, alloc_local_handle, register_handle, is_entry, find_handle, remove_handle_entry,
}

-- No two entries have the same process and handle, and handles are positive.
abbrev pub IsTable : List HandleEntry → Type 0
IsTable [] = Unit {0}
IsTable (e ∷ es) =
    (0 < e.local_handle) × (find_handle e.owner_pid (pos e.local_handle) es ≡ none) × IsTable es

-- Whether two keys of the table are the same.
abbrev pub same_key : ℕ → ℤ → ℕ → ℤ → Bool
same_key p h q j = p == q && eq_ℤ h j

max_handle-le : (pid : ℕ) (hs : List HandleEntry) (m : ℕ) → m ≤ max_handle pid hs m
unfolding max_handle
max_handle-le pid [] m = omega arith
max_handle-le pid (e ∷ es) m =
    let n : ℕ = if e.owner_pid == pid && ltb m e.local_handle then e.local_handle else m in
    let a : m ≤ n = ground arith in omega (arith, max_handle-le pid es n)

-- A handle above the largest of the process is free.
find_handle_above :
    (pid h : ℕ) (hs : List HandleEntry) (m : ℕ)
    → max_handle pid hs m < h
    → find_handle pid (pos h) hs ≡ none
unfolding find_handle max_handle
find_handle_above pid h [] m lt = refl
find_handle_above pid h (e ∷ es) m lt =
    let n : ℕ = if e.owner_pid == pid && ltb m e.local_handle then e.local_handle else m in
    let a : n < h = omega (arith, max_handle-le pid es n) in
    let b = find_handle_above pid h es n lt in ground (arith, b)

-- Whether the process has handles below the largest number of 32 bits with a sign only: one more is a
-- number too.
abbrev pub CanGrow : ℕ → List HandleEntry → Type 0
CanGrow pid [] = Unit {0}
CanGrow pid (e ∷ es) = ((e.owner_pid ≢ pid) ⊎ (e.local_handle + 1 < 2 ^ 31)) × CanGrow pid es

max_handle-lt :
    (pid : ℕ) (hs : List HandleEntry) (m : ℕ)
    → CanGrow pid hs
    → m + 1 < 2 ^ 31
    → max_handle pid hs m + 1 < 2 ^ 31
unfolding max_handle
max_handle-lt pid [] m v h = h
max_handle-lt pid (e ∷ es) m v h = max_handle-lt pid es _ v.1 (ground (arith, v.0, h))

-- In a table that has each key once, with positive handles, those of the process below 2^31 - 1:
-- `register_handle` gives a positive handle below 2^31 that the process did not have and that names
-- the object; no other handle of any process changes, and the table still has each key once.
pub register_handle-fresh :
    (pid id : ℕ) (s : Ntd)
    → IsTable s.handles
    → CanGrow pid s.handles
    → let (h, t) = register_handle pid id s in
      (0 < h)
      × (h < 2 ^ 31)
      × (find_handle pid (pos h) s.handles ≡ none)
      × ((q : ℕ) (j : ℤ)
          → find_handle q j t.handles
            ≡ (if same_key pid (pos h) q j then some id else find_handle q j s.handles))
      × IsTable t.handles
unfolding register_handle alloc_local_handle find_handle
register_handle-fresh pid id s v g =
    let free = find_handle_above pid (max_handle pid s.handles 0 + 1) s.handles 0 (omega arith) in
    (
      omega arith,
      max_handle-lt pid s.handles 0 g (omega arith),
      free,
      λ q j. refl,
      (omega arith, free, v),
    )

same_entry :
    (pid : ℕ) (h : ℤ) (e : HandleEntry)
    → is_entry pid h e ≡ true
    → (pid ≡ e.owner_pid) × (h ≡ pos e.local_handle)
same_entry pid (pos n) e m = (ground arith, ground arith)
same_entry pid (negsuc n) e m = (ground arith, ground arith)

find-remove :
    (pid : ℕ) (h : ℤ) (hs : List HandleEntry) (q : ℕ) (j : ℤ)
    → IsTable hs
    → find_handle q j (remove_handle_entry pid h hs).1
      ≡ (if same_key pid h q j then none else find_handle q j hs)
unfolding find_handle remove_handle_entry
find-remove pid h [] q j v = ground arith
find-remove pid h (e ∷ es) q j v = elim (Bool-cases (is_entry pid h e)) [
  | inl m ↦ rw m (ground (arith, same_entry pid h e m))
  | inr n ↦ rw n (ground (arith, find-remove pid h es q j v.2))
]

remove-IsTable :
    (pid : ℕ) (h : ℤ) (hs : List HandleEntry)
    → IsTable hs
    → IsTable (remove_handle_entry pid h hs).1
unfolding remove_handle_entry
remove-IsTable pid h [] v = tt
remove-IsTable pid h (e ∷ es) v = elim (Bool-cases (is_entry pid h e)) [
  | inl m ↦ rw m v.2
  | inr n ↦ rw n (
    v.0,
    ground (arith, find-remove pid h es e.owner_pid (pos e.local_handle) v.2),
    remove-IsTable pid h es v.2,
  )
]

remove-find :
    (pid : ℕ) (h : ℤ) (hs : List HandleEntry)
    → (remove_handle_entry pid h hs).0 ≡ find_handle pid h hs
unfolding find_handle remove_handle_entry
remove-find pid h [] = refl
remove-find pid h (e ∷ es) = ground (arith, remove-find pid h es)

-- In a table that has each key once, with positive handles, `remove_handle_entry` returns the
-- object that the process's handle names, after which that handle names nothing; no other handle of
-- this or any other process changes, and the table still has each key once.
pub remove_handle_entry-isolated :
    (pid : ℕ) (h : ℤ) (hs : List HandleEntry)
    → IsTable hs
    → let (o, rest) = remove_handle_entry pid h hs in
      (o ≡ find_handle pid h hs)
      × ((q : ℕ) (j : ℤ)
          → find_handle q j rest ≡ (if same_key pid h q j then none else find_handle q j hs))
      × IsTable rest
remove_handle_entry-isolated pid h hs v =
    (remove-find pid h hs, λ q j. find-remove pid h hs q j v, remove-IsTable pid h hs v)
