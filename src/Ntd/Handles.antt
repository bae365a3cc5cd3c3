-- ===== src/Ntd/Handles.antt =====
-- ntd/ntd.c: the per-process handle table.
use ntlinux.Common.{
  ℕ, ℤ, pos, ◌+◌, List, [], ◌∷◌, Option, none, some, Bool, ◌&&◌, ◌==◌, ltb, eq_ℤ, if◌then◌else◌,
}
use ntlinux.Ntd.State.{Ntd, HandleEntry, put_object}

-- The largest handle of `pid`, from `max_seen` on.
unfoldable pub max_handle : ℕ → List HandleEntry → ℕ → ℕ
max_handle pid [] max_seen = max_seen
max_handle pid (h ∷ hs) max_seen =
    max_handle pid hs
      (if h.owner_pid == pid && ltb max_seen h.local_handle then h.local_handle else max_seen)

-- `max_seen + 1`. At the largest `int32_t`, where C leaves open what the sum is, the number goes on.
unfoldable pub alloc_local_handle : ℕ → List HandleEntry → ℕ
alloc_local_handle pid hs = max_handle pid hs 0 + 1

-- The new handle, and the state with its entry.
unfoldable pub register_handle : ℕ → ℕ → Ntd → ℕ × Ntd
register_handle pid id s =
    let h = alloc_local_handle pid s.handles in
    let o = s.object_at id in
    (
      h,
      record (put_object s id (record o { refcount = o.refcount + 1 })) {
        handles = record { owner_pid = pid; local_handle = h; object = id } ∷ s.handles;
      },
    )

abbrev pub is_entry : ℕ → ℤ → HandleEntry → Bool
is_entry pid h e = e.owner_pid == pid && eq_ℤ (pos e.local_handle) h

unfoldable pub find_handle : ℕ → ℤ → List HandleEntry → Option ℕ
find_handle pid h [] = none
find_handle pid h (e ∷ es) = if is_entry pid h e then some e.object else find_handle pid h es

-- The object of the first entry that fits, and the table without that entry.
unfoldable pub remove_handle_entry : ℕ → ℤ → List HandleEntry → Option ℕ × List HandleEntry
remove_handle_entry pid h [] = (none, [])
remove_handle_entry pid h (e ∷ es) =
    let (o, rest) = remove_handle_entry pid h es in
    if is_entry pid h e then (some e.object, es) else (o, e ∷ rest)
