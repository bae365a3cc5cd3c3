-- ===== src/Loader/Dirs.antt =====
-- ntloader/ntloader.c, `mkdir_p`: which directories it makes, in which order.
use ntlinux.Common.{
  take_front, get_or_front, append_snoc, length-append, not, ℕ, zero, suc, ◌≡◌, refl, List, [], ◌∷◌,
  ◌++◌, none, some, Bool, true, false, ◌==◌, ltb, length, take, get_or, if◌then◌else◌, Bool-cases,
  inl, inr, arith,
}
use ntlinux.Loader.Paths.{
  System, Io, mkdir, ◌>>=◌, return, path, path_max, strip_slash, try_mkdir, make_from, make_parents,
  mkdir_p,
}

-- The first `i` bytes of a path, the first `i + 1` and so on to all, but for those that no slash
-- follows.
abbrev pub stops_from : ℕ → ℕ → List ℕ → List (List ℕ)
stops_from i zero p = take i p ∷ []
stops_from i (suc n) p =
    let rest = stops_from (suc i) n p in if get_or p i 0 == 47 then take i p ∷ rest else rest

abbrev pub stops : List ℕ → List (List ℕ)
stops [] = [] ∷ []
stops (c ∷ cs) = stops_from 1 (length cs) (c ∷ cs)

-- `mkdir` on each of a list, as long as it goes well.
abbrev pub attempt : System → List (List ℕ) → Io Bool
attempt sys [] = ([], some true)
attempt sys (p ∷ ps) =
    let (calls, ok) = attempt sys ps in
    if sys.mkdir_ok p then (mkdir p ∷ calls, ok) else (mkdir p ∷ [], some false)

attempt_one : (sys : System) (p : List ℕ) → try_mkdir sys p ≡ attempt sys (p ∷ [])
attempt_one sys p = ground arith

attempt_next :
    (sys : System) (p : List ℕ) (ps : List (List ℕ)) (rest : Io Bool)
    → rest ≡ attempt sys ps
    → try_mkdir sys p >>= (λ ok. if ok then rest else return false) ≡ attempt sys (p ∷ ps)
attempt_next sys p ps rest e =
    rw e (elim (Bool-cases (sys.mkdir_ok p)) [ inl m ↦ rw m refl | inr m ↦ rw m refl ])

make_from-attempt :
    (sys : System) (before cs : List ℕ)
    → make_from sys before cs ≡ attempt sys (stops_from (length before) (length cs) (before ++ cs))
unfolding make_from
make_from-attempt sys before [] = rw take_front (attempt_one sys before)
make_from-attempt sys before (c ∷ cs) =
    let ih = make_from-attempt sys (before ++ c ∷ []) cs in
    let l : length (before ++ c ∷ []) ≡ suc (length before) =
      omega (arith, length-append before (c ∷ [])) in
    let rest : make_from sys (before ++ c ∷ []) cs
        ≡ attempt sys (stops_from (suc (length before)) (length cs) (before ++ c ∷ cs)) =
      rw (l, append_snoc before c cs) at ih in
    elim (Bool-cases (c == 47)) [
      | inl e ↦
          rw (get_or_front before c cs 0, e, take_front before (c ∷ cs))
            (attempt_next sys before _ _ rest)
      | inr e ↦ rw (get_or_front before c cs 0, e) rest
    ]

-- What `mkdir_p` does to a path that fits: an empty one is refused; of another, it makes the
-- directories that stand before a slash, from the shortest on, and the path itself, which loses a
-- slash at its end; the first that `mkdir` neither makes nor finds ends it, with a refusal. A path of
-- PATH_MAX bytes or more ends the program before any directory is made.
pub mkdir_p-attempt :
    (sys : System) (p : List ℕ)
    → mkdir_p sys p ≡ (
        if not (ltb (length p) path_max)
        then ([], none)
        else if length p == 0
        then ([], some false)
        else attempt sys (stops (strip_slash p)))
unfolding mkdir_p path
mkdir_p-attempt sys p = elim (Bool-cases (ltb (length p) path_max)) [
  | inl e ↦ elim (Bool-cases (length p == 0)) [
    | inl z ↦ rw (e, z) refl
    | inr z ↦ rw (e, z) (parents (strip_slash p))
  ]
  | inr e ↦ rw e refl
]
  where
    parents : (q : List ℕ) → make_parents sys q ≡ attempt sys (stops q)
    parents [] = attempt_one sys []
    parents (c ∷ cs) = make_from-attempt sys (c ∷ []) cs
