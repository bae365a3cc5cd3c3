-- ===== src/Loader/Wine.antt =====
-- ntloader/ntloader.c, `main`: when it starts wine, and with what.
use mathlib.Core.Path.{subst}
use ntlinux.Common.{
  All-append, ℕ, ◌≡◌, refl, List, [], ◌∷◌, ◌++◌, Option, none, some, true, ltb, ◌==◌, length,
  bytes_eq, Bool-cases, Option-cases, inl, inr, All,
}
use ntlinux.Loader.{PeInfo, read_pe_info, load_dll_overrides}
use ntlinux.Loader.Config.{load_config}
use ntlinux.Loader.Paths.{
  System, Io, Call, mkdir, symlink, setenv, execvp, ◌>>=◌, ◌>>◌, return, die, call, or_die, path,
  path_max, xdg_data_home, mkdir_p, make_all, subdirs, link_drive, ensure_app_dirs, drive_c,
}
use ntlinux.Loader.Dirs.{attempt, mkdir_p-attempt}
use ntlinux.Loader.Main.{
  check_target, set_overrides, start_wine, main, appdir_of, is_supported, version_option,
  config_toml, prefix_dir, overrides_conf, wineprefix,
}

-- What a start of a program by `main` has to be: the program gets its own name, the path that the
-- target resolves to, which is an image for a processor that wine serves, and the other arguments.
abbrev pub IsProper : System → List ℕ → List (List ℕ) → Call → Type 0
IsProper sys target args (mkdir p) = Unit {0}
IsProper sys target args (symlink p q) = Unit {0}
IsProper sys target args (setenv v x) = Unit {0}
IsProper sys target args (execvp f argv) =
    (resolved : List ℕ) × (info : PeInfo) × (sys.realpath target ≡ some resolved)
    × (read_pe_info (sys.file resolved) ≡ some info)
    × (is_supported info.machine ≡ true)
    × (argv ≡ f ∷ resolved ∷ args)

bind-All {ℓ κ} :
    {A : Type ℓ} {B : Type κ} (P : Call → Type 0) (m : Io A) (f : A → Io B)
    → All P m.0
    → ((a : A) → m.1 ≡ some a → All P (f a).0)
    → All P (m >>= f).0
bind-All P (cs, none) f h k = h
bind-All P (cs, some a) f h k = All-append P cs (f a).0 h (k a refl)

path-quiet : (P : Call → Type 0) (s : List ℕ) → All P (path s).0
unfolding path
path-quiet P s = elim (Bool-cases (ltb (length s) path_max)) [ inl e ↦ rw e tt | inr e ↦ rw e tt ]

or_die-quiet {ℓ} : {A : Type ℓ} (P : Call → Type 0) (o : Option A) → All P (or_die o).0
or_die-quiet P none = tt
or_die-quiet P (some a) = tt

module _ (sys : System) (target : List ℕ) (args : List (List ℕ)) where
  abbrev P : Call → Type 0
  P = IsProper sys target args

  attempt-All : (ps : List (List ℕ)) → All P (attempt sys ps).0
  attempt-All [] = tt
  attempt-All (p ∷ ps) = elim (Bool-cases (sys.mkdir_ok p)) [
    | inl e ↦ rw e (tt, attempt-All ps)
    | inr e ↦ rw e (tt, tt)
  ]

  mkdir_p-All : (p : List ℕ) → All P (mkdir_p sys p).0
  mkdir_p-All p = rw (mkdir_p-attempt sys p) (elim (Bool-cases (ltb (length p) path_max)) [
    | inl e ↦ elim (Bool-cases (length p == 0)) [
      | inl z ↦ rw (e, z) tt
      | inr z ↦ rw (e, z) (attempt-All _)
    ]
    | inr e ↦ rw e tt
  ])

  make_all-All : (appdir : List ℕ) (ds : List (List ℕ)) → All P (make_all sys appdir ds).0
  unfolding make_all
  make_all-All appdir [] = tt
  make_all-All appdir (d ∷ ds) =
      let rest = make_all-All appdir ds in
      bind-All P (path (appdir ++ d)) _ (path-quiet P _) λ p e.
        bind-All P (mkdir_p sys p) _ (mkdir_p-All p)
          λ ok e'. elim (Bool-cases ok) [ inl o ↦ rw o rest | inr o ↦ rw o tt ]

  link_drive-All : (link : List ℕ) → All P (link_drive sys link).0
  unfolding link_drive
  link_drive-All link = elim (Bool-cases (sys.lstat_ok link)) [
    | inl e ↦ rw e tt
    | inr e ↦ rw e (tt, tt)
  ]

  ensure_app_dirs-All : (appdir : List ℕ) → All P (ensure_app_dirs sys appdir).0
  unfolding ensure_app_dirs
  ensure_app_dirs-All appdir =
      bind-All P (make_all sys appdir ([] ∷ subdirs)) _ (make_all-All appdir _) λ u e.
        bind-All P (path (appdir ++ drive_c)) _ (path-quiet P _) λ link e'. link_drive-All link

  set_overrides-All : (o : Option (List ℕ)) → All P (set_overrides o).0
  set_overrides-All none = tt
  set_overrides-All (some v) = (tt, tt)

  xdg_data_home-quiet : (xdg home : Option (List ℕ)) → All P (xdg_data_home xdg home).0
  unfolding xdg_data_home ntlinux.Loader.Paths.home_data
  xdg_data_home-quiet none none = tt
  xdg_data_home-quiet none (some home) = path-quiet P _
  xdg_data_home-quiet (some []) none = tt
  xdg_data_home-quiet (some []) (some home) = path-quiet P _
  xdg_data_home-quiet (some (c ∷ cs)) home = path-quiet P _

  launch-All :
      (resolved : List ℕ) (info : PeInfo) (prefix wine : List ℕ) (o : Option (List ℕ))
      → sys.realpath target ≡ some resolved
      → read_pe_info (sys.file resolved) ≡ some info
      → is_supported info.machine ≡ true
      → let go : Io ℕ =
          call (setenv wineprefix prefix)
          >> (set_overrides o >> (call (execvp wine (wine ∷ resolved ∷ args)) >> die)) in
        All P go.0
  launch-All resolved info prefix wine none r i m = (tt, ((resolved, info, r, i, m, refl), tt))
  launch-All resolved info prefix wine (some v) r i m =
      (tt, (tt, ((resolved, info, r, i, m, refl), tt)))

  start_wine-All :
      (resolved : List ℕ) (info : PeInfo)
      → sys.realpath target ≡ some resolved
      → read_pe_info (sys.file resolved) ≡ some info
      → is_supported info.machine ≡ true
      → All P (start_wine sys resolved args).0
  unfolding start_wine
  start_wine-All resolved info r i m =
      bind-All P (xdg_data_home sys.xdg sys.home) _ (xdg_data_home-quiet _ _) λ home e0.
        bind-All P (path (appdir_of home resolved)) _ (path-quiet P _) λ appdir e1.
          bind-All P (ensure_app_dirs sys appdir) _ (ensure_app_dirs-All appdir) λ u e2.
            bind-All P (path (appdir ++ config_toml)) _ (path-quiet P _) λ config e3.
              bind-All P (or_die (load_config (sys.file config))) _ (or_die-quiet P _) λ cfg e4.
                bind-All P (path (appdir ++ prefix_dir)) _ (path-quiet P _) λ prefix e5.
                  bind-All P (path (appdir ++ overrides_conf)) _ (path-quiet P _) λ conf e6.
                    launch-All resolved info prefix cfg.wine_binary
                      (load_dll_overrides (sys.file conf)) r i m

  check_target-quiet : All P (check_target sys target).0
  unfolding check_target
  check_target-quiet = bind-All P (or_die (sys.realpath target)) _ (or_die-quiet P _) λ resolved e.
      bind-All P (or_die (read_pe_info (sys.file resolved))) _ (or_die-quiet P _) λ info e'.
        elim (Bool-cases (is_supported info.machine)) [ inl o ↦ rw o tt | inr o ↦ rw o tt ]

check_target-Checked :
    (sys : System) (target : List ℕ) (r : List ℕ × PeInfo)
    → (check_target sys target).1 ≡ some r
    → (sys.realpath target ≡ some r.0)
      × (read_pe_info (sys.file r.0) ≡ some r.1)
      × (is_supported r.1.machine ≡ true)
unfolding check_target
check_target-Checked sys target r e = elim (Option-cases (sys.realpath target)) [
  | inl n ↦ absurd (cc (rw n at e))
  | inr (resolved, n) ↦ elim (Option-cases (read_pe_info (sys.file resolved))) [
    | inl i ↦ absurd (cc (rw (n, i) at e))
    | inr (info, i) ↦ elim (Bool-cases (is_supported info.machine)) [
      | inl m ↦
          let p : (resolved, info) ≡ r = cc (rw (n, i, m) at e) in
          subst
            (λ r.
              (sys.realpath target ≡ some r.0)
              × (read_pe_info (sys.file r.0) ≡ some r.1)
              × (is_supported r.1.machine ≡ true))
            p (n, i, m)
      | inr m ↦ absurd (cc (rw (n, i, m) at e))
    ]
  ]
]

-- Whatever the system answers: each program that `main` starts for a target gets its own name, the
-- path that the target resolves to and the other arguments of the command line, in order, and that
-- path holds an image for i386 or amd64.
pub main-IsProper :
    (sys : System) (self target : List ℕ) (args : List (List ℕ))
    → All (IsProper sys target args) (main sys (self ∷ target ∷ args)).0
unfolding main
main-IsProper sys self target args = elim (Bool-cases (bytes_eq target version_option)) [
  | inl v ↦ rw v tt
  | inr v ↦ rw v (
      bind-All (IsProper sys target args) (check_target sys target) _
        (check_target-quiet sys target args)
        λ r e.
          let (a, b, c) = check_target-Checked sys target r e in
          start_wine-All sys target args r.0 r.1 a b c)
]
