-- ===== src/Loader/Starts.antt =====
-- ntloader/ntloader.c, `main`: where nothing goes wrong it starts wine.
use ntlinux.Common.{
  All, ℕ, ◌+◌, ◌<◌, ◌≤◌, ◌≡◌, refl, List, [], ◌∷◌, ◌++◌, map, Option, none, some, true, false, ◌==◌,
  length, length-append, bytes_eq, if◌then◌else◌, Bool-cases, inl, inr, arith, lt→ltb,
}
use ntlinux.Loader.{PeInfo, read_pe_info, load_dll_overrides}
use ntlinux.Loader.Config.{AppConfig, load_config}
use ntlinux.Loader.Paths.{
  System, Io, Call, mkdir, symlink, setenv, execvp, ◌>>◌, die, call, path, path_max, xdg_data_home,
  mkdir_p, make_all, subdirs, link_drive, link_target, ensure_app_dirs, drive_c, strip_slash,
}
use ntlinux.Loader.Dirs.{attempt, stops, mkdir_p-attempt}
use ntlinux.Loader.Main.{
  check_target, set_overrides, start_wine, main, appdir_of, base_name, apps, is_supported,
  version_option, config_toml, prefix_dir, overrides_conf, wineprefix, winedlloverrides,
}

-- The directories of the application, each with those above it, and the link to the drive unless
-- something is there.
abbrev pub directories : List ℕ → List (List ℕ) → List Call
directories appdir [] = []
directories appdir (d ∷ ds) = map mkdir (stops (strip_slash (appdir ++ d))) ++ directories appdir ds

abbrev pub link_call : System → List ℕ → List Call
link_call sys link = if sys.lstat_ok link then [] else symlink link_target link ∷ []

abbrev pub override_call : Option (List ℕ) → List Call
override_call none = []
override_call (some v) = setenv winedlloverrides v ∷ []

path-fits : (s : List ℕ) → length s < path_max → path s ≡ ([], some s)
unfolding path
path-fits s h = rw (lt→ltb _ _ h) refl

-- A system where directories and the link can be made, for an application whose paths fit.
module _ (sys : System) (appdir : List ℕ) (makes : (p : List ℕ) → sys.mkdir_ok p ≡ true)
    (some_bytes : 1 ≤ length appdir) where
  attempt-fine : (ps : List (List ℕ)) → attempt sys ps ≡ (map mkdir ps, some true)
  attempt-fine [] = refl
  attempt-fine (p ∷ ps) = rw (makes p, attempt-fine ps) refl

  mkdir_p-fine :
      (p : List ℕ)
      → 1 ≤ length p
      → length p < path_max
      → mkdir_p sys p ≡ (map mkdir (stops (strip_slash p)), some true)
  mkdir_p-fine p a b =
      let e : (length p == 0) ≡ false = ground (arith, a) in
      rw (mkdir_p-attempt sys p, lt→ltb _ _ b, e) (attempt-fine (stops (strip_slash p)))

  make_all-fine :
      (ds : List (List ℕ))
      → All (λ d. length d < 30) ds
      → length appdir + 30 < path_max
      → make_all sys appdir ds ≡ (directories appdir ds, some tt)
  unfolding make_all
  make_all-fine [] h l = refl
  make_all-fine (d ∷ ds) h l =
      let n = length-append appdir d in
      rw
        (
          path-fits (appdir ++ d) (omega (arith, n, h.0)),
          mkdir_p-fine (appdir ++ d) (omega (arith, n)) (omega (arith, n, h.0)),
          make_all-fine ds h.1 l,
        )
        refl

  ensure_app_dirs-fine :
      length appdir + 30 < path_max
      → ((p : List ℕ) → sys.symlink_ok p ≡ true)
      → ensure_app_dirs sys appdir
        ≡ (directories appdir ([] ∷ subdirs) ++ link_call sys (appdir ++ drive_c), some tt)
  unfolding ensure_app_dirs link_drive
  ensure_app_dirs-fine l links =
      rw
        (
          make_all-fine ([] ∷ subdirs) (ground arith) l,
          path-fits (appdir ++ drive_c) (omega (arith, length-append appdir drive_c)),
        )
        (elim (Bool-cases (sys.lstat_ok (appdir ++ drive_c))) [
          | inl e ↦ rw e refl
          | inr e ↦ rw (e, links (appdir ++ drive_c)) refl
        ])

check_target-fine :
    (sys : System) (target resolved : List ℕ) (info : PeInfo)
    → sys.realpath target ≡ some resolved
    → read_pe_info (sys.file resolved) ≡ some info
    → is_supported info.machine ≡ true
    → check_target sys target ≡ ([], some (resolved, info))
unfolding check_target
check_target-fine sys target resolved info r i m = rw (r, i, m) refl

appdir_of-length : (home resolved : List ℕ) → 1 ≤ length (appdir_of home resolved)
unfolding appdir_of
appdir_of-length home resolved =
    omega (arith, length-append (home ++ apps) (base_name resolved ++ _), length-append home apps)

-- The calls of a start that goes well.
abbrev pub calls_of : System → List ℕ → List ℕ → List ℕ → List (List ℕ) → List Call
calls_of sys appdir wine resolved args =
    (directories appdir ([] ∷ subdirs) ++ link_call sys (appdir ++ drive_c))
    ++ setenv wineprefix (appdir ++ prefix_dir)
      ∷ (override_call (load_dll_overrides (sys.file (appdir ++ overrides_conf)))
          ++ execvp wine (wine ∷ resolved ∷ args) ∷ [])

launch-fine :
    (before : List Call) (prefix wine resolved : List ℕ) (args : List (List ℕ))
    (o : Option (List ℕ))
    → (let m : Io (Unit {0}) = (before, some tt) in
        let go : Io ℕ =
          m
          >> (call (setenv wineprefix prefix)
              >> (set_overrides o >> (call (execvp wine (wine ∷ resolved ∷ args)) >> die))) in
        go ≡ (
          before
              ++ setenv wineprefix prefix
                ∷ (override_call o ++ execvp wine (wine ∷ resolved ∷ args) ∷ []),
          none,
        ))
launch-fine before prefix wine resolved args none = refl
launch-fine before prefix wine resolved args (some v) = refl

-- Where the target resolves to an image for i386 or amd64, its paths fit, its configuration can be
-- read, and directories and the link can be made, `main` makes the directories of the application
-- with those above them and the link to its drive, sets WINEPREFIX to the prefix among them and
-- WINEDLLOVERRIDES to the overrides where there are some, and then starts the configured wine with
-- the path of the image and the other arguments; nothing else.
pub main-starts :
    (sys : System) (self target resolved home : List ℕ) (args : List (List ℕ)) (info : PeInfo)
    (cfg : AppConfig)
    → bytes_eq target version_option ≡ false
    → sys.realpath target ≡ some resolved
    → read_pe_info (sys.file resolved) ≡ some info
    → is_supported info.machine ≡ true
    → xdg_data_home sys.xdg sys.home ≡ ([], some home)
    → length (appdir_of home resolved) + 30 < path_max
    → ((p : List ℕ) → sys.mkdir_ok p ≡ true)
    → ((p : List ℕ) → sys.symlink_ok p ≡ true)
    → load_config (sys.file (appdir_of home resolved ++ config_toml)) ≡ some cfg
    → main sys (self ∷ target ∷ args)
      ≡ (calls_of sys (appdir_of home resolved) cfg.wine_binary resolved args, none)
unfolding main start_wine
main-starts sys self target resolved home args info cfg t r i m x l makes links c =
    let appdir = appdir_of home resolved in
    let some_bytes = appdir_of-length home resolved in
    rw
      (
        t,
        check_target-fine sys target resolved info r i m,
        x,
        path-fits appdir (omega (arith, l)),
        ensure_app_dirs-fine sys appdir makes some_bytes l links,
        path-fits (appdir ++ config_toml) (omega (arith, l, length-append appdir config_toml)),
        c,
        path-fits (appdir ++ prefix_dir) (omega (arith, l, length-append appdir prefix_dir)),
        path-fits (appdir ++ overrides_conf)
            (omega (arith, l, length-append appdir overrides_conf)),
      )
      (launch-fine _ (appdir ++ prefix_dir) cfg.wine_binary resolved args
        (load_dll_overrides (sys.file (appdir ++ overrides_conf))))
