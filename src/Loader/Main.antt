-- ===== src/Loader/Main.antt =====
-- ntloader/ntloader.c, `main`: from the command line to the start of wine.
use ntlinux.Common.{
  ℕ, List, [], ◌∷◌, ◌++◌, Option, none, some, Bool, ◌||◌, ◌==◌, bytes_eq, if◌then◌else◌,
}
use ntlinux.Common.Text.{codes, hex}
use ntlinux.Loader.{PeInfo, read_pe_info, load_dll_overrides}
use ntlinux.Loader.Config.{load_config}
use ntlinux.Loader.Paths.{
  System, Io, setenv, execvp, ◌>>=◌, ◌>>◌, return, die, call, or_die, path, fnv1a64, xdg_data_home,
  ensure_app_dirs,
}

-- The part of a path behind its last slash.
abbrev pub base_from : List ℕ → List ℕ → List ℕ
base_from base [] = base
base_from base (c ∷ cs) = if c == 47 then base_from cs cs else base_from base cs

unfoldable pub base_name : List ℕ → List ℕ
base_name p = base_from p p

abbrev pub apps : List ℕ
apps = codes "/ntlinux/apps/"

unfoldable pub appdir_of : List ℕ → List ℕ → List ℕ
appdir_of home resolved = (home ++ apps) ++ (base_name resolved ++ 45 ∷ hex 16 (fnv1a64 resolved))

abbrev pub config_toml : List ℕ
config_toml = codes "/config.toml"

abbrev pub prefix_dir : List ℕ
prefix_dir = codes "/prefix"

abbrev pub overrides_conf : List ℕ
overrides_conf = codes "/dll-overrides/overrides.conf"

abbrev pub version_option : List ℕ
version_option = codes "--version"

abbrev pub wineprefix : List ℕ
wineprefix = codes "WINEPREFIX"

abbrev pub winedlloverrides : List ℕ
winedlloverrides = codes "WINEDLLOVERRIDES"

abbrev pub is_supported : ℕ → Bool
is_supported machine = machine == 0x014c || machine == 0x8664

-- The path of the target and its headers, or the end.
unfoldable pub check_target : System → List ℕ → Io (List ℕ × PeInfo)
check_target sys target = do
  resolved ← or_die (sys.realpath target)
  info ← or_die (read_pe_info (sys.file resolved))
  if is_supported info.machine then return (resolved, info) else die

abbrev pub set_overrides : Option (List ℕ) → Io (Unit {0})
set_overrides none = return tt
set_overrides (some v) = call (setenv winedlloverrides v)

-- The part behind the checks. `execvp` comes back only when it fails.
unfoldable pub start_wine : System → List ℕ → List (List ℕ) → Io ℕ
start_wine sys resolved args = do
  home ← xdg_data_home sys.xdg sys.home
  appdir ← path (appdir_of home resolved)
  ensure_app_dirs sys appdir
  config ← path (appdir ++ config_toml)
  cfg ← or_die (load_config (sys.file config))
  prefix ← path (appdir ++ prefix_dir)
  conf ← path (appdir ++ overrides_conf)
  call (setenv wineprefix prefix)
  set_overrides (load_dll_overrides (sys.file conf))
  call (execvp cfg.wine_binary (cfg.wine_binary ∷ resolved ∷ args))
  die

-- The exit status, where `main` returns one.
unfoldable pub main : System → List (List ℕ) → Io ℕ
main sys [] = die
main sys (self ∷ []) = die
main sys (self ∷ target ∷ args) =
    if bytes_eq target version_option
    then return 0
    else (do (resolved, info) ← check_target sys target; start_wine sys resolved args)
