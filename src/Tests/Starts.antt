-- ===== src/Tests/Starts.antt =====
-- The loader: the start of an image.
use ntlinux.Common.{
  ℕ, ◌+◌, ◌<◌, ◌≡◌, ◌≢◌, refl, List, [], ◌∷◌, none, some, true, false, bytes_eq, length,
  if◌then◌else◌, All, arith,
}
use ntlinux.Common.Text.{codes, hex}
use ntlinux.Loader.Config.{AppConfig, default_wine_binary, load_config}
use ntlinux.Loader.Images.{image, info_of, read_pe_info-image}
use ntlinux.Loader.Paths.{System, mkdir, path_max, fnv1a64, xdg_data_home, mkdir_p, path}
use ntlinux.Loader.Hash.{fnv1a64-one_byte}
use ntlinux.Loader.Dirs.{mkdir_p-attempt}
use ntlinux.Loader.Main.{main, appdir_of, base_name}
use ntlinux.Loader.Wine.{IsProper, main-IsProper}
use ntlinux.Loader.Starts.{calls_of, main-starts}
use ntlinux.Tests.Images.{zeros}

-- An image for amd64 at "/a.exe", and nothing else.
abbrev target : List ℕ
target = codes "/a.exe"

abbrev plain : AppConfig
plain = record { wine_binary = default_wine_binary; windows_version = [] }

abbrev empty_disk : System
empty_disk = record {
  xdg = some (codes "/data");
  home = none;
  realpath = λ p. some p;
  file = λ p.
      if bytes_eq p target then some (image (zeros 58) (1 ∷ 2 ∷ []) 0x8664 (zeros 18) []) else none;
  mkdir_ok = λ p. true;
  lstat_ok = λ p. false;
  symlink_ok = λ p. true;
}

fnv1a64-one_byte_example : fnv1a64 (codes "/a/game.exe") ≢ fnv1a64 (codes "/b/game.exe")
fnv1a64-one_byte_example =
    fnv1a64-one_byte 97 98 (47 ∷ []) (codes "/game.exe") (omega arith) (omega arith) (ground arith)
      (ground arith)

mkdir_p-attempt_example :
    mkdir_p empty_disk (codes "/a/b/") ≡ (mkdir (codes "/a") ∷ mkdir (codes "/a/b") ∷ [], some true)
mkdir_p-attempt_example = mkdir_p-attempt empty_disk (codes "/a/b/")

main-IsProper_example :
    All
      (IsProper empty_disk target (codes "-x" ∷ []))
      (main empty_disk (codes "ntloader" ∷ target ∷ codes "-x" ∷ [])).0
main-IsProper_example = main-IsProper empty_disk (codes "ntloader") target (codes "-x" ∷ [])

data_is_there : xdg_data_home empty_disk.xdg empty_disk.home ≡ ([], some (codes "/data"))
unfolding xdg_data_home path
data_is_there = refl

short_enough : length (appdir_of (codes "/data") target) + 30 < path_max
unfolding appdir_of base_name hex
short_enough = omega arith

no_config : load_config none ≡ some plain
unfolding load_config
no_config = refl

main-starts_example : main empty_disk (codes "ntloader" ∷ target ∷ codes "-x" ∷ []) ≡ (
  calls_of empty_disk (appdir_of (codes "/data") target) (codes "wine") target (codes "-x" ∷ []),
  none,
)
unfolding appdir_of
main-starts_example =
    main-starts empty_disk (codes "ntloader") target target (codes "/data") (codes "-x" ∷ [])
      (info_of 0x8664 []) plain refl refl
      (read_pe_info-image (zeros 58) (1 ∷ 2 ∷ []) (zeros 18) [] 0x8664 refl refl (omega arith)
        (omega arith))
      refl data_is_there short_enough (λ p. refl) (λ p. refl) no_config
