-- ===== src/Loader/Config.antt =====
-- ntloader/ntloader.c: the configuration file of an application.
use ntlinux.Common.{
  ℕ, List, [], ◌∷◌, Option, none, some, Bool, ◌||◌, ◌==◌, ltb, bytes_eq, length, if◌then◌else◌,
}
use ntlinux.Loader.{until, clean, line_loop}
use ntlinux.Common.Text.{codes}

-- `struct app_config`
pub record AppConfig : Type 0 where
  pub wine_binary : List ℕ
  pub windows_version : List ℕ

abbrev pub is_blank : ℕ → Bool
is_blank c = c == 32 || c == 9

-- The bytes that are trimmed at the start, and at the end, of a value.
abbrev pub before_value : ℕ → Bool
before_value c = is_blank c || c == 34

abbrev pub after_value : ℕ → Bool
after_value c = is_blank c || c == 34 || c == 13

abbrev pub skip : (ℕ → Bool) → List ℕ → List ℕ
skip p [] = []
skip p (c ∷ cs) = if p c then skip p cs else c ∷ cs

abbrev pub trim_end : (ℕ → Bool) → List ℕ → List ℕ
trim_end p [] = []
trim_end p (c ∷ cs) = elim (trim_end p cs) [ [] ↦ if p c then [] else c ∷ [] | x ∷ xs ↦ c ∷ x ∷ xs ]

-- The key and the value of a line; none: it has no `=`.
abbrev pub split_at : ℕ → List ℕ → Option (List ℕ × List ℕ)
split_at c [] = none
split_at c (x ∷ xs) =
    let rest = split_at c xs in
    if x == c
    then some ([], xs)
    else elim rest [ none ↦ none | some (key, val) ↦ some (x ∷ key, val) ]

unfoldable pub key_value : List ℕ → Option (List ℕ × List ℕ)
key_value line = elim (split_at 61 (until 35 (clean line))) [
  | none ↦ none
  | some (key, val) ↦ some (skip is_blank key, trim_end after_value (skip before_value val))
]

abbrev pub wine_binary_key : List ℕ
wine_binary_key = codes "wine_binary"

abbrev pub windows_version_key : List ℕ
windows_version_key = codes "windows_version"

abbrev pub default_wine_binary : List ℕ
default_wine_binary = codes "wine"

-- xsnprintf into a buffer of `n` bytes; none: the loader exits.
abbrev pub store : ℕ → List ℕ → Option (List ℕ)
store n s = if ltb (length s) n then some s else none

unfoldable pub set_field : List ℕ → List ℕ → AppConfig → Option AppConfig
set_field key val cfg =
    if bytes_eq key wine_binary_key
    then elim (store 64 val) [ none ↦ none | some v ↦ some (record cfg { wine_binary = v }) ]
    else if bytes_eq key windows_version_key
    then elim (store 32 val) [ none ↦ none | some v ↦ some (record cfg { windows_version = v }) ]
    else some cfg

unfoldable pub config_line : List ℕ → Option AppConfig → Option AppConfig
config_line line none = none
config_line line (some cfg) = elim (key_value line) [
  | none ↦ some cfg
  | some (key, val) ↦ set_field key val cfg
]

unfoldable pub load_config : Option (List ℕ) → Option AppConfig
load_config none = some (record { wine_binary = default_wine_binary; windows_version = [] })
load_config (some file) =
    line_loop config_line (length file) file
      (some (record { wine_binary = default_wine_binary; windows_version = [] }))
