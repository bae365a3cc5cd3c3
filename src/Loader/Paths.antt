-- ===== src/Loader/Paths.antt =====
-- ntloader/ntloader.c: the hash of a path, and the directories of an application. Strings are their
-- bytes without the zero at the end; the system calls that change something are logged in order.
use ntlinux.Common.{
  ℕ, ◌*◌, ◌%◌, ◌^◌, List, [], ◌∷◌, ◌++◌, Option, none, some, Bool, false, ◌==◌, ltb, length,
  if◌then◌else◌,
}
use Prim.Native.Nat.{bit_xor}
use ntlinux.Common.Text.{codes}

-- A system call that changes the file system, the environment or the process.
pub data Call : Type 0 where
  mkdir : List ℕ → Call
  symlink : List ℕ → List ℕ → Call
  setenv : List ℕ → List ℕ → Call
  execvp : List ℕ → List (List ℕ) → Call

-- The calls so far, and the value of what ran; none: `die` has ended the program with status 127.
abbrev pub Io {ℓ} : Type ℓ → Type ℓ
Io A = List Call × Option A

abbrev pub then_calls {ℓ} : {A : Type ℓ} → List Call → Io A → Io A
then_calls cs (ds, r) = (cs ++ ds, r)

infixl 5 ◌>>=◌ ◌>>◌
abbrev pub ◌>>=◌ {ℓ κ} : {A : Type ℓ} {B : Type κ} → Io A → (A → Io B) → Io B
(cs, none) >>= f = (cs, none)
(cs, some a) >>= f = then_calls cs (f a)

abbrev pub ◌>>◌ {ℓ} : {B : Type ℓ} → Io (Unit {0}) → Io B → Io B
m >> k = m >>= λ _. k

abbrev pub return {ℓ} : {A : Type ℓ} → A → Io A
return a = ([], some a)

abbrev pub die {ℓ} : {A : Type ℓ} → Io A
die = ([], none)

abbrev pub call : Call → Io (Unit {0})
call c = (c ∷ [], some tt)

-- What the system answers: `getenv`, `realpath`, the bytes of a file that opens, whether `mkdir` makes
-- a directory or finds something there, whether `lstat` finds something, and whether `symlink` does.
pub record System : Type 0 where
  pub xdg : Option (List ℕ)
  pub home : Option (List ℕ)
  pub realpath : List ℕ → Option (List ℕ)
  pub file : List ℕ → Option (List ℕ)
  pub mkdir_ok : List ℕ → Bool
  pub lstat_ok : List ℕ → Bool
  pub symlink_ok : List ℕ → Bool

abbrev pub path_max : ℕ
path_max = 4096

-- xsnprintf into a buffer of PATH_MAX bytes.
unfoldable pub path : List ℕ → Io (List ℕ)
path s = if ltb (length s) path_max then return s else die

abbrev pub or_die {ℓ} : {A : Type ℓ} → Option A → Io A
or_die none = die
or_die (some a) = return a

-- A round of FNV-1a.
unfoldable pub mix : ℕ → ℕ → ℕ
mix h c = (bit_xor h c * 0x100000001b3) % 2 ^ 64

unfoldable pub hash_from : ℕ → List ℕ → ℕ
hash_from h [] = h
hash_from h (c ∷ cs) = hash_from (mix h c) cs

unfoldable pub fnv1a64 : List ℕ → ℕ
fnv1a64 s = hash_from 0xcbf29ce484222325 s

abbrev pub local_share : List ℕ
local_share = codes "/.local/share"

unfoldable pub home_data : Option (List ℕ) → Io (List ℕ)
home_data none = die
home_data (some home) = path (home ++ local_share)

-- The variable is taken where it is set and not empty.
unfoldable pub xdg_data_home : Option (List ℕ) → Option (List ℕ) → Io (List ℕ)
xdg_data_home none home = home_data home
xdg_data_home (some []) home = home_data home
xdg_data_home (some (c ∷ cs)) home = path (c ∷ cs)

-- The string without a slash at its end.
abbrev pub strip_slash : List ℕ → List ℕ
strip_slash [] = []
strip_slash (c ∷ []) = if c == 47 then [] else c ∷ []
strip_slash (c ∷ d ∷ cs) = c ∷ strip_slash (d ∷ cs)

-- A call of `mkdir`, with its answer.
abbrev pub try_mkdir : System → List ℕ → Io Bool
try_mkdir sys p = (mkdir p ∷ [], some (sys.mkdir_ok p))

-- The loop of `mkdir_p` and the call behind it: `before` is what stands before the next byte.
unfoldable pub make_from : System → List ℕ → List ℕ → Io Bool
make_from sys before [] = try_mkdir sys before
make_from sys before (c ∷ cs) =
    let rest = make_from sys (before ++ c ∷ []) cs in
    if c == 47 then try_mkdir sys before >>= (λ ok. if ok then rest else return false) else rest

-- The loop starts at the second byte.
abbrev pub make_parents : System → List ℕ → Io Bool
make_parents sys [] = try_mkdir sys []
make_parents sys (c ∷ cs) = make_from sys (c ∷ []) cs

unfoldable pub mkdir_p : System → List ℕ → Io Bool
mkdir_p sys p = do
  tmp ← path p
  if length tmp == 0 then return false else make_parents sys (strip_slash tmp)

abbrev pub subdirs : List (List ℕ)
subdirs =
    codes "/registry"
    ∷ codes "/compat"
    ∷ codes "/dll-overrides"
    ∷ codes "/state"
    ∷ codes "/prefix"
    ∷ []

-- The loop over the directories: `appdir` with each of the ends.
unfoldable pub make_all : System → List ℕ → List (List ℕ) → Io (Unit {0})
make_all sys appdir [] = return tt
make_all sys appdir (d ∷ ds) = do
  p ← path (appdir ++ d)
  ok ← mkdir_p sys p
  if ok then make_all sys appdir ds else die

abbrev pub drive_c : List ℕ
drive_c = codes "/drive-c"

abbrev pub link_target : List ℕ
link_target = codes "prefix/drive_c"

unfoldable pub link_drive : System → List ℕ → Io (Unit {0})
link_drive sys link =
    if sys.lstat_ok link
    then return tt
    else (symlink link_target link ∷ [], if sys.symlink_ok link then some tt else none)

unfoldable pub ensure_app_dirs : System → List ℕ → Io (Unit {0})
ensure_app_dirs sys appdir = do
  make_all sys appdir ([] ∷ subdirs)
  link ← path (appdir ++ drive_c)
  link_drive sys link
