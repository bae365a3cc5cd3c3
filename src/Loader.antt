-- ===== src/Loader.antt =====
-- ntloader/ntloader.c: the loader that binfmt_misc starts for a PE file. A file is its bytes, or none
-- when it cannot be opened; memory is always there, and the machine is little-endian, as the headers
-- that the code copies into integers are.
pub mod Config
pub mod Lines
pub mod Overrides
pub mod Images
pub mod Paths
pub mod Hash
pub mod Dirs
pub mod Main
pub mod Wine
pub mod Starts
use ntlinux.Common.{
  ℕ, zero, suc, ◌+◌, ◌-◌, ◌*◌, ◌%◌, ◌^◌, List, [], ◌∷◌, ◌++◌, Option, none, some, Bool, true, false,
  not, ◌&&◌, ◌||◌, ◌==◌, ltb, leb, bytes_eq, get_or, take, drop, length, if◌then◌else◌,
}

-- `struct pe_info`
pub record PeInfo : Type 0 where
  pub machine : ℕ
  pub subsystem : ℕ
  pub is_pe32plus : Bool

-- fseek to `pos` and fread of `n` bytes; none: fewer are there.
abbrev pub read_at : ℕ → ℕ → List ℕ → Option (List ℕ)
read_at n pos file = let got = take n (drop pos file) in if length got == n then some got else none

abbrev pub le16 : List ℕ → ℕ
le16 bytes = get_or bytes 0 0 + 256 * get_or bytes 1 0

abbrev pub le32 : List ℕ → ℕ
le32 bytes = le16 bytes + 65536 * le16 (drop 2 bytes)

-- The part of `read_pe_info` behind the signature, for an optional header that starts at `opt`.
unfoldable pub read_optional : ℕ → ℕ → List ℕ → PeInfo
read_optional machine opt file = elim (read_at 2 opt file) [
  | none ↦ record { machine = machine; subsystem = 0; is_pe32plus = false }
  | some magic ↦ record {
    machine = machine;
    subsystem = elim (read_at 2 (opt + 66) file) [ none ↦ 0 | some sub ↦ le16 sub ];
    is_pe32plus = le16 magic == 0x20b;
  }
]

unfoldable pub read_headers : ℕ → List ℕ → Option PeInfo
read_headers e_lfanew file = elim (read_at 4 e_lfanew file) [
  | none ↦ none
  | some sig ↦
      if not (bytes_eq sig (80 ∷ 69 ∷ 0 ∷ 0 ∷ []))
      then none
      else elim (read_at 20 (e_lfanew + 4) file) [
        | none ↦ none
        | some header ↦ some (read_optional (le16 header) (e_lfanew + 24) file)
      ]
]

-- The offset is an int32_t: one of at least 2^31 is negative.
unfoldable pub read_pe_info : Option (List ℕ) → Option PeInfo
read_pe_info none = none
read_pe_info (some file) = elim (read_at 64 0 file) [
  | none ↦ none
  | some dos ↦
      if not (get_or dos 0 0 == 77) || not (get_or dos 1 0 == 90)
      then none
      else if leb (2 ^ 31) (le32 (drop 60 dos))
      then none
      else read_headers (le32 (drop 60 dos)) file
]

pub data Machine : Type 0 where
  i386 amd64 arm64 unknown : Machine

unfoldable pub machine_name : ℕ → Machine
machine_name m =
    if m == 0x014c
    then i386
    else if m == 0x8664
    then amd64
    else if m == 0xaa64
    then arm64
    else unknown

-- What `fgets` with room for `n` bytes and their end takes: a line with its newline, or its first `n`
-- bytes; and what is left.
unfoldable pub fgets : ℕ → List ℕ → List ℕ × List ℕ
fgets zero file = ([], file)
fgets (suc n) [] = ([], [])
fgets (suc n) (c ∷ cs) =
    let (line, rest) = fgets n cs in if c == 10 then (c ∷ [], cs) else (c ∷ line, rest)

-- A string up to the first of a byte, as `*strchr(s, c) = 0` leaves it.
abbrev pub until : ℕ → List ℕ → List ℕ
until c [] = []
until c (x ∷ xs) = if x == c then [] else x ∷ until c xs

-- The string in a line's buffer, without its newline.
abbrev pub clean : List ℕ → List ℕ
clean line = until 10 (until 0 line)

-- The buffer of `load_dll_overrides`: its capacity, its length, the string in it, and whether nothing
-- was added yet.
pub record Buffer : Type 0 where
  pub cap : ℕ
  pub len : ℕ
  pub out : List ℕ
  pub first : Bool

abbrev pub skipped : List ℕ → Bool
skipped [] = true
skipped (c ∷ cs) = c == 35

-- `size_t` has 64 bits.
abbrev pub size : ℕ → ℕ
size n = n % 2 ^ 64

unfoldable pub add_line : List ℕ → Buffer → Buffer
add_line line b =
    let linelen = length line in
    let needed = size (b.len + linelen + 2) in
    let cap = if ltb b.cap needed then size (needed * 2) else b.cap in
    if b.first
    then record { cap = cap; len = size (b.len + linelen); out = b.out ++ line; first = false }
    else record {
      cap = cap;
      len = size (size (b.len + 1) + linelen);
      out = b.out ++ 59 ∷ line;
      first = false;
    }

unfoldable pub override_line : List ℕ → Buffer → Buffer
override_line line b = if skipped (clean line) then b else add_line (clean line) b

-- The loop over the lines of a file, `fuel` of them at most.
unfoldable pub line_loop {ℓ} : {S : Type ℓ} → (List ℕ → S → S) → ℕ → List ℕ → S → S
line_loop handle zero file s = s
line_loop handle (suc fuel) [] s = s
line_loop handle (suc fuel) (c ∷ cs) s =
    let (line, rest) = fgets 255 (c ∷ cs) in line_loop handle fuel rest (handle line s)

abbrev pub empty_buffer : Buffer
empty_buffer = record { cap = 256; len = 0; out = []; first = true }

-- Each round takes a byte at least, so that the file's length is fuel enough.
unfoldable pub overrides_buffer : List ℕ → Buffer
overrides_buffer file = line_loop override_line (length file) file empty_buffer

abbrev pub nonempty : List ℕ → Option (List ℕ)
nonempty [] = none
nonempty (c ∷ cs) = some (c ∷ cs)

unfoldable pub load_dll_overrides : Option (List ℕ) → Option (List ℕ)
load_dll_overrides none = none
load_dll_overrides (some file) = nonempty (overrides_buffer file).out
