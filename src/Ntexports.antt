-- ===== src/Ntexports.antt =====
-- tooling/compat-db/ntexports/ntexports.c: the tool that lists what system DLLs export. Its strings
-- are their bytes; what it writes to a file is the list of the bytes written.
pub mod Escapes
pub mod Scan
pub mod Exports
pub mod Output
pub mod Main
pub mod Report
use ntlinux.Common.{
  ℕ, zero, suc, ◌+◌, ◌-◌, ◌*◌, ◌%◌, ◌^◌, List, [], ◌∷◌, ◌++◌, Bool, ◌&&◌, ◌==◌, ltb, leb, length,
  if◌then◌else◌,
}
use ntlinux.Common.Text.{codes, hex}

-- `export_entry_t`
pub record ExportEntry : Type 0 where
  pub name : List ℕ
  pub ordinal : ℕ
  pub rva : ℕ
  pub forwarder : List ℕ

-- `export_list_t`: `count` is the length of `items`.
pub record ExportList : Type 0 where
  pub items : List ExportEntry
  pub cap : ℕ

-- `realloc` always succeeds.
unfoldable pub export_list_push : ExportList → ExportEntry → ExportList
export_list_push l e =
    let count = length l.items in
    let doubled = if l.cap == 0 then 256 else l.cap * 2 in
    record { items = l.items ++ e ∷ []; cap = if count == l.cap then doubled else l.cap }

-- What one byte becomes; `put` is how a plain one is written.
unfoldable pub escaped : (ℕ → List ℕ) → ℕ → List ℕ
escaped put c =
    if c == 34
    then codes "\\\""
    else if c == 92
    then codes "\\\\"
    else if c == 10
    then codes "\\n"
    else if c == 13
    then codes "\\r"
    else if c == 9
    then codes "\\t"
    else if ltb c 32
    then codes "\\u" ++ hex 4 c
    else put c

unfoldable pub escape_all : (ℕ → List ℕ) → List ℕ → List ℕ
escape_all put [] = []
escape_all put (c ∷ cs) = escaped put c ++ escape_all put cs

unfoldable pub json_escape : List ℕ → List ℕ
json_escape s = 34 ∷ (escape_all (λ c. c ∷ []) s ++ 34 ∷ [])

-- `%lc` writes a wide character as the locale has it.
unfoldable pub json_escape_w : (ℕ → List ℕ) → List ℕ → List ℕ
json_escape_w lc s = 34 ∷ (escape_all lc s ++ 34 ∷ [])

-- The fields of `IMAGE_SECTION_HEADER` that are read.
pub record Section : Type 0 where
  pub virtual_address : ℕ
  pub virtual_size : ℕ
  pub size_of_raw_data : ℕ
  pub pointer_to_raw_data : ℕ

-- The loop over the sections. A DWORD wraps at 32 bits.
unfoldable pub rva_to_offset : ℕ → List Section → ℕ
rva_to_offset rva [] = 0
rva_to_offset rva (s ∷ ss) =
    let rest = rva_to_offset rva ss in
    let size = if s.virtual_size == 0 then s.size_of_raw_data else s.virtual_size in
    if leb s.virtual_address rva && ltb rva ((s.virtual_address + size) % 2 ^ 32)
    then (s.pointer_to_raw_data + (rva - s.virtual_address)) % 2 ^ 32
    else rest
