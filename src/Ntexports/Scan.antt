-- ===== src/Ntexports/Scan.antt =====
-- ntexports.c, `scan_dll`: from a mapped file to the list of its exports. The structures of winnt.h
-- are read by functions of an address; what stands behind the end of the file is read like the rest.
use ntlinux.Common.{
  ℕ, zero, suc, ℤ, pos, negsuc, ◌+◌, ◌-◌, ◌*◌, ◌%◌, ◌^◌, List, [], ◌∷◌, Bool, true, false, ◌&&◌,
  ◌||◌, ◌==◌, ltb, leb, update, not, if◌then◌else◌,
}
use ntlinux.Common.Text.{codes}
use ntlinux.Ntexports.{ExportEntry, ExportList, Section, export_list_push, rva_to_offset}

-- The fields that are read of `IMAGE_DOS_HEADER`, `IMAGE_FILE_HEADER`, the first data directory of an
-- optional header, and `IMAGE_EXPORT_DIRECTORY`.
pub record DosHeader : Type 0 where
  pub e_magic : ℕ
  pub e_lfanew : ℤ

pub record FileHeader : Type 0 where
  pub machine : ℕ
  pub number_of_sections : ℕ
  pub time_date_stamp : ℕ
  pub size_of_optional_header : ℕ

pub record DataDirectory : Type 0 where
  pub virtual_address : ℕ
  pub size : ℕ

pub record ExportDirectory : Type 0 where
  pub name : ℕ
  pub base : ℕ
  pub number_of_functions : ℕ
  pub number_of_names : ℕ
  pub address_of_functions : ℕ
  pub address_of_names : ℕ
  pub address_of_name_ordinals : ℕ

-- Memory with the file at `base`: its bytes, and the structures at an address. `sections` reads an
-- array of that many section headers.
pub record View : Type 0 where
  pub base : ℕ
  pub byte : ℕ → ℕ
  pub word : ℕ → ℕ
  pub dword : ℕ → ℕ
  pub dos_header : ℕ → DosHeader
  pub file_header : ℕ → FileHeader
  pub sizeof_file_header : ℕ
  pub export_of_header64 : ℕ → DataDirectory
  pub export_of_header32 : ℕ → DataDirectory
  pub sections : ℕ → ℕ → List Section
  pub export_directory : ℕ → ExportDirectory

-- Opening the file: what failed, with GetLastError(), or the view.
pub data Mapped : Type 0 where
  create_file_failed create_mapping_failed map_view_failed : ℕ → Mapped
  mapped : View → Mapped

-- The messages that `error` gets.
pub data ScanError : Type 0 where
  create_file create_mapping map_view : ℕ → ScanError
  bad_dos_signature bad_nt_signature no_export_directory not_in_section : ScanError
  unrecognized_magic : ℕ → ScanError

-- `scan_result_t`: `ok`, or the error.
pub data ScanOutcome : Type 0 where
  ok : ScanOutcome
  failed : ScanError → ScanOutcome

pub record ScanResult : Type 0 where
  pub export_dll_name : List ℕ
  pub machine : ℕ
  pub timestamp : ℕ
  pub exports : ExportList
  pub outcome : ScanOutcome

abbrev pub no_exports : ExportList
no_exports = record { items = []; cap = 0 }

-- The string at an address, cut to `n` bytes.
unfoldable pub string_at : (ℕ → ℕ) → ℕ → ℕ → List ℕ
string_at byte zero a = []
string_at byte (suc n) a =
    let rest = string_at byte n (a + 1) in if byte a == 0 then [] else byte a ∷ rest

-- What the loops over the tables read: the tables' offsets are 0 where there is none.
pub record Tables : Type 0 where
  pub view : View
  pub sections : List Section
  pub export_rva : ℕ
  pub export_size : ℕ
  pub directory : ExportDirectory
  pub func_tab_off : ℕ
  pub name_tab_off : ℕ
  pub ord_tab_off : ℕ

abbrev pub func_rva_at : Tables → ℕ → ℕ
func_rva_at t i = t.view.dword (t.view.base + t.func_tab_off + 4 * i)

abbrev pub is_forwarder : Tables → ℕ → Bool
is_forwarder t rva = leb t.export_rva rva && ltb rva ((t.export_rva + t.export_size) % 2 ^ 32)

-- The string at an RVA; empty where the RVA is in no section.
abbrev pub string_of : Tables → ℕ → List ℕ
string_of t rva =
    let off = rva_to_offset rva t.sections in
    if off == 0 then [] else string_at t.view.byte 511 (t.view.base + off)

-- The entry of function `i`, under a name.
unfoldable pub entry_of : Tables → List ℕ → ℕ → ExportEntry
entry_of t name i =
    let rva = func_rva_at t i in
    record {
      name = name;
      ordinal = (t.directory.base + i) % 2 ^ 32;
      rva = if is_forwarder t rva then 0 else rva;
      forwarder = if is_forwarder t rva then string_of t rva else [];
    }

-- `named_mask` and the exports so far.
pub record Progress : Type 0 where
  pub mask : ℕ → Bool
  pub exports : ExportList

-- A round of the loop over the names.
unfoldable pub named_step : Tables → ℕ → Progress → Progress
named_step t i p =
    let name_str_off =
      rva_to_offset (t.view.dword (t.view.base + t.name_tab_off + 4 * i)) t.sections in
    let func_index = t.view.word (t.view.base + t.ord_tab_off + 2 * i) in
    if name_str_off == 0 || leb t.directory.number_of_functions func_index then p else record {
      mask = update p.mask func_index true;
      exports =
          export_list_push p.exports
            (entry_of t (string_at t.view.byte 511 (t.view.base + name_str_off)) func_index);
    }

-- A round of the loop over the functions.
unfoldable pub unnamed_step : Tables → ℕ → Progress → Progress
unnamed_step t i p = if p.mask i || func_rva_at t i == 0 then p else record p {
  exports = export_list_push p.exports (entry_of t (codes "(no name, ordinal only)") i);
}

-- `n` rounds from `i` on.
unfoldable pub each_round : (ℕ → Progress → Progress) → ℕ → ℕ → Progress → Progress
each_round step zero i p = p
each_round step (suc n) i p = each_round step n (suc i) (step i p)

abbrev pub no_progress : Progress
no_progress = record { mask = λ i. false; exports = no_exports }

-- The loop over the names, where all three tables are there.
unfoldable pub named_exports : Tables → Progress
named_exports t =
    if t.func_tab_off == 0 || (t.name_tab_off == 0 || t.ord_tab_off == 0)
    then no_progress
    else each_round (named_step t) t.directory.number_of_names 0 no_progress

unfoldable pub scan_tables : Tables → ExportList
scan_tables t =
    if t.func_tab_off == 0
    then (named_exports t).exports
    else (each_round (unnamed_step t) t.directory.number_of_functions 0 (named_exports t)).exports

abbrev pub failure : FileHeader → ScanError → ScanResult
failure fh e = record {
  export_dll_name = [];
  machine = fh.machine;
  timestamp = fh.time_date_stamp;
  exports = no_exports;
  outcome = failed e;
}

-- A failure before the file header was read.
abbrev pub early : ScanError → ScanResult
early e =
    failure
      (record {
        machine = 0;
        number_of_sections = 0;
        time_date_stamp = 0;
        size_of_optional_header = 0;
      })
      e

-- The part that needs the sections and the export directory's place.
unfoldable pub scan_exports : View → FileHeader → List Section → DataDirectory → ScanResult
scan_exports v fh sections dir =
    if dir.virtual_address == 0
    then failure fh no_export_directory
    else (let export_off = rva_to_offset dir.virtual_address sections in
        if export_off == 0
        then failure fh not_in_section
        else (let ed = v.export_directory (v.base + export_off) in
            let name_off = rva_to_offset ed.name sections in
            record {
              export_dll_name =
                  if name_off == 0 then [] else string_at v.byte 255 (v.base + name_off);
              machine = fh.machine;
              timestamp = fh.time_date_stamp;
              exports = scan_tables (record {
                view = v;
                sections = sections;
                export_rva = dir.virtual_address;
                export_size = dir.size;
                directory = ed;
                func_tab_off = rva_to_offset ed.address_of_functions sections;
                name_tab_off = rva_to_offset ed.address_of_names sections;
                ord_tab_off = rva_to_offset ed.address_of_name_ordinals sections;
              });
              outcome = ok;
            }))

-- `base + e_lfanew`, which may stand before the file.
abbrev pub offset_by : ℕ → ℤ → ℕ
offset_by a (pos n) = a + n
offset_by a (negsuc n) = a - (n + 1)

unfoldable pub scan_headers : View → ℕ → ScanResult
scan_headers v nt_base =
    if not (v.dword nt_base == 0x4550)
    then early bad_nt_signature
    else (let fh = v.file_header (nt_base + 4) in
        let opt_base = nt_base + 4 + v.sizeof_file_header in
        let magic = v.word opt_base in
        let sections = v.sections (opt_base + fh.size_of_optional_header) fh.number_of_sections in
        if magic == 0x20b
        then scan_exports v fh sections (v.export_of_header64 opt_base)
        else if magic == 0x10b
        then scan_exports v fh sections (v.export_of_header32 opt_base)
        else failure fh (unrecognized_magic magic))

unfoldable pub scan_dll : Mapped → ScanResult
scan_dll (create_file_failed e) = early (create_file e)
scan_dll (create_mapping_failed e) = early (create_mapping e)
scan_dll (map_view_failed e) = early (map_view e)
scan_dll (mapped v) =
    let dos = v.dos_header v.base in
    if not (dos.e_magic == 0x5a4d)
    then early bad_dos_signature
    else scan_headers v (offset_by v.base dos.e_lfanew)
