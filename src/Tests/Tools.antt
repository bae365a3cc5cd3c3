-- ===== src/Tests/Tools.antt =====
-- The tool ntexports: a table with one function, and a string to escape.
use ntlinux.Common.{◌≤◌, ◌≡◌, refl, [], ◌∷◌, ◌++◌, some, true, drop, length, All, arith, pos}
use ntlinux.Common.Text.{codes}
use ntlinux.Ntexports.{json_escape}
use ntlinux.Ntexports.Scan.{View, Tables, scan_tables}
use ntlinux.Ntexports.Exports.{
  reported, ordinal_of, IsExport, scan_tables_complete, scan_tables_sound,
}
use ntlinux.Ntexports.Escapes.{read_string, plain, read-json_escape}

-- Each DWORD is 5 and each WORD 0.
abbrev view : View
view = record {
  base = 0;
  byte = λ a. 0;
  word = λ a. 0;
  dword = λ a. 5;
  dos_header = λ a. record { e_magic = 0; e_lfanew = pos 0 };
  file_header = λ a. record {
    machine = 0;
    number_of_sections = 0;
    time_date_stamp = 0;
    size_of_optional_header = 0;
  };
  sizeof_file_header = 20;
  export_of_header64 = λ a. record { virtual_address = 0; size = 0 };
  export_of_header32 = λ a. record { virtual_address = 0; size = 0 };
  sections = λ a n. [];
  export_directory = λ a. record {
    name = 0;
    base = 7;
    number_of_functions = 1;
    number_of_names = 1;
    address_of_functions = 0;
    address_of_names = 0;
    address_of_name_ordinals = 0;
  };
}

abbrev tables : Tables
tables = record {
  view = view;
  sections =
      record {
        virtual_address = 0;
        virtual_size = 64;
        size_of_raw_data = 64;
        pointer_to_raw_data = 8;
      }
      ∷ [];
  export_rva = 16;
  export_size = 8;
  directory = view.export_directory 0;
  func_tab_off = 8;
  name_tab_off = 12;
  ord_tab_off = 16;
}

scan_tables_complete_example : reported (ordinal_of tables 0) (scan_tables tables).items ≡ true
scan_tables_complete_example = scan_tables_complete tables 0 refl (omega arith) refl

scan_tables_sound_example :
    All (IsExport tables) (scan_tables tables).items
    × (length (scan_tables tables).items ≤ (scan_tables tables).cap)
scan_tables_sound_example = scan_tables_sound tables

read-json_escape_example :
    read_string plain (drop 1 (json_escape (codes "C:\\win\n")) ++ 44 ∷ [])
    ≡ some (codes "C:\\win\n", 44 ∷ [])
read-json_escape_example = read-json_escape (codes "C:\\win\n") (44 ∷ [])
