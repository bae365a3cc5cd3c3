-- ===== src/Ntexports/Main.antt =====
-- ntexports.c, `wmain`: the list of DLLs that is read, the search in each directory, and the totals.
use ntlinux.Common.{
  ℕ, zero, suc, ◌+◌, List, [], ◌∷◌, ◌++◌, Option, none, some, Bool, true, false, ◌||◌, ◌==◌,
  bytes_eq, length, if◌then◌else◌,
}
use ntlinux.Common.Text.{codes, decimal}
use ntlinux.Loader.{fgets, until}
use ntlinux.Loader.Config.{trim_end}
use ntlinux.Ntexports.{json_escape_w}
use ntlinux.Ntexports.Scan.{Mapped, ScanOutcome, ok, failed, scan_dll}
use ntlinux.Ntexports.Output.{no_bytes, write_scan_json}

-- The list file: `room` lines at most that are not empty, each of 255 bytes at most, without the line
-- ends behind it. `fuel` bounds the rounds; each takes a byte at least.
abbrev pub is_line_end : ℕ → Bool
is_line_end c = c == 10 || c == 13

unfoldable pub read_list : ℕ → ℕ → List ℕ → List (List ℕ)
read_list zero room file = []
read_list (suc fuel) zero file = []
read_list (suc fuel) (suc room) [] = []
read_list (suc fuel) (suc room) (c ∷ cs) =
    let (line, rest) = fgets 255 (c ∷ cs) in
    let name = trim_end is_line_end (until 0 line) in
    let skipping = read_list fuel (suc room) rest in
    let taking = read_list fuel room rest in if no_bytes name then skipping else name ∷ taking

-- `g_default_dlls`
abbrev pub g_default_dlls : List (List ℕ)
g_default_dlls =
    codes "ntdll.dll"
    ∷ codes "kernel32.dll"
    ∷ codes "kernelbase.dll"
    ∷ codes "user32.dll"
    ∷ codes "win32u.dll"
    ∷ codes "gdi32.dll"
    ∷ codes "gdi32full.dll"
    ∷ codes "advapi32.dll"
    ∷ codes "sechost.dll"
    ∷ codes "ole32.dll"
    ∷ codes "combase.dll"
    ∷ codes "oleaut32.dll"
    ∷ codes "rpcrt4.dll"
    ∷ codes "ws2_32.dll"
    ∷ codes "mswsock.dll"
    ∷ codes "shell32.dll"
    ∷ codes "shlwapi.dll"
    ∷ codes "winmm.dll"
    ∷ codes "avrt.dll"
    ∷ codes "dbghelp.dll"
    ∷ codes "setupapi.dll"
    ∷ codes "cfgmgr32.dll"
    ∷ codes "d3d9.dll"
    ∷ codes "d3d11.dll"
    ∷ codes "d3d12.dll"
    ∷ codes "dxgi.dll"
    ∷ codes "d2d1.dll"
    ∷ codes "xinput1_4.dll"
    ∷ codes "dinput8.dll"
    ∷ []

-- The names to look for: those of the list file, if one was named and opens; none: it does not open.
unfoldable pub dlls_of : (List ℕ → Option (List ℕ)) → List ℕ → Option (List (List ℕ))
dlls_of open_file list_file =
    if no_bytes list_file then some g_default_dlls else elim (open_file list_file) [
      | none ↦ none
      | some file ↦ some (read_list (length file) 256 file)
    ]

-- What the system does for the tool: the file at a path, the wide form of a name, the path that
-- `swprintf` makes of a directory and a name, and `%lc`.
pub record Windows : Type 0 where
  pub map_file : List ℕ → Mapped
  pub mbstowcs : List ℕ → List ℕ
  pub full_path : List ℕ → List ℕ → List ℕ
  pub lc : ℕ → List ℕ

-- A directory to search, with its label.
pub record SearchDir : Type 0 where
  pub dir : List ℕ
  pub label : List ℕ

abbrev pub search_dirs : List ℕ → List ℕ → List SearchDir
search_dirs sys64 sys32 =
    record { dir = sys64; label = codes "System32" }
    ∷ record { dir = sys32; label = codes "SysWOW64" }
    ∷ []

-- The variables of the loop, `out` being what it has written.
pub record Totals : Type 0 where
  pub out : List ℕ
  pub printed_any : Bool
  pub total_exports : ℕ
  pub total_found : ℕ
  pub total_missing : ℕ

abbrev pub is_ok : ScanOutcome → Bool
is_ok ok = true
is_ok (failed e) = false

-- The body of the loop over the directories, for one that is there.
unfoldable pub scan_one : Windows → List ℕ → SearchDir → Totals → Totals
scan_one w dll d t =
    let fullpath = w.full_path d.dir (w.mbstowcs dll) in
    let r = scan_dll (w.map_file fullpath) in
    let separator = if t.printed_any then codes ",\n" else [] in
    record {
      out = t.out ++ (separator ++ write_scan_json w.lc d.label dll fullpath r);
      printed_any = true;
      total_exports =
          if is_ok r.outcome then t.total_exports + length r.exports.items else t.total_exports;
      total_found = if is_ok r.outcome then t.total_found + 1 else t.total_found;
      total_missing = if is_ok r.outcome then t.total_missing else t.total_missing + 1;
    }

unfoldable pub scan_dirs : Windows → List ℕ → List SearchDir → Totals → Totals
scan_dirs w dll [] t = t
scan_dirs w dll (d ∷ ds) t = scan_dirs w dll ds (if no_bytes d.dir then t else scan_one w dll d t)

unfoldable pub scan_all : Windows → List SearchDir → List (List ℕ) → Totals → Totals
scan_all w ds [] t = t
scan_all w ds (dll ∷ dlls) t = scan_all w ds dlls (scan_dirs w dll ds t)

abbrev pub no_totals : Totals
no_totals = record {
  out = [];
  printed_any = false;
  total_exports = 0;
  total_found = 0;
  total_missing = 0;
}

-- The options: the list file and the output, in the order of the command line; none: help was asked
-- for. `-f` or `-o` without a value is passed over.
pub record Options : Type 0 where
  pub list_file : List ℕ
  pub out_path : List ℕ

unfoldable pub parse_args : (List ℕ → List ℕ) → List (List ℕ) → Options → Option Options
parse_args wcstombs [] o = some o
parse_args wcstombs (a ∷ []) o =
    if bytes_eq a (codes "-h") || bytes_eq a (codes "--help") then none else some o
parse_args wcstombs (a ∷ b ∷ args) o =
    let listed = parse_args wcstombs args (record o { list_file = wcstombs b }) in
    let written = parse_args wcstombs args (record o { out_path = wcstombs b }) in
    let next = parse_args wcstombs (b ∷ args) o in
    if bytes_eq a (codes "-f")
    then listed
    else if bytes_eq a (codes "-o")
    then written
    else if bytes_eq a (codes "-h") || bytes_eq a (codes "--help")
    then none
    else next

-- The file that is written in the end: `version` is what `GetVersionExW` answers.
unfoldable pub report : Windows → List ℕ → ℕ × ℕ × ℕ → List SearchDir → List (List ℕ) → List ℕ
report w hostname (major, minor, build) ds dlls =
    let t = scan_all w ds dlls no_totals in
    codes "{\n  \"scan_metadata\": {\n    \"tool_version\": \"0.1.0\",\n    \"hostname\": "
    ++ (json_escape_w w.lc hostname
        ++ (codes ",\n    \"os_version\": \""
            ++ (decimal major
                ++ (codes "."
                    ++ (decimal minor
                        ++ (codes "."
                            ++ (decimal build
                                ++ (codes "\"\n  },\n  \"dlls\": [\n"
                                    ++ (t.out
                                        ++ (codes "\n  ],\n  \"summary\": {\"dlls_found\": "
                                            ++ (decimal t.total_found
                                                ++ (codes ", \"dlls_missing\": "
                                                    ++ (decimal t.total_missing
                                                        ++ (codes ", \"total_exports\": "
                                                            ++ (decimal t.total_exports
                                                            ++ codes "}\n}\n")))))))))))))))
