-- ===== src/Ntexports/Output.antt =====
-- ntexports.c, `write_scan_json`: what is written for each DLL in each directory.
use ntlinux.Common.{ℕ, List, [], ◌∷◌, ◌++◌, Bool, true, false, ◌==◌, length, if◌then◌else◌}
use ntlinux.Common.Text.{codes, hex, decimal}
use ntlinux.Ntexports.{ExportEntry, json_escape, json_escape_w}
use ntlinux.Ntexports.Scan.{
  ScanError, create_file, create_mapping, map_view, bad_dos_signature, bad_nt_signature,
  no_export_directory, not_in_section, unrecognized_magic, ScanOutcome, ok, failed, ScanResult,
}

-- What `error` holds.
unfoldable pub error_text : ScanError → List ℕ
error_text (create_file e) = codes "CreateFile failed (" ++ (decimal e ++ codes ")")
error_text (create_mapping e) = codes "CreateFileMapping failed (" ++ (decimal e ++ codes ")")
error_text (map_view e) = codes "MapViewOfFile failed (" ++ (decimal e ++ codes ")")
error_text bad_dos_signature = codes "not a PE file (bad DOS signature)"
error_text bad_nt_signature = codes "not a PE file (bad NT signature)"
error_text no_export_directory = codes "no export directory (not a DLL, or exports nothing)"
error_text not_in_section = codes "export directory RVA not in any section"
error_text (unrecognized_magic m) = codes "unrecognized optional header magic 0x" ++ hex 4 m

unfoldable pub machine_text : ℕ → List ℕ
machine_text m =
    if m == 0x8664
    then codes "AMD64"
    else if m == 0x014c
    then codes "I386"
    else if m == 0xaa64
    then codes "ARM64"
    else codes "OTHER"

abbrev pub no_bytes : List ℕ → Bool
no_bytes [] = true
no_bytes (c ∷ cs) = false

-- The address, or the forwarder where there is one.
abbrev pub target_json : ExportEntry → List ℕ
target_json e =
    if no_bytes e.forwarder
    then codes ", \"rva\": " ++ decimal e.rva
    else codes ", \"forwarder\": " ++ json_escape e.forwarder

unfoldable pub export_json : ExportEntry → List ℕ
export_json e =
    codes "        {\"name\": "
    ++ (json_escape e.name ++ (codes ", \"ordinal\": " ++ (decimal e.ordinal ++ target_json e)))

-- The loop over the exports: a comma behind each but the last.
unfoldable pub exports_json : List ExportEntry → List ℕ
exports_json [] = []
exports_json (e ∷ []) = export_json e ++ codes "}\n"
exports_json (e ∷ f ∷ es) = export_json e ++ (codes "},\n" ++ exports_json (f ∷ es))

-- The fields that a result adds.
unfoldable pub result_json : ScanResult → ScanOutcome → List ℕ
result_json r (failed e) =
    codes "      \"found\": false,\n"
    ++ (codes "      \"error\": " ++ (json_escape (error_text e) ++ codes "\n    }"))
result_json r ok =
    codes "      \"found\": true,\n"
    ++ (codes "      \"export_dll_name\": "
        ++ (json_escape r.export_dll_name
            ++ (codes ",\n      \"machine\": \""
                ++ (machine_text r.machine
                    ++ (codes "\",\n      \"pe_timestamp\": "
                        ++ (decimal r.timestamp
                            ++ (codes ",\n      \"export_count\": "
                                ++ (decimal (length r.exports.items)
                                    ++ (codes ",\n      \"exports\": [\n"
                                        ++ (exports_json r.exports.items
                                            ++ codes "      ]\n    }"))))))))))

unfoldable pub write_scan_json : (ℕ → List ℕ) → List ℕ → List ℕ → List ℕ → ScanResult → List ℕ
write_scan_json lc dir_label dllname fullpath r =
    codes "    {\n      \"requested_name\": "
    ++ (json_escape dllname
        ++ (codes ",\n      \"search_dir\": "
            ++ (json_escape_w lc dir_label
                ++ (codes ",\n      \"path\": "
                    ++ (json_escape_w lc fullpath ++ (codes ",\n" ++ result_json r r.outcome))))))
