-- ===== src/Ntexports/Report.antt =====
-- ntexports.c, `wmain`: what the loop over DLLs and directories writes and counts.
use ntlinux.Common.{
  append_nil, append_assoc, sym, ℕ, ◌+◌, ◌≡◌, refl, ap, ◌∙◌, List, [], ◌∷◌, ◌++◌, true, length,
  if◌then◌else◌, Bool-cases, inl, inr, arith,
}
use ntlinux.Common.Text.{codes}
use ntlinux.Ntexports.Scan.{ScanResult, scan_dll}
use ntlinux.Ntexports.Output.{no_bytes, write_scan_json}
use ntlinux.Ntexports.Main.{
  Windows, SearchDir, Totals, no_totals, is_ok, scan_one, scan_dirs, scan_all,
}

module _ (w : Windows) where
  -- The DLLs that are looked for, each with a directory that is there.
  abbrev pairs_of : List ℕ → List SearchDir → List (List ℕ × SearchDir)
  pairs_of dll [] = []
  pairs_of dll (d ∷ ds) =
      let rest = pairs_of dll ds in if no_bytes d.dir then rest else (dll, d) ∷ rest

  abbrev pub pairs : List SearchDir → List (List ℕ) → List (List ℕ × SearchDir)
  pairs ds [] = []
  pairs ds (dll ∷ dlls) = pairs_of dll ds ++ pairs ds dlls

  abbrev pub path_of : List ℕ × SearchDir → List ℕ
  path_of (dll, d) = w.full_path d.dir (w.mbstowcs dll)

  abbrev pub result_of : List ℕ × SearchDir → ScanResult
  result_of p = scan_dll (w.map_file (path_of p))

  abbrev pub entry_json : List ℕ × SearchDir → List ℕ
  entry_json (dll, d) = write_scan_json w.lc d.label dll (path_of (dll, d)) (result_of (dll, d))

  -- The entries, with a separator between two.
  abbrev followers : List (List ℕ × SearchDir) → List ℕ
  followers [] = []
  followers (p ∷ ps) = codes ",\n" ++ (entry_json p ++ followers ps)

  abbrev pub joined : List (List ℕ × SearchDir) → List ℕ
  joined [] = []
  joined (p ∷ ps) = entry_json p ++ followers ps

  abbrev pub found : List (List ℕ × SearchDir) → ℕ
  found [] = 0
  found (p ∷ ps) = (if is_ok (result_of p).outcome then 1 else 0) + found ps

  abbrev pub exported : List (List ℕ × SearchDir) → ℕ
  exported [] = 0
  exported (p ∷ ps) =
      (if is_ok (result_of p).outcome then length (result_of p).exports.items else 0) + exported ps

  abbrev visit : List (List ℕ × SearchDir) → Totals → Totals
  visit [] t = t
  visit ((dll, d) ∷ ps) t = visit ps (scan_one w dll d t)

  visit-append :
      (ps qs : List (List ℕ × SearchDir)) (t : Totals) → visit (ps ++ qs) t ≡ visit qs (visit ps t)
  visit-append [] qs t = refl
  visit-append ((dll, d) ∷ ps) qs t = visit-append ps qs (scan_one w dll d t)

  scan_dirs-visit :
      (dll : List ℕ) (ds : List SearchDir) (t : Totals)
      → scan_dirs w dll ds t ≡ visit (pairs_of dll ds) t
  unfolding scan_dirs
  scan_dirs-visit dll [] t = refl
  scan_dirs-visit dll (d ∷ ds) t = elim (Bool-cases (no_bytes d.dir)) [
    | inl e ↦ rw e (scan_dirs-visit dll ds t)
    | inr e ↦ rw e (scan_dirs-visit dll ds _)
  ]

  scan_all-visit :
      (ds : List SearchDir) (dlls : List (List ℕ)) (t : Totals)
      → scan_all w ds dlls t ≡ visit (pairs ds dlls) t
  unfolding scan_all
  scan_all-visit ds [] t = refl
  scan_all-visit ds (dll ∷ dlls) t =
      scan_all-visit ds dlls _
      ∙ ap (visit (pairs ds dlls)) (scan_dirs-visit dll ds t)
      ∙ sym (visit-append (pairs_of dll ds) (pairs ds dlls) t)

  scan_one-totals :
      (dll : List ℕ) (d : SearchDir) (t : Totals)
      → let u = scan_one w dll d t in
        let r = result_of (dll, d) in
        (u.total_found ≡ t.total_found + (if is_ok r.outcome then 1 else 0))
        × (u.total_found + u.total_missing ≡ t.total_found + t.total_missing + 1)
        × (u.total_exports
            ≡ t.total_exports + (if is_ok r.outcome then length r.exports.items else 0))
  unfolding scan_one
  scan_one-totals dll d t = elim (Bool-cases (is_ok (result_of (dll, d)).outcome)) [
    | inl e ↦ rw e (omega arith, omega arith, omega arith)
    | inr e ↦ rw e (omega arith, omega arith, omega arith)
  ]

  visit-totals :
      (ps : List (List ℕ × SearchDir)) (t : Totals)
      → let u = visit ps t in
        (u.total_found ≡ t.total_found + found ps)
        × (u.total_found + u.total_missing ≡ t.total_found + t.total_missing + length ps)
        × (u.total_exports ≡ t.total_exports + exported ps)
  visit-totals [] t = (omega arith, omega arith, omega arith)
  visit-totals ((dll, d) ∷ ps) t =
      let (a, b, c) = visit-totals ps (scan_one w dll d t) in
      let (x, y, z) = scan_one-totals dll d t in
      (omega (arith, a, x), omega (arith, b, y), omega (arith, c, z))

  visit-followers :
      (ps : List (List ℕ × SearchDir)) (t : Totals)
      → t.printed_any ≡ true
      → (visit ps t).out ≡ t.out ++ followers ps
  unfolding scan_one
  visit-followers [] t e = sym (append_nil t.out)
  visit-followers ((dll, d) ∷ ps) t e =
      visit-followers ps (scan_one w dll d t) refl
      ∙ rw e (append_assoc t.out (codes ",\n" ++ entry_json (dll, d)) (followers ps))

  visit-joined : (ps : List (List ℕ × SearchDir)) → (visit ps no_totals).out ≡ joined ps
  unfolding scan_one
  visit-joined [] = refl
  visit-joined ((dll, d) ∷ ps) = visit-followers ps (scan_one w dll d no_totals) refl

  -- For a list of DLLs and directories, of which those with an empty path are left out, the loop
  -- writes the result of each DLL in each directory once, in order, with a comma between two; the
  -- totals that it prints are the number of results that were found, the number of the others, and
  -- the number of all exports of those that were found.
  pub scan_all-report :
      (ds : List SearchDir) (dlls : List (List ℕ))
      → let t = scan_all w ds dlls no_totals in
        let ps = pairs ds dlls in
        (t.out ≡ joined ps)
        × (t.total_found ≡ found ps)
        × (t.total_found + t.total_missing ≡ length ps)
        × (t.total_exports ≡ exported ps)
  scan_all-report ds dlls = rw (scan_all-visit ds dlls no_totals) (
      let (a, b, c) = visit-totals (pairs ds dlls) no_totals in
      (visit-joined (pairs ds dlls), omega (arith, a), omega (arith, b), omega (arith, c)))
