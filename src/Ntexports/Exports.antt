-- ===== src/Ntexports/Exports.antt =====
-- ntexports.c, `scan_dll`: its list holds every function of the export table, and nothing else.
use mathlib.Core.Path.{subst}
use ntlinux.Common.{
  All-append, if-elim, ◌*◌, ℕ, zero, suc, ◌+◌, ◌%◌, ◌^◌, ◌≤◌, ◌<◌, ◌≡◌, refl, List, [], ◌∷◌, ◌++◌,
  Bool, true, false, ◌||◌, ◌==◌, leb, ==_iff, length, length-append, All, Bool-cases, inl, inr, ◌⊎◌,
  arith,
}
use ntlinux.Ntexports.{ExportEntry, ExportList, export_list_push, rva_to_offset}
use ntlinux.Ntexports.Scan.{
  Tables, Progress, func_rva_at, is_forwarder, string_of, entry_of, named_step, unnamed_step,
  each_round, scan_tables, named_exports, no_progress, string_at,
}

-- Whether an ordinal is in the list.
abbrev pub reported : ℕ → List ExportEntry → Bool
reported o [] = false
reported o (e ∷ es) = e.ordinal == o || reported o es

-- The ordinal of function `i`.
abbrev pub ordinal_of : Tables → ℕ → ℕ
ordinal_of t i = (t.directory.base + i) % 2 ^ 32

reported-append :
    (o : ℕ) (es : List ExportEntry) (e : ExportEntry)
    → reported o (es ++ e ∷ []) ≡ (reported o es || e.ordinal == o)
reported-append o [] e = ground arith
reported-append o (x ∷ es) e = ground (arith, reported-append o es e)

reported-push :
    (o : ℕ) (l : ExportList) (e : ExportEntry)
    → reported o (export_list_push l e).items ≡ (reported o l.items || e.ordinal == o)
unfolding export_list_push
reported-push o l e = reported-append o l.items e

reported-kept :
    (o : ℕ) (l : ExportList) (e : ExportEntry)
    → reported o l.items ≡ true
    → reported o (export_list_push l e).items ≡ true
reported-kept o l e h = rw (reported-push o l e, h) refl

reported-entry :
    (t : Tables) (l : ExportList) (name : List ℕ) (i : ℕ)
    → reported (ordinal_of t i) (export_list_push l (entry_of t name i)).items ≡ true
unfolding entry_of
reported-entry t l name i = rw (reported-push (ordinal_of t i) l _) (ground arith)

-- What every round keeps, the loop keeps.
each_round-keeps {ℓ} :
    (P : Progress → Type ℓ) (step : ℕ → Progress → Progress)
    → ((i : ℕ) (p : Progress) → P p → P (step i p))
    → (n i : ℕ) (p : Progress) → P p
    → P (each_round step n i p)
unfolding each_round
each_round-keeps P step h zero i p v = v
each_round-keeps P step h (suc n) i p v = each_round-keeps P step h n (suc i) (step i p) (h i p v)

module _ (t : Tables) where
  -- A function that is marked is in the list.
  abbrev Marked : Progress → Type 0
  Marked p = (j : ℕ) → p.mask j ≡ true → reported (ordinal_of t j) p.exports.items ≡ true

  named_step-Marked : (i : ℕ) (p : Progress) → Marked p → Marked (named_step t i p)
  unfolding named_step
  named_step-Marked i p v =
      let name_str_off =
        rva_to_offset (t.view.dword (t.view.base + t.name_tab_off + 4 * i)) t.sections in
      let k = t.view.word (t.view.base + t.ord_tab_off + 2 * i) in
      let name = string_at t.view.byte 511 (t.view.base + name_str_off) in
      if-elim Marked (name_str_off == 0 || leb t.directory.number_of_functions k) v λ j h.
        elim (Bool-cases (k == j)) [
          | inl e ↦
              subst
                (λ m.
                  reported (ordinal_of t m) (export_list_push p.exports (entry_of t name k)).items
                  ≡ true)
                ((==_iff k j).0 e) (reported-entry t p.exports name k)
          | inr e ↦ reported-kept (ordinal_of t j) p.exports _ (v j (rw e at h))
        ]

  unnamed_step-keeps :
      (o i : ℕ) (p : Progress)
      → reported o p.exports.items ≡ true
      → reported o (unnamed_step t i p).exports.items ≡ true
  unfolding unnamed_step
  unnamed_step-keeps o i p v =
      if-elim (λ (q : Progress). reported o q.exports.items ≡ true)
        (p.mask i || func_rva_at t i == 0) v (reported-kept o p.exports _ v)

  unnamed_step-Marked : (i : ℕ) (p : Progress) → Marked p → Marked (unnamed_step t i p)
  unfolding unnamed_step
  unnamed_step-Marked i p v =
      if-elim Marked (p.mask i || func_rva_at t i == 0) v
        λ j h. reported-kept (ordinal_of t j) p.exports _ (v j h)

  -- The round of function `i` reports it, if it is there at all.
  unnamed_step-reports :
      (i : ℕ) (p : Progress)
      → (func_rva_at t i == 0) ≡ false
      → Marked p
      → reported (ordinal_of t i) (unnamed_step t i p).exports.items ≡ true
  unfolding unnamed_step
  unnamed_step-reports i p f v = elim (Bool-cases (p.mask i)) [
    | inl e ↦ rw e (v i e)
    | inr e ↦ rw (e, f) (reported-entry t p.exports _ i)
  ]

  unnamed-reports :
      (j : ℕ)
      → (func_rva_at t j == 0) ≡ false
      → (n i : ℕ) (p : Progress) → Marked p
      → i ≤ j
      → j < i + n
      → reported (ordinal_of t j) (each_round (unnamed_step t) n i p).exports.items ≡ true
  unfolding each_round
  unnamed-reports j f zero i p v a b = absurd (omega (arith, a, b))
  unnamed-reports j f (suc n) i p v a b = elim (Bool-cases (i == j)) [
    | inl e ↦
        each_round-keeps (λ q. reported (ordinal_of t j) q.exports.items ≡ true) (unnamed_step t)
          (λ m q w. unnamed_step-keeps (ordinal_of t j) m q w) n (suc i) (unnamed_step t i p)
          (subst (λ m. reported (ordinal_of t m) (unnamed_step t i p).exports.items ≡ true)
            ((==_iff i j).0 e) (unnamed_step-reports i p (rw ((==_iff i j).0 e) f) v))
    | inr e ↦
        unnamed-reports j f n (suc i) (unnamed_step t i p) (unnamed_step-Marked i p v)
          (ground (arith, a, e)) (omega (arith, b))
  ]

  named_exports-Marked : Marked (named_exports t)
  unfolding named_exports
  named_exports-Marked =
      if-elim Marked (t.func_tab_off == 0 || (t.name_tab_off == 0 || t.ord_tab_off == 0))
        (λ j h. cc h)
        (each_round-keeps Marked (named_step t) named_step-Marked t.directory.number_of_names 0
          no_progress λ j h. cc h)

  -- Each function of the table that has an address is in the list of exports, under its ordinal, with
  -- or without a name.
  pub scan_tables_complete :
      (j : ℕ)
      → (t.func_tab_off == 0) ≡ false
      → j < t.directory.number_of_functions
      → (func_rva_at t j == 0) ≡ false
      → reported (ordinal_of t j) (scan_tables t).items ≡ true
  unfolding scan_tables
  scan_tables_complete j o l f =
      rw (scan_tables, o)
        (unnamed-reports j f t.directory.number_of_functions 0 (named_exports t)
          named_exports-Marked (omega arith) (omega (arith, l)))

  -- Whether the function at an address is forwarded: the address is in the export directory, which
  -- ends before its end in 32 bits.
  abbrev pub Forwarded : ℕ → Type 0
  Forwarded rva = (t.export_rva ≤ rva) × (rva < (t.export_rva + t.export_size) % 2 ^ 32)

  -- An entry of function `i` of the table: either the function is forwarded, and the entry has the
  -- string at its address and no address, or it is not, and the entry has its address and no string.
  abbrev pub IsEntry : ℕ → ExportEntry → Type 0
  IsEntry i e =
      (e.ordinal ≡ ordinal_of t i)
      × (Forwarded (func_rva_at t i) × (e.rva ≡ 0) × (e.forwarder ≡ string_of t (func_rva_at t i))
          ⊎ (¬ Forwarded (func_rva_at t i)) × (e.rva ≡ func_rva_at t i) × (e.forwarder ≡ []))

  abbrev pub IsExport : ExportEntry → Type 0
  IsExport e = (i : ℕ) × (i < t.directory.number_of_functions) × IsEntry i e

  entry_of-IsEntry : (name : List ℕ) (i : ℕ) → IsEntry i (entry_of t name i)
  unfolding entry_of
  entry_of-IsEntry name i = elim (Bool-cases (is_forwarder t (func_rva_at t i))) [
    | inl e ↦ rw e (refl, inl (ground (arith, e), refl, refl))
    | inr e ↦ rw e (refl, inr (λ f. ground (arith, e, f), refl, refl))
  ]

  -- A list of such entries, in an array that is long enough.
  abbrev IsSound : ExportList → Type 0
  IsSound l = All IsExport l.items × (length l.items ≤ l.cap)

  push-IsSound :
      (l : ExportList) (name : List ℕ) (i : ℕ)
      → IsSound l
      → i < t.directory.number_of_functions
      → IsSound (export_list_push l (entry_of t name i))
  unfolding export_list_push entry_of
  push-IsSound l name i v h = (
    All-append IsExport l.items _ v.0 ((i, h, entry_of-IsEntry name i), tt),
    ground (arith, v.1, length-append l.items (entry_of t name i ∷ [])),
  )

  named_step-IsSound :
      (i : ℕ) (p : Progress) → IsSound p.exports → IsSound (named_step t i p).exports
  unfolding named_step
  named_step-IsSound i p v =
      let name_str_off =
        rva_to_offset (t.view.dword (t.view.base + t.name_tab_off + 4 * i)) t.sections in
      let k = t.view.word (t.view.base + t.ord_tab_off + 2 * i) in
      elim (Bool-cases (name_str_off == 0)) [
        | inl e ↦ rw e v
        | inr e ↦ elim (Bool-cases (leb t.directory.number_of_functions k)) [
          | inl l ↦ rw (e, l) v
          | inr l ↦ rw (e, l) (push-IsSound p.exports _ k v (ground (arith, l)))
        ]
      ]

  unnamed-IsSound :
      (n i : ℕ) (p : Progress)
      → i + n ≤ t.directory.number_of_functions
      → IsSound p.exports
      → IsSound (each_round (unnamed_step t) n i p).exports
  unfolding each_round unnamed_step
  unnamed-IsSound zero i p h v = v
  unnamed-IsSound (suc n) i p h v =
      unnamed-IsSound n (suc i) (unnamed_step t i p) (omega (arith, h)) (
        if-elim (λ (q : Progress). IsSound q.exports) (p.mask i || func_rva_at t i == 0) v
          (push-IsSound p.exports _ i v (omega (arith, h))))

  -- Every entry of the list of exports is a function of the table, under its ordinal: one whose address
  -- is in the export directory is forwarded, and has the string at that address and no address of its
  -- own; any other has its address and no string. The list fits in the array that it was given.
  pub scan_tables_sound :
      All IsExport (scan_tables t).items × (length (scan_tables t).items ≤ (scan_tables t).cap)
  unfolding scan_tables named_exports
  scan_tables_sound =
      let named : IsSound (named_exports t).exports =
        if-elim (λ (q : Progress). IsSound q.exports)
          (t.func_tab_off == 0 || (t.name_tab_off == 0 || t.ord_tab_off == 0)) (tt, omega arith)
          (each_round-keeps (λ (q : Progress). IsSound q.exports) (named_step t) named_step-IsSound
            t.directory.number_of_names 0 no_progress (tt, omega arith)) in
      if-elim IsSound (t.func_tab_off == 0) named
        (unnamed-IsSound t.directory.number_of_functions 0 (named_exports t) (omega arith) named)
