-- ===== src/Ntbridge/Guest/Table.antt =====
-- driver/ntbridge/reactos/ntbridge_pnp.c: the table of children as a bag of device ids.
use ntlinux.Common.{
  ℕ, ◌+◌, ◌≤◌, ◌<◌, ◌≡◌, ◌≢◌, refl, List, [], ◌∷◌, Option, none, some, ◌&&◌, ◌==◌, length,
  if◌then◌else◌, Bool-cases, Option-cases, inl, inr, arith,
}
use mathlib.Core.Path.{subst}
use ntlinux.Ntbridge.Messages.{PnpDescriptor}
use ntlinux.Ntbridge.Guest.{ChildEntry, take_entry, free_entry}

-- How many entries of the table a device has, and how many are in use.
abbrev pub entries : List ChildEntry → ℕ → ℕ
entries [] id = 0
entries (e ∷ es) id = (if e.in_use && e.device_id == id then 1 else 0) + entries es id

abbrev pub used : List ChildEntry → ℕ
used [] = 0
used (e ∷ es) = (if e.in_use then 1 else 0) + used es

pub used_le : (es : List ChildEntry) → used es ≤ length es
used_le [] = omega arith
used_le (e ∷ es) = let h = used_le es in ground arith

-- What taking an entry does: it fails on the full table only.
abbrev pub Taken : PnpDescriptor → List ChildEntry → Option (List ChildEntry) → Type 0
Taken d es none = used es ≡ length es
Taken d es (some es') =
    (used es < length es)
    × (length es' ≡ length es)
    × (used es' ≡ used es + 1)
    × ((id : ℕ) → entries es' id ≡ entries es id + (if d.device_id == id then 1 else 0))

pub take_entry-Taken : (d : PnpDescriptor) (es : List ChildEntry) → Taken d es (take_entry d es)
unfolding take_entry
take_entry-Taken d [] = refl
take_entry-Taken d (e ∷ es) =
    let h = take_entry-Taken d es in
    let u = used_le es in
    elim (Bool-cases e.in_use) [
      | inr free ↦ rw (free, take_entry) (omega (arith, u), refl, omega arith, λ id. ground arith)
      | inl busy ↦ elim (Option-cases (take_entry d es)) [
        | inl n ↦ rw (busy, take_entry, n) (ground (arith, subst (λ o. Taken d es o) n h))
        | inr (es', n) ↦
            let k = subst (λ o. Taken d es o) n h in
            rw (busy, take_entry, n)
              (
                ground (arith, k.0),
                omega (arith, k.1),
                ground (arith, k.2),
                λ id. ground (arith, k.3 id),
              )
      ]
    ]

-- What freeing an entry does: it fails for a device that has none.
abbrev pub Freed : ℕ → List ChildEntry → Option (List ChildEntry) → Type 0
Freed id es none = entries es id ≡ 0
Freed id es (some es') =
    (entries es id ≢ 0)
    × (length es' ≡ length es)
    × (used es ≡ used es' + 1)
    × ((i : ℕ) → entries es i ≡ entries es' i + (if id == i then 1 else 0))

pub free_entry-Freed : (id : ℕ) (es : List ChildEntry) → Freed id es (free_entry id es)
unfolding free_entry
free_entry-Freed id [] = refl
free_entry-Freed id (e ∷ es) =
    let h = free_entry-Freed id es in
    elim (Bool-cases (e.in_use && e.device_id == id)) [
      | inl here ↦ rw (here, free_entry) (ground arith, refl, ground arith, λ i. ground arith)
      | inr past ↦ elim (Option-cases (free_entry id es)) [
        | inl n ↦ rw (past, free_entry, n) (ground (arith, subst (λ o. Freed id es o) n h))
        | inr (es', n) ↦
            let k = subst (λ o. Freed id es o) n h in
            rw (past, free_entry, n)
              (
                ground (arith, k.0),
                omega (arith, k.1),
                ground (arith, k.2),
                λ i. ground (arith, k.3 i),
              )
      ]
    ]
