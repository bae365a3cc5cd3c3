-- ===== src/Ntusb/Life.antt =====
-- driver/usb/reactos/ntusb.c: the child over the life of the bus.
use ntlinux.Common.{
  ℕ, ◌≡◌, refl, sym, ◌∙◌, Option, some, none, false, List, [], ◌∷◌, Bool-cases, Option-cases, inl,
  inr, arith, length,
}
use ntlinux.Wdm.{nt_success}
use mathlib.Core.Path.{subst}
use ntlinux.Ntbridge.Region.{Resource}
use ntlinux.Ntusb.{Fdo, Pdo}
use ntlinux.Ntusb.Pnp.{
  Kernel, Bus, add_device, map_shm, start_fdo, create_child_pdo, started_fdo, FdoMinor,
  start_device, query_bus_relations, stop_device, remove_device, other_minor, fdo_pnp, remove,
  pdo_pnp,
}

-- A request at the bus's FDO, and the kernel's answers to it.
abbrev pub FdoRequest : Type 0
FdoRequest = Kernel × FdoMinor

-- The requests that the bus gets as long as its FDO exists.
abbrev pub run_requests : List FdoRequest → Bus → Bus
run_requests [] b = b
run_requests ((k, minor) ∷ rs) b = elim b.fdo [
  | none ↦ b
  | some f ↦ run_requests rs (fdo_pnp k minor f b).2
]

-- The children, as a query lists them.
abbrev pub listed : Option Pdo → List ℕ
listed none = []
listed (some q) = q.self ∷ []

abbrev named : Option Pdo → Option ℕ
named none = none
named (some q) = some q.self

abbrev Names : Option Fdo → Option Pdo → Type 0
Names none child = Unit
Names (some f) child = f.child_pdo ≡ named child

-- The FDO names the child that there is, and it was declared once.
abbrev OneChild : Bus → Type 0
OneChild b = Names b.fdo b.child × (b.invalidations ≡ length (listed b.child))

start_fdo-child_pdo :
    (k : Kernel) (rs : Option (List Resource)) (f : Fdo)
    → (start_fdo k rs f).1.child_pdo ≡ f.child_pdo
unfolding start_fdo map_shm
start_fdo-child_pdo k rs f = ground arith

no_child : (child : Option Pdo) → none ≡ named child → length (listed child) ≡ 0
no_child none e = refl
no_child (some q) e = absurd (cc e)

started_fdo-OneChild :
    (k : Kernel) (rs : Option (List Resource)) (f : Fdo) (b : Bus)
    → b.fdo ≡ some f
    → OneChild b
    → OneChild (started_fdo k rs f b).1
unfolding started_fdo create_child_pdo
started_fdo-OneChild k rs f b e h =
    let g = (start_fdo k rs f).1 in
    let name : g.child_pdo ≡ named b.child =
      start_fdo-child_pdo k rs f ∙ subst (λ o. Names o b.child) e h.0 in
    elim (Bool-cases (nt_success (start_fdo k rs f).0)) [
      | inr bad ↦ rw (bad, started_fdo) (name, h.1)
      | inl ok ↦ elim (Option-cases g.child_pdo) [
        | inr (q, s) ↦ rw (ok, started_fdo, s) (name, h.1)
        | inl s ↦ elim (Option-cases k.create_device) [
          | inl n ↦ rw (ok, started_fdo, s, n, create_child_pdo) (name, h.1)
          | inr (pdo, n) ↦
              rw (ok, started_fdo, s, n, create_child_pdo)
                (refl, omega (arith, h.1, no_child b.child (sym s ∙ name)))
        ]
      ]
    ]

fdo_pnp-OneChild :
    (k : Kernel) (minor : FdoMinor) (f : Fdo) (b : Bus)
    → b.fdo ≡ some f
    → OneChild b
    → OneChild (fdo_pnp k minor f b).2
unfolding fdo_pnp
fdo_pnp-OneChild k (start_device rs) f b e h = elim (Bool-cases (nt_success k.lower)) [
  | inl ok ↦ rw (ok, fdo_pnp) (started_fdo-OneChild k rs f b e h)
  | inr bad ↦ rw (bad, fdo_pnp) h
]
fdo_pnp-OneChild k query_bus_relations f b e h = elim (Option-cases k.allocate) [
  | inl n ↦ rw (n, fdo_pnp) h
  | inr (r, n) ↦ rw (n, fdo_pnp) h
]
fdo_pnp-OneChild k stop_device f b e h = (subst (λ o. Names o b.child) e h.0, h.1)
fdo_pnp-OneChild k remove_device f b e h = (tt, h.1)
fdo_pnp-OneChild k other_minor f b e h = h

run_requests-OneChild : (rs : List FdoRequest) (b : Bus) → OneChild b → OneChild (run_requests rs b)
run_requests-OneChild [] b h = h
run_requests-OneChild ((k, minor) ∷ rs) b h = elim (Option-cases b.fdo) [
  | inl e ↦ rw (e, run_requests) h
  | inr (f, e) ↦
      rw (e, run_requests)
        (run_requests-OneChild rs (fdo_pnp k minor f b).2 (fdo_pnp-OneChild k minor f b e h))
]

-- The bus right after its FDO was added.
abbrev pub added : Kernel → Bus
added k = record { fdo = (add_device k).1; child = none; symlink = false; invalidations = 0 }

fresh : (k : Kernel) → OneChild (added k)
unfolding add_device
fresh k = elim (Option-cases k.create_device) [
  | inl n ↦ rw (n, add_device) (tt, refl)
  | inr (fdo, n) ↦ elim (Option-cases k.attach) [
    | inl m ↦ rw (n, add_device, m) (tt, refl)
    | inr (lower, m) ↦ rw (n, add_device, m) (refl, refl)
  ]
]

-- The bus when its child, if there is one, has got IRP_MN_REMOVE_DEVICE.
abbrev pub child_removed : Kernel → Bus → Bus
child_removed k b = elim b.child [ none ↦ b | some q ↦ (pdo_pnp k remove q b).2 ]

removed_child : (k : Kernel) (b : Bus) → (child_removed k b).child ≡ none
unfolding pdo_pnp
removed_child k b = elim (Option-cases b.child) [ inl e ↦ rw e refl | inr (q, e) ↦ rw e refl ]

-- Whatever requests the FDO has got since it was added, and whatever the kernel answered, as long as
-- the child was not removed: a query for its children, if there is memory for the answer, lists the
-- child that exists, or nothing when there is none, and the relations were declared invalid once for
-- each child, hence at most once. Once the child is removed too, there is none, and a query still
-- lists it.
pub run_requests-query_bus_relations :
    (k k' : Kernel) (rs : List FdoRequest) (f : Fdo) (relations : ℕ)
    → (run_requests rs (added k)).fdo ≡ some f
    → k'.allocate ≡ some relations
    → let b = run_requests rs (added k) in
      ((fdo_pnp k' query_bus_relations f b).1 ≡ listed b.child)
      × (b.invalidations ≡ length (listed b.child))
      × ((child_removed k b).child ≡ none)
      × ((fdo_pnp k' query_bus_relations f (child_removed k b)).1 ≡ listed b.child)
unfolding fdo_pnp
run_requests-query_bus_relations k k' rs f relations e m =
    let b = run_requests rs (added k) in
    let h = run_requests-OneChild rs (added k) (fresh k) in
    let n : f.child_pdo ≡ named b.child = subst (λ o. Names o b.child) e h.0 in
    let gone = removed_child k b in
    rw (m, fdo_pnp, n) (listed_named b.child, h.1, gone, listed_named b.child)
  where
    listed_named : (c : Option Pdo) → elim (named c) [ none ↦ [] | some pdo ↦ pdo ∷ [] ] ≡ listed c
    listed_named none = refl
    listed_named (some q) = refl
