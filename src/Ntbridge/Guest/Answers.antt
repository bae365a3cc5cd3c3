-- ===== src/Ntbridge/Guest/Answers.antt =====
-- driver/ntbridge/reactos/ntbridge_pnp.c: what the timer's routine answers to the host.
use ntlinux.Common.{
  ℕ, ◌+◌, ◌-◌, ◌%◌, ◌^◌, ◌≡◌, refl, sym, ap, ◌∙◌, List, [], ◌∷◌, ◌++◌, some, Bool, true, false,
  ◌||◌, ◌==◌, ltb, length, if◌then◌else◌, Bool-cases, Option-cases, inl, inr, arith,
}
use mathlib.Core.Path.{subst}
use ntlinux.Ntbridge.Messages.{removed, PnpDescriptor, PnpAck}
use ntlinux.Ntbridge.Ring.{try_push}
use ntlinux.Ntbridge.Ring.Refine.{contents, IsRing, try_push-refines}
use ntlinux.Ntbridge.Ring.Loops.{rounds, pop_loop}
use ntlinux.Ntbridge.Ring.Fill.{fill, fill_nil, fill-cons, fold, pop_loop-fold, rounds_enough}
use ntlinux.Ntbridge.Region.{Header}
use ntlinux.Ntbridge.Guest.{
  ChildEntry, Extension, take_entry, free_entry, Topology, ack_of, handle_descriptor, poll_dpc,
}
use ntlinux.Ntbridge.Guest.Table.{entries, used, Taken, take_entry-Taken, Freed, free_entry-Freed}

-- The devices on the bus, as a bag: how often each is there, and how many there are.
pub record Bag : Type 0 where
  pub count : ℕ → ℕ
  pub total : ℕ

abbrev pub bag_of : List ChildEntry → Bag
bag_of es = record { count = entries es; total = used es }

abbrev pub single : ℕ → ℕ → ℕ
single id i = if id == i then 1 else 0

-- What a bag of 64 devices answers to a descriptor: the status, and the bag then.
abbrev pub answer : PnpDescriptor → Bag → ℕ × Bag
answer d b =
    let id = d.device_id in
    if removed d
    then (if b.count id == 0
        then (2, b)
        else (0, record { count = λ i. b.count i - single id i; total = b.total - 1 }))
    else (if ltb b.total 64
        then (0, record { count = λ i. b.count i + single id i; total = b.total + 1 })
        else (1, b))

abbrev pub answers : List PnpDescriptor → Bag → List PnpAck × Bag
answers [] b = ([], b)
answers (d ∷ ds) b =
    let (status, b') = answer d b in let (acks, c) = answers ds b' in (ack_of d status ∷ acks, c)

-- Whether one of them succeeded.
abbrev pub any_done : List PnpAck → Bool
any_done [] = false
any_done (a ∷ rest) = a.status == 0 || any_done rest

bag_path : {b c : Bag} → ((i : ℕ) → b.count i ≡ c.count i) → b.total ≡ c.total → b ≡ c
bag_path {b} {c} h e = λ k. record { count = λ i. h i k; total = e k }

abbrev AnswersOne : PnpDescriptor → Topology → ℕ × Bag → Topology → Type 0
AnswersOne d t (status, b) u =
    (u.ack_ring ≡ (try_push (ack_of d status) t.ack_ring).1)
    × (bag_of u.children ≡ b)
    × (length u.children ≡ length t.children)
    × (u.changed ≡ ((status == 0) || t.changed))

handle_descriptor-answer :
    (d : PnpDescriptor) (t : Topology)
    → length t.children ≡ 64
    → AnswersOne d t (answer d (bag_of t.children)) (handle_descriptor d t)
unfolding handle_descriptor
handle_descriptor-answer d t full = elim (Bool-cases (removed d)) [
  | inl gone ↦ elim (Option-cases (free_entry d.device_id t.children)) [
    | inl n ↦
        let k =
          subst (λ o. Freed d.device_id t.children o) n (free_entry-Freed d.device_id t.children) in
        let z : (entries t.children d.device_id == 0) ≡ true = ground arith in
        rw (handle_descriptor, n, z, gone) (refl, refl, refl, refl)
    | inr (es, n) ↦
        let k =
          subst (λ o. Freed d.device_id t.children o) n (free_entry-Freed d.device_id t.children) in
        let z : (entries t.children d.device_id == 0) ≡ false = ground arith in
        rw (handle_descriptor, n, z, gone)
          (refl, bag_path (λ i. omega (arith, k.3 i)) (omega (arith, k.2)), k.1, refl)
  ]
  | inr here ↦ elim (Option-cases (take_entry d t.children)) [
    | inl n ↦
        let k = subst (λ o. Taken d t.children o) n (take_entry-Taken d t.children) in
        let z : ltb (used t.children) 64 ≡ false = ground arith in
        rw (handle_descriptor, n, z, here) (refl, refl, refl, refl)
    | inr (es, n) ↦
        let k = subst (λ o. Taken d t.children o) n (take_entry-Taken d t.children) in
        let z : ltb (used t.children) 64 ≡ true = ground arith in
        rw (handle_descriptor, n, z, here) (refl, bag_path (λ i. k.3 i) k.2, k.1, refl)
  ]
]

or_swap : (a b c : Bool) → (b || (a || c)) ≡ ((a || b) || c)
or_swap true true c = refl
or_swap true false c = refl
or_swap false true c = refl
or_swap false false c = refl

abbrev Answered : Topology → List PnpAck × Bag → Topology → Type 0
Answered t (acks, b) u =
    (contents u.ack_ring ≡ fill (contents t.ack_ring) acks)
    × IsRing u.ack_ring
    × (bag_of u.children ≡ b)
    × (length u.children ≡ length t.children)
    × (u.changed ≡ (any_done acks || t.changed))

fold-Answered :
    (ds : List PnpDescriptor) (t : Topology)
    → length t.children ≡ 64
    → IsRing t.ack_ring
    → Answered t (answers ds (bag_of t.children)) (fold handle_descriptor ds t)
fold-Answered [] t full v = (sym (fill_nil (contents t.ack_ring)), v, refl, refl, refl)
fold-Answered (d ∷ ds) t full v =
    let (status, b) = answer d (bag_of t.children) in
    let u = handle_descriptor d t in
    let s = handle_descriptor-answer d t full in
    let p = try_push-refines (ack_of d status) v in
    let h = fold-Answered ds u (s.2 ∙ full) (subst IsRing (sym s.0) p.2) in
    let acks = (answers ds b).0 in
    let e : contents u.ack_ring ≡ (
        if ltb (length (contents t.ack_ring)) 64
        then contents t.ack_ring ++ ack_of d status ∷ []
        else contents t.ack_ring) =
      ap contents s.0
      ∙ p.1
      ∙ ap (λ ok. if ok then contents t.ack_ring ++ ack_of d status ∷ [] else contents t.ack_ring)
          p.0 in
    let bags = ap (answers ds) s.1 in
    (
      h.0
          ∙ ap (λ c. fill (contents u.ack_ring) c.0) bags
          ∙ ap (λ c. fill c acks) e
          ∙ sym (fill-cons (contents t.ack_ring) (ack_of d status) acks),
      h.1,
      h.2 ∙ ap (λ c. c.1) bags,
      h.3 ∙ s.2,
      h.4
          ∙ ap (λ c. any_done c.0 || u.changed) bags
          ∙ ap (λ c. any_done acks || c) s.3
          ∙ or_swap (status == 0) (any_done acks) t.changed,
    )

-- With both rings of the mapped region well formed and a table of 64 entries: a call of the timer's
-- routine takes every descriptor that waits and answers each, in order, as a bag of at most 64 device
-- ids does: an arrival gets status 0 and joins the bag, or 1 when it is full; a removal gets 0 and
-- leaves the bag, or 2 when the device is not in it. The answers behind what the ring has room for
-- are dropped. Afterwards the table holds that bag, the heartbeat has counted once and has the time
-- of the call, and the relations are declared invalid exactly if a descriptor succeeded.
pub poll_dpc-answers :
    (now : ℕ) (ext : Extension) (shm : Header)
    → ext.shm ≡ some shm
    → length ext.children ≡ 64
    → IsRing shm.pnp_ring
    → IsRing shm.pnp_ack_ring
    → let (ext', invalidated) = poll_dpc now ext in
      let (acks, bag) = answers (contents shm.pnp_ring) (bag_of ext.children) in
      (s : Header) × (ext'.shm ≡ some s)
      × (contents s.pnp_ring ≡ [])
      × (contents s.pnp_ack_ring ≡ fill (contents shm.pnp_ack_ring) acks)
      × IsRing s.pnp_ring
      × IsRing s.pnp_ack_ring
      × (bag_of ext'.children ≡ bag)
      × (length ext'.children ≡ 64)
      × (invalidated ≡ any_done acks)
      × (s.guest_heartbeat_seq ≡ (shm.guest_heartbeat_seq + 1) % 2 ^ 64)
      × (s.guest_heartbeat_time_ns ≡ now)
unfolding poll_dpc
poll_dpc-answers now ext shm e full v w =
    let t0 : Topology = record {
      children = ext.children;
      ack_ring = shm.pnp_ack_ring;
      changed = false;
    } in
    let l =
      pop_loop-fold handle_descriptor (rounds shm.pnp_ring) t0 v (rounds_enough shm.pnp_ring) in
    let (ring, t) = pop_loop handle_descriptor (rounds shm.pnp_ring) shm.pnp_ring t0 in
    let a =
      subst (Answered t0 (answers (contents shm.pnp_ring) (bag_of ext.children))) (sym l.0)
        (fold-Answered (contents shm.pnp_ring) t0 full w) in
    rw (e, poll_dpc)
      (
        record shm {
          guest_heartbeat_seq = (shm.guest_heartbeat_seq + 1) % 2 ^ 64;
          guest_heartbeat_time_ns = now;
          pnp_ring = ring;
          pnp_ack_ring = t.ack_ring;
        },
        refl,
        l.1,
        a.0,
        l.2,
        a.1,
        a.2,
        a.3 ∙ full,
        a.4 ∙ or_false (any_done (answers (contents shm.pnp_ring) (bag_of ext.children)).0),
        refl,
        refl,
      )
  where
    or_false : (b : Bool) → (b || false) ≡ b
    or_false true = refl
    or_false false = refl
