-- ===== src/Ntbridge/Guest/Session.antt =====
-- driver/ntbridge/host/ntbridge-host.c and driver/ntbridge/reactos/ntbridge_pnp.c: a run of the daemon
-- with a guest that answers.
use ntlinux.Common.{
  ℕ, ◌+◌, ◌%◌, ◌^◌, ◌≤◌, ◌<◌, ◌≡◌, ◌≢◌, refl, sym, ap, ◌∙◌, List, some, Bool, true, false, ◌&&◌,
  ◌==◌, ltb, length, if◌then◌else◌, Bool-cases, Option-cases, inl, inr, arith,
}
use mathlib.Core.Path.{subst}
use ntlinux.Ntbridge.Messages.{PnpDescriptor, PnpAck}
use ntlinux.Ntbridge.Ring.{Ring, try_pop}
use ntlinux.Ntbridge.Ring.Loops.{drain}
use ntlinux.Ntbridge.Ring.Refine.{contents, IsRing}
use ntlinux.Ntbridge.Region.{Header}
use ntlinux.Ntbridge.Host.{take_acks, drain_acks, seed_synthetic_devices, run_ok}
use ntlinux.Ntbridge.Host.Daemon.{
  zero_ring, fresh_region, Daemon, Surroundings, tap_turn, usb_turn, heartbeat_turn, ring_turn,
  turn, started, exits_with_success,
}
use ntlinux.Ntbridge.Guest.{Extension, poll_dpc}
use ntlinux.Ntbridge.Guest.Table.{used}
use ntlinux.Ntbridge.Guest.Arrival.{nothing_acked, acked-poll_dpc}

zero_ring-IsRing {ℓ} : {A : Type ℓ} (x : A) → IsRing (zero_ring x)
zero_ring-IsRing x = record { head_lt = omega arith; tail_lt = omega arith; fits = omega arith }

-- What a turn does to the acknowledgements and to what the guest wrote.
abbrev Turned : Surroundings → Daemon → Daemon → Type 0
Turned e d t =
    (t.acks ≡ (drain_acks d.shm.pnp_ack_ring d.acks).0)
    × (t.shm.pnp_ack_ring ≡ (drain_acks d.shm.pnp_ack_ring d.acks).1)
    × (t.shm.pnp_ring ≡ d.shm.pnp_ring)
    × (t.shm.guest_heartbeat_seq ≡ d.shm.guest_heartbeat_seq)
    × (t.first_guest_heartbeat_ns ≡ (
        if ltb 0 d.shm.guest_heartbeat_seq && d.first_guest_heartbeat_ns == 0
        then e.seen_at
        else d.first_guest_heartbeat_ns))

abbrev Same : Daemon → Daemon → Type 0
Same d t =
    (t.acks ≡ d.acks)
    × (t.shm.pnp_ack_ring ≡ d.shm.pnp_ack_ring)
    × (t.shm.pnp_ring ≡ d.shm.pnp_ring)
    × (t.shm.guest_heartbeat_seq ≡ d.shm.guest_heartbeat_seq)
    × (t.first_guest_heartbeat_ns ≡ d.first_guest_heartbeat_ns)

tap_turn-Same : (e : Surroundings) (d : Daemon) → Same d (tap_turn e d).1
unfolding tap_turn
tap_turn-Same e d = elim (Option-cases e.tap) [
  | inl n ↦ rw (n, tap_turn) (refl, refl, refl, refl, refl)
  | inr (frames, n) ↦ rw (n, tap_turn) (refl, refl, refl, refl, refl)
]

usb_turn-Same : (usb_echo : Bool) (d : Daemon) → Same d (usb_turn usb_echo d)
unfolding usb_turn
usb_turn-Same true d = (refl, refl, refl, refl, refl)
usb_turn-Same false d = (refl, refl, refl, refl, refl)

abbrev seen_in : Surroundings → Daemon → ℕ
seen_in e d =
    if ltb 0 d.shm.guest_heartbeat_seq && d.first_guest_heartbeat_ns == 0
    then e.seen_at
    else d.first_guest_heartbeat_ns

heartbeat_turn-first :
    (e : Surroundings) (d : Daemon)
    → let t = heartbeat_turn e d in
      (t.acks ≡ d.acks) × (t.shm ≡ d.shm) × (t.first_guest_heartbeat_ns ≡ seen_in e d)
unfolding heartbeat_turn
heartbeat_turn-first e d =
    elim (Bool-cases (ltb 0 d.shm.guest_heartbeat_seq && d.first_guest_heartbeat_ns == 0)) [
      | inl y ↦ rw (y, heartbeat_turn) (refl, refl, refl)
      | inr n ↦ rw (n, heartbeat_turn) (refl, refl, refl)
    ]

turn-Turned : (usb_echo : Bool) (e : Surroundings) (d : Daemon) → Turned e d (turn usb_echo e d).1
unfolding turn ring_turn
turn-Turned usb_echo e d =
    let r = ring_turn e d in
    let a = tap_turn-Same e r in
    let b = usb_turn-Same usb_echo (tap_turn e r).1 in
    let u = usb_turn usb_echo (tap_turn e r).1 in
    let h = heartbeat_turn-first e u in
    (
      h.0 ∙ b.0 ∙ a.0,
      ap (λ s. s.pnp_ack_ring) h.1 ∙ b.1 ∙ a.1,
      ap (λ s. s.pnp_ring) h.1 ∙ b.2 ∙ a.2,
      ap (λ s. s.guest_heartbeat_seq) h.1 ∙ b.3 ∙ a.3,
      h.2
          ∙ ap
              (λ n.
                if ltb 0 n && u.first_guest_heartbeat_ns == 0
                then e.seen_at
                else u.first_guest_heartbeat_ns)
              (b.3 ∙ a.3)
          ∙ ap (λ n. if ltb 0 d.shm.guest_heartbeat_seq && n == 0 then e.seen_at else n)
              (b.4 ∙ a.4),
    )

nothing_to_ack :
    (x : PnpAck) → drain_acks (zero_ring x) nothing_acked ≡ (nothing_acked, zero_ring x)
unfolding drain_acks drain try_pop take_acks
nothing_to_ack x = refl

module _ (hardware_id friendly_name location : ℕ → List ℕ) where
  abbrev pub seeding : ℕ → ℕ × Ring PnpDescriptor
  seeding n = seed_synthetic_devices hardware_id friendly_name location n fresh_region.pnp_ring

  -- The daemon right after its seeding of a fresh region, and after its first turn.
  abbrev pub begun : ℕ → Daemon
  begun n = started (record fresh_region { pnp_ring = (seeding n).1 })

  -- A daemon that opened a fresh region and seeds between 1 and 64 devices succeeds: whatever the TAP
  -- device does, and with or without the USB echo, one turn of its loop, one call of the timer's routine of
  -- a guest that has mapped the region and has that many free entries in a table of 64, and one more
  -- turn at a time other than 0 leave it in a state in which the test of its exit status holds, for
  -- all the devices that were asked for.
  pub turn-poll_dpc :
      (n now : ℕ) (usb_echo : Bool) (e e' : Surroundings) (ext : Extension)
      → 0 < n
      → length ext.children ≡ 64
      → used ext.children + n ≤ 64
      → e'.seen_at ≢ 0
      → let d = (turn usb_echo e (begun n)).1 in
        (s : Header) × ((poll_dpc now (record ext { shm = some d.shm })).0.shm ≡ some s)
        × ((seeding n).0 ≡ n)
        × (exits_with_success (turn usb_echo e' (record d { shm = s })).1 (seeding n).0 ≡ true)
  turn-poll_dpc n now usb_echo e e' ext pos full room clock =
      let d = (turn usb_echo e (begun n)).1 in
      let ack = fresh_region.pnp_ack_ring.slots 0 in
      let first = turn-Turned usb_echo e (begun n) in
      let acks : d.acks ≡ nothing_acked = first.0 ∙ ap (λ r. r.0) (nothing_to_ack ack) in
      let empty : d.shm.pnp_ack_ring ≡ zero_ring ack =
        first.1 ∙ ap (λ r. r.1) (nothing_to_ack ack) in
      let (s, es, number, _, ok, beats) =
        acked-poll_dpc hardware_id friendly_name location n now e'.seen_at
          (record ext { shm = some d.shm }) (record d.shm { pnp_ring = fresh_region.pnp_ring })
          (ap (λ r. some (record d.shm { pnp_ring = r })) first.2) refl (ap contents empty)
          (zero_ring-IsRing (fresh_region.pnp_ring.slots 0))
          (subst IsRing (sym empty) (zero_ring-IsRing ack)) full room pos clock in
      let second = turn-Turned usb_echo e' (record d { shm = s }) in
      let beat : s.guest_heartbeat_seq ≡ 1 = beats ∙ ap (λ k. (k + 1) % 2 ^ 64) first.3 in
      let seen : (turn usb_echo e' (record d { shm = s })).1.first_guest_heartbeat_ns ≡ e'.seen_at =
        second.4
        ∙ ap
            (λ k.
              if ltb 0 k && d.first_guest_heartbeat_ns == 0
              then e'.seen_at
              else d.first_guest_heartbeat_ns)
            beat
        ∙ ap (λ k. if ltb 0 1 && k == 0 then e'.seen_at else k) first.4 in
      let settled = second.0 ∙ ap (λ a. (drain_acks s.pnp_ack_ring a).0) acks in
      (
        s,
        es,
        number,
        ap (λ k. run_ok k (turn usb_echo e' (record d { shm = s })).1.acks (seeding n).0) seen
            ∙ ap (λ a. run_ok e'.seen_at a (seeding n).0) settled
            ∙ ok,
      )
