-- ===== src/Tests/Arrivals.antt =====
-- Descriptors at the guest's bus driver: devices that arrive, one that is unknown, and a seeded host.
use ntlinux.Common.{
  if◌then◌else◌, ℕ, ◌≡◌, refl, ◌==◌, List, [], ◌∷◌, none, some, true, false, arith, length,
}
use ntlinux.Ntbridge.Ring.Refine.{contents, IsRing}
use ntlinux.Ntbridge.Ring.Fill.{fill}
use ntlinux.Ntbridge.Region.{Header}
use ntlinux.Ntbridge.Guest.{Extension, poll_dpc}
use ntlinux.Ntbridge.Guest.Pnp.{new_extension}
use ntlinux.Ntbridge.Guest.Answers.{bag_of, answers, any_done, poll_dpc-answers}
use ntlinux.Ntbridge.Guest.Session.{seeding, begun, turn-poll_dpc}
use ntlinux.Ntbridge.Host.Daemon.{Surroundings, turn, exits_with_success}
use ntlinux.Tests.Regions.{region, some_device, some_ack, some_frame, empty-IsRing}

abbrev text : ℕ → List ℕ
text i = i ∷ []

abbrev polled : Extension
polled = record (new_extension 5 2) { shm = some region; poll_timer_started = true }

-- An arrival, and the removal of a device that is not there.
abbrev two : Header
two = record region {
  pnp_ring = record {
    head = 1;
    tail = 18446744073709551615;
    slots = λ i. record some_device { action = if i == 0 then 1 else 0 };
  };
}

two-IsRing : IsRing two.pnp_ring
two-IsRing = record { head_lt = omega arith; tail_lt = omega arith; fits = omega arith }

abbrev twice_polled : Extension
twice_polled = record polled { shm = some two }

poll_dpc-answers_example :
    let (ext, invalidated) = poll_dpc 11 twice_polled in
    let (acks, bag) = answers (contents two.pnp_ring) (bag_of polled.children) in
    (s : Header) × (ext.shm ≡ some s)
    × (contents s.pnp_ring ≡ [])
    × (contents s.pnp_ack_ring ≡ fill [] acks)
    × IsRing s.pnp_ring
    × IsRing s.pnp_ack_ring
    × (bag_of ext.children ≡ bag)
    × (length ext.children ≡ 64)
    × (invalidated ≡ any_done acks)
    × (s.guest_heartbeat_seq ≡ 0)
    × (s.guest_heartbeat_time_ns ≡ 11)
poll_dpc-answers_example =
    poll_dpc-answers 11 twice_polled two refl refl two-IsRing (empty-IsRing some_ack)

abbrev idle : Surroundings
idle = record { now = 1; seen_at = 2; tap = none; takes = λ f. true }

abbrev busy : Surroundings
busy = record { now = 3; seen_at = 4; tap = some (some_frame ∷ []); takes = λ f. false }

turn-poll_dpc_example :
    let d = (turn true idle (begun text text text 2)).1 in
    (s : Header) × ((poll_dpc 11 (record polled { shm = some d.shm })).0.shm ≡ some s)
    × ((seeding text text text 2).0 ≡ 2)
    × (exits_with_success (turn true busy (record d { shm = s })).1 (seeding text text text 2).0
        ≡ true)
turn-poll_dpc_example =
    turn-poll_dpc text text text 2 11 true idle busy polled (omega arith) refl (omega arith)
      (omega arith)
