-- ===== src/Ntbridge/Guest/Arrival.antt =====
-- driver/ntbridge/host/ntbridge-host.c and driver/ntbridge/reactos/ntbridge_pnp.c: the devices that the
-- host seeds, from the ring to their acknowledgement.
use ntlinux.Common.{
  ℕ, zero, suc, ◌+◌, ◌%◌, ◌^◌, ◌≤◌, ◌<◌, ◌≡◌, ◌≢◌, refl, sym, ap, ◌∙◌, List, [], ◌∷◌, map, some,
  true, false, not, ◌&&◌, ◌==◌, ltb, length, arith, update, take_all,
}
use ntlinux.Ntbridge.Messages.{PnpDescriptor, PnpAck}
use ntlinux.Ntbridge.Ring.Refine.{contents, IsRing}
use ntlinux.Ntbridge.Ring.Loops.{rounds}
use ntlinux.Ntbridge.Ring.Fill.{fill, drain-empties, rounds_enough}
use ntlinux.Ntbridge.Region.{Header}
use ntlinux.Ntbridge.Host.{
  synthetic, synthetics, seed_synthetic_devices, Acks, take_ack, take_acks, drain_acks, run_ok,
}
use ntlinux.Ntbridge.Host.Turns.{seed_synthetic_devices-fills}
use ntlinux.Ntbridge.Guest.{Extension, ack_of, poll_dpc}
use ntlinux.Ntbridge.Guest.Table.{used}
use ntlinux.Ntbridge.Guest.Answers.{Bag, bag_of, answers, poll_dpc-answers}

abbrev pub nothing_acked : Acks
nothing_acked = record { acked = λ i. false; acked_count = 0 }

abbrev accepted : PnpDescriptor → PnpAck
accepted d = ack_of d 0

take_ack-fresh :
    (k : PnpAck) (a : Acks)
    → k.device_id < 4096
    → a.acked k.device_id ≡ false
    → take_ack k a
      ≡ record { acked = update a.acked k.device_id true; acked_count = a.acked_count + 1 }
unfolding take_ack
take_ack-fresh k a h f = let e : k.device_id % 4096 ≡ k.device_id = omega arith in rw (e, f) refl

module _ (hardware_id friendly_name location : ℕ → List ℕ) where
  abbrev seeds : ℕ → ℕ → List PnpDescriptor
  seeds = synthetics hardware_id friendly_name location

  length-seeds : (i n : ℕ) → length (seeds i n) ≡ n
  length-seeds i zero = refl
  length-seeds i (suc n) = ap suc (length-seeds (i + 1) n)

  length-accepted : (ds : List PnpDescriptor) → length (map accepted ds) ≡ length ds
  length-accepted [] = refl
  length-accepted (d ∷ ds) = ap suc (length-accepted ds)

  answers-accepted :
      (i n : ℕ) (b : Bag) → b.total + n ≤ 64 → (answers (seeds i n) b).0 ≡ map accepted (seeds i n)
  answers-accepted i zero b h = refl
  answers-accepted i (suc n) b h =
      let room : ltb b.total 64 ≡ true = ground arith in
      rw room (
        ap (◌∷◌ (accepted (synthetic hardware_id friendly_name location i)))
          (answers-accepted (i + 1) n _ (omega (arith, h))))

  take_acks-count :
      (i n : ℕ) (a : Acks)
      → i + n ≤ 64
      → ((j : ℕ) → 1000 + i ≤ j → a.acked j ≡ false)
      → (take_acks (map accepted (seeds i n)) a).acked_count ≡ a.acked_count + n
  unfolding take_acks
  take_acks-count i zero a h fresh = omega arith
  take_acks-count i (suc n) a h fresh =
      let t =
        take_acks-count (i + 1) n
          (record { acked = update a.acked (1000 + i) true; acked_count = a.acked_count + 1 })
          (omega (arith, h)) (λ j le. ground (arith, fresh j)) in
      let k = accepted (synthetic hardware_id friendly_name location i) in
      rw (take_ack-fresh k a (omega (arith, h)) (fresh (1000 + i) (omega arith)), take_acks)
        (omega (arith, t))

  -- The devices that the host seeds into an empty ring are acknowledged by one call of the timer's
  -- routine, when the guest's table has room for them.
  pub acked-poll_dpc :
      (n now heartbeat : ℕ) (ext : Extension) (shm : Header)
      → ext.shm
        ≡ some (record shm {
          pnp_ring = (seed_synthetic_devices hardware_id friendly_name location n shm.pnp_ring).1;
        })
      → contents shm.pnp_ring ≡ []
      → contents shm.pnp_ack_ring ≡ []
      → IsRing shm.pnp_ring
      → IsRing shm.pnp_ack_ring
      → length ext.children ≡ 64
      → used ext.children + n ≤ 64
      → 0 < n
      → heartbeat ≢ 0
      → let seeded = (seed_synthetic_devices hardware_id friendly_name location n shm.pnp_ring).0 in
        (s : Header) × ((poll_dpc now ext).0.shm ≡ some s)
        × (seeded ≡ n)
        × ((drain_acks s.pnp_ack_ring nothing_acked).0.acked_count ≡ seeded)
        × (run_ok heartbeat (drain_acks s.pnp_ack_ring nothing_acked).0 seeded ≡ true)
        × (s.guest_heartbeat_seq ≡ (shm.guest_heartbeat_seq + 1) % 2 ^ 64)
  unfolding drain_acks run_ok
  acked-poll_dpc n now heartbeat ext shm e p q v w full room pos beat =
      let ds = seeds 0 n in
      let (filled, counted, vr) =
        seed_synthetic_devices-fills hardware_id friendly_name location n shm.pnp_ring v in
      let (seeded, ring) =
        seed_synthetic_devices hardware_id friendly_name location n shm.pnp_ring in
      let all : contents ring ≡ ds =
        filled ∙ ap (λ c. fill c ds) p ∙ take_all 64 ds (omega (arith, length-seeds 0 n)) in
      let number : seeded ≡ n =
        omega (arith, counted, ap length p, ap length all, length-seeds 0 n) in
      let (s, es, _, acks, _, wr, _, _, _, beats, _) =
        poll_dpc-answers now ext (record shm { pnp_ring = ring }) e full vr w in
      let answered : contents s.pnp_ack_ring ≡ map accepted ds =
        acks
        ∙ ap (λ c. fill c (answers (contents ring) (bag_of ext.children)).0) q
        ∙ ap (λ c. fill [] (answers c (bag_of ext.children)).0) all
        ∙ ap (λ c. fill [] c) (answers-accepted 0 n (bag_of ext.children) room)
        ∙ take_all 64 (map accepted ds) (omega (arith, length-accepted ds, length-seeds 0 n)) in
      let (taken, _, _) = drain-empties (rounds s.pnp_ack_ring) wr (rounds_enough s.pnp_ack_ring) in
      let done : (drain_acks s.pnp_ack_ring nothing_acked).0.acked_count ≡ n =
        ap (λ c. (take_acks c nothing_acked).acked_count) (taken ∙ answered)
        ∙ take_acks-count 0 n nothing_acked (omega (arith, room)) (λ j le. refl)
        ∙ omega arith in
      (
        s,
        es,
        number,
        done ∙ sym number,
        succeeds (drain_acks s.pnp_ack_ring nothing_acked).0.acked_count seeded done number,
        beats,
      )
    where
      succeeds :
          (count seeded : ℕ)
          → count ≡ n
          → seeded ≡ n
          → (not (heartbeat == 0) && count == seeded && ltb 0 seeded) ≡ true
      succeeds count seeded c d = ground arith
