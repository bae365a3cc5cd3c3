-- ===== src/Ntbridge/Host/Turns.antt =====
-- driver/ntbridge/host/ntbridge-host.c: one turn of the host at its rings.
use ntlinux.Common.{
  ℕ, ◌+◌, ◌%◌, ◌≡◌, ap, List, [], ◌∷◌, map, Bool, true, arith, length, if◌then◌else◌, Bool-cases,
  inl, inr,
}
use ntlinux.Common.Sums.{sum_below, sum_below-update}
use ntlinux.Ntbridge.Ring.{Ring}
use ntlinux.Ntbridge.Ring.Refine.{contents, IsRing}
use ntlinux.Ntbridge.Host.{
  reply_to, UsbEcho, usb_echo_tick, synthetics, seed_synthetic_devices, Acks, take_ack, take_acks,
  drain_acks, send_frames,
}
use ntlinux.Ntbridge.Host.Replies.{echo_loop-Echoed}
use ntlinux.Ntbridge.Messages.{PnpDescriptor, PnpAck, NetFrame}
use ntlinux.Ntbridge.Ring.Loops.{drain, rounds}
use ntlinux.Ntbridge.Ring.Fill.{fill, push_all-fills, drain-empties, rounds_enough}

-- On well-formed rings, a turn of the USB echo takes every request, counts it, and queues a reply
-- with its id for each, in the order of the requests, as long as the response ring has room; the
-- replies behind that are dropped, and `replies_sent` counts the others. Both rings stay well
-- formed.
pub usb_echo_tick-replies :
    (s : UsbEcho)
    → IsRing s.req_ring
    → IsRing s.resp_ring
    → let t = usb_echo_tick s in
      (contents t.req_ring ≡ [])
      × (contents t.resp_ring ≡ fill (contents s.resp_ring) (map reply_to (contents s.req_ring)))
      × (t.requests_seen ≡ s.requests_seen + length (contents s.req_ring))
      × (length (contents t.resp_ring) + s.replies_sent
          ≡ length (contents s.resp_ring) + t.replies_sent)
      × IsRing t.req_ring
      × IsRing t.resp_ring
unfolding usb_echo_tick
usb_echo_tick-replies s v w = echo_loop-Echoed (rounds s.req_ring) s v w (rounds_enough s.req_ring)

-- On a well-formed ring, seeding appends the descriptors 0, 1, ... in order, as many as the ring
-- has room for, and returns how many those were.
pub seed_synthetic_devices-fills :
    (hardware_id friendly_name location : ℕ → List ℕ) (count : ℕ) (r : Ring PnpDescriptor)
    → IsRing r
    → let (pushed, t) = seed_synthetic_devices hardware_id friendly_name location count r in
      (contents t ≡ fill (contents r) (synthetics hardware_id friendly_name location 0 count))
      × (length (contents t) ≡ length (contents r) + pushed)
      × IsRing t
unfolding seed_synthetic_devices
seed_synthetic_devices-fills hardware_id friendly_name location count r v =
    push_all-fills (synthetics hardware_id friendly_name location 0 count) v

-- How many entries are marked.
unfoldable pub marked : Acks → ℕ
marked a = sum_below 4096 (λ i. if a.acked i then 1 else 0)

take_ack-marked :
    (k : PnpAck) (a : Acks)
    → a.acked_count ≡ marked a
    → (take_ack k a).acked_count ≡ marked (take_ack k a)
unfolding take_ack marked
take_ack-marked k a e = elim (Bool-cases (a.acked (k.device_id % 4096))) [
  | inl y ↦ rw y e
  | inr y ↦
      let u =
        sum_below-update (λ b. if b then 1 else 0) 4096 a.acked (k.device_id % 4096) true
          (omega arith) in
      let z = ap {A = Bool} {B = ℕ} (λ b. if b then 1 else 0) y in rw y (omega (arith, e, u, z))
]

take_acks-marked :
    (ks : List PnpAck) (a : Acks)
    → a.acked_count ≡ marked a
    → (take_acks ks a).acked_count ≡ marked (take_acks ks a)
unfolding take_acks
take_acks-marked [] a e = e
take_acks-marked (k ∷ ks) a e = take_acks-marked ks (take_ack k a) (take_ack-marked k a e)

-- A turn at the acknowledgements empties their well-formed ring and keeps the count equal to the
-- number of entries that are marked, so that a device acknowledged twice counts once.
pub drain_acks-marked :
    (r : Ring PnpAck) (a : Acks)
    → IsRing r
    → a.acked_count ≡ marked a
    → let (b, t) = drain_acks r a in (b.acked_count ≡ marked b) × (contents t ≡ []) × IsRing t
unfolding drain_acks
drain_acks-marked r a v e =
    let h = drain-empties (rounds r) v (rounds_enough r) in
    (take_acks-marked (drain (rounds r) r).0 a e, h.1, h.2)

-- The TAP device gets exactly the frames that the well-formed ring holds, oldest first, and the
-- ring is empty then.
pub send_frames-in_order :
    (r : Ring NetFrame)
    → IsRing r
    → let (sent, t) = send_frames r in (sent ≡ contents r) × (contents t ≡ []) × IsRing t
unfolding send_frames
send_frames-in_order r v = drain-empties (rounds r) v (rounds_enough r)
