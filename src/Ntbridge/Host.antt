-- ===== src/Ntbridge/Host.antt =====
-- driver/ntbridge/host/ntbridge-host.c: the host's end of the rings. The guest may push and pop between
-- the steps; each `while (try_pop)` loop is modelled as it runs while the guest does not push.
pub mod Replies
pub mod Turns
pub mod Daemon
use ntlinux.Common.{
  ℕ, zero, suc, ◌+◌, ◌%◌, ◌^◌, List, [], ◌∷◌, Option, none, some, Bool, true, false, not, ◌&&◌,
  ◌==◌, ltb, update, if◌then◌else◌,
}
use ntlinux.Ntbridge.Messages.{PnpDescriptor, PnpAck, NetFrame, UsbUrbMsg}
use ntlinux.Ntbridge.Ring.{Ring, try_push, try_pop}
use ntlinux.Ntbridge.Ring.Loops.{drain, push_all, rounds}

-- "NTLXUSBTEST-HOST-TO-GUEST"
abbrev pub usb_echo_reply : List ℕ
usb_echo_reply =
    78 ∷ 84 ∷ 76 ∷ 88 ∷ 85 ∷ 83 ∷ 66 ∷ 84 ∷ 69 ∷ 83 ∷ 84 ∷ 45 ∷ 72 ∷ 79 ∷ 83 ∷ 84 ∷ 45 ∷ 84 ∷ 79
    ∷ 45 ∷ 71 ∷ 85 ∷ 69 ∷ 83 ∷ 84 ∷ []

-- NTBRIDGE_USB_FN_BULK_OR_INTERRUPT_TRANSFER is 9.
abbrev pub reply_to : UsbUrbMsg → UsbUrbMsg
reply_to req = record {
  request_id = req.request_id;
  function = 9;
  status = 0;
  endpoint = 0;
  length = 25;
  payload = usb_echo_reply;
}

-- The two USB rings, and the counters.
pub record UsbEcho : Type 0 where
  pub req_ring : Ring UsbUrbMsg
  pub resp_ring : Ring UsbUrbMsg
  pub requests_seen : ℕ
  pub replies_sent : ℕ

unfoldable pub answer_request : UsbUrbMsg → UsbEcho → UsbEcho
answer_request req s =
    let (sent, resp_ring) = try_push (reply_to req) s.resp_ring in
    record s {
      resp_ring = resp_ring;
      requests_seen = s.requests_seen + 1;
      replies_sent = if sent then s.replies_sent + 1 else s.replies_sent;
    }

unfoldable pub echo_loop : ℕ → UsbEcho → UsbEcho
echo_loop zero s = s
echo_loop (suc fuel) s =
    let (out, req_ring) = try_pop s.req_ring in
    let s' = record s { req_ring = req_ring } in
    elim out [ none ↦ s' | some req ↦ echo_loop fuel (answer_request req s') ]

unfoldable pub usb_echo_tick : UsbEcho → UsbEcho
usb_echo_tick s = echo_loop (rounds s.req_ring) s

-- The texts that snprintf makes are parameters, by the number that goes into them.
module _ (hardware_id friendly_name location : ℕ → List ℕ) where
  abbrev pub synthetic : ℕ → PnpDescriptor
  synthetic i = record {
    device_id = 1000 + i;
    action = 0;
    bus_type = 0;
    vendor_id = 6900;
    product_id = (4096 + i) % 2 ^ 16;
    hardware_id = hardware_id ((4096 + i) % 2 ^ 16);
    friendly_name = friendly_name i;
    location = location i;
  }

  -- The descriptors from the `i`-th on, `n` of them.
  abbrev pub synthetics : ℕ → ℕ → List PnpDescriptor
  synthetics i zero = []
  synthetics i (suc n) = synthetic i ∷ synthetics (i + 1) n

  unfoldable pub seed_synthetic_devices : ℕ → Ring PnpDescriptor → ℕ × Ring PnpDescriptor
  seed_synthetic_devices count r = push_all (synthetics 0 count) r

-- Which devices were acknowledged, by id modulo 4096, and how many.
pub record Acks : Type 0 where
  pub acked : ℕ → Bool
  pub acked_count : ℕ

unfoldable pub take_ack : PnpAck → Acks → Acks
take_ack ack a =
    let idx = ack.device_id % 4096 in
    if a.acked idx
    then a
    else record { acked = update a.acked idx true; acked_count = a.acked_count + 1 }

unfoldable pub take_acks : List PnpAck → Acks → Acks
take_acks [] a = a
take_acks (k ∷ ks) a = take_acks ks (take_ack k a)

unfoldable pub drain_acks : Ring PnpAck → Acks → Acks × Ring PnpAck
drain_acks r a = let (acks, t) = drain (rounds r) r in (take_acks acks a, t)

-- The frames that the TAP device gives until it has no more go to the guest: how many went in.
unfoldable pub receive_frames : List NetFrame → Ring NetFrame → ℕ × Ring NetFrame
receive_frames tap r = push_all tap r

-- The guest's frames go to the TAP device, which gets them in this order.
unfoldable pub send_frames : Ring NetFrame → List NetFrame × Ring NetFrame
send_frames r = drain (rounds r) r

-- The test of the exit status.
unfoldable pub run_ok : ℕ → Acks → ℕ → Bool
run_ok first_guest_heartbeat_ns a devices_seeded =
    not (first_guest_heartbeat_ns == 0) && a.acked_count == devices_seeded && ltb 0 devices_seeded
