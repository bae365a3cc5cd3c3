-- ===== src/Ntbridge/Host/Daemon.antt =====
-- driver/ntbridge/host/ntbridge-host.c: the region that the daemon opens, and its main loop. What the
-- clock and the TAP device answer in a turn are arguments.
use ntlinux.Common.{
  ℕ, ◌+◌, ◌%◌, ◌^◌, List, [], ◌∷◌, Option, none, some, Bool, true, false, ◌&&◌, ◌||◌, ◌==◌, ltb,
  length, if◌then◌else◌,
}
use ntlinux.Ntbridge.Messages.{PnpDescriptor, NetFrame, UsbUrbMsg}
use ntlinux.Ntbridge.Ring.{Ring}
use ntlinux.Ntbridge.Ring.Loops.{drain, rounds}
use ntlinux.Ntbridge.Region.{Header, shm_size_min, speaks}
use ntlinux.Ntbridge.Host.{usb_echo_tick, Acks, drain_acks, receive_frames, send_frames, run_ok}

-- Memory that is zero, as each message and as a ring.
abbrev pub zero_descriptor : PnpDescriptor
zero_descriptor = record {
  device_id = 0;
  action = 0;
  bus_type = 0;
  vendor_id = 0;
  product_id = 0;
  hardware_id = [];
  friendly_name = [];
  location = [];
}

abbrev pub zero_urb : UsbUrbMsg
zero_urb = record {
  request_id = 0;
  function = 0;
  status = 0;
  endpoint = 0;
  length = 0;
  payload = [];
}

abbrev pub zero_ring {ℓ} : {A : Type ℓ} → A → Ring A
zero_ring x = record { head = 0; tail = 0; slots = λ i. x }

abbrev pub fresh_region : Header
fresh_region = record {
  magic = 0x5242544E;
  version = 3;
  total_size = shm_size_min;
  initialized = true;
  host_heartbeat_seq = 0;
  host_heartbeat_time_ns = 0;
  guest_heartbeat_seq = 0;
  guest_heartbeat_time_ns = 0;
  log_ring = zero_ring (record { level = 0; source = 0; seq = 0; text = [] });
  pnp_ring = zero_ring zero_descriptor;
  pnp_ack_ring = zero_ring (record { device_id = 0; action = 0; status = 0 });
  net_tx_ring = zero_ring (record { length = 0; payload = [] });
  net_rx_ring = zero_ring (record { length = 0; payload = [] });
  usb_req_ring = zero_ring zero_urb;
  usb_resp_ring = zero_ring zero_urb;
}

-- The part of `open_shm` behind the mapping of a file that was empty, or held `found`.
unfoldable pub open_shm : (fresh : Bool) → Header → Option Header
open_shm fresh found =
    if fresh || found.magic == 0
    then some fresh_region
    else if speaks found
    then some found
    else none

-- What main keeps beside the region.
pub record Daemon : Type 0 where
  pub shm : Header
  pub acks : Acks
  pub first_guest_heartbeat_ns : ℕ
  pub log_lines_seen : ℕ
  pub tap_frames_in : ℕ
  pub tap_frames_out : ℕ
  pub usb_requests_seen : ℕ
  pub usb_replies_sent : ℕ

-- The two readings of the clock in a turn, and the TAP device, if there is one: the frames that it
-- gives until it has no more, and whether it takes a frame.
pub record Surroundings : Type 0 where
  pub now : ℕ
  pub seen_at : ℕ
  pub tap : Option (List NetFrame)
  pub takes : NetFrame → Bool

abbrev pub count_taken : (NetFrame → Bool) → List NetFrame → ℕ
count_taken takes [] = 0
count_taken takes (f ∷ fs) = (if takes f then 1 else 0) + count_taken takes fs

-- The frames that were written, and the daemon after the bridging of frames.
unfoldable pub tap_turn : Surroundings → Daemon → List NetFrame × Daemon
tap_turn e d = elim e.tap [
  | none ↦ ([], d)
  | some frames ↦
      let (out, tx) = send_frames d.shm.net_tx_ring in
      let (n, rx) = receive_frames frames d.shm.net_rx_ring in
      (
        out,
        record d {
          shm = record d.shm { net_tx_ring = tx; net_rx_ring = rx };
          tap_frames_out = d.tap_frames_out + count_taken e.takes out;
          tap_frames_in = d.tap_frames_in + n;
        },
      )
]

unfoldable pub usb_turn : Bool → Daemon → Daemon
usb_turn usb_echo d =
    if usb_echo
    then (let u = usb_echo_tick (record {
      req_ring = d.shm.usb_req_ring;
      resp_ring = d.shm.usb_resp_ring;
      requests_seen = d.usb_requests_seen;
      replies_sent = d.usb_replies_sent;
    }) in
        record d {
          shm = record d.shm { usb_req_ring = u.req_ring; usb_resp_ring = u.resp_ring };
          usb_requests_seen = u.requests_seen;
          usb_replies_sent = u.replies_sent;
        })
    else d

unfoldable pub heartbeat_turn : Surroundings → Daemon → Daemon
heartbeat_turn e d =
    if ltb 0 d.shm.guest_heartbeat_seq && d.first_guest_heartbeat_ns == 0
    then record d { first_guest_heartbeat_ns = e.seen_at }
    else d

-- The heartbeat of the host, the log and the acknowledgements.
unfoldable pub ring_turn : Surroundings → Daemon → Daemon
ring_turn e d =
    let (lines, log_ring) = drain (rounds d.shm.log_ring) d.shm.log_ring in
    let (acks, ack_ring) = drain_acks d.shm.pnp_ack_ring d.acks in
    record d {
      shm = record d.shm {
        host_heartbeat_seq = (d.shm.host_heartbeat_seq + 1) % 2 ^ 64;
        host_heartbeat_time_ns = e.now;
        log_ring = log_ring;
        pnp_ack_ring = ack_ring;
      };
      acks = acks;
      log_lines_seen = d.log_lines_seen + length lines;
    }

-- One turn of the main loop.
unfoldable pub turn : (usb_echo : Bool) → Surroundings → Daemon → List NetFrame × Daemon
turn usb_echo e d =
    let (out, d') = tap_turn e (ring_turn e d) in (out, heartbeat_turn e (usb_turn usb_echo d'))

-- The daemon before its first turn, on a region in which `device_count` devices were seeded.
abbrev pub started : Header → Daemon
started shm = record {
  shm = shm;
  acks = record { acked = λ i. false; acked_count = 0 };
  first_guest_heartbeat_ns = 0;
  log_lines_seen = 0;
  tap_frames_in = 0;
  tap_frames_out = 0;
  usb_requests_seen = 0;
  usb_replies_sent = 0;
}

abbrev pub exits_with_success : Daemon → ℕ → Bool
exits_with_success d devices_seeded = run_ok d.first_guest_heartbeat_ns d.acks devices_seeded
