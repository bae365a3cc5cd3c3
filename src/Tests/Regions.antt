-- ===== src/Tests/Regions.antt =====
-- A mapped region with empty rings, whose counters are about to wrap.
use ntlinux.Common.{[], true, arith}
use ntlinux.Ntbridge.Messages.{PnpDescriptor, PnpAck, NetFrame, UsbUrbMsg}
use ntlinux.Ntbridge.Ring.{Ring}
use ntlinux.Ntbridge.Ring.Refine.{IsRing}
use ntlinux.Ntbridge.Region.{Header}

abbrev empty {ℓ} : {A : Type ℓ} → A → Ring A
empty x = record { head = 18446744073709551615; tail = 18446744073709551615; slots = λ i. x }

pub empty-IsRing {ℓ} : {A : Type ℓ} (x : A) → IsRing (empty x)
empty-IsRing x = record { head_lt = omega arith; tail_lt = omega arith; fits = omega arith }

abbrev pub some_device : PnpDescriptor
some_device = record {
  device_id = 0;
  action = 0;
  bus_type = 0;
  vendor_id = 0;
  product_id = 0;
  hardware_id = [];
  friendly_name = [];
  location = [];
}

abbrev pub some_ack : PnpAck
some_ack = record { device_id = 0; action = 0; status = 0 }

abbrev pub some_frame : NetFrame
some_frame = record { length = 0; payload = [] }

abbrev pub some_urb : UsbUrbMsg
some_urb = record {
  request_id = 0;
  function = 0;
  status = 0;
  endpoint = 0;
  length = 0;
  payload = [];
}

abbrev pub region : Header
region = record {
  magic = 0x5242544E;
  version = 3;
  total_size = 746144;
  initialized = true;
  host_heartbeat_seq = 0;
  host_heartbeat_time_ns = 0;
  guest_heartbeat_seq = 18446744073709551615;
  guest_heartbeat_time_ns = 0;
  log_ring = empty (record { level = 1; source = 1; seq = 0; text = [] });
  pnp_ring = empty some_device;
  pnp_ack_ring = empty some_ack;
  net_tx_ring = empty some_frame;
  net_rx_ring = empty some_frame;
  usb_req_ring = empty some_urb;
  usb_resp_ring = empty some_urb;
}
