-- ===== src/Ntusb.antt =====
-- driver/usb/reactos/ntusb.c: the USB bus driver, its function device (FDO) and the device of its one
-- child (PDO). The kernel's answers are the record `Kernel`.
pub mod Control
pub mod Pnp
pub mod Transfers
pub mod Echo
pub mod Refusals
pub mod Life
use ntlinux.Common.{
  ℕ, zero, suc, ◌+◌, ◌-◌, ◌%◌, ◌^◌, List, [], ◌∷◌, ◌++◌, Option, none, some, Bool, true, false, not,
  ◌&&◌, ◌||◌, ◌==◌, ltb, leb, take, drop, length, if◌then◌else◌,
}
use ntlinux.Wdm.{
  NtStatus, status_success, not_supported, buffer_too_small, invalid_parameter, unsuccessful,
  Outcome, completed, copy_bytes,
}
use ntlinux.Ntbridge.Messages.{UsbUrbMsg}
use ntlinux.Ntbridge.Ring.{try_push, try_pop}
use ntlinux.Ntbridge.Region.{Header}

pub data UsbdStatus : Type 0 where
  usbd_success invalid_urb_function interface_not_found invalid_pipe_handle : UsbdStatus
  device_gone bad_descriptor_type : UsbdStatus

-- USBD_SUCCESS
abbrev pub is_success : UsbdStatus → Bool
is_success usbd_success = true
is_success _ = false

-- `NTUSB_EXTENSION` of the FDO; devices are numbers. `next_request_id` is the bit pattern of a LONG.
pub record Fdo : Type 0 where
  pub self : ℕ
  pub lower_device : ℕ
  pub child_pdo : Option ℕ
  pub shm_physical_base : ℕ
  pub shm_length : ℕ
  pub shm : Option Header
  pub next_request_id : ℕ

-- `NTUSB_EXTENSION` of the child.
pub record Pdo : Type 0 where
  pub self : ℕ
  pub symlink_created : Bool
  pub configuration_selected : Bool

abbrev pub bulk_in_endpoint : ℕ
bulk_in_endpoint = 0x81

abbrev pub bulk_out_endpoint : ℕ
bulk_out_endpoint = 0x01

-- NTBRIDGE_USB_DATA_MAX and NTUSB_MAX_TRANSFER
abbrev pub max_transfer : ℕ
max_transfer = 4096

-- One of the pipes of a configuration.
pub record Pipe : Type 0 where
  pub is_bulk : Bool
  pub endpoint_address : ℕ
  pub maximum_packet_size : ℕ
  pub pipe_handle : ℕ

pub record DeviceDescriptor : Type 0 where
  pub bcd_usb : ℕ
  pub device_class : ℕ
  pub max_packet_size_0 : ℕ
  pub id_vendor : ℕ
  pub id_product : ℕ
  pub bcd_device : ℕ
  pub num_configurations : ℕ

-- The fields that are not of this record are the structure's own size and type, and zero.
abbrev pub build_device_descriptor : DeviceDescriptor
build_device_descriptor = record {
  bcd_usb = 0x0200;
  device_class = 0xFF;
  max_packet_size_0 = 64;
  id_vendor = 0x1AF4;
  id_product = 0x1005;
  bcd_device = 0x0100;
  num_configurations = 1;
}

-- The numbers that usb.h gives to names: the type of a device descriptor, and its size.
pub record Constants : Type 0 where
  pub device_descriptor_type : ℕ
  pub device_descriptor_size : ℕ

-- The fields of a bulk transfer; no buffer is a NULL pointer.
pub record Transfer : Type 0 where
  pub pipe_handle : ℕ
  pub transfer_length : ℕ
  pub buffer : Option (List ℕ)

-- A request by its function. The selection of a configuration has its handle once it has one. A
-- descriptor request has its type, length, whether it has a buffer, and what was written there.
pub data Urb : Type 0 where
  select_configuration : List Pipe → Option ℕ → Urb
  get_descriptor : ℕ → ℕ → Bool → Option DeviceDescriptor → Urb
  bulk_transfer : Transfer → Urb
  other_function : Urb

-- The request after it was processed, its status, and the two devices.
pub record Processed : Type 0 where
  pub urb : Urb
  pub status : UsbdStatus
  pub fdo : Fdo
  pub pdo : Pdo

-- The loop over the pipes, from the `i`-th on.
abbrev pub assign_pipes : ℕ → List Pipe → List Pipe
assign_pipes i [] = []
assign_pipes i (p ∷ ps) =
    let ep = if i == 0 then bulk_in_endpoint else bulk_out_endpoint in
    record { is_bulk = true; endpoint_address = ep; maximum_packet_size = 64; pipe_handle = ep }
    ∷ assign_pipes (i + 1) ps

-- An array of `n` bytes that starts with `xs`, and is zero behind it.
abbrev pub array : ℕ → List ℕ → List ℕ
array zero xs = []
array (suc n) [] = 0 ∷ array n []
array (suc n) (x ∷ xs) = x ∷ array n xs

-- InterlockedIncrement, and its result as a uint64_t: the sign is extended.
abbrev pub incremented : ℕ → ℕ
incremented n = (n + 1) % 2 ^ 32

abbrev pub id_of : ℕ → ℕ
id_of n = if ltb n (2 ^ 31) then n else n + (2 ^ 64 - 2 ^ 32)

-- The bytes that a buffer gives, if there is one.
abbrev pub bytes_of : ℕ → Option (List ℕ) → List ℕ
bytes_of len none = []
bytes_of len (some bytes) = take len bytes

abbrev pub message : ℕ → ℕ → ℕ → Option (List ℕ) → UsbUrbMsg
message id endpoint len buffer = record {
  request_id = id_of id;
  function = 9;
  status = 0;
  endpoint = endpoint;
  length = len;
  payload = array 4096 (bytes_of len buffer);
}

-- A transfer to the host. The request counts also when the ring turns it away.
unfoldable pub out_transfer : ℕ → Transfer → Fdo → UsbdStatus × Transfer × Fdo
out_transfer endpoint x f =
    let len = if ltb max_transfer x.transfer_length then max_transfer else x.transfer_length in
    let id = incremented f.next_request_id in
    let counted_fdo = record f { next_request_id = id } in
    elim f.shm [
      | none ↦ (device_gone, x, counted_fdo)
      | some shm ↦
          let (sent, ring) = try_push (message id endpoint len x.buffer) shm.usb_req_ring in
          if sent
          then (
            usbd_success,
            record x { transfer_length = len },
            record counted_fdo { shm = some (record shm { usb_req_ring = ring }) },
          )
          else (device_gone, x, counted_fdo)
    ]

abbrev pub copied : ℕ → List ℕ → Option (List ℕ) → Option (List ℕ)
copied len src none = none
copied len src (some bytes) = some (copy_bytes len src bytes)

-- A transfer from the host; `behind` is what memory holds behind the array of the message.
unfoldable pub in_transfer : List ℕ → Transfer → Fdo → Transfer × Fdo
in_transfer behind x f = elim f.shm [
  | none ↦ (record x { transfer_length = 0 }, f)
  | some shm ↦
      let (out, ring) = try_pop shm.usb_resp_ring in
      let g = record f { shm = some (record shm { usb_resp_ring = ring }) } in
      elim out [
        | none ↦ (record x { transfer_length = 0 }, g)
        | some msg ↦
            let len = if ltb x.transfer_length msg.length then x.transfer_length else msg.length in
            (
              record x {
                transfer_length = len;
                buffer = copied len (msg.payload ++ behind) x.buffer;
              },
              g,
            )
      ]
]

abbrev pub refused : UsbdStatus → Transfer → Fdo → Pdo → Processed
refused st x f p = record { urb = bulk_transfer x; status = st; fdo = f; pdo = p }

-- The case URB_FUNCTION_BULK_OR_INTERRUPT_TRANSFER of `NtusbProcessUrb`. The endpoint is a UCHAR, and
-- USB_ENDPOINT_DIRECTION_MASK is its highest bit.
unfoldable pub bulk : List ℕ → Transfer → Fdo → Pdo → Processed
bulk behind x f p =
    let endpoint = x.pipe_handle % 2 ^ 8 in
    let is_in = leb 0x80 endpoint in
    if not p.configuration_selected
    then refused interface_not_found x f p
    else if not (endpoint == bulk_in_endpoint) && not (endpoint == bulk_out_endpoint)
    then refused invalid_pipe_handle x f p
    else if not is_in
    then (let (st, y, g) = out_transfer endpoint x f in
        record { urb = bulk_transfer y; status = st; fdo = g; pdo = p })
    else (let (y, g) = in_transfer behind x f in
        record { urb = bulk_transfer y; status = usbd_success; fdo = g; pdo = p })

unfoldable pub process_urb : Constants → List ℕ → Urb → Fdo → Pdo → Processed
process_urb c behind (select_configuration pipes handle) f p = record {
  urb = select_configuration (assign_pipes 0 pipes) (some 1);
  status = usbd_success;
  fdo = f;
  pdo = record p { configuration_selected = true };
}
process_urb c behind (get_descriptor type n has_buffer fetched) f p =
    if type == c.device_descriptor_type && leb c.device_descriptor_size n && has_buffer
    then record {
      urb = get_descriptor type c.device_descriptor_size has_buffer (some build_device_descriptor);
      status = usbd_success;
      fdo = f;
      pdo = p;
    }
    else record {
      urb = get_descriptor type n has_buffer fetched;
      status = bad_descriptor_type;
      fdo = f;
      pdo = p;
    }
process_urb c behind (bulk_transfer x) f p = bulk behind x f p
process_urb c behind other_function f p = record {
  urb = other_function;
  status = invalid_urb_function;
  fdo = f;
  pdo = p;
}
