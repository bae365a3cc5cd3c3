-- ===== src/Ntbridge/Region.antt =====
-- driver/ntbridge/protocol/ntbridge_protocol.h: the shared region, and how the guest's drivers find it
-- among the resources of their PCI function.
use ntlinux.Common.{ℕ, suc, List, [], ◌∷◌, Option, none, some, Bool, ◌&&◌, ◌==◌, if◌then◌else◌}
use ntlinux.Ntbridge.Messages.{LogEntry, PnpDescriptor, PnpAck, NetFrame, UsbUrbMsg}
use ntlinux.Ntbridge.Ring.{Ring}

-- `ntbridge_shm_header_t`
pub record Header : Type 0 where
  pub magic : ℕ
  pub version : ℕ
  pub total_size : ℕ
  pub initialized : Bool
  pub host_heartbeat_seq : ℕ
  pub host_heartbeat_time_ns : ℕ
  pub guest_heartbeat_seq : ℕ
  pub guest_heartbeat_time_ns : ℕ
  pub log_ring : Ring LogEntry
  pub pnp_ring : Ring PnpDescriptor
  pub pnp_ack_ring : Ring PnpAck
  pub net_tx_ring : Ring NetFrame
  pub net_rx_ring : Ring NetFrame
  pub usb_req_ring : Ring UsbUrbMsg
  pub usb_resp_ring : Ring UsbUrbMsg

-- NTBRIDGE_MAGIC and NTBRIDGE_PROTOCOL_VERSION.
abbrev pub speaks : Header → Bool
speaks shm = shm.magic == 0x5242544E && shm.version == 3

-- NTBRIDGE_SHM_SIZE_MIN, the size of the header with natural alignment.
abbrev pub shm_size_min : ℕ
shm_size_min = 746144

-- A translated resource: a memory range, or something else.
pub data Resource : Type 0 where
  memory : ℕ → ℕ → Resource
  other : Resource

-- The second memory range of the list, when `seen` of them came before: start and length.
unfoldable pub second_memory : ℕ → List Resource → Option (ℕ × ℕ)
second_memory seen [] = none
second_memory seen (other ∷ rs) = second_memory seen rs
second_memory seen (memory start len ∷ rs) =
    let rest = second_memory (suc seen) rs in if seen == 1 then some (start, len) else rest
