-- ===== src/Ntbridge/Messages.antt =====
-- driver/ntbridge/protocol/ntbridge_protocol.h: the messages that the rings carry. The bytes of a
-- message are the list of those in its array, which may be more than its length.
use ntlinux.Common.{ℕ, List, Bool, not, ◌==◌}

pub record PnpDescriptor : Type 0 where
  pub device_id : ℕ
  pub action : ℕ
  pub bus_type : ℕ
  pub vendor_id : ℕ
  pub product_id : ℕ
  pub hardware_id : List ℕ
  pub friendly_name : List ℕ
  pub location : List ℕ

abbrev pub device_arrived : ℕ
device_arrived = 0

-- Any other action counts as a removal.
abbrev pub removed : PnpDescriptor → Bool
removed d = not (d.action == device_arrived)

pub record PnpAck : Type 0 where
  pub device_id : ℕ
  pub action : ℕ
  pub status : ℕ

pub record NetFrame : Type 0 where
  pub length : ℕ
  pub payload : List ℕ

pub record UsbUrbMsg : Type 0 where
  pub request_id : ℕ
  pub function : ℕ
  pub status : ℕ
  pub endpoint : ℕ
  pub length : ℕ
  pub payload : List ℕ

pub record LogEntry : Type 0 where
  pub level : ℕ
  pub source : ℕ
  pub seq : ℕ
  pub text : List ℕ
