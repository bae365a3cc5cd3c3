-- ===== src/Ntusb/Control.antt =====
-- driver/usb/reactos/ntusb.c: the device controls of the child, and the path that its test takes.
use ntlinux.Common.{ℕ, List, Option, none, some, Bool, true, not, ◌||◌, ltb, take, if◌then◌else◌}
use ntlinux.Wdm.{
  status_success, not_supported, buffer_too_small, invalid_parameter, unsuccessful, Outcome,
  completed, copy_bytes,
}
use ntlinux.Ntusb.{
  Fdo, Pdo, UsbdStatus, is_success, max_transfer, Constants, Transfer, Urb, bulk_transfer,
  Processed, bytes_of, process_urb,
}

-- IRP_MJ_INTERNAL_DEVICE_CONTROL at the child: whether the code is the one to submit a request, and
-- the request, if the pointer is not NULL. The FDO answers `not_supported`.
unfoldable pub internal_device_control :
    Constants → List ℕ → Bool → Option Urb → Fdo → Pdo → Outcome × Option Processed
internal_device_control c behind is_submit argument f p =
    if not is_submit then (completed not_supported 0, none) else elim argument [
      | none ↦ (completed invalid_parameter 0, none)
      | some urb ↦
          let r = process_urb c behind urb f p in
          (completed (if is_success r.status then status_success else unsuccessful) 0, some r)
    ]

-- `ntusb_test_bulk_io_t`; its status is 0 on success.
pub record TestBulkIo : Type 0 where
  pub endpoint : ℕ
  pub length : ℕ
  pub status : UsbdStatus
  pub data_bytes : List ℕ

abbrev pub at_most_4096 : ℕ → ℕ
at_most_4096 n = if ltb max_transfer n then max_transfer else n

-- What the test path takes from the request that was processed.
abbrev pub test_result : TestBulkIo → UsbdStatus → Urb → TestBulkIo
test_result io st (bulk_transfer x) =
    let len = at_most_4096 x.transfer_length in
    record io {
      status = st;
      length = len;
      data_bytes = copy_bytes len (bytes_of len x.buffer) io.data_bytes;
    }
test_result io st _ = io

-- The body of IOCTL_NTUSB_TEST_BULK_TRANSFER, which skips the selection of a configuration.
unfoldable pub test_bulk : Constants → List ℕ → TestBulkIo → Fdo → Pdo → TestBulkIo × Fdo × Pdo
test_bulk c behind io f p =
    let requested = at_most_4096 io.length in
    let x : Transfer = record {
      pipe_handle = io.endpoint;
      transfer_length = requested;
      buffer = some (take requested io.data_bytes);
    } in
    let r = process_urb c behind (bulk_transfer x) f (record p { configuration_selected = true }) in
    (test_result io r.status r.urb, r.fdo, r.pdo)

-- sizeof(ntusb_test_bulk_io_t), which is packed
abbrev pub test_bulk_io_size : ℕ
test_bulk_io_size = 4108

-- IRP_MJ_DEVICE_CONTROL at the child. The FDO answers `not_supported`.
unfoldable pub device_control :
    Constants → List ℕ → Bool → ℕ → ℕ → TestBulkIo → Fdo → Pdo → Outcome × TestBulkIo × Fdo × Pdo
device_control c behind is_test in_len out_len io f p =
    if not is_test
    then (completed not_supported 0, io, f, p)
    else if ltb in_len test_bulk_io_size || ltb out_len test_bulk_io_size
    then (completed buffer_too_small 0, io, f, p)
    else (let (io', g, q) = test_bulk c behind io f p in
        (completed status_success test_bulk_io_size, io', g, q))
