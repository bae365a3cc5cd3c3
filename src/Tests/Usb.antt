-- ===== src/Tests/Usb.antt =====
-- The USB bus driver: a round through the host, transfers that are refused, and a start that is
-- repeated.
use ntlinux.Common.{◌≤◌, ◌≡◌, refl, List, [], ◌∷◌, none, some, true, if◌then◌else◌, length}
use ntlinux.Wdm.{status_success, copy_bytes}
use ntlinux.Ntbridge.Region.{memory, second_memory}
use ntlinux.Ntbridge.Host.{usb_echo_reply}
use ntlinux.Ntusb.{Fdo, Pdo, Constants, Transfer, usbd_success, is_success, bulk, bulk_transfer}
use ntlinux.Ntusb.Control.{TestBulkIo, test_bulk}
use ntlinux.Ntusb.Transfers.{host_turn}
use ntlinux.Ntusb.Echo.{test_bulk-echo}
use ntlinux.Ntusb.Refusals.{expected, transferred, bulk-refusals}
use ntlinux.Ntusb.Pnp.{
  Kernel, new_fdo, start_device, stop_device, query_bus_relations, fdo_pnp, add_device, started_fdo,
  start_fdo, map_shm, create_child_pdo,
}
use ntlinux.Ntusb.Life.{
  FdoRequest, run_requests, added, listed, child_removed, run_requests-query_bus_relations,
}
use ntlinux.Tests.Regions.{region, some_urb, empty-IsRing}

abbrev fdo : Fdo
fdo = record (new_fdo 7 2) { shm = some region; next_request_id = 4294967295 }

abbrev pdo : Pdo
pdo = record { self = 9; symlink_created = true; configuration_selected = true }

abbrev numbers : Constants
numbers = record { device_descriptor_type = 1; device_descriptor_size = 18 }

abbrev out_io : TestBulkIo
out_io = record { endpoint = 1; length = 3; status = usbd_success; data_bytes = 4 ∷ 5 ∷ 6 ∷ 7 ∷ [] }

abbrev in_io : TestBulkIo
in_io = record {
  endpoint = 129;
  length = 2;
  status = usbd_success;
  data_bytes = 4 ∷ 5 ∷ 6 ∷ 7 ∷ [];
}

test_bulk-echo_example :
    let (o, g, q) = test_bulk numbers (1 ∷ []) out_io fdo pdo in
    let i = (test_bulk numbers (1 ∷ []) in_io (host_turn g) q).0 in
    (o.status ≡ usbd_success)
    × (o.length ≡ 3)
    × (i.status ≡ usbd_success)
    × (i.length ≡ 2)
    × (i.data_bytes ≡ copy_bytes 2 usb_echo_reply (4 ∷ 5 ∷ 6 ∷ 7 ∷ []))
test_bulk-echo_example =
    test_bulk-echo numbers (1 ∷ []) out_io in_io fdo pdo region refl refl refl
      (empty-IsRing some_urb) (empty-IsRing some_urb) refl refl

-- A transfer to an endpoint that there is not.
abbrev stray : Transfer
stray = record { pipe_handle = 258; transfer_length = 1; buffer = some (4 ∷ []) }

bulk-refusals_example :
    let r = bulk [] stray (record fdo { shm = none }) pdo in
    (r.status ≡ expected stray (record fdo { shm = none }) pdo)
    × (r.urb ≡ (if is_success r.status then r.urb else bulk_transfer stray))
    × (r.fdo.shm ≡ (if is_success r.status then r.fdo.shm else none))
    × (transferred r.urb ≤ 1)
    × (r.pdo ≡ pdo)
bulk-refusals_example =
    bulk-refusals [] stray (record fdo { shm = none }) pdo (λ shm e. absurd (cc e))

abbrev kernel : Kernel
kernel = record {
  create_device = some 9;
  create_error = 0;
  attach = some 2;
  create_symlink = true;
  lower = status_success;
  map_io_space = λ base len. some region;
  allocate = some 77;
}

-- Two starts, with a stop between them.
abbrev requests : List FdoRequest
requests =
    (kernel, start_device (some (memory 0 1024 ∷ memory 4096 1048576 ∷ [])))
    ∷ (kernel, stop_device)
    ∷ (kernel, start_device (some (memory 0 1024 ∷ memory 4096 1048576 ∷ [])))
    ∷ []

abbrev twice_started : Fdo
twice_started = record (new_fdo 9 2) {
  child_pdo = some 9;
  shm_physical_base = 4096;
  shm_length = 1048576;
  shm = some region;
}

started_twice : (run_requests requests (added kernel)).fdo ≡ some twice_started
unfolding add_device fdo_pnp started_fdo start_fdo map_shm create_child_pdo second_memory
started_twice = refl

run_requests-query_bus_relations_example :
    let b = run_requests requests (added kernel) in
    ((fdo_pnp kernel query_bus_relations twice_started b).1 ≡ listed b.child)
    × (b.invalidations ≡ length (listed b.child))
    × ((child_removed kernel b).child ≡ none)
    × ((fdo_pnp kernel query_bus_relations twice_started (child_removed kernel b)).1
        ≡ listed b.child)
run_requests-query_bus_relations_example =
    run_requests-query_bus_relations kernel kernel requests twice_started 77 started_twice refl
