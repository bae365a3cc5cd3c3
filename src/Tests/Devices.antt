-- ===== src/Tests/Devices.antt =====
-- The virtual serial driver, loaded as a service and added by PnP, and its loopback buffer.
use ntlinux.Common.{ℕ, ◌+◌, ◌≡◌, [], ◌∷◌, some, true, false, ltb, if◌then◌else◌, min}
use ntlinux.Wdm.{completed, status_success}
use ntlinux.Vsdev.{Extension, Driver, Kernel, new_extension, dispatch_read, dispatch_write}
use ntlinux.Vsdev.Loopback.{read-write}

abbrev willing : Kernel
willing = record {
  create_device = some 5;
  create_error = 0;
  attach = λ pdo. some 2;
  create_symlink = true;
  call_driver = λ lower. status_success;
}

-- A device that PnP added, whose link could not be made.
abbrev plugged : Extension
plugged = record (new_extension willing 3 (some 1) (some 2) false) { symlink_created = false }

abbrev one_device : Driver
one_device = record { devices = plugged ∷ []; symlink = false }

read-write_example :
    let (taken, e1) = dispatch_write 5000 (λ j. j + 1) plugged in
    let (bytes, first, e2) = dispatch_read 3 (λ j. 0) e1 in
    let (bytes', second, e3) = dispatch_read 9 (λ j. 7) e2 in
    (taken ≡ completed status_success (min 5000 4096))
    × (first ≡ completed status_success (min 3 (min 5000 4096)))
    × ((j : ℕ) → bytes j ≡ (if ltb j (min 3 (min 5000 4096)) then j + 1 else 0))
    × (second ≡ completed status_success 0)
    × ((j : ℕ) → bytes' j ≡ 7)
read-write_example = read-write 5000 3 9 (λ j. j + 1) (λ j. 0) (λ j. 7) plugged
