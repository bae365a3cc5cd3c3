-- ===== src/Vsdev.antt =====
-- driver/vsdev/vsdev.c: the virtual serial driver, its devices and its loopback buffer. The kernel's
-- calls are the record `Kernel`; the fast mutex makes a read or a write one step.
pub mod Loopback
pub mod Lifetime
use ntlinux.Common.{
  ℕ, List, [], ◌∷◌, Option, none, some, Bool, true, false, not, ◌||◌, ◌==◌, ltb, update,
  if◌then◌else◌,
}
use ntlinux.Wdm.{
  NtStatus, status_success, device_removed, not_supported, failed, Outcome, completed, forwarded,
}

abbrev pub loopback_buffer_size : ℕ
loopback_buffer_size = 4096

-- `VSDEV_EXTENSION`; devices are numbers.
pub record Extension : Type 0 where
  pub self : ℕ
  pub lower_device : Option ℕ
  pub physical_device_object : Option ℕ
  pub symlink_created : Bool
  pub is_legacy : Bool
  pub buffer : ℕ → ℕ
  pub buffer_valid_length : ℕ

-- The driver object's list of devices, and whether the symbolic link exists.
pub record Driver : Type 0 where
  pub devices : List Extension
  pub symlink : Bool

-- The kernel's answers: IoCreateDevice gives a device or fails, IoAttachDeviceToDeviceStack gives the
-- device below, IoCreateSymbolicLink succeeds or not, and IoCallDriver and PoCallDriver return what
-- the driver below makes of the request.
pub record Kernel : Type 0 where
  pub create_device : Option ℕ
  pub create_error : ℕ
  pub attach : Option ℕ → Option ℕ
  pub create_symlink : Bool
  pub call_driver : ℕ → NtStatus

-- `RtlCopyMemory`
abbrev pub copy_memory : (ℕ → ℕ) → (ℕ → ℕ) → ℕ → ℕ → ℕ
copy_memory dst src n j = if ltb j n then src j else dst j

-- The system buffer of the request after a read, the outcome, and the device after it.
unfoldable pub dispatch_read : ℕ → (ℕ → ℕ) → Extension → (ℕ → ℕ) × Outcome × Extension
dispatch_read requested system_buffer ext =
    let copy_len =
      if ltb requested ext.buffer_valid_length then requested else ext.buffer_valid_length in
    (
      copy_memory system_buffer ext.buffer copy_len,
      completed status_success copy_len,
      record ext { buffer_valid_length = 0 },
    )

unfoldable pub dispatch_write : ℕ → (ℕ → ℕ) → Extension → Outcome × Extension
dispatch_write requested system_buffer ext =
    let copy_len = if ltb requested loopback_buffer_size then requested else loopback_buffer_size in
    (
      completed status_success copy_len,
      record ext {
        buffer = copy_memory ext.buffer system_buffer copy_len;
        buffer_valid_length = copy_len;
      },
    )

-- The extension of a new device, and the driver with it, once IoCreateDevice and, for a PnP device,
-- the attachment have succeeded.
abbrev pub new_extension : Kernel → ℕ → Option ℕ → Option ℕ → Bool → Extension
new_extension k fdo pdo lower is_legacy = record {
  self = fdo;
  lower_device = lower;
  physical_device_object = pdo;
  symlink_created = k.create_symlink;
  is_legacy = is_legacy;
  buffer = λ j. 0;
  buffer_valid_length = 0;
}

unfoldable pub add_extension : Kernel → ℕ → Option ℕ → Option ℕ → Bool → Driver → Driver
add_extension k fdo pdo lower is_legacy d = record {
  devices = new_extension k fdo pdo lower is_legacy ∷ d.devices;
  symlink = d.symlink || k.create_symlink;
}

unfoldable pub create_device_object : Kernel → Option ℕ → Bool → Driver → NtStatus × Driver
create_device_object k pdo is_legacy d = elim k.create_device [
  | none ↦ (failed k.create_error, d)
  | some fdo ↦
      if is_legacy
      then (status_success, add_extension k fdo pdo none is_legacy d)
      else elim (k.attach pdo) [
        | none ↦ (device_removed, d)
        | some lower ↦ (status_success, add_extension k fdo pdo (some lower) is_legacy d)
      ]
]

-- A failure to create the legacy device does not fail the load.
unfoldable pub driver_entry : Kernel → Driver → NtStatus × Driver
driver_entry k d = (status_success, (create_device_object k none true d).1)

unfoldable pub add_device : Kernel → ℕ → Driver → NtStatus × Driver
add_device k pdo d = create_device_object k (some pdo) false d

-- The loop of `VsdevUnload`: legacy devices are deleted, and their link if they made one.
unfoldable pub unload_devices : List Extension → Bool → List Extension × Bool
unload_devices [] symlink = ([], symlink)
unload_devices (ext ∷ es) symlink =
    let (rest, link) =
      unload_devices es
        (if ext.is_legacy then (if ext.symlink_created then false else symlink) else symlink) in
    (if ext.is_legacy then rest else ext ∷ rest, link)

unfoldable pub unload : Driver → Driver
unload d =
    let (devices, symlink) = unload_devices d.devices d.symlink in
    record { devices = devices; symlink = symlink }

unfoldable pub dispatch_create_close : Outcome
dispatch_create_close = completed status_success 0

unfoldable pub dispatch_power : Kernel → Extension → Outcome
dispatch_power k ext =
    let alone = completed status_success 0 in
    if ext.is_legacy
    then alone
    else elim ext.lower_device [ none ↦ alone | some lower ↦ forwarded (k.call_driver lower) ]

pub data Minor : Type 0 where
  start_device query_stop_device query_remove_device stop_device remove_device other_minor : Minor

-- IoDeleteDevice
unfoldable pub delete_device : ℕ → List Extension → List Extension
delete_device fdo [] = []
delete_device fdo (ext ∷ es) =
    let rest = delete_device fdo es in if ext.self == fdo then es else ext ∷ rest

-- The `switch` of `VsdevDispatchPnp` at the device below; all but a removal only pass the request on.
unfoldable pub pnp_minor : Minor → Kernel → ℕ → Extension → Driver → Outcome × Driver
pnp_minor remove_device k lower ext d = (
  forwarded (k.call_driver lower),
  record {
    devices = delete_device ext.self d.devices;
    symlink = if ext.symlink_created then false else d.symlink;
  },
)
pnp_minor _ k lower ext d = (forwarded (k.call_driver lower), d)

unfoldable pub dispatch_pnp : Minor → Kernel → Extension → Driver → Outcome × Driver
dispatch_pnp minor k ext d =
    let alone : Outcome × Driver = (completed not_supported 0, d) in
    if ext.is_legacy
    then alone
    else elim ext.lower_device [ none ↦ alone | some lower ↦ pnp_minor minor k lower ext d ]
