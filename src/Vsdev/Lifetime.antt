-- ===== src/Vsdev/Lifetime.antt =====
-- driver/vsdev/vsdev.c: what loading and unloading, or adding and removing, leave behind.
use ntlinux.Common.{
  ℕ, ◌≡◌, refl, List, [], ◌∷◌, some, Bool, true, false, ◌==◌, All, Option-cases, Bool-cases, inl,
  inr, arith,
}
use ntlinux.Wdm.{forwarded}
use ntlinux.Vsdev.{
  Extension, Driver, Kernel, new_extension, add_extension, create_device_object, driver_entry,
  add_device, unload_devices, unload, remove_device, delete_device, pnp_minor, dispatch_pnp,
}

abbrev pub IsPnp : Extension → Type 0
IsPnp ext = ext.is_legacy ≡ false

unload_devices-IsPnp :
    (es : List Extension) (link : Bool) → All IsPnp es → unload_devices es link ≡ (es, link)
unfolding unload_devices
unload_devices-IsPnp [] link h = refl
unload_devices-IsPnp (e ∷ es) link h = rw (h.0, unload_devices-IsPnp es link h.1) refl

-- The driver loaded as a legacy service beside PnP devices, while the symbolic link does not exist:
-- unloading it restores the driver's devices and the link's absence, whatever the kernel answered to
-- the calls that created the device.
pub unload-driver_entry :
    (k : Kernel) (d : Driver)
    → All IsPnp d.devices
    → d.symlink ≡ false
    → unload (driver_entry k d).1 ≡ d
unfolding unload driver_entry create_device_object add_extension unload_devices
unload-driver_entry k d h l = elim (Option-cases k.create_device) [
  | inl e ↦ rw (e, create_device_object, unload_devices-IsPnp d.devices d.symlink h) refl
  | inr (fdo, e) ↦ elim (Bool-cases k.create_symlink) [
    | inl y ↦ rw (e, create_device_object, y, unload_devices-IsPnp d.devices false h, l) refl
    | inr y ↦ rw (e, create_device_object, y, l, unload_devices-IsPnp d.devices false h) refl
  ]
]

-- A device that was added and attached while the symbolic link does not exist: its removal passes the
-- request on to the device below and restores the driver's devices and the link's absence.
pub remove_device-add_device :
    (k k' : Kernel) (fdo pdo lower : ℕ) (d : Driver)
    → k.create_device ≡ some fdo
    → k.attach (some pdo) ≡ some lower
    → d.symlink ≡ false
    → dispatch_pnp remove_device k'
        (new_extension k fdo (some pdo) (some lower) false)
        (add_device k pdo d).1
      ≡ (forwarded (k'.call_driver lower), d)
unfolding add_device create_device_object add_extension dispatch_pnp pnp_minor delete_device
remove_device-add_device k k' fdo pdo lower d c a l =
    let n : (fdo == fdo) ≡ true = ground arith in
    elim (Bool-cases k.create_symlink) [
      | inl y ↦ rw (c, create_device_object, a, n, l, y) refl
      | inr y ↦ rw (c, create_device_object, a, n, l, y) refl
    ]
