-- ===== src/Ntusb/Pnp.antt =====
-- driver/usb/reactos/ntusb.c: the life of the two devices, from NtusbAddDevice to their removal.
use ntlinux.Common.{
  ℕ, ◌+◌, List, [], ◌∷◌, Option, none, some, Bool, true, false, not, ◌||◌, ltb, if◌then◌else◌,
}
use ntlinux.Wdm.{
  NtStatus, status_success, device_removed, not_supported, device_configuration_error,
  insufficient_resources, revision_mismatch, failed, nt_success, Outcome, completed, forwarded,
}
use ntlinux.Ntbridge.Region.{Header, Resource, speaks, shm_size_min, second_memory}
use ntlinux.Ntusb.{Fdo, Pdo}

-- The kernel's answers to the calls of one request. `lower` is the final status of the driver below.
pub record Kernel : Type 0 where
  pub create_device : Option ℕ
  pub create_error : ℕ
  pub attach : Option ℕ
  pub create_symlink : Bool
  pub lower : NtStatus
  pub map_io_space : ℕ → ℕ → Option Header
  pub allocate : Option ℕ

-- The devices of one bus while they exist, the symbolic link, and how often the relations were
-- declared invalid.
pub record Bus : Type 0 where
  pub fdo : Option Fdo
  pub child : Option Pdo
  pub symlink : Bool
  pub invalidations : ℕ

abbrev pub new_fdo : ℕ → ℕ → Fdo
new_fdo fdo lower = record {
  self = fdo;
  lower_device = lower;
  child_pdo = none;
  shm_physical_base = 0;
  shm_length = 0;
  shm = none;
  next_request_id = 0;
}

unfoldable pub add_device : Kernel → NtStatus × Option Fdo
add_device k = elim k.create_device [
  | none ↦ (failed k.create_error, none)
  | some fdo ↦ elim k.attach [
    | none ↦ (device_removed, none)
    | some lower ↦ (status_success, some (new_fdo fdo lower))
  ]
]

-- The part of `NtusbStartFdo` behind the search. A region that is refused is unmapped.
unfoldable pub map_shm : Kernel → Fdo → NtStatus × Fdo
map_shm k f =
    if ltb f.shm_length shm_size_min
    then (device_configuration_error, f)
    else elim (k.map_io_space f.shm_physical_base f.shm_length) [
      | none ↦ (insufficient_resources, record f { shm = none })
      | some shm ↦
          if speaks shm
          then (status_success, record f { shm = some shm })
          else (revision_mismatch, record f { shm = none })
    ]

-- No list of resources is a NULL pointer, or a list of no descriptors.
unfoldable pub start_fdo : Kernel → Option (List Resource) → Fdo → NtStatus × Fdo
start_fdo k resources f = elim resources [
  | none ↦ (device_configuration_error, f)
  | some rs ↦ elim (second_memory 0 rs) [
    | none ↦ (device_configuration_error, f)
    | some (base, len) ↦ map_shm k (record f { shm_physical_base = base; shm_length = len })
  ]
]

-- The FDO's child is set once the device was created, whether the link was made or not.
unfoldable pub create_child_pdo : Kernel → Fdo → Bus → NtStatus × Bus
create_child_pdo k f b = elim k.create_device [
  | none ↦ (failed k.create_error, record b { fdo = some f })
  | some pdo ↦ (
    status_success,
    record b {
      fdo = some (record f { child_pdo = some pdo });
      child = some (record {
        self = pdo;
        symlink_created = k.create_symlink;
        configuration_selected = false;
      });
      symlink = b.symlink || k.create_symlink;
    },
  )
]

abbrev pub is_none {ℓ} : {A : Type ℓ} → Option A → Bool
is_none none = true
is_none (some x) = false

-- IRP_MN_START_DEVICE at the FDO, once the driver below has started.
unfoldable pub started_fdo : Kernel → Option (List Resource) → Fdo → Bus → Outcome × Bus
started_fdo k resources f b =
    let (status, g) = start_fdo k resources f in
    let (created, c) = create_child_pdo k g b in
    if not (nt_success status)
    then (completed status 0, record b { fdo = some g })
    else if not (is_none g.child_pdo)
    then (completed status 0, record b { fdo = some g })
    else (
      completed status 0,
      (if nt_success created then record c { invalidations = c.invalidations + 1 } else c),
    )

pub data FdoMinor : Type 0 where
  start_device : Option (List Resource) → FdoMinor
  query_bus_relations stop_device remove_device other_minor : FdoMinor

-- The second part of the answer are the devices that a query for the bus's children found.
unfoldable pub fdo_pnp : Kernel → FdoMinor → Fdo → Bus → Outcome × List ℕ × Bus
fdo_pnp k (start_device resources) f b =
    let (out, c) = started_fdo k resources f b in
    if not (nt_success k.lower) then (completed k.lower 0, [], b) else (out, [], c)
fdo_pnp k query_bus_relations f b = elim k.allocate [
  | none ↦ (completed insufficient_resources 0, [], b)
  | some relations ↦ (forwarded k.lower, elim f.child_pdo [ none ↦ [] | some pdo ↦ pdo ∷ [] ], b)
]
fdo_pnp k stop_device f b =
    (forwarded k.lower, [], record b { fdo = some (record f { shm = none }) })
fdo_pnp k remove_device f b = (forwarded k.lower, [], record b { fdo = none })
fdo_pnp k other_minor f b = (forwarded k.lower, [], b)

-- `DEVICE_CAPABILITIES` as far as they are set.
pub record Capabilities : Type 0 where
  pub device_d1 : Bool
  pub device_d2 : Bool
  pub lock_supported : Bool
  pub eject_supported : Bool
  pub removable : Bool
  pub surprise_removal_ok : Bool
  pub address : ℕ
  pub ui_number : ℕ

abbrev pub synthetic_capabilities : Capabilities
synthetic_capabilities = record {
  device_d1 = false;
  device_d2 = false;
  lock_supported = false;
  eject_supported = false;
  removable = true;
  surprise_removal_ok = true;
  address = 0;
  ui_number = 0;
}

pub data IdType : Type 0 where
  device_id instance_id hardware_ids compatible_ids other_id : IdType

-- A query of capabilities comes with their structure, or with NULL.
pub data PdoMinor : Type 0 where
  start stop query_stop query_remove remove : PdoMinor
  query_capabilities : Option Capabilities → PdoMinor
  query_id : IdType → PdoMinor
  other : PdoMinor

-- The answer's data: the capabilities after the query, or the kind of text that was allocated.
pub data Answer : Type 0 where
  nothing : Answer
  capabilities : Option Capabilities → Answer
  identifier : IdType → Answer

unfoldable pub answer_id : Kernel → IdType → Outcome × Answer
answer_id k other_id = (completed not_supported 0, nothing)
answer_id k type = elim k.allocate [
  | none ↦ (completed insufficient_resources 0, nothing)
  | some buf ↦ (completed status_success buf, identifier type)
]

unfoldable pub pdo_pnp : Kernel → PdoMinor → Pdo → Bus → Outcome × Answer × Bus
pdo_pnp k start p b = (completed status_success 0, nothing, b)
pdo_pnp k stop p b = (completed status_success 0, nothing, b)
pdo_pnp k query_stop p b = (completed status_success 0, nothing, b)
pdo_pnp k query_remove p b = (completed status_success 0, nothing, b)
pdo_pnp k remove p b = (
  completed status_success 0,
  nothing,
  record b { child = none; symlink = if p.symlink_created then false else b.symlink },
)
pdo_pnp k (query_capabilities caps) p b = (
  completed status_success 0,
  capabilities (elim caps [ none ↦ none | some c ↦ some synthetic_capabilities ]),
  b,
)
pdo_pnp k (query_id type) p b = let (out, a) = answer_id k type in (out, a, b)
pdo_pnp k other p b = (completed not_supported 0, nothing, b)

-- IRP_MJ_POWER; no FDO stands for the child.
unfoldable pub dispatch_power : Kernel → Option Fdo → Outcome
dispatch_power k fdo = elim fdo [ none ↦ completed status_success 0 | some f ↦ forwarded k.lower ]

unfoldable pub dispatch_create_close : Outcome
dispatch_create_close = completed status_success 0
