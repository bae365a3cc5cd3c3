-- ===== src/Ntbridge/Guest/Pnp.antt =====
-- driver/ntbridge/reactos/ntbridge_pnp.c: the requests of the PnP and power managers.
use ntlinux.Common.{
  ℕ, zero, suc, List, [], ◌∷◌, Option, none, some, Bool, true, false, ltb, if◌then◌else◌,
}
use ntlinux.Wdm.{
  NtStatus, status_success, device_removed, not_supported, device_configuration_error,
  insufficient_resources, revision_mismatch, failed, nt_success, Outcome, completed, forwarded,
}
use ntlinux.Ntbridge.Region.{Header, Resource, speaks, shm_size_min, second_memory}
use ntlinux.Ntbridge.Guest.{ChildEntry, Extension, max_child_pdos}

-- The kernel's answers to the calls of one request; `lower` is what the driver below returns.
pub record Kernel : Type 0 where
  pub create_device : Option ℕ
  pub create_error : ℕ
  pub attach : Option ℕ
  pub lower : NtStatus
  pub map_io_space : ℕ → ℕ → Option Header
  pub allocate : Option ℕ

abbrev pub free_children : ℕ → List ChildEntry
free_children zero = []
free_children (suc n) =
    record { in_use = false; device_id = 0; pdo = none; descriptor = none } ∷ free_children n

abbrev pub new_extension : ℕ → ℕ → Extension
new_extension fdo lower = record {
  self = fdo;
  lower_device = lower;
  shm_physical_base = 0;
  shm_length = 0;
  shm = none;
  poll_timer_started = false;
  children = free_children max_child_pdos;
}

unfoldable pub add_device : Kernel → NtStatus × Option Extension
add_device k = elim k.create_device [
  | none ↦ (failed k.create_error, none)
  | some fdo ↦ elim k.attach [
    | none ↦ (device_removed, none)
    | some lower ↦ (status_success, some (new_extension fdo lower))
  ]
]

-- The part of `NtBridgeStartFdo` behind the search.
unfoldable pub map_shm : Kernel → Extension → NtStatus × Extension
map_shm k ext =
    if ltb ext.shm_length shm_size_min
    then (device_configuration_error, ext)
    else elim (k.map_io_space ext.shm_physical_base ext.shm_length) [
      | none ↦ (insufficient_resources, record ext { shm = none })
      | some shm ↦
          if speaks shm
          then (status_success, record ext { shm = some shm; poll_timer_started = true })
          else (revision_mismatch, record ext { shm = none })
    ]

-- The status is also the one that the request is completed with.
unfoldable pub start_fdo : Kernel → Option (List Resource) → Extension → NtStatus × Extension
start_fdo k resources ext = elim resources [
  | none ↦ (device_configuration_error, ext)
  | some rs ↦ elim (second_memory 0 rs) [
    | none ↦ (device_configuration_error, ext)
    | some (base, len) ↦ map_shm k (record ext { shm_physical_base = base; shm_length = len })
  ]
]

-- The device objects of the entries in use, which may be NULL.
abbrev pub relations_of : List ChildEntry → List (Option ℕ)
relations_of [] = []
relations_of (e ∷ es) = if e.in_use then e.pdo ∷ relations_of es else relations_of es

-- The request is completed only on failure.
unfoldable pub query_bus_relations : Kernel → Extension → NtStatus × List (Option ℕ)
query_bus_relations k ext = elim k.allocate [
  | none ↦ (insufficient_resources, [])
  | some relations ↦ (status_success, relations_of ext.children)
]

abbrev pub set_pdo : ℕ → ℕ → List ChildEntry → List ChildEntry
set_pdo i pdo [] = []
set_pdo zero pdo (e ∷ es) = record e { pdo = some pdo } ∷ es
set_pdo (suc i) pdo (e ∷ es) = e ∷ set_pdo i pdo es

-- No part of the driver calls this yet.
unfoldable pub create_child_pdo : Kernel → ℕ → Extension → NtStatus × Extension
create_child_pdo k index ext = elim k.create_device [
  | none ↦ (failed k.create_error, ext)
  | some pdo ↦ (status_success, record ext { children = set_pdo index pdo ext.children })
]

pub data FdoMinor : Type 0 where
  start_device : Option (List Resource) → FdoMinor
  query_relations stop_device remove_device other_minor : FdoMinor

-- What is done with the request, in order, and the extension while it exists.
pub record Handled : Type 0 where
  pub outcomes : List Outcome
  pub relations : List (Option ℕ)
  pub extension : Option Extension

abbrev pub unmapped : Extension → Extension
unmapped ext = record ext { shm = none; poll_timer_started = false }

unfoldable pub fdo_pnp : Kernel → FdoMinor → Extension → Handled
fdo_pnp k (start_device resources) ext =
    let (status, started) = start_fdo k resources ext in
    if nt_success k.lower
    then record {
      outcomes = forwarded k.lower ∷ completed status 0 ∷ [];
      relations = [];
      extension = some started;
    }
    else record { outcomes = forwarded k.lower ∷ []; relations = []; extension = some ext }
fdo_pnp k query_relations ext =
    let (status, relations) = query_bus_relations k ext in
    record {
      outcomes =
          if nt_success status
          then forwarded k.lower ∷ []
          else completed status 0 ∷ forwarded k.lower ∷ [];
      relations = relations;
      extension = some ext;
    }
fdo_pnp k stop_device ext = record {
  outcomes = forwarded k.lower ∷ [];
  relations = [];
  extension = some (unmapped ext);
}
fdo_pnp k remove_device ext = record {
  outcomes = forwarded k.lower ∷ [];
  relations = [];
  extension = none;
}
fdo_pnp k other_minor ext = record {
  outcomes = forwarded k.lower ∷ [];
  relations = [];
  extension = some ext;
}

pub data PdoMinor : Type 0 where
  start stop query_stop query_remove remove other : PdoMinor

-- The outcome at a child, and whether its device is deleted.
unfoldable pub pdo_pnp : PdoMinor → Outcome × Bool
pdo_pnp other = (completed not_supported 0, false)
pdo_pnp remove = (completed status_success 0, true)
pdo_pnp _ = (completed status_success 0, false)

unfoldable pub dispatch_power : Kernel → (is_fdo : Bool) → Outcome
dispatch_power k is_fdo = if is_fdo then forwarded k.lower else completed status_success 0

unfoldable pub dispatch_create_close : Outcome
dispatch_create_close = completed status_success 0
