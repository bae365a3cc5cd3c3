-- ===== src/Ntbridge/Guest.antt =====
-- driver/ntbridge/reactos/ntbridge_pnp.c: the bus driver in the guest. The kernel's answers are the
-- record `Kernel`; the spin lock makes the handling of a descriptor one step.
pub mod Pnp
pub mod Table
pub mod Answers
pub mod Arrival
pub mod Session
use ntlinux.Common.{
  ℕ, ◌+◌, ◌%◌, ◌^◌, List, [], ◌∷◌, Option, none, some, Bool, true, false, not, ◌&&◌, ◌||◌, ◌==◌,
  if◌then◌else◌,
}
use ntlinux.Ntbridge.Messages.{removed, PnpDescriptor, PnpAck}
use ntlinux.Ntbridge.Ring.{Ring, try_push}
use ntlinux.Ntbridge.Ring.Loops.{rounds, pop_loop}
use ntlinux.Ntbridge.Region.{Header}

-- `NTBRIDGE_CHILD_ENTRY`; no descriptor stands for one that is zero.
pub record ChildEntry : Type 0 where
  pub in_use : Bool
  pub device_id : ℕ
  pub pdo : Option ℕ
  pub descriptor : Option PnpDescriptor

abbrev pub max_child_pdos : ℕ
max_child_pdos = 64

-- `NTBRIDGE_FDO_EXTENSION` of the FDO; the list of children has `max_child_pdos` entries.
pub record Extension : Type 0 where
  pub self : ℕ
  pub lower_device : ℕ
  pub shm_physical_base : ℕ
  pub shm_length : ℕ
  pub shm : Option Header
  pub poll_timer_started : Bool
  pub children : List ChildEntry

-- The loop that takes the first free entry; none: the table is full.
unfoldable pub take_entry : PnpDescriptor → List ChildEntry → Option (List ChildEntry)
take_entry d [] = none
take_entry d (e ∷ es) =
    let rest = take_entry d es in
    if not e.in_use
    then some (record e { in_use = true; device_id = d.device_id; descriptor = some d } ∷ es)
    else elim rest [ none ↦ none | some es' ↦ some (e ∷ es') ]

-- The loop that frees the first entry of the device; none: no entry has it.
unfoldable pub free_entry : ℕ → List ChildEntry → Option (List ChildEntry)
free_entry id [] = none
free_entry id (e ∷ es) =
    let rest = free_entry id es in
    if e.in_use && e.device_id == id
    then some (record e { in_use = false } ∷ es)
    else elim rest [ none ↦ none | some es' ↦ some (e ∷ es') ]

-- What the loop of `NtBridgePollDpc` changes beside the ring that it reads.
pub record Topology : Type 0 where
  pub children : List ChildEntry
  pub ack_ring : Ring PnpAck
  pub changed : Bool

abbrev pub ack_of : PnpDescriptor → ℕ → PnpAck
ack_of d status = record { device_id = d.device_id; action = d.action; status = status }

-- The acknowledgement is pushed; one that finds the ring full is dropped.
abbrev pub acknowledge : PnpDescriptor → ℕ → Topology → Topology
acknowledge d status t = record t { ack_ring = (try_push (ack_of d status) t.ack_ring).1 }

-- The status on failure is 1 where the table is full, and 2 where the device is unknown.
abbrev pub settle : PnpDescriptor → ℕ → Option (List ChildEntry) → Topology → Topology
settle d failure none t = acknowledge d failure t
settle d failure (some es) t = acknowledge d 0 (record t { children = es; changed = true })

unfoldable pub handle_descriptor : PnpDescriptor → Topology → Topology
handle_descriptor d t =
    if removed d
    then settle d 2 (free_entry d.device_id t.children) t
    else settle d 1 (take_entry d t.children) t

-- The extension after a call of the timer's routine at an interrupt time, and whether it declares
-- the bus's relations invalid.
unfoldable pub poll_dpc : ℕ → Extension → Extension × Bool
poll_dpc now ext = elim ext.shm [
  | none ↦ (ext, false)
  | some shm ↦
      let t0 : Topology = record {
        children = ext.children;
        ack_ring = shm.pnp_ack_ring;
        changed = false;
      } in
      let (ring, t) = pop_loop handle_descriptor (rounds shm.pnp_ring) shm.pnp_ring t0 in
      (
        record ext {
          children = t.children;
          shm = some (record shm {
            guest_heartbeat_seq = (shm.guest_heartbeat_seq + 1) % 2 ^ 64;
            guest_heartbeat_time_ns = now;
            pnp_ring = ring;
            pnp_ack_ring = t.ack_ring;
          });
        },
        t.changed,
      )
]
