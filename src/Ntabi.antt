-- ===== src/Ntabi.antt =====
-- ntabi/protocol/ntabi_protocol.h: the wire protocol that libntabi and ntd share.
-- An `int` that is only tested against zero is a Bool, an id or a uint64_t payload is a natural
-- number, and any other signed field is an integer. A name is the list of its bytes before the NUL.
use ntlinux.Common.{ℕ, ℤ, Bool, List, Option}

pub data Opcode : Type 0 where
  op_none create_event open_event create_mutant open_mutant create_semaphore : Opcode
  open_semaphore set_event reset_event release_mutant release_semaphore wait_single : Opcode
  close_handle wait_multiple create_section open_section create_completion : Opcode
  open_completion post_completion remove_completion open_process open_thread : Opcode
  queue_apc suspend_thread resume_thread : Opcode

pub data Status : Type 0 where
  success timeout invalid_handle object_name_not_found object_name_collision : Status
  object_type_mismatch invalid_parameter limit_reached internal_error : Status
  process_not_found thread_not_found user_apc : Status

abbrev pub max_slots : ℕ
max_slots = 64

abbrev pub max_name : ℕ
max_name = 128

abbrev pub max_wait_handles : ℕ
max_wait_handles = 16

-- One queued APC: `apc_packet_t`, and the APC fields of the request and the response.
pub record Apc : Type 0 where
  pub routine : ℕ
  pub arg1 : ℕ
  pub arg2 : ℕ
  pub arg3 : ℕ

-- One completion packet: `completion_packet_t`, and the same fields of request and response.
pub record Packet : Type 0 where
  pub key : ℤ
  pub bytes : ℤ
  pub overlapped : ℕ

-- `ntabi_request_t`. `handles` is the array: sixteen entries, of which `handle_count` are valid.
pub record Request : Type 0 where
  pub opcode : Opcode
  pub handle : ℤ
  pub initial_state : Bool
  pub manual_reset : Bool
  pub initial_count : ℤ
  pub max_count : ℤ
  pub release_count : ℤ
  pub timeout_ms : ℤ
  pub name : List ℕ
  pub handles : List ℤ
  pub handle_count : ℤ
  pub wait_all : Bool
  pub section_size : ℤ
  pub packet : Packet
  pub target_pid : ℕ
  pub target_tid : ℕ
  pub alertable : Bool
  pub apc : Apc

-- `ntabi_response_t`. A section's shm name is the number in "/ntlinux-sect-%d", none if empty.
pub record Response : Type 0 where
  pub status : Status
  pub handle : ℕ
  pub prev_count : ℤ
  pub satisfied_index : ℤ
  pub section_size : ℤ
  pub shm_name : Option ℕ
  pub packet : Packet
  pub prev_suspend_count : ℤ
  pub apc : Apc

-- `ntabi_slot_t`. `ready` is the count of the semaphore.
pub record Slot : Type 0 where
  pub in_use : Bool
  pub client_pid : ℕ
  pub client_tid : ℕ
  pub ready : ℕ
  pub req : Request
  pub resp : Response

-- `ntabi_shm_t`: the submission ring and the slot table.
pub record Shm : Type 0 where
  pub magic : ℕ
  pub protocol_version : ℕ
  pub doorbell : ℕ
  pub ring : ℕ → ℕ
  pub ring_head : ℕ
  pub ring_tail : ℕ
  pub slots : ℕ → Slot
