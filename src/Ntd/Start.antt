-- ===== src/Ntd/Start.antt =====
-- ntd/ntd.c: the state that `main` starts from, and the daemon's run: clients fill slots, the inner
-- loop serves requests, and each tick ends in a sweep.
use ntlinux.Common.{ℕ, pos, List, [], ◌∷◌, none, false, update}
use ntlinux.Ntabi.{op_none, Request, Response, Slot, Shm, Apc, success}
use ntlinux.Ntd.State.{Ntd, Env, process}
use ntlinux.Ntd.Objects.{blank}
use ntlinux.Ntd.Ports.{no_packet}
use ntlinux.Ntd.Dispatch.{process_request, sweep}

abbrev pub no_apc : Apc
no_apc = record { routine = 0; arg1 = 0; arg2 = 0; arg3 = 0 }

-- What `memset` makes of a request and a response.
abbrev pub zero_request : Request
zero_request = record {
  opcode = op_none;
  handle = pos 0;
  initial_state = false;
  manual_reset = false;
  initial_count = pos 0;
  max_count = pos 0;
  release_count = pos 0;
  timeout_ms = pos 0;
  name = [];
  handles = [];
  handle_count = pos 0;
  wait_all = false;
  section_size = pos 0;
  packet = no_packet;
  target_pid = 0;
  target_tid = 0;
  alertable = false;
  apc = no_apc;
}

abbrev pub zero_response : Response
zero_response = record {
  status = success;
  handle = 0;
  prev_count = pos 0;
  satisfied_index = pos 0;
  section_size = pos 0;
  shm_name = none;
  packet = no_packet;
  prev_suspend_count = pos 0;
  apc = no_apc;
}

abbrev pub zero_slot : Slot
zero_slot = record {
  in_use = false;
  client_pid = 0;
  client_tid = 0;
  ready = 0;
  req = zero_request;
  resp = zero_response;
}

-- The segment as `create_shm` leaves it: zeroed, with magic, version and semaphores at 0.
unfoldable pub create_shm : Shm
create_shm = record {
  magic = 0x4e544142;
  protocol_version = 3;
  doorbell = 0;
  ring = λ i. 0;
  ring_head = 0;
  ring_tail = 0;
  slots = λ i. zero_slot;
}

-- No object, handle or multi-wait is there; memory holds nothing that is read.
unfoldable pub initial : Ntd
unfolding create_shm
initial = record {
  shm = create_shm;
  objects = [];
  object_at = λ id. blank process [];
  handles = [];
  next_object_id = 1;
  next_section_id = 1;
  multiwait_at = λ m. record {
    slot_idx = 0;
    wait_all = false;
    handles = [];
    objects = [];
    completed = false;
    freed = false;
  };
  next_multiwait = 0;
  ticks = 0;
  segments = [];
  pidfds = [];
}

-- A client writes all of its slot but the semaphore, the daemon serves a slot, or sweeps.
pub data Event : Type 0 where
  submits : ℕ → Slot → Event
  serves : Env → ℕ → Event
  sweeps : Env → Event

unfoldable pub fill_slot : ℕ → Slot → Ntd → Ntd
fill_slot i slot s = record s {
  shm = record s.shm {
    slots = update s.shm.slots i (record slot { ready = (s.shm.slots i).ready });
  };
}

unfoldable pub step : Event → Ntd → Ntd
step (submits i slot) s = fill_slot i slot s
step (serves env i) s = process_request env i s
step (sweeps env) s = sweep env s

unfoldable pub run : List Event → Ntd → Ntd
run [] s = s
run (e ∷ es) s = run es (step e s)
