-- ===== src/Ntnet.antt =====
-- driver/net/reactos/ntnet.c: the NDIS miniport between the rings and the guest's network stack. The
-- kernel's and NDIS's answers are arguments.
pub mod Oids
pub mod Sending
pub mod Receiving
use ntlinux.Common.{
  ℕ, suc, ◌+◌, ◌-◌, ◌%◌, ◌^◌, List, [], ◌∷◌, ◌++◌, Option, none, some, Bool, true, false, not, ◌||◌,
  ◌==◌, ltb, take, drop, length, if◌then◌else◌,
}
use ntlinux.Ntbridge.Messages.{NetFrame}
use ntlinux.Ntbridge.Ring.{try_push}
use ntlinux.Ntbridge.Ring.Loops.{rounds, pop_loop}
use ntlinux.Ntbridge.Region.{Header, Resource, speaks, shm_size_min, second_memory}

pub data NdisStatus : Type 0 where
  ndis_success failure resources unsupported_media adapter_not_found : NdisStatus
  invalid_length not_supported : NdisStatus

abbrev pub net_frame_max : ℕ
net_frame_max = 1514

-- `NTNET_ADAPTER`; `timer_sets` counts how often the poll timer was set.
pub record Adapter : Type 0 where
  pub shm_physical_base : ℕ
  pub shm_length : ℕ
  pub shm : Header
  pub timer_sets : ℕ
  pub packet_filter : ℕ
  pub xmit_ok : ℕ
  pub rcv_ok : ℕ
  pub xmit_error : ℕ
  pub rcv_error : ℕ
  pub rcv_no_buffer : ℕ

-- The numbers that ndis.h gives to names.
pub record Constants : Type 0 where
  pub hardware_status_ready : ℕ
  pub medium_802_3 : ℕ
  pub media_state_connected : ℕ
  pub option_copy_lookahead_data : ℕ
  pub option_no_loopback : ℕ
  pub option_full_duplex : ℕ
  pub option_transfers_not_pend : ℕ

-- What NDIS answers to the calls of `NtnetInitialize`: whether memory is there, the resources of the
-- adapter, and what stands at the range that is mapped.
pub record Ndis : Type 0 where
  pub allocate : Bool
  pub query_resources : Option (List Resource)
  pub map_io_space : ℕ → ℕ → Option Header

-- `++` on a ULONG
abbrev pub count_up : ℕ → ℕ
count_up n = (n + 1) % 2 ^ 32

-- The first index of a medium, from index `i` on.
unfoldable pub find_medium : ℕ → ℕ → List ℕ → Option ℕ
find_medium wanted i [] = none
find_medium wanted i (m ∷ ms) =
    let rest = find_medium wanted (i + 1) ms in if m == wanted then some i else rest

abbrev pub new_adapter : ℕ → ℕ → Header → Adapter
new_adapter base len shm = record {
  shm_physical_base = base;
  shm_length = len;
  shm = shm;
  timer_sets = 1;
  packet_filter = 0;
  xmit_ok = 0;
  rcv_ok = 0;
  xmit_error = 0;
  rcv_error = 0;
  rcv_no_buffer = 0;
}

-- The part of `NtnetInitialize` behind the search for the memory range.
unfoldable pub map_shm : Ndis → ℕ → ℕ → NdisStatus × Option Adapter
map_shm ndis base len =
    if ltb len shm_size_min then (resources, none) else elim (ndis.map_io_space base len) [
      | none ↦ (resources, none)
      | some shm ↦
          if speaks shm
          then (ndis_success, some (new_adapter base len shm))
          else (adapter_not_found, none)
    ]

unfoldable pub find_shm : Ndis → NdisStatus × Option Adapter
find_shm ndis = if not ndis.allocate then (resources, none) else elim ndis.query_resources [
  | none ↦ (resources, none)
  | some rs ↦ elim (second_memory 0 rs) [
    | none ↦ (resources, none)
    | some (base, len) ↦ map_shm ndis base len
  ]
]

-- The selected medium's index, the status, and the adapter.
unfoldable pub initialize : Constants → Ndis → List ℕ → Option ℕ × NdisStatus × Option Adapter
initialize c ndis media = elim (find_medium c.medium_802_3 0 media) [
  | none ↦ (none, unsupported_media, none)
  | some i ↦ let (st, a) = find_shm ndis in (some i, st, a)
]

-- A packet: its total length and its chain of buffers, as NdisQueryPacket and NdisQueryBuffer say.
pub record Packet : Type 0 where
  pub total_length : ℕ
  pub buffers : List (List ℕ)

-- The copying loop of `NtnetSend`: `out` is what was copied.
unfoldable pub copy_buffers : ℕ → List (List ℕ) → List ℕ → List ℕ
copy_buffers total [] out = out
copy_buffers total (b ∷ bs) out =
    let copied = length out in
    let len =
      if ltb net_frame_max ((copied + length b) % 2 ^ 32)
      then net_frame_max - copied
      else length b in
    let rest = copy_buffers total bs (out ++ take len b) in if ltb copied total then rest else out

abbrev pub frame_of : Packet → NetFrame
frame_of p =
    let bytes = copy_buffers p.total_length p.buffers [] in
    record { length = length bytes; payload = bytes }

unfoldable pub send : Packet → Adapter → NdisStatus × Adapter
send p a =
    if ltb net_frame_max p.total_length
    then (failure, record a { xmit_error = count_up a.xmit_error })
    else (let (sent, ring) = try_push (frame_of p) a.shm.net_tx_ring in
        if sent
        then (
          ndis_success,
          record a { shm = record a.shm { net_tx_ring = ring }; xmit_ok = count_up a.xmit_ok },
        )
        else (failure, record a { xmit_error = count_up a.xmit_error }))

-- A call of NdisMEthIndicateReceive: the header, the look-ahead, and the packet's size.
pub record Indication : Type 0 where
  pub header : List ℕ
  pub lookahead : List ℕ
  pub packet_size : ℕ

-- The counters that a receive changes, and the indications so far.
pub record Received : Type 0 where
  pub rcv_ok : ℕ
  pub rcv_error : ℕ
  pub indicated : List Indication

abbrev pub bad_length : NetFrame → Bool
bad_length f = ltb f.length 14 || ltb net_frame_max f.length

abbrev pub indication : NetFrame → Indication
indication f = record {
  header = take 14 f.payload;
  lookahead = take (f.length - 14) (drop 14 f.payload);
  packet_size = f.length;
}

-- The body of the loop of `NtnetPollTimer`.
unfoldable pub receive_frame : NetFrame → Received → Received
receive_frame f r =
    if bad_length f
    then record r { rcv_error = count_up r.rcv_error }
    else record r { rcv_ok = count_up r.rcv_ok; indicated = r.indicated ++ (indication f ∷ []) }

unfoldable pub poll_timer : Adapter → List Indication × Adapter
poll_timer a =
    let r0 : Received = record { rcv_ok = a.rcv_ok; rcv_error = a.rcv_error; indicated = [] } in
    let (ring, r) = pop_loop receive_frame (rounds a.shm.net_rx_ring) a.shm.net_rx_ring r0 in
    (
      r.indicated,
      record a {
        shm = record a.shm { net_rx_ring = ring };
        rcv_ok = r.rcv_ok;
        rcv_error = r.rcv_error;
        timer_sets = a.timer_sets + 1;
      },
    )

-- No byte is transferred.
unfoldable pub transfer_data : NdisStatus × ℕ
transfer_data = (failure, 0)

-- Whether addressing was reset.
unfoldable pub reset : NdisStatus × Bool
reset = (ndis_success, false)

-- The calls that `NtnetHalt` gives the adapter up by; an adapter that exists has its region mapped.
pub data Release : Type 0 where
  cancel_timer free_memory : Release
  unmap_io_space : ℕ → Release

unfoldable pub halt : Adapter → List Release
halt a = cancel_timer ∷ unmap_io_space a.shm_length ∷ free_memory ∷ []
