-- ===== src/Tests/Network.antt =====
-- The virtual network driver on a region with empty rings.
use ntlinux.Common.{◌+◌, ◌-◌, ◌%◌, ◌^◌, ◌≡◌, refl, List, [], ◌∷◌, map, arith, length}
use ntlinux.Ntbridge.Messages.{NetFrame}
use ntlinux.Ntbridge.Ring.Refine.{contents, IsRing}
use ntlinux.Ntbridge.Ring.Fill.{fill}
use ntlinux.Ntbridge.Host.{send_frames, receive_frames}
use ntlinux.Ntnet.{Adapter, Constants, Packet, new_adapter, invalid_length, poll_timer}
use ntlinux.Ntnet.Oids.{query_information, gen_supported_list}
use ntlinux.Ntnet.Sending.{send_all, frames, send_all-send_frames}
use ntlinux.Ntnet.Receiving.{ethernet, carried, given, receive_frames-poll_timer}
use ntlinux.Tests.Regions.{region, some_frame, empty-IsRing}

abbrev adapter : Adapter
adapter = record (new_adapter 4096 1048576 region) { rcv_ok = 4294967295 }

abbrev numbers : Constants
numbers = record {
  hardware_status_ready = 0;
  medium_802_3 = 0;
  media_state_connected = 0;
  option_copy_lookahead_data = 1;
  option_no_loopback = 2;
  option_full_duplex = 4;
  option_transfers_not_pend = 8;
}

-- A packet of two buffers.
abbrev packet : Packet
packet = record { total_length = 3; buffers = (7 ∷ 8 ∷ []) ∷ (9 ∷ []) ∷ [] }

too_short : (query_information numbers adapter gen_supported_list 5).status ≡ invalid_length
unfolding query_information
too_short = refl

send_all-send_frames_example :
    let (out, t) = send_frames (send_all (packet ∷ packet ∷ []) adapter).shm.net_tx_ring in
    (out ≡ fill [] (frames (packet ∷ packet ∷ []))) × (contents t ≡ []) × IsRing t
send_all-send_frames_example =
    send_all-send_frames (packet ∷ packet ∷ []) adapter (refl, (refl, tt)) (empty-IsRing some_frame)

-- A frame that is too short, and one of 15 bytes.
abbrev tap : List NetFrame
tap =
    record { length = 2; payload = 1 ∷ 2 ∷ [] }
    ∷ record {
      length = 15;
      payload = 1 ∷ 2 ∷ 3 ∷ 4 ∷ 5 ∷ 6 ∷ 7 ∷ 8 ∷ 9 ∷ 10 ∷ 11 ∷ 12 ∷ 13 ∷ 14 ∷ 15 ∷ [];
    }
    ∷ []

receive_frames-poll_timer_example :
    let rx = (receive_frames tap adapter.shm.net_rx_ring).1 in
    let (indicated, b) = poll_timer (record adapter { shm = record region { net_rx_ring = rx } }) in
    let fs = fill [] tap in
    (map given indicated ≡ map carried (ethernet fs))
    × (b.rcv_ok ≡ (4294967295 + length (ethernet fs)) % 2 ^ 32)
    × (b.rcv_error ≡ (0 + (length fs - length (ethernet fs))) % 2 ^ 32)
    × (contents b.shm.net_rx_ring ≡ [])
    × IsRing b.shm.net_rx_ring
    × (b.timer_sets ≡ 1 + 1)
receive_frames-poll_timer_example =
    receive_frames-poll_timer tap adapter (empty-IsRing some_frame) (omega arith) (omega arith)
