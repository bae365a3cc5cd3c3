-- ===== src/Ntnet/Oids.antt =====
-- driver/net/reactos/ntnet.c: the object identifiers that NDIS queries and sets.
pub mod Retry
use ntlinux.Common.{ℕ, suc, ◌+◌, ◌*◌, List, [], ◌∷◌, ltb, length, if◌then◌else◌}
use Prim.Native.Nat.{bit_or}
use ntlinux.Ntnet.{
  Constants, Adapter, NdisStatus, ndis_success, invalid_length, not_supported, net_frame_max,
}

pub data Oid : Type 0 where
  gen_supported_list gen_hardware_status gen_media_supported gen_media_in_use : Oid
  gen_maximum_lookahead gen_maximum_frame_size gen_link_speed : Oid
  gen_transmit_buffer_space gen_receive_buffer_space gen_transmit_block_size : Oid
  gen_receive_block_size gen_vendor_id gen_vendor_description : Oid
  gen_current_packet_filter gen_current_lookahead gen_driver_version : Oid
  gen_maximum_total_size gen_mac_options gen_media_connect_status : Oid
  gen_maximum_send_packets gen_xmit_ok gen_rcv_ok gen_xmit_error gen_rcv_error : Oid
  gen_rcv_no_buffer permanent_address current_address maximum_list_size mac_options : Oid
  rcv_error_alignment xmit_one_collision xmit_more_collisions multicast_list : Oid
  other_oid : ℕ → Oid

abbrev pub supported_oids : List Oid
supported_oids =
    gen_supported_list ∷ gen_hardware_status ∷ gen_media_supported ∷ gen_media_in_use
    ∷ gen_maximum_lookahead ∷ gen_maximum_frame_size ∷ gen_link_speed ∷ gen_transmit_buffer_space
    ∷ gen_receive_buffer_space ∷ gen_transmit_block_size ∷ gen_receive_block_size ∷ gen_vendor_id
    ∷ gen_vendor_description ∷ gen_current_packet_filter ∷ gen_current_lookahead
    ∷ gen_driver_version ∷ gen_maximum_total_size ∷ gen_mac_options ∷ gen_media_connect_status
    ∷ gen_maximum_send_packets ∷ gen_xmit_ok ∷ gen_rcv_ok ∷ gen_xmit_error ∷ gen_rcv_error ∷ []

-- What stands in the information buffer behind a query.
pub data Answer : Type 0 where
  nothing : Answer
  u32 : ℕ → Answer
  u16 : ℕ → Answer
  oids : List Oid → Answer
  bytes : List ℕ → Answer

-- The status, `BytesWritten`, `BytesNeeded`, and the buffer.
pub record QueryResult : Type 0 where
  pub status : NdisStatus
  pub written : ℕ
  pub needed : ℕ
  pub answer : Answer

-- A value of a size, if the buffer has room for it.
abbrev pub sized : ℕ → Answer → ℕ → QueryResult
sized size value buf_len =
    if ltb buf_len size
    then record { status = invalid_length; written = 0; needed = size; answer = nothing }
    else record { status = ndis_success; written = size; needed = 0; answer = value }

unfoldable pub query_u32 : ℕ → ℕ → QueryResult
query_u32 value buf_len = sized 4 (u32 value) buf_len

-- "NTLinux ntbridge NDIS bridge", with the NUL
abbrev pub vendor_description : List ℕ
vendor_description =
    78 ∷ 84 ∷ 76 ∷ 105 ∷ 110 ∷ 117 ∷ 120 ∷ 32 ∷ 110 ∷ 116 ∷ 98 ∷ 114 ∷ 105 ∷ 100 ∷ 103 ∷ 101 ∷ 32
    ∷ 78 ∷ 68 ∷ 73 ∷ 83 ∷ 32 ∷ 98 ∷ 114 ∷ 105 ∷ 100 ∷ 103 ∷ 101 ∷ 0 ∷ []

-- `g_ntnet_mac`
abbrev pub ntnet_mac : List ℕ
ntnet_mac = 0x02 ∷ 0x4E ∷ 0x54 ∷ 0x4C ∷ 0x00 ∷ 0x01 ∷ []

unfoldable pub query_information : Constants → Adapter → Oid → ℕ → QueryResult
query_information c a gen_supported_list n =
    sized (4 * length supported_oids) (oids supported_oids) n
query_information c a gen_hardware_status n = query_u32 c.hardware_status_ready n
query_information c a gen_media_supported n = query_u32 c.medium_802_3 n
query_information c a gen_media_in_use n = query_u32 c.medium_802_3 n
query_information c a gen_maximum_lookahead n = query_u32 1500 n
query_information c a gen_maximum_frame_size n = query_u32 1500 n
query_information c a gen_maximum_total_size n = query_u32 net_frame_max n
query_information c a gen_link_speed n = query_u32 10000000 n
query_information c a gen_transmit_buffer_space n = query_u32 (net_frame_max * 64) n
query_information c a gen_receive_buffer_space n = query_u32 (net_frame_max * 64) n
query_information c a gen_transmit_block_size n = query_u32 net_frame_max n
query_information c a gen_receive_block_size n = query_u32 net_frame_max n
query_information c a gen_vendor_id n = query_u32 0x4E544C00 n
query_information c a gen_vendor_description n =
    sized (length vendor_description) (bytes vendor_description) n
query_information c a gen_current_packet_filter n = query_u32 a.packet_filter n
query_information c a gen_current_lookahead n = query_u32 1500 n
query_information c a gen_driver_version n = sized 2 (u16 0x0401) n
query_information c a gen_mac_options n =
    query_u32
      (bit_or
        (bit_or (bit_or c.option_copy_lookahead_data c.option_no_loopback) c.option_full_duplex)
        c.option_transfers_not_pend)
      n
query_information c a gen_media_connect_status n = query_u32 c.media_state_connected n
query_information c a gen_maximum_send_packets n = query_u32 1 n
query_information c a gen_xmit_ok n = query_u32 a.xmit_ok n
query_information c a gen_rcv_ok n = query_u32 a.rcv_ok n
query_information c a gen_xmit_error n = query_u32 a.xmit_error n
query_information c a gen_rcv_error n = query_u32 a.rcv_error n
query_information c a gen_rcv_no_buffer n = query_u32 a.rcv_no_buffer n
query_information c a permanent_address n = sized 6 (bytes ntnet_mac) n
query_information c a current_address n = sized 6 (bytes ntnet_mac) n
query_information c a maximum_list_size n = query_u32 0 n
query_information c a mac_options n = query_u32 0 n
query_information c a rcv_error_alignment n = query_u32 0 n
query_information c a xmit_one_collision n = query_u32 0 n
query_information c a xmit_more_collisions n = query_u32 0 n
query_information c a multicast_list n = record {
  status = not_supported;
  written = 0;
  needed = 0;
  answer = nothing;
}
query_information c a (other_oid code) n = record {
  status = not_supported;
  written = 0;
  needed = 0;
  answer = nothing;
}

-- The status, `BytesRead`, `BytesNeeded`, and the adapter.
pub record SetResult : Type 0 where
  pub status : NdisStatus
  pub read : ℕ
  pub needed : ℕ
  pub adapter : Adapter

abbrev set_too_short : Adapter → SetResult
set_too_short a = record { status = invalid_length; read = 0; needed = 4; adapter = a }

-- `value` is the ULONG at the start of the buffer.
unfoldable pub set_information : Adapter → Oid → ℕ → ℕ → SetResult
set_information a gen_current_packet_filter value n = if ltb n 4 then set_too_short a else record {
  status = ndis_success;
  read = 4;
  needed = 0;
  adapter = record a { packet_filter = value };
}
set_information a gen_current_lookahead value n =
    if ltb n 4
    then set_too_short a
    else record { status = ndis_success; read = 4; needed = 0; adapter = a }
set_information a multicast_list value n = record {
  status = ndis_success;
  read = n;
  needed = 0;
  adapter = a;
}
set_information a _ value n = record { status = not_supported; read = 0; needed = 0; adapter = a }
