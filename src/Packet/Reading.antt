-- ===== src/Packet/Reading.antt =====
-- `read_single_sdp_packet` of src/iso15118/session/iso.cpp, over the `read` of a connection: from
-- the number of bytes asked for and the connection to the bytes, whether the read would have
-- blocked, and the connection after it.
pub mod Progress
use libiso.Prelude.{ℕ, Bool, true, false, List, if◌then◌else◌}
use libiso.Packet.{
  SdpPacket, State, new_packet, receive, get_remaining_bytes_to_read, is_complete, is_header_read,
}

pub record ReadResult (K : Type 0) : Type 0 where
  pub would_block : Bool
  pub bytes : List ℕ
  pub connection : K

pub record ReadPacket (K : Type 0) : Type 0 where
  pub would_block : Bool
  pub packet : SdpPacket
  pub connection : K

module _ {K : Type 0} (read : ℕ → K → ReadResult K) where
  -- The second try; `log_invalid_packet_error` resets the packet.
  unfoldable pub read_payload : K → SdpPacket → ReadPacket K
  unfolding receive new_packet get_remaining_bytes_to_read
  read_payload k p =
      let second_try = read (get_remaining_bytes_to_read p) k in
      let p2 = receive second_try.bytes p in
      if second_try.would_block
      then record { would_block = true; packet = p2; connection = second_try.connection }
      else if is_complete p2.state
      then record { would_block = false; packet = p2; connection = second_try.connection }
      else record { would_block = false; packet = new_packet; connection = second_try.connection }

  unfoldable pub read_single_sdp_packet : K → SdpPacket → ReadPacket K
  unfolding read_payload receive new_packet get_remaining_bytes_to_read
  read_single_sdp_packet k p =
      let first_try = read (get_remaining_bytes_to_read p) k in
      let p1 = receive first_try.bytes p in
      if first_try.would_block
      then record { would_block = true; packet = p1; connection = first_try.connection }
      else if is_complete p1.state
      then record { would_block = false; packet = p1; connection = first_try.connection }
      else if is_header_read p1.state
      then read_payload first_try.connection p1
      else record { would_block = false; packet = new_packet; connection = first_try.connection }
