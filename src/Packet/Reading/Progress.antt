-- ===== src/Packet/Reading/Progress.antt =====
-- What a call of `read_single_sdp_packet` leaves of the packet.
use libiso.Prelude.{ℕ, ◌≤◌, ◌<◌, ◌≡◌, ◌↔◌, ◌⊎◌, true, false, List, length, arith}
use libiso.Packet.{SdpPacket, State, new_packet, receive, get_remaining_bytes_to_read}
use libiso.Packet.Bounds.{IsValid, new_packet-IsValid, receive-IsValid, in_progress}
use libiso.Packet.Reading.{ReadResult, read_payload, read_single_sdp_packet}

-- What both connections promise: no more bytes than were asked for, and `would_block` exactly if
-- there are fewer.
pub record IsReader {K : Type 0} (read : ℕ → K → ReadResult K) : Type 0 where
  pub at_most : (n : ℕ) (k : K) → length (read n k).bytes ≤ n
  pub would_block_lem :
      (n : ℕ) (k : K) → ((read n k).would_block ≡ true) ↔ (length (read n k).bytes < n)

module _ {K : Type 0} (read : ℕ → K → ReadResult K) (reader : IsReader read) where
  received-IsValid :
      (k : K) (p : SdpPacket)
      → IsValid p
      → IsValid (receive (read (get_remaining_bytes_to_read p) k).bytes p)
  received-IsValid k p v = receive-IsValid p _ v (reader.at_most _ k)

  -- With fewer bytes than asked for, a packet in progress stays so.
  receive-blocked :
      (p : SdpPacket) (bytes : List ℕ)
      → IsValid p
      → length bytes < get_remaining_bytes_to_read p
      → (receive bytes p).state ≡ p.state
  unfolding receive get_remaining_bytes_to_read
  receive-blocked p bytes v h = ground arith

  pub read_single_sdp_packet-IsValid :
      (k : K) (p : SdpPacket) → IsValid p → IsValid (read_single_sdp_packet read k p).packet
  unfolding read_single_sdp_packet read_payload
  read_single_sdp_packet-IsValid k p v = ground (
    arith,
    received-IsValid k p v,
    received-IsValid (read (get_remaining_bytes_to_read p) k).connection
        (receive (read (get_remaining_bytes_to_read p) k).bytes p) (received-IsValid k p v),
    new_packet-IsValid,
  )

  blocked :
      (k : K) (p : SdpPacket)
      → IsValid p
      → (read (get_remaining_bytes_to_read p) k).would_block ≡ true
      → (receive (read (get_remaining_bytes_to_read p) k).bytes p).state ≡ p.state
  blocked k p v e =
      receive-blocked p _ v ((reader.would_block_lem (get_remaining_bytes_to_read p) k).0 e)

  -- A packet in progress is in progress or complete after the call, in progress if the call would
  -- block, and complete or reset if it would not.
  pub read_single_sdp_packet-state :
      (k : K) (p : SdpPacket)
      → IsValid p
      → in_progress p.state ≡ true
      → let r = read_single_sdp_packet read k p in
        (r.would_block ≡ true → in_progress r.packet.state ≡ true)
        × (r.would_block ≡ false → (r.packet.state ≡ State.complete) ⊎ (r.packet ≡ new_packet))
  unfolding read_single_sdp_packet read_payload
  read_single_sdp_packet-state k p v h = ground (
    arith,
    blocked k p v,
    blocked (read (get_remaining_bytes_to_read p) k).connection
        (receive (read (get_remaining_bytes_to_read p) k).bytes p) (received-IsValid k p v),
  )
