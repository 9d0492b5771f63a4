-- ===== src/Examples/Packets.antt =====
-- A packet with a payload of three bytes, whole and in two pieces.
use libiso.Prelude.{ℕ, ◌+◌, ◌≤◌, ◌<◌, ◌≡◌, true, List, [], ◌∷◌, ◌++◌, length, arith, ◌↔◌}
use libiso.Packet.{
  State, new_packet, receive, get_remaining_bytes_to_read, buffer_size, response_header,
  payload_type_value, get_payload, get_payload_type,
}
use libiso.Message.{PayloadType}
use libiso.Packet.Bounds.{new_packet-IsValid}
use libiso.Packet.Bounds.{IsValid, in_progress, receive-IsValid, remaining_fits, receive-append}
use libiso.Packet.Header.{receive-response_header}

abbrev eight : List ℕ
eight = 1 ∷ 254 ∷ 128 ∷ 2 ∷ 0 ∷ 0 ∷ 0 ∷ 3 ∷ []

abbrev three : List ℕ
three = 5 ∷ 6 ∷ 7 ∷ []

receive-IsValid_example : IsValid (receive eight new_packet)
unfolding receive new_packet get_remaining_bytes_to_read
receive-IsValid_example = receive-IsValid new_packet eight new_packet-IsValid (ground arith)

remaining_fits_example :
    (new_packet.bytes_read + get_remaining_bytes_to_read new_packet ≤ buffer_size)
    × ((0 < get_remaining_bytes_to_read new_packet) ↔ (in_progress new_packet.state ≡ true))
remaining_fits_example = remaining_fits new_packet new_packet-IsValid

receive-append_example :
    receive ((128 ∷ 2 ∷ [])) (receive ((1 ∷ 254 ∷ [])) new_packet)
    ≡ receive (((1 ∷ 254 ∷ [])) ++ ((128 ∷ 2 ∷ []))) new_packet
unfolding new_packet get_remaining_bytes_to_read
receive-append_example =
    receive-append new_packet (1 ∷ 254 ∷ []) (128 ∷ 2 ∷ []) new_packet-IsValid (ground arith)

receive-response_header_example :
    let p =
      receive three (receive (response_header PayloadType.part20_dc (length three)) new_packet) in
    (p.state ≡ State.complete)
    × (get_payload_type p ≡ payload_type_value PayloadType.part20_dc)
    × (get_payload p ≡ three)
receive-response_header_example = receive-response_header PayloadType.part20_dc three (omega arith)
