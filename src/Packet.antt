-- ===== src/Packet.antt =====
-- include/iso15118/io/sdp_packet.hpp and src/iso15118/io/sdp_packet.cpp: a V2GTP packet that is
-- read piece by piece into a buffer of 2048 bytes. `buffer` holds the bytes of the buffer that were
-- written, `bytes_read` how many of them count; sizes are the numbers themselves.
pub mod Bounds
pub mod Header
pub mod Reading
use libiso.Prelude.{
  ℕ, zero, suc, ◌+◌, ◌-◌, ◌*◌, ◌/◌, ◌%◌, Bool, true, false, not, ◌&&◌, ◌||◌, List, [], ◌∷◌, ◌++◌,
  length, take, drop, get_or, ◌==◌, ltb, if◌then◌else◌,
}
use libiso.Message.{PayloadType}

abbrev pub sdp_protocol_version : ℕ
sdp_protocol_version = 0x01

abbrev pub sdp_inverse_protocol_version : ℕ
sdp_inverse_protocol_version = 0xFE

abbrev pub v2gtp_header_size : ℕ
v2gtp_header_size = 8

-- `sizeof(buffer)`.
abbrev pub buffer_size : ℕ
buffer_size = 2048

pub data State : Type 0 where
  empty header_read complete invalid_header payload_too_long : State

pub record SdpPacket : Type 0 where
  pub state : State
  pub buffer : List ℕ
  pub bytes_read : ℕ
  pub length : ℕ

-- `SdpPacket{}`; the length is not set before a header was parsed.
unfoldable pub new_packet : SdpPacket
new_packet = record { state = State.empty; buffer = []; bytes_read = 0; length = 0 }

abbrev pub is_complete : State → Bool
is_complete State.complete = true
is_complete _ = false

abbrev pub is_header_read : State → Bool
is_header_read State.header_read = true
is_header_read _ = false

unfoldable pub get_payload_length : SdpPacket → ℕ
get_payload_length p = if is_complete p.state then p.length - v2gtp_header_size else 0

-- Two and four bytes, the highest first.
abbrev pub be16 : List ℕ → ℕ → ℕ
be16 b i = get_or b i 0 * 256 + get_or b (i + 1) 0

abbrev pub be32 : List ℕ → ℕ → ℕ
be32 b i =
    get_or b i 0 * 16777216
    + get_or b (i + 1) 0 * 65536
    + get_or b (i + 2) 0 * 256
    + get_or b (i + 3) 0

-- The value that is cast to a PayloadType.
unfoldable pub get_payload_type : SdpPacket → ℕ
get_payload_type p = be16 p.buffer 2

unfoldable pub get_payload : SdpPacket → List ℕ
unfolding get_payload_length
get_payload p = take (get_payload_length p) (drop v2gtp_header_size p.buffer)

abbrev pub remaining : State → ℕ → ℕ → ℕ
remaining State.empty bytes_read len = v2gtp_header_size - bytes_read
remaining State.header_read bytes_read len = len - bytes_read
remaining _ bytes_read len = 0

unfoldable pub get_remaining_bytes_to_read : SdpPacket → ℕ
get_remaining_bytes_to_read p = remaining p.state p.bytes_read p.length

unfoldable pub parse_header : SdpPacket → SdpPacket
parse_header p =
    if not (get_or p.buffer 0 0 == sdp_protocol_version)
      || not (get_or p.buffer 1 0 == sdp_inverse_protocol_version)
    then record p { state = State.invalid_header }
    else if ltb (4294967295 - v2gtp_header_size) (be32 p.buffer 4)
    then record p { state = State.invalid_header }
    else if ltb buffer_size (be32 p.buffer 4 + v2gtp_header_size)
    then record p { state = State.payload_too_long; length = be32 p.buffer 4 + v2gtp_header_size }
    else record p { state = State.header_read; length = be32 p.buffer 4 + v2gtp_header_size }

abbrev complete_if_full : SdpPacket → SdpPacket
complete_if_full p =
    if is_header_read p.state && p.bytes_read == p.length
    then record p { state = State.complete }
    else p

-- The cases of `update_read_bytes` by the state; a state that has ended ignores the bytes.
abbrev update_in : State → SdpPacket → SdpPacket
unfolding parse_header
update_in State.empty p =
    complete_if_full (if p.bytes_read == v2gtp_header_size then parse_header p else p)
update_in State.header_read p = complete_if_full p
update_in _ p = p

abbrev counted : State → ℕ → ℕ → ℕ
counted State.empty bytes_read len = bytes_read + len
counted State.header_read bytes_read len = bytes_read + len
counted _ bytes_read len = bytes_read

-- `connection.read` writes the bytes at `get_current_buffer_pos`, and `update_read_bytes` counts
-- them.
unfoldable pub receive : List ℕ → SdpPacket → SdpPacket
unfolding parse_header
receive bytes p = update_in p.state (record p {
  buffer = take p.bytes_read p.buffer ++ bytes;
  bytes_read = counted p.state p.bytes_read (length bytes);
})

-- The values of the enumeration.
abbrev pub payload_type_value : PayloadType → ℕ
payload_type_value PayloadType.sap = 0x8001
payload_type_value PayloadType.part20_main = 0x8002
payload_type_value PayloadType.part20_ac = 0x8003
payload_type_value PayloadType.part20_dc = 0x8004

-- `setup_response_header` of src/iso15118/session/iso.cpp: the eight bytes that it writes.
unfoldable pub response_header : PayloadType → ℕ → List ℕ
response_header t size =
    sdp_protocol_version
    ∷ sdp_inverse_protocol_version
    ∷ (payload_type_value t / 256)
    ∷ (payload_type_value t % 256)
    ∷ (size % 4294967296 / 16777216)
    ∷ (size / 65536 % 256)
    ∷ (size / 256 % 256)
    ∷ (size % 256)
    ∷ []
