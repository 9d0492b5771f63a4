-- ===== src/Packet/Header.antt =====
-- The header that `setup_response_header` of src/iso15118/session/iso.cpp writes and the one that
-- `parse_header` of src/iso15118/io/sdp_packet.cpp reads.
use libiso.Prelude.{
  ℕ, suc, ◌+◌, ◌*◌, ◌/◌, ◌%◌, ◌≤◌, ◌<◌, ◌≡◌, refl, not, ◌||◌, List, [], ◌∷◌, ◌++◌, length, take,
  take_all, ◌==◌, ltb, if◌then◌else◌, arith, sym, ◌∙◌, subst,
}
use libiso.Message.{PayloadType}
use libiso.Packet.{
  SdpPacket, State, new_packet, receive, response_header, payload_type_value, get_payload,
  get_payload_type, be32,
}

abbrev pub header_state : ℕ → ℕ → ℕ → State
header_state b0 b1 len =
    if not (b0 == 1) || not (b1 == 254)
    then State.invalid_header
    else if ltb 4294967287 len
    then State.invalid_header
    else if ltb 2040 len
    then State.payload_too_long
    else if len == 0
    then State.complete
    else State.header_read

-- Eight bytes are a header of version 1 exactly if they begin with 0x01 and 0xFE; the payload's
-- length must not overflow 32 bits with the header's, and must leave the packet within 2048 bytes.
pub receive_header :
    (b0 b1 b2 b3 b4 b5 b6 b7 : ℕ)
    → let b : List ℕ = b0 ∷ b1 ∷ b2 ∷ b3 ∷ b4 ∷ b5 ∷ b6 ∷ b7 ∷ [] in
      let p = receive b new_packet in
      (p.state ≡ header_state b0 b1 (be32 b 4)) × (p.buffer ≡ b) × (p.bytes_read ≡ 8)
unfolding receive new_packet
receive_header b0 b1 b2 b3 b4 b5 b6 b7 = ground arith

length_field :
    (n : ℕ)
    → n < 4294967296
    → n % 4294967296 / 16777216 * 16777216 + n / 65536 % 256 * 65536 + n / 256 % 256 * 256 + n % 256
      ≡ n
length_field n h = omega arith

received_header :
    (t : PayloadType) (n : ℕ)
    → n ≤ 2040
    → receive (response_header t n) new_packet ≡ record {
      state = if n == 0 then State.complete else State.header_read;
      buffer = response_header t n;
      bytes_read = 8;
      length = n + 8;
    }
unfolding receive new_packet response_header
received_header t n h = ground (arith, length_field n (omega arith))

reading : PayloadType → ℕ → SdpPacket
unfolding response_header
reading t n = record {
  state = State.header_read;
  buffer = response_header t n;
  bytes_read = 8;
  length = n + 8;
}

payload_read :
    (t : PayloadType) (x : ℕ) (xs : List ℕ)
    → let payload = x ∷ xs in
      let p = receive payload (reading t (length payload)) in
      (p.state ≡ State.complete)
      × (p.buffer ≡ response_header t (length payload) ++ payload)
      × (p.length ≡ length payload + 8)
unfolding receive response_header reading
payload_read t x xs = ground arith

type_field :
    (t : PayloadType)
    → payload_type_value t / 256 * 256 + payload_type_value t % 256 ≡ payload_type_value t
type_field t = omega arith

abbrev IsWhole : PayloadType → List ℕ → SdpPacket → Type 0
unfolding get_payload_type get_payload
IsWhole t payload p =
    (p.state ≡ State.complete)
    × (get_payload_type p ≡ payload_type_value t)
    × (get_payload p ≡ payload)

whole :
    (t : PayloadType) (payload : List ℕ) (p : SdpPacket)
    → (p.state ≡ State.complete)
      × (p.buffer ≡ response_header t (length payload) ++ payload)
      × (p.length ≡ length payload + 8)
    → IsWhole t payload p
unfolding get_payload_type get_payload response_header
whole t payload p (s, b, l) = (
  s,
  rw b (type_field t),
  rw (s, b, l) (subst (λ n. take n payload ≡ payload) (omega arith) (take_all payload)),
)

reading-header :
    (t : PayloadType) (n : ℕ)
    → suc n ≤ 2040
    → receive (response_header t (suc n)) new_packet ≡ reading t (suc n)
unfolding reading
reading-header t n h = received_header t (suc n) h ∙ ground arith

-- A response that was framed by `setup_response_header` is read back whole: its payload type, its
-- payload and nothing more, for every payload that fits the buffer of a packet.
pub receive-response_header :
    (t : PayloadType) (payload : List ℕ)
    → length payload ≤ 2040
    → let p = receive payload (receive (response_header t (length payload)) new_packet) in
      (p.state ≡ State.complete)
      × (get_payload_type p ≡ payload_type_value t)
      × (get_payload p ≡ payload)
unfolding receive get_payload_type get_payload response_header
receive-response_header t [] h = rw (received_header t 0 (omega arith)) (refl, type_field t, refl)
receive-response_header t (x ∷ xs) h =
    subst (λ p. IsWhole t (x ∷ xs) (receive (x ∷ xs) p)) (sym (reading-header t (length xs) h))
      (whole t (x ∷ xs) (receive (x ∷ xs) (reading t (length (x ∷ xs)))) (payload_read t x xs))
