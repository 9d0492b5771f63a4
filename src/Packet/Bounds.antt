-- ===== src/Packet/Bounds.antt =====
-- src/iso15118/io/sdp_packet.cpp: the bytes of a packet against its buffer, and against its length.
use libiso.Prelude.{
  ℕ, ◌+◌, ◌≤◌, ◌<◌, ◌≡◌, Bool, true, false, List, [], ◌∷◌, ◌++◌, length, take, length-append,
  take_all, arith, subst, ◌∙◌, ◌↔◌, sym, ap,
}
use mathlib.Core.List.{append-nil, append_assoc}
use libiso.Packet.{SdpPacket, State, new_packet, receive, get_remaining_bytes_to_read, buffer_size}

pub record IsValid (p : SdpPacket) : Type 0 where
  pub counted : length p.buffer ≡ p.bytes_read
  pub fits : p.bytes_read ≤ buffer_size
  pub header_missing : p.state ≡ State.empty → p.bytes_read < 8
  pub payload_missing :
      p.state ≡ State.header_read
      → (8 ≤ p.bytes_read) × (p.bytes_read < p.length) × (p.length ≤ buffer_size)
  pub full : p.state ≡ State.complete → (8 ≤ p.length) × (p.bytes_read ≡ p.length)

pub new_packet-IsValid : IsValid new_packet
unfolding new_packet
new_packet-IsValid = ground arith

length-kept :
    (b bytes : List ℕ) (n : ℕ) → length b ≡ n → length (take n b ++ bytes) ≡ n + length bytes
length-kept b bytes n e =
    subst (λ k. length (take k b ++ bytes) ≡ k + length bytes) e
      (rw (take_all b) (length-append b bytes))

-- Bytes that are received as they were asked for keep a packet valid, so the buffer is never
-- overrun: what is still to be read fits behind what was read.
pub receive-IsValid :
    (p : SdpPacket) (bytes : List ℕ)
    → IsValid p
    → length bytes ≤ get_remaining_bytes_to_read p
    → IsValid (receive bytes p)
unfolding receive get_remaining_bytes_to_read
receive-IsValid p bytes v h = ground (arith, length-kept p.buffer bytes p.bytes_read v.counted)

abbrev pub in_progress : State → Bool
in_progress State.empty = true
in_progress State.header_read = true
in_progress _ = false

-- The bytes that a valid packet asks for fit into the rest of its buffer, and it asks for some
-- exactly as long as it is neither complete nor failed.
pub remaining_fits :
    (p : SdpPacket)
    → IsValid p
    → (p.bytes_read + get_remaining_bytes_to_read p ≤ buffer_size)
      × ((0 < get_remaining_bytes_to_read p) ↔ (in_progress p.state ≡ true))
unfolding get_remaining_bytes_to_read
remaining_fits p v = ground arith

take_counted : (b : List ℕ) (n : ℕ) → length b ≡ n → take n b ≡ b
take_counted b n e = subst (λ k. take k b ≡ b) e (take_all b)

receive_nil : (p : SdpPacket) → IsValid p → receive [] p ≡ p
unfolding receive
receive_nil p v = ground (arith, take_counted p.buffer p.bytes_read v.counted, append-nil p.buffer)

receive_partial :
    (p : SdpPacket) (a : List ℕ)
    → IsValid p
    → length a < get_remaining_bytes_to_read p
    → receive a p ≡ record p { buffer = p.buffer ++ a; bytes_read = p.bytes_read + length a }
unfolding receive get_remaining_bytes_to_read
receive_partial p a v h = ground (arith, take_counted p.buffer p.bytes_read v.counted)

receive_rest :
    (p : SdpPacket) (a b : List ℕ)
    → IsValid p
    → length a < get_remaining_bytes_to_read p
    → receive b (record p { buffer = p.buffer ++ a; bytes_read = p.bytes_read + length a })
      ≡ receive (a ++ b) p
unfolding receive get_remaining_bytes_to_read
receive_rest p a b v h = ground (
  arith,
  take_counted p.buffer p.bytes_read v.counted,
  take_counted (p.buffer ++ a) (p.bytes_read + length a)
      (omega (arith, length-append p.buffer a, v.counted)),
  length-append a b,
  append_assoc p.buffer a b,
)

-- It does not matter in how many pieces the bytes that were asked for arrive.
pub receive-append :
    (p : SdpPacket) (a b : List ℕ)
    → IsValid p
    → length a + length b ≤ get_remaining_bytes_to_read p
    → receive b (receive a p) ≡ receive (a ++ b) p
receive-append p a [] v h =
    receive_nil (receive a p) (receive-IsValid p a v (omega arith))
    ∙ ap (λ l. receive l p) (sym (append-nil a))
receive-append p a (x ∷ b) v h =
    let few : length a < get_remaining_bytes_to_read p = omega arith in
    ap (receive (x ∷ b)) (receive_partial p a v few) ∙ receive_rest p a (x ∷ b) v few
