-- ===== src/Crane/Packet/Codec.antt =====
-- A packet survives its way through a frame, and through the network.
use tol103m_assignment_p.Base.{
  ℕ, ◌+◌, ◌*◌, ◌/◌, ◌%◌, ◌<◌, ◌≡◌, refl, ap, sym, ◌∙◌, arith, some, List, [], ◌∷◌, take,
}
use tol103m_assignment_p.Lownet.Frame.{Frame}
use tol103m_assignment_p.Lownet.Net.{Net}
use tol103m_assignment_p.Lownet.Send.{lownet_send}
use tol103m_assignment_p.Lownet.Receive.{handled, receive_bytes}
use tol103m_assignment_p.Crypt.{AesCbc, IsAesCbc, crypt_encrypt, crypt_decrypt}
use tol103m_assignment_p.Crypt.Delivery.{Agree, SameKey, lownet_delivery}
use tol103m_assignment_p.Crane.Packet.{CranePacket, packet_bytes, packet_of_bytes, crane_frame}

-- Only the first eight bytes are read.
packet_of_bytes-take : (xs : List ℕ) → packet_of_bytes (take 8 xs) ≡ packet_of_bytes xs
unfolding packet_of_bytes
packet_of_bytes-take [] = refl
packet_of_bytes-take (a ∷ []) = refl
packet_of_bytes-take (a ∷ b ∷ []) = refl
packet_of_bytes-take (a ∷ b ∷ c ∷ []) = refl
packet_of_bytes-take (a ∷ b ∷ c ∷ d ∷ []) = refl
packet_of_bytes-take (a ∷ b ∷ c ∷ d ∷ e ∷ []) = refl
packet_of_bytes-take (a ∷ b ∷ c ∷ d ∷ e ∷ f ∷ []) = refl
packet_of_bytes-take (a ∷ b ∷ c ∷ d ∷ e ∷ f ∷ g ∷ []) = refl
packet_of_bytes-take (a ∷ b ∷ c ∷ d ∷ e ∷ f ∷ g ∷ h ∷ rest) = refl

packet_of_bytes-packet_bytes :
    (p : CranePacket) → p.seq < 65536 → packet_of_bytes (packet_bytes p) ≡ p
unfolding packet_of_bytes packet_bytes
packet_of_bytes-packet_bytes p h =
    let e : p.seq % 256 + p.seq / 256 % 256 * 256 ≡ p.seq = omega arith in
    ap (λ (n : ℕ). record p { seq = n }) e

-- The packet that crane_receive reads from a payload that starts with what crane_send wrote.
packet_of_bytes-crane_frame :
    (garbage : Frame) (id : ℕ) (p : CranePacket) (payload : List ℕ)
    → p.seq < 65536
    → take 8 payload ≡ take 8 (crane_frame garbage id p).payload
    → packet_of_bytes payload ≡ p
unfolding crane_frame packet_bytes
packet_of_bytes-crane_frame garbage id p payload h e =
    sym (packet_of_bytes-take payload) ∙ (ap packet_of_bytes e ∙ packet_of_bytes-packet_bytes p h)

-- A packet that crane_send hands to lownet_send, with a 16-bit sequence number and whatever the frame
-- on its stack held, makes the node that it is addressed to call its handler on a frame from which
-- crane_receive reads that packet, when the nodes agree on the frame and on the key, or use none.
pub crane_frame-delivered :
    {H : Type 0} (sender receiver : Net H) (h : H) (noise entropy : ℕ → ℕ) (aes : AesCbc)
    (garbage : Frame) (id : ℕ) (p : CranePacket)
    → p.seq < 65536
    → Agree sender receiver h (crane_frame garbage id p)
    → IsAesCbc aes
    → SameKey sender receiver
    → (bytes : List ℕ) × (out : Frame) × (lownet_send sender noise
          (crypt_encrypt aes)
          entropy
          (crane_frame garbage id p)
        ≡ some bytes)
      × (receive_bytes (crypt_decrypt aes) receiver bytes ≡ some (handled h out))
      × (packet_of_bytes out.payload ≡ p)
unfolding crane_frame
crane_frame-delivered sender receiver h noise entropy aes garbage id p seq agree laws keys =
    let (bytes, out, sent, got, source, destination, protocol, len, payload) =
      lownet_delivery sender receiver h noise entropy aes (crane_frame garbage id p) agree laws
        keys in
    (bytes, out, sent, got, packet_of_bytes-crane_frame garbage id p out.payload seq payload)
