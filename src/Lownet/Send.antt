-- ===== src/Lownet/Send.antt =====
-- lownet_send and lownet_encrypt_send of managed_components/lownet/lownet.c. The result is what is
-- handed to esp_now_send, whose own failure is only logged. The values of esp_random() are
-- arguments: `noise` by the payload index that it fills, `entropy` by the word of the vector.
pub mod Built
use tol103m_assignment_p.Base.{
  ℕ, zero, suc, ◌+◌, ◌-◌, List, [], ◌∷◌, ◌++◌, Option, none, some, bit_and, bit_or, ltb,
  if◌then◌else◌, replicate, get_or, set, copy_over, take, drop, le32,
}
use tol103m_assignment_p.Lownet.Crc.{crc_of}
use tol103m_assignment_p.Lownet.Frame.{
  Frame, SecureFrame, payload_size, zero_frame, body_bytes, frame_bytes, secure_bytes,
}
use tol103m_assignment_p.Lownet.Keys.{Key}
use tol103m_assignment_p.Lownet.Net.{Net, lownet_get_key, lownet_get_device_id}

abbrev pub plain_magic0 : ℕ
plain_magic0 = 0x10

abbrev pub cipher_magic0 : ℕ
cipher_magic0 = 0x20

-- The second byte of both magic numbers.
abbrev pub magic_tail : ℕ
magic_tail = 0x4e

-- The 208 bytes that the loop of lownet_crc reads: the frame up to its crc field.
unfoldable pub checked_bytes : Frame → List ℕ
checked_bytes f =
    f.magic0 ∷ f.magic1 ∷ f.source ∷ f.destination ∷ f.protocol ∷ f.len ∷ f.padding0 ∷ f.padding1
    ∷ f.payload

unfoldable pub lownet_crc : Frame → ℕ
unfolding checked_bytes
lownet_crc f = crc_of (checked_bytes f)

-- The loop that fills the unused payload from index `i`, by the rounds left.
unfoldable pub fill_noise : (ℕ → ℕ) → ℕ → ℕ → List ℕ → List ℕ
fill_noise noise zero i payload = payload
fill_noise noise (suc left) i payload =
    fill_noise noise left (i + 1)
      (set payload i (bit_or (get_or payload i 0) (bit_and (noise i) 0xff)))

-- The vector of lownet_encrypt_send: four words of entropy.
abbrev pub fresh_ivt : (ℕ → ℕ) → List ℕ
fresh_ivt entropy = le32 (entropy 0) ++ (le32 (entropy 1) ++ (le32 (entropy 2) ++ le32 (entropy 3)))

-- The plaintext of lownet_encrypt_send.
unfoldable pub plain_secure : (ℕ → ℕ) → Frame → SecureFrame
plain_secure entropy frame = record {
  magic0 = cipher_magic0;
  magic1 = magic_tail;
  source = frame.source;
  destination = frame.destination;
  ivt = fresh_ivt entropy;
  body = body_bytes frame;
}

-- `encrypt` is net_system.encrypt, which is given the active key.
unfoldable pub lownet_encrypt_send :
    (Key → SecureFrame → SecureFrame) → (ℕ → ℕ) → Key → Frame → List ℕ
lownet_encrypt_send encrypt entropy key frame =
    secure_bytes (encrypt key (plain_secure entropy frame))

module _ {H : Type 0} (net : Net H) (noise : ℕ → ℕ) where
  -- out_frame of lownet_send, before and after its crc is set.
  unfoldable pub unsealed_frame : Frame → Frame
  unsealed_frame frame = record zero_frame {
    magic0 = plain_magic0;
    magic1 = magic_tail;
    source = lownet_get_device_id net;
    destination = frame.destination;
    protocol = frame.protocol;
    len = frame.len;
    payload =
        fill_noise noise (payload_size - frame.len) frame.len
          (copy_over zero_frame.payload frame.payload frame.len);
  }

  unfoldable pub out_frame : Frame → Frame
  out_frame frame = record (unsealed_frame frame) { crc = lownet_crc (unsealed_frame frame) }

  -- `none`: the frame is discarded.
  unfoldable pub lownet_send : (Key → SecureFrame → SecureFrame) → (ℕ → ℕ) → Frame → Option (List ℕ)
  lownet_send encrypt entropy frame =
      if ltb payload_size frame.len then none else (elim (lownet_get_key net) [
        | some key ↦ some (lownet_encrypt_send encrypt entropy key (out_frame frame))
        | none ↦ some (frame_bytes (out_frame frame))
      ])
