-- ===== src/Lownet/Frame.antt =====
-- lownet_frame_t and lownet_secure_frame_t of managed_components/lownet/include/lownet.h, and
-- their bytes on the air. Both structs are packed and the target is little-endian.
pub mod Layout
use tol103m_assignment_p.Base.{ℕ, List, [], ◌∷◌, ◌++◌, take, drop, replicate, le32, from_le32}

abbrev pub payload_size : ℕ
payload_size = 200

abbrev pub frame_size : ℕ
frame_size = 212

abbrev pub secure_frame_size : ℕ
secure_frame_size = 228

abbrev pub ivt_size : ℕ
ivt_size = 16

abbrev pub encrypted_size : ℕ
encrypted_size = 208

abbrev pub broadcast_address : ℕ
broadcast_address = 0xff

-- `length` is the field of that name, and `padding0`, `padding1` are padding[0] and padding[1].
pub record Frame : Type 0 where
  pub magic0 : ℕ
  pub magic1 : ℕ
  pub source : ℕ
  pub destination : ℕ
  pub protocol : ℕ
  pub len : ℕ
  pub padding0 : ℕ
  pub padding1 : ℕ
  pub payload : List ℕ
  pub crc : ℕ

-- `body` holds the 208 bytes from `protocol` to `crc`, the part that is encrypted.
pub record SecureFrame : Type 0 where
  pub magic0 : ℕ
  pub magic1 : ℕ
  pub source : ℕ
  pub destination : ℕ
  pub ivt : List ℕ
  pub body : List ℕ

-- The bytes from the field `protocol` on.
unfoldable pub body_bytes : Frame → List ℕ
body_bytes f = f.protocol ∷ f.len ∷ f.padding0 ∷ f.padding1 ∷ (f.payload ++ le32 f.crc)

unfoldable pub frame_bytes : Frame → List ℕ
unfolding body_bytes
frame_bytes f = f.magic0 ∷ f.magic1 ∷ f.source ∷ f.destination ∷ body_bytes f

unfoldable pub secure_bytes : SecureFrame → List ℕ
secure_bytes f = f.magic0 ∷ f.magic1 ∷ f.source ∷ f.destination ∷ (f.ivt ++ f.body)

-- memset(&frame, 0, sizeof frame).
abbrev pub zero_frame : Frame
zero_frame = record {
  magic0 = 0;
  magic1 = 0;
  source = 0;
  destination = 0;
  protocol = 0;
  len = 0;
  padding0 = 0;
  padding1 = 0;
  payload = replicate 200 0;
  crc = 0;
}

-- A zeroed frame with its first four bytes filled in.
abbrev pub header : ℕ → ℕ → ℕ → ℕ → Frame
header m0 m1 s d = record zero_frame { magic0 = m0; magic1 = m1; source = s; destination = d }

abbrev crc_of_tail : List ℕ → ℕ
crc_of_tail (a ∷ b ∷ c ∷ d ∷ rest) = from_le32 a b c d
crc_of_tail _ = 0

-- The 208 bytes from `protocol` on, read back into the fields of `f`.
unfoldable pub with_body : Frame → List ℕ → Frame
with_body f (p ∷ l ∷ q0 ∷ q1 ∷ rest) = record f {
  protocol = p;
  len = l;
  padding0 = q0;
  padding1 = q1;
  payload = take 200 rest;
  crc = crc_of_tail (drop 200 rest);
}
with_body f _ = f

-- The bytes of a received frame, as a lownet_frame_t.
unfoldable pub frame_of_bytes : List ℕ → Frame
unfolding with_body
frame_of_bytes (m0 ∷ m1 ∷ s ∷ d ∷ body) = with_body (header m0 m1 s d) body
frame_of_bytes _ = zero_frame

unfoldable pub secure_of_bytes : List ℕ → SecureFrame
secure_of_bytes (m0 ∷ m1 ∷ s ∷ d ∷ rest) = record {
  magic0 = m0;
  magic1 = m1;
  source = s;
  destination = d;
  ivt = take 16 rest;
  body = drop 16 rest;
}
secure_of_bytes _ = record {
  magic0 = 0;
  magic1 = 0;
  source = 0;
  destination = 0;
  ivt = [];
  body = [];
}
