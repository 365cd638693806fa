-- ===== src/Lownet/Frame/Layout.antt =====
-- The sizes that the static_asserts of lownet.h state, and reading a frame's bytes back.
use tol103m_assignment_p.Base.{
  ◌<◌, ◌≡◌, refl, arith, length, le32, from_le32-le32, length-append, take-append, drop-append,
}
use tol103m_assignment_p.Lownet.Frame.{
  Frame, SecureFrame, body_bytes, frame_bytes, secure_bytes, with_body, frame_of_bytes, header,
  secure_of_bytes,
}

-- What the types of the struct give: a payload of 200 elements and a crc of 32 bits.
pub record IsFrame (f : Frame) : Type 0 where
  pub payload_length : length f.payload ≡ 200
  pub crc_width : f.crc < 4294967296

pub record IsSecureFrame (f : SecureFrame) : Type 0 where
  pub ivt_length : length f.ivt ≡ 16
  pub body_length : length f.body ≡ 208

pub length-body_bytes : (f : Frame) → IsFrame f → length (body_bytes f) ≡ 208
unfolding body_bytes
length-body_bytes f h = omega (arith, length-append f.payload (le32 f.crc), h.payload_length)

pub length-frame_bytes : (f : Frame) → IsFrame f → length (frame_bytes f) ≡ 212
unfolding frame_bytes
length-frame_bytes f h = omega (arith, length-body_bytes f h)

pub length-secure_bytes : (f : SecureFrame) → IsSecureFrame f → length (secure_bytes f) ≡ 228
unfolding secure_bytes
length-secure_bytes f h = omega (arith, length-append f.ivt f.body, h.ivt_length, h.body_length)

-- The encrypted part of a frame, put into any other frame.
pub with_body-body_bytes :
    (f g : Frame)
    → IsFrame f
    → with_body g (body_bytes f) ≡ record f {
      magic0 = g.magic0;
      magic1 = g.magic1;
      source = g.source;
      destination = g.destination;
    }
unfolding with_body body_bytes
with_body-body_bytes f g h =
    rw
      (
        take-append 200 f.payload (le32 f.crc) h.payload_length,
        drop-append 200 f.payload (le32 f.crc) h.payload_length,
        from_le32-le32 f.crc h.crc_width,
      )
      refl

-- Reading the bytes of a frame gives the frame.
pub frame_of_bytes-frame_bytes : (f : Frame) → IsFrame f → frame_of_bytes (frame_bytes f) ≡ f
unfolding frame_of_bytes frame_bytes
frame_of_bytes-frame_bytes f h =
    with_body-body_bytes f (header f.magic0 f.magic1 f.source f.destination) h

-- Reading the bytes of an encrypted frame gives the frame.
pub secure_of_bytes-secure_bytes :
    (f : SecureFrame) → IsSecureFrame f → secure_of_bytes (secure_bytes f) ≡ f
unfolding secure_of_bytes secure_bytes
secure_of_bytes-secure_bytes f h =
    rw (take-append 16 f.ivt f.body h.ivt_length, drop-append 16 f.ivt f.body h.ivt_length) refl
