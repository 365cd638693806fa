-- ===== src/Lownet/Send/Built.antt =====
-- What lownet_send puts into its frame.
use tol103m_assignment_p.Base.{
  ℕ, zero, suc, ◌+◌, ◌-◌, ◌≤◌, ◌<◌, ◌≡◌, refl, ◌∙◌, arith, List, ◌++◌, length, take, drop,
  length-set, length-append, length-take, length-drop, take-set, take-append, copy_over, Option,
  none, some, ltb, if◌then◌else◌,
}
use tol103m_assignment_p.Lownet.Crc.Bounds.{crc_of-IsRegister}
use tol103m_assignment_p.Lownet.Frame.{Frame, SecureFrame, zero_frame, frame_bytes}
use tol103m_assignment_p.Lownet.Frame.Layout.{IsFrame}
use tol103m_assignment_p.Lownet.Keys.{Key}
use tol103m_assignment_p.Lownet.Net.{Net, lownet_get_key, lownet_get_device_id}
use tol103m_assignment_p.Lownet.Send.{
  checked_bytes, lownet_crc, fill_noise, unsealed_frame, out_frame, lownet_send,
  lownet_encrypt_send, plain_magic0, magic_tail,
}

lownet_crc-lt : (f : Frame) → lownet_crc f < 4294967296
unfolding lownet_crc
lownet_crc-lt f = omega (arith, crc_of-IsRegister (checked_bytes f))

length-fill_noise :
    (noise : ℕ → ℕ) (left i : ℕ) (payload : List ℕ)
    → length (fill_noise noise left i payload) ≡ length payload
unfolding fill_noise
length-fill_noise noise zero i payload = refl
length-fill_noise noise (suc left) i payload =
    length-fill_noise noise left (i + 1) _ ∙ length-set payload i _

take-fill_noise :
    (noise : ℕ → ℕ) (n left i : ℕ) (payload : List ℕ)
    → n ≤ i
    → take n (fill_noise noise left i payload) ≡ take n payload
unfolding fill_noise
take-fill_noise noise n zero i payload h = refl
take-fill_noise noise n (suc left) i payload h =
    take-fill_noise noise n left (i + 1) _ (omega arith) ∙ take-set n i _ payload h

module _ {H : Type 0} (net : Net H) (noise : ℕ → ℕ) (frame : Frame)
    (held : length frame.payload ≡ 200) (fits : frame.len ≤ 200) where
  copied : List ℕ
  copied = copy_over zero_frame.payload frame.payload frame.len

  length-copied : length copied ≡ 200
  unfolding copied
  length-copied = omega (
    arith,
    length-append (take frame.len frame.payload) (drop frame.len zero_frame.payload),
    length-take frame.len frame.payload (omega (arith, held)),
    length-drop frame.len zero_frame.payload,
  )

  pub out_frame-IsFrame : IsFrame (out_frame net noise frame)
  unfolding out_frame unsealed_frame copied
  out_frame-IsFrame = record {
    payload_length = length-fill_noise noise (200 - frame.len) frame.len copied ∙ length-copied;
    crc_width = lownet_crc-lt (unsealed_frame net noise frame);
  }

  -- The message is in the frame, unchanged.
  pub take-out_frame :
      take frame.len (out_frame net noise frame).payload ≡ take frame.len frame.payload
  unfolding out_frame unsealed_frame copied
  take-out_frame =
      take-fill_noise noise frame.len (200 - frame.len) frame.len copied (omega arith)
      ∙ take-append frame.len (take frame.len frame.payload) (drop frame.len zero_frame.payload)
          (length-take frame.len frame.payload (omega (arith, held)))

  pub out_frame_crc : lownet_crc (out_frame net noise frame) ≡ (out_frame net noise frame).crc
  unfolding out_frame unsealed_frame lownet_crc checked_bytes
  out_frame_crc = refl

module _ {H : Type 0} (net : Net H) (noise : ℕ → ℕ) (encrypt : Key → SecureFrame → SecureFrame)
    (entropy : ℕ → ℕ) where
  -- lownet_send as a function of what it reads of its argument.
  sent : ℕ → ℕ → ℕ → List ℕ → Option (List ℕ)
  sent destination protocol len message =
      let unsealed : Frame = record zero_frame {
        magic0 = plain_magic0;
        magic1 = magic_tail;
        source = lownet_get_device_id net;
        destination = destination;
        protocol = protocol;
        len = len;
        payload = fill_noise noise (200 - len) len (message ++ drop len zero_frame.payload);
      } in
      let sealed : Frame = record unsealed { crc = lownet_crc unsealed } in
      if ltb 200 len then none else (elim (lownet_get_key net) [
        | some key ↦ some (lownet_encrypt_send encrypt entropy key sealed)
        | none ↦ some (frame_bytes sealed)
      ])

  sent_lem :
      (f : Frame)
      → lownet_send net noise encrypt entropy f
        ≡ sent f.destination f.protocol f.len (take f.len f.payload)
  unfolding lownet_send out_frame unsealed_frame sent
  sent_lem f = refl

  -- What the caller leaves uninitialised does not matter: two frames with the same destination,
  -- protocol and length, and the same payload up to that length, are sent as the same bytes.
  pub lownet_send_uninitialised :
      (f g : Frame)
      → f.destination ≡ g.destination
      → f.protocol ≡ g.protocol
      → f.len ≡ g.len
      → take f.len f.payload ≡ take g.len g.payload
      → lownet_send net noise encrypt entropy f ≡ lownet_send net noise encrypt entropy g
  lownet_send_uninitialised f g d p l t = cc (sent_lem f, sent_lem g)
