-- ===== src/Crypt/Delivery.antt =====
-- From lownet_send on one node to the handler on another, in the clear and encrypted.
use tol103m_assignment_p.Base.{
  ℕ, ◌≤◌, ◌≡◌, ◌≢◌, refl, ap, ◌∙◌, ◌⊎◌, inl, inr, arith, List, some, length, take, bit_and,
}
use tol103m_assignment_p.Lownet.Frame.{
  Frame, SecureFrame, header, body_bytes, frame_bytes, frame_of_bytes, secure_bytes,
  secure_of_bytes, with_body,
}
use tol103m_assignment_p.Lownet.Frame.Layout.{
  IsSecureFrame, length-body_bytes, length-frame_bytes, length-secure_bytes, with_body-body_bytes,
  frame_of_bytes-frame_bytes, secure_of_bytes-secure_bytes,
}
use tol103m_assignment_p.Lownet.Keys.{Key}
use tol103m_assignment_p.Lownet.Net.{Net, lownet_get_key, lownet_get_device_id}
use tol103m_assignment_p.Lownet.Protocols.{lownet_get_handler}
use tol103m_assignment_p.Lownet.Send.{
  out_frame, lownet_send, lownet_encrypt_send, fresh_ivt, plain_secure, unsealed_frame,
}
use tol103m_assignment_p.Lownet.Send.Built.{out_frame-IsFrame, take-out_frame, out_frame_crc}
use tol103m_assignment_p.Lownet.Receive.{
  handled, service_frame, receive_bytes, lownet_inbound_handler, decrypt_service,
}
use tol103m_assignment_p.Lownet.Receive.Verdicts.{Accepted, service_frame_iff}
use tol103m_assignment_p.Crypt.{AesCbc, IsAesCbc, crypt_encrypt, crypt_decrypt}

module _ {H : Type 0} (net : Net H) where
  send_plain :
      (noise entropy : ℕ → ℕ) (encrypt : Key → SecureFrame → SecureFrame) (frame : Frame)
      → frame.len ≤ 200
      → net.aes_key.size ≡ 0
      → lownet_send net noise encrypt entropy frame ≡ some (frame_bytes (out_frame net noise frame))
  unfolding lownet_send lownet_get_key
  send_plain noise entropy encrypt frame fits off = ground arith

  send_secure :
      (noise entropy : ℕ → ℕ) (encrypt : Key → SecureFrame → SecureFrame) (frame : Frame)
      → frame.len ≤ 200
      → net.aes_key.size ≢ 0
      → lownet_send net noise encrypt entropy frame
        ≡ some (lownet_encrypt_send encrypt entropy net.aes_key (out_frame net noise frame))
  unfolding lownet_send lownet_get_key
  send_secure noise entropy encrypt frame fits on = ground arith

  receive_plain :
      (decrypt : Key → SecureFrame → SecureFrame) (bytes : List ℕ)
      → length bytes ≡ 212
      → net.aes_key.size ≡ 0
      → receive_bytes decrypt net bytes ≡ some (service_frame net (frame_of_bytes bytes))
  unfolding receive_bytes lownet_inbound_handler
  receive_plain decrypt bytes size off = ground arith

  receive_secure :
      (decrypt : Key → SecureFrame → SecureFrame) (bytes : List ℕ)
      → length bytes ≡ 228
      → net.aes_key.size ≢ 0
      → receive_bytes decrypt net bytes
        ≡ some (
            service_frame net (
              with_body
                (header 0x10 0x4e
                  (decrypt net.aes_key (secure_of_bytes bytes)).source
                  (decrypt net.aes_key (secure_of_bytes bytes)).destination)
                (decrypt net.aes_key (secure_of_bytes bytes)).body))
  unfolding receive_bytes lownet_inbound_handler decrypt_service lownet_get_key
  receive_secure decrypt bytes size on = ground arith

module _ {H : Type 0} (sender receiver : Net H) where
  -- Neither node has a key, or both have one, with the same bytes.
  abbrev pub SameKey : Type 0
  SameKey =
      ((sender.aes_key.size ≡ 0) × (receiver.aes_key.size ≡ 0))
      ⊎ ((sender.aes_key.size ≢ 0)
          × (receiver.aes_key.size ≢ 0)
          × (sender.aes_key.bytes ≡ receiver.aes_key.bytes))

  -- What the two nodes and the frame must agree on.
  pub record Agree (h : H) (frame : Frame) : Type 0 where
    pub payload_held : length frame.payload ≡ 200
    pub fits : frame.len ≤ 200
    pub sender_node : sender.identity.node ≢ 0xff
    pub addressed :
        (frame.destination ≡ receiver.identity.node) ⊎ (frame.destination ≡ receiver.broadcast.node)
    pub registered : lownet_get_handler receiver.protocols (bit_and frame.protocol 0x3f) ≡ some h

module _ {H : Type 0} (sender receiver : Net H) (h : H) (noise entropy : ℕ → ℕ) (aes : AesCbc)
    (frame : Frame) where
  abbrev message : Frame
  message = out_frame sender noise frame

  message-Accepted : Agree sender receiver h frame → Accepted receiver message h
  unfolding out_frame unsealed_frame lownet_get_device_id
  message-Accepted a = record {
    magic = (refl, refl);
    sealed = out_frame_crc sender noise frame a.payload_held a.fits;
    not_broadcast_source = a.sender_node;
    for_us = a.addressed;
    known = a.registered;
  }

  message-handled :
      Agree sender receiver h frame → service_frame receiver message ≡ handled h message
  message-handled a = (service_frame_iff receiver message h).1 (message-Accepted a)

  -- In the clear, on both nodes: what is sent is handled.
  delivery_plain :
      Agree sender receiver h frame
      → sender.aes_key.size ≡ 0
      → receiver.aes_key.size ≡ 0
      → (bytes : List ℕ) × (lownet_send sender noise (crypt_encrypt aes) entropy frame ≡ some bytes)
        × (receive_bytes (crypt_decrypt aes) receiver bytes ≡ some (handled h message))
  delivery_plain a off off' =
      let good = out_frame-IsFrame sender noise frame a.payload_held a.fits in
      (
        frame_bytes message,
        send_plain sender noise entropy (crypt_encrypt aes) frame a.fits off,
        receive_plain receiver (crypt_decrypt aes) (frame_bytes message)
              (length-frame_bytes message good) off'
            ∙ ap some (
                ap (service_frame receiver) (frame_of_bytes-frame_bytes message good)
                ∙ message-handled a),
      )

  sent_cipher : SecureFrame
  sent_cipher = crypt_encrypt aes sender.aes_key (plain_secure entropy message)

  sent_cipher-IsSecureFrame :
      IsAesCbc aes → Agree sender receiver h frame → IsSecureFrame sent_cipher
  unfolding sent_cipher crypt_encrypt plain_secure
  sent_cipher-IsSecureFrame laws a = record {
    ivt_length = refl;
    body_length =
        laws.length-encrypt _ _ (body_bytes message)
          (length-body_bytes message (out_frame-IsFrame sender noise frame a.payload_held a.fits));
  }

  decrypted :
      Agree sender receiver h frame
      → IsAesCbc aes
      → sender.aes_key.bytes ≡ receiver.aes_key.bytes
      → crypt_decrypt aes receiver.aes_key sent_cipher ≡ plain_secure entropy message
  unfolding sent_cipher crypt_encrypt crypt_decrypt plain_secure
  decrypted a laws same =
      let good = out_frame-IsFrame sender noise frame a.payload_held a.fits in
      let back : aes.decrypt_cbc receiver.aes_key.bytes (fresh_ivt entropy)
            (aes.encrypt_cbc sender.aes_key.bytes (fresh_ivt entropy) (body_bytes message))
          ≡ body_bytes message =
        ap
          (λ k.
            aes.decrypt_cbc receiver.aes_key.bytes (fresh_ivt entropy)
              (aes.encrypt_cbc k (fresh_ivt entropy) (body_bytes message)))
          same
        ∙ laws.decrypt-encrypt receiver.aes_key.bytes (fresh_ivt entropy) (body_bytes message)
            (length-body_bytes message good) in
      ap (λ (b : List ℕ). record (plain_secure entropy message) { body = b }) back

  decoded :
      Agree sender receiver h frame
      → IsAesCbc aes
      → sender.aes_key.bytes ≡ receiver.aes_key.bytes
      → (p : SecureFrame) → p ≡ plain_secure entropy message
      → with_body (header 0x10 0x4e p.source p.destination) p.body ≡ message
  unfolding plain_secure out_frame unsealed_frame
  decoded a laws same p e = rw e (
      with_body-body_bytes message (header 0x10 0x4e message.source message.destination)
        (out_frame-IsFrame sender noise frame a.payload_held a.fits))

  delivery_secure :
      Agree sender receiver h frame
      → IsAesCbc aes
      → sender.aes_key.size ≢ 0
      → receiver.aes_key.size ≢ 0
      → sender.aes_key.bytes ≡ receiver.aes_key.bytes
      → (bytes : List ℕ) × (lownet_send sender noise (crypt_encrypt aes) entropy frame ≡ some bytes)
        × (receive_bytes (crypt_decrypt aes) receiver bytes ≡ some (handled h message))
  unfolding lownet_encrypt_send
  delivery_secure a laws on on' same =
      let shape = sent_cipher-IsSecureFrame laws a in
      let opened : crypt_decrypt aes receiver.aes_key (secure_of_bytes (secure_bytes sent_cipher))
          ≡ plain_secure entropy message =
        ap (crypt_decrypt aes receiver.aes_key) (secure_of_bytes-secure_bytes sent_cipher shape)
        ∙ decrypted a laws same in
      (
        secure_bytes sent_cipher,
        unfold sent_cipher in send_secure sender noise entropy (crypt_encrypt aes) frame a.fits on,
        receive_secure receiver (crypt_decrypt aes) (secure_bytes sent_cipher)
              (length-secure_bytes sent_cipher shape) on'
            ∙ ap some
                (ap (service_frame receiver) (decoded a laws same _ opened) ∙ message-handled a),
      )

  delivered :
      Agree sender receiver h frame
      → IsAesCbc aes
      → SameKey sender receiver
      → (bytes : List ℕ) × (lownet_send sender noise (crypt_encrypt aes) entropy frame ≡ some bytes)
        × (receive_bytes (crypt_decrypt aes) receiver bytes ≡ some (handled h message))
  delivered a laws (inl (off, off')) = delivery_plain a off off'
  delivered a laws (inr (on, on', same)) = delivery_secure a laws on on' same

  -- What one node sends, the other handles: for a frame of at most 200 bytes, addressed to the
  -- receiver or to the broadcast node, of a protocol that the receiver has a handler for, from a node
  -- that is not the broadcast address, and with the same key, or none, on both sides, the bytes that
  -- lownet_send hands to the radio make the receiver call that handler, once, on a frame with the
  -- sender's id, the same destination, protocol and length, and the same payload up to that length.
  pub lownet_delivery :
      Agree sender receiver h frame
      → IsAesCbc aes
      → SameKey sender receiver
      → (bytes : List ℕ) × (out : Frame) × (lownet_send sender noise
            (crypt_encrypt aes)
            entropy
            frame
          ≡ some bytes)
        × (receive_bytes (crypt_decrypt aes) receiver bytes ≡ some (handled h out))
        × (out.source ≡ sender.identity.node)
        × (out.destination ≡ frame.destination)
        × (out.protocol ≡ frame.protocol)
        × (out.len ≡ frame.len)
        × (take frame.len out.payload ≡ take frame.len frame.payload)
  unfolding out_frame unsealed_frame lownet_get_device_id
  lownet_delivery a laws keys =
      let (bytes, sent, got) = delivered a laws keys in
      (
        bytes,
        message,
        sent,
        got,
        refl,
        refl,
        refl,
        refl,
        take-out_frame sender noise frame a.payload_held a.fits,
      )
