-- ===== src/Lownet/Service/Fault.antt =====
-- A key that is removed while a frame waits for its decryption.
use tol103m_assignment_p.Base.{
  ℕ, ◌≡◌, ◌≢◌, refl, ◌∙◌, ap, arith, List, [], ◌∷◌, ◌++◌, none, some, length,
}
use tol103m_assignment_p.Queue.{MessageQueue, IsQueue}
use tol103m_assignment_p.Lownet.Frame.{Frame, SecureFrame, secure_of_bytes}
use tol103m_assignment_p.Lownet.Keys.{Key}
use tol103m_assignment_p.Lownet.Net.{Net, lownet_get_key, lownet_set_key}
use tol103m_assignment_p.Lownet.Receive.{
  Inbound, to_decrypt, lownet_inbound_handler, decrypt_service,
}
use tol103m_assignment_p.Lownet.Service.{
  Service, arrives, decrypts, sets_key, arrive, happens, happen, decrypt_round, started,
}

module _ {H : Type 0} where
  no_key_faults :
      (decrypt : Key → SecureFrame → SecureFrame) (net : Net H) (c : SecureFrame)
      → decrypt_service decrypt (lownet_set_key net none) c ≡ none
  unfolding decrypt_service lownet_get_key lownet_set_key
  no_key_faults decrypt net c = ground arith

  secure_arrives :
      (net : Net H) (bytes : List ℕ)
      → net.aes_key.size ≢ 0
      → length bytes ≡ 228
      → lownet_inbound_handler net bytes ≡ to_decrypt (secure_of_bytes bytes)
  unfolding lownet_inbound_handler
  secure_arrives net bytes on size = ground arith

module _ {H : Type 0} (frames : MessageQueue Frame) {ciphers : MessageQueue SecureFrame}
    (cl : IsQueue 16 ciphers) (decrypt : Key → SecureFrame → SecureFrame) where
  decrypt_round_faults :
      (v : Service H frames.Queue ciphers.Queue) (c : SecureFrame) (rest : ciphers.Queue)
      → ciphers.receive v.decrypt_queue ≡ some (c, rest)
      → decrypt_service decrypt v.net c ≡ none
      → decrypt_round frames ciphers decrypt v ≡ none
  unfolding decrypt_round
  decrypt_round_faults v c rest e e' = rw (e, decrypt_round, e') refl

  key_removed-waiting :
      (v : Service H frames.Queue ciphers.Queue) (c : SecureFrame) (cs : List SecureFrame)
      → cl.contents v.decrypt_queue ≡ c ∷ cs
      → happen frames ciphers decrypt v (sets_key none ∷ (decrypts ∷ [])) ≡ none
  unfolding happen happens
  key_removed-waiting v c cs e =
      let (rest, first, e') = cl.receive_first v.decrypt_queue c cs e in
      let removed : Service H frames.Queue ciphers.Queue = record v {
        net = lownet_set_key v.net none;
      } in
      rw (decrypt_round_faults removed c rest first (no_key_faults decrypt v.net c), happen) refl

  -- If a secure frame arrives at a started node that has a key, and the key is removed before the
  -- decryption task has run, that task reads through a NULL pointer.
  pub key_removed_faults :
      (net : Net H) (bytes : List ℕ)
      → net.aes_key.size ≢ 0
      → length bytes ≡ 228
      → happen frames ciphers decrypt
          (started frames ciphers net)
          (arrives bytes ∷ (sets_key none ∷ (decrypts ∷ [])))
        ≡ none
  unfolding happen happens arrive
  key_removed_faults net bytes on size =
      let c = secure_of_bytes bytes in
      let room = cl.send_room ciphers.create c (rw cl.contents-create (omega arith)) in
      let arrived : Inbound → Service H frames.Queue ciphers.Queue =
        arrive frames ciphers (started frames ciphers net) bytes in
      ap (λ d. happen frames ciphers decrypt (arrived d) (sets_key none ∷ (decrypts ∷ [])))
        (secure_arrives net bytes on size)
      ∙ key_removed-waiting (arrived (to_decrypt c)) c []
          (room.0 ∙ ap (λ (l : List SecureFrame). l ++ (c ∷ [])) cl.contents-create)
