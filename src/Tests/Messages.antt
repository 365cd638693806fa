-- ===== src/Tests/Messages.antt =====
-- Messages and pings between the two nodes.
use tol103m_assignment_p.Base.{
  ℕ, ◌≡◌, inr, refl, arith, List, [], ◌∷◌, ◌++◌, some, ◌==◌, if◌then◌else◌,
}
use tol103m_assignment_p.Utility.{format_id}
use tol103m_assignment_p.Lownet.Frame.{Frame}
use tol103m_assignment_p.Lownet.Send.{lownet_send}
use tol103m_assignment_p.Lownet.Receive.{handled, receive_bytes}
use tol103m_assignment_p.Crypt.{crypt_encrypt, crypt_decrypt}
use tol103m_assignment_p.Chat.{tells, tell_command, chat_valid_message, chat_tell, says, shouts}
use tol103m_assignment_p.Chat.Messages.{chat_tell-chat_receive}
use tol103m_assignment_p.App.{chat_receive}
use tol103m_assignment_p.App.Start.{registered_handlers}
use tol103m_assignment_p.Tests.Nodes.{
  xor_cbc, xor_cbc-IsAesCbc, first_node, second_node, ones, rubbish,
}

abbrev hi : List ℕ
hi = b'h' ∷ b'i' ∷ []

chat_tell-chat_receive_example :
    (frame out : Frame) × (bytes : List ℕ) × (chat_tell first_node rubbish (some hi) 0xff
      ≡ some frame)
    × (lownet_send first_node ones (crypt_encrypt xor_cbc) ones frame ≡ some bytes)
    × (receive_bytes (crypt_decrypt xor_cbc) second_node bytes ≡ some (handled chat_receive out))
    × (tol103m_assignment_p.Chat.chat_receive second_node (1 ∷ []) out
        ≡ some (format_id 0x95 ++ ((if 0xff == 0xff then shouts else says) ++ hi)))
chat_tell-chat_receive_example =
    chat_tell-chat_receive first_node second_node chat_receive ones ones xor_cbc rubbish (1 ∷ []) hi
      0xff refl (omega arith, omega arith, (omega arith, omega arith, tt)) (omega arith)
      (omega arith) (omega arith) refl (inr refl) (registered_handlers 2) xor_cbc-IsAesCbc
      (inr (omega arith, omega arith, refl))
