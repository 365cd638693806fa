-- ===== src/Tests/Network.antt =====
-- The network's properties at concrete frames.
use tol103m_assignment_p.Base.{
  ℕ, ◌+◌, ◌<◌, ◌≡◌, ◌↔◌, inl, inr, refl, arith, List, [], ◌∷◌, some, take, replicate,
}
use tol103m_assignment_p.Lownet.Frame.{Frame, SecureFrame}
use tol103m_assignment_p.Lownet.Crc.Burst.{crc_of_burst}
use tol103m_assignment_p.Lownet.Time.{Time, time_diff}
use tol103m_assignment_p.Lownet.Time.Difference.{IsTime, ticks, time_diff_exact}
use tol103m_assignment_p.Lownet.Send.{lownet_send}
use tol103m_assignment_p.Lownet.Send.Built.{lownet_send_uninitialised}
use tol103m_assignment_p.Lownet.Receive.{handled, service_frame, receive_bytes}
use tol103m_assignment_p.Lownet.Receive.Verdicts.{Accepted, service_frame_iff}
use tol103m_assignment_p.Crypt.{crypt_encrypt, crypt_decrypt}
use tol103m_assignment_p.Crypt.Delivery.{Agree, lownet_delivery}
use tol103m_assignment_p.App.{chat_receive}
use tol103m_assignment_p.App.Start.{registered_handlers}
use tol103m_assignment_p.Tests.Nodes.{
  xor_cbc, xor_cbc-IsAesCbc, first_node, second_node, ones, rubbish, noon,
}

-- A message of five bytes for the second node.
abbrev hello : Frame
hello = record rubbish {
  destination = 0x96;
  protocol = 2;
  len = 5;
  payload = 104 ∷ 101 ∷ 108 ∷ 108 ∷ 111 ∷ replicate 195 0xcc;
}

hello-Agree : Agree first_node second_node chat_receive hello
hello-Agree = record {
  payload_held = refl;
  fits = omega arith;
  sender_node = omega arith;
  addressed = inl refl;
  registered = registered_handlers 2;
}

lownet_delivery_example :
    (bytes : List ℕ) × (out : Frame) × (lownet_send first_node ones
        (crypt_encrypt xor_cbc)
        ones
        hello
      ≡ some bytes)
    × (receive_bytes (crypt_decrypt xor_cbc) second_node bytes ≡ some (handled chat_receive out))
    × (out.source ≡ 0x95)
    × (out.destination ≡ 0x96)
    × (out.protocol ≡ 2)
    × (out.len ≡ 5)
    × (take 5 out.payload ≡ 104 ∷ 101 ∷ 108 ∷ 108 ∷ 111 ∷ [])
lownet_delivery_example =
    lownet_delivery first_node second_node chat_receive ones ones xor_cbc hello hello-Agree
      xor_cbc-IsAesCbc (inr (omega arith, omega arith, refl))

service_frame_iff_example :
    (service_frame second_node hello ≡ handled chat_receive hello)
    ↔ Accepted second_node hello chat_receive
service_frame_iff_example = service_frame_iff second_node hello chat_receive

lownet_send_uninitialised_example :
    lownet_send first_node ones (crypt_encrypt xor_cbc) ones hello
    ≡ lownet_send first_node ones
        (crypt_encrypt xor_cbc)
        ones
        (record hello { source = 1; padding0 = 9 })
lownet_send_uninitialised_example =
    lownet_send_uninitialised first_node ones (crypt_encrypt xor_cbc) ones hello
      (record hello { source = 1; padding0 = 9 }) refl refl refl refl

abbrev sealed_hello : SecureFrame
sealed_hello = record {
  magic0 = 0x20;
  magic1 = 0x4e;
  source = 0x95;
  destination = 0x96;
  ivt = replicate 16 1;
  body = replicate 208 2;
}

abbrev window : List ℕ
window = 4 ∷ 5 ∷ 6 ∷ []

crc_of_burst_example : window ≡ window
crc_of_burst_example =
    crc_of_burst (1 ∷ 2 ∷ []) window window (7 ∷ []) refl (omega arith)
      (omega arith, (omega arith, (omega arith, tt)))
      (omega arith, (omega arith, (omega arith, tt))) refl

abbrev later : Time
later = record { seconds = 43201; parts = 128 }

noon-IsTime : IsTime noon
noon-IsTime = record { seconds_width = omega arith; parts_width = omega arith }

later-IsTime : IsTime later
later-IsTime = record { seconds_width = omega arith; parts_width = omega arith }

time_diff_exact_example :
    (ticks (time_diff noon later) + ticks noon ≡ ticks later) × ((time_diff noon later).parts < 256)
time_diff_exact_example =
    time_diff_exact noon later noon-IsTime later-IsTime (omega arith) (omega arith)
