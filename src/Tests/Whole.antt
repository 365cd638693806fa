-- ===== src/Tests/Whole.antt =====
-- From one terminal to the other, and the texts and tests of single commands.
use tol103m_assignment_p.Base.{
  ℕ, ◌+◌, ◌<◌, ◌≡◌, ◌↔◌, refl, inr, arith, List, [], ◌∷◌, ◌++◌, some, true, ◌==◌, if◌then◌else◌,
  length, replicate,
}
use tol103m_assignment_p.Utility.{format_id}
use tol103m_assignment_p.Utility.Compare.{
  hash_compare, hash_equal, signature_equal, big_endian, sign_of, buffers_compare_lem,
}
use tol103m_assignment_p.Lownet.Frame.{Frame}
use tol103m_assignment_p.Lownet.Keys.{initial_keystore, no_key}
use tol103m_assignment_p.Lownet.Send.{lownet_send}
use tol103m_assignment_p.Lownet.Text.{digits, format_time, reply_line, id_command, date_command}
use tol103m_assignment_p.Lownet.Text.Decimal.{read_time, read_time-format_time}
use tol103m_assignment_p.Lownet.Text.Widths.{id_width, time_width, lines_fit}
use tol103m_assignment_p.Lownet.Time.{Time, time_diff}
use tol103m_assignment_p.Crypt.{crypt_encrypt}
use tol103m_assignment_p.Crypt.SelfTest.{
  Tested, successful, crypt_test_command, crypt_test_command_lem,
}
use tol103m_assignment_p.Crypt.SelfTest
use tol103m_assignment_p.Crane.Machine.{Crane, disconnected}
use tol103m_assignment_p.Serial.{line_buffer, write_message}
use tol103m_assignment_p.Serial.Input.{padded}
use tol103m_assignment_p.Serial.Session.{reads_line, happen, begun}
use tol103m_assignment_p.Serial.Session.Typing.{typing}
use tol103m_assignment_p.Base.{take}
use tol103m_assignment_p.App.Node.{Node, Surroundings, result, main_line, receive_data}
use tol103m_assignment_p.App.Typed.{tell_line, arguments, message_line}
use tol103m_assignment_p.App.Delivered.{Tells, typed-shown}
use tol103m_assignment_p.App.Pinged.{Pings, ping_line, ping-replied}
use tol103m_assignment_p.Lownet.Net.{lownet_get_time}
use tol103m_assignment_p.Tests.Queues.{bounded, bounded-IsQueue}
use tol103m_assignment_p.Tests.Nodes.{
  xor_cbc, xor_cbc-IsAesCbc, first_node, second_node, ones, rubbish, noon, list_queue,
}

abbrev idle : Crane (List ℕ)
idle = record {
  seq = 0;
  crane = 0;
  acks = [];
  phase = disconnected;
  last_status_seq = 0;
  last_backlog = 0;
  sent = [];
  written = [];
}

abbrev pub first : Node (List ℕ)
first = record { net = first_node; store = initial_keystore; client = idle }

abbrev second : Node (List ℕ)
second = record { net = second_node; store = initial_keystore; client = idle }

abbrev pub around : Surroundings
around = record {
  timer = 1000;
  arrivals = [];
  garbage = rubbish;
  stale = noon;
  garbage_key = no_key;
  beyond = [];
}

greeting : Tells first second rubbish (b'h' ∷ b'i' ∷ [])
greeting = record {
  printable = (omega arith, omega arith, (omega arith, omega arith, tt));
  sender_node = omega arith;
  some_node = omega arith;
  byte = omega arith;
  broadcast = refl;
  protocols = refl;
  same_key = inr (omega arith, omega arith, refl);
  payload = refl;
}

typed-shown_example :
    let line = message_line 0x95 0x96 (b'h' ∷ b'i' ∷ []) in
    (frame : Frame) × (bytes : List ℕ) × ((happen
        (bounded (List ℕ) 16)
        (bounded (List ℕ) 4)
        (replicate 128 0)
        (begun (bounded (List ℕ) 16) (bounded (List ℕ) 4))
        (typing (tell_line true (arguments 0x96 (b'h' ∷ b'i' ∷ [])) ++ (10 ∷ []))
          ++ (reads_line ∷ []))).read
      ≡ padded 127 (tell_line true (arguments 0x96 (b'h' ∷ b'i' ∷ []))) ∷ [])
    × (main_line list_queue xor_cbc around first
          (padded 127 (tell_line true (arguments 0x96 (b'h' ∷ b'i' ∷ []))))
        ≡ result first [] (frame ∷ []))
    × (lownet_send first_node ones (crypt_encrypt xor_cbc) ones frame ≡ some bytes)
    × (receive_data list_queue xor_cbc around second bytes ≡ result second (line ∷ []) [])
    × (write_message (replicate 128 0) (line_buffer line) ≡ take 126 line ++ (10 ∷ []))
unfolding format_id
typed-shown_example =
    typed-shown list_queue xor_cbc around first second b'h' (b'i' ∷ []) greeting
      (bounded-IsQueue (List ℕ) 16) (bounded-IsQueue (List ℕ) 4) xor_cbc-IsAesCbc true ones ones
      (replicate 128 0) (omega arith) refl

-- Four seconds later.
abbrev later : Surroundings
later = record around { timer = 4001000 }

two_nodes : Pings first second around around
two_nodes = record {
  differ = omega arith;
  not_broadcast = omega arith;
  answering_node = omega arith;
  some_node = omega arith;
  byte = omega arith;
  protocols = refl;
  answering_protocols = refl;
  same_key = inr (omega arith, omega arith, refl);
  payload = refl;
  answering_payload = refl;
}

ping-replied_example :
    (frame reply : Frame) × (bytes bytes' : List ℕ) × (main_line list_queue xor_cbc around first
        (padded 127 (ping_line 0x96))
      ≡ result first [] (frame ∷ []))
    × (lownet_send first_node ones (crypt_encrypt xor_cbc) ones frame ≡ some bytes)
    × (receive_data list_queue xor_cbc around second bytes ≡ result second [] (reply ∷ []))
    × (lownet_send second_node ones (crypt_encrypt xor_cbc) ones reply ≡ some bytes')
    × (receive_data list_queue xor_cbc later first bytes'
        ≡ result first
            (reply_line 0x96
                (time_diff (lownet_get_time first_node 1000) (lownet_get_time first_node 4001000))
              ∷ [])
            [])
ping-replied_example =
    ping-replied list_queue xor_cbc around around later first second two_nodes xor_cbc-IsAesCbc ones
      ones ones ones

crypt_test_command_lem_example :
    crypt_test_command xor_cbc first_node (some (b'h' ∷ b'i' ∷ []))
    ≡ (if 32 == 0 then SelfTest.no_key else successful)
crypt_test_command_lem_example =
    crypt_test_command_lem xor_cbc first_node xor_cbc-IsAesCbc (b'h' ∷ b'i' ∷ []) (omega arith)

-- One second and 10 / 256, which is printed as 1.39s.
abbrev moment : Time
moment = record { seconds = 1; parts = 10 }

moment_text : format_time moment ≡ b'1' ∷ b'.' ∷ b'3' ∷ b'9' ∷ b's' ∷ []
unfolding format_time digits
moment_text = refl

read_time-format_time_example : read_time (format_time moment ++ (b' ' ∷ [])) ≡ moment
read_time-format_time_example = read_time-format_time moment (b' ' ∷ []) (omega arith) (omega arith)

lines_fit_example :
    (length (id_command first_node) < id_width + 1)
    × (length (date_command first_node 1000) < time_width + 25 + 1)
    × (length (reply_line 0x96 moment) < 12 + id_width + 6 + time_width + 1)
lines_fit_example = lines_fit first_node 1000 0x96 moment

abbrev low : List ℕ
low = 1 ∷ 2 ∷ []

abbrev high : List ℕ
high = 1 ∷ 3 ∷ []

buffers_compare_lem_example :
    (hash_compare low high ≡ sign_of (big_endian low) (big_endian high))
    × ((hash_equal low high ≡ true) ↔ (low ≡ high))
    × ((signature_equal low high ≡ true) ↔ (low ≡ high))
buffers_compare_lem_example =
    buffers_compare_lem low high refl (omega arith, (omega arith, tt))
      (omega arith, (omega arith, tt))
