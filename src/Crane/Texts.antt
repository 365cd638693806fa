-- ===== src/Crane/Texts.antt =====
-- The lines that managed_components/crane/crane.c gives to serial_write_line.
use tol103m_assignment_p.Base.{ℕ, List, [], ◌∷◌, ◌++◌, ◌==◌, take, if◌then◌else◌}
use tol103m_assignment_p.Lownet.Text.{decimal}
use tol103m_assignment_p.Crane.Packet.{CranePacket, backlog}

abbrev pub missing_command_text : List ℕ
missing_command_text =
    b'M' ∷ b'i' ∷ b's' ∷ b's' ∷ b'i' ∷ b'n' ∷ b'g' ∷ b' ' ∷ b'a' ∷ b'r' ∷ b'g' ∷ b'u' ∷ b'm' ∷ b'e'
    ∷ b'n' ∷ b't' ∷ b' ' ∷ b'C' ∷ b'O' ∷ b'M' ∷ b'M' ∷ b'A' ∷ b'N' ∷ b'D' ∷ []

abbrev pub missing_id_text : List ℕ
missing_id_text =
    b'M' ∷ b'i' ∷ b's' ∷ b's' ∷ b'i' ∷ b'n' ∷ b'g' ∷ b' ' ∷ b'a' ∷ b'r' ∷ b'g' ∷ b'u' ∷ b'm' ∷ b'e'
    ∷ b'n' ∷ b't' ∷ b' ' ∷ b'I' ∷ b'D' ∷ []

abbrev open_text : List ℕ
open_text =
    b'o' ∷ b'p' ∷ b'e' ∷ b'n' ∷ b' ' ∷ b'I' ∷ b'D' ∷ b' ' ∷ b' ' ∷ b' ' ∷ b' ' ∷ b'C' ∷ b'o' ∷ b'n'
    ∷ b'n' ∷ b'e' ∷ b'c' ∷ b't' ∷ b' ' ∷ b't' ∷ b'o' ∷ b' ' ∷ b'a' ∷ b' ' ∷ b'c' ∷ b'r' ∷ b'a'
    ∷ b'n' ∷ b'e' ∷ b' ' ∷ b'a' ∷ b't' ∷ b' ' ∷ b'I' ∷ b'D' ∷ []

abbrev close_text : List ℕ
close_text =
    b'c' ∷ b'l' ∷ b'o' ∷ b's' ∷ b'e' ∷ b' ' ∷ b' ' ∷ b' ' ∷ b' ' ∷ b' ' ∷ b' ' ∷ b'C' ∷ b'l' ∷ b'o'
    ∷ b's' ∷ b'e' ∷ b' ' ∷ b'a' ∷ b'n' ∷ b' ' ∷ b'e' ∷ b'x' ∷ b'i' ∷ b's' ∷ b't' ∷ b'i' ∷ b'n'
    ∷ b'g' ∷ b' ' ∷ b'c' ∷ b'o' ∷ b'n' ∷ b'n' ∷ b'e' ∷ b'c' ∷ b't' ∷ b'i' ∷ b'o' ∷ b'n' ∷ []

abbrev test_text : List ℕ
test_text =
    b't' ∷ b'e' ∷ b's' ∷ b't' ∷ b' ' ∷ b'I' ∷ b'D' ∷ b' ' ∷ b' ' ∷ b' ' ∷ b' ' ∷ b'C' ∷ b'o' ∷ b'n'
    ∷ b'n' ∷ b'e' ∷ b'c' ∷ b't' ∷ b' ' ∷ b't' ∷ b'o' ∷ b' ' ∷ b'I' ∷ b'D' ∷ b' ' ∷ b'i' ∷ b'n'
    ∷ b' ' ∷ b't' ∷ b'e' ∷ b's' ∷ b't' ∷ b' ' ∷ b'm' ∷ b'o' ∷ b'd' ∷ b'e' ∷ b' ' ∷ b'a' ∷ b'n'
    ∷ b'd' ∷ b' ' ∷ b'e' ∷ b'x' ∷ b'e' ∷ b'c' ∷ b'u' ∷ b't' ∷ b'e' ∷ b' ' ∷ b't' ∷ b'e' ∷ b's'
    ∷ b't' ∷ b' ' ∷ b'p' ∷ b'a' ∷ b't' ∷ b't' ∷ b'e' ∷ b'r' ∷ b'n' ∷ []

abbrev action_text : List ℕ
action_text =
    b'C' ∷ b'M' ∷ b'D' ∷ b' ' ∷ b' ' ∷ b' ' ∷ b' ' ∷ b' ' ∷ b' ' ∷ b' ' ∷ b' ' ∷ b'I' ∷ b'm' ∷ b'p'
    ∷ b'l' ∷ b'e' ∷ b'm' ∷ b'e' ∷ b'n' ∷ b't' ∷ b'a' ∷ b't' ∷ b'i' ∷ b'o' ∷ b'n' ∷ b' ' ∷ b'd'
    ∷ b'e' ∷ b'f' ∷ b'i' ∷ b'n' ∷ b'e' ∷ b'd' ∷ b' ' ∷ b'c' ∷ b'o' ∷ b'm' ∷ b'm' ∷ b'a' ∷ b'n'
    ∷ b'd' ∷ b's' ∷ b' ' ∷ b't' ∷ b'o' ∷ b' ' ∷ b't' ∷ b'r' ∷ b'i' ∷ b'g' ∷ b'g' ∷ b'e' ∷ b'r'
    ∷ b' ' ∷ b'c' ∷ b'r' ∷ b'a' ∷ b'n' ∷ b'e' ∷ b' ' ∷ b'a' ∷ b'c' ∷ b't' ∷ b'i' ∷ b'o' ∷ b'n'
    ∷ b's' ∷ []

-- "crane help".
abbrev pub help_lines : List (List ℕ)
help_lines = open_text ∷ close_text ∷ test_text ∷ action_text ∷ []

abbrev pub backlog_label : List ℕ
backlog_label = b'b' ∷ b'a' ∷ b'c' ∷ b'k' ∷ b'l' ∷ b'o' ∷ b'g' ∷ b':' ∷ b' ' ∷ []

abbrev pub time_label : List ℕ
time_label = b't' ∷ b'i' ∷ b'm' ∷ b'e' ∷ b':' ∷ b' ' ∷ []

abbrev pub light_label : List ℕ
light_label = b'l' ∷ b'i' ∷ b'g' ∷ b'h' ∷ b't' ∷ b':' ∷ b' ' ∷ []

abbrev pub light_on_text : List ℕ
light_on_text = b'o' ∷ b'n' ∷ []

abbrev pub light_off_text : List ℕ
light_off_text = b'o' ∷ b'f' ∷ b'f' ∷ []

-- What crane_recv_status prints into its buffer, which has room for 199 characters and a zero.
abbrev pub status_text : CranePacket → List ℕ
status_text packet =
    backlog_label
    ++ (decimal (backlog packet)
        ++ (10
            ∷ (time_label
                ++ (decimal packet.d1
                    ++ (10
                        ∷ (light_label
                            ++ ((if packet.d2 == 0 then light_off_text else light_on_text)
                                ++ (10 ∷ []))))))))

unfoldable pub status_line : CranePacket → List ℕ
status_line packet = take 199 (status_text packet)
