-- ===== src/App/Texts.antt =====
-- The lines of text of main/app_main.c and of the commands that it calls.
use tol103m_assignment_p.Base.{ℕ, List, [], ◌∷◌}

abbrev pub invalid_node_text : List ℕ
invalid_node_text =
    b'I' ∷ b'n' ∷ b'v' ∷ b'a' ∷ b'l' ∷ b'i' ∷ b'd' ∷ b' ' ∷ b'n' ∷ b'o' ∷ b'd' ∷ b'e' ∷ b' ' ∷ b'i'
    ∷ b'd' ∷ 10 ∷ []

abbrev pub no_message_text : List ℕ
no_message_text =
    b'A' ∷ b' ' ∷ b'm' ∷ b'e' ∷ b's' ∷ b's' ∷ b'a' ∷ b'g' ∷ b'e' ∷ b' ' ∷ b'm' ∷ b'u' ∷ b's' ∷ b't'
    ∷ b' ' ∷ b'b' ∷ b'e' ∷ b' ' ∷ b'p' ∷ b'r' ∷ b'o' ∷ b'v' ∷ b'i' ∷ b'd' ∷ b'e' ∷ b'd' ∷ 10 ∷ []

abbrev pub no_node_text : List ℕ
no_node_text =
    b'A' ∷ b' ' ∷ b'n' ∷ b'o' ∷ b'd' ∷ b'e' ∷ b' ' ∷ b'i' ∷ b'd' ∷ b' ' ∷ b'm' ∷ b'u' ∷ b's' ∷ b't'
    ∷ b' ' ∷ b'b' ∷ b'e' ∷ b' ' ∷ b'p' ∷ b'r' ∷ b'o' ∷ b'v' ∷ b'i' ∷ b'd' ∷ b'e' ∷ b'd' ∷ 10 ∷ []

abbrev pub key_0_text : List ℕ
key_0_text =
    b'U' ∷ b's' ∷ b'i' ∷ b'n' ∷ b'g' ∷ b' ' ∷ b's' ∷ b't' ∷ b'o' ∷ b'r' ∷ b'e' ∷ b'd' ∷ b' ' ∷ b'k'
    ∷ b'e' ∷ b'y' ∷ b' ' ∷ b'0' ∷ []

abbrev pub key_1_text : List ℕ
key_1_text =
    b'U' ∷ b's' ∷ b'i' ∷ b'n' ∷ b'g' ∷ b' ' ∷ b's' ∷ b't' ∷ b'o' ∷ b'r' ∷ b'e' ∷ b'd' ∷ b' ' ∷ b'k'
    ∷ b'e' ∷ b'y' ∷ b' ' ∷ b'1' ∷ []

abbrev pub unknown_key_text : List ℕ
unknown_key_text = b'U' ∷ b'n' ∷ b'k' ∷ b'n' ∷ b'o' ∷ b'w' ∷ b'n' ∷ b' ' ∷ b'k' ∷ b'e' ∷ b'y' ∷ []

abbrev pub invalid_command_text : List ℕ
invalid_command_text =
    b'I' ∷ b'n' ∷ b'v' ∷ b'a' ∷ b'l' ∷ b'i' ∷ b'd' ∷ b' ' ∷ b'c' ∷ b'o' ∷ b'm' ∷ b'm' ∷ b'a' ∷ b'n'
    ∷ b'd' ∷ b':' ∷ b' ' ∷ []

abbrev pub no_encryption_text : List ℕ
no_encryption_text =
    b'N' ∷ b'o' ∷ b' ' ∷ b'e' ∷ b'n' ∷ b'c' ∷ b'r' ∷ b'y' ∷ b'p' ∷ b't' ∷ b'i' ∷ b'o' ∷ b'n' ∷ b' '
    ∷ b'k' ∷ b'e' ∷ b'y' ∷ b' ' ∷ b's' ∷ b'e' ∷ b't' ∷ b'!' ∷ []

abbrev pub unencrypted_text : List ℕ
unencrypted_text =
    b'U' ∷ b'n' ∷ b'e' ∷ b'n' ∷ b'c' ∷ b'r' ∷ b'y' ∷ b'p' ∷ b't' ∷ b'e' ∷ b'd' ∷ b' ' ∷ b'p' ∷ b'a'
    ∷ b'r' ∷ b't' ∷ b' ' ∷ b'o' ∷ b'f' ∷ b' ' ∷ b'f' ∷ b'r' ∷ b'a' ∷ b'm' ∷ b'e' ∷ b' ' ∷ b'n'
    ∷ b'o' ∷ b't' ∷ b' ' ∷ b'p' ∷ b'r' ∷ b'e' ∷ b's' ∷ b'e' ∷ b'r' ∷ b'v' ∷ b'e' ∷ b'd' ∷ b'!' ∷ []

abbrev pub ivt_text : List ℕ
ivt_text =
    b'I' ∷ b'V' ∷ b'T' ∷ b' ' ∷ b'n' ∷ b'o' ∷ b't' ∷ b' ' ∷ b'p' ∷ b'r' ∷ b'e' ∷ b's' ∷ b'e' ∷ b'r'
    ∷ b'v' ∷ b'e' ∷ b'd' ∷ b'!' ∷ []

abbrev pub success_text : List ℕ
success_text =
    b'E' ∷ b'n' ∷ b'c' ∷ b'r' ∷ b'y' ∷ b'p' ∷ b't' ∷ b'/' ∷ b'D' ∷ b'e' ∷ b'c' ∷ b'r' ∷ b'y' ∷ b'p'
    ∷ b't' ∷ b' ' ∷ b's' ∷ b'u' ∷ b'c' ∷ b'c' ∷ b'e' ∷ b's' ∷ b's' ∷ b'f' ∷ b'u' ∷ b'l' ∷ []

abbrev pub failure_text : List ℕ
failure_text =
    b'E' ∷ b'n' ∷ b'c' ∷ b'r' ∷ b'y' ∷ b'p' ∷ b't' ∷ b'/' ∷ b'D' ∷ b'e' ∷ b'c' ∷ b'r' ∷ b'y' ∷ b'p'
    ∷ b't' ∷ b' ' ∷ b'f' ∷ b'a' ∷ b'i' ∷ b'l' ∷ b'e' ∷ b'd' ∷ []

-- The second line after a failure.
abbrev pub same_text : List ℕ
same_text = b'S' ∷ b'a' ∷ b'm' ∷ b'e' ∷ []

abbrev pub different_text : List ℕ
different_text = b'D' ∷ b'i' ∷ b'f' ∷ b'f' ∷ b'e' ∷ b'r' ∷ b'e' ∷ b'n' ∷ b't' ∷ []

abbrev pub content_label : List ℕ
content_label =
    b'U' ∷ b'n' ∷ b'e' ∷ b'n' ∷ b'c' ∷ b'r' ∷ b'y' ∷ b'p' ∷ b't' ∷ b'e' ∷ b'd' ∷ b' ' ∷ b'c' ∷ b'o'
    ∷ b'n' ∷ b't' ∷ b'e' ∷ b'n' ∷ b't' ∷ b':' ∷ b' ' ∷ []

abbrev pub vector_label : List ℕ
vector_label =
    b'I' ∷ b'V' ∷ b'T' ∷ b':' ∷ b' ' ∷ b' ' ∷ b' ' ∷ b' ' ∷ b' ' ∷ b' ' ∷ b' ' ∷ b' ' ∷ b' ' ∷ b' '
    ∷ b' ' ∷ b' ' ∷ b' ' ∷ b' ' ∷ b' ' ∷ b' ' ∷ b' ' ∷ []

abbrev pub cipher_label : List ℕ
cipher_label =
    b'E' ∷ b'n' ∷ b'c' ∷ b'r' ∷ b'y' ∷ b'p' ∷ b't' ∷ b'e' ∷ b'd' ∷ b' ' ∷ b'c' ∷ b'o' ∷ b'n' ∷ b't'
    ∷ b'e' ∷ b'n' ∷ b't' ∷ b':' ∷ b' ' ∷ b' ' ∷ b' ' ∷ []
