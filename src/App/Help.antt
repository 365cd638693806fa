-- ===== src/App/Help.antt =====
-- help_command of main/app_main.c, and the descriptions of its table.
use tol103m_assignment_p.Base.{ℕ, List, [], ◌∷◌, ◌++◌}

abbrev shout_description : List ℕ
shout_description =
    b'/' ∷ b's' ∷ b'h' ∷ b'o' ∷ b'u' ∷ b't' ∷ b' ' ∷ b'M' ∷ b'S' ∷ b'G' ∷ b' ' ∷ b' ' ∷ b' ' ∷ b' '
    ∷ b' ' ∷ b' ' ∷ b' ' ∷ b' ' ∷ b' ' ∷ b' ' ∷ b' ' ∷ b' ' ∷ b' ' ∷ b' ' ∷ b' ' ∷ b' ' ∷ b' '
    ∷ b' ' ∷ b' ' ∷ b'B' ∷ b'r' ∷ b'o' ∷ b'a' ∷ b'd' ∷ b'c' ∷ b'a' ∷ b's' ∷ b't' ∷ b' ' ∷ b'a'
    ∷ b' ' ∷ b'm' ∷ b'e' ∷ b's' ∷ b's' ∷ b'a' ∷ b'g' ∷ b'e' ∷ b'.' ∷ []

abbrev tell_description : List ℕ
tell_description =
    b'/' ∷ b't' ∷ b'e' ∷ b'l' ∷ b'l' ∷ b' ' ∷ b'I' ∷ b'D' ∷ b' ' ∷ b'M' ∷ b'S' ∷ b'G' ∷ b' ' ∷ b'o'
    ∷ b'r' ∷ b' ' ∷ b'@' ∷ b'I' ∷ b'D' ∷ b' ' ∷ b'M' ∷ b'S' ∷ b'G' ∷ b' ' ∷ b' ' ∷ b' ' ∷ b' '
    ∷ b' ' ∷ b' ' ∷ b'S' ∷ b'e' ∷ b'n' ∷ b'd' ∷ b' ' ∷ b'a' ∷ b' ' ∷ b'm' ∷ b'e' ∷ b's' ∷ b's'
    ∷ b'a' ∷ b'g' ∷ b'e' ∷ b' ' ∷ b't' ∷ b'o' ∷ b' ' ∷ b'a' ∷ b' ' ∷ b's' ∷ b'p' ∷ b'e' ∷ b'c'
    ∷ b'i' ∷ b'f' ∷ b'i' ∷ b'c' ∷ b' ' ∷ b'n' ∷ b'o' ∷ b'd' ∷ b'e' ∷ []

abbrev ping_description : List ℕ
ping_description =
    b'/' ∷ b'p' ∷ b'i' ∷ b'n' ∷ b'g' ∷ b' ' ∷ b'I' ∷ b'D' ∷ b' ' ∷ b' ' ∷ b' ' ∷ b' ' ∷ b' ' ∷ b' '
    ∷ b' ' ∷ b' ' ∷ b' ' ∷ b' ' ∷ b' ' ∷ b' ' ∷ b' ' ∷ b' ' ∷ b' ' ∷ b' ' ∷ b' ' ∷ b' ' ∷ b' '
    ∷ b' ' ∷ b' ' ∷ b'C' ∷ b'h' ∷ b'e' ∷ b'c' ∷ b'k' ∷ b' ' ∷ b'i' ∷ b'f' ∷ b' ' ∷ b'a' ∷ b' '
    ∷ b'n' ∷ b'o' ∷ b'd' ∷ b'e' ∷ b' ' ∷ b'i' ∷ b's' ∷ b' ' ∷ b'o' ∷ b'n' ∷ b'l' ∷ b'i' ∷ b'n'
    ∷ b'e' ∷ []

abbrev date_description : List ℕ
date_description =
    b'/' ∷ b'd' ∷ b'a' ∷ b't' ∷ b'e' ∷ b' ' ∷ b' ' ∷ b' ' ∷ b' ' ∷ b' ' ∷ b' ' ∷ b' ' ∷ b' ' ∷ b' '
    ∷ b' ' ∷ b' ' ∷ b' ' ∷ b' ' ∷ b' ' ∷ b' ' ∷ b' ' ∷ b' ' ∷ b' ' ∷ b' ' ∷ b' ' ∷ b' ' ∷ b' '
    ∷ b' ' ∷ b' ' ∷ b'P' ∷ b'r' ∷ b'i' ∷ b'n' ∷ b't' ∷ b' ' ∷ b't' ∷ b'h' ∷ b'e' ∷ b' ' ∷ b'c'
    ∷ b'u' ∷ b'r' ∷ b'r' ∷ b'e' ∷ b'n' ∷ b't' ∷ b' ' ∷ b't' ∷ b'i' ∷ b'm' ∷ b'e' ∷ []

abbrev setkey_description : List ℕ
setkey_description =
    b'/' ∷ b's' ∷ b'e' ∷ b't' ∷ b'k' ∷ b'e' ∷ b'y' ∷ b' ' ∷ b'[' ∷ b'0' ∷ b'|' ∷ b'1' ∷ b']' ∷ b' '
    ∷ b' ' ∷ b' ' ∷ b' ' ∷ b' ' ∷ b' ' ∷ b' ' ∷ b' ' ∷ b' ' ∷ b' ' ∷ b' ' ∷ b' ' ∷ b' ' ∷ b' '
    ∷ b' ' ∷ b' ' ∷ b'S' ∷ b'e' ∷ b't' ∷ b' ' ∷ b't' ∷ b'h' ∷ b'e' ∷ b' ' ∷ b'e' ∷ b'n' ∷ b'c'
    ∷ b'r' ∷ b'y' ∷ b'p' ∷ b't' ∷ b'i' ∷ b'o' ∷ b'n' ∷ b' ' ∷ b'k' ∷ b'e' ∷ b'y' ∷ b' ' ∷ b't'
    ∷ b'o' ∷ b' ' ∷ b'u' ∷ b's' ∷ b'e' ∷ b'.' ∷ b' ' ∷ b' ' ∷ b'I' ∷ b'f' ∷ b' ' ∷ b'n' ∷ b'o'
    ∷ b' ' ∷ b'k' ∷ b'e' ∷ b'y' ∷ b' ' ∷ b'i' ∷ b's' ∷ b' ' ∷ b'p' ∷ b'r' ∷ b'o' ∷ b'v' ∷ b'i'
    ∷ b'd' ∷ b'e' ∷ b'd' ∷ b' ' ∷ b'e' ∷ b'n' ∷ b'c' ∷ b'r' ∷ b'y' ∷ b'p' ∷ b't' ∷ b'i' ∷ b'o'
    ∷ b'n' ∷ b' ' ∷ b'i' ∷ b's' ∷ b' ' ∷ b'd' ∷ b'i' ∷ b's' ∷ b'a' ∷ b'b' ∷ b'l' ∷ b'e' ∷ b'd' ∷ []

abbrev id_description : List ℕ
id_description =
    b'/' ∷ b'i' ∷ b'd' ∷ b' ' ∷ b' ' ∷ b' ' ∷ b' ' ∷ b' ' ∷ b' ' ∷ b' ' ∷ b' ' ∷ b' ' ∷ b' ' ∷ b' '
    ∷ b' ' ∷ b' ' ∷ b' ' ∷ b' ' ∷ b' ' ∷ b' ' ∷ b' ' ∷ b' ' ∷ b' ' ∷ b' ' ∷ b' ' ∷ b' ' ∷ b' '
    ∷ b' ' ∷ b' ' ∷ b'P' ∷ b'r' ∷ b'i' ∷ b'n' ∷ b't' ∷ b' ' ∷ b'y' ∷ b'o' ∷ b'u' ∷ b'r' ∷ b' '
    ∷ b'I' ∷ b'D' ∷ []

abbrev testenc_description : List ℕ
testenc_description =
    b'/' ∷ b't' ∷ b'e' ∷ b's' ∷ b't' ∷ b'e' ∷ b'n' ∷ b'c' ∷ b' ' ∷ b'[' ∷ b'S' ∷ b'T' ∷ b'R' ∷ b']'
    ∷ b' ' ∷ b' ' ∷ b' ' ∷ b' ' ∷ b' ' ∷ b' ' ∷ b' ' ∷ b' ' ∷ b' ' ∷ b' ' ∷ b' ' ∷ b' ' ∷ b' '
    ∷ b' ' ∷ b' ' ∷ b'R' ∷ b'u' ∷ b'n' ∷ b' ' ∷ b'S' ∷ b'T' ∷ b'R' ∷ b' ' ∷ b't' ∷ b'h' ∷ b'r'
    ∷ b'o' ∷ b'u' ∷ b'g' ∷ b'h' ∷ b' ' ∷ b'a' ∷ b' ' ∷ b'e' ∷ b'n' ∷ b'c' ∷ b'r' ∷ b'y' ∷ b'p'
    ∷ b't' ∷ b'/' ∷ b'd' ∷ b'e' ∷ b'c' ∷ b'r' ∷ b'y' ∷ b'p' ∷ b't' ∷ b' ' ∷ b'c' ∷ b'y' ∷ b'c'
    ∷ b'l' ∷ b'e' ∷ b' ' ∷ b't' ∷ b'o' ∷ b' ' ∷ b'v' ∷ b'e' ∷ b'r' ∷ b'i' ∷ b'f' ∷ b'y' ∷ b' '
    ∷ b't' ∷ b'h' ∷ b'a' ∷ b't' ∷ b' ' ∷ b'e' ∷ b'n' ∷ b'c' ∷ b'r' ∷ b'y' ∷ b'p' ∷ b't' ∷ b'i'
    ∷ b'o' ∷ b'n' ∷ b' ' ∷ b'w' ∷ b'o' ∷ b'r' ∷ b'k' ∷ b's' ∷ []

abbrev crane_description : List ℕ
crane_description =
    b'/' ∷ b'c' ∷ b'r' ∷ b'a' ∷ b'n' ∷ b'e' ∷ b' ' ∷ b'C' ∷ b'O' ∷ b'M' ∷ b'M' ∷ b'A' ∷ b'N' ∷ b'D'
    ∷ b' ' ∷ b' ' ∷ b' ' ∷ b' ' ∷ b' ' ∷ b' ' ∷ b' ' ∷ b' ' ∷ b' ' ∷ b' ' ∷ b' ' ∷ b' ' ∷ b' '
    ∷ b' ' ∷ b' ' ∷ b'/' ∷ b'c' ∷ b'r' ∷ b'a' ∷ b'n' ∷ b'e' ∷ b' ' ∷ b'h' ∷ b'e' ∷ b'l' ∷ b'p'
    ∷ b' ' ∷ b'f' ∷ b'o' ∷ b'r' ∷ b' ' ∷ b'd' ∷ b'e' ∷ b't' ∷ b'a' ∷ b'i' ∷ b'l' ∷ b's' ∷ []

abbrev help_description : List ℕ
help_description =
    b'/' ∷ b'h' ∷ b'e' ∷ b'l' ∷ b'p' ∷ b' ' ∷ b' ' ∷ b' ' ∷ b' ' ∷ b' ' ∷ b' ' ∷ b' ' ∷ b' ' ∷ b' '
    ∷ b' ' ∷ b' ' ∷ b' ' ∷ b' ' ∷ b' ' ∷ b' ' ∷ b' ' ∷ b' ' ∷ b' ' ∷ b' ' ∷ b' ' ∷ b' ' ∷ b' '
    ∷ b' ' ∷ b' ' ∷ b'P' ∷ b'r' ∷ b'i' ∷ b'n' ∷ b't' ∷ b' ' ∷ b't' ∷ b'h' ∷ b'i' ∷ b's' ∷ b' '
    ∷ b'h' ∷ b'e' ∷ b'l' ∷ b'p' ∷ []

-- The descriptions of the table, in its order.
unfoldable pub descriptions : List (List ℕ)
descriptions =
    shout_description ∷ tell_description ∷ ping_description ∷ date_description ∷ setkey_description
    ∷ id_description ∷ testenc_description ∷ crane_description ∷ help_description ∷ []

abbrev pub other_input : List ℕ
other_input =
    b'A' ∷ b'n' ∷ b'y' ∷ b' ' ∷ b'i' ∷ b'n' ∷ b'p' ∷ b'u' ∷ b't' ∷ b' ' ∷ b'n' ∷ b'o' ∷ b't' ∷ b' '
    ∷ b'p' ∷ b'r' ∷ b'e' ∷ b'c' ∷ b'e' ∷ b'd' ∷ b'e' ∷ b'd' ∷ b' ' ∷ b'b' ∷ b'y' ∷ b' ' ∷ b'a'
    ∷ b' ' ∷ 39 ∷ b'/' ∷ 39 ∷ b' ' ∷ b'o' ∷ b'r' ∷ b' ' ∷ 39 ∷ b'@' ∷ 39 ∷ b' ' ∷ b'w' ∷ b'i' ∷ b'l'
    ∷ b'l' ∷ b' ' ∷ b'b' ∷ b'e' ∷ b' ' ∷ b't' ∷ b'r' ∷ b'e' ∷ b'a' ∷ b't' ∷ b'e' ∷ b'd' ∷ b' '
    ∷ b'a' ∷ b's' ∷ b' ' ∷ b'a' ∷ b' ' ∷ b'b' ∷ b'r' ∷ b'o' ∷ b'a' ∷ b'd' ∷ b'c' ∷ b'a' ∷ b's'
    ∷ b't' ∷ b' ' ∷ b'm' ∷ b'e' ∷ b's' ∷ b's' ∷ b'a' ∷ b'g' ∷ b'e' ∷ b'.' ∷ []

-- The lines that help_command writes.
unfoldable pub help_command : List (List ℕ)
unfolding descriptions
help_command = descriptions ++ (other_input ∷ [])
