-- ===== src/App.antt =====
-- main/app_main.c: the table of commands, the protocols that the components register at start, and
-- what the loop does with a line. Text is the bytes of a C string up to the zero.
pub mod Delivered
pub mod Help
pub mod Lines
pub mod Node
pub mod Pinged
pub mod Session
pub mod Start
pub mod Texts
pub mod Typed
use tol103m_assignment_p.Base.{ℕ, List, [], ◌∷◌, Option, none, some, Bool, ◌==◌, if◌then◌else◌}
use tol103m_assignment_p.Lownet.Protocols.{Protocols, no_protocols, lownet_register_protocol}
use tol103m_assignment_p.Cli.{Command, find_command, strtok, token}
use tol103m_assignment_p.Chat.{chat_protocol}
use tol103m_assignment_p.Ping.{ping_protocol}
use tol103m_assignment_p.Crane.Packet.{crane_proto}

-- The handlers, by name.
pub data Handler : Type 0 where
  chat_receive ping_receive crane_receive : Handler

-- The table after chat_init, ping_init, command_init, which registers nothing, and crane_init.
unfoldable pub registered : Protocols Handler
registered =
    let chat = (lownet_register_protocol no_protocols chat_protocol chat_receive).0 in
    let ping = (lownet_register_protocol chat ping_protocol ping_receive).0 in
    (lownet_register_protocol ping crane_proto crane_receive).0

-- The functions of the command table, by name.
pub data Function : Type 0 where
  shout_command tell_command ping_command date_command crypt_setkey_command id_command
        crypt_test_command crane_command help_command :
      Function

abbrev entry : List ℕ → Function → Command Function
entry name fun = record { name = name; fun = fun }

unfoldable pub commands : List (Command Function)
commands =
    entry (b's' ∷ b'h' ∷ b'o' ∷ b'u' ∷ b't' ∷ []) shout_command
    ∷ entry (b't' ∷ b'e' ∷ b'l' ∷ b'l' ∷ []) tell_command
    ∷ entry (b'p' ∷ b'i' ∷ b'n' ∷ b'g' ∷ []) ping_command
    ∷ entry (b'd' ∷ b'a' ∷ b't' ∷ b'e' ∷ []) date_command
    ∷ entry (b's' ∷ b'e' ∷ b't' ∷ b'k' ∷ b'e' ∷ b'y' ∷ []) crypt_setkey_command
    ∷ entry (b'i' ∷ b'd' ∷ []) id_command
    ∷ entry (b't' ∷ b'e' ∷ b's' ∷ b't' ∷ b'e' ∷ b'n' ∷ b'c' ∷ []) crypt_test_command
    ∷ entry (b'c' ∷ b'r' ∷ b'a' ∷ b'n' ∷ b'e' ∷ []) crane_command
    ∷ entry (b'h' ∷ b'e' ∷ b'l' ∷ b'p' ∷ []) help_command
    ∷ []

-- What a line leads to: nothing, an error line with the unknown name, a call with its argument, where
-- `none` is NULL, or strcmp on the NULL that strtok returns for a line without a name.
pub data Reaction : Type 0 where
  ignores faults : Reaction
  invalid_command : List ℕ → Reaction
  calls : Function → Option (List ℕ) → Reaction

abbrev newline : ℕ
newline = 10

-- The body of the loop of app_main on a line that was read.
unfoldable pub handle_line : List ℕ → Reaction
handle_line [] = ignores
handle_line (first ∷ line) =
    if first == b'/'
    then (elim (strtok b' ' line) [
      | none ↦ faults
      | some (name, rest) ↦ (elim (find_command name commands) [
        | none ↦ invalid_command name
        | some f ↦ calls f (token (strtok newline rest))
      ])
    ])
    else (if first == b'@'
        then calls tell_command (some line)
        else calls shout_command (some (first ∷ line)))
