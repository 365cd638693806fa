-- ===== src/Crane/Script.antt =====
-- crane_wait_until_idle, crane_test and crane_command of managed_components/crane/crane.c. What is
-- logged is left out.
pub mod Preserved
pub mod Reach
pub mod Opening
pub mod Rows
pub mod Pattern
pub mod Written
use tol103m_assignment_p.Base.{
  ℕ, zero, suc, ◌+◌, List, [], ◌∷◌, ◌++◌, Bool, Option, none, some, ◌==◌, if◌then◌else◌, bit_or, u8,
  drop, bytes_eq,
}
use tol103m_assignment_p.Utility.{node_argument}
use tol103m_assignment_p.Cli.{strtok}
use tol103m_assignment_p.Crane.Packet.{
  crane_syn, crane_test_flag, crane_stop, crane_fwd, crane_rev, crane_up, crane_down,
  crane_light_on, crane_light_off,
}
use tol103m_assignment_p.Crane.Machine.{
  AckQueue, Crane, World, Phase, handshake, is_connected, syn_packet, crane_send, crane_connect,
  delay, crane_disconnect, write_lines,
}
use tol103m_assignment_p.Crane.Texts.{missing_command_text, missing_id_text, help_lines}
use tol103m_assignment_p.Crane.Action.{crane_action}

-- The client after the SYN of crane_test, whatever state it was in.
unfoldable pub test_syn : {Q : Type 0} → ℕ → Crane Q → Crane Q
test_syn id c =
    crane_send (record c { crane = id; phase = handshake; seq = 0 }) id
      (syn_packet (bit_or crane_syn crane_test_flag))

abbrev pub writes : {Q : Type 0} → World Q → List (List ℕ) → World Q
writes w lines = record w { client = write_lines w.client lines }

-- The switch of crane_command on the first letter; `none` is an invalid command.
abbrev pub letter_action : ℕ → Option ℕ
letter_action c =
    if c == b'f'
    then some crane_fwd
    else (if c == b'b'
        then some crane_rev
        else (if c == b'u'
            then some crane_up
            else (if c == b'd'
                then some crane_down
                else (if c == b'o'
                    then some crane_light_on
                    else (if c == b'O'
                        then some crane_light_off
                        else (if c == b's' then some crane_stop else none))))))

abbrev pub first_letter : List ℕ → ℕ
first_letter [] = 0
first_letter (c ∷ cs) = c

module _ (os : AckQueue) where
  open os use {Queue}

  -- The loop of crane_wait_until_idle, by the rounds left.
  unfoldable pub wait_idle : ℕ → World Queue → World Queue
  wait_idle zero w = w
  wait_idle (suc n) w =
      let rest = wait_idle n (delay os w) in if (w.client).last_backlog == 0 then w else rest

  -- The loop of crane_test that waits for the handshake, by the rounds left.
  unfoldable pub wait_connected : ℕ → World Queue → World Queue
  wait_connected zero w = w
  wait_connected (suc n) w =
      let rest = wait_connected n (delay os w) in if is_connected (w.client).phase then w else rest

  -- Calls of crane_action in a row, whose values are not looked at.
  unfoldable pub act_all : List ℕ → World Queue → World Queue
  act_all [] w = w
  act_all (a ∷ rest) w = act_all rest (crane_action os a w).1

  -- From the handshake to the end of crane_test.
  unfoldable pub test_pattern : World Queue → World Queue
  test_pattern w =
      let forth = act_all (crane_light_on ∷ crane_fwd ∷ crane_fwd ∷ crane_rev ∷ []) w in
      let lowered = act_all (crane_down ∷ crane_down ∷ []) (wait_idle 100 forth) in
      let back =
        act_all (crane_up ∷ crane_up ∷ crane_rev ∷ crane_light_off ∷ []) (wait_idle 100 lowered) in
      crane_disconnect os (wait_idle 100 back)

  unfoldable pub crane_test : ℕ → World Queue → World Queue
  crane_test id w =
      let waited = wait_connected 30 (record w { client = test_syn id w.client }) in
      if is_connected (waited.client).phase then test_pattern waited else waited

  abbrev pub opened : World Queue → Option (List ℕ × List ℕ) → World Queue
  opened w none = writes w (missing_id_text ∷ [])
  opened w (some (id, rest)) = record w { client = crane_connect w.client (node_argument id rest) }

  abbrev pub tested : World Queue → Option (List ℕ × List ℕ) → World Queue
  tested w none = writes w (missing_id_text ∷ [])
  tested w (some (id, rest)) = crane_test (node_argument id rest) w

  abbrev pub acted : World Queue → Option ℕ → World Queue
  acted w none = w
  acted w (some action) = (crane_action os action w).1

  -- crane_command on the first token, and the text behind it.
  unfoldable pub crane_word : List ℕ → List ℕ → World Queue → World Queue
  crane_word command rest w =
      if bytes_eq command (b'h' ∷ b'e' ∷ b'l' ∷ b'p' ∷ [])
      then writes w help_lines
      else (if bytes_eq command (b'o' ∷ b'p' ∷ b'e' ∷ b'n' ∷ [])
          then opened w (strtok b' ' rest)
          else (if bytes_eq command (b'c' ∷ b'l' ∷ b'o' ∷ b's' ∷ b'e' ∷ [])
              then crane_disconnect os w
              else (if bytes_eq command (b't' ∷ b'e' ∷ b's' ∷ b't' ∷ [])
                  then tested w (strtok b' ' rest)
                  else acted w (letter_action (first_letter command)))))

  abbrev pub worded : World Queue → Option (List ℕ × List ℕ) → World Queue
  worded w none = writes w (missing_command_text ∷ [])
  worded w (some (command, rest)) = crane_word command rest w

  -- `none` is a NULL argument.
  unfoldable pub crane_command : Option (List ℕ) → World Queue → World Queue
  crane_command none w = writes w (missing_command_text ∷ [])
  crane_command (some args) w = worded w (strtok b' ' args)
