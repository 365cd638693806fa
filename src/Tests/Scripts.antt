-- ===== src/Tests/Scripts.antt =====
-- The crane's scripts with a list as the queue.
use tol103m_assignment_p.Base.{ℕ, ◌≡◌, ◌⊎◌, refl, arith, List, [], ◌∷◌, ◌++◌, some}
use tol103m_assignment_p.Lownet.Frame.{Frame}
use tol103m_assignment_p.Crane.Packet.{packet_of_bytes}
use tol103m_assignment_p.Crane.Machine.{
  Crane, World, disconnected, connected, crane_send, crane_recv_status, crane_dispatch,
  crane_receive, receive_all, delay, crane_disconnect, handshake, handshake_reply, syn_packet,
  packets, crane_init, crane_connect,
}
use tol103m_assignment_p.Crane.Machine.Phases.{close_packet}
use tol103m_assignment_p.Cli.{strtok}
use tol103m_assignment_p.Lownet.Text.{digits}
use tol103m_assignment_p.Crane.Texts.{status_text, status_line}
use tol103m_assignment_p.Crane.Script.{crane_command, crane_word, crane_test}
use tol103m_assignment_p.Crane.Script.Written.{Answers, crane_command-Answers}
use tol103m_assignment_p.Crane.Script.Preserved.{IsClient}
use tol103m_assignment_p.Crane.Script.Reach.{commanded, started, stepped, Reachable-IsClient}
use tol103m_assignment_p.Crane.Script.Opening.{crane_test_lem}
use tol103m_assignment_p.Crane.Script.Rows.{each, numbered}
use tol103m_assignment_p.Crane.Script.Pattern.{test_actions, crane_test_completes}
use tol103m_assignment_p.Tests.Nodes.{rubbish, list_queue, list_queue-IsAckQueue}
use tol103m_assignment_p.Tests.Actions.{client, syn_ack_frame}

-- A status that acknowledges `s`, with nothing left to do.
abbrev done : ℕ → Frame
done s = record rubbish { payload = 2 ∷ 2 ∷ s ∷ 0 ∷ 0 ∷ 0 ∷ 0 ∷ 0 ∷ [] }

-- "open 0x96".
abbrev open_line : List ℕ
open_line = b'o' ∷ b'p' ∷ b'e' ∷ b'n' ∷ b' ' ∷ b'0' ∷ b'x' ∷ b'9' ∷ b'6' ∷ []

abbrev fresh : Crane (List ℕ)
fresh = client [] disconnected

Reachable-IsClient_example :
    IsClient
      (crane_command list_queue (some open_line) (record {
        client = crane_init list_queue fresh;
        arrivals = (syn_ack_frame ∷ []) ∷ [];
      })).client
Reachable-IsClient_example =
    Reachable-IsClient list_queue
      (crane_command list_queue (some open_line) (record {
        client = crane_init list_queue fresh;
        arrivals = (syn_ack_frame ∷ []) ∷ [];
      })).client
      (stepped _ _ (started fresh)
        (commanded (crane_init list_queue fresh) (some open_line) ((syn_ack_frame ∷ []) ∷ [])))

-- "close", while the crane's status arrives.
abbrev close_line : List ℕ
close_line = b'c' ∷ b'l' ∷ b'o' ∷ b's' ∷ b'e' ∷ []

abbrev status_arrives : World (List ℕ)
status_arrives = record { client = client [] connected; arrivals = (done 1 ∷ []) ∷ [] }

crane_command-Answers_example :
    Answers status_arrives (crane_command list_queue (some close_line) status_arrives)
crane_command-Answers_example = crane_command-Answers list_queue (some close_line) status_arrives

status_written :
    (crane_command list_queue (some close_line) status_arrives).client.written
    ≡ status_text (packet_of_bytes (done 1).payload) ∷ []
unfolding crane_command crane_word crane_disconnect delay receive_all crane_receive crane_dispatch
    crane_recv_status status_line crane_send packet_of_bytes strtok digits
status_written = refl

abbrev silent : World (List ℕ)
silent = record { client = fresh; arrivals = [] }

crane_test_lem_example :
    let d = (crane_test list_queue 0x96 silent).client in
    (d.phase ≡ disconnected)
    ⊎ ((d.phase ≡ handshake)
        × (d.crane ≡ 0x96)
        × (d.seq ≡ 0)
        × (packets d ≡ packets silent.client ++ (syn_packet 9 ∷ []))
        × (crane_connect d 0x95 ≡ d))
crane_test_lem_example = crane_test_lem list_queue 0x96 silent 0x95

abbrev first_row : List Frame
first_row = done 1 ∷ done 2 ∷ done 3 ∷ done 4 ∷ []

abbrev second_row : List Frame
second_row = done 5 ∷ done 6 ∷ []

abbrev third_row : List Frame
third_row = done 7 ∷ done 8 ∷ done 9 ∷ done 10 ∷ []

crane_test_completes_example :
    let w : World (List ℕ) = record {
      client = fresh;
      arrivals = (syn_ack_frame ∷ []) ∷ each first_row (each second_row (each third_row []));
    } in
    let d = (crane_test list_queue 0x96 w).client in
    (d.phase ≡ disconnected)
    × (d.seq ≡ 0)
    × (packets d
        ≡ packets fresh
          ++ (syn_packet 9
              ∷ handshake_reply (packet_of_bytes syn_ack_frame.payload)
              ∷ (numbered 1 test_actions ++ (close_packet 11 ∷ []))))
unfolding packet_of_bytes
crane_test_completes_example =
    crane_test_completes list_queue list_queue-IsAckQueue 0x96 fresh syn_ack_frame first_row
      second_row third_row [] (omega arith) refl (refl, refl) refl refl refl
      (
        ((refl, refl, refl), refl),
        (
          ((refl, refl, refl), refl),
          (((refl, refl, refl), refl), (((refl, refl, refl), refl), tt)),
        ),
      )
      (((refl, refl, refl), refl), (((refl, refl, refl), refl), tt))
      (
        ((refl, refl, refl), refl),
        (
          ((refl, refl, refl), refl),
          (((refl, refl, refl), refl), (((refl, refl, refl), refl), tt)),
        ),
      )
