-- ===== src/Command/Sequence.antt =====
-- The sequence number of the last valid command.
use tol103m_assignment_p.Base.{◌≤◌, ◌≡◌, ◌⊎◌, arith, List, [], ◌∷◌}
use tol103m_assignment_p.Lownet.Frame.{Frame}
use tol103m_assignment_p.Lownet.Time.{Time}
use tol103m_assignment_p.Command.{
  Digests, listening, FrameType, unsigned, signed, sig1, sig2, Commands, get_frame_type, sequence,
  command_ready_next, signature_received, handle_command_frame, handle_signature_part1,
  handle_signature_part2, handle_signature_frame, command_receive, receive_as,
}

-- A pending command is not older than the last valid one.
abbrev pub IsFresh : Commands → Type 0
IsFresh s = (s.state ≡ listening) ⊎ (s.last_valid ≤ sequence s.current_cmd)

-- The last valid number does not go down, and a pending command stays fresh.
abbrev Advances : Commands → Commands → Type 0
Advances s t = IsFresh t × (s.last_valid ≤ t.last_valid)

handle_command_frame_lem :
    (d : Digests) (s : Commands) (now : Time) (f : Frame)
    → IsFresh s
    → Advances s (handle_command_frame d s now f)
unfolding handle_command_frame command_ready_next
handle_command_frame_lem d s now f h = ground arith

part1_lem :
    (d : Digests) (s : Commands) (f : Frame) → IsFresh s → Advances s (handle_signature_part1 d s f)
unfolding handle_signature_part1 signature_received command_ready_next
part1_lem d s f h = ground arith

part2_lem :
    (d : Digests) (s : Commands) (f : Frame) → IsFresh s → Advances s (handle_signature_part2 d s f)
unfolding handle_signature_part2 signature_received command_ready_next
part2_lem d s f h = ground arith

signature_frame_lem :
    (part : Commands → Frame → Commands) (s : Commands) (now : Time) (f : Frame)
    → IsFresh s
    → Advances s (part s f)
    → Advances s (handle_signature_frame part s now f)
unfolding handle_signature_frame command_ready_next
signature_frame_lem part s now f h p = ground arith

receive_as_lem :
    (d : Digests) (k : FrameType) (s : Commands) (now : Time) (f : Frame)
    → IsFresh s
    → Advances s (receive_as d k s now f)
receive_as_lem d unsigned s now f h = ground arith
receive_as_lem d signed s now f h = handle_command_frame_lem d s now f h
receive_as_lem d sig1 s now f h =
    signature_frame_lem (handle_signature_part1 d) s now f h (part1_lem d s f h)
receive_as_lem d sig2 s now f h =
    signature_frame_lem (handle_signature_part2 d) s now f h (part2_lem d s f h)

-- The frames of a list, each with the time at which it is received.
unfoldable pub commands_received : Digests → Commands → List (Time × Frame) → Commands
commands_received d s [] = s
commands_received d s ((now, f) ∷ fs) = commands_received d (command_receive d s now f) fs

-- Whatever frames are received, at whatever times: if a pending command is not older than the last
-- valid one, that is so afterwards, and the last valid number has not gone down.
pub commands_received-IsFresh :
    (d : Digests) (s : Commands) (fs : List (Time × Frame))
    → IsFresh s
    → let t = commands_received d s fs in IsFresh t × (s.last_valid ≤ t.last_valid)
unfolding commands_received command_receive
commands_received-IsFresh d s [] h = (h, omega arith)
commands_received-IsFresh d s ((now, f) ∷ fs) h =
    let (fresh, first) = receive_as_lem d (get_frame_type f) s now f h in
    let (fresh', rest) = commands_received-IsFresh d (command_receive d s now f) fs fresh in
    (fresh', omega arith)
