-- ===== src/Tests/Signed.antt =====
-- A signed command, with a digest that is always the same and a signature that is its own plaintext.
use tol103m_assignment_p.Base.{
  ℕ, ◌≤◌, ◌≡◌, ◌⊎◌, inl, refl, arith, List, [], ◌∷◌, ◌++◌, false, some, replicate,
}
use tol103m_assignment_p.Lownet.Frame.{Frame, zero_frame}
use tol103m_assignment_p.Lownet.Time.{
  compare_time, time_diff, time_to_milliseconds, time_from_milliseconds,
}
use tol103m_assignment_p.Command.{
  Digests, listening, sig1, sig2, Commands, sequence, command_execute, command_receive,
  expected_signature, get_frame_type, timed_out,
}
use tol103m_assignment_p.Command.Authentic.{Authentic, Executed, receive-Authentic}
use tol103m_assignment_p.Command.Sequence.{IsFresh, commands_received, commands_received-IsFresh}
use tol103m_assignment_p.Command.Execution.{
  IsCommand, IsSignature, IsSigned, command_executed, command_executed_again,
}
use tol103m_assignment_p.Tests.Nodes.{noon}

abbrev digest : List ℕ
digest = replicate 32 5

abbrev key : List ℕ
key = replicate 32 9

abbrev digests : Digests
digests = record { sha256 = λ bytes. some digest; rsa_public = λ signature. signature }

abbrev start : Commands
start = record {
  state = listening;
  last_valid = 1;
  command_received = record { seconds = 0; parts = 0 };
  current_cmd = zero_frame;
  hash = [];
  signature = replicate 256 0;
  key_hash = key;
  effects = [];
}

-- A TEST command with sequence number 2.
abbrev command : Frame
command = record zero_frame {
  source = 0x95;
  protocol = 0x44;
  len = 16;
  payload = 2 ∷ 0 ∷ 0 ∷ 0 ∷ 0 ∷ 0 ∷ 0 ∷ 0 ∷ 2 ∷ replicate 191 0;
}

abbrev first_half : Frame
first_half = record zero_frame {
  protocol = 0x84;
  payload = key ++ (digest ++ (replicate 128 0 ++ replicate 8 0));
}

abbrev second_half : Frame
second_half = record zero_frame {
  protocol = 0xc4;
  payload = key ++ (digest ++ (replicate 92 0 ++ (replicate 4 1 ++ (digest ++ replicate 8 0))));
}

receive-Authentic_example :
    let t = command_receive digests start noon command in
    (t.effects ≡ start.effects) ⊎ (Authentic digests start noon command × Executed start t)
receive-Authentic_example = receive-Authentic digests start noon command

commands_received-IsFresh_example :
    let t = commands_received digests start ((noon, command) ∷ (noon, first_half) ∷ []) in
    IsFresh t × (start.last_valid ≤ t.last_valid)
commands_received-IsFresh_example =
    commands_received-IsFresh digests start ((noon, command) ∷ (noon, first_half) ∷ []) (inl refl)

command-IsCommand : IsCommand digests start digest command
unfolding get_frame_type sequence
command-IsCommand = record { is_signed = refl; fresh = omega arith; hashed = refl }

at_once : timed_out noon noon ≡ false
unfolding timed_out compare_time time_diff time_to_milliseconds time_from_milliseconds
at_once = refl

first_half-IsSignature : IsSignature sig1 digest key noon noon first_half
unfolding get_frame_type
first_half-IsSignature = record {
  is_part = refl;
  for_command = refl;
  for_key = refl;
  in_time = at_once;
}

second_half-IsSignature : IsSignature sig2 digest key noon noon second_half
unfolding get_frame_type
second_half-IsSignature = record {
  is_part = refl;
  for_command = refl;
  for_key = refl;
  in_time = at_once;
}

halves-IsSigned : IsSigned digests digest key noon noon noon first_half second_half
unfolding expected_signature
halves-IsSigned = record {
  first = first_half-IsSignature;
  second = second_half-IsSignature;
  half = refl;
  verifies = refl;
}

command_executed_example :
    let t =
      commands_received digests start
        ((noon, command) ∷ (noon, first_half) ∷ (noon, second_half) ∷ []) in
    let u =
      commands_received digests start
        ((noon, command) ∷ (noon, second_half) ∷ (noon, first_half) ∷ []) in
    (t.effects ≡ start.effects ++ command_execute command)
    × (t.last_valid ≡ sequence command)
    × (u.effects ≡ start.effects ++ command_execute command)
    × (u.last_valid ≡ sequence command)
command_executed_example =
    command_executed digests start digest command first_half second_half noon noon noon
      command-IsCommand halves-IsSigned

command_executed_again_example :
    let t =
      commands_received digests start
        ((noon, command) ∷ (noon, first_half) ∷ (noon, second_half) ∷ []) in
    (command_receive digests t noon second_half).effects
    ≡ (start.effects ++ command_execute command) ++ command_execute command
command_executed_again_example =
    command_executed_again digests start digest command first_half second_half noon noon noon
      command-IsCommand halves-IsSigned noon at_once
