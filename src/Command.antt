-- ===== src/Command.antt =====
-- managed_components/command: signed commands. SHA-256 and RSA are mbedtls's, and parameters; the
-- network time is an argument of each call. The effects of commands are collected in order.
pub mod Authentic
pub mod Sequence
pub mod Execution
use tol103m_assignment_p.Base.{
  ℕ, ◌+◌, ◌-◌, ◌*◌, ◌/◌, ◌%◌, ◌^◌, List, [], ◌∷◌, ◌++◌, Bool, true, false, not, Option, none, some,
  ◌==◌, ltb, bit_and, if◌then◌else◌, u8, take, drop, replicate, get_or, copy_over,
}
use tol103m_assignment_p.Lownet.Frame.{Frame, zero_frame, frame_bytes}
use tol103m_assignment_p.Lownet.Time.{Time, Sign, minus_one, zero, one, compare_time, time_diff}
use tol103m_assignment_p.Lownet.Net.{time_of_bytes}
use tol103m_assignment_p.Utility.{buffers_equal}

-- mbedtls_sha256: `none` for a non-zero status. mbedtls_rsa_public with the key that command_init
-- parsed: what is in the output buffer afterwards; its status is not looked at.
pub record Digests : Type 0 where
  pub sha256 : List ℕ → Option (List ℕ)
  pub rsa_public : List ℕ → List ℕ

pub data State : Type 0 where
  listening wait_sig wait_sig1 wait_sig2 : State

pub data FrameType : Type 0 where
  unsigned signed sig1 sig2 : FrameType

-- What command_execute calls: lownet_set_time, or ping with a node, a payload and a length.
pub data Effect : Type 0 where
  sets_time : Time → Effect
  pings : ℕ → List ℕ → ℕ → Effect

pub record Commands : Type 0 where
  pub state : State
  pub last_valid : ℕ
  pub command_received : Time
  pub current_cmd : Frame
  pub hash : List ℕ
  pub signature : List ℕ
  pub key_hash : List ℕ
  pub effects : List Effect

-- Of the two bits, 0b11 is what remains.
unfoldable pub get_frame_type : Frame → FrameType
get_frame_type f =
    let bits = bit_and f.protocol 0b11000000 / 2 ^ 6 in
    if bits == 0
    then unsigned
    else (if bits == 1 then signed else (if bits == 2 then sig1 else sig2))

-- The fields of cmd_packet_t in a payload; `sequence` is a little-endian uint64_t.
abbrev le_value : List ℕ → ℕ
le_value [] = 0
le_value (b ∷ bs) = b + 256 * le_value bs

unfoldable pub sequence : Frame → ℕ
sequence f = le_value (take 8 f.payload)

abbrev pub command_type : Frame → ℕ
command_type f = get_or f.payload 8 0

abbrev pub contents : Frame → List ℕ
contents f = drop 12 f.payload

-- The fields of cmd_signature_t in a payload.
abbrev pub hash_key : Frame → List ℕ
hash_key f = take 32 f.payload

abbrev pub hash_msg : Frame → List ℕ
hash_msg f = take 32 (drop 32 f.payload)

abbrev pub sig_part : Frame → List ℕ
sig_part f = take 128 (drop 64 f.payload)

abbrev pub zero_time : Time
zero_time = record { seconds = 0; parts = 0 }

unfoldable pub command_ready_next : Commands → Commands
command_ready_next s = record s {
  state = listening;
  current_cmd = zero_frame;
  command_received = zero_time;
  hash = replicate 32 0;
  signature = replicate 256 0;
}

unfoldable pub expected_signature : List ℕ → List ℕ
expected_signature hash = replicate 220 0 ++ (replicate 4 1 ++ hash)

-- The switch of command_execute: TIME, TEST, or nothing.
unfoldable pub command_execute : Frame → List Effect
command_execute f =
    if command_type f == 1
    then sets_time (time_of_bytes (contents f)) ∷ []
    else (if command_type f == 2
        then pings f.source (contents f) (u8 (f.len + 256 - 12)) ∷ []
        else [])

abbrev is_one : Sign → Bool
is_one one = true
is_one _ = false

abbrev pub timeout : Time
timeout = record { seconds = 10; parts = 0 }

-- The time since the command frame is more than ten seconds.
unfoldable pub timed_out : Time → Time → Bool
timed_out received now = is_one (compare_time (time_diff received now) timeout)

-- `part` is handle_signature_part1 or handle_signature_part2, by the frame's type.
unfoldable pub handle_signature_frame :
    (Commands → Frame → Commands) → Commands → Time → Frame → Commands
handle_signature_frame part s now f =
    if not (buffers_equal (hash_msg f) s.hash)
    then s
    else (if timed_out s.command_received now
        then command_ready_next s
        else (if not (buffers_equal s.key_hash (hash_key f)) then s else part s f))

module _ (d : Digests) where
  unfoldable pub verify_signature : Commands → Bool
  verify_signature s = buffers_equal (d.rsa_public s.signature) (expected_signature s.hash)

  unfoldable pub signature_received : Commands → Commands
  signature_received s = if not (verify_signature s) then command_ready_next s else record s {
    last_valid = sequence s.current_cmd;
    effects = s.effects ++ command_execute s.current_cmd;
  }

  unfoldable pub handle_command_frame : Commands → Time → Frame → Commands
  handle_command_frame s now f =
      if ltb (sequence f) s.last_valid then s else (elim (d.sha256 (frame_bytes f)) [
        | none ↦ command_ready_next s
        | some digest ↦ record (command_ready_next s) {
          command_received = now;
          hash = digest;
          current_cmd = f;
          state = wait_sig;
        }
      ])

  unfoldable pub handle_signature_part1 : Commands → Frame → Commands
  handle_signature_part1 s f =
      let t = record s { signature = copy_over s.signature (sig_part f) 128 } in
      elim s.state [
        | listening ↦ t
        | wait_sig ↦ record t { state = wait_sig2 }
        | wait_sig1 ↦ signature_received t
        | wait_sig2 ↦ t
      ]

  unfoldable pub handle_signature_part2 : Commands → Frame → Commands
  handle_signature_part2 s f =
      let t = record s { signature = take 128 s.signature ++ sig_part f } in
      elim s.state [
        | listening ↦ t
        | wait_sig ↦ record t { state = wait_sig1 }
        | wait_sig1 ↦ t
        | wait_sig2 ↦ signature_received t
      ]

  -- The switch of command_receive on the frame's type.
  abbrev pub receive_as : FrameType → Commands → Time → Frame → Commands
  receive_as unsigned s now f = s
  receive_as signed s now f = handle_command_frame s now f
  receive_as sig1 s now f = handle_signature_frame handle_signature_part1 s now f
  receive_as sig2 s now f = handle_signature_frame handle_signature_part2 s now f

  unfoldable pub command_receive : Commands → Time → Frame → Commands
  command_receive s now f = receive_as (get_frame_type f) s now f

  -- command_init with the key's PEM text. `parsed` is whether mbedtls parses it; if it does not, or the
  -- digest fails, the key's digest stays as it was.
  unfoldable pub command_init : Commands → Bool → List ℕ → Commands
  command_init s parsed pem = record (command_ready_next s) {
    last_valid = 0;
    key_hash =
        if parsed
        then (elim (d.sha256 pem) [ none ↦ s.key_hash | some digest ↦ digest ])
        else s.key_hash;
  }
