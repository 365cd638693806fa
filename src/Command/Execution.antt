-- ===== src/Command/Execution.antt =====
-- A command frame and the two halves of its signature, in either order.
use tol103m_assignment_p.Base.{
  ℕ, ◌≤◌, ◌≡◌, ap, ◌∙◌, arith, List, [], ◌∷◌, ◌++◌, true, false, some, length, take, replicate,
  copy_over, take-copy_over, take-append, take-all, bytes_eq_self,
}
use tol103m_assignment_p.Utility.{buffers_equal}
use tol103m_assignment_p.Lownet.Frame.{Frame, frame_bytes}
use tol103m_assignment_p.Lownet.Time.{Time}
use tol103m_assignment_p.Command.{
  Digests, State, wait_sig, wait_sig1, wait_sig2, FrameType, signed, sig1, sig2, Commands,
  get_frame_type, sequence, hash_key, hash_msg, sig_part, command_ready_next, expected_signature,
  command_execute, timed_out, verify_signature, signature_received, handle_command_frame,
  handle_signature_part1, handle_signature_part2, handle_signature_frame, command_receive,
  receive_as,
}
use tol103m_assignment_p.Command.Sequence.{commands_received}

buffers_equal_self : (a : List ℕ) → buffers_equal a a ≡ true
unfolding buffers_equal
buffers_equal_self a = bytes_eq_self a

-- A signature frame of type k for a command with this hash, under the known key, that arrives in time.
pub record IsSignature (k : FrameType) (digest key : List ℕ) (received now : Time) (f : Frame)
    : Type 0 where
  pub is_part : get_frame_type f ≡ k
  pub for_command : hash_msg f ≡ digest
  pub for_key : hash_key f ≡ key
  pub in_time : timed_out received now ≡ false

accepted_lem :
    (part : Commands → Frame → Commands) (k : FrameType) (s : Commands) (now : Time) (f : Frame)
    → IsSignature k s.hash s.key_hash s.command_received now f
    → handle_signature_frame part s now f ≡ part s f
unfolding handle_signature_frame
accepted_lem part k s now f i =
    let same : buffers_equal (hash_msg f) s.hash ≡ true =
      ap (λ (h : List ℕ). buffers_equal h s.hash) i.for_command ∙ buffers_equal_self s.hash in
    let key : buffers_equal s.key_hash (hash_key f) ≡ true =
      ap (λ (h : List ℕ). buffers_equal s.key_hash h) i.for_key ∙ buffers_equal_self s.key_hash in
    let time = i.in_time in ground arith

receive_sig1 :
    (d : Digests) (s : Commands) (now : Time) (f : Frame)
    → IsSignature sig1 s.hash s.key_hash s.command_received now f
    → command_receive d s now f ≡ handle_signature_part1 d s f
unfolding command_receive
receive_sig1 d s now f i =
    ap (λ (k : FrameType). receive_as d k s now f) i.is_part
    ∙ accepted_lem (handle_signature_part1 d) sig1 s now f i

receive_sig2 :
    (d : Digests) (s : Commands) (now : Time) (f : Frame)
    → IsSignature sig2 s.hash s.key_hash s.command_received now f
    → command_receive d s now f ≡ handle_signature_part2 d s f
unfolding command_receive
receive_sig2 d s now f i =
    ap (λ (k : FrameType). receive_as d k s now f) i.is_part
    ∙ accepted_lem (handle_signature_part2 d) sig2 s now f i

-- What signature_received leaves when the signature is valid.
unfoldable verified : Commands → Commands
verified s = record s {
  last_valid = sequence s.current_cmd;
  effects = s.effects ++ command_execute s.current_cmd;
}

signature_received-valid :
    (d : Digests) (s : Commands)
    → d.rsa_public s.signature ≡ expected_signature s.hash
    → signature_received d s ≡ verified s
unfolding signature_received verify_signature verified
signature_received-valid d s h =
    let ok : buffers_equal (d.rsa_public s.signature) (expected_signature s.hash) ≡ true =
      ap (λ (x : List ℕ). buffers_equal x (expected_signature s.hash)) h
      ∙ buffers_equal_self (expected_signature s.hash) in
    ground arith

-- The state after an accepted command frame.
unfoldable pub pending : Commands → Time → Frame → List ℕ → Commands
pending s now c digest = record (command_ready_next s) {
  command_received = now;
  hash = digest;
  current_cmd = c;
  state = wait_sig;
}

-- The frame c is accepted as a new command, with this hash.
pub record IsCommand (d : Digests) (s : Commands) (digest : List ℕ) (c : Frame) : Type 0 where
  pub is_signed : get_frame_type c ≡ signed
  pub fresh : s.last_valid ≤ sequence c
  pub hashed : d.sha256 (frame_bytes c) ≡ some digest

receive_command :
    (d : Digests) (s : Commands) (now : Time) (c : Frame) (digest : List ℕ)
    → IsCommand d s digest c
    → command_receive d s now c ≡ pending s now c digest
unfolding command_receive handle_command_frame pending
receive_command d s now c digest i =
    let fresh = i.fresh in
    let hashed = i.hashed in
    let handled : handle_command_frame d s now c ≡ pending s now c digest = ground arith in
    ap (λ (k : FrameType). receive_as d k s now c) i.is_signed ∙ handled

-- The signature frames f1 and f2 carry a valid signature of the hash.
pub record IsSigned (d : Digests) (digest key : List ℕ) (received now1 now2 : Time) (f1 f2 : Frame)
    : Type 0 where
  pub first : IsSignature sig1 digest key received now1 f1
  pub second : IsSignature sig2 digest key received now2 f2
  pub half : length (sig_part f1) ≡ 128
  pub verifies : d.rsa_public (sig_part f1 ++ sig_part f2) ≡ expected_signature digest

signature_12 :
    (p q : List ℕ) → length p ≡ 128 → take 128 (copy_over (replicate 256 0) p 128) ++ q ≡ p ++ q
signature_12 p q h = ap (λ (x : List ℕ). x ++ q) (take-copy_over 128 (replicate 256 0) p h)

signature_21 :
    (p q : List ℕ) → length p ≡ 128 → copy_over (take 128 (replicate 256 0) ++ q) p 128 ≡ p ++ q
signature_21 p q h = ap (λ (x : List ℕ). x ++ q) (take-all 128 p h)

module _ (d : Digests) (s : Commands) (digest : List ℕ) (c f1 f2 : Frame) (now now1 now2 : Time)
    (command : IsCommand d s digest c)
    (signature : IsSigned d digest s.key_hash now now1 now2 f1 f2) where
  -- The state that both orders reach, with the halves' bytes and what is left of the state machine.
  unfoldable executed_from : State → Commands
  executed_from w =
      verified
        (record (pending s now c digest) { signature = sig_part f1 ++ sig_part f2; state = w })

  verified_lem :
      (w : State) (sig : List ℕ)
      → sig ≡ sig_part f1 ++ sig_part f2
      → signature_received d (record (pending s now c digest) { signature = sig; state = w })
        ≡ executed_from w
  unfolding executed_from verified pending
  verified_lem w sig e =
      let r = λ (x : List ℕ). record (pending s now c digest) { signature = x; state = w } in
      ap (λ (x : List ℕ). signature_received d (r x)) e
      ∙ signature_received-valid d (r (sig_part f1 ++ sig_part f2)) signature.verifies

  received_12 :
      commands_received d s ((now, c) ∷ (now1, f1) ∷ (now2, f2) ∷ []) ≡ executed_from wait_sig2
  unfolding commands_received pending command_ready_next handle_signature_part1
      handle_signature_part2
  received_12 =
      let e0 = receive_command d s now c digest command in
      let e1 = receive_sig1 d (pending s now c digest) now1 f1 signature.first in
      let q = handle_signature_part1 d (pending s now c digest) f1 in
      let e2 = receive_sig2 d q now2 f2 signature.second in
      let e3 =
        verified_lem wait_sig2 (take 128 q.signature ++ sig_part f2)
          (signature_12 (sig_part f1) (sig_part f2) signature.half) in
      ap (λ (t : Commands). command_receive d (command_receive d t now1 f1) now2 f2) e0
      ∙ (ap (λ (t : Commands). command_receive d t now2 f2) e1 ∙ (e2 ∙ e3))

  received_21 :
      commands_received d s ((now, c) ∷ (now2, f2) ∷ (now1, f1) ∷ []) ≡ executed_from wait_sig1
  unfolding commands_received pending command_ready_next handle_signature_part1
      handle_signature_part2
  received_21 =
      let e0 = receive_command d s now c digest command in
      let e1 = receive_sig2 d (pending s now c digest) now2 f2 signature.second in
      let q = handle_signature_part2 d (pending s now c digest) f2 in
      let e2 = receive_sig1 d q now1 f1 signature.first in
      let e3 =
        verified_lem wait_sig1 (copy_over q.signature (sig_part f1) 128)
          (signature_21 (sig_part f1) (sig_part f2) signature.half) in
      ap (λ (t : Commands). command_receive d (command_receive d t now2 f2) now1 f1) e0
      ∙ (ap (λ (t : Commands). command_receive d t now1 f1) e1 ∙ (e2 ∙ e3))

  -- An accepted command frame and then both halves of a valid signature, in time and in either order,
  -- append the command's effects once and make its sequence number the last valid one.
  pub command_executed :
      let t = commands_received d s ((now, c) ∷ (now1, f1) ∷ (now2, f2) ∷ []) in
      let u = commands_received d s ((now, c) ∷ (now2, f2) ∷ (now1, f1) ∷ []) in
      (t.effects ≡ s.effects ++ command_execute c)
      × (t.last_valid ≡ sequence c)
      × (u.effects ≡ s.effects ++ command_execute c)
      × (u.last_valid ≡ sequence c)
  unfolding executed_from verified pending command_ready_next
  command_executed = (
    ap (λ (t : Commands). t.effects) received_12,
    ap (λ (t : Commands). t.last_valid) received_12,
    ap (λ (t : Commands). t.effects) received_21,
    ap (λ (t : Commands). t.last_valid) received_21,
  )

  -- When the second half has completed the signature of a command and is received again in time, the
  -- command's effects are appended again: execution does not reset the state.
  pub command_executed_again :
      (now3 : Time)
      → timed_out now now3 ≡ false
      → let t = commands_received d s ((now, c) ∷ (now1, f1) ∷ (now2, f2) ∷ []) in
        (command_receive d t now3 f2).effects
        ≡ (s.effects ++ command_execute c) ++ command_execute c
  unfolding executed_from verified pending command_ready_next handle_signature_part2
  command_executed_again now3 time =
      let again : IsSignature sig2 digest s.key_hash now now3 f2 = record {
        is_part = signature.second.is_part;
        for_command = signature.second.for_command;
        for_key = signature.second.for_key;
        in_time = time;
      } in
      let t = executed_from wait_sig2 in
      let e = receive_sig2 d t now3 f2 again in
      let r = record t { signature = take 128 t.signature ++ sig_part f2 } in
      let sig : r.signature ≡ sig_part f1 ++ sig_part f2 =
        ap (λ (x : List ℕ). x ++ sig_part f2)
          (take-append 128 (sig_part f1) (sig_part f2) signature.half) in
      let valid = signature_received-valid d r (ap d.rsa_public sig ∙ signature.verifies) in
      ap (λ (t : Commands). (command_receive d t now3 f2).effects) received_12
      ∙ ap (λ (t : Commands). t.effects) (e ∙ valid)
