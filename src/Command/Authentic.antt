-- ===== src/Command/Authentic.antt =====
-- Commands take effect only with a full and valid signature.
use tol103m_assignment_p.Base.{
  ℕ, ◌≡◌, refl, ◌∙◌, ap, ◌⊎◌, inl, inr, arith, List, ◌++◌, true, false, take, copy_over,
}
use tol103m_assignment_p.Lownet.Frame.{Frame}
use tol103m_assignment_p.Lownet.Time.{Time}
use tol103m_assignment_p.Utility.{buffers_equal}
use tol103m_assignment_p.Command.{
  Digests, wait_sig1, wait_sig2, FrameType, unsigned, signed, sig1, sig2, Commands, get_frame_type,
  hash_key, hash_msg, sig_part, sequence, command_ready_next, expected_signature, command_execute,
  timed_out, verify_signature, signature_received, handle_command_frame, handle_signature_part1,
  handle_signature_part2, handle_signature_frame, command_receive, receive_as,
}

-- The signature that a frame completes: its half beside the half that was there.
abbrev pub Completes : Commands → Frame → List ℕ → Type 0
Completes s f sig =
    ((get_frame_type f ≡ sig1)
      × (s.state ≡ wait_sig1)
      × (sig ≡ copy_over s.signature (sig_part f) 128))
    ⊎ ((get_frame_type f ≡ sig2)
        × (s.state ≡ wait_sig2)
        × (sig ≡ take 128 s.signature ++ sig_part f))

-- What a frame must be to make the pending command take effect.
pub record Authentic (d : Digests) (s : Commands) (now : Time) (f : Frame) : Type 0 where
  pub sig : List ℕ
  pub completes : Completes s f sig
  pub valid : buffers_equal (d.rsa_public sig) (expected_signature s.hash) ≡ true
  pub same_command : buffers_equal (hash_msg f) s.hash ≡ true
  pub same_key : buffers_equal s.key_hash (hash_key f) ≡ true
  pub in_time : timed_out s.command_received now ≡ false

-- The pending command of s has been executed in t.
abbrev pub Executed : Commands → Commands → Type 0
Executed s t =
    (t.effects ≡ s.effects ++ command_execute s.current_cmd)
    × (t.last_valid ≡ sequence s.current_cmd)

signature_received_lem :
    (d : Digests) (s : Commands)
    → ((signature_received d s).effects ≡ s.effects)
      ⊎ ((verify_signature d s ≡ true) × Executed s (signature_received d s))
unfolding signature_received command_ready_next
signature_received_lem d s = ground arith

part1_lem :
    (d : Digests) (s : Commands) (f : Frame)
    → let sig = copy_over s.signature (sig_part f) 128 in
      let t = handle_signature_part1 d s f in
      (t.effects ≡ s.effects)
      ⊎ ((s.state ≡ wait_sig1)
          × (buffers_equal (d.rsa_public sig) (expected_signature s.hash) ≡ true)
          × Executed s t)
unfolding handle_signature_part1 signature_received command_ready_next verify_signature
part1_lem d s f = ground arith

part2_lem :
    (d : Digests) (s : Commands) (f : Frame)
    → let sig = take 128 s.signature ++ sig_part f in
      let t = handle_signature_part2 d s f in
      (t.effects ≡ s.effects)
      ⊎ ((s.state ≡ wait_sig2)
          × (buffers_equal (d.rsa_public sig) (expected_signature s.hash) ≡ true)
          × Executed s t)
unfolding handle_signature_part2 signature_received command_ready_next verify_signature
part2_lem d s f = ground arith

handle_command_frame-effects :
    (d : Digests) (s : Commands) (now : Time) (f : Frame)
    → (handle_command_frame d s now f).effects ≡ s.effects
unfolding handle_command_frame command_ready_next
handle_command_frame-effects d s now f = ground arith

signature_frame_lem :
    (part : Commands → Frame → Commands) (s : Commands) (now : Time) (f : Frame)
    → let t = handle_signature_frame part s now f in
      (t.effects ≡ s.effects)
      ⊎ ((t ≡ part s f)
          × (buffers_equal (hash_msg f) s.hash ≡ true)
          × (buffers_equal s.key_hash (hash_key f) ≡ true)
          × (timed_out s.command_received now ≡ false))
unfolding handle_signature_frame command_ready_next
signature_frame_lem part s now f = ground arith

receive_as-Authentic :
    (d : Digests) (k : FrameType) (s : Commands) (now : Time) (f : Frame)
    → get_frame_type f ≡ k
    → let t = receive_as d k s now f in
      (t.effects ≡ s.effects) ⊎ (Authentic d s now f × Executed s t)
receive_as-Authentic d unsigned s now f e = inl refl
receive_as-Authentic d signed s now f e = inl (handle_command_frame-effects d s now f)
receive_as-Authentic d sig1 s now f e =
    elim (signature_frame_lem (handle_signature_part1 d) s now f) [
      | inl same ↦ inl same
      | inr (t, command, key, time) ↦ elim (part1_lem d s f) [
        | inl same ↦ inl (ap (λ (t : Commands). t.effects) t ∙ same)
        | inr (wait, valid, (effects, last)) ↦ inr (
          record {
            sig = copy_over s.signature (sig_part f) 128;
            completes = inl (e, wait, refl);
            valid = valid;
            same_command = command;
            same_key = key;
            in_time = time;
          },
          (
            ap (λ (t : Commands). t.effects) t ∙ effects,
            ap (λ (t : Commands). t.last_valid) t ∙ last,
          ),
        )
      ]
    ]
receive_as-Authentic d sig2 s now f e =
    elim (signature_frame_lem (handle_signature_part2 d) s now f) [
      | inl same ↦ inl same
      | inr (t, command, key, time) ↦ elim (part2_lem d s f) [
        | inl same ↦ inl (ap (λ (t : Commands). t.effects) t ∙ same)
        | inr (wait, valid, (effects, last)) ↦ inr (
          record {
            sig = take 128 s.signature ++ sig_part f;
            completes = inr (e, wait, refl);
            valid = valid;
            same_command = command;
            same_key = key;
            in_time = time;
          },
          (
            ap (λ (t : Commands). t.effects) t ∙ effects,
            ap (λ (t : Commands). t.last_valid) t ∙ last,
          ),
        )
      ]
    ]

-- A received frame leaves the effects as they were, or it completes a signature that is valid for the
-- pending command, under the known key and in time; then the effects are the command's, and its sequence
-- number is the last valid one.
pub receive-Authentic :
    (d : Digests) (s : Commands) (now : Time) (f : Frame)
    → let t = command_receive d s now f in
      (t.effects ≡ s.effects) ⊎ (Authentic d s now f × Executed s t)
unfolding command_receive
receive-Authentic d s now f = receive_as-Authentic d (get_frame_type f) s now f refl
