-- ===== src/Crane/Action/Written.antt =====
-- The lines that are written during an action.
use tol103m_assignment_p.Base.{
  ℕ, zero, suc, ◌≡◌, refl, sym, ap, ◌∙◌, arith, List, [], ◌∷◌, ◌++◌, inl, inr, Option-cases, leb,
  if◌then◌else◌,
}
use mathlib.Core.List.{append-nil, append_assoc}
use tol103m_assignment_p.Lownet.Frame.{Frame}
use tol103m_assignment_p.Crane.Packet.{CranePacket, packet_of_bytes}
use tol103m_assignment_p.Crane.Machine.{
  AckQueue, Crane, World, disconnected, crane_send, crane_receive,
}
use tol103m_assignment_p.Crane.Machine.Written.{
  statuses, line_of, all_frames, Shows, Shows-still, Shows-trans, receive-written,
  receive_all-written, disconnect-Shows,
}
use tol103m_assignment_p.Crane.Action.{
  ActionResult, AckKind, no_ack, spurious, beyond, matching, stale, classify, first_batch,
  later_batches, await_ack, drain_acks, read_acks, send_action, attempt_on, attempts, action_packet,
  crane_action,
}

module _ (os : AckQueue) where
  open os use {Queue, receive}

  await-written :
      (c : Crane Queue) (fs : List Frame)
      → ((await_ack os c fs).1).written ≡ c.written ++ statuses fs
  unfolding await_ack
  await-written c [] = elim (Option-cases (receive c.acks)) [
    | inl e ↦ rw (e, await_ack) (sym (append-nil c.written))
    | inr ((x, rest), e) ↦ rw (e, await_ack) (sym (append-nil c.written))
  ]
  await-written c (f ∷ fs) = elim (Option-cases (receive c.acks)) [
    | inl e ↦
        rw (e, await_ack)
          (await-written (crane_receive os c f) fs
            ∙ (ap (λ (l : List (List ℕ)). l ++ statuses fs) (receive-written os c f)
                ∙ append_assoc c.written (line_of (packet_of_bytes f.payload)) (statuses fs)))
    | inr ((x, rest), e) ↦
        rw (e, await_ack) (receive_all-written os (record c { acks = rest }) (f ∷ fs))
  ]

  drain-written :
      (n : ℕ) (c : Crane Queue) (seq : ℕ) → ((drain_acks os n c seq).1).written ≡ c.written
  unfolding drain_acks
  drain-written zero c seq = refl
  drain-written (suc n) c seq = elim (Option-cases (receive c.acks)) [
    | inl e ↦ rw (e, drain_acks) refl
    | inr ((x, rest), e) ↦
        rw (e, drain_acks)
          (drain-written n (record c { acks = rest }) (if leb x seq then seq else x))
  ]

  frames_split :
      (bs : List (List Frame)) → all_frames bs ≡ first_batch bs ++ all_frames (later_batches bs)
  frames_split [] = refl
  frames_split (b ∷ bs) = refl

  read_acks-Shows : (w : World Queue) → Shows w (read_acks os w).1
  unfolding read_acks
  read_acks-Shows w =
      let (seq, c) = await_ack os w.client (first_batch w.arrivals) in
      record {
        arrived = first_batch w.arrivals;
        first_ones = frames_split w.arrivals;
        lines = drain-written 8 _ _ ∙ await-written w.client (first_batch w.arrivals);
      }

  send-Shows : (w : World Queue) (packet : CranePacket) → Shows w (send_action os w packet)
  send-Shows w packet = Shows-still w _ refl (unfold crane_send in refl)

  attempt_on-Shows :
      (retry : World Queue → ActionResult × World Queue) (packet : CranePacket)
      (r : ℕ × World Queue)
      → ((v : World Queue) → Shows v (retry v).1)
      → Shows r.1 (attempt_on os retry packet r).1
  attempt_on-Shows retry packet r again = by_kind (classify r.0 ((r.1).client).seq) refl
    where
      by_kind :
          (k : AckKind)
          → classify r.0 ((r.1).client).seq ≡ k
          → Shows r.1 (attempt_on os retry packet r).1
      by_kind no_ack e =
          unfold attempt_on in
          rw (e, attempt_on)
            (Shows-trans (send-Shows r.1 packet) (again (send_action os r.1 packet)))
      by_kind spurious e = unfold attempt_on in rw (e, attempt_on) (again r.1)
      by_kind beyond e = unfold attempt_on in rw (e, attempt_on) (disconnect-Shows os r.1)
      by_kind matching e = unfold attempt_on in rw (e, attempt_on) (Shows-still r.1 _ refl refl)
      by_kind stale e = unfold attempt_on in rw (e, attempt_on) (again r.1)

  attempts-Shows :
      (n : ℕ) (packet : CranePacket) (w : World Queue) → Shows w (attempts os n packet w).1
  unfolding attempts
  attempts-Shows zero packet w = disconnect-Shows os w
  attempts-Shows (suc n) packet w =
      Shows-trans (read_acks-Shows w)
        (attempt_on-Shows (attempts os n packet) packet (read_acks os w) (attempts-Shows n packet))

  pub action-Shows : (action : ℕ) (w : World Queue) → Shows w (crane_action os action w).1
  action-Shows action w =
      let packet = action_packet (w.client).seq action in
      let refused = Shows-still w w refl refl in
      let nobody =
        Shows-still w (record w { client = record (w.client) { phase = disconnected } }) refl
          refl in
      let tried =
        Shows-trans (send-Shows w packet) (attempts-Shows 5 packet (send_action os w packet)) in
      unfold crane_action in ground arith
