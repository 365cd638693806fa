-- ===== src/Crane/Action/Stale.antt =====
-- The acknowledgement queue is not emptied between connections.
use tol103m_assignment_p.Base.{ℕ, ◌<◌, ◌≡◌, ◌≢◌, refl, ap, sym, subst, ◌∙◌, arith, List, [], ◌∷◌}
use tol103m_assignment_p.Lownet.Frame.{Frame}
use tol103m_assignment_p.Crane.Packet.{packet_of_bytes}
use tol103m_assignment_p.Crane.Machine.{
  AckQueue, IsAckQueue, Crane, World, disconnected, connected, crane_send, crane_connect,
  crane_receive, crane_dispatch, crane_recv_connect, receive_all,
}
use tol103m_assignment_p.Crane.Machine.Phases.{IsSynAck}
use tol103m_assignment_p.Crane.Action.{
  unexpected, beyond, classify, action_packet, send_action, crane_action,
}
use tol103m_assignment_p.Crane.Action.Protocol.{action_enters}
use tol103m_assignment_p.Crane.Action.Reads.{await_first, drain_end, read_lem, attempts_beyond}

beyond_lem : (ack seq : ℕ) → seq < ack → ack < 65535 → classify ack seq ≡ beyond
unfolding classify
beyond_lem ack seq h k = ground arith

module _ (os : AckQueue) (c : Crane os.Queue) (id : ℕ) (f : Frame) (off : c.phase ≡ disconnected)
    (synack : IsSynAck (packet_of_bytes f.payload)) where
  -- The client after crane_connect and the handshake.
  pub reopened : Crane os.Queue
  reopened = crane_receive os (crane_connect c id) f

  reopened_lem :
      (reopened.phase ≡ connected)
      × (reopened.seq ≡ 1)
      × (reopened.crane ≡ id)
      × (reopened.acks ≡ c.acks)
  unfolding reopened crane_receive crane_dispatch crane_recv_connect crane_connect crane_send
  reopened_lem = ground arith

-- An acknowledgement left in the queue from an earlier connection, for a later action than the first,
-- breaks the next connection: once the handshake is done the first action fails as unexpected, unless
-- something arrives during its first wait.
pub stale_ack_breaks :
    (os : AckQueue) (laws : IsAckQueue os) (c : Crane os.Queue) (id x action : ℕ) (f : Frame)
    (rest : List (List Frame))
    → c.phase ≡ disconnected
    → laws.contents c.acks ≡ x ∷ []
    → 1 < x
    → x < 65535
    → id ≢ 0
    → IsSynAck (packet_of_bytes f.payload)
    → (crane_action os action
        (record { client = crane_receive os (crane_connect c id) f; arrivals = [] ∷ rest })).0
      ≡ unexpected
unfolding reopened crane_send receive_all
stale_ack_breaks os laws c id x action f rest off queued gt lt node synack =
    let d = crane_receive os (crane_connect c id) f in
    let w : World os.Queue = record { client = d; arrivals = [] ∷ rest } in
    let (on, one, same, kept) = reopened_lem os c id f off synack in
    let packet = action_packet d.seq action in
    let v = send_action os w packet in
    let (q, got, left) = laws.receive_first (v.client).acks x [] (ap laws.contents kept ∙ queued) in
    let read =
      read_lem os v [] rest x (record (v.client) { acks = q }) refl
        (await_first os v.client [] x q got)
      ∙ ap (λ (r : ℕ × Crane os.Queue). (r.0, record { client = r.1; arrivals = rest }))
          (drain_end os 7 (record (v.client) { acks = q }) x (laws.receive_empty q left)) in
    ap (λ r. r.0)
      (action_enters os action w on (λ z. node (sym same ∙ z))
        ∙ attempts_beyond os 4 packet v _ x read
            (beyond_lem x d.seq (subst (λ (t : ℕ). t < x) (sym one) gt) lt))
