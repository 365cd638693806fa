-- ===== src/Tests/Actions.antt =====
-- The crane client with a list as its queue.
use tol103m_assignment_p.Base.{
  ℕ, suc, ◌+◌, ◌≤◌, ◌≡◌, ◌≢◌, ◌⊎◌, ◌↔◌, inl, inr, refl, arith, List, [], ◌∷◌, ◌++◌, some, replicate,
  bit_and,
}
use tol103m_assignment_p.Lownet.Frame.{Frame}
use tol103m_assignment_p.Lownet.Send.{lownet_send}
use tol103m_assignment_p.Lownet.Receive.{handled, receive_bytes}
use tol103m_assignment_p.Crypt.{crypt_encrypt, crypt_decrypt}
use tol103m_assignment_p.Crane.Packet.{
  CranePacket, zero_packet, challenge, packet_of_bytes, crane_frame,
}
use tol103m_assignment_p.Crane.Packet.Codec.{crane_frame-delivered}
use tol103m_assignment_p.Crane.Machine.{
  AckQueue, Crane, World, Phase, disconnected, handshake, connected, handshake_reply, crane_connect,
  crane_dispatch, crane_disconnect, packets,
}
use tol103m_assignment_p.Crane.Machine.Phases.{IsSynAck, dispatch_connected_iff, dispatch_establish}
use tol103m_assignment_p.Crane.Action.{acked, unexpected, action_packet, crane_action, drain_acks}
use tol103m_assignment_p.Crane.Action.Protocol.{Finished, crane_action_protocol}
use tol103m_assignment_p.Crane.Action.Progress.{crane_action_acked}
use tol103m_assignment_p.Crane.Action.Stale.{stale_ack_breaks}
use tol103m_assignment_p.Crane.Action.Drain.{IsLargest, drain_acks_lem}
use tol103m_assignment_p.App.{crane_receive}
use tol103m_assignment_p.App.Start.{registered_handlers}
use tol103m_assignment_p.Tests.Nodes.{
  xor_cbc, xor_cbc-IsAesCbc, first_node, second_node, ones, rubbish, list_queue,
  list_queue-IsAckQueue,
}

-- An open client whose queue holds `acks`.
abbrev pub client : List ℕ → Phase → Crane (List ℕ)
client acks phase = record {
  seq = 3;
  crane = 0x96;
  acks = acks;
  phase = phase;
  last_status_seq = 0;
  last_backlog = 0;
  sent = [];
  written = [];
}

abbrev pub syn_ack : CranePacket
syn_ack = record zero_packet { type = 1; flags = 3; d0 = 9 }

abbrev pub syn_ack_frame : Frame
syn_ack_frame = record rubbish { payload = 1 ∷ 3 ∷ 0 ∷ 0 ∷ 9 ∷ 0 ∷ 0 ∷ 0 ∷ [] }

-- A status that acknowledges the action 3.
abbrev status_frame : Frame
status_frame = record rubbish { payload = 2 ∷ 2 ∷ 3 ∷ 0 ∷ 1 ∷ 0 ∷ 0 ∷ 0 ∷ [] }

-- One silent wait, then the status.
abbrev world : World (List ℕ)
world = record { client = client [] connected; arrivals = [] ∷ (status_frame ∷ []) ∷ [] }

crane_frame-delivered_example :
    (bytes : List ℕ) × (out : Frame) × (lownet_send first_node ones
        (crypt_encrypt xor_cbc)
        ones
        (crane_frame rubbish 0x96 syn_ack)
      ≡ some bytes)
    × (receive_bytes (crypt_decrypt xor_cbc) second_node bytes ≡ some (handled crane_receive out))
    × (packet_of_bytes out.payload ≡ syn_ack)
unfolding crane_frame
crane_frame-delivered_example =
    crane_frame-delivered first_node second_node crane_receive ones ones xor_cbc rubbish 0x96
      syn_ack (omega arith)
      (record {
        payload_held = refl;
        fits = omega arith;
        sender_node = omega arith;
        addressed = inl refl;
        registered = registered_handlers 5;
      })
      xor_cbc-IsAesCbc (inr (omega arith, omega arith, refl))

dispatch_connected_iff_example :
    ((crane_dispatch list_queue (client [] handshake) syn_ack).phase ≡ connected) ↔ (
      (((client [] handshake).phase ≡ handshake) × IsSynAck syn_ack)
      ⊎ (((client [] handshake).phase ≡ connected) × (syn_ack.type ≢ 4)))
dispatch_connected_iff_example = dispatch_connected_iff list_queue (client [] handshake) syn_ack

dispatch_establish_example :
    let c = client [] handshake in
    let d = crane_dispatch list_queue c syn_ack in
    let r = handshake_reply syn_ack in
    (d.phase ≡ connected)
    × (d.seq ≡ 1)
    × (d.crane ≡ c.crane)
    × (d.acks ≡ c.acks)
    × (d.sent ≡ c.sent ++ (record { destination = c.crane; packet = r } ∷ []))
    × (r.type ≡ 1)
    × (r.seq ≡ 0)
    × (challenge r + challenge syn_ack ≡ 4294967295)
    × (((bit_and syn_ack.flags 8 ≡ 0) × (r.flags ≡ 2))
        ⊎ ((bit_and syn_ack.flags 8 ≢ 0) × (r.flags ≡ 10)))
dispatch_establish_example =
    dispatch_establish list_queue (client [] handshake) syn_ack refl (refl, refl) (omega arith)

crane_action_protocol_example :
    let r = crane_action list_queue 2 world in
    (k : ℕ) × (k ≤ 5)
    × Finished 3
        (action_packet 3 2)
        (packets world.client ++ replicate (suc k) (action_packet 3 2))
        r.0
        (r.1).client
crane_action_protocol_example =
    crane_action_protocol list_queue 2 world refl (omega arith) (omega arith) (omega arith)

crane_action_acked_example :
    let r = crane_action list_queue 2 world in
    (r.0 ≡ acked)
    × (packets (r.1).client ≡ packets world.client ++ replicate (suc 1) (action_packet 3 2))
    × ((r.1).arrivals ≡ [])
unfolding packet_of_bytes
crane_action_acked_example =
    crane_action_acked list_queue list_queue-IsAckQueue 2 1 world status_frame [] refl (omega arith)
      (omega arith) (omega arith) refl (omega arith) refl (refl, refl, refl)

drain_acks_lem_example :
    let c = client (4 ∷ 7 ∷ 5 ∷ []) connected in
    let r = drain_acks list_queue 8 c 3 in
    IsLargest r.0 3 c.acks × ((r.1).acks ≡ []) × (r.1 ≡ record c { acks = (r.1).acks })
drain_acks_lem_example =
    drain_acks_lem list_queue list_queue-IsAckQueue (client (4 ∷ 7 ∷ 5 ∷ []) connected) 3
      (omega arith)

stale_ack_breaks_example :
    (crane_action list_queue 2 (record {
      client =
          tol103m_assignment_p.Crane.Machine.crane_receive list_queue
            (crane_connect (client (4 ∷ []) disconnected) 0x96)
            syn_ack_frame;
      arrivals = [] ∷ [];
    })).0
    ≡ unexpected
unfolding packet_of_bytes
stale_ack_breaks_example =
    stale_ack_breaks list_queue list_queue-IsAckQueue (client (4 ∷ []) disconnected) 0x96 4 2
      syn_ack_frame [] refl refl (omega arith) (omega arith) (omega arith) (refl, refl)
