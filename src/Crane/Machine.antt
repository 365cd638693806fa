-- ===== src/Crane/Machine.antt =====
-- The state of managed_components/crane/crane.c, its receive handlers, connecting and disconnecting.
-- The acknowledgement queue is FreeRTOS's, and a parameter. The receive handlers run on the network
-- task; the other functions see what they do while they wait, so each wait is given the frames that
-- arrive during it. What is logged is left out.
pub mod Phases
pub mod Written
use tol103m_assignment_p.Base.{
  ℕ, ◌+◌, List, [], ◌∷◌, ◌++◌, map, Bool, true, false, not, ◌&&◌, Option, none, some, ◌==◌, ltb,
  if◌then◌else◌, bit_and, bit_or, length, ◌≡◌,
}
use tol103m_assignment_p.Lownet.Frame.{Frame}
use tol103m_assignment_p.Crane.Packet.{
  CranePacket, zero_packet, challenge, set_challenge, complement32, backlog, packet_of_bytes,
  crane_connect_type, crane_status_type, crane_action_type, crane_close_type, crane_syn, crane_ack,
  crane_nak, crane_test_flag,
}
use tol103m_assignment_p.Crane.Texts.{status_line}

-- A queue of eight uint16_t: xQueueCreate(8, sizeof(uint16_t)), xQueueSend and xQueueReceive without
-- waiting. The code ignores whether a send succeeds; `none` is a receive that fails.
pub record AckQueue : Type 1 where
  pub Queue : Type 0
  pub create : Queue
  pub send : Queue → ℕ → Queue
  pub receive : Queue → Option (ℕ × Queue)

-- What FreeRTOS documents of them: first in, first out, and a send to a full queue fails.
pub record IsAckQueue (os : AckQueue) : Type 0 where
  pub contents : os.Queue → List ℕ
  pub contents-create : contents os.create ≡ []
  pub contents-send :
      (q : os.Queue) (x : ℕ)
      → contents (os.send q x)
        ≡ (if ltb (length (contents q)) 8 then contents q ++ (x ∷ []) else contents q)
  pub receive_empty : (q : os.Queue) → contents q ≡ [] → os.receive q ≡ none
  pub receive_first :
      (q : os.Queue) (x : ℕ) (xs : List ℕ)
      → contents q ≡ x ∷ xs
      → (rest : os.Queue) × (os.receive q ≡ some (x, rest)) × (contents rest ≡ xs)

pub data Phase : Type 0 where
  disconnected handshake connected : Phase

-- One call of crane_send: the node and the packet.
pub record Sent : Type 0 where
  pub destination : ℕ
  pub packet : CranePacket

-- `state`, the two variables that follow the status, and the packets sent and the lines written so far,
-- oldest first.
pub record Crane (Q : Type 0) : Type 0 where
  pub seq : ℕ
  pub crane : ℕ
  pub acks : Q
  pub phase : Phase
  pub last_status_seq : ℕ
  pub last_backlog : ℕ
  pub sent : List Sent
  pub written : List (List ℕ)

-- `arrivals`: the frames for this protocol during each wait to come, in order. When it runs out,
-- nothing more arrives.
pub record World (Q : Type 0) : Type 0 where
  pub client : Crane Q
  pub arrivals : List (List Frame)

abbrev pub is_handshake : Phase → Bool
is_handshake handshake = true
is_handshake _ = false

abbrev pub is_disconnected : Phase → Bool
is_disconnected disconnected = true
is_disconnected _ = false

abbrev pub is_connected : Phase → Bool
is_connected connected = true
is_connected _ = false

-- The final ACK of the handshake: the challenge's complement, and TEST if the crane set it.
unfoldable pub handshake_reply : CranePacket → CranePacket
handshake_reply packet =
    set_challenge
      (record zero_packet {
        type = crane_connect_type;
        flags =
            if bit_and packet.flags crane_test_flag == 0
            then crane_ack
            else bit_or crane_ack crane_test_flag;
      })
      (complement32 (challenge packet))

-- The packet of crane_connect, and of crane_test with TEST.
abbrev pub syn_packet : ℕ → CranePacket
syn_packet flags = record zero_packet { type = crane_connect_type; flags = flags }

-- The packets sent so far, without the nodes.
abbrev pub packets : {Q : Type 0} → Crane Q → List CranePacket
packets c = map (λ (s : Sent). s.packet) c.sent

module _ {Q : Type 0} where
  unfoldable pub crane_send : Crane Q → ℕ → CranePacket → Crane Q
  crane_send c id packet = record c {
    sent = c.sent ++ (record { destination = id; packet = packet } ∷ []);
  }

  -- serial_write_line, line by line.
  abbrev pub write_lines : Crane Q → List (List ℕ) → Crane Q
  write_lines c lines = record c { written = c.written ++ lines }

  unfoldable pub crane_recv_connect : Crane Q → CranePacket → Crane Q
  crane_recv_connect c packet =
      if not (is_handshake c.phase)
      then c
      else (if not (bit_and packet.flags (bit_or crane_syn crane_ack) == bit_or crane_syn crane_ack)
          then c
          else record (crane_send c c.crane (handshake_reply packet)) {
            seq = 1;
            phase = connected;
          })

  unfoldable pub crane_recv_close : Crane Q → Crane Q
  crane_recv_close c = record c { seq = 0; phase = disconnected; crane = 0 }

  unfoldable pub crane_connect : Crane Q → ℕ → Crane Q
  unfolding crane_send
  crane_connect c id =
      if not (is_disconnected c.phase)
      then c
      else crane_send (record c { crane = id; phase = handshake; seq = 0 }) id
          (syn_packet crane_syn)

module _ (os : AckQueue) where
  open os use {Queue, create, send, receive}

  -- After a successful lownet_register_protocol. `sent` and `written` are not part of the C state.
  unfoldable pub crane_init : Crane Queue → Crane Queue
  crane_init c = record c {
    seq = 0;
    crane = 0;
    acks = create;
    phase = disconnected;
    last_status_seq = 0;
    last_backlog = 0;
  }

  unfoldable pub crane_recv_status : Crane Queue → CranePacket → Crane Queue
  crane_recv_status c packet = if not (bit_and packet.flags crane_nak == 0) then c else record c {
    acks =
        if not (packet.seq == 0) && not (packet.seq == 0xFFFF)
        then send c.acks packet.seq
        else c.acks;
    last_status_seq = packet.seq;
    last_backlog = backlog packet;
    written = c.written ++ (status_line packet ∷ []);
  }

  -- The switch of crane_receive.
  unfoldable pub crane_dispatch : Crane Queue → CranePacket → Crane Queue
  crane_dispatch c packet =
      if packet.type == crane_connect_type
      then crane_recv_connect c packet
      else (if packet.type == crane_status_type
          then crane_recv_status c packet
          else (if packet.type == crane_close_type then crane_recv_close c else c))

  unfoldable pub crane_receive : Crane Queue → Frame → Crane Queue
  crane_receive c frame = crane_dispatch c (packet_of_bytes frame.payload)

  unfoldable pub receive_all : Crane Queue → List Frame → Crane Queue
  receive_all c [] = c
  receive_all c (f ∷ fs) = receive_all (crane_receive c f) fs

  -- vTaskDelay: the frames of one wait are received.
  unfoldable pub delay : World Queue → World Queue
  delay w = elim w.arrivals [
    | [] ↦ w
    | batch ∷ rest ↦ record { client = receive_all w.client batch; arrivals = rest }
  ]

  unfoldable pub crane_disconnect : World Queue → World Queue
  crane_disconnect w =
      let c = w.client in
      let w' = delay (record w {
        client = crane_send c c.crane (record zero_packet { type = crane_close_type; seq = c.seq });
      }) in
      record w' { client = record (w'.client) { phase = disconnected; seq = 0 } }
