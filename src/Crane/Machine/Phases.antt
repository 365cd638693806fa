-- ===== src/Crane/Machine/Phases.antt =====
-- How a received packet moves the client between its phases.
use mathlib.Core.List.{map-append}
use tol103m_assignment_p.Base.{
  ℕ, ◌+◌, ◌-◌, ◌<◌, ◌≡◌, ◌≢◌, refl, ◌⊎◌, ◌↔◌, arith, List, [], ◌∷◌, ◌++◌, map, ap, ◌∙◌, bit_and,
  from_le32-le32,
}
use tol103m_assignment_p.Lownet.Frame.{Frame}
use tol103m_assignment_p.Crane.Packet.{
  CranePacket, challenge, packet_of_bytes, zero_packet, crane_close_type,
}
use tol103m_assignment_p.Crane.Machine.{
  AckQueue, Crane, Sent, disconnected, handshake, connected, handshake_reply, crane_send,
  crane_recv_connect, crane_recv_close, crane_recv_status, crane_dispatch, crane_receive,
  receive_all, World, delay, crane_disconnect, packets,
}

-- SYN and ACK are both set.
abbrev pub IsSynAck : CranePacket → Type 0
IsSynAck p = (p.type ≡ 1) × (bit_and p.flags 3 ≡ 3)

module _ (os : AckQueue) where
  open os use {Queue}

  -- After a packet the client is connected exactly if either it was in the handshake and the packet is
  -- a CONNECT with SYN and ACK, or it was connected and the packet is no CLOSE.
  pub dispatch_connected_iff :
      (c : Crane Queue) (p : CranePacket)
      → ((crane_dispatch os c p).phase ≡ connected)
        ↔ (((c.phase ≡ handshake) × IsSynAck p) ⊎ ((c.phase ≡ connected) × (p.type ≢ 4)))
  unfolding crane_dispatch crane_recv_connect crane_recv_status crane_recv_close crane_send
  dispatch_connected_iff c p = ground arith

reply_challenge :
    (p : CranePacket)
    → challenge p < 4294967296
    → challenge (handshake_reply p) + challenge p ≡ 4294967295
unfolding handshake_reply
reply_challenge p h =
    let c : ℕ = challenge p in
    let back : challenge (handshake_reply p) ≡ 4294967295 - c =
      from_le32-le32 (4294967295 - c) (omega arith) in
    omega (arith, back)

-- A SYN and ACK during the handshake connects the client, with the first action at sequence number
-- 1, and is answered with one packet to the crane that the client is opening: an ACK with sequence
-- number 0 and the complement of the challenge, which keeps TEST just as it was received.
pub dispatch_establish :
    (os : AckQueue) (c : Crane os.Queue) (p : CranePacket)
    → c.phase ≡ handshake
    → IsSynAck p
    → challenge p < 4294967296
    → let d = crane_dispatch os c p in
      let r = handshake_reply p in
      (d.phase ≡ connected)
      × (d.seq ≡ 1)
      × (d.crane ≡ c.crane)
      × (d.acks ≡ c.acks)
      × (d.sent ≡ c.sent ++ (record { destination = c.crane; packet = r } ∷ []))
      × (r.type ≡ 1)
      × (r.seq ≡ 0)
      × (challenge r + challenge p ≡ 4294967295)
      × (((bit_and p.flags 8 ≡ 0) × (r.flags ≡ 2)) ⊎ ((bit_and p.flags 8 ≢ 0) × (r.flags ≡ 10)))
unfolding crane_dispatch crane_recv_connect crane_send
dispatch_establish os c p during synack width = (
  ground arith,
  ground arith,
  ground arith,
  ground arith,
  ground arith,
  unfold handshake_reply in refl,
  unfold handshake_reply in refl,
  reply_challenge p width,
  unfold handshake_reply in ground arith,
)

-- What a wait can do while no handshake is open: the client stays connected at the sequence number
-- `s`, or is closed, and sends nothing.
abbrev pub Busy : {Q : Type 0} → ℕ → List CranePacket → Crane Q → Type 0
Busy s log c =
    (((c.phase ≡ connected) × (c.seq ≡ s)) ⊎ ((c.phase ≡ disconnected) × (c.seq ≡ 0)))
    × (packets c ≡ log)

module _ (os : AckQueue) (s : ℕ) (log : List CranePacket) where
  open os use {Queue}

  dispatch-Busy :
      (c : Crane Queue) (p : CranePacket) → Busy s log c → Busy s log (crane_dispatch os c p)
  unfolding crane_dispatch crane_recv_connect crane_recv_status crane_recv_close
  dispatch-Busy c p b = ground arith

  pub receive-Busy :
      (c : Crane Queue) (f : Frame) → Busy s log c → Busy s log (crane_receive os c f)
  unfolding crane_receive
  receive-Busy c f b = dispatch-Busy c (packet_of_bytes f.payload) b

  pub receive_all-Busy :
      (c : Crane Queue) (fs : List Frame) → Busy s log c → Busy s log (receive_all os c fs)
  unfolding receive_all
  receive_all-Busy c [] b = b
  receive_all-Busy c (f ∷ fs) b = receive_all-Busy (crane_receive os c f) fs (receive-Busy c f b)

  pub delay-Busy : (w : World Queue) → Busy s log w.client → Busy s log (delay os w).client
  delay-Busy w b = go w.arrivals refl
    where
      go : (a : List (List Frame)) → w.arrivals ≡ a → Busy s log (delay os w).client
      go [] e = unfold delay in rw (e, delay) b
      go (batch ∷ rest) e = unfold delay in rw (e, delay) (receive_all-Busy (w.client) batch b)

-- The CLOSE packet of crane_disconnect.
abbrev pub close_packet : ℕ → CranePacket
close_packet s = record zero_packet { type = crane_close_type; seq = s }

packets-append :
    (xs ys : List Sent)
    → map (λ (x : Sent). x.packet) (xs ++ ys)
      ≡ map (λ (x : Sent). x.packet) xs ++ map (λ (x : Sent). x.packet) ys
packets-append xs ys = map-append (λ (x : Sent). x.packet) xs ys

pub packets-send :
    {Q : Type 0} (c : Crane Q) (id : ℕ) (p : CranePacket)
    → packets (crane_send c id p) ≡ packets c ++ (p ∷ [])
unfolding crane_send
packets-send c id p = packets-append c.sent (record { destination = id; packet = p } ∷ [])

pub send-Busy :
    {Q : Type 0} (s : ℕ) (log : List CranePacket) (c : Crane Q) (id : ℕ) (p : CranePacket)
    → Busy s log c
    → Busy s (log ++ (p ∷ [])) (crane_send c id p)
send-Busy s log c id p b =
    (unfold crane_send in b.0, packets-send c id p ∙ ap (λ l. l ++ (p ∷ [])) b.1)

-- crane_disconnect sends one CLOSE, with the current sequence number, and leaves the client
-- disconnected, whatever arrives meanwhile.
pub disconnect_lem :
    (os : AckQueue) (s : ℕ) (log : List CranePacket) (w : World os.Queue)
    → Busy s log w.client
    → let c = (crane_disconnect os w).client in
      (c.phase ≡ disconnected)
      × (c.seq ≡ 0)
      × (packets c ≡ log ++ (close_packet (w.client).seq ∷ []))
unfolding crane_disconnect
disconnect_lem os s log w b = (
  refl,
  refl,
  (delay-Busy os s (log ++ (close_packet (w.client).seq ∷ []))
      (record w { client = crane_send w.client (w.client).crane (close_packet (w.client).seq) })
      (send-Busy s log w.client (w.client).crane (close_packet (w.client).seq) b)).1,
)
