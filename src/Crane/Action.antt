-- ===== src/Crane/Action.antt =====
-- read_acks and crane_action of managed_components/crane/crane.c.
pub mod Protocol
pub mod Reads
pub mod Progress
pub mod Stale
pub mod Drain
pub mod Written
use tol103m_assignment_p.Base.{
  ℕ, zero, suc, ◌+◌, ◌%◌, List, [], ◌∷◌, Option, none, some, Bool, not, ◌==◌, leb, ltb,
  if◌then◌else◌,
}
use tol103m_assignment_p.Lownet.Frame.{Frame}
use tol103m_assignment_p.Crane.Packet.{CranePacket, zero_packet, crane_action_type}
use tol103m_assignment_p.Crane.Machine.{
  AckQueue, Phase, disconnected, Crane, World, is_connected, crane_send, crane_receive, receive_all,
  crane_disconnect,
}

-- The values 0, -1 and -2 of crane_action.
pub data ActionResult : Type 0 where
  acked failed unexpected : ActionResult

-- How crane_action takes the value of read_acks at the sequence number `seq`, in its order of tests.
pub data AckKind : Type 0 where
  no_ack spurious beyond matching stale : AckKind

unfoldable pub classify : ℕ → ℕ → AckKind
classify ack seq =
    if ack == 0
    then no_ack
    else (if ack == 0xFFFF
        then spurious
        else (if ltb seq ack then beyond else (if ack == seq then matching else stale)))

abbrev pub action_packet : ℕ → ℕ → CranePacket
action_packet seq action = record zero_packet { type = crane_action_type; seq = seq; d0 = action }

abbrev pub first_batch : List (List Frame) → List Frame
first_batch [] = []
first_batch (b ∷ bs) = b

abbrev pub later_batches : List (List Frame) → List (List Frame)
later_batches [] = []
later_batches (b ∷ bs) = bs

module _ (os : AckQueue) where
  open os use {Queue, receive}

  -- xQueueReceive with a timeout, given the frames that arrive within it: it returns as soon as the
  -- queue holds an acknowledgement, and the frames left are received after that. 0 is a timeout.
  unfoldable pub await_ack : Crane Queue → List Frame → ℕ × Crane Queue
  await_ack c [] = elim (receive c.acks) [
    | none ↦ (0, c)
    | some (x, rest) ↦ (x, record c { acks = rest })
  ]
  await_ack c (f ∷ fs) = elim (receive c.acks) [
    | none ↦ await_ack (crane_receive os c f) fs
    | some (x, rest) ↦ (x, receive_all os (record c { acks = rest }) (f ∷ fs))
  ]

  -- The second loop of read_acks; the queue holds eight at most.
  unfoldable pub drain_acks : ℕ → Crane Queue → ℕ → ℕ × Crane Queue
  drain_acks zero c seq = (seq, c)
  drain_acks (suc fuel) c seq = elim (receive c.acks) [
    | none ↦ (seq, c)
    | some (x, rest) ↦ drain_acks fuel (record c { acks = rest }) (if leb x seq then seq else x)
  ]

  unfoldable pub read_acks : World Queue → ℕ × World Queue
  read_acks w =
      let (seq, c) = await_ack w.client (first_batch w.arrivals) in
      let (last, c') = drain_acks 8 c seq in
      (last, record { client = c'; arrivals = later_batches w.arrivals })

  abbrev pub send_action : World Queue → CranePacket → World Queue
  send_action w packet = record w { client = crane_send (w.client) (w.client).crane packet }

  -- The body of the loop in crane_action, on the value of read_acks and the state after it; `retry`
  -- is the rest of the loop.
  unfoldable pub attempt_on :
      (World Queue → ActionResult × World Queue)
      → CranePacket
      → ℕ × World Queue
      → ActionResult × World Queue
  attempt_on retry packet r =
      let w = r.1 in
      elim (classify r.0 (w.client).seq) [
        | no_ack ↦ retry (send_action w packet)
        | spurious ↦ retry w
        | beyond ↦ (unexpected, crane_disconnect os w)
        | matching ↦
            (acked, record w { client = record (w.client) { seq = ((w.client).seq + 1) % 65536 } })
        | stale ↦ retry w
      ]

  -- The loop of crane_action, by the attempts left, and what follows it.
  unfoldable pub attempts : ℕ → CranePacket → World Queue → ActionResult × World Queue
  attempts zero packet w = (failed, crane_disconnect os w)
  attempts (suc n) packet w = attempt_on (attempts n packet) packet (read_acks w)

  unfoldable pub crane_action : ℕ → World Queue → ActionResult × World Queue
  crane_action action w =
      if not (is_connected (w.client).phase)
      then (failed, w)
      else (if (w.client).crane == 0
          then (failed, record w { client = record (w.client) { phase = disconnected } })
          else (let packet = action_packet (w.client).seq action in
              attempts 5 packet (send_action w packet)))
