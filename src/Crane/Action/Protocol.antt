-- ===== src/Crane/Action/Protocol.antt =====
-- What crane_action sends and how it ends, whatever arrives while it waits.
use mathlib.Core.List.{append-nil, append_assoc}
use tol103m_assignment_p.Base.{
  ℕ, zero, suc, ◌+◌, ◌%◌, ◌≤◌, ◌<◌, ◌≡◌, ◌≢◌, refl, sym, subst, ◌∙◌, arith, List, [], ◌∷◌, ◌++◌,
  replicate, inl, inr, Option-cases, leb, if◌then◌else◌,
}
use tol103m_assignment_p.Lownet.Frame.{Frame}
use tol103m_assignment_p.Crane.Packet.{CranePacket}
use tol103m_assignment_p.Crane.Machine.{
  AckQueue, Crane, World, disconnected, connected, packets, crane_receive, crane_disconnect,
}
use tol103m_assignment_p.Crane.Machine.Phases.{
  Busy, receive-Busy, receive_all-Busy, send-Busy, disconnect_lem, close_packet,
}
use tol103m_assignment_p.Crane.Action.{
  ActionResult, acked, failed, unexpected, AckKind, no_ack, spurious, beyond, matching, stale,
  classify, action_packet, await_ack, drain_acks, read_acks, first_batch, send_action, attempt_on,
  attempts, crane_action,
}

module _ (os : AckQueue) (s : ℕ) where
  open os use {Queue, receive}

  await-Busy :
      (log : List CranePacket) (c : Crane Queue) (fs : List Frame)
      → Busy s log c
      → Busy s log (await_ack os c fs).1
  unfolding await_ack
  await-Busy log c [] b = elim (Option-cases (receive c.acks)) [
    | inl e ↦ rw (e, await_ack) b
    | inr (found, e) ↦ rw (e, await_ack) b
  ]
  await-Busy log c (f ∷ fs) b = elim (Option-cases (receive c.acks)) [
    | inl e ↦
        rw (e, await_ack) (await-Busy log (crane_receive os c f) fs (receive-Busy os s log c f b))
    | inr (found, e) ↦
        rw (e, await_ack) (receive_all-Busy os s log (record c { acks = found.1 }) (f ∷ fs) b)
  ]

  drain-Busy :
      (log : List CranePacket) (fuel : ℕ) (c : Crane Queue) (seq : ℕ)
      → Busy s log c
      → Busy s log (drain_acks os fuel c seq).1
  unfolding drain_acks
  drain-Busy log zero c seq b = b
  drain-Busy log (suc fuel) c seq b = elim (Option-cases (receive c.acks)) [
    | inl e ↦ rw (e, drain_acks) b
    | inr (found, e) ↦
        rw (e, drain_acks)
          (drain-Busy log fuel (record c { acks = found.1 })
            (if leb found.0 seq then seq else found.0) b)
  ]

  read-Busy :
      (log : List CranePacket) (w : World Queue)
      → Busy s log w.client
      → Busy s log (read_acks os w).1.client
  unfolding read_acks
  read-Busy log w b =
      let awaited = await_ack os w.client (first_batch w.arrivals) in
      drain-Busy log 8 awaited.1 awaited.0 (await-Busy log w.client (first_batch w.arrivals) b)

-- The client after `k` retransmissions: acknowledged, connected and one number further; or else
-- closed by one CLOSE.
abbrev pub Finished :
    {Q : Type 0} → ℕ → CranePacket → List CranePacket → ActionResult → Crane Q → Type 0
Finished s packet log acked c =
    (s < 65535) × (c.phase ≡ connected) × (c.seq ≡ s + 1) × (packets c ≡ log)
Finished s packet log _ c =
    (c.phase ≡ disconnected) × (c.seq ≡ 0) × (q : ℕ) × (packets c ≡ log ++ (close_packet q ∷ []))

matching_lem : (ack seq : ℕ) → classify ack seq ≡ matching → (ack ≡ seq) × (ack ≢ 0) × (ack ≢ 65535)
unfolding classify
matching_lem ack seq e = ground arith

module _ (os : AckQueue) (s : ℕ) (packet : CranePacket) (lo : 1 ≤ s) (hi : s < 65536) where
  open os use {Queue}

  -- After the packets `log`, an end of the attempts with at most `n` retransmissions.
  abbrev Ends : ℕ → List CranePacket → ActionResult × World Queue → Type 0
  Ends n log r = (k : ℕ) × (k ≤ n) × Finished s packet (log ++ replicate k packet) r.0 (r.1).client

  give_up_Ends :
      (n : ℕ) (log : List CranePacket) (r : ActionResult) (w : World Queue)
      → r ≢ acked
      → Busy s log w.client
      → Ends n log (r, crane_disconnect os w)
  give_up_Ends n log acked w e b = absurd (e refl)
  give_up_Ends n log failed w e b =
      let (off, zeroed, sent) = disconnect_lem os s log w b in
      (0, omega arith, (off, zeroed, (w.client).seq, rw append-nil sent))
  give_up_Ends n log unexpected w e b =
      let (off, zeroed, sent) = disconnect_lem os s log w b in
      (0, omega arith, (off, zeroed, (w.client).seq, rw append-nil sent))

  matched_Ends :
      (n : ℕ) (log : List CranePacket) (w : World Queue) (ack : ℕ)
      → classify ack (w.client).seq ≡ matching
      → Busy s log w.client
      → Ends n log
          (acked, record w { client = record (w.client) { seq = ((w.client).seq + 1) % 65536 } })
  matched_Ends n log w ack e b =
      let same = matching_lem ack (w.client).seq e in
      (0, omega arith, (ground arith, ground arith, ground arith, b.1 ∙ sym (append-nil log)))

  resend_Ends :
      (n : ℕ) (log : List CranePacket) (r : ActionResult × World Queue)
      → Ends n (log ++ (packet ∷ [])) r
      → Ends (suc n) log r
  resend_Ends n log r (k, le, f) = (
    suc k,
    omega arith,
    subst (λ l. Finished s packet l r.0 (r.1).client)
        (append_assoc log (packet ∷ []) (replicate k packet)) f,
  )

  skip_Ends :
      (n : ℕ) (log : List CranePacket) (r : ActionResult × World Queue)
      → Ends n log r
      → Ends (suc n) log r
  skip_Ends n log r (k, le, f) = (k, omega arith, f)

  attempt_Ends :
      (n : ℕ) (log : List CranePacket) (w : World Queue)
      → ((log' : List CranePacket) (v : World Queue)
          → Busy s log' v.client
          → Ends n log' (attempts os n packet v))
      → Busy s log w.client
      → (kind : AckKind) → classify (read_acks os w).0 ((read_acks os w).1.client).seq ≡ kind
      → Ends (suc n) log (attempts os (suc n) packet w)
  unfolding attempts attempt_on
  attempt_Ends n log w rec b no_ack e =
      let v = (read_acks os w).1 in
      rw (e, attempt_on)
        (resend_Ends n log (attempts os n packet (send_action os v packet)) (
          rec (log ++ (packet ∷ [])) (send_action os v packet)
            (send-Busy s log v.client (v.client).crane packet (read-Busy os s log w b))))
  attempt_Ends n log w rec b spurious e =
      let v = (read_acks os w).1 in
      rw (e, attempt_on)
        (skip_Ends n log (attempts os n packet v) (rec log v (read-Busy os s log w b)))
  attempt_Ends n log w rec b beyond e =
      let v = (read_acks os w).1 in
      rw (e, attempt_on) (give_up_Ends (suc n) log unexpected v (λ q. cc) (read-Busy os s log w b))
  attempt_Ends n log w rec b matching e =
      let v = (read_acks os w).1 in
      rw (e, attempt_on) (matched_Ends (suc n) log v (read_acks os w).0 e (read-Busy os s log w b))
  attempt_Ends n log w rec b stale e =
      let v = (read_acks os w).1 in
      rw (e, attempt_on)
        (skip_Ends n log (attempts os n packet v) (rec log v (read-Busy os s log w b)))

  attempts-Ends :
      (n : ℕ) (log : List CranePacket) (w : World Queue)
      → Busy s log w.client
      → Ends n log (attempts os n packet w)
  attempts-Ends zero log w b = unfold attempts in give_up_Ends 0 log failed w (λ e. cc) b
  attempts-Ends (suc n) log w b =
      attempt_Ends n log w (attempts-Ends n) b
        (classify (read_acks os w).0 ((read_acks os w).1.client).seq) refl

pub action_enters :
    (os : AckQueue) (action : ℕ) (w : World os.Queue)
    → (w.client).phase ≡ connected
    → (w.client).crane ≢ 0
    → crane_action os action w
      ≡ attempts os 5
          (action_packet (w.client).seq action)
          (send_action os w (action_packet (w.client).seq action))
unfolding crane_action
action_enters os action w on node = ground arith

-- An action on a client that is connected to a node other than 0 and at a sequence number that is not
-- 0 and fits 16 bits, whatever arrives meanwhile: its packet is sent once and at most five times more.
-- Then either it was acknowledged, and the client is connected with the next sequence number, having
-- sent nothing else; or else the client has sent one CLOSE and is disconnected. At sequence number
-- 65535 the first never happens.
pub crane_action_protocol :
    (os : AckQueue) (action : ℕ) (w : World os.Queue)
    → (w.client).phase ≡ connected
    → (w.client).crane ≢ 0
    → 1 ≤ (w.client).seq
    → (w.client).seq < 65536
    → let packet = action_packet (w.client).seq action in
      let r = crane_action os action w in
      (k : ℕ) × (k ≤ 5)
      × Finished
          (w.client).seq
          packet
          (packets w.client ++ replicate (suc k) packet)
          r.0
          (r.1).client
crane_action_protocol os action w on node lo hi =
    let packet = action_packet (w.client).seq action in
    let log = packets w.client ++ (packet ∷ []) in
    let (k, le, ends) =
      attempts-Ends os (w.client).seq packet lo hi 5 log (send_action os w packet) (
        send-Busy (w.client).seq (packets w.client) w.client (w.client).crane packet
          (inl (on, refl), refl)) in
    (
      k,
      le,
      rw (action_enters os action w on node) (
          subst
            (λ l.
              Finished (w.client).seq packet l (attempts os 5 packet (send_action os w packet)).0
                ((attempts os 5 packet (send_action os w packet)).1).client)
            (append_assoc (packets w.client) (packet ∷ []) (replicate k packet)) ends),
    )
