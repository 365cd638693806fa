-- ===== src/Crane/Action/Reads.antt =====
-- What read_acks returns, and one attempt of crane_action by it.
use tol103m_assignment_p.Base.{
  ℕ, suc, ◌+◌, ◌%◌, ◌≡◌, ◌≢◌, refl, ap, ◌∙◌, arith, List, [], ◌∷◌, none, some, bit_and,
}
use tol103m_assignment_p.Lownet.Frame.{Frame}
use tol103m_assignment_p.Crane.Packet.{CranePacket, packet_of_bytes}
use tol103m_assignment_p.Crane.Machine.{
  AckQueue, IsAckQueue, Crane, World, crane_disconnect, crane_receive, crane_dispatch,
  crane_recv_status, receive_all,
}
use tol103m_assignment_p.Crane.Action.{
  acked, unexpected, matching, beyond, classify, await_ack, drain_acks, read_acks, send_action,
  attempt_on, attempts,
}

-- A frame with a status that acknowledges `s`.
abbrev pub Acknowledges : Frame → ℕ → Type 0
Acknowledges f s =
    let p = packet_of_bytes f.payload in (p.type ≡ 2) × (bit_and p.flags 4 ≡ 0) × (p.seq ≡ s)

pub classify_self : (s : ℕ) → s ≢ 0 → s ≢ 65535 → classify s s ≡ matching
unfolding classify
classify_self s h k = ground arith

-- One step of each part of read_acks.
module _ (os : AckQueue) where
  open os use {Queue, receive}

  pub await_timeout : (c : Crane Queue) → receive c.acks ≡ none → await_ack os c [] ≡ (0, c)
  unfolding await_ack
  await_timeout c e = rw (e, await_ack) refl

  pub await_next :
      (c : Crane Queue) (f : Frame) (fs : List Frame)
      → receive c.acks ≡ none
      → await_ack os c (f ∷ fs) ≡ await_ack os (crane_receive os c f) fs
  unfolding await_ack
  await_next c f fs e = rw (e, await_ack) refl

  pub await_first :
      (c : Crane Queue) (fs : List Frame) (x : ℕ) (q : Queue)
      → receive c.acks ≡ some (x, q)
      → await_ack os c fs ≡ (x, receive_all os (record c { acks = q }) fs)
  unfolding await_ack receive_all
  await_first c [] x q e = rw (e, await_ack) refl
  await_first c (f ∷ fs) x q e = rw (e, await_ack) refl

  pub drain_end :
      (n : ℕ) (c : Crane Queue) (seq : ℕ)
      → receive c.acks ≡ none
      → drain_acks os (suc n) c seq ≡ (seq, c)
  unfolding drain_acks
  drain_end n c seq e = rw (e, drain_acks) refl

  pub read_lem :
      (w : World Queue) (b : List Frame) (rest : List (List Frame)) (x : ℕ) (d : Crane Queue)
      → w.arrivals ≡ b ∷ rest
      → await_ack os w.client b ≡ (x, d)
      → read_acks os w
        ≡ ((drain_acks os 8 d x).0, record { client = (drain_acks os 8 d x).1; arrivals = rest })
  unfolding read_acks
  read_lem w b rest x d e a = rw (e, a) refl

-- One attempt, by what read_acks returns.
module _ (os : AckQueue) (n : ℕ) (packet : CranePacket) where
  open os use {Queue}

  attempt_read :
      (w : World Queue) (r : ℕ × World Queue)
      → read_acks os w ≡ r
      → attempts os (suc n) packet w ≡ attempt_on os (attempts os n packet) packet r
  unfolding attempts
  attempt_read w r e = ap (attempt_on os (attempts os n packet) packet) e

  pub attempts_no_ack :
      (w v : World Queue)
      → read_acks os w ≡ (0, v)
      → attempts os (suc n) packet w ≡ attempts os n packet (send_action os v packet)
  attempts_no_ack w v e = attempt_read w (0, v) e ∙ unfold attempt_on classify in refl

  pub attempts_matching :
      (w v : World Queue) (ack : ℕ)
      → read_acks os w ≡ (ack, v)
      → classify ack (v.client).seq ≡ matching
      → attempts os (suc n) packet w
        ≡ (acked, record v { client = record (v.client) { seq = ((v.client).seq + 1) % 65536 } })
  attempts_matching w v ack e m =
      attempt_read w (ack, v) e ∙ unfold attempt_on in rw (m, attempt_on) refl

  pub attempts_beyond :
      (w v : World Queue) (ack : ℕ)
      → read_acks os w ≡ (ack, v)
      → classify ack (v.client).seq ≡ beyond
      → attempts os (suc n) packet w ≡ (unexpected, crane_disconnect os v)
  attempts_beyond w v ack e m =
      attempt_read w (ack, v) e ∙ unfold attempt_on in rw (m, attempt_on) refl

module _ (os : AckQueue) (laws : IsAckQueue os) where
  open os use {Queue, send, receive}
  open laws use {contents}

  -- A wait in which nothing arrives and nothing is queued.
  pub read_silent :
      (w : World Queue) (rest : List (List Frame))
      → contents (w.client).acks ≡ []
      → w.arrivals ≡ [] ∷ rest
      → read_acks os w ≡ (0, record w { arrivals = rest })
  read_silent w rest empty e =
      let none_yet = laws.receive_empty (w.client).acks empty in
      read_lem os w [] rest 0 w.client e (await_timeout os w.client none_yet)
      ∙ ap (λ (r : ℕ × Crane Queue). (r.0, record { client = r.1; arrivals = rest }))
          (drain_end os 7 w.client 0 none_yet)

  status_queued :
      (c : Crane Queue) (f : Frame) (s : ℕ)
      → Acknowledges f s
      → s ≢ 0
      → s ≢ 65535
      → (crane_receive os c f).acks ≡ send c.acks s
  unfolding crane_receive crane_dispatch crane_recv_status
  status_queued c f s a h k = ground arith

  pub status_keeps :
      (c : Crane Queue) (f : Frame) (s : ℕ)
      → Acknowledges f s
      → let d = crane_receive os c f in
        (d.phase ≡ c.phase) × (d.seq ≡ c.seq) × (d.crane ≡ c.crane) × (d.sent ≡ c.sent)
  unfolding crane_receive crane_dispatch crane_recv_status
  status_keeps c f s a = ground arith

  -- A wait in which one acknowledgement arrives: it is returned, and the queue is empty again.
  pub read_exact :
      (w : World Queue) (f : Frame) (s : ℕ) (rest : List (List Frame))
      → contents (w.client).acks ≡ []
      → w.arrivals ≡ (f ∷ []) ∷ rest
      → Acknowledges f s
      → s ≢ 0
      → s ≢ 65535
      → (q : Queue) × (contents q ≡ [])
        × (read_acks os w ≡ (
          s,
          record { client = record (crane_receive os w.client f) { acks = q }; arrivals = rest },
        ))
  read_exact w f s rest empty e a h k =
      let c = crane_receive os w.client f in
      let queued : contents c.acks ≡ s ∷ [] =
        ap contents (status_queued w.client f s a h k)
        ∙ laws.contents-send (w.client).acks s
        ∙ (rw empty refl) in
      let (q, got, left) = laws.receive_first c.acks s [] queued in
      let d : Crane Queue = record c { acks = q } in
      (
        q,
        left,
        read_lem os w (f ∷ []) rest s d e (
              await_next os w.client f [] (laws.receive_empty (w.client).acks empty)
              ∙ await_first os c [] s q got
              ∙ unfold receive_all in refl)
            ∙ ap (λ (r : ℕ × Crane Queue). (r.0, record { client = r.1; arrivals = rest }))
                (drain_end os 7 d s (laws.receive_empty q left)),
      )

  pub read_one :
      (w : World Queue) (f : Frame) (s : ℕ) (rest : List (List Frame))
      → contents (w.client).acks ≡ []
      → w.arrivals ≡ (f ∷ []) ∷ rest
      → Acknowledges f s
      → s ≢ 0
      → s ≢ 65535
      → (v : World Queue) × (read_acks os w ≡ (s, v))
        × ((v.client).seq ≡ (w.client).seq)
        × ((v.client).sent ≡ (w.client).sent)
        × (v.arrivals ≡ rest)
  read_one w f s rest empty e a h k =
      let (q, left, read) = read_exact w f s rest empty e a h k in
      let keeps = status_keeps w.client f s a in
      (
        record { client = record (crane_receive os w.client f) { acks = q }; arrivals = rest },
        read,
        keeps.1,
        keeps.3,
        refl,
      )
  -- Where the acknowledgement comes after `n` silent waits, within the attempts.
