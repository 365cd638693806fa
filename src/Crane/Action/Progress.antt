-- ===== src/Crane/Action/Progress.antt =====
-- An acknowledgement that comes in time ends crane_action well.
use native.Mathlib.Nat.{zero-add, suc-add}
use mathlib.Core.List.{append-nil, append_assoc}
use tol103m_assignment_p.Base.{
  ℕ, zero, suc, ◌+◌, ◌-◌, ◌%◌, ◌≤◌, ◌<◌, ◌≡◌, ◌≢◌, refl, ap, sym, ◌∙◌, arith, List, [], ◌∷◌, ◌++◌,
  replicate, map,
}
use tol103m_assignment_p.Lownet.Frame.{Frame}
use tol103m_assignment_p.Crane.Packet.{CranePacket}
use tol103m_assignment_p.Crane.Machine.{
  AckQueue, IsAckQueue, World, connected, Sent, packets, crane_send,
}
use tol103m_assignment_p.Crane.Machine.Phases.{packets-send}
use tol103m_assignment_p.Crane.Action.{
  ActionResult, acked, matching, classify, action_packet, send_action, attempts, crane_action,
}
use tol103m_assignment_p.Crane.Action.Protocol.{action_enters}
use tol103m_assignment_p.Crane.Action.Reads.{
  Acknowledges, classify_self, attempts_no_ack, attempts_matching, read_silent, read_one,
}

module _ (os : AckQueue) (laws : IsAckQueue os) where
  open os use {Queue, send, receive}
  open laws use {contents}

  -- A wait in which nothing arrives and nothing is queued.
  acked_after :
      (n m : ℕ) (packet : CranePacket) (w : World Queue) (f : Frame) (rest : List (List Frame))
      → contents (w.client).acks ≡ []
      → w.arrivals ≡ replicate n [] ++ ((f ∷ []) ∷ rest)
      → Acknowledges f (w.client).seq
      → (w.client).seq ≢ 0
      → (w.client).seq ≢ 65535
      → let r = attempts os (n + suc m) packet w in
        (r.0 ≡ acked)
        × (packets (r.1).client ≡ packets w.client ++ replicate n packet)
        × ((r.1).arrivals ≡ rest)
  unfolding crane_send
  acked_after zero m packet w f rest empty e a h k =
      let (v, got, same, sent, left) = read_one os laws w f (w.client).seq rest empty e a h k in
      let matches : classify (w.client).seq (v.client).seq ≡ matching =
        rw same (classify_self (w.client).seq h k) in
      let ends : attempts os (0 + suc m) packet w ≡ (
        acked,
        record v { client = record (v.client) { seq = ((v.client).seq + 1) % 65536 } },
      ) =
        ap (λ j. attempts os j packet w) (zero-add (suc m))
        ∙ attempts_matching os m packet w v (w.client).seq got matches in
      (
        ap (λ (r : ActionResult × World Queue). r.0) ends,
        ap (λ (r : ActionResult × World Queue). packets (r.1).client) ends
            ∙ ap (map (λ (x : Sent). x.packet)) sent
            ∙ sym (append-nil (packets w.client)),
        ap (λ (r : ActionResult × World Queue). (r.1).arrivals) ends ∙ left,
      )
  acked_after (suc n) m packet w f rest empty e a h k =
      let v : World Queue =
        send_action os (record w { arrivals = replicate n [] ++ ((f ∷ []) ∷ rest) }) packet in
      let later = acked_after n m packet v f rest empty refl a h k in
      let step : attempts os (suc n + suc m) packet w ≡ attempts os (n + suc m) packet v =
        ap (λ j. attempts os j packet w) (suc-add n (suc m))
        ∙ attempts_no_ack os (n + suc m) packet w
            (record w { arrivals = replicate n [] ++ ((f ∷ []) ∷ rest) })
            (read_silent os laws w (replicate n [] ++ ((f ∷ []) ∷ rest)) empty e) in
      (
        ap (λ (r : ActionResult × World Queue). r.0) step ∙ later.0,
        ap (λ (r : ActionResult × World Queue). packets (r.1).client) step
            ∙ later.1
            ∙ ap (λ l. l ++ replicate n packet) (packets-send w.client (w.client).crane packet)
            ∙ append_assoc (packets w.client) (packet ∷ []) (replicate n packet),
        ap (λ (r : ActionResult × World Queue). (r.1).arrivals) step ∙ later.2,
      )

-- An action on a client that is connected to a node other than 0 is acknowledged, after exactly `n`
-- retransmissions, if nothing is queued, nothing arrives during `n` waits, fewer than five, and then a
-- status that acknowledges its sequence number does, which is not 0 or 65535. No further wait is used.
pub crane_action_acked :
    (os : AckQueue) (laws : IsAckQueue os) (action n : ℕ) (w : World os.Queue) (f : Frame)
    (rest : List (List Frame))
    → (w.client).phase ≡ connected
    → (w.client).crane ≢ 0
    → 1 ≤ (w.client).seq
    → (w.client).seq < 65535
    → laws.contents (w.client).acks ≡ []
    → n < 5
    → w.arrivals ≡ replicate n [] ++ ((f ∷ []) ∷ rest)
    → Acknowledges f (w.client).seq
    → let r = crane_action os action w in
      (r.0 ≡ acked)
      × (packets (r.1).client
          ≡ packets w.client ++ replicate (suc n) (action_packet (w.client).seq action))
      × ((r.1).arrivals ≡ rest)
unfolding crane_send
crane_action_acked os laws action n w f rest on node lo hi empty few e a =
    let packet = action_packet (w.client).seq action in
    let v = send_action os w packet in
    let five : 5 ≡ n + suc (4 - n) = omega arith in
    let later =
      acked_after os laws n (4 - n) packet v f rest empty e a (omega arith) (omega arith) in
    let entry : crane_action os action w ≡ attempts os (n + suc (4 - n)) packet v =
      action_enters os action w on node ∙ ap (λ j. attempts os j packet v) five in
    rw entry (
      later.0,
      later.1
          ∙ ap (λ l. l ++ replicate n packet) (packets-send w.client (w.client).crane packet)
          ∙ append_assoc (packets w.client) (packet ∷ []) (replicate n packet),
      later.2,
    )
