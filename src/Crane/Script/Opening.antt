-- ===== src/Crane/Script/Opening.antt =====
-- How crane_test ends.
use tol103m_assignment_p.Base.{
  ℕ, zero, suc, ◌≡◌, ◌≢◌, refl, ap, sym, subst, ◌∙◌, ◌⊎◌, inl, inr, arith, List, [], ◌∷◌, ◌++◌,
  Bool, false, if◌then◌else◌, Bool-cases,
}
use tol103m_assignment_p.Lownet.Frame.{Frame}
use tol103m_assignment_p.Crane.Packet.{CranePacket, packet_of_bytes}
use tol103m_assignment_p.Crane.Machine.{
  AckQueue, Crane, World, Phase, disconnected, handshake, connected, is_connected, packets,
  syn_packet, crane_send, crane_recv_connect, crane_recv_status, crane_recv_close, crane_connect,
  crane_dispatch, crane_receive, receive_all, delay, crane_disconnect,
}
use tol103m_assignment_p.Crane.Machine.Phases.{packets-send}
use tol103m_assignment_p.Crane.Script.{wait_connected, test_syn, test_pattern, crane_test}

-- The handshake with node id is still open, with no packets sent but those of `log`.
abbrev StillOpen : {Q : Type 0} → ℕ → List CranePacket → Crane Q → Type 0
StillOpen id log c = (c.phase ≡ handshake) × (c.crane ≡ id) × (c.seq ≡ 0) × (packets c ≡ log)

abbrev Waiting : {Q : Type 0} → ℕ → List CranePacket → Crane Q → Type 0
Waiting id log c = (c.phase ≡ connected) ⊎ ((c.phase ≡ disconnected) ⊎ StillOpen id log c)

not_connected : (p : Phase) → is_connected p ≡ false → p ≢ connected
not_connected disconnected e = λ h. cc
not_connected handshake e = λ h. cc
not_connected connected e = cc

module _ (os : AckQueue) (id : ℕ) (log : List CranePacket) where
  open os use {Queue}

  dispatch-Waiting :
      (c : Crane Queue) (p : CranePacket)
      → Waiting id log c
      → Waiting id log (crane_dispatch os c p)
  unfolding crane_dispatch crane_recv_connect crane_recv_status crane_recv_close crane_send
  dispatch-Waiting c p w = ground arith

  receive_all-Waiting :
      (c : Crane Queue) (fs : List Frame) → Waiting id log c → Waiting id log (receive_all os c fs)
  unfolding receive_all crane_receive
  receive_all-Waiting c [] w = w
  receive_all-Waiting c (f ∷ fs) w =
      receive_all-Waiting (crane_receive os c f) fs
        (dispatch-Waiting c (packet_of_bytes f.payload) w)

  delay-Waiting : (w : World Queue) → Waiting id log w.client → Waiting id log (delay os w).client
  delay-Waiting w i = by_batches w.arrivals refl
    where
      by_batches : (b : List (List Frame)) → w.arrivals ≡ b → Waiting id log (delay os w).client
      by_batches [] e = unfold delay in rw (e, delay) i
      by_batches (b ∷ rest) e = unfold delay in rw (e, delay) (receive_all-Waiting w.client b i)

  wait_connected-Waiting :
      (n : ℕ) (w : World Queue)
      → Waiting id log w.client
      → Waiting id log (wait_connected os n w).client
  unfolding wait_connected
  wait_connected-Waiting zero w i = i
  wait_connected-Waiting (suc n) w i = elim (Bool-cases (is_connected (w.client).phase)) [
    | inl on ↦ rw on i
    | inr off ↦ rw off (wait_connected-Waiting n (delay os w) (delay-Waiting w i))
  ]

module _ (os : AckQueue) (id : ℕ) (w : World os.Queue) where
  test_syn-Waiting : Waiting id (packets w.client ++ (syn_packet 9 ∷ [])) (test_syn id w.client)
  unfolding test_syn
  test_syn-Waiting = inr (
      inr (
        unfold crane_send in refl,
        unfold crane_send in refl,
        unfold crane_send in refl,
        packets-send (record (w.client) { crane = id; phase = handshake; seq = 0 }) id
            (syn_packet 9),
      ))

  test_pattern-disconnected : (v : World os.Queue) → (test_pattern os v).client.phase ≡ disconnected
  unfolding test_pattern crane_disconnect
  test_pattern-disconnected v = refl

  connect_refused :
      (c : Crane os.Queue) (other : ℕ) → c.phase ≡ handshake → crane_connect c other ≡ c
  unfolding crane_connect
  connect_refused c other h = ground arith

  abbrev Ended : ℕ → Crane os.Queue → Type 0
  Ended other d =
      (d.phase ≡ disconnected)
      ⊎ ((d.phase ≡ handshake)
          × (d.crane ≡ id)
          × (d.seq ≡ 0)
          × (packets d ≡ packets w.client ++ (syn_packet 9 ∷ []))
          × (crane_connect d other ≡ d))

  unconnected-Ended :
      (other : ℕ) (c : Crane os.Queue)
      → is_connected c.phase ≡ false
      → Waiting id (packets w.client ++ (syn_packet 9 ∷ [])) c
      → Ended other c
  unconnected-Ended other c off (inl on) = absurd (not_connected c.phase off on)
  unconnected-Ended other c off (inr (inl closed)) = inl closed
  unconnected-Ended other c off (inr (inr (open', node, seq, sent))) =
      inr (open', node, seq, sent, connect_refused c other open')

  -- crane_test leaves the client disconnected, whatever state it started in and whatever arrives, or
  -- still in a handshake with the node that it was given, with the SYN and TEST packet as the only one
  -- sent; and then crane_connect, to any node, changes nothing.
  pub crane_test_lem :
      (other : ℕ)
      → let d = (crane_test os id w).client in
        (d.phase ≡ disconnected)
        ⊎ ((d.phase ≡ handshake)
            × (d.crane ≡ id)
            × (d.seq ≡ 0)
            × (packets d ≡ packets w.client ++ (syn_packet 9 ∷ []))
            × (crane_connect d other ≡ d))
  unfolding crane_test
  crane_test_lem other =
      let start = record w { client = test_syn id w.client } in
      let waited = wait_connected os 30 start in
      let ends = λ (b : Bool). if b then test_pattern os waited else waited in
      elim (Bool-cases (is_connected (waited.client).phase)) [
        | inl on ↦
            inl (ap (λ (b : Bool). (ends b).client.phase) on ∙ test_pattern-disconnected waited)
        | inr off ↦
            subst (λ (b : Bool). Ended other (ends b).client) (sym off)
              (unconnected-Ended other waited.client off (
                wait_connected-Waiting os id (packets w.client ++ (syn_packet 9 ∷ [])) 30 start
                  test_syn-Waiting))
      ]
