-- ===== src/Crane/Script/Preserved.antt =====
-- A condition on the crane client that every operation preserves.
use tol103m_assignment_p.Base.{
  ℕ, zero, suc, ◌≤◌, ◌<◌, ◌≡◌, ◌≢◌, refl, ◌⊎◌, inl, inr, arith, List, [], ◌∷◌, ◌++◌, Bool, true,
  false, Option, none, some, ◌==◌, if◌then◌else◌, replicate, ℕ_discrete,
}
use tol103m_assignment_p.Cli.{strtok}
use tol103m_assignment_p.Utility.{node_argument}
use tol103m_assignment_p.Lownet.Frame.{Frame}
use tol103m_assignment_p.Crane.Packet.{CranePacket, packet_of_bytes}
use tol103m_assignment_p.Crane.Machine.{
  AckQueue, Crane, World, Phase, disconnected, handshake, connected, is_connected, packets,
  crane_send, crane_recv_connect, crane_recv_status, crane_recv_close, crane_connect,
  crane_dispatch, crane_receive, receive_all, delay, crane_disconnect,
}
use tol103m_assignment_p.Crane.Action.{
  ActionResult, acked, failed, unexpected, action_packet, crane_action,
}
use tol103m_assignment_p.Crane.Action.Protocol.{Finished, crane_action_protocol}
use tol103m_assignment_p.Crane.Script.{
  wait_idle, wait_connected, test_syn, test_pattern, crane_test, letter_action, first_letter,
  opened, tested, acted, worded, crane_word, crane_command,
}

-- While connected the next sequence number is not 0 and fits 16 bits; in the handshake it is 0.
abbrev pub IsClient : {Q : Type 0} → Crane Q → Type 0
IsClient c =
    (c.phase ≡ disconnected)
    ⊎ (((c.phase ≡ handshake) × (c.seq ≡ 0))
        ⊎ ((c.phase ≡ connected) × (1 ≤ c.seq) × (c.seq < 65536)))

Phase-cases : (p : Phase) → (p ≡ connected) ⊎ (p ≢ connected)
Phase-cases disconnected = inr (λ e. cc)
Phase-cases handshake = inr (λ e. cc)
Phase-cases connected = inl refl

module _ (os : AckQueue) where
  open os use {Queue}

  dispatch-IsClient :
      (c : Crane Queue) (p : CranePacket) → IsClient c → IsClient (crane_dispatch os c p)
  unfolding crane_dispatch crane_recv_connect crane_recv_status crane_recv_close crane_send
  dispatch-IsClient c p i = ground arith

  pub receive-IsClient :
      (c : Crane Queue) (f : Frame) → IsClient c → IsClient (crane_receive os c f)
  unfolding crane_receive
  receive-IsClient c f i = dispatch-IsClient c (packet_of_bytes f.payload) i

  receive_all-IsClient :
      (c : Crane Queue) (fs : List Frame) → IsClient c → IsClient (receive_all os c fs)
  unfolding receive_all
  receive_all-IsClient c [] i = i
  receive_all-IsClient c (f ∷ fs) i =
      receive_all-IsClient (crane_receive os c f) fs (receive-IsClient c f i)

  delay-IsClient : (w : World Queue) → IsClient w.client → IsClient (delay os w).client
  delay-IsClient w i = by_batches w.arrivals refl
    where
      by_batches : (b : List (List Frame)) → w.arrivals ≡ b → IsClient (delay os w).client
      by_batches [] e = unfold delay in rw (e, delay) i
      by_batches (b ∷ rest) e = unfold delay in rw (e, delay) (receive_all-IsClient w.client b i)

  connect-IsClient : (c : Crane Queue) (id : ℕ) → IsClient c → IsClient (crane_connect c id)
  unfolding crane_connect crane_send
  connect-IsClient c id i = ground arith

  disconnect-IsClient : (w : World Queue) → IsClient (crane_disconnect os w).client
  unfolding crane_disconnect
  disconnect-IsClient w = inl refl

  Finished-IsClient :
      (s : ℕ) (p : CranePacket) (log : List CranePacket) (r : ActionResult) (c : Crane Queue)
      → Finished s p log r c
      → IsClient c
  Finished-IsClient s p log acked c (small, on, next, sent) =
      inr (inr (on, omega arith, omega arith))
  Finished-IsClient s p log failed c (off, zeroed, q, sent) = inl off
  Finished-IsClient s p log unexpected c (off, zeroed, q, sent) = inl off

  refused-IsClient :
      (action : ℕ) (w : World Queue)
      → ((w.client).phase ≢ connected) ⊎ ((w.client).crane ≡ 0)
      → IsClient w.client
      → IsClient ((crane_action os action w).1).client
  unfolding crane_action
  refused-IsClient action w refused i = ground arith

  bounded : (c : Crane Queue) → IsClient c → c.phase ≡ connected → (1 ≤ c.seq) × (c.seq < 65536)
  bounded c i on = (ground arith, ground arith)

  action-IsClient :
      (action : ℕ) (w : World Queue)
      → IsClient w.client
      → IsClient ((crane_action os action w).1).client
  action-IsClient action w i = elim (Phase-cases (w.client).phase) [
    | inr off ↦ refused-IsClient action w (inl off) i
    | inl on ↦ (elim (ℕ_discrete (w.client).crane 0) [
      | yes nobody ↦ refused-IsClient action w (inr nobody) i
      | no somebody ↦
          let (low, high) = bounded w.client i on in
          let (k, few, finished) = crane_action_protocol os action w on somebody low high in
          Finished-IsClient (w.client).seq (action_packet (w.client).seq action)
            (packets w.client ++ replicate (suc k) (action_packet (w.client).seq action))
            (crane_action os action w).0 ((crane_action os action w).1).client finished
    ])
  ]

  if-IsClient :
      (b : Bool) (v w : World Queue)
      → IsClient v.client
      → IsClient w.client
      → IsClient (if b then v else w).client
  if-IsClient true v w i j = i
  if-IsClient false v w i j = j

  wait_idle-IsClient :
      (n : ℕ) (w : World Queue) → IsClient w.client → IsClient (wait_idle os n w).client
  unfolding wait_idle
  wait_idle-IsClient zero w i = i
  wait_idle-IsClient (suc n) w i =
      if-IsClient ((w.client).last_backlog == 0) w (wait_idle os n (delay os w)) i
        (wait_idle-IsClient n (delay os w) (delay-IsClient w i))

  wait_connected-IsClient :
      (n : ℕ) (w : World Queue) → IsClient w.client → IsClient (wait_connected os n w).client
  unfolding wait_connected
  wait_connected-IsClient zero w i = i
  wait_connected-IsClient (suc n) w i =
      if-IsClient (is_connected (w.client).phase) w (wait_connected os n (delay os w)) i
        (wait_connected-IsClient n (delay os w) (delay-IsClient w i))

  test_syn-IsClient : (id : ℕ) (c : Crane Queue) → IsClient (test_syn id c)
  unfolding test_syn crane_send
  test_syn-IsClient id c = inr (inl (refl, refl))

  test-IsClient : (id : ℕ) (w : World Queue) → IsClient (crane_test os id w).client
  unfolding crane_test test_pattern
  test-IsClient id w =
      let waited = wait_connected os 30 (record w { client = test_syn id w.client }) in
      if-IsClient (is_connected (waited.client).phase) (test_pattern os waited) waited
        (disconnect-IsClient _)
        (wait_connected-IsClient 30 (record w { client = test_syn id w.client })
          (test_syn-IsClient id w.client))

  opened-IsClient :
      (t : Option (List ℕ × List ℕ)) (w : World Queue)
      → IsClient w.client
      → IsClient (opened os w t).client
  opened-IsClient none w i = i
  opened-IsClient (some (id, rest)) w i = connect-IsClient w.client (node_argument id rest) i

  tested-IsClient :
      (t : Option (List ℕ × List ℕ)) (w : World Queue)
      → IsClient w.client
      → IsClient (tested os w t).client
  tested-IsClient none w i = i
  tested-IsClient (some (id, rest)) w i = test-IsClient (node_argument id rest) w

  acted-IsClient :
      (a : Option ℕ) (w : World Queue) → IsClient w.client → IsClient (acted os w a).client
  acted-IsClient none w i = i
  acted-IsClient (some action) w i = action-IsClient action w i

  word-IsClient :
      (command rest : List ℕ) (w : World Queue)
      → IsClient w.client
      → IsClient (crane_word os command rest w).client
  unfolding crane_word
  word-IsClient command rest w i = if-IsClient _ _ _ i (
      if-IsClient _ _ _ (opened-IsClient (strtok b' ' rest) w i) (
        if-IsClient _ _ _ (disconnect-IsClient w) (
          if-IsClient _ _ _ (tested-IsClient (strtok b' ' rest) w i)
            (acted-IsClient (letter_action (first_letter command)) w i))))

  worded-IsClient :
      (t : Option (List ℕ × List ℕ)) (w : World Queue)
      → IsClient w.client
      → IsClient (worded os w t).client
  worded-IsClient none w i = i
  worded-IsClient (some (command, rest)) w i = word-IsClient command rest w i

  pub command-IsClient :
      (args : Option (List ℕ)) (w : World Queue)
      → IsClient w.client
      → IsClient (crane_command os args w).client
  unfolding crane_command
  command-IsClient none w i = i
  command-IsClient (some args) w i = worded-IsClient (strtok b' ' args) w i
